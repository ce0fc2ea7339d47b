-- ===== src/Ctrlplane/Gtpc/Unforged.antt =====
-- ctrlplane/src/pkt/gtpc_item_func.c: no item of a request sets HAVE_RECORD, the bit by which the
-- handlers know that a row of the database was found.
use mixi_pgw.Prelude.{
  ℕ, zero, suc, ◌+◌, ◌%◌, ◌^◌, ◌≡◌, refl, true, false, ◌==◌, ◌&&◌, ◌||◌, ltb, Option, none, some,
  List, [], ◌∷◌, if_both, Bool-cases, inl, inr,
}
use mixi_pgw.Ctrlplane.Gtpc.{
  Octets, shift, u16_at, GtpItem, GtpPacket, Visited, visited, stopped, visit_items, iterate_item,
}
use mixi_pgw.Ctrlplane.Gtpc.State.{
  ParseState, Rule, set_flag, set_flag_v1, store, root_rule, bearer_rule, follow,
  on_gtpc_parse_bearer_context, bearer_items, iterate_bearer_ctx_item, ipcp_option,
  iterate_pco_ipcp_item, container_bit, on_container, pco_loop, pco_length, on_gtpc_parse_root,
  state_of,
}

-- HAVE_RECORD is not set.
abbrev pub IsUnforged : ParseState → Type 0
IsUnforged cs = cs.flag 26 ≡ false

abbrev OtherBit : Option Rule → Type 0
OtherBit none = true ≡ true
OtherBit (some r) = (r.bit == 26) ≡ false

abbrev OtherFlag : Option ℕ → Type 0
OtherFlag none = true ≡ true
OtherFlag (some bit) = (bit == 26) ≡ false

root_rule-OtherBit : (type : ℕ) → OtherBit (root_rule type)
unfolding root_rule
root_rule-OtherBit type = if_both OtherBit (type == 76) _ _ refl (
    if_both OtherBit (type == 1) _ _ refl (
      if_both OtherBit (type == 3) _ _ refl (
        if_both OtherBit (type == 2) _ _ refl (
          if_both OtherBit (type == 75) _ _ refl (
            if_both OtherBit (type == 87) _ _ refl (
              if_both OtherBit (type == 72) _ _ refl (
                if_both OtherBit (type == 94) _ _ refl (
                  if_both OtherBit (type == 73) _ _ refl (
                    if_both OtherBit (type == 82) _ _ refl (
                      if_both OtherBit (type == 78) _ _ refl (
                        if_both OtherBit (type == 79) _ _ refl (
                          if_both OtherBit (type == 127) _ _ refl (
                            if_both OtherBit (type == 80) _ _ refl
                              (if_both OtherBit (type == 99) _ _ refl refl))))))))))))))

bearer_rule-OtherBit : (type : ℕ) → OtherBit (bearer_rule type)
unfolding bearer_rule
bearer_rule-OtherBit type = if_both OtherBit (type == 87) _ _ refl (
    if_both OtherBit (type == 80) _ _ refl
      (if_both OtherBit (type == 73) _ _ refl (if_both OtherBit (type == 72) _ _ refl refl)))

container_bit-OtherFlag : (type : ℕ) → OtherFlag (container_bit type)
unfolding container_bit
container_bit-OtherFlag type = if_both OtherFlag (type == 0x000d) _ _ refl (
    if_both OtherFlag (type == 0x0003) _ _ refl (
      if_both OtherFlag (type == 0x0010) _ _ refl
        (if_both OtherFlag (type == 0x0015) _ _ refl refl)))

set_flag-IsUnforged :
    (bit : ℕ) (cs : ParseState) → (bit == 26) ≡ false → IsUnforged cs → IsUnforged (set_flag bit cs)
unfolding set_flag
set_flag-IsUnforged bit cs e h = rw e h

follow-IsUnforged :
    (r : Option Rule) (item : Octets) (len : ℕ) (cs : ParseState)
    → OtherBit r
    → IsUnforged cs
    → IsUnforged (follow r item len cs)
unfolding follow store
follow-IsUnforged none item len cs other h = h
follow-IsUnforged (some r) item len cs other h =
    if_both IsUnforged (r.is_size len) _ _ (set_flag-IsUnforged r.bit cs other h) h

bearer_items-IsUnforged :
    (rounds : ℕ) (child : Octets) (len cur : ℕ) (cs : ParseState)
    → IsUnforged cs
    → IsUnforged (state_of (bearer_items on_gtpc_parse_bearer_context rounds child len cur cs))
unfolding bearer_items on_gtpc_parse_bearer_context
bearer_items-IsUnforged zero child len cur cs h = h
bearer_items-IsUnforged (suc rounds) child len cur cs h =
    let hlen = (u16_at child (suc cur) + 4) % 2 ^ 16 in
    let next = (cur + hlen) % 2 ^ 16 in
    let after = follow (bearer_rule (child cur)) (shift child cur) hlen cs in
    let kept : IsUnforged after =
      follow-IsUnforged (bearer_rule (child cur)) (shift child cur) hlen cs
        (bearer_rule-OtherBit (child cur)) h in
    elim (Bool-cases (ltb cur len)) [
      | inr e ↦ rw (e, bearer_items) h
      | inl e ↦ elim (Bool-cases (ltb len next)) [
        | inl f ↦ rw (e, f, bearer_items) kept
        | inr f ↦ elim (Bool-cases (next == len)) [
          | inl g ↦ rw (e, f, g, bearer_items) kept
          | inr g ↦
              rw (e, f, g, bearer_items) (bearer_items-IsUnforged rounds child len next after kept)
        ]
      ]
    ]

on_container-IsUnforged :
    (type pilen : ℕ) (cs : ParseState) → IsUnforged cs → IsUnforged (on_container type pilen cs)
unfolding on_container
on_container-IsUnforged type pilen cs h =
    if_both IsUnforged (pilen == 0 || cs.flag 0) _ _
      (set_some (container_bit type) (container_bit-OtherFlag type)) h
  where
    set_some :
        (o : Option ℕ)
        → OtherFlag o
        → IsUnforged (elim o [ none ↦ cs | some bit ↦ set_flag bit cs ])
    set_some none other = h
    set_some (some bit) other = set_flag-IsUnforged bit cs other h

ipcp_option-IsUnforged :
    (type : ℕ) (cs : ParseState) → IsUnforged cs → IsUnforged (ipcp_option type cs)
unfolding ipcp_option set_flag set_flag_v1
ipcp_option-IsUnforged type cs h =
    if_both IsUnforged (type == 0x81) _ _ h (if_both IsUnforged (type == 0x83) _ _ h h)

pco_loop-IsUnforged :
    (rounds len offset : ℕ) (cs : ParseState)
    → IsUnforged cs
    → IsUnforged (pco_loop on_container rounds len offset cs)
unfolding pco_loop iterate_pco_ipcp_item
pco_loop-IsUnforged zero len offset cs h = h
pco_loop-IsUnforged (suc rounds) len offset cs h =
    let pco = shift (cs.stored 78) 5 in
    let type = u16_at pco offset in
    let pilen = pco (offset + 2) in
    let after = on_container type pilen cs in
    let item = shift pco (offset + 3) in
    let kept : IsUnforged after = on_container-IsUnforged type pilen cs h in
    elim (Bool-cases (ltb offset len)) [
      | inr e ↦ rw (e, pco_loop) h
      | inl e ↦ elim (Bool-cases (type == 0x8021)) [
        | inr f ↦
            rw (e, f, pco_loop) (pco_loop-IsUnforged rounds len (offset + 3 + pilen) after kept)
        | inl f ↦ elim (Bool-cases (u16_at item 2 == 16)) [
          | inr g ↦ rw (e, f, g, pco_loop, iterate_pco_ipcp_item) kept
          | inl g ↦
              rw (e, f, g, pco_loop, iterate_pco_ipcp_item)
                (pco_loop-IsUnforged rounds len (offset + 3 + pilen) _
                  (ipcp_option-IsUnforged (item 10) _ (ipcp_option-IsUnforged (item 4) after kept)))
        ]
      ]
    ]

on_gtpc_parse_root-IsUnforged :
    (type : ℕ) (item : Octets) (len : ℕ) (cs : ParseState)
    → IsUnforged cs
    → IsUnforged (state_of (on_gtpc_parse_root type item len cs))
unfolding on_gtpc_parse_root iterate_bearer_ctx_item
on_gtpc_parse_root-IsUnforged type item len cs h =
    let copied = follow (root_rule type) item len cs in
    let kept : IsUnforged copied =
      follow-IsUnforged (root_rule type) item len cs (root_rule-OtherBit type) h in
    if_both (λ v. IsUnforged (state_of v)) (type == 93) _ _
      (bearer_items-IsUnforged 255 (shift item 4) (u16_at item 1) 0 (set_flag 15 cs)
        (set_flag-IsUnforged 15 cs refl h))
      (if_both IsUnforged (type == 78 && ltb len 258) _ _
        (pco_loop-IsUnforged 255 (pco_length copied) 0 copied kept) kept)

visit_items-IsUnforged :
    (packet : Octets) (items : List GtpItem) (cs : ParseState)
    → IsUnforged cs
    → IsUnforged (state_of (visit_items on_gtpc_parse_root packet items cs))
unfolding visit_items
visit_items-IsUnforged packet [] cs h = h
visit_items-IsUnforged packet (p1 ∷ rest) cs h =
    go_on (on_gtpc_parse_root p1.type (shift packet p1.offset) p1.length cs)
      (on_gtpc_parse_root-IsUnforged p1.type (shift packet p1.offset) p1.length cs h)
      (visit_items-IsUnforged packet rest)
  where
    go_on :
        (v : Visited ParseState)
        → IsUnforged (state_of v)
        → ((after : ParseState)
            → IsUnforged after
            → IsUnforged (state_of (visit_items on_gtpc_parse_root packet rest after)))
        → IsUnforged (
            state_of (elim v [
              | stopped after ↦ stopped after
              | visited after ↦ visit_items on_gtpc_parse_root packet rest after
            ]))
    go_on (stopped after) kept visit = kept
    go_on (visited after) kept visit = visit after kept

-- No packet sets HAVE_RECORD in the state that its items are read into.
pub iterate_item-IsUnforged :
    (p : GtpPacket) (cs : ParseState)
    → IsUnforged cs
    → IsUnforged (state_of (iterate_item on_gtpc_parse_root p cs))
unfolding iterate_item
iterate_item-IsUnforged p cs h = visit_items-IsUnforged p.packet p.items cs h
