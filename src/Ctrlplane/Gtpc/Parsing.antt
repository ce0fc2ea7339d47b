-- ===== src/Ctrlplane/Gtpc/Parsing.antt =====
-- ctrlplane/src/pkt/gtp_alloc_packet.c: which datagrams gtpc_alloc_packet_from_payload reads, and
-- what it makes of them.
use mathlib.Core.Path.{subst}
use mixi_pgw.Prelude.{
  ℕ, ◌+◌, ◌<◌, ◌≤◌, ◌≡◌, ◌↔◌, refl, sym, ◌∙◌, arith, none, Bool-cases, inl, inr, List, [], ◌∷◌,
  length, ltb, ◌==◌, ◌||◌, not, true, false,
}
use mixi_pgw.Ctrlplane.Gtpc.{
  Octets, GtpItem, GtpPacket, made, u16_at, alloc_packet, is_echo, type_headerlen, new_header,
  parse_items, alloc_packet_from_payload, validate_header, capability_item_count, ether_max_len,
}
use mixi_pgw.Ctrlplane.Gtpc.Reading.{
  Tiles, IsCopy, Completed, parse_items-Completed, parse_items-made, made_inj, failed-made,
  Tiles-le,
}

-- What stands between the tests of the source and the loop.
record IsPlausible (payload : Octets) (len : ℕ) : Type 0 where
  valid : validate_header payload ≡ true
  exact : u16_at payload 2 + 4 ≡ len
  headed : type_headerlen (payload 1) ≤ len

type_headerlen-le : (type : ℕ) → 4 ≤ type_headerlen type
unfolding type_headerlen
type_headerlen-le type = ground arith

alloc_packet-IsCopy :
    (payload : Octets) (type : ℕ) → IsCopy payload (type_headerlen type) (alloc_packet type)
unfolding alloc_packet type_headerlen new_header u16_at
alloc_packet-IsCopy payload type = elim (Bool-cases (is_echo type)) [
  | inl e ↦ record {
    copied = λ j lo hi. absurd (omega (arith, lo, hi));
    summed = rw e refl;
    headed = omega arith;
    bounded = rw e (omega arith);
    sized = refl;
  }
  | inr e ↦ record {
    copied = λ j lo hi. absurd (omega (arith, lo, hi));
    summed = rw e refl;
    headed = omega arith;
    bounded = rw e (omega arith);
    sized = refl;
  }
]

tests_pass :
    (payload : Octets) (len : ℕ) (q : GtpPacket)
    → alloc_packet_from_payload payload len ≡ made q
    → IsPlausible payload len
unfolding alloc_packet_from_payload
tests_pass payload len q e = elim (Bool-cases (len == 0 || not (validate_header payload))) [
  | inl a ↦ absurd (failed-made none q (sym (rw (a, alloc_packet_from_payload) refl) ∙ e))
  | inr a ↦ elim (Bool-cases (u16_at payload 2 + 4 == len)) [
    | inr b ↦ absurd (failed-made none q (sym (rw (alloc_packet_from_payload, a, b) refl) ∙ e))
    | inl b ↦ elim (Bool-cases (ltb len (type_headerlen (payload 1)))) [
      | inl c ↦ absurd (failed-made none q (sym (rw (alloc_packet_from_payload, a, b, c) refl) ∙ e))
      | inr c ↦ record {
        valid = ground (arith, a);
        exact = ground (arith, b);
        headed = ground (arith, c);
      }
    ]
  ]
]

module _ (payload : Octets) (len : ℕ) (h : IsPlausible payload len) where
  pos : (len == 0) ≡ false
  pos = ground (arith, h.exact)

  exact : (u16_at payload 2 + 4 == len) ≡ true
  exact = ground (arith, h.exact)

  headed : ltb len (type_headerlen (payload 1)) ≡ false
  headed = ground (arith, h.headed)

  -- A datagram that is only a header.
  opened_only :
      (type_headerlen (payload 1) == len) ≡ true
      → alloc_packet_from_payload payload len ≡ made (alloc_packet (payload 1))
  unfolding alloc_packet_from_payload
  opened_only n = rw (alloc_packet_from_payload, pos, h.valid, exact, headed, n) refl

  opened_loop :
      (type_headerlen (payload 1) == len) ≡ false
      → alloc_packet_from_payload payload len
        ≡ parse_items capability_item_count
            (alloc_packet (payload 1))
            payload
            len
            (type_headerlen (payload 1))
  unfolding alloc_packet_from_payload
  opened_loop n = rw (alloc_packet_from_payload, pos, h.valid, exact, headed, n) refl

-- What the source's own reader leaves behind: the items of the datagram, and its octets.
abbrev pub IsRead : Octets → ℕ → GtpPacket → Type 0
IsRead payload len q =
    Tiles payload len (type_headerlen (payload 1)) q.items
    × (q.offset ≡ len)
    × (u16_at q.packet 2 ≡ u16_at payload 2)
    × ((j : ℕ) → type_headerlen (payload 1) ≤ j → j < len → q.packet j ≡ payload j)

-- The packet that a datagram with a plausible header starts from, read to the end.
abbrev IsCompleted : Octets → ℕ → GtpPacket → Type 0
IsCompleted payload len q =
    Completed payload len (type_headerlen (payload 1)) (type_headerlen-le (payload 1))
      capability_item_count (alloc_packet (payload 1)) q

accepted-IsCompleted :
    (payload : Octets) (len : ℕ) (q : GtpPacket)
    → IsPlausible payload len
    → alloc_packet_from_payload payload len ≡ made q
    → IsCompleted payload len q
unfolding alloc_packet
accepted-IsCompleted payload len q pass e = elim (Bool-cases (type_headerlen (payload 1) == len)) [
  | inl n ↦
      let end : type_headerlen (payload 1) ≡ len = ground (arith, n) in
      subst (IsCompleted payload len) (made_inj _ q (sym (opened_only payload len pass n) ∙ e))
        ([], refl, end, alloc_packet-IsCopy payload (payload 1), end, omega arith)
  | inr n ↦
      parse_items-Completed payload len (type_headerlen (payload 1)) (type_headerlen-le (payload 1))
        capability_item_count (alloc_packet (payload 1)) q (alloc_packet-IsCopy payload (payload 1))
        (sym (opened_loop payload len pass n) ∙ e)
]

-- A datagram that gtpc_alloc_packet_from_payload accepts comes out whole: the items of the packet
-- are the items that fill the datagram behind the header, in their order, with their types, places
-- and lengths; the packet ends where the datagram does, has its length field, and holds its octets
-- behind the header.
pub alloc_packet_from_payload-IsRead :
    (payload : Octets) (len : ℕ) (q : GtpPacket)
    → alloc_packet_from_payload payload len ≡ made q
    → IsRead payload len q
unfolding alloc_packet
alloc_packet_from_payload-IsRead payload len q e =
    let pass = tests_pass payload len q e in
    let (items, es, tiles, copy, end, few) = accepted-IsCompleted payload len q pass e in
    (
      subst (Tiles payload len (type_headerlen (payload 1))) (sym es) tiles,
      end,
      omega (arith, copy.summed, end, pass.exact),
      (λ j lo hi. copy.copied j lo (omega (arith, hi, end))),
    )

-- A valid header, a length field that counts all but the first four octets, less than an Ethernet
-- frame, and at most 255 items that fill the datagram behind the header.
abbrev IsAcceptable : Octets → ℕ → Type 0
IsAcceptable payload len =
    (validate_header payload ≡ true)
    × (u16_at payload 2 + 4 ≡ len)
    × (len < ether_max_len)
    × ((items : List GtpItem) × Tiles payload len (type_headerlen (payload 1)) items
        × (length items ≤ capability_item_count))

-- A datagram is accepted exactly when its header is valid, its length field is its length without
-- the first four octets, it is shorter than an Ethernet frame, and at most 255 items, taken one
-- after the other by their length fields, fill it behind the header.
pub alloc_packet_from_payload-accepts :
    (payload : Octets) (len : ℕ)
    → ((q : GtpPacket) × (alloc_packet_from_payload payload len ≡ made q)) ↔ (
        (validate_header payload ≡ true)
        × (u16_at payload 2 + 4 ≡ len)
        × (len < ether_max_len)
        × ((items : List GtpItem) × Tiles payload len (type_headerlen (payload 1)) items
            × (length items ≤ capability_item_count)))
unfolding alloc_packet
alloc_packet_from_payload-accepts payload len = (forth, back)
  where
    forth :
        (q : GtpPacket) × (alloc_packet_from_payload payload len ≡ made q)
        → IsAcceptable payload len
    forth (q, e) =
        let pass = tests_pass payload len q e in
        let (items, es, tiles, copy, end, few) = accepted-IsCompleted payload len q pass e in
        (pass.valid, pass.exact, omega (arith, copy.bounded, copy.sized, end), (items, tiles, few))

    back :
        IsAcceptable payload len
        → (q : GtpPacket) × (alloc_packet_from_payload payload len ≡ made q)
    back (valid, sum, room, ([], tiles, few)) = (
      alloc_packet (payload 1),
      opened_only payload len (record { valid = valid; exact = sum; headed = omega (arith, tiles) })
          (ground (arith, tiles)),
    )
    back (valid, sum, room, (item ∷ items, tiles, few)) =
        let head_le = type_headerlen-le (payload 1) in
        let next = type_headerlen (payload 1) + item.length in
        let on = Tiles-le payload len (type_headerlen (payload 1)) head_le next items tiles.1 in
        let pass : IsPlausible payload len = record {
          valid = valid;
          exact = sum;
          headed = omega (arith, on);
        } in
        let n : (type_headerlen (payload 1) == len) ≡ false = ground (arith, on, tiles.0.3) in
        let (q, e) =
          parse_items-made payload len (type_headerlen (payload 1)) head_le capability_item_count
            (alloc_packet (payload 1)) item items (alloc_packet-IsCopy payload (payload 1)) tiles
            (omega (arith, few)) room in
        (q, opened_loop payload len pass n ∙ e)
