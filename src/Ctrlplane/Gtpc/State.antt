-- ===== src/Ctrlplane/Gtpc/State.antt =====
-- The parse state of a GTP-C request and the callbacks that fill it: on_gtpc_parse_root,
-- on_gtpc_parse_bearer_context, gtpc_iterate_bearer_ctx_item and gtpc_iterate_pco_ipcp_item of
-- ctrlplane/src/pkt/gtpc_item_func.c, on_gtpcv1_parse_root of gtpc_item_func_v1.c.
-- `flag` and `flag_v1` are the bits of the two words. Each structure of the state is the octets
-- that are copied into it, under a number: that of its item under the root, 300 to
-- 303 for F-TEID, QoS, EBI and AMBR of the bearer, and 304 for qos; what an overlong copy writes behind
-- a structure is left out.
use mixi_pgw.Prelude.{
  ℕ, zero, suc, ◌+◌, ◌-◌, ◌%◌, ◌^◌, Bool, true, false, not, ◌&&◌, ◌||◌, ◌==◌, ltb, leb,
  if◌then◌else◌, Option, none, some, update,
}
use mixi_pgw.Ctrlplane.Gtpc.{
  Octets, shift, memcpy, u16_at, Visited, visited, stopped, capability_item_count,
}

pub record ParseState : Type 0 where
  pub flag : ℕ → Bool
  pub flag_v1 : ℕ → Bool
  pub stored : ℕ → Octets
  pub qos_len : ℕ
  pub nsapi : ℕ
  pub cause_v1 : ℕ

-- The state after an iteration, whatever it returns.
abbrev pub state_of : Visited ParseState → ParseState
state_of (visited cs) = cs
state_of (stopped cs) = cs

-- cs->flag |= (1 << bit)
unfoldable pub set_flag : ℕ → ParseState → ParseState
set_flag bit cs = record cs { flag = update cs.flag bit true }

unfoldable pub set_flag_v1 : ℕ → ParseState → ParseState
set_flag_v1 bit cs = record cs { flag_v1 = update cs.flag_v1 bit true }

-- memcpy to `at` in a structure of the state
unfoldable pub store : ℕ → ℕ → Octets → ℕ → ParseState → ParseState
store field at item len cs = record cs {
  stored = update cs.stored field (memcpy (cs.stored field) at item len);
}

-- The bit and the structure of an item, and the lengths that are accepted for it.
pub record Rule : Type 0 where
  pub bit : ℕ
  pub field : ℕ
  pub is_size : ℕ → Bool

abbrev rule : ℕ → ℕ → (ℕ → Bool) → Option Rule
rule bit field is_size = some (record { bit = bit; field = field; is_size = is_size })

abbrev upto : ℕ → ℕ → Bool
upto size len = leb len size

abbrev exactly : ℕ → ℕ → Bool
exactly size len = len == size

-- sizeof(gtpc_f_teid_t) with an IPv6 or an IPv4 address
abbrev f_teid_size : ℕ → Bool
f_teid_size len = len == 25 || len == 13

unfoldable pub root_rule : ℕ → Option Rule
root_rule type =
    if type == 76
    then rule 31 76 (upto 10)
    else if type == 1
    then rule 25 1 (upto 12)
    else if type == 3
    then rule 24 3 (exactly 5)
    else if type == 2
    then rule 23 2 (λ len. len == 10 || len == 6)
    else if type == 75
    then rule 22 75 (upto 12)
    else if type == 87
    then rule 30 87 f_teid_size
    else if type == 72
    then rule 13 72 (exactly 12)
    else if type == 94
    then rule 21 94 (exactly 8)
    else if type == 73
    then rule 20 73 (exactly 5)
    else if type == 82
    then rule 11 82 (exactly 5)
    else if type == 78
    then rule 19 78 (λ len. ltb len 258)
    else if type == 79
    then rule 18 79 (upto 26)
    else if type == 127
    then rule 17 127 (exactly 5)
    else if type == 80
    then rule 16 80 (exactly 26)
    else if type == 99
    then rule 12 99 (exactly 5)
    else none

unfoldable pub bearer_rule : ℕ → Option Rule
bearer_rule type =
    if type == 87
    then rule 29 300 f_teid_size
    else if type == 80
    then rule 27 301 (exactly 26)
    else if type == 73
    then rule 14 302 (exactly 5)
    else if type == 72
    then rule 28 303 (exactly 12)
    else none

-- An item of a wrong length is passed over.
unfoldable pub follow : Option Rule → Octets → ℕ → ParseState → ParseState
follow none item len cs = cs
follow (some r) item len cs =
    if r.is_size len then store r.field 0 item len (set_flag r.bit cs) else cs

unfoldable pub on_gtpc_parse_bearer_context : ℕ → Octets → ℕ → ParseState → Visited ParseState
on_gtpc_parse_bearer_context type item len cs = visited (follow (bearer_rule type) item len cs)

-- gtpc_iterate_bearer_ctx_item on the children of the item, with the rounds that are left. The
-- offset and the lengths are of 16 bits.
module _ {ℓ} {S : Type ℓ} (callback : ℕ → Octets → ℕ → S → Visited S) where
  unfoldable pub bearer_items : ℕ → Octets → ℕ → ℕ → S → Visited S
  bearer_items zero child len cur cs = stopped cs
  bearer_items (suc rounds) child len cur cs =
      let hlen = (u16_at child (suc cur) + 4) % 2 ^ 16 in
      let next = (cur + hlen) % 2 ^ 16 in
      elim (ltb cur len) [
        | false ↦ stopped cs
        | true ↦ elim (callback (child cur) (shift child cur) hlen cs) [
          | stopped after ↦ stopped after
          | visited after ↦ elim (ltb len next) [
            | true ↦ stopped after
            | false ↦ elim (next == len) [
              | true ↦ visited after
              | false ↦ bearer_items rounds child len next after
            ]
          ]
        ]
      ]

  unfoldable pub iterate_bearer_ctx_item : Octets → S → Visited S
  iterate_bearer_ctx_item item cs =
      bearer_items capability_item_count (shift item 4) (u16_at item 1) 0 cs

-- One option of gtpc_iterate_pco_ipcp_item: the primary or the secondary DNS.
unfoldable pub ipcp_option : ℕ → ParseState → ParseState
ipcp_option type cs =
    if type == 0x81
    then set_flag_v1 10 (set_flag 10 cs)
    else if type == 0x83
    then set_flag_v1 9 (set_flag 9 cs)
    else cs

-- ERR where the length is not that of two options.
unfoldable pub iterate_pco_ipcp_item : Octets → ParseState → Option ParseState
iterate_pco_ipcp_item item cs =
    if u16_at item 2 == 16 then some (ipcp_option (item 10) (ipcp_option (item 4) cs)) else none

-- The bit that a requested container sets in a word of flags.
unfoldable pub container_bit : ℕ → Option ℕ
container_bit type =
    if type == 0x000d
    then some 6
    else if type == 0x0003
    then some 5
    else if type == 0x0010
    then some 8
    else if type == 0x0015
    then some 7
    else none

-- A container of version 2 counts where it is empty, or where HAVE_RES_ORDER is set.
unfoldable pub on_container : ℕ → ℕ → ParseState → ParseState
on_container type pilen cs =
    if pilen == 0 || cs.flag 0
    then elim (container_bit type) [ none ↦ cs | some bit ↦ set_flag bit cs ]
    else cs

unfoldable pub on_container_v1 : ℕ → ℕ → ParseState → ParseState
on_container_v1 type pilen cs = elim (container_bit type) [
  | none ↦ cs
  | some bit ↦ set_flag_v1 bit cs
]

-- The loop over the containers of cs->pco.pco, with the rounds that are left of 255; it ends early
-- at a malformed IPCP container.
unfoldable pub pco_loop : (ℕ → ℕ → ParseState → ParseState) → ℕ → ℕ → ℕ → ParseState → ParseState
pco_loop container zero len offset cs = cs
pco_loop container (suc rounds) len offset cs =
    let pco = shift (cs.stored 78) 5 in
    let type = u16_at pco offset in
    let pilen = pco (offset + 2) in
    let after = container type pilen cs in
    elim (ltb offset len) [
      | false ↦ cs
      | true ↦ elim (type == 0x8021) [
        | false ↦ pco_loop container rounds len (offset + 3 + pilen) after
        | true ↦ elim (iterate_pco_ipcp_item (shift pco (offset + 3)) after) [
          | none ↦ after
          | some next ↦ pco_loop container rounds len (offset + 3 + pilen) next
        ]
      ]
    ]

-- ntohs(cs->pco.head.length) - 2 as a size_t
unfoldable pub pco_length : ParseState → ℕ
pco_length cs = (u16_at (cs.stored 78) 1 + 2 ^ 64 - 2) % 2 ^ 64

unfoldable pub on_gtpc_parse_root : ℕ → Octets → ℕ → ParseState → Visited ParseState
on_gtpc_parse_root type item len cs =
    let copied = follow (root_rule type) item len cs in
    if type == 93
    then iterate_bearer_ctx_item on_gtpc_parse_bearer_context item (set_flag 15 cs)
    else visited (
        if type == 78 && ltb len 258
        then pco_loop on_container 255 (pco_length copied) 0 copied
        else copied)

-- on_gtpcv1_parse_root after the tests for NULL, with HAVE_V1 set
unfoldable pub v1_item : ℕ → Octets → ℕ → ParseState → Option ParseState
v1_item type item len cs =
    if type == 1
    then some (if len == 1 then record (set_flag_v1 21 cs) { cause_v1 = item 1 } else cs)
    else if type == 17
    then some (if len == 4 then store 87 5 (shift item 1) len (set_flag_v1 28 cs) else cs)
    else if type == 16
    then some (if len == 4 then store 300 5 (shift item 1) len (set_flag_v1 29 cs) else cs)
    else if type == 2
    then some (if len == 8 then store 1 4 (shift item 1) 8 (set_flag_v1 25 cs) else cs)
    else if type == 134
    then some (if len == 7 then store 76 4 (shift item 4) 6 (set_flag_v1 30 cs) else cs)
    else if type == 133
    then some (
        if not (len == 4)
        then cs
        else if cs.flag_v1 26
        then store 300 9 (shift item 3) len (set_flag_v1 27 cs)
        else store 87 9 (shift item 3) len (set_flag_v1 26 cs))
    else if type == 135
    then some (
        if ltb len 256
        then record (set_flag_v1 24 cs) {
          stored = update cs.stored 304 (memcpy (λ _. 0) 0 (shift item 3) len);
          qos_len = len;
        }
        else cs)
    else if type == 20
    then some (if len == 1 then record (set_flag_v1 22 cs) { nsapi = item 1 % 16 } else cs)
    else if type == 132
    then some (
        if ltb len 258
        then (let copied = store 78 4 (shift item 3) len (set_flag_v1 23 cs) in
            pco_loop on_container_v1 255 (len - 1) 0 copied)
        else cs)
    else none

unfoldable pub on_gtpcv1_parse_root : ℕ → Octets → ℕ → ParseState → Option ParseState
on_gtpcv1_parse_root type item len cs =
    if len == 0 then none else v1_item type item len (set_flag_v1 1 cs)
