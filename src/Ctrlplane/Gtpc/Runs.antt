-- ===== src/Ctrlplane/Gtpc/Runs.antt =====
-- Packets and datagrams of ctrlplane/src/pkt at concrete inputs.
use mixi_pgw.Prelude.{
  ℕ, zero, suc, ◌+◌, ◌*◌, ◌^◌, ◌<◌, ◌≤◌, ◌≡◌, ◌≢◌, ◌⊎◌, ◌↔◌, refl, false, true, none, some, List,
  [], ◌∷◌, arith, get_or, length, All, ◌-◌,
}
use mixi_pgw.Ctrlplane.Gtpc.{
  Octets, Piece, GtpItem, GtpPacket, made, shift, memcpy, visited, written, u16_at, alloc_packet,
  type_headerlen, validate_header, alloc_packet_from_payload, ether_max_len, capability_item_count,
  type_issupported, is_echo, parse_items, append_item, item_length,
}
use mixi_pgw.Ctrlplane.Gtpc.Layout.{IsLaid, append_all, accepted, append_all-IsLaid}
use mixi_pgw.Ctrlplane.Gtpc.Reading.{Tiles}
use mixi_pgw.Ctrlplane.Gtpc.Digits.{Numberdigit, digits_set, digits_get}
use mixi_pgw.Ctrlplane.Gtpc.Digits.Decimal.{digits_get-digits_set}
use mixi_pgw.Ctrlplane.Gtpc.Parsing.{
  IsRead, alloc_packet_from_payload-IsRead, alloc_packet_from_payload-accepts,
}
use mixi_pgw.Ctrlplane.Gtpc.State.{ParseState, iterate_bearer_ctx_item}
use mixi_pgw.Ctrlplane.Gtpc.Items.{item_len}
use mixi_pgw.Ctrlplane.Gtpc.Bearer.{
  BearerCtx, bearer_ctx_set, add_children, bearer_ctx_add_child, bearer_ctx_octets,
}
use mixi_pgw.Ctrlplane.Gtpc.Bearer.Children.{note, iterate_bearer_ctx_item-add_children}
use mixi_pgw.Ctrlplane.Gtpc.Version1.{parse_imsi, unfinished}
use mixi_pgw.Ctrlplane.Gtpc.Version1.Loops.{IsEmptyExtension, ComesToExtension, ComesToItem}
use mixi_pgw.Ctrlplane.Gtpc.Version1.Progress.{parse_imsi_ends, parse_imsi_hangs}

abbrev memory_of : List ℕ → Octets
memory_of octets i = get_or octets i 0

-- A recovery item.
abbrev recovery : List ℕ
recovery = 3 ∷ 0 ∷ 1 ∷ 0 ∷ 7 ∷ []

abbrev calls : List Piece
calls =
    record { type = 3; octets = memory_of recovery; len = 5 }
    ∷ record { type = 3; octets = memory_of recovery; len = 0 }
    ∷ []

append_all-IsLaid_example :
    IsLaid 4
      (type_headerlen 32)
      (append_all (alloc_packet 32) calls)
      (accepted (alloc_packet 32) calls)
append_all-IsLaid_example = append_all-IsLaid 32 calls

digits_get-digits_set_example :
    ((440100 < 10 ^ (8 * 2))
      × ((ds : List Numberdigit) × (digits_set 8 440100 ≡ some ds)
          × (digits_get false ds ≡ (440100, false))
          × (digits_get true ds ≡ (2 ^ 64 - 1, true))))
    ⊎ ((10 ^ (8 * 2) ≤ 440100) × (digits_set 8 440100 ≡ none))
digits_get-digits_set_example = digits_get-digits_set 8 440100 (omega arith) (omega arith)

-- Create Session Request with the recovery item.
abbrev datagram : Octets
datagram = memory_of (0x48 ∷ 32 ∷ 0 ∷ 13 ∷ 0 ∷ 0 ∷ 0 ∷ 0 ∷ 0 ∷ 0 ∷ 0 ∷ 0 ∷ recovery)

abbrev read_packet : GtpPacket
read_packet = record (alloc_packet 32) {
  items = record { type = 3; length = 5; offset = 12 } ∷ [];
  count = 1;
  offset = 17;
  packet = written (alloc_packet 32) (shift datagram 12) 5;
}

datagram_made : alloc_packet_from_payload datagram 17 ≡ made read_packet
unfolding alloc_packet_from_payload validate_header u16_at type_issupported is_echo type_headerlen
    parse_items append_item item_length alloc_packet
datagram_made = refl

alloc_packet_from_payload-IsRead_example : IsRead datagram 17 read_packet
alloc_packet_from_payload-IsRead_example =
    alloc_packet_from_payload-IsRead datagram 17 read_packet datagram_made

alloc_packet_from_payload-accepts_example :
    ((q : GtpPacket) × (alloc_packet_from_payload datagram 17 ≡ made q)) ↔ (
      (validate_header datagram ≡ true)
      × (u16_at datagram 2 + 4 ≡ 17)
      × (17 < ether_max_len)
      × ((items : List GtpItem) × Tiles datagram 17 (type_headerlen (datagram 1)) items
          × (length items ≤ capability_item_count)))
alloc_packet_from_payload-accepts_example = alloc_packet_from_payload-accepts datagram 17

octets-lt : (octets : List ℕ) → All (λ x. x < 2 ^ 8) octets → (j : ℕ) → memory_of octets j < 2 ^ 8
octets-lt [] all j = omega arith
octets-lt (x ∷ rest) all zero = all.0
octets-lt (x ∷ rest) all (suc j) = octets-lt rest all.1 j

abbrev new_state : ParseState
new_state = record {
  flag = λ _. false;
  flag_v1 = λ _. false;
  stored = λ _ _. 0;
  qos_len = 0;
  nsapi = 0;
  cause_v1 = 0;
}

-- Version 1 with an extension header.
abbrev v1_octets : List ℕ
v1_octets = 0x34 ∷ 16 ∷ 0 ∷ 10 ∷ 0 ∷ 0 ∷ 0 ∷ 0 ∷ 0 ∷ 1 ∷ 0 ∷ 1 ∷ 1 ∷ 0 ∷ 0 ∷ 0 ∷ 14 ∷ 9 ∷ []

parse_imsi_ends_example :
    (parse_imsi 19 (memory_of v1_octets) 18 new_state ≢ unfinished)
    ⊎ (ComesToExtension (memory_of v1_octets) 18 ⊎ ComesToItem (memory_of v1_octets) 18)
parse_imsi_ends_example =
    parse_imsi_ends (memory_of v1_octets) 18 new_state (octets-lt v1_octets (omega arith))
      (omega arith)

-- Its extension header has the length 0.
abbrev endless : Octets
endless = memory_of (0x34 ∷ 16 ∷ 0 ∷ 10 ∷ 0 ∷ 0 ∷ 0 ∷ 0 ∷ 0 ∷ 1 ∷ 0 ∷ 1 ∷ 0 ∷ 0 ∷ [])

endless-IsEmptyExtension : IsEmptyExtension endless 14 12
endless-IsEmptyExtension = record {
  inside = omega arith;
  small = omega arith;
  empty = refl;
  announced = omega arith;
}

parse_imsi_hangs_example : parse_imsi 9 endless 14 new_state ≡ unfinished
parse_imsi_hangs_example =
    parse_imsi_hangs 9 endless 14 new_state refl refl endless-IsEmptyExtension

-- A bearer context with a cause and an EBI.
abbrev bearer_cause : List ℕ
bearer_cause = 2 ∷ 0 ∷ 2 ∷ 0 ∷ 16 ∷ 0 ∷ []

abbrev bearer_ebi : List ℕ
bearer_ebi = 73 ∷ 0 ∷ 1 ∷ 0 ∷ 5 ∷ []

abbrev bearer : BearerCtx
bearer = record {
  length = 11;
  child = memcpy (memcpy (λ _. 0) 0 (memory_of bearer_cause) 6) 6 (memory_of bearer_ebi) 5;
  offset = 11;
}

bearer_added : add_children bearer_ctx_set (bearer_cause ∷ bearer_ebi ∷ []) ≡ some bearer
unfolding add_children bearer_ctx_add_child bearer_ctx_set item_len u16_at
bearer_added = refl

iterate_bearer_ctx_item-add_children_example :
    iterate_bearer_ctx_item note (bearer_ctx_octets bearer) []
    ≡ visited ((2, bearer_cause) ∷ (73, bearer_ebi) ∷ [])
unfolding item_len u16_at
iterate_bearer_ctx_item-add_children_example =
    iterate_bearer_ctx_item-add_children bearer bearer_cause (bearer_ebi ∷ []) (omega arith)
      bearer_added
