-- ===== src/Ctrlplane/Gtpc/Version1.antt =====
-- _ParseImsi of ctrlplane/src/proxy/proxy_event.cc, with the message table of
-- ctrlplane/src/pgw/event/event_gtpc_v1_any.c and the same two loops of event_gtpc_v1_any_req.
-- The loops over a version 1 request run on a number of rounds; `none` and `running` say that it
-- did not suffice. The octet before the first one is read as the first one.
pub mod Loops
pub mod Progress
use mixi_pgw.Prelude.{
  ℕ, zero, suc, ◌+◌, ◌-◌, ◌*◌, ◌/◌, ◌%◌, ◌^◌, Bool, true, false, not, ◌&&◌, ◌||◌, ◌==◌, ltb, leb,
  if◌then◌else◌, Option, none, some, List, [], ◌∷◌, lookup,
}
use mixi_pgw.Ctrlplane.Gtpc.{
  Octets, GtpPacket, Made, made, failed, Visited, visited, stopped, shift, u16_at, version,
  iterate_item, alloc_packet_from_payload,
}
use mixi_pgw.Ctrlplane.Gtpc.Digits.{Numberdigit, digits_get}
use mixi_pgw.Ctrlplane.Gtpc.State.{ParseState, on_gtpc_parse_root, on_gtpcv1_parse_root, state_of}

-- The entries with a length, which counts the octet of the type.
abbrev fixed_lengths : List (ℕ × ℕ)
fixed_lengths =
    (1, 2)
    ∷ (2, 9)
    ∷ (3, 7)
    ∷ (4, 5)
    ∷ (5, 5)
    ∷ (8, 2)
    ∷ (9, 29)
    ∷ (11, 2)
    ∷ (12, 4)
    ∷ (13, 2)
    ∷ (14, 2)
    ∷ (15, 2)
    ∷ (16, 5)
    ∷ (17, 5)
    ∷ (18, 6)
    ∷ (19, 2)
    ∷ (20, 2)
    ∷ (21, 2)
    ∷ (22, 10)
    ∷ (23, 2)
    ∷ (24, 2)
    ∷ (25, 3)
    ∷ (26, 3)
    ∷ (27, 3)
    ∷ (28, 3)
    ∷ (29, 2)
    ∷ (127, 5)
    ∷ []

-- pmsg->len of an entry whose type is not 0: 0 for a variable length
unfoldable pub message_len : ℕ → Option ℕ
message_len type =
    if (leb 128 type && leb type 184) || type == 251 || type == 255
    then some 0
    else lookup type fixed_lengths

-- pmsg->parser is on_gtpcv1_parse_root
unfoldable pub is_parsed : ℕ → Bool
is_parsed type =
    type == 1
    || type == 2
    || type == 16
    || type == 17
    || type == 20
    || (leb 132 type && leb type 135)

-- extlen and datalen of the item at `payload`, of 16 bits
unfoldable pub item_lengths : ℕ → Octets → ℕ × ℕ
item_lengths len payload =
    if len == 0 then ((u16_at payload 1 + 3) % 2 ^ 16, u16_at payload 1) else (len, len - 1)

-- The loop over the extension headers: the offset behind the last.
unfoldable pub skip_extensions : ℕ → Octets → ℕ → ℕ → Option ℕ
skip_extensions zero rbuf rlen offset = none
skip_extensions (suc rounds) rbuf rlen offset =
    let next = (offset + rbuf offset * 4) % 2 ^ 16 in
    elim (ltb offset rlen) [
      | false ↦ some offset
      | true ↦ elim (rbuf (next - 1) == 0) [
        | true ↦ some next
        | false ↦ skip_extensions rounds rbuf rlen next
      ]
    ]

pub data Walked : Type 0 where
  running rejected : Walked
  walked : ParseState → Walked

unfoldable pub next_offset : Octets → ℕ → ℕ → ℕ
next_offset rbuf len offset = (offset + (item_lengths len (shift rbuf offset)).0) % 2 ^ 16

unfoldable pub parse_item : Octets → ℕ → ℕ → ParseState → Option ParseState
parse_item rbuf len offset cs =
    if is_parsed (rbuf offset)
    then on_gtpcv1_parse_root (rbuf offset) (shift rbuf offset)
        (item_lengths len (shift rbuf offset)).1 cs
    else some cs

-- The loop over the items.
unfoldable pub walk_items : ℕ → Octets → ℕ → ℕ → ParseState → Walked
walk_items zero rbuf rlen offset cs = running
walk_items (suc rounds) rbuf rlen offset cs = elim (ltb offset rlen) [
  | false ↦ walked cs
  | true ↦ elim (message_len (rbuf offset)) [
    | none ↦ rejected
    | some len ↦ elim (parse_item rbuf len offset cs) [
      | none ↦ rejected
      | some after ↦ walk_items rounds rbuf rlen (next_offset rbuf len offset) after
    ]
  ]
]

-- The IMSI and the state, or ERR with a packet that is not freed, if there is one.
pub data Parsed : Type 0 where
  unfinished : Parsed
  refused : Option GtpPacket → Parsed
  parsed : ℕ → ParseState → Parsed

-- cs->imsi.digits: the lower and the upper four bits of an octet
unfoldable pub imsi_digits : ℕ → Octets → List Numberdigit
imsi_digits zero digits = []
imsi_digits (suc len) digits =
    record { low = digits 0 % 16; high = digits 0 / 16 } ∷ imsi_digits len (shift digits 1)

-- errno is not ERANGE here.
unfoldable pub imsi_of : ParseState → ℕ
imsi_of cs = (digits_get false (imsi_digits 8 (shift (cs.stored 1) 4))).0

-- HAVE_IMSI and HAVE_FTEID_C; what gtpc_iterate_item returns is not tested.
unfoldable pub parse_imsi_v2 : Octets → ℕ → ParseState → Parsed
parse_imsi_v2 rbuf rlen cs = elim (alloc_packet_from_payload rbuf (rlen % 2 ^ 16)) [
  | failed left ↦ refused left
  | made p ↦
      let after = state_of (iterate_item on_gtpc_parse_root p cs) in
      if not (after.flag 25)
      then refused (some p)
      else if not (after.flag 30)
      then refused none
      else parsed (imsi_of after) after
]

-- The octets before the first extension header or item.
unfoldable pub v1_start : Octets → ℕ
v1_start rbuf = if rbuf 0 % 8 == 0 then 8 else 12

unfoldable pub v1_items_start : ℕ → Octets → ℕ → Option ℕ
v1_items_start rounds rbuf rlen =
    if rbuf 0 / 4 % 2 == 1
    then skip_extensions rounds rbuf rlen (v1_start rbuf)
    else some (v1_start rbuf)

-- HAVE_V1_IMSI
unfoldable pub parse_imsi_v1 : ℕ → Octets → ℕ → ParseState → Parsed
parse_imsi_v1 rounds rbuf rlen cs = elim (v1_items_start rounds rbuf rlen) [
  | none ↦ unfinished
  | some offset ↦ elim (walk_items rounds rbuf rlen offset cs) [
    | running ↦ unfinished
    | rejected ↦ refused none
    | walked after ↦ if after.flag_v1 25 then parsed (imsi_of after) after else refused none
  ]
]

unfoldable pub parse_imsi : ℕ → Octets → ℕ → ParseState → Parsed
parse_imsi rounds rbuf rlen cs =
    if version rbuf == 2 then parse_imsi_v2 rbuf rlen cs else parse_imsi_v1 rounds rbuf rlen cs
