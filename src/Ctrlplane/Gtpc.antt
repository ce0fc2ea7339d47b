-- ===== src/Ctrlplane/Gtpc.antt =====
-- ctrlplane/src/pkt: a GTP-C packet with the list of its items (gtp_alloc_packet.c,
-- gtpc_validate_header.c, the head of gtpc_item_func.c, gtp_free_packet.c).
-- Memory is a function from offsets to octets, so a pointer into it is a shift of that function, and
-- a read behind the end of a datagram reads what stands there. malloc is taken to succeed; a
-- pointer that the source tests for NULL is never NULL here, but for *ppkt, which is an Option.
pub mod Memory
pub mod Layout
pub mod Appending
pub mod Reading
pub mod Digits
pub mod Items
pub mod State
pub mod Unforged
pub mod Bearer
pub mod Version1
pub mod Parsing
mod Runs
use mixi_pgw.Prelude.{
  ℕ, zero, suc, ◌+◌, ◌-◌, ◌*◌, ◌/◌, ◌%◌, ◌^◌, Bool, true, false, not, ◌&&◌, ◌||◌, ◌==◌, ltb, leb,
  if◌then◌else◌, Option, none, some, List, [], ◌∷◌, ◌++◌,
}

abbrev pub Octets : Type 0
Octets = ℕ → ℕ

-- &memory[i]
abbrev pub shift : Octets → ℕ → Octets
shift memory i j = memory (i + j)

-- memcpy(&dst[at], src, len)
unfoldable pub memcpy : Octets → ℕ → Octets → ℕ → Octets
memcpy dst at src len j = if leb at j && ltb j (at + len) then src (j - at) else dst j

-- ntohs of the two octets at i
unfoldable pub u16_at : Octets → ℕ → ℕ
u16_at memory i = memory i * 0x100 + memory (suc i)

-- the two octets at i become htons(value)
unfoldable pub put_u16 : Octets → ℕ → ℕ → Octets
put_u16 memory i value j =
    if j == i then value / 0x100 % 0x100 else if j == suc i then value % 0x100 else memory j

abbrev pub ether_max_len : ℕ
ether_max_len = 1514

-- GTPC_CAPABILITY_ITEM_COUNT
abbrev pub capability_item_count : ℕ
capability_item_count = 255

pub record GtpItem : Type 0 where
  pub type : ℕ
  pub length : ℕ
  pub offset : ℕ

-- saddr and caddr hold the octets up to saddrlen and caddrlen.
pub record GtpPacket : Type 0 where
  pub items : List GtpItem
  pub count : ℕ
  pub length : ℕ
  pub offset : ℕ
  pub packet : Octets
  pub saddr : List ℕ
  pub caddr : List ℕ

-- A packet_t: the octets and their number.
pub record GenericPacket : Type 0 where
  pub payload : Octets
  pub datalen : ℕ
  pub saddr : List ℕ
  pub caddr : List ℕ

-- the echo request (1) and response (2), whose header has no tunnel
unfoldable pub is_echo : ℕ → Bool
is_echo type = type == 1 || type == 2

unfoldable pub type_headerlen : ℕ → ℕ
type_headerlen type = if is_echo type then 12 - 4 else 12

unfoldable pub type_issupported : ℕ → Bool
type_issupported type =
    is_echo type
    || type == 3
    || (leb 32 type && leb type 37)
    || type == 99
    || type == 100
    || type == 162
    || type == 164

-- the bit fields of the first octet
abbrev pub version : Octets → ℕ
version gtp = gtp 0 / 0x20 % 8

abbrev pub piggy : Octets → ℕ
piggy gtp = gtp 0 / 0x10 % 2

unfoldable pub validate_header : Octets → Bool
validate_header gtp =
    if ltb (u16_at gtp 2) 4
    then false
    else if version gtp == 2 && not (piggy gtp == 0)
    then false
    else if version gtp == 1
    then true
    else type_issupported (gtp 1) && not (ltb 12 (type_headerlen (gtp 1)))

-- The header that alloc_packet writes into the zeroed buffer; version 2, with or without a tunnel.
unfoldable pub new_header : ℕ → Octets
new_header type at =
    if at == 0
    then (if is_echo type then 0x40 else 0x48)
    else if at == 1
    then type
    else if at == 3
    then (if is_echo type then 4 else 8)
    else 0

unfoldable pub alloc_packet : ℕ → GtpPacket
alloc_packet type = record {
  items = [];
  count = 0;
  length = ether_max_len;
  offset = type_headerlen type;
  packet = new_header type;
  saddr = [];
  caddr = [];
}

-- Version 1, protocol type GTP and a sequence number.
unfoldable pub new_v1_header : ℕ → Octets
new_v1_header type at = if at == 0 then 0x32 else if at == 1 then type else 0

unfoldable pub v1_alloc_packet : ℕ → GtpPacket
v1_alloc_packet type = record {
  items = [];
  count = 0;
  length = ether_max_len;
  offset = 8;
  packet = new_v1_header type;
  saddr = [];
  caddr = [];
}

-- memcpy of the item, then the sum in the length field of the header
unfoldable pub written : GtpPacket → Octets → ℕ → Octets
written p item len =
    let copied = memcpy p.packet p.offset item len in put_u16 copied 2 (u16_at copied 2 + len)

-- ERR leaves the packet as it is.
unfoldable pub append_item : GtpPacket → ℕ → Octets → ℕ → Option GtpPacket
append_item p type item len =
    if len == 0 || leb p.length (p.offset + len)
    then none
    else some (record p {
      items = p.items ++ (record { type = type; length = len; offset = p.offset } ∷ []);
      count = (p.count + 1) % 2 ^ 16;
      offset = (p.offset + len) % 2 ^ 16;
      packet = written p item len;
    })

-- The same statements on the header of version 1, whose length field stands at the same place.
unfoldable pub v1_append_item : GtpPacket → ℕ → Octets → ℕ → Option GtpPacket
v1_append_item p type item len = append_item p type item len

-- The arguments of one call of append_item.
pub record Piece : Type 0 where
  pub type : ℕ
  pub octets : Octets
  pub len : ℕ

-- A chain of calls that breaks off at the first ERR.
unfoldable pub append_each : GtpPacket → List Piece → Option GtpPacket
append_each p [] = some p
append_each p (piece ∷ rest) = elim (append_item p piece.type piece.octets piece.len) [
  | none ↦ none
  | some q ↦ append_each q rest
]

-- OK with the packet, or ERR with what *ppkt is left to point at.
pub data Made : Type 0 where
  made : GtpPacket → Made
  failed : Option GtpPacket → Made

-- The length of the item at `offset` with its header, a uint16_t.
unfoldable pub item_length : Octets → ℕ → ℕ
item_length payload offset = (u16_at payload (suc offset) + 4) % 2 ^ 16

-- The loop, with the rounds that are left of capability_item_count.
unfoldable pub parse_items : ℕ → GtpPacket → Octets → ℕ → ℕ → Made
parse_items zero p payload len offset = failed none
parse_items (suc rounds) p payload len offset =
    let hlen = item_length payload offset in
    let next = (offset + hlen) % 2 ^ 16 in
    elim (append_item p (payload offset) (shift payload offset) hlen) [
      | none ↦ failed none
      | some q ↦ elim (ltb len next) [
        | true ↦ failed (some q)
        | false ↦ elim (next == len) [
          | true ↦ made q
          | false ↦ parse_items rounds q payload len next
        ]
      ]
    ]

unfoldable pub alloc_packet_from_payload : Octets → ℕ → Made
alloc_packet_from_payload payload len =
    if len == 0 || not (validate_header payload)
    then failed none
    else if not (u16_at payload 2 + 4 == len)
    then failed none
    else if ltb len (type_headerlen (payload 1))
    then failed none
    else if type_headerlen (payload 1) == len
    then made (alloc_packet (payload 1))
    else parse_items capability_item_count (alloc_packet (payload 1)) payload len
        (type_headerlen (payload 1))

-- What the callback makes of its state, or ERR with what it had made of it.
pub data Visited {ℓ} (S : Type ℓ) : Type ℓ where
  visited stopped : S → Visited S

module _ {ℓ} {S : Type ℓ} (callback : ℕ → Octets → ℕ → S → Visited S) where
  unfoldable pub visit_items : Octets → List GtpItem → S → Visited S
  visit_items packet [] cs = visited cs
  visit_items packet (p1 ∷ rest) cs =
      elim (callback p1.type (shift packet p1.offset) p1.length cs) [
        | stopped after ↦ stopped after
        | visited after ↦ visit_items packet rest after
      ]

  unfoldable pub iterate_item : GtpPacket → S → Visited S
  iterate_item p cs = visit_items p.packet p.items cs

-- The packet given is freed.
unfoldable pub convert_to_packet : GtpPacket → GenericPacket
convert_to_packet p = record {
  payload = memcpy (λ _. 0) 0 p.packet p.offset;
  datalen = p.offset;
  saddr = p.saddr;
  caddr = p.caddr;
}

unfoldable pub copy_packet_addr : GtpPacket → GtpPacket → GtpPacket
copy_packet_addr dpkt spkt = record dpkt { saddr = spkt.saddr; caddr = spkt.caddr }
