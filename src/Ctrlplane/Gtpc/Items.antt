-- ===== src/Ctrlplane/Gtpc/Items.antt =====
-- The items of a GTP-C packet: the functions of ctrlplane/src/pkt/gtpc_item_func.c that set one.
-- An item is the list of the octets of its structure; it is read as memory with zeros behind it. Numbers
-- stand in network byte order, the numbers of a digit pair in the lower and the upper four bits.
use mixi_pgw.Prelude.{
  ℕ, zero, suc, ◌+◌, ◌*◌, ◌/◌, ◌%◌, ◌^◌, ltb, leb, if◌then◌else◌, Option, none, some, List, [], ◌∷◌,
  ◌++◌, get_or, map,
}
use mixi_pgw.Ctrlplane.Gtpc.{Octets, u16_at, shift}
use mixi_pgw.Ctrlplane.Gtpc.Digits.{Numberdigit, digits_set}

abbrev pub octets : List ℕ → Octets
octets item i = get_or item i 0

-- The first octets of memory.
unfoldable pub prefix : ℕ → Octets → List ℕ
prefix zero memory = []
prefix (suc n) memory = memory 0 ∷ prefix n (shift memory 1)

-- ntohs(item->head.length) + sizeof(item->head), a U16
unfoldable pub item_len : List ℕ → ℕ
item_len item = (u16_at (octets item) 1 + 4) % 2 ^ 16

-- gtpc_comm_header_t
abbrev pub head : ℕ → ℕ → ℕ → List ℕ
head type len instance = type ∷ (len / 0x100 % 0x100) ∷ (len % 0x100) ∷ (instance % 0x10) ∷ []

abbrev pub be32 : ℕ → List ℕ
be32 w = (w / 0x1000000 % 0x100) ∷ (w / 0x10000 % 0x100) ∷ (w / 0x100 % 0x100) ∷ (w % 0x100) ∷ []

-- A U32 as it stands in the memory of a little-endian host.
abbrev pub le32 : ℕ → List ℕ
le32 w = (w % 0x100) ∷ (w / 0x100 % 0x100) ∷ (w / 0x10000 % 0x100) ∷ (w / 0x1000000 % 0x100) ∷ []

-- len octets of an array, with zeros behind them up to size
abbrev pub padded : ℕ → List ℕ → List ℕ
padded zero bytes = []
padded (suc size) [] = 0 ∷ padded size []
padded (suc size) (b ∷ bytes) = b ∷ padded size bytes

abbrev digit_octet : Numberdigit → ℕ
digit_octet d = d.low % 0x10 + d.high % 0x10 * 0x10

-- An item of digits; ERR for a number with too many.
abbrev digits_item : ℕ → ℕ → ℕ → Option (List ℕ)
digits_item type len digits = elim (digits_set len digits) [
  | none ↦ none
  | some ds ↦ some (head type len 0 ++ map digit_octet ds)
]

unfoldable pub imsi_set : ℕ → Option (List ℕ)
imsi_set digits = digits_item 1 8 digits

unfoldable pub msisdn_set : ℕ → Option (List ℕ)
msisdn_set digits = digits_item 76 6 digits

unfoldable pub mei_set : ℕ → Option (List ℕ)
mei_set digits = digits_item 75 8 digits

unfoldable pub recovery_set : ℕ → List ℕ
recovery_set restart_counter = head 3 1 0 ++ (restart_counter % 0x100 ∷ [])

-- Six octets of the item are sent; the others name an offending item.
unfoldable pub cause_set : ℕ → List ℕ
cause_set cause = head 2 2 0 ++ padded 6 (cause % 0x100 ∷ [])

-- The bits of a F-TEID: the interface, IPv6 and IPv4.
unfoldable pub f_teid_set : ℕ → ℕ → ℕ → Option (List ℕ) → Option (List ℕ) → Option (List ℕ)
f_teid_set inst iftype teid (some ipv4) ipv6 =
    some (head 87 9 inst ++ ((iftype % 0x20 + 0x80) ∷ be32 teid) ++ padded 16 (padded 4 ipv4))
f_teid_set inst iftype teid none (some ipv6) =
    some (head 87 21 inst ++ ((iftype % 0x20 + 0x40) ∷ be32 teid) ++ padded 16 ipv6)
f_teid_set inst iftype teid none none = none

unfoldable pub ambr_set : ℕ → ℕ → List ℕ
ambr_set uplink downlink = head 72 8 0 ++ be32 uplink ++ be32 downlink

unfoldable pub charging_id_set : ℕ → List ℕ
charging_id_set cid = head 94 4 0 ++ be32 cid

unfoldable pub ebi_set : ℕ → ℕ → List ℕ
ebi_set inst ebi = head 73 1 inst ++ (ebi % 0x10 ∷ [])

-- The octet pco_head is the caller's.
unfoldable pub pco_set : ℕ → List ℕ → ℕ → Option (List ℕ)
pco_set pco_head pco len =
    if leb 253 len then none else some (head 78 len 0 ++ (pco_head ∷ padded 253 (padded len pco)))

unfoldable pub paa_set : ℕ → List ℕ → ℕ → Option (List ℕ)
paa_set pdntype paa len =
    if ltb 21 len
    then none
    else some (head 79 (len + 1) 0 ++ (pdntype % 8 ∷ padded 21 (padded len paa)))

unfoldable pub apn_restriction_set : ℕ → List ℕ
apn_restriction_set type = head 127 1 0 ++ (type % 0x100 ∷ [])

-- Five octets of a rate in network byte order.
abbrev rate : ℕ → List ℕ
rate w = (w / 2 ^ 32 % 0x100) ∷ be32 w

unfoldable pub bearer_qos_set : ℕ → ℕ → ℕ → ℕ → ℕ → ℕ → List ℕ
bearer_qos_set flags qci max_uplink max_downlink guaranteed_uplink guaranteed_downlink =
    head 80 22 0
    ++ (flags % 0x100 ∷ qci % 0x100 ∷ rate max_uplink)
    ++ rate max_downlink
    ++ rate guaranteed_uplink
    ++ rate guaranteed_downlink

-- The values in the order of GTPC_PEID, as they stand in memory; venderid is 0.
unfoldable pub private_extension_set : List ℕ → List ℕ → List ℕ → ℕ → List ℕ → List ℕ
private_extension_set sgw_gtpu_ipv4 sgw_gtpu_teid ue_ipv4 ue_teid pgw_gtpu_ipv4 =
    head 255 28 0
    ++ (0 ∷ 0 ∷ 0 ∷ 0 ∷ le32 0xdeadbeaf)
    ++ padded 4 sgw_gtpu_ipv4
    ++ padded 4 sgw_gtpu_teid
    ++ padded 4 ue_ipv4
    ++ le32 ue_teid
    ++ padded 4 pgw_gtpu_ipv4
