-- ===== src/Dataplane/Mbuf.antt =====
-- A packet buffer of the data plane: rte_mbuf with the octets of its one segment, the headers and
-- the user data of dataplane/inc/mixi_pgw_data_plane_def.hpp, and _checksum. rte_pktmbuf_prepend,
-- rte_pktmbuf_adj and rte_pktmbuf_trim are DPDK's: they are the fields of Rte, and IsRte is what their
-- documentation says.
pub mod Memory
pub mod Checksum
pub mod Headers
use mixi_pgw.Prelude.{
  ℕ, zero, suc, ◌+◌, ◌-◌, ◌*◌, ◌/◌, ◌%◌, ◌^◌, ◌≤◌, ◌<◌, ◌≡◌, Bool, ◌==◌, if◌then◌else◌, Option,
  none, some, List, [], ◌∷◌, get_or, htons,
}
use mixi_pgw.Ctrlplane.Gtpc.{Octets, shift, memcpy}
use mixi_pgw.Dataplane.Policer.{Color}
use mixi_pgw.Dataplane.Distributor.{Frame}

-- mbuf_userdat_t, in udata64
pub record UserData : Type 0 where
  pub flag : ℕ
  pub size : ℕ
  pub color : Color
  pub mode : ℕ
  pub teid : ℕ

abbrev pub mbfu_flag_dc : ℕ
mbfu_flag_dc = 0

abbrev pub mbfu_flag_pdu : ℕ
mbfu_flag_pdu = 1

-- POLICER_MODE_LTE
abbrev pub policer_mode_lte : ℕ
policer_mode_lte = 0

-- `buffer` is the segment with its headroom, whose data begins at `data_off`.
pub record Mbuf : Type 0 where
  pub buffer : Octets
  pub data_off : ℕ
  pub pkt_len : ℕ
  -- RTE_ETH_IS_IPV4_HDR and RTE_ETH_IS_IPV6_HDR of the packet type
  pub is_ipv4_hdr : Bool
  pub is_ipv6_hdr : Bool
  pub udata : UserData

-- rte_pktmbuf_mtod
abbrev pub mtod : Mbuf → Octets
mtod m = shift m.buffer m.data_off

-- memcpy(rte_pktmbuf_mtod(m, char*) + at, src, len)
unfoldable pub write : Mbuf → ℕ → Octets → ℕ → Mbuf
unfolding memcpy
write m at src len = record m { buffer = memcpy m.buffer (m.data_off + at) src len }

-- uint16_t and uint32_t, as a little-endian host reads them
abbrev pub le16 : Octets → ℕ → ℕ
le16 p i = p i + p (suc i) * 0x100

abbrev pub le32 : Octets → ℕ → ℕ
le32 p i = le16 p i + le16 p (2 + i) * 0x10000

-- one octet of a value in memory
abbrev pub octet : ℕ → ℕ → ℕ
octet value k = value / 0x100 ^ k % 0x100

-- rte_pktmbuf_prepend and rte_pktmbuf_adj, where none is NULL, and rte_pktmbuf_trim, where it is -1
pub record Rte : Type 0 where
  pub prepend : Mbuf → ℕ → Option Mbuf
  pub adj : Mbuf → ℕ → Option Mbuf
  pub trim : Mbuf → ℕ → Option Mbuf

pub record IsRte (rte : Rte) : Type 0 where
  pub prepended :
      (m : Mbuf) (len : ℕ)
      → len ≤ m.data_off
      → rte.prepend m len
        ≡ some (record m { data_off = m.data_off - len; pkt_len = m.pkt_len + len })
  pub too_long : (m : Mbuf) (len : ℕ) → m.data_off < len → rte.prepend m len ≡ none
  pub adjusted :
      (m : Mbuf) (len : ℕ)
      → len ≤ m.pkt_len
      → rte.adj m len ≡ some (record m { data_off = m.data_off + len; pkt_len = m.pkt_len - len })
  pub too_short : (m : Mbuf) (len : ℕ) → m.pkt_len < len → rte.adj m len ≡ none
  pub trimmed :
      (m : Mbuf) (len : ℕ)
      → len ≤ m.pkt_len
      → rte.trim m len ≡ some (record m { pkt_len = m.pkt_len - len })
  pub too_much : (m : Mbuf) (len : ℕ) → m.pkt_len < len → rte.trim m len ≡ none

-- struct ipv4_hdr, with the values as a little-endian host holds them
pub record Ipv4Hdr : Type 0 where
  pub version_ihl : ℕ
  pub type_of_service : ℕ
  pub total_length : ℕ
  pub packet_id : ℕ
  pub fragment_offset : ℕ
  pub time_to_live : ℕ
  pub next_proto_id : ℕ
  pub hdr_checksum : ℕ
  pub src_addr : ℕ
  pub dst_addr : ℕ

pub record UdpHdr : Type 0 where
  pub src_port : ℕ
  pub dst_port : ℕ
  pub dgram_len : ℕ
  pub dgram_cksum : ℕ

pub record GtpuHdr : Type 0 where
  pub flags : ℕ
  pub type : ℕ
  pub length : ℕ
  pub tid : ℕ

abbrev pub octets_of : List ℕ → Octets
octets_of xs i = get_or xs i 0

unfoldable pub ipv4_octets : Ipv4Hdr → Octets
ipv4_octets h = octets_of (
    h.version_ihl
    ∷ h.type_of_service
    ∷ octet h.total_length 0
    ∷ octet h.total_length 1
    ∷ octet h.packet_id 0
    ∷ octet h.packet_id 1
    ∷ octet h.fragment_offset 0
    ∷ octet h.fragment_offset 1
    ∷ h.time_to_live
    ∷ h.next_proto_id
    ∷ octet h.hdr_checksum 0
    ∷ octet h.hdr_checksum 1
    ∷ octet h.src_addr 0
    ∷ octet h.src_addr 1
    ∷ octet h.src_addr 2
    ∷ octet h.src_addr 3
    ∷ octet h.dst_addr 0
    ∷ octet h.dst_addr 1
    ∷ octet h.dst_addr 2
    ∷ octet h.dst_addr 3
    ∷ [])

unfoldable pub udp_octets : UdpHdr → Octets
udp_octets h = octets_of (
    octet h.src_port 0
    ∷ octet h.src_port 1
    ∷ octet h.dst_port 0
    ∷ octet h.dst_port 1
    ∷ octet h.dgram_len 0
    ∷ octet h.dgram_len 1
    ∷ octet h.dgram_cksum 0
    ∷ octet h.dgram_cksum 1
    ∷ [])

unfoldable pub gtpu_octets : GtpuHdr → Octets
gtpu_octets h = octets_of (
    h.flags
    ∷ h.type
    ∷ octet h.length 0
    ∷ octet h.length 1
    ∷ octet h.tid 0
    ∷ octet h.tid 1
    ∷ octet h.tid 2
    ∷ octet h.tid 3
    ∷ [])

-- the loop of _checksum over 16-bit words; an odd octet is read with the octet behind it
unfoldable pub sum_words : Octets → ℕ → ℕ → ℕ → ℕ
sum_words addr at zero sum = sum
sum_words addr at (suc zero) sum = (sum + htons (le16 addr at)) % 2 ^ 32
sum_words addr at (suc (suc count)) sum =
    sum_words addr (2 + at) count ((sum + htons (le16 addr at)) % 2 ^ 32)

-- `while (_sum>>16)`, on fuel
unfoldable pub fold_carries : ℕ → ℕ → ℕ
fold_carries zero sum = sum
fold_carries (suc fuel) sum =
    let rest = fold_carries fuel (sum % 2 ^ 16 + sum / 2 ^ 16) in
    if sum / 2 ^ 16 == 0 then sum else rest

-- _checksum
unfoldable pub checksum : Octets → ℕ → ℕ → ℕ
checksum addr len sum = 2 ^ 32 - 1 - fold_carries 3 (sum_words addr 0 len sum)

-- _wrapsum
unfoldable pub wrapsum : ℕ → ℕ
wrapsum sum = htons (sum % 2 ^ 16)

-- The fields that the packet tests of core_rx_distributor.cc read.
unfoldable pub frame_of : Mbuf → Frame
frame_of m = record {
  is_ipv4_hdr = m.is_ipv4_hdr;
  ether_type = le16 (mtod m) 12;
  next_proto_id = mtod m 23;
  dst_addr = le32 (mtod m) 30;
  dst_port = le16 (mtod m) 36;
  gtp_type = mtod m 43;
  gtp_length = le16 (mtod m) 44;
  gtp_tid = le32 (mtod m) 46;
  gtpc_version = mtod m 42 / 0x20 % 8;
  gtpc_piggy = mtod m 42 / 0x10 % 2;
}
