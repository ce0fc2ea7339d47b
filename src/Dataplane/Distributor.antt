-- ===== src/Dataplane/Distributor.antt =====
-- dataplane/src/core/core_rx_distributor.cc and the packet tests of
-- dataplane/inc/mixi_pgw_data_plane_def.hpp: where a received frame goes. A frame is given by the
-- fields that the tests read, at the offsets of an IPv4 header without options; 16-bit fields are as
-- on the wire, so the source's htons stands here too.
mod Runs
pub mod Partition
use mixi_pgw.Prelude.{
  ℕ, Bool, true, false, not, ◌&&◌, ◌||◌, ◌==◌, ltb, if◌then◌else◌, List, [], ◌∷◌, htons, ◌%◌, ◌^◌,
}

pub record Frame : Type 0 where
  -- RTE_ETH_IS_IPV4_HDR(packet_type)
  pub is_ipv4_hdr : Bool
  pub ether_type : ℕ
  pub next_proto_id : ℕ
  pub dst_addr : ℕ
  pub dst_port : ℕ
  -- the fields of the GTP header, which gtpu_hdr and gtpc_hdr share
  pub gtp_type : ℕ
  pub gtp_length : ℕ
  pub gtp_tid : ℕ
  pub gtpc_version : ℕ
  pub gtpc_piggy : ℕ

abbrev pub ether_type_ipv4 : ℕ
ether_type_ipv4 = 0x0800

abbrev pub ipproto_udp : ℕ
ipproto_udp = 17

abbrev pub gtpu_port : ℕ
gtpu_port = 2152

abbrev pub gtpc_port : ℕ
gtpc_port = 2123

abbrev pub pgw_egress_port : ℕ
pgw_egress_port = 50999

abbrev pub gtpu_echo_req : ℕ
gtpu_echo_req = 1

abbrev pub gtpu_echo_res : ℕ
gtpu_echo_res = 2

abbrev pub gtpu_g_pdu : ℕ
gtpu_g_pdu = 255

-- PACKET_TYPE, of which these tests return three
pub data PacketType : Type 0 where
  pass encap decap : PacketType

unfoldable pub is_pdu : Frame → PacketType
is_pdu m =
    if m.ether_type == htons ether_type_ipv4
      && m.next_proto_id == ipproto_udp
      && m.dst_port == htons gtpu_port
      && m.gtp_type == gtpu_g_pdu
    then decap
    else pass

-- `dst_addr & 0x000000ff`, which is the first octet of the address on the wire
unfoldable pub is_user : Frame → PacketType
is_user m =
    if m.ether_type == htons ether_type_ipv4 && m.dst_addr % 2 ^ 8 == 0x0a then encap else pass

unfoldable pub is_udp : Frame → ℕ
is_udp bf = if bf.is_ipv4_hdr && bf.next_proto_id == ipproto_udp then bf.dst_port else 0

unfoldable pub is_gtpu : Frame → ℕ
is_gtpu bf =
    if bf.is_ipv4_hdr && bf.next_proto_id == ipproto_udp && bf.dst_port == htons gtpu_port
    then (if bf.gtp_type == gtpu_echo_req || bf.gtp_type == gtpu_echo_res then 0 else bf.gtp_tid)
    else 0

unfoldable pub is_gtpc : ℕ → Frame → ℕ
is_gtpc ether_max_len bf =
    if bf.is_ipv4_hdr && bf.next_proto_id == ipproto_udp && bf.dst_port == htons gtpc_port
    then (if ltb ether_max_len (htons bf.gtp_length)
        then 0
        else if not (bf.gtpc_version == 2) || not (bf.gtpc_piggy == 0)
        then 0
        else bf.gtp_type)
    else 0

-- CORE_RX_DIST_RING::EGRESS and INGRESS, and SendTapInterface
pub data Destination : Type 0 where
  egress ingress tap : Destination

-- the body of both loops of Cycle
unfoldable pub destination : Frame → Destination
destination m =
    if is_udp m == htons pgw_egress_port then egress else if is_gtpu m == 0 then tap else ingress

pub record Outputs : Type 0 where
  pub to_egress : List Frame
  pub to_ingress : List Frame
  pub to_tap : List Frame

unfoldable pub distribute : Destination → Frame → Outputs → Outputs
distribute egress m o = record o { to_egress = m ∷ o.to_egress }
distribute ingress m o = record o { to_ingress = m ∷ o.to_ingress }
distribute tap m o = record o { to_tap = m ∷ o.to_tap }

-- Cycle on a burst: what is handed to each destination, in the order of the burst
unfoldable pub cycle : List Frame → Outputs
cycle [] = record { to_egress = []; to_ingress = []; to_tap = [] }
cycle (m ∷ rest) = distribute (destination m) m (cycle rest)
