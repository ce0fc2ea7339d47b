-- ===== src/Dataplane/Decap.antt =====
-- The cores that take a packet out of its tunnel: CorePgwIngressTunnelWorker::ModifyPacket
-- (dataplane/src/core/core_pgw_ingress_tunnel_worker.cc) and CoreGretermWorker::ModifyPacket
-- (core_greterm_worker.cc; its argument use_gre is false where the build defines
-- __CANNOT_USE_GRE__). Pointers that are kept over rte_pktmbuf_adj
-- point into the same segment as before.
pub mod Delivery
mod Samples
mod Runs
pub mod Roundtrip
pub mod Sixrd
pub mod Own
use mixi_pgw.Prelude.{
  ℕ, ◌+◌, ◌*◌, ◌/◌, ◌%◌, ◌^◌, Bool, true, false, not, ◌==◌, if◌then◌else◌, Option, none, some, List,
  [], ◌∷◌, htons, htonl,
}
use mixi_pgw.Ctrlplane.Gtpc.{shift, memcpy}
use mixi_pgw.Dataplane.Policer.{Item, Metered, masked, ingress_callback, find_update}
use mixi_pgw.Dataplane.Distributor.{pass, is_pdu, ipproto_udp}
use mixi_pgw.Dataplane.Mbuf.{
  Ipv4Hdr, Mbuf, Rte, mtod, write, le16, le32, octets_of, ipv4_octets, frame_of, mbfu_flag_pdu,
  policer_mode_lte,
}
use mixi_pgw.Dataplane.Encap.{
  Base, Drops, Modified, sent, freed, inc, less, blank_udata, missed, sixrd_encapper_addr,
}

-- IPPROTO_IPV6 and IPPROTO_GRE
abbrev pub ipproto_ipv6 : ℕ
ipproto_ipv6 = 41

abbrev pub ipproto_gre : ℕ
ipproto_gre = 47

-- version_ihl & 0xf0, for the IP header at an offset
abbrev pub ip_version : Mbuf → ℕ → ℕ
ip_version m at = mtod m at % 2 ^ 8 / 0x10

-- ipkey: the source address of an inner IPv4 packet, the octets 4 to 7 of that of an IPv6 packet
unfoldable pub ingress_ipkey : Mbuf → Option ℕ
ingress_ipkey m =
    if ip_version m 50 == 4
    then some (le32 (mtod m) 62)
    else if ip_version m 50 == 6
    then some (le32 (mtod m) 62)
    else none

-- memcpy(rte_pktmbuf_mtod(inpkt, char*), eh, sizeof(*eh)), with eh at the data of `m`
unfoldable pub keep_ether : Mbuf → Mbuf → Mbuf
unfolding write
keep_ether m pkt = write pkt 0 (shift pkt.buffer m.data_off) 14

-- ip_cap of the IPv6 packet in IPv4, for the gtph->length that the source reads
unfoldable pub sixrd_header : ℕ → ℕ → Ipv4Hdr
unfolding masked
sixrd_header ipkey gtph_length = record {
  version_ihl = 0x45;
  type_of_service = 0x00;
  total_length = htons (gtph_length + 20);
  packet_id = 0;
  fragment_offset = 0;
  time_to_live = 0xff;
  next_proto_id = ipproto_ipv6;
  hdr_checksum = 0;
  src_addr = masked ipkey + 0x0a;
  dst_addr = htonl sixrd_encapper_addr;
}

-- bzero(ip_cap), its fields in their order, and gtph->length where they stand; gtph points at the
-- data of `m`
unfoldable pub put_sixrd_header : ℕ → Mbuf → Mbuf → Mbuf
unfolding write ipv4_octets sixrd_header
put_sixrd_header ipkey m pkt =
    let zeroed = write pkt 14 (octets_of []) 20 in
    let begun = write zeroed 14 (octets_of (0x45 ∷ 0x00 ∷ [])) 2 in
    let gtph_length = le16 (shift begun.buffer m.data_off) 44 in
    write begun 14 (ipv4_octets (sixrd_header ipkey gtph_length)) 20

-- the packet without its tunnel, and how many of its octets are metered; none where adj fails
unfoldable pub ingress_decap : Rte → ℕ → Mbuf → Option (Mbuf × ℕ)
unfolding keep_ether put_sixrd_header memcpy
ingress_decap rte ipkey m =
    if ip_version m 50 == 6
    then elim (rte.adj m 16) [
      | none ↦ none
      | some pkt ↦
          let ether_type = octets_of (0x08 ∷ 0x00 ∷ []) in
          let typed = record pkt {
            buffer = memcpy pkt.buffer (m.data_off + 12) ether_type 2;
            is_ipv4_hdr = true;
            is_ipv6_hdr = false;
          } in
          some (
            put_sixrd_header ipkey m (keep_ether m typed),
            less (put_sixrd_header ipkey m (keep_ether m typed)).pkt_len 34 % 2 ^ 12,
          )
    ]
    else elim (rte.adj m 36) [
      | none ↦ none
      | some pkt ↦ some (
        record (keep_ether m pkt) { is_ipv4_hdr = true },
        less (keep_ether m pkt).pkt_len 14 % 2 ^ 12,
      )
    ]

-- the packet counted as dropped and given back
unfoldable pub dropped : Base → Mbuf → Modified Base
unfolding inc
dropped w m = record {
  mbuf = m;
  worker = record w { counter = inc m.pkt_len w.counter };
  verdict = freed;
}

-- what is done with the result of Find
unfoldable pub ingress_looked_up :
    Bool → Base → Mbuf → List (ℕ × Item) × Option Metered → Modified Base
unfolding missed
ingress_looked_up ring_ok w m (map, none) = missed ring_ok w m
ingress_looked_up ring_ok w m (map, some found) = record {
  mbuf = record m {
    udata = record m.udata {
      color = found.color;
      teid = found.teid;
      flag = mbfu_flag_pdu;
      mode = found.entry.mode % 4;
    };
  };
  worker = record w { map = map; lookup_itm = found.entry };
  verdict = sent;
}

-- CorePgwIngressTunnelWorker::ModifyPacket
unfoldable pub ingress_modify_packet : Rte → Bool → ℕ → Base → Mbuf → Modified Base
unfolding dropped ingress_looked_up
ingress_modify_packet rte ring_ok now w m = elim (is_pdu (frame_of m)) [
  | pass ↦ record { mbuf = record m { udata = blank_udata }; worker = w; verdict = sent }
  | _ ↦ elim (ingress_ipkey m) [
    | none ↦ dropped w (record m { udata = blank_udata })
    | some ipkey ↦ elim (ingress_decap rte ipkey (record m { udata = blank_udata })) [
      | none ↦ dropped w (record m { udata = blank_udata })
      | some (pkt, size) ↦
          let metered = record pkt.udata { size = size; mode = policer_mode_lte } in
          ingress_looked_up ring_ok (record w { findkey = ipkey }) (record pkt { udata = metered })
            (find_update w.findtype (htonl (le32 (mtod m) 46)) (ingress_callback ipkey now size)
              w.map)
    ]
  ]
]

-- the next protocol and the length of the outer IP header that are taken out of their tunnel
abbrev pub greterm_proto : Bool → ℕ
greterm_proto use_gre = if use_gre then ipproto_gre else ipproto_udp

abbrev pub greterm_iphlen : Bool → ℕ
greterm_iphlen use_gre = if use_gre then 32 else 20

-- the packet behind the 36 octets of outer headers, under the Ethernet header of `m`
unfoldable pub greterm_typed : Mbuf → Mbuf → Mbuf
unfolding write
greterm_typed m pkt =
    if ip_version pkt 14 == 4
    then record (write pkt 0 (mtod m) 14) { is_ipv4_hdr = true }
    else record (write (write pkt 0 (mtod m) 14) 12 (octets_of (0x86 ∷ 0xdd ∷ [])) 2) {
      is_ipv4_hdr = false;
      is_ipv6_hdr = true;
    }

-- CoreGretermWorker::ModifyPacket
unfoldable pub greterm_modify_packet : Bool → Rte → Drops → Mbuf → Modified Drops
unfolding inc greterm_typed
greterm_modify_packet use_gre rte counter m =
    let refused : Modified Drops = record {
      mbuf = m;
      worker = inc m.pkt_len counter;
      verdict = freed;
    } in
    if not (mtod m 23 == greterm_proto use_gre)
    then refused
    else if not (mtod m 14 % 0x10 * 4 == greterm_iphlen use_gre)
    then refused
    else elim (rte.adj m 36) [
      | none ↦ refused
      | some pkt ↦ record { mbuf = greterm_typed m pkt; worker = counter; verdict = sent }
    ]
