-- ===== src/Dataplane/Encap.antt =====
-- CorePgwEgressTunnelWorker::ModifyPacket (dataplane/src/core/core_pgw_egress_tunnel_worker.cc), which
-- puts a packet into GTP-U, and the headers that it shares with CoreEncapWorker. The time and whether rte_ring_sp_enqueue succeeds are arguments; none is
-- a write through NULL, which is what rte_pktmbuf_prepend returns without enough headroom.
pub mod Outer
pub mod Kept
pub mod Capsule
pub mod Wire
pub mod Sending
pub mod Tunnels
use mixi_pgw.Prelude.{
  ℕ, ◌+◌, ◌-◌, ◌%◌, ◌^◌, Bool, true, false, ◌==◌, if◌then◌else◌, Option, none, some, List, [], ◌∷◌,
  htons, htonl,
}
use mixi_pgw.Ctrlplane.Gtpc.{shift}
use mixi_pgw.Dataplane.Policer.{Item, Metered, green, masked, egress_callback, find_update}
use mixi_pgw.Dataplane.Distributor.{pass, is_user, ipproto_udp, gtpu_g_pdu}
use mixi_pgw.Dataplane.Mbuf.{
  Mbuf, Rte, UserData, Ipv4Hdr, UdpHdr, GtpuHdr, mtod, write, le32, octets_of, ipv4_octets,
  udp_octets, gtpu_octets, checksum, wrapsum, frame_of, mbfu_flag_dc, mbfu_flag_pdu,
  policer_mode_lte,
}

-- SIXRD_ENCAPPER_ADDR
abbrev pub sixrd_encapper_addr : ℕ
sixrd_encapper_addr = 0x0a0a0a0a

-- the part of CoreCounter that Inc changes here
pub record Drops : Type 0 where
  pub drop_bytes : ℕ
  pub drop_count : ℕ

-- counter_.Inc(bytes, 1, 0, 0)
unfoldable pub inc : ℕ → Drops → Drops
inc bytes c = record {
  drop_bytes = (c.drop_bytes + bytes) % 2 ^ 64;
  drop_count = (c.drop_count + 1) % 2 ^ 64;
}

-- iph_, udph_ and gtpuh_
pub record Headers : Type 0 where
  pub iph : Ipv4Hdr
  pub udph : UdpHdr
  pub gtpuh : GtpuHdr

-- what both constructors put there, but for the UDP port
unfoldable pub default_headers : ℕ → ℕ → Headers
default_headers port srcipv4 = record {
  iph = record {
    version_ihl = 0x45;
    type_of_service = 0;
    total_length = 0;
    packet_id = 1;
    fragment_offset = 0;
    time_to_live = 64;
    next_proto_id = ipproto_udp;
    hdr_checksum = 0;
    src_addr = htonl srcipv4;
    dst_addr = 0;
  };
  udph = record { src_port = htons port; dst_port = htons port; dgram_len = 0; dgram_cksum = 0 };
  gtpuh = record { flags = 0x30; type = gtpu_g_pdu; length = 0; tid = 0 };
}

-- `pkt_len - n`, cut to 16 bits
abbrev pub less : ℕ → ℕ → ℕ
less len n = (len + 2 ^ 16 - n) % 2 ^ 16

-- the length fields, in network byte order
unfoldable pub with_lengths : ℕ → Headers → Headers
with_lengths len h = record {
  iph = record h.iph { total_length = htons (less len 14) };
  udph = record h.udph { dgram_cksum = 0; dgram_len = htons (less len 34) };
  gtpuh = record h.gtpuh { length = htons (less len 50) };
}

-- hdr_checksum over the header whose checksum is 0
unfoldable pub with_checksum : Ipv4Hdr → Ipv4Hdr
unfolding ipv4_octets checksum wrapsum
with_checksum h =
    let h0 = record h { hdr_checksum = 0 } in
    record h0 { hdr_checksum = wrapsum (checksum (ipv4_octets h0) 20 0) }

-- the three headers behind the Ethernet header
unfoldable pub put_headers : Headers → Mbuf → Mbuf
unfolding write ipv4_octets udp_octets gtpu_octets
put_headers h m =
    let with_ip = write m 14 (ipv4_octets h.iph) 20 in
    let with_udp = write with_ip 34 (udp_octets h.udph) 8 in
    write with_udp 42 (gtpu_octets h.gtpuh) 8

-- rte_memcpy(pkt, pkt + len, sizeof(struct ether_hdr))
unfoldable pub move_ether : ℕ → Mbuf → Mbuf
unfolding write
move_ether len m = write m 0 (shift (mtod m) len) 14

-- CorePgwBaseWorker, with what the callbacks keep in it between two packets, and whether
-- ring_err_ind_ is set
pub record Base : Type 0 where
  pub findtype : Bool
  pub map : List (ℕ × Item)
  pub findkey : ℕ
  pub lookup_itm : Item
  pub counter : Drops
  pub has_err_ring : Bool

-- CorePgwEgressTunnelWorker
pub record Tunneler : Type 0 where
  pub base : Base
  pub headers : Headers

-- ModifyPacket returns 0 and the caller sends the packet; or it returns 1 and the packet is in
-- ring_err_ind_ or given back; or it is in ring_err_ind_ and ModifyPacket returns 0 all the same.
pub data Verdict : Type 0 where
  sent queued freed queued_and_sent : Verdict

pub record Modified (W : Type 0) : Type 0 where
  pub mbuf : Mbuf
  pub worker : W
  pub verdict : Verdict

-- bzero(udat_) and then the flag
unfoldable pub blank_udata : UserData
blank_udata = record { flag = mbfu_flag_dc; size = 0; color = green; mode = 0; teid = 0 }

-- ip->src_addr == htonl(SIXRD_ENCAPPER_ADDR)
unfoldable pub is_sixrd : Mbuf → Bool
is_sixrd m = le32 (mtod m) 26 == htonl sixrd_encapper_addr

-- ipkey: of an IPv6 packet in IPv4 the octets 4 to 7 of its destination, the first of them made 10
unfoldable pub egress_ipkey : Mbuf → ℕ
unfolding is_sixrd masked
egress_ipkey m = if is_sixrd m then masked (le32 (mtod m) 62) + 0x0a else le32 (mtod m) 30

unfoldable pub enqueue_error : Bool → Verdict
enqueue_error true = queued
enqueue_error false = freed

-- Find failed
unfoldable pub missed : Bool → Base → Mbuf → Modified Base
unfolding inc enqueue_error
missed ring_ok w m =
    let w' = record w { counter = inc m.pkt_len w.counter } in
    if w.has_err_ring
    then record { mbuf = m; worker = w'; verdict = enqueue_error ring_ok }
    else record {
      mbuf = record m { udata = record m.udata { flag = mbfu_flag_dc } };
      worker = w';
      verdict = sent;
    }

-- the headers for a packet of `len` octets of the tunnel `itm`
unfoldable pub tunnel_headers : ℕ → Item → Headers → Headers
unfolding with_lengths with_checksum
tunnel_headers len itm h =
    let h' = with_lengths len h in
    record h' {
      gtpuh = record h'.gtpuh { tid = itm.sgw_gtpu_teid };
      iph =
          with_checksum
            (record h'.iph { src_addr = itm.pgw_gtpu_ipv4; dst_addr = itm.sgw_gtpu_ipv4 });
    }

-- behind rte_pktmbuf_prepend by `len` octets
unfoldable pub egress_filled : Tunneler → ℕ → Mbuf → Modified Tunneler
unfolding move_ether tunnel_headers put_headers
egress_filled w len pkt =
    let h = tunnel_headers pkt.pkt_len w.base.lookup_itm w.headers in
    let full = put_headers h (move_ether len pkt) in
    record {
      mbuf = record full {
        is_ipv4_hdr = true;
        is_ipv6_hdr = false;
        udata = record full.udata { flag = mbfu_flag_pdu; mode = w.base.lookup_itm.mode % 4 };
      };
      worker = record w { headers = h };
      verdict = sent;
    }

-- from the second test for SIXRD_ENCAPPER_ADDR on; eth->ether_type is set before the prepend
unfoldable pub egress_encap : Rte → Tunneler → Mbuf → Option (Modified Tunneler)
unfolding is_sixrd write egress_filled
egress_encap rte w m =
    if is_sixrd m
    then elim (rte.prepend (write m 12 (octets_of (0x08 ∷ 0x00 ∷ [])) 2) 16) [
      | none ↦ none
      | some pkt ↦ some (egress_filled w 16 pkt)
    ]
    else elim (rte.prepend m 36) [ none ↦ none | some pkt ↦ some (egress_filled w 36 pkt) ]

-- what is done with the result of Find
unfoldable pub egress_looked_up :
    Rte → Bool → Tunneler → Mbuf → List (ℕ × Item) × Option Metered → Option (Modified Tunneler)
unfolding missed egress_encap
egress_looked_up rte ring_ok w m (map, none) =
    let r = missed ring_ok w.base m in
    some (record { mbuf = r.mbuf; worker = record w { base = r.worker }; verdict = r.verdict })
egress_looked_up rte ring_ok w m (map, some found) =
    let base = record w.base { map = map; lookup_itm = found.entry } in
    egress_encap rte (record w { base = base })
      (record m { udata = record m.udata { color = found.color; teid = found.teid } })

-- CorePgwEgressTunnelWorker::ModifyPacket
unfoldable pub egress_modify_packet : Rte → Bool → ℕ → Tunneler → Mbuf → Option (Modified Tunneler)
unfolding egress_looked_up egress_ipkey find_update egress_callback blank_udata
egress_modify_packet rte ring_ok now w m = elim (is_user (frame_of m)) [
  | pass ↦ some (record { mbuf = record m { udata = blank_udata }; worker = w; verdict = sent })
  | _ ↦
      let size = less m.pkt_len 14 % 2 ^ 12 in
      let key = masked (egress_ipkey m) in
      let teid = w.base.findkey in
      let metered = record blank_udata { size = size; mode = policer_mode_lte; teid = teid } in
      egress_looked_up rte ring_ok (record w { base = record w.base { findkey = key } })
        (record m { udata = metered })
        (find_update w.base.findtype key (egress_callback teid now size) w.base.map)
]
