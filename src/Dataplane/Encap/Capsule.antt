-- ===== src/Dataplane/Encap/Capsule.antt =====
-- CoreEncapWorker::ModifyPacket makes packets that core_rx_distributor.cc hands to the egress workers.
use mixi_pgw.Prelude.{
  ℕ, ◌+◌, ◌-◌, ◌%◌, ◌^◌, ◌≤◌, ◌<◌, ◌≡◌, refl, ap, ◌∙◌, true, false, some, htons, arith,
}
use mixi_pgw.Ctrlplane.Gtpc.{Octets, shift}
use mixi_pgw.Dataplane.Distributor.{egress, destination, is_udp, ipproto_udp, pgw_egress_port}
use mixi_pgw.Dataplane.Mbuf.{
  Mbuf, Rte, IsRte, mtod, write, le16, le32, ipv4_octets, udp_octets, gtpu_octets, checksum,
  wrapsum, frame_of,
}
use mixi_pgw.Dataplane.Mbuf.Memory.{memcpy_after, mtod-write}
use mixi_pgw.Dataplane.Mbuf.Headers.{le16-octet, le32-octet}
use mixi_pgw.Dataplane.Encap.{
  Headers, Modified, sent, less, with_lengths, with_checksum, move_ether, put_headers,
}
use mixi_pgw.Dataplane.Encap.Outer.{Encapper, outer_dst, encap_modify_packet}
use mixi_pgw.Dataplane.Encap.Wire.{IsTunnelled, put_headers-IsTunnelled}
use mixi_pgw.Dataplane.Encap.Tunnels.{IsTunnelled-checksum}

-- What the constructor of CoreEncapWorker sets and no packet changes.
pub record HasEgressPort (h : Headers) : Type 0 where
  pub version : h.iph.version_ihl ≡ 0x45
  pub proto : h.iph.next_proto_id ≡ ipproto_udp
  pub port : h.udph.dst_port ≡ htons pgw_egress_port
  pub flags : h.gtpuh.flags ≡ 0x30
  pub type : h.gtpuh.type ≡ 0xff

-- The packet `m` of a user in a capsule that is addressed to the user.
pub record IsCapsule (m : Mbuf) (w : Encapper) (r : Modified Encapper) : Type 0 where
  pub is_sent : r.verdict ≡ sent
  pub uncounted : r.worker.counter ≡ w.counter
  pub to_egress : destination (frame_of r.mbuf) ≡ egress
  pub gtpu_flags : mtod r.mbuf 42 ≡ 0x30
  pub gtpu_type : mtod r.mbuf 43 ≡ 0xff
  pub total_length : htons (le16 (mtod r.mbuf) 16) ≡ less r.mbuf.pkt_len 14
  pub udp_length : htons (le16 (mtod r.mbuf) 38) ≡ less r.mbuf.pkt_len 34
  pub gtpu_length : htons (le16 (mtod r.mbuf) 44) ≡ less r.mbuf.pkt_len 50
  pub dst_addr : le32 (mtod r.mbuf) 30 ≡ le32 (mtod m) 30 % 2 ^ 32
  pub sum : wrapsum (checksum (shift (mtod r.mbuf) 14) 20 0) ≡ 0
  pub ether : (i : ℕ) → i < 14 → mtod r.mbuf i ≡ mtod m i
  pub inner : (i : ℕ) → 14 ≤ i → mtod r.mbuf (36 + i) ≡ mtod m i
  pub pkt_len : r.mbuf.pkt_len ≡ m.pkt_len + 36
  pub headers : HasEgressPort r.worker.headers

-- the packet after rte_pktmbuf_prepend, and the headers it gets
abbrev prepended : Mbuf → Mbuf
prepended m = record m { data_off = m.data_off - 36; pkt_len = m.pkt_len + 36 }

abbrev capsule_headers : Encapper → ℕ → ℕ → Headers
capsule_headers w len dst =
    let h = with_lengths len w.headers in
    record h { iph = with_checksum (record h.iph { dst_addr = dst }) }

moved : (m : Mbuf) (i : ℕ) → 36 ≤ m.data_off → mtod (prepended m) (36 + i) ≡ mtod m i
moved m i room = let e : m.data_off - 36 + (36 + i) ≡ m.data_off + i = omega arith in ap m.buffer e

moved_behind :
    (m : Mbuf) (i : ℕ) → 36 ≤ m.data_off → mtod (move_ether 36 (prepended m)) (36 + i) ≡ mtod m i
unfolding move_ether
moved_behind m i room =
    ap (λ f. f (36 + i)) (mtod-write (prepended m) 0 (shift (mtod (prepended m)) 36) 14)
    ∙ memcpy_after (mtod (prepended m)) 0 (shift (mtod (prepended m)) 36) 14 (36 + i) (omega arith)
    ∙ moved m i room

-- the destination that outer_dst reads
abbrev read_dst : Mbuf → ℕ
read_dst m = le32 (mtod (move_ether 36 (prepended m))) 66

read_dst_is : (m : Mbuf) → 36 ≤ m.data_off → read_dst m ≡ le32 (mtod m) 30
read_dst_is m room = omega (
  arith,
  moved_behind m 30 room,
  moved_behind m 31 room,
  moved_behind m 32 room,
  moved_behind m 33 room,
)

outer_dst-four :
    (m : Mbuf)
    → m.is_ipv4_hdr ≡ true
    → outer_dst (move_ether 36 (prepended m)) ≡ some (read_dst m, move_ether 36 (prepended m))
unfolding outer_dst move_ether write
outer_dst-four m four = rw four refl

-- A tunnelled packet to the port 50999 is for the egress workers.
to_egress :
    (h : Headers) (m : Octets) (out : Mbuf)
    → HasEgressPort h
    → out.is_ipv4_hdr ≡ true
    → IsTunnelled 36 h m (mtod out)
    → destination (frame_of out) ≡ egress
unfolding destination is_udp frame_of ipv4_octets udp_octets htons
to_egress h m out d four t =
    let proto : mtod out 23 ≡ ipproto_udp = t.ip 9 (omega arith) ∙ d.proto in
    let port : le16 (mtod out) 36 ≡ htons pgw_egress_port =
      omega
        (arith, t.udp 2 (omega arith), t.udp 3 (omega arith), le16-octet h.udph.dst_port, d.port) in
    ground (arith, four, proto, port)

put_headers_len :
    (h : Headers) (pkt : Mbuf) → (put_headers h (move_ether 36 pkt)).pkt_len ≡ pkt.pkt_len
unfolding put_headers move_ether write
put_headers_len h pkt = refl

-- A packet of IPv4 with headroom is always sent, in GTP-U of version 1 with the type of a user packet,
-- to the port 50999 and to its own destination, with the lengths of IP, UDP and GTP-U counted from the
-- length of the packet and a right checksum in the outer header: the distributor hands it to the
-- egress workers. The octets that came stand behind the 36 new ones.
pub encap_modify_packet-IsCapsule :
    (rte : Rte) (w : Encapper) (m : Mbuf)
    → IsRte rte
    → HasEgressPort w.headers
    → 36 ≤ m.data_off
    → m.is_ipv4_hdr ≡ true
    → IsCapsule m w (encap_modify_packet rte w m)
unfolding encap_modify_packet with_lengths with_checksum ipv4_octets udp_octets gtpu_octets htons
    put_headers move_ether write
encap_modify_packet-IsCapsule rte w m law d room four =
    let pkt = prepended m in
    let h = capsule_headers w pkt.pkt_len (read_dst m) in
    let full = put_headers h (move_ether 36 pkt) in
    let out = record full { is_ipv4_hdr = true; is_ipv6_hdr = false } in
    let t : IsTunnelled 36 h (mtod m) (mtod full) =
      put_headers-IsTunnelled 36 h (mtod m) pkt (omega arith) (omega arith) (λ i. moved m i room) in
    let ported : HasEgressPort h = record {
      version = d.version;
      proto = d.proto;
      port = d.port;
      flags = d.flags;
      type = d.type;
    } in
    rw (law.prepended m 36 room, outer_dst-four m four, encap_modify_packet)
      (record {
        is_sent = refl;
        uncounted = refl;
        to_egress = to_egress h (mtod m) out ported refl t;
        gtpu_flags = t.gtpu 0 (omega arith) ∙ d.flags;
        gtpu_type = t.gtpu 1 (omega arith) ∙ d.type;
        total_length = omega (arith, t.ip 2 (omega arith), t.ip 3 (omega arith));
        udp_length = omega (arith, t.udp 4 (omega arith), t.udp 5 (omega arith));
        gtpu_length = omega (arith, t.gtpu 2 (omega arith), t.gtpu 3 (omega arith));
        dst_addr = omega (
          arith,
          t.ip 16 (omega arith),
          t.ip 17 (omega arith),
          t.ip 18 (omega arith),
          t.ip 19 (omega arith),
          le32-octet (read_dst m),
          read_dst_is m room,
        );
        sum =
            IsTunnelled-checksum h
              (record (with_lengths pkt.pkt_len w.headers).iph { dst_addr = read_dst m }) (mtod m)
              (mtod full) 36 refl d.version t;
        ether = t.ether;
        inner = λ i lo. t.inner i (omega arith);
        pkt_len = put_headers_len h pkt;
        headers = ported;
      })
