-- ===== src/Dataplane/Encap/Tunnels.antt =====
-- CorePgwEgressTunnelWorker::ModifyPacket: what becomes of a packet for a subscriber.
use mixi_pgw.Prelude.{ℕ, ◌+◌, ◌%◌, ◌^◌, ◌≤◌, ◌<◌, ◌≡◌, refl, ap, ◌∙◌, htons, arith}
use mixi_pgw.Ctrlplane.Gtpc.{Octets, shift}
use mixi_pgw.Dataplane.Policer.{Item}
use mixi_pgw.Dataplane.Distributor.{decap, is_pdu, ipproto_udp, gtpu_port}
use mixi_pgw.Dataplane.Mbuf.{
  Ipv4Hdr, Mbuf, mtod, le16, le32, ipv4_octets, udp_octets, gtpu_octets, checksum, wrapsum,
  frame_of,
}
use mixi_pgw.Dataplane.Mbuf.Headers.{le16-octet, le32-octet, wrapsum-lt, ipv4_octets_apart}
use mixi_pgw.Dataplane.Mbuf.Checksum.{wrapsum-checksum_complete}
use mixi_pgw.Dataplane.Encap.{Headers, tunnel_headers, with_lengths, with_checksum, less}
use mixi_pgw.Dataplane.Encap.Wire.{IsTunnelled}

-- The fields that the constructor sets and no packet changes.
pub record HasDefaults (h : Headers) : Type 0 where
  pub version : h.iph.version_ihl ≡ 0x45
  pub proto : h.iph.next_proto_id ≡ ipproto_udp
  pub port : h.udph.dst_port ≡ htons gtpu_port
  pub type : h.gtpuh.type ≡ 0xff

pub tunnel_headers-HasDefaults :
    (len : ℕ) (itm : Item) (h : Headers) → HasDefaults h → HasDefaults (tunnel_headers len itm h)
unfolding tunnel_headers with_lengths with_checksum
tunnel_headers-HasDefaults len itm h d = record {
  version = d.version;
  proto = d.proto;
  port = d.port;
  type = d.type;
}

-- A tunnelled packet is one for the other side's is_pdu.
IsTunnelled-is_pdu :
    (h : Headers) (m : Octets) (out : Mbuf) (len : ℕ)
    → HasDefaults h
    → le16 m 12 ≡ htons 0x0800
    → IsTunnelled len h m (mtod out)
    → is_pdu (frame_of out) ≡ decap
unfolding is_pdu frame_of ipv4_octets udp_octets gtpu_octets htons
IsTunnelled-is_pdu h m out len d e t =
    let ether : le16 (mtod out) 12 ≡ htons 0x0800 =
      omega (arith, e, t.ether 12 (omega arith), t.ether 13 (omega arith)) in
    let proto : mtod out 23 ≡ ipproto_udp = t.ip 9 (omega arith) ∙ d.proto in
    let port : le16 (mtod out) 36 ≡ htons gtpu_port =
      omega
        (arith, t.udp 2 (omega arith), t.udp 3 (omega arith), le16-octet h.udph.dst_port, d.port) in
    let type : mtod out 43 ≡ 0xff = t.gtpu 1 (omega arith) ∙ d.type in
    ground (arith, ether, proto, port, type)

-- The checksum of the outer header is the one that with_checksum computed.
pub IsTunnelled-checksum :
    (h : Headers) (base : Ipv4Hdr) (m out : Octets) (len : ℕ)
    → h.iph ≡ with_checksum base
    → base.version_ihl ≡ 0x45
    → IsTunnelled len h m out
    → wrapsum (checksum (shift out 14) 20 0) ≡ 0
unfolding with_checksum ipv4_octets
IsTunnelled-checksum h base m out len made version t =
    let h0 = record base { hdr_checksum = 0 } in
    let c = wrapsum (checksum (ipv4_octets h0) 20 0) in
    wrapsum-checksum_complete (ipv4_octets h0) (shift out 14)
      (λ k lt side. t.ip k lt ∙ ap (λ iph. ipv4_octets iph k) made ∙ ipv4_octets_apart h0 c k side)
      version refl
      (omega (
        arith,
        t.ip 10 (omega arith) ∙ ap (λ iph. ipv4_octets iph 10) made,
        t.ip 11 (omega arith) ∙ ap (λ iph. ipv4_octets iph 11) made,
        le16-octet c,
        wrapsum-lt (checksum (ipv4_octets h0) 20 0),
      ))

-- What the SGW of the tunnel `itm` gets for the packet `m`, of which `added` octets more are sent.
pub record IsForTunnel (itm : Item) (added : ℕ) (m out : Mbuf) : Type 0 where
  pub pdu : is_pdu (frame_of out) ≡ decap
  pub tid : le32 (mtod out) 46 ≡ itm.sgw_gtpu_teid % 2 ^ 32
  pub src_addr : le32 (mtod out) 26 ≡ itm.pgw_gtpu_ipv4 % 2 ^ 32
  pub dst_addr : le32 (mtod out) 30 ≡ itm.sgw_gtpu_ipv4 % 2 ^ 32
  pub sum : wrapsum (checksum (shift (mtod out) 14) 20 0) ≡ 0
  pub pkt_len : out.pkt_len ≡ m.pkt_len + added
  pub total_length : htons (le16 (mtod out) 16) ≡ less out.pkt_len 14
  pub udp_length : htons (le16 (mtod out) 38) ≡ less out.pkt_len 34
  pub gtpu_length : htons (le16 (mtod out) 44) ≡ less out.pkt_len 50
  pub inner : (i : ℕ) → 50 ≤ added + i → mtod out (added + i) ≡ mtod m i
  pub ether : (i : ℕ) → i < 14 → mtod out i ≡ mtod m i

-- From the wire to what it says.
module _ (itm : Item) (h : Headers) (added : ℕ) (m out : Mbuf) (d : HasDefaults h)
    (e : le16 (mtod m) 12 ≡ htons 0x0800) (size : out.pkt_len ≡ m.pkt_len + added)
    (t : IsTunnelled added (tunnel_headers out.pkt_len itm h) (mtod m) (mtod out)) where
  pub tunnelled-IsForTunnel : IsForTunnel itm added m out
  unfolding tunnel_headers with_lengths with_checksum ipv4_octets udp_octets gtpu_octets htons
  tunnelled-IsForTunnel =
      let h' = tunnel_headers out.pkt_len itm h in
      record {
        pdu =
            IsTunnelled-is_pdu h' (mtod m) out added
              (tunnel_headers-HasDefaults out.pkt_len itm h d) e t;
        tid = omega (
          arith,
          t.gtpu 4 (omega arith),
          t.gtpu 5 (omega arith),
          t.gtpu 6 (omega arith),
          t.gtpu 7 (omega arith),
          le32-octet itm.sgw_gtpu_teid,
        );
        src_addr = omega (
          arith,
          t.ip 12 (omega arith),
          t.ip 13 (omega arith),
          t.ip 14 (omega arith),
          t.ip 15 (omega arith),
          le32-octet itm.pgw_gtpu_ipv4,
        );
        dst_addr = omega (
          arith,
          t.ip 16 (omega arith),
          t.ip 17 (omega arith),
          t.ip 18 (omega arith),
          t.ip 19 (omega arith),
          le32-octet itm.sgw_gtpu_ipv4,
        );
        sum =
            IsTunnelled-checksum h'
              (record h.iph {
                total_length = htons (less out.pkt_len 14);
                src_addr = itm.pgw_gtpu_ipv4;
                dst_addr = itm.sgw_gtpu_ipv4;
              })
              (mtod m) (mtod out) added refl d.version t;
        pkt_len = size;
        total_length = omega (arith, t.ip 2 (omega arith), t.ip 3 (omega arith));
        udp_length = omega (arith, t.udp 4 (omega arith), t.udp 5 (omega arith));
        gtpu_length = omega (arith, t.gtpu 2 (omega arith), t.gtpu 3 (omega arith));
        inner = t.inner;
        ether = t.ether;
      }
