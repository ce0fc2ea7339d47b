-- ===== src/Dataplane/Decap/Roundtrip.antt =====
-- Into a tunnel with CorePgwEgressTunnelWorker and out of it with CorePgwIngressTunnelWorker.
use mixi_pgw.Prelude.{
  ℕ, ◌/◌, ◌%◌, ◌^◌, ◌≤◌, ◌<◌, ◌≡◌, refl, sym, ap, ◌∙◌, Bool, true, false, ltb, some, htonl, lookup,
  arith, inl, inr, Bool-cases,
}
use mixi_pgw.Dataplane.Policer.{Item, masked}
use mixi_pgw.Dataplane.Distributor.{encap, is_user}
use mixi_pgw.Dataplane.Mbuf.{Mbuf, Rte, IsRte, mtod, le32, frame_of}
use mixi_pgw.Dataplane.Encap.{Base, Tunneler, Modified, sent, is_sixrd, egress_modify_packet}
use mixi_pgw.Dataplane.Encap.Tunnels.{HasDefaults, IsForTunnel}
use mixi_pgw.Dataplane.Encap.Sending.{added, session_key, egress_modify_packet-IsForwarded}
use mixi_pgw.Dataplane.Decap.{ip_version, ingress_modify_packet}
use mixi_pgw.Dataplane.Decap.Delivery.{tunnel_key, IsInner, ingress_modify_packet-IsDelivered}

-- The packet `m`, octet by octet, ready to be sent.
pub record IsReturned (m : Mbuf) (r : Modified Base) : Type 0 where
  pub is_sent : r.verdict ≡ sent
  pub octets : (i : ℕ) → mtod r.mbuf i ≡ mtod m i
  pub pkt_len : r.mbuf.pkt_len ≡ m.pkt_len

added-four : (m : Mbuf) → is_sixrd m ≡ false → added m ≡ 36
added-four m e = rw e refl

-- The 36 octets of the outer headers around a packet and then gone.
IsInner-IsForTunnel :
    (itm : Item) (m out back : Mbuf)
    → IsForTunnel itm 36 m out
    → IsInner 36 out back
    → ((i : ℕ) → mtod back i ≡ mtod m i) × (back.pkt_len ≡ m.pkt_len)
IsInner-IsForTunnel itm m out back t b = (
  λ i. elim (Bool-cases (ltb i 14)) [
    | inl lo ↦ let lt : i < 14 = ground arith in b.ether i lt ∙ t.ether i lt
    | inr hi ↦ let ge : 14 ≤ i = ground arith in b.inner i ge ∙ t.inner i (omega arith)
  ],
  omega (arith, b.pkt_len, t.pkt_len),
)

-- An IPv4 packet for a subscriber that the egress worker puts into the tunnel of its session comes
-- back as it was, octet by octet, from an ingress worker that has a session for that tunnel endpoint
-- whose address is the packet's source address, cut to 24 bits. The mbuf needs 36 octets of headroom,
-- and the packet is not one that 6rd encapsulated.
pub egress_modify_packet-ingress_modify_packet :
    (rte : Rte) (ring_ok ring_ok' : Bool) (now now' : ℕ) (w : Tunneler) (w' : Base) (m : Mbuf)
    (itm itm' : Item)
    → IsRte rte
    → HasDefaults w.headers
    → w.base.findtype ≡ true
    → 36 ≤ m.data_off
    → is_user (frame_of m) ≡ encap
    → lookup (session_key m) w.base.map ≡ some itm
    → is_sixrd m ≡ false
    → ip_version m 14 ≡ 4
    → w'.findtype ≡ true
    → lookup (htonl (htonl (itm.sgw_gtpu_teid % 2 ^ 32))) w'.map ≡ some itm'
    → masked itm'.ue_ipv4 ≡ masked (le32 (mtod m) 26)
    → (r : Modified Tunneler) × ((egress_modify_packet rte ring_ok now w m ≡ some r)
        × IsReturned m (ingress_modify_packet rte ring_ok' now' w' r.mbuf))
egress_modify_packet-ingress_modify_packet rte ring_ok ring_ok' now now' w w' m itm itm' law d typed
      room user found plain four typed' found' own =
    let (r, (step, f)) =
      egress_modify_packet-IsForwarded rte ring_ok now w m itm law d typed room user found in
    let t : IsForTunnel itm 36 m r.mbuf = rw (added-four m plain) at f.wire in
    let version : ip_version r.mbuf 50 ≡ 4 =
      ap (λ o. o % 2 ^ 8 / 0x10) (t.inner 14 (omega arith)) ∙ four in
    let source : le32 (mtod r.mbuf) 62 ≡ le32 (mtod m) 26 = omega (
      arith,
      t.inner 26 (omega arith),
      t.inner 27 (omega arith),
      t.inner 28 (omega arith),
      t.inner 29 (omega arith),
    ) in
    let key : tunnel_key r.mbuf ≡ htonl (htonl (itm.sgw_gtpu_teid % 2 ^ 32)) =
      ap (λ t. htonl (htonl t)) t.tid in
    let b =
      ingress_modify_packet-IsDelivered rte ring_ok' now' w' r.mbuf itm' law typed'
        (omega (arith, t.pkt_len)) t.pdu version (ap (λ k. lookup k w'.map) key ∙ found')
        (own ∙ ap masked (sym source)) in
    let (octets, size) = IsInner-IsForTunnel itm m r.mbuf _ t b.wire in
    (r, (step, record { is_sent = b.is_sent; octets = octets; pkt_len = size }))
