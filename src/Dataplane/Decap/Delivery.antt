-- ===== src/Dataplane/Decap/Delivery.antt =====
-- CorePgwIngressTunnelWorker::ModifyPacket: which packets come out of a tunnel, and how.
use mixi_pgw.Prelude.{
  ℕ, ◌+◌, ◌-◌, ◌%◌, ◌^◌, ◌≤◌, ◌<◌, ◌≡◌, refl, ap, ◌∙◌, Bool, true, false, ◌==◌, some, htonl, lookup,
  lookup-insert, insert, arith,
}
use mixi_pgw.Dataplane.Policer.{Item, Color, Metered, meter, masked, ingress_callback}
use mixi_pgw.Dataplane.Policer.Table.{find_update-found}
use mixi_pgw.Dataplane.Distributor.{decap, is_pdu}
use mixi_pgw.Dataplane.Mbuf.{
  Mbuf, Rte, IsRte, mtod, write, le32, frame_of, mbfu_flag_pdu, policer_mode_lte,
}
use mixi_pgw.Dataplane.Mbuf.Memory.{memcpy_head, memcpy_after, mtod-write}
use mixi_pgw.Dataplane.Encap.{Base, Modified, sent, less, blank_udata}
use mixi_pgw.Dataplane.Decap.{
  ip_version, ingress_ipkey, ingress_decap, keep_ether, ingress_looked_up, ingress_modify_packet,
}

-- The key that Find looks up: the tunnel endpoint of the GTP header.
abbrev pub tunnel_key : Mbuf → ℕ
tunnel_key m = htonl (htonl (le32 (mtod m) 46))

-- What is left of `m` without `len` octets behind its Ethernet header.
pub record IsInner (len : ℕ) (m out : Mbuf) : Type 0 where
  pub ether : (i : ℕ) → i < 14 → mtod out i ≡ mtod m i
  pub inner : (i : ℕ) → 14 ≤ i → mtod out i ≡ mtod m (len + i)
  pub pkt_len : out.pkt_len ≡ m.pkt_len - len

-- the packet after rte_pktmbuf_adj
abbrev adjusted : Mbuf → ℕ → Mbuf
adjusted m n = record m { data_off = m.data_off + n; pkt_len = m.pkt_len - n }

keep_ether-IsInner : (m : Mbuf) (n : ℕ) → IsInner n m (keep_ether m (adjusted m n))
unfolding keep_ether write
keep_ether-IsInner m n =
    let pkt = adjusted m n in
    let wrote = mtod-write pkt 0 (mtod m) 14 in
    record {
      ether = λ i lt. ap (λ f. f i) wrote ∙ memcpy_head (mtod pkt) (mtod m) 14 i lt;
      inner = λ i lo.
          let e : m.data_off + n + i ≡ m.data_off + (n + i) = omega arith in
          ap (λ f. f i) wrote ∙ memcpy_after (mtod pkt) 0 (mtod m) 14 i lo ∙ ap m.buffer e;
      pkt_len = refl;
    }

-- What the worker meters the packet with.
abbrev pub metered : ℕ → Mbuf → Item → Item × Color
metered now m itm = meter now (less (m.pkt_len - 36) 14 % 2 ^ 12) itm

pub record IsDelivered (now : ℕ) (itm : Item) (m : Mbuf) (r : Modified Base) : Type 0 where
  pub is_sent : r.verdict ≡ sent
  pub flag : r.mbuf.udata.flag ≡ mbfu_flag_pdu
  pub teid : r.mbuf.udata.teid ≡ masked itm.ue_ipv4
  pub color : r.mbuf.udata.color ≡ (metered now m itm).1
  pub wire : IsInner 36 m r.mbuf
  pub session : lookup (tunnel_key m) r.worker.map ≡ some (metered now m itm).0

-- What the callback leaves for a packet from the session's own address.
taken : ℕ → Mbuf → Item → Metered
taken now m itm = record {
  entry = (metered now m itm).0;
  color = (metered now m itm).1;
  teid = masked itm.ue_ipv4;
}

ingress_callback-own :
    (ipkey now : ℕ) (m : Mbuf) (itm : Item)
    → masked itm.ue_ipv4 ≡ masked ipkey
    → ingress_callback ipkey now (less (m.pkt_len - 36) 14 % 2 ^ 12) itm ≡ some (taken now m itm)
unfolding ingress_callback taken
ingress_callback-own ipkey now m itm own =
    let same : (masked itm.ue_ipv4 == masked ipkey) ≡ true = ground arith in rw same refl

-- the packet without its outer headers
abbrev bare : Mbuf → Mbuf
bare m =
    let m0 = record m { udata = blank_udata } in
    record (keep_ether m0 (adjusted m0 36)) { is_ipv4_hdr = true }

ingress_decap-four :
    (rte : Rte) (ipkey : ℕ) (m : Mbuf)
    → IsRte rte
    → 36 ≤ m.pkt_len
    → ip_version m 50 ≡ 4
    → ingress_decap rte ipkey (record m { udata = blank_udata })
      ≡ some (bare m, less (m.pkt_len - 36) 14 % 2 ^ 12)
unfolding ingress_decap
ingress_decap-four rte ipkey m law room four =
    let six : (ip_version m 50 == 6) ≡ false = ground arith in
    rw (six, law.adjusted (record m { udata = blank_udata }) 36 room) refl

ingress_ipkey-four : (m : Mbuf) → ip_version m 50 ≡ 4 → ingress_ipkey m ≡ some (le32 (mtod m) 62)
unfolding ingress_ipkey
ingress_ipkey-four m four = ground arith

ingress_modify_packet-found :
    (rte : Rte) (ring_ok : Bool) (now : ℕ) (w : Base) (m : Mbuf) (itm : Item)
    → IsRte rte
    → w.findtype ≡ true
    → 36 ≤ m.pkt_len
    → is_pdu (frame_of m) ≡ decap
    → ip_version m 50 ≡ 4
    → lookup (tunnel_key m) w.map ≡ some itm
    → masked itm.ue_ipv4 ≡ masked (le32 (mtod m) 62)
    → ingress_modify_packet rte ring_ok now w m
      ≡ ingress_looked_up ring_ok
          (record w { findkey = le32 (mtod m) 62 })
          (record (bare m) {
            udata = record (bare m).udata {
              size = less (m.pkt_len - 36) 14 % 2 ^ 12;
              mode = policer_mode_lte;
            };
          })
          (insert (tunnel_key m) (metered now m itm).0 w.map, some (taken now m itm))
unfolding taken ingress_modify_packet ingress_looked_up
ingress_modify_packet-found rte ring_ok now w m itm law typed room pdu four found own =
    let ipkey = le32 (mtod m) 62 in
    let callback = ingress_callback ipkey now (less (m.pkt_len - 36) 14 % 2 ^ 12) in
    let step =
      find_update-found w.findtype (htonl (le32 (mtod m) 46)) callback w.map itm (taken now m itm)
        typed found (ingress_callback-own ipkey now m itm own) in
    rw
      (
        pdu,
        ingress_ipkey-four m four,
        ingress_decap-four rte ipkey m law room four,
        step,
        ingress_modify_packet,
      )
      refl

-- An IPv4 packet in a G-PDU, whose source address is that of the session of its tunnel, comes out of
-- the tunnel as it went in: the Ethernet header stays, the 36 octets of the outer headers are gone. It
-- has the colour that the policer gives it and the session keeps the tokens that are left.
pub ingress_modify_packet-IsDelivered :
    (rte : Rte) (ring_ok : Bool) (now : ℕ) (w : Base) (m : Mbuf) (itm : Item)
    → IsRte rte
    → w.findtype ≡ true
    → 36 ≤ m.pkt_len
    → is_pdu (frame_of m) ≡ decap
    → ip_version m 50 ≡ 4
    → lookup (tunnel_key m) w.map ≡ some itm
    → masked itm.ue_ipv4 ≡ masked (le32 (mtod m) 62)
    → IsDelivered now itm m (ingress_modify_packet rte ring_ok now w m)
unfolding ingress_looked_up taken
ingress_modify_packet-IsDelivered rte ring_ok now w m itm law typed room pdu four found own =
    let kept = keep_ether-IsInner (record m { udata = blank_udata }) 36 in
    let entry = (metered now m itm).0 in
    rw (ingress_modify_packet-found rte ring_ok now w m itm law typed room pdu four found own)
      (record {
        is_sent = refl;
        flag = refl;
        teid = refl;
        color = refl;
        wire = record { ether = kept.ether; inner = kept.inner; pkt_len = kept.pkt_len };
        session = ground (arith, lookup-insert (tunnel_key m) (tunnel_key m) entry w.map);
      })
