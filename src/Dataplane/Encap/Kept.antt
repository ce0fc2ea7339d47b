-- ===== src/Dataplane/Encap/Kept.antt =====
-- What the policer leaves of the entry of a session, for the headers of its tunnel.
use mixi_pgw.Prelude.{ℕ, ◌+◌, ◌%◌, ◌^◌, ◌≡◌, refl, ap, ◌∙◌, ◌==◌, if_both, leb}
use mixi_pgw.Dataplane.Policer.{Item, elapsed, refill, paint, meter, Color}
use mixi_pgw.Dataplane.Mbuf.{Mbuf, mtod}
use mixi_pgw.Dataplane.Encap.Tunnels.{IsForTunnel}

-- The policer changes no field of the tunnel.
pub record IsSameTunnel (itm' itm : Item) : Type 0 where
  pub teid : itm'.sgw_gtpu_teid ≡ itm.sgw_gtpu_teid
  pub sgw : itm'.sgw_gtpu_ipv4 ≡ itm.sgw_gtpu_ipv4
  pub pgw : itm'.pgw_gtpu_ipv4 ≡ itm.pgw_gtpu_ipv4

refill-IsSameTunnel : (now : ℕ) (itm : Item) → IsSameTunnel (refill now itm) itm
unfolding refill
refill-IsSameTunnel now itm =
    if_both (λ t. IsSameTunnel t itm) (elapsed now itm == 0) _ _
      (record { teid = refl; sgw = refl; pgw = refl })
      (record { teid = refl; sgw = refl; pgw = refl })

paint-IsSameTunnel : (size : ℕ) (itm : Item) → IsSameTunnel (paint size itm).0 itm
unfolding paint
paint-IsSameTunnel size itm =
    let same : IsSameTunnel itm itm = record { teid = refl; sgw = refl; pgw = refl } in
    if_both (λ (t : Item × Color). IsSameTunnel t.0 itm) (leb size itm.commit_rate) _ _
      (record { teid = refl; sgw = refl; pgw = refl })
      (if_both (λ (t : Item × Color). IsSameTunnel t.0 itm) (leb size itm.excess_rate) _ _
        (record { teid = refl; sgw = refl; pgw = refl }) same)

pub meter-IsSameTunnel : (now size : ℕ) (itm : Item) → IsSameTunnel (meter now size itm).0 itm
unfolding meter
meter-IsSameTunnel now size itm =
    let p = paint-IsSameTunnel size (refill now itm) in
    let q = refill-IsSameTunnel now itm in
    record { teid = p.teid ∙ q.teid; sgw = p.sgw ∙ q.sgw; pgw = p.pgw ∙ q.pgw }

pub IsForTunnel-IsSameTunnel :
    (itm' itm : Item) (n : ℕ) (m m' out : Mbuf)
    → IsSameTunnel itm' itm
    → mtod m' ≡ mtod m
    → m'.pkt_len ≡ m.pkt_len
    → IsForTunnel itm' n m' out
    → IsForTunnel itm n m out
IsForTunnel-IsSameTunnel itm' itm n m m' out s e size f = record {
  pdu = f.pdu;
  tid = f.tid ∙ ap (λ t. t % 2 ^ 32) s.teid;
  src_addr = f.src_addr ∙ ap (λ t. t % 2 ^ 32) s.pgw;
  dst_addr = f.dst_addr ∙ ap (λ t. t % 2 ^ 32) s.sgw;
  sum = f.sum;
  pkt_len = f.pkt_len ∙ ap (λ t. t + n) size;
  total_length = f.total_length;
  udp_length = f.udp_length;
  gtpu_length = f.gtpu_length;
  inner = λ i h. f.inner i h ∙ ap (λ g. g i) e;
  ether = λ i h. f.ether i h ∙ ap (λ g. g i) e;
}
