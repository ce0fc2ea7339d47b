-- ===== src/Dataplane/Cycles/Counted.antt =====
-- CoreEncapWorker::Cycle accounts for every packet of a burst.
use mixi_pgw.Prelude.{
  ℕ, suc, ◌+◌, ◌%◌, ◌^◌, ◌≡◌, refl, ap, Option-cases, inl, inr, List, [], ◌∷◌, length, arith,
}
use mixi_pgw.Dataplane.Mbuf.{Mbuf, Rte}
use mixi_pgw.Dataplane.Encap.{Drops, Modified, sent, freed, inc, move_ether}
use mixi_pgw.Dataplane.Encap.Outer.{Encapper, outer_dst, encap_modify_packet}
use mixi_pgw.Dataplane.Cycles.{
  L2Type, Route, route_pass, route_vlan, route_encap, route_decap, is_arp_or_innericmp, drop_vlan,
  encap_one, encap_cycle, collect, Burst,
}

-- A packet was sent, or it was given back and counted.
data IsAccounted (w : Encapper) (r : Modified Encapper) : Type 0 where
  accounted_sent : r.verdict ≡ sent → r.worker.counter ≡ w.counter → IsAccounted w r
  accounted_drop :
      r.verdict ≡ freed
      → r.worker.counter.drop_count ≡ (w.counter.drop_count + 1) % 2 ^ 64
      → IsAccounted w r

encap_modify_packet-IsAccounted :
    (rte : Rte) (w : Encapper) (m : Mbuf) → IsAccounted w (encap_modify_packet rte w m)
unfolding encap_modify_packet inc
encap_modify_packet-IsAccounted rte w m = elim (Option-cases (rte.prepend m 36)) [
  | inl n ↦ rw (n, encap_modify_packet) (accounted_drop refl refl)
  | inr (pkt, p) ↦ elim (Option-cases (outer_dst (move_ether 36 pkt))) [
    | inl n ↦ rw (p, n, encap_modify_packet) (accounted_drop refl refl)
    | inr ((dst, typed), o) ↦ rw (p, o, encap_modify_packet) (accounted_sent refl refl)
  ]
]

-- The cases of the test before ModifyPacket.
encap_one-IsAccounted :
    (rte : Rte) (x : L2Type × Mbuf) (w : Encapper) → IsAccounted w (encap_one rte x w)
unfolding encap_one drop_vlan inc
encap_one-IsAccounted rte (l2, m) w = by_route (is_arp_or_innericmp l2 m) refl
  where
    by_route :
        (route : Route) → is_arp_or_innericmp l2 m ≡ route → IsAccounted w (encap_one rte (l2, m) w)
    by_route route_pass e = rw (e, encap_one) (accounted_sent refl refl)
    by_route route_vlan e = rw (e, encap_one) (accounted_drop refl refl)
    by_route route_encap e = rw (e, encap_one) (encap_modify_packet-IsAccounted rte w m)
    by_route route_decap e = rw (e, encap_one) (encap_modify_packet-IsAccounted rte w m)

-- One packet before the rest of the burst.
collect_counted :
    (w : Encapper) (r : Modified Encapper) (b : Burst) (n : ℕ)
    → IsAccounted w r
    → (length b.output + b.worker.counter.drop_count) % 2 ^ 64
      ≡ (r.worker.counter.drop_count + n) % 2 ^ 64
    → (length (collect r.verdict r.mbuf b).output
          + (collect r.verdict r.mbuf b).worker.counter.drop_count)
        % 2 ^ 64
      ≡ (w.counter.drop_count + suc n) % 2 ^ 64
unfolding collect
collect_counted w r b n (accounted_sent v c) ih =
    rw v (omega (arith, ap (λ (d : Drops). d.drop_count) c, ih))
collect_counted w r b n (accounted_drop v c) ih = rw v (omega (arith, c, ih))

-- After a burst the packets that were handed on and those that the counter of dropped packets grew by are
-- all the packets of the burst, modulo 2 ^ 64; nothing is lost without being counted, whatever
-- rte_pktmbuf_prepend answers.
pub encap_cycle-counted :
    (rte : Rte) (burst : List (L2Type × Mbuf)) (w : Encapper)
    → (length (encap_cycle rte burst w).output
          + (encap_cycle rte burst w).worker.counter.drop_count)
        % 2 ^ 64
      ≡ (w.counter.drop_count + length burst) % 2 ^ 64
unfolding encap_cycle collect
encap_cycle-counted rte [] w = omega arith
encap_cycle-counted rte (x ∷ rest) w =
    let r = encap_one rte x w in
    collect_counted w r (encap_cycle rte rest r.worker) (length rest)
      (encap_one-IsAccounted rte x w) (encap_cycle-counted rte rest r.worker)
