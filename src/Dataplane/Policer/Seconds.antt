-- ===== src/Dataplane/Policer/Seconds.antt =====
-- The policer against the marker of RFC 4115 in the color-blind mode: two buckets with two rates, which
-- gain tokens once a second. The policer of core_pgw_ingress_tunnel_worker.cc and
-- core_pgw_egress_tunnel_worker.cc fills them when a packet comes, for all the seconds since the last.
use mixi_pgw.Prelude.{
  ℕ, zero, suc, ◌+◌, ◌-◌, ◌*◌, ◌≤◌, ◌≡◌, refl, sym, ◌∙◌, min, List, [], ◌∷◌, arith,
}
use mixi_pgw.Dataplane.Policer.{Item, Color, refill, meter}
use mixi_pgw.Dataplane.Policer.Refill.{IsWithin, IsExact, Marks, filled, refill_lem, paint-Marks}
use mixi_pgw.Dataplane.Policer.Conformance.{
  meter_all, Ordered, Ordered-le, IsExact-earlier, step-IsExact, meter-IsStep,
}

-- From a time and the tokens of both buckets: a second passes, in which each bucket gains its rate and
-- keeps at most its size, or a packet of this time is marked.
pub data IsMarked (cbs cir ebs eir : ℕ) : ℕ → ℕ → ℕ → List (ℕ × ℕ) → List (ℕ × Color) → Type 0 where
  over : {t tc te : ℕ} → IsMarked cbs cir ebs eir t tc te [] []
  second :
      {t tc te : ℕ} {ps : List (ℕ × ℕ)} {cs : List (ℕ × Color)}
      → IsMarked cbs cir ebs eir (suc t) (min cbs (tc + cir)) (min ebs (te + eir)) ps cs
      → IsMarked cbs cir ebs eir t tc te ps cs
  packet :
      {t tc te tc' te' size : ℕ} {c : Color} {ps : List (ℕ × ℕ)} {cs : List (ℕ × Color)}
      → Marks size tc te c tc' te'
      → IsMarked cbs cir ebs eir t tc' te' ps cs
      → IsMarked cbs cir ebs eir t tc te ((t, size) ∷ ps) ((size, c) ∷ cs)

module _ (cbs cir ebs eir : ℕ) (ps : List (ℕ × ℕ)) (cs : List (ℕ × Color)) where
  -- Some seconds at once.
  seconds :
      (n t t' tc tc' te te' : ℕ)
      → tc ≤ cbs
      → te ≤ ebs
      → t' ≡ t + n
      → tc' ≡ min cbs (tc + cir * n)
      → te' ≡ min ebs (te + eir * n)
      → IsMarked cbs cir ebs eir t' tc' te' ps cs
      → IsMarked cbs cir ebs eir t tc te ps cs
  seconds zero t t' tc tc' te te' wc we et ec ee h =
      let same_t : t ≡ t' = omega (arith, et) in
      let same_tc : tc ≡ tc' = ground (arith, ec, wc) in
      let same_te : te ≡ te' = ground (arith, ee, we) in rw (same_t, same_tc, same_te) h
  seconds (suc n) t t' tc tc' te te' wc we et ec ee h = second (
      seconds n (suc t) t' (min cbs (tc + cir)) tc' (min ebs (te + eir)) te' (ground arith)
        (ground arith) (omega (arith, et)) (ground (arith, ec)) (ground (arith, ee)) h)

module _ (cbs cir ebs eir : ℕ) where
  -- The entry has these sizes and rates.
  record HasRates (itm : Item) : Type 0 where
    pub cbs_is : itm.commit_burst_size ≡ cbs
    pub cir_is : itm.commit_information_rate ≡ cir
    pub ebs_is : itm.excess_burst_size ≡ ebs
    pub eir_is : itm.excess_information_rate ≡ eir

  meter_all-IsMarked_from :
      (ps : List (ℕ × ℕ)) (until : ℕ) (itm : Item)
      → HasRates itm
      → IsWithin itm
      → IsExact until itm
      → Ordered itm.epoch_w until ps
      → IsMarked cbs cir ebs eir itm.epoch_w itm.commit_rate itm.excess_rate ps (meter_all ps itm).1
  unfolding meter_all meter
  meter_all-IsMarked_from [] until itm k w v h = over
  meter_all-IsMarked_from ((now, size) ∷ ps) until itm k w v (h, rest) =
      let le = Ordered-le now until ps rest in
      let early = IsExact-earlier now until itm h le v in
      let s = meter-IsStep now size itm w early in
      let itm' = (meter now size itm).0 in
      let v' = step-IsExact now size until itm itm' (meter now size itm).1 s h le v in
      let fill = refill_lem now itm w early in
      let k' : HasRates itm' = record {
        cbs_is = s.same_commit.1 ∙ k.cbs_is;
        cir_is = s.same_commit.0 ∙ k.cir_is;
        ebs_is = s.same_excess.1 ∙ k.ebs_is;
        eir_is = s.same_excess.0 ∙ k.eir_is;
      } in
      let later = meter_all-IsMarked_from ps until itm' k' s.within v' (rw s.at rest) in
      seconds cbs cir ebs eir ((now, size) ∷ ps) _ (now - itm.epoch_w) itm.epoch_w now
        itm.commit_rate (refill now itm).commit_rate itm.excess_rate (refill now itm).excess_rate
        (rw (sym k.cbs_is) w.commit) (rw (sym k.ebs_is) w.excess) (omega (arith, h))
        (rw (sym k.cbs_is, sym k.cir_is) (unfold filled in fill.0))
        (rw (sym k.ebs_is, sym k.eir_is) (unfold filled in fill.1))
        (packet (paint-Marks size (refill now itm)) (rw s.at at later))

-- Without wrap-around and with buckets that hold at most their sizes at the start, a run of packets
-- whose times do not run backwards gets the colors that the marker of RFC 4115 gives them, whose
-- buckets gain their rates in each second.
pub meter_all-IsMarked :
    (ps : List (ℕ × ℕ)) (until : ℕ) (itm : Item)
    → IsWithin itm
    → IsExact until itm
    → Ordered itm.epoch_w until ps
    → IsMarked itm.commit_burst_size itm.commit_information_rate itm.excess_burst_size
        itm.excess_information_rate itm.epoch_w itm.commit_rate itm.excess_rate ps
        (meter_all ps itm).1
meter_all-IsMarked ps until itm w v h =
    meter_all-IsMarked_from itm.commit_burst_size itm.commit_information_rate itm.excess_burst_size
      itm.excess_information_rate ps until itm
      (record { cbs_is = refl; cir_is = refl; ebs_is = refl; eir_is = refl }) w v h
