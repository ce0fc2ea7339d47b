-- ===== src/Dataplane/Policer/Runs.antt =====
-- The policer at concrete inputs.
use mixi_pgw.Prelude.{
  ℕ, ◌+◌, ◌-◌, ◌*◌, ◌≤◌, ◌≡◌, refl, true, List, [], ◌∷◌, All, lookup, htonl, arith,
}
use mixi_pgw.Dataplane.Policer.{
  Item, green, yellow, red, meter, refill, paint, elapsed, top_up, ingress_callback,
  egress_callback, find_update,
}
use mixi_pgw.Dataplane.Policer.Refill.{IsWithin, IsExact}
use mixi_pgw.Dataplane.Policer.Seconds.{IsMarked, meter_all-IsMarked}
use mixi_pgw.Dataplane.Policer.Conformance.{
  meter_all, green_bytes, yellow_bytes, meter_all_bound, meter_all-green,
}
use mixi_pgw.Dataplane.Policer.Table.{AllWithin, police-AllWithin}

-- POLICER_CIR_DEFAULT and its companions, with both buckets full at the time 1000.
abbrev subscriber : Item
subscriber = record {
  active = 1;
  mode = 0;
  ue_ipv4 = 0x0100000a;
  ue_teid = 5;
  sgw_gtpu_teid = 6;
  sgw_gtpu_ipv4 = 7;
  pgw_gtpu_ipv4 = 8;
  epoch_w = 1000;
  commit_rate = 12500;
  commit_burst_size = 12500;
  commit_information_rate = 128;
  excess_rate = 12500;
  excess_burst_size = 12500;
  excess_information_rate = 128;
}

subscriber-IsWithin : IsWithin subscriber
subscriber-IsWithin = record { commit = omega arith; excess = omega arith }

subscriber-IsExact : IsExact 1020 subscriber
subscriber-IsExact = record {
  on_time = omega arith;
  clock = omega arith;
  commit = omega arith;
  excess = omega arith;
}

-- A burst at once, then one packet after 20 seconds.
abbrev burst : List (ℕ × ℕ)
burst = (1000, 12000) ∷ (1000, 12000) ∷ (1000, 1500) ∷ (1020, 1500) ∷ []

meter_all-burst :
    (meter_all burst subscriber).1
    ≡ ((12000, green) ∷ (12000, yellow) ∷ (1500, red) ∷ (1500, green) ∷ [])
unfolding meter_all meter refill paint elapsed top_up
meter_all-burst = refl

meter_all_bound_example :
    (green_bytes (meter_all burst subscriber).1 + (meter_all burst subscriber).0.commit_rate
      ≤ 12500 + 128 * (1020 - 1000))
    × (yellow_bytes (meter_all burst subscriber).1 + (meter_all burst subscriber).0.excess_rate
        ≤ 12500 + 128 * (1020 - 1000))
meter_all_bound_example =
    meter_all_bound burst 1020 subscriber subscriber-IsWithin subscriber-IsExact
      (omega arith, (omega arith, (omega arith, (omega arith, omega arith))))

meter_all-IsMarked_example :
    IsMarked 12500 128 12500 128 1000 12500 12500 burst (meter_all burst subscriber).1
meter_all-IsMarked_example =
    meter_all-IsMarked burst 1020 subscriber subscriber-IsWithin subscriber-IsExact
      (omega arith, (omega arith, (omega arith, (omega arith, omega arith))))

abbrev trickle : List (ℕ × ℕ)
trickle = (1010, 1280) ∷ (1020, 1200) ∷ []

meter_all-green_example : All (λ p. p.1 ≡ green) (meter_all trickle subscriber).1
meter_all-green_example =
    meter_all-green trickle 1020 subscriber subscriber-IsWithin subscriber-IsExact
      (omega arith, (omega arith, omega arith))
      (omega arith, omega arith, (omega arith, omega arith, tt))

abbrev subscribers : List (ℕ × Item)
subscribers = (htonl 5, subscriber) ∷ []

subscribers-AllWithin : AllWithin subscribers
unfolding lookup
subscribers-AllWithin key itm h = ground (arith, subscriber-IsWithin)

police-AllWithin_example :
    AllWithin (find_update true 5 (ingress_callback 0x0200000a 1020 900) subscribers).0
    × AllWithin (find_update true 5 (egress_callback 0 1020 900) subscribers).0
police-AllWithin_example =
    police-AllWithin true 5 0x0200000a 0 1020 900 subscribers subscribers-AllWithin
