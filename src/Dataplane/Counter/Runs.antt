-- ===== src/Dataplane/Counter/Runs.antt =====
-- A counter worker at concrete inputs.
use mixi_pgw.Prelude.{◌+◌, ◌%◌, ◌^◌, ◌≡◌, refl, true, List, [], ◌∷◌, lookup, insert}
use mixi_pgw.Dataplane.Policer.{green, yellow, red}
use mixi_pgw.Dataplane.Counter.{
  Counter, Userdat, mode_lte, mode_low, cycle, counting, charged, new_item, charge, is_dropped,
}
use mixi_pgw.Dataplane.Counter.Billing.{counted, octets, cycle-counted}

abbrev fresh : Counter
fresh = record { map = λ _. []; counting_count = 0; traffic_bytes = 0 }

-- Two packets of the subscriber 18 that pass, one that is dropped, and one of somebody else.
abbrev some_burst : List Userdat
some_burst =
    record { pdu = true; size = 1000; color = green; mode = mode_low; teid = 18 }
    ∷ record { pdu = true; size = 900; color = yellow; mode = mode_low; teid = 18 }
    ∷ record { pdu = true; size = 700; color = red; mode = mode_lte; teid = 2 }
    ∷ record { pdu = true; size = 500; color = green; mode = mode_low; teid = 18 }
    ∷ []

counted-some_burst : counted 18 mode_low (cycle 9 some_burst fresh).0 ≡ 1500
unfolding counted cycle counting charged new_item charge is_dropped lookup insert
counted-some_burst = refl

cycle-counted_example :
    counted 18 mode_low (cycle 9 some_burst fresh).0 % 2 ^ 32
    ≡ (counted 18 mode_low fresh + octets 18 mode_low (cycle 9 some_burst fresh).1) % 2 ^ 32
cycle-counted_example = cycle-counted 9 18 mode_low some_burst fresh
