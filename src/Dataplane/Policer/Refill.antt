-- ===== src/Dataplane/Policer/Refill.antt =====
-- The refill of the two buckets of the policer, and the color of one packet.
use mixi_pgw.Prelude.{ℕ, ◌+◌, ◌-◌, ◌*◌, ◌^◌, ◌≤◌, ◌<◌, min, ◌≡◌, leb, arith, inl, inr, Bool-cases}
use mixi_pgw.Dataplane.Policer.{
  Item, Color, green, yellow, red, elapsed, top_up, refill, paint, meter,
}

-- Neither bucket holds more than its burst size.
pub record IsWithin (itm : Item) : Type 0 where
  pub commit : itm.commit_rate ≤ itm.commit_burst_size
  pub excess : itm.excess_rate ≤ itm.excess_burst_size

refill-IsWithin : (now : ℕ) (itm : Item) → IsWithin itm → IsWithin (refill now itm)
unfolding refill top_up
refill-IsWithin now itm v = ground arith

paint-IsWithin : (size : ℕ) (itm : Item) → IsWithin itm → IsWithin (paint size itm).0
unfolding paint
paint-IsWithin size itm v = ground arith

pub meter-IsWithin : (now size : ℕ) (itm : Item) → IsWithin itm → IsWithin (meter now size itm).0
unfolding meter
meter-IsWithin now size itm v = paint-IsWithin size (refill now itm) (refill-IsWithin now itm v)

-- The numbers for which nothing wraps around up to the time `now`.
pub record IsExact (now : ℕ) (itm : Item) : Type 0 where
  pub on_time : itm.epoch_w ≤ now
  pub clock : now < 2 ^ 32
  pub commit : itm.commit_burst_size + itm.commit_information_rate * (now - itm.epoch_w) < 2 ^ 32
  pub excess : itm.excess_burst_size + itm.excess_information_rate * (now - itm.epoch_w) < 2 ^ 32

pub elapsed-exact : (now : ℕ) (itm : Item) → IsExact now itm → elapsed now itm ≡ now - itm.epoch_w
unfolding elapsed
elapsed-exact now itm v = omega (arith, v.on_time, v.clock)

-- A bucket after `dt` seconds.
unfoldable pub filled : ℕ → ℕ → ℕ → ℕ → ℕ
filled burst rate information dt = min burst (rate + information * dt)

-- RFC 4115, color-blind: a packet is taken out of the first bucket that holds enough for it.
pub data Marks (size tc te : ℕ) : Color → ℕ → ℕ → Type 0 where
  is_green : size ≤ tc → Marks size tc te green (tc - size) te
  is_yellow : tc < size → size ≤ te → Marks size tc te yellow tc (te - size)
  is_red : tc < size → te < size → Marks size tc te red tc te

pub refill_lem :
    (now : ℕ) (itm : Item)
    → IsWithin itm
    → IsExact now itm
    → ((refill now itm).commit_rate
        ≡ filled itm.commit_burst_size itm.commit_rate itm.commit_information_rate
            (now - itm.epoch_w))
      × ((refill now itm).excess_rate
          ≡ filled itm.excess_burst_size itm.excess_rate itm.excess_information_rate
              (now - itm.epoch_w))
      × ((refill now itm).epoch_w ≡ now)
unfolding refill top_up filled
refill_lem now itm w v =
    ground
      (arith, elapsed-exact now itm v, v.on_time, v.clock, v.commit, v.excess, w.commit, w.excess)

pub paint-Marks :
    (size : ℕ) (itm : Item)
    → Marks size itm.commit_rate itm.excess_rate
        (paint size itm).1
        (paint size itm).0.commit_rate
        (paint size itm).0.excess_rate
unfolding paint
paint-Marks size itm = elim (Bool-cases (leb size itm.commit_rate)) [
  | inl e ↦ rw e (is_green (ground arith))
  | inr e ↦ elim (Bool-cases (leb size itm.excess_rate)) [
    | inl f ↦ rw (e, f) (is_yellow (ground arith) (ground arith))
    | inr f ↦ rw (e, f) (is_red (ground arith) (ground arith))
  ]
]
