-- ===== src/Dataplane/Policer/Conformance.antt =====
-- What the policer lets through over a whole run of packets.
use native.Mathlib.Nat.{mul-add}
use mixi_pgw.Prelude.{ℕ, ◌+◌, ◌-◌, ◌*◌, ◌≤◌, ◌≡◌, List, [], ◌∷◌, All, arith}
use mixi_pgw.Dataplane.Policer.{Item, Color, green, yellow, red, refill, paint, meter}
use mixi_pgw.Dataplane.Policer.Refill.{IsWithin, IsExact, filled, refill_lem, meter-IsWithin}

-- Packets as pairs of the time and the size, metered one after the other.
unfoldable pub meter_all : List (ℕ × ℕ) → Item → Item × List (ℕ × Color)
meter_all [] itm = (itm, [])
meter_all ((now, size) ∷ ps) itm =
    let (itm', c) = meter now size itm in
    let (last, rest) = meter_all ps itm' in (last, (size, c) ∷ rest)

unfoldable pub green_bytes : List (ℕ × Color) → ℕ
green_bytes [] = 0
green_bytes ((size, green) ∷ rest) = size + green_bytes rest
green_bytes ((size, _) ∷ rest) = green_bytes rest

unfoldable pub yellow_bytes : List (ℕ × Color) → ℕ
yellow_bytes [] = 0
yellow_bytes ((size, yellow) ∷ rest) = size + yellow_bytes rest
yellow_bytes ((size, _) ∷ rest) = yellow_bytes rest

-- The times do not run backwards, from `from` up to `until`.
abbrev pub Ordered : ℕ → ℕ → List (ℕ × ℕ) → Type 0
Ordered from until [] = from ≤ until
Ordered from until ((now, size) ∷ ps) = (from ≤ now) × Ordered now until ps

pub Ordered-le : (from until : ℕ) (ps : List (ℕ × ℕ)) → Ordered from until ps → from ≤ until
Ordered-le from until [] h = h
Ordered-le from until ((now, size) ∷ ps) (h, rest) = omega (arith, h, Ordered-le now until ps rest)

-- A rate over two times after each other.
rate_split : (r a b c : ℕ) → a ≤ b → b ≤ c → r * (c - a) ≡ r * (b - a) + r * (c - b)
rate_split r a b c p q =
    let gaps : c - a ≡ (b - a) + (c - b) = omega (arith, p, q) in
    rw gaps (mul-add r (b - a) (c - b))

pub IsExact-earlier :
    (now until : ℕ) (itm : Item)
    → itm.epoch_w ≤ now
    → now ≤ until
    → IsExact until itm
    → IsExact now itm
IsExact-earlier now until itm p q v = record {
  on_time = p;
  clock = omega (arith, q, v.clock);
  commit =
      omega (arith, v.commit, rate_split itm.commit_information_rate itm.epoch_w now until p q);
  excess =
      omega (arith, v.excess, rate_split itm.excess_information_rate itm.epoch_w now until p q);
}

-- One packet: what it takes out of a bucket came in over the time since the last one.
pub record IsStep (now size : ℕ) (itm itm' : Item) (c : Color) : Type 0 where
  pub at : itm'.epoch_w ≡ now
  pub same_commit :
      (itm'.commit_information_rate ≡ itm.commit_information_rate)
      × (itm'.commit_burst_size ≡ itm.commit_burst_size)
  pub same_excess :
      (itm'.excess_information_rate ≡ itm.excess_information_rate)
      × (itm'.excess_burst_size ≡ itm.excess_burst_size)
  pub within : IsWithin itm'
  pub commit_step :
      green_bytes ((size, c) ∷ []) + itm'.commit_rate
      ≤ itm.commit_rate + itm.commit_information_rate * (now - itm.epoch_w)
  pub excess_step :
      yellow_bytes ((size, c) ∷ []) + itm'.excess_rate
      ≤ itm.excess_rate + itm.excess_information_rate * (now - itm.epoch_w)

refill_keeps :
    (now : ℕ) (itm : Item)
    → ((refill now itm).commit_information_rate ≡ itm.commit_information_rate)
      × ((refill now itm).commit_burst_size ≡ itm.commit_burst_size)
      × ((refill now itm).excess_information_rate ≡ itm.excess_information_rate)
      × ((refill now itm).excess_burst_size ≡ itm.excess_burst_size)
unfolding refill
refill_keeps now itm = ground arith

green-cons :
    (size : ℕ) (c : Color) (rest : List (ℕ × Color))
    → green_bytes ((size, c) ∷ rest) ≡ green_bytes ((size, c) ∷ []) + green_bytes rest
unfolding green_bytes
green-cons size green rest = omega arith
green-cons size yellow rest = omega arith
green-cons size red rest = omega arith

yellow-cons :
    (size : ℕ) (c : Color) (rest : List (ℕ × Color))
    → yellow_bytes ((size, c) ∷ rest) ≡ yellow_bytes ((size, c) ∷ []) + yellow_bytes rest
unfolding yellow_bytes
yellow-cons size green rest = omega arith
yellow-cons size yellow rest = omega arith
yellow-cons size red rest = omega arith

-- What a packet leaves exact up to the last one.
pub step-IsExact :
    (now size until : ℕ) (itm itm' : Item) (c : Color)
    → IsStep now size itm itm' c
    → itm.epoch_w ≤ now
    → now ≤ until
    → IsExact until itm
    → IsExact until itm'
step-IsExact now size until itm itm' c s p q v = record {
  on_time = omega (arith, s.at, q);
  clock = v.clock;
  commit =
      rw (s.same_commit.0, s.same_commit.1, s.at)
        (omega (arith, v.commit, rate_split itm.commit_information_rate itm.epoch_w now until p q));
  excess =
      rw (s.same_excess.0, s.same_excess.1, s.at)
        (omega (arith, v.excess, rate_split itm.excess_information_rate itm.epoch_w now until p q));
}

pub meter-IsStep :
    (now size : ℕ) (itm : Item)
    → IsWithin itm
    → IsExact now itm
    → IsStep now size itm (meter now size itm).0 (meter now size itm).1
unfolding meter paint green_bytes yellow_bytes filled
meter-IsStep now size itm w v =
    let h = refill_lem now itm w v in
    let k = refill_keeps now itm in
    let b = meter-IsWithin now size itm w in
    record {
      at = ground (arith, h);
      same_commit = ground (arith, k);
      same_excess = ground (arith, k);
      within = b;
      commit_step = ground (arith, h);
      excess_step = ground (arith, h);
    }

-- Over a run of packets in the order of time, without wrap-around, the octets marked green and the
-- tokens left in the commit bucket are at most the tokens at the start and what the information
-- rate brings in over the time; and likewise the yellow octets and the excess bucket.
pub meter_all_bound :
    (ps : List (ℕ × ℕ)) (until : ℕ) (itm : Item)
    → IsWithin itm
    → IsExact until itm
    → Ordered itm.epoch_w until ps
    → (green_bytes (meter_all ps itm).1 + (meter_all ps itm).0.commit_rate
        ≤ itm.commit_rate + itm.commit_information_rate * (until - itm.epoch_w))
      × (yellow_bytes (meter_all ps itm).1 + (meter_all ps itm).0.excess_rate
          ≤ itm.excess_rate + itm.excess_information_rate * (until - itm.epoch_w))
unfolding meter_all
meter_all_bound [] until itm w v h = unfold green_bytes yellow_bytes in (omega arith, omega arith)
meter_all_bound ((now, size) ∷ ps) until itm w v (h, rest) =
    let le = Ordered-le now until ps rest in
    let s = meter-IsStep now size itm w (IsExact-earlier now until itm h le v) in
    let itm' = (meter now size itm).0 in
    let c = (meter now size itm).1 in
    let v' = step-IsExact now size until itm itm' c s h le v in
    let ih = meter_all_bound ps until itm' s.within v' (rw (s.at) rest) in
    (
      omega (
        arith,
        s.commit_step,
        rate_split itm.commit_information_rate itm.epoch_w now until h le,
        green-cons size c (meter_all ps itm').1,
        ih.0,
        same_rate s.same_commit.0 s.at,
      ),
      omega (
        arith,
        s.excess_step,
        rate_split itm.excess_information_rate itm.epoch_w now until h le,
        yellow-cons size c (meter_all ps itm').1,
        ih.1,
        same_rate s.same_excess.0 s.at,
      ),
    )
  where
    same_rate : {a b c d : ℕ} → a ≡ b → c ≡ d → a * (until - c) ≡ b * (until - d)
    same_rate p q = λ i. p i * (until - q i)

-- A source that sends no more than the information rate since its last packet, and never more than
-- the burst size at once.
abbrev pub Fits : ℕ → ℕ → ℕ → List (ℕ × ℕ) → Type 0
Fits burst information from [] = Unit
Fits burst information from ((now, size) ∷ ps) =
    (size ≤ burst) × (size ≤ information * (now - from)) × Fits burst information now ps

fitting-green :
    (now size : ℕ) (itm : Item)
    → IsWithin itm
    → IsExact now itm
    → size ≤ itm.commit_burst_size
    → size ≤ itm.commit_information_rate * (now - itm.epoch_w)
    → (meter now size itm).1 ≡ green
unfolding meter paint filled
fitting-green now size itm w v p q = ground (arith, refill_lem now itm w v)

-- Without wrap-around, all packets of a source are green that never sends more at once than the
-- burst size, nor more than the information rate brings in since its last packet.
pub meter_all-green :
    (ps : List (ℕ × ℕ)) (until : ℕ) (itm : Item)
    → IsWithin itm
    → IsExact until itm
    → Ordered itm.epoch_w until ps
    → Fits itm.commit_burst_size itm.commit_information_rate itm.epoch_w ps
    → All (λ p. p.1 ≡ green) (meter_all ps itm).1
unfolding meter_all
meter_all-green [] until itm w v h f = tt
meter_all-green ((now, size) ∷ ps) until itm w v (h, rest) (p, q, f) =
    let le = Ordered-le now until ps rest in
    let early = IsExact-earlier now until itm h le v in
    let s = meter-IsStep now size itm w early in
    let itm' = (meter now size itm).0 in
    let v' = step-IsExact now size until itm itm' (meter now size itm).1 s h le v in
    (
      fitting-green now size itm w early p q,
      meter_all-green ps until itm' s.within v' (rw (s.at) rest)
          (rw (s.same_commit.1, s.same_commit.0, s.at) f),
    )
