-- ===== src/Dataplane/Counter/Billing.antt =====
-- What a subscriber is charged for.
use mixi_pgw.Prelude.{
  ℕ, ◌+◌, ◌%◌, ◌^◌, ◌≡◌, refl, Bool, true, false, ◌&&◌, ◌==◌, if◌then◌else◌, Option, none, some,
  List, [], ◌∷◌, lookup, insert, lookup-insert, arith, inl, inr, Bool-cases,
}
use mixi_pgw.Dataplane.Counter.{
  CountingItem, Counter, Mode, mode_lte, mode_3g, mode_low, count_map_size, charge, charged,
  new_item, counting, Userdat, is_dropped, cycle,
}

abbrev reading : Mode → CountingItem → ℕ
reading mode_low itm = itm.used_low
reading mode_3g itm = itm.used_3g
reading mode_lte itm = itm.used

abbrev reading_or_zero : Mode → Option CountingItem → ℕ
reading_or_zero mode none = 0
reading_or_zero mode (some itm) = reading mode itm

-- The octets that are counted for a subscriber in a mode.
unfoldable pub counted : ℕ → Mode → Counter → ℕ
counted key mode c = reading_or_zero mode (lookup key (c.map (key % count_map_size)))

abbrev same_mode : Mode → Mode → Bool
same_mode mode_lte mode_lte = true
same_mode mode_3g mode_3g = true
same_mode mode_low mode_low = true
same_mode _ _ = false

-- The octets of the subscriber's packets of a mode in a list.
unfoldable pub octets : ℕ → Mode → List Userdat → ℕ
octets key mode [] = 0
octets key mode (udat ∷ rest) =
    (if udat.pdu && udat.teid == key && same_mode udat.mode mode then udat.size % 2 ^ 16 else 0)
    + octets key mode rest

charge-reading :
    (m mode : Mode) (val : ℕ) (itm : CountingItem)
    → reading m (charge mode val itm) % 2 ^ 32
      ≡ (reading m itm + (if same_mode mode m then val else 0)) % 2 ^ 32
unfolding charge
charge-reading mode_lte mode_lte val itm = omega arith
charge-reading mode_lte mode_3g val itm = omega arith
charge-reading mode_lte mode_low val itm = omega arith
charge-reading mode_3g mode_lte val itm = omega arith
charge-reading mode_3g mode_3g val itm = omega arith
charge-reading mode_3g mode_low val itm = omega arith
charge-reading mode_low mode_lte val itm = omega arith
charge-reading mode_low mode_3g val itm = omega arith
charge-reading mode_low mode_low val itm = omega arith

charged-reading :
    (now : ℕ) (m mode : Mode) (val : ℕ) (o : Option CountingItem)
    → reading m (charged now mode val o) % 2 ^ 32
      ≡ (reading_or_zero m o + (if same_mode mode m then val else 0)) % 2 ^ 32
unfolding charged new_item
charged-reading now mode_lte mode val none = charge-reading mode_lte mode val _
charged-reading now mode_3g mode val none = charge-reading mode_3g mode val _
charged-reading now mode_low mode val none = charge-reading mode_low mode val _
charged-reading now m mode val (some itm) = charge-reading m mode val itm

counting-own :
    (now key used : ℕ) (m mode : Mode) (c : Counter)
    → counted key m (counting now key used mode c) % 2 ^ 32
      ≡ (counted key m c + (if key == key && same_mode mode m then used % 2 ^ 16 else 0)) % 2 ^ 32
unfolding counted counting
counting-own now key used m mode c =
    let idx = key % count_map_size in
    let items = c.map idx in
    let itm = charged now mode (used % 2 ^ 16) (lookup key items) in
    let here : (idx == idx) ≡ true = ground arith in
    let self : (key == key) ≡ true = ground arith in
    let found : lookup key (insert key itm items) ≡ some itm =
      ground (arith, lookup-insert key key itm items) in
    rw (here, found, self) (charged-reading now m mode (used % 2 ^ 16) (lookup key items))

counting-other :
    (now key used k : ℕ) (m mode : Mode) (c : Counter)
    → (key == k) ≡ false
    → counted k m (counting now key used mode c) ≡ counted k m c
unfolding counted counting
counting-other now key used k m mode c e =
    let idx = key % count_map_size in
    let items = c.map idx in
    let itm = charged now mode (used % 2 ^ 16) (lookup key items) in
    elim (Bool-cases (idx == k % count_map_size)) [
      | inl q ↦
          let same : idx ≡ k % count_map_size = ground arith in
          let kept : lookup k (insert key itm items) ≡ lookup k items =
            ground (arith, lookup-insert key k itm items) in
          rw (q, kept, same) refl
      | inr q ↦ rw q refl
    ]

counting-counted :
    (now key used k : ℕ) (m mode : Mode) (c : Counter)
    → counted k m (counting now key used mode c) % 2 ^ 32
      ≡ (counted k m c + (if key == k && same_mode mode m then used % 2 ^ 16 else 0)) % 2 ^ 32
counting-counted now key used k m mode c = elim (Bool-cases (key == k)) [
  | inl e ↦ let same : k ≡ key = ground arith in rw same (counting-own now key used m mode c)
  | inr e ↦ rw (e, counting-other now key used k m mode c e) (omega arith)
]

-- One packet that is let through.
pass_one :
    (now k : ℕ) (m : Mode) (udat : Userdat) (c : Counter)
    → counted k m (if udat.pdu then counting now udat.teid udat.size udat.mode c else c) % 2 ^ 32
      ≡ (counted k m c
          + (if udat.pdu && udat.teid == k && same_mode udat.mode m then udat.size % 2 ^ 16 else 0))
        % 2 ^ 32
pass_one now k m udat c = elim (Bool-cases udat.pdu) [
  | inl e ↦ rw e (counting-counted now udat.teid udat.size k m udat.mode c)
  | inr e ↦ rw e (omega arith)
]

-- After the packets of a burst, a subscriber has been charged in each mode for exactly the octets of
-- the packets that were let through, modulo 2 ^ 32.
pub cycle-counted :
    (now k : ℕ) (m : Mode) (us : List Userdat) (c : Counter)
    → counted k m (cycle now us c).0 % 2 ^ 32
      ≡ (counted k m c + octets k m (cycle now us c).1) % 2 ^ 32
unfolding cycle octets
cycle-counted now k m [] c = omega arith
cycle-counted now k m (udat ∷ rest) c =
    let c' = if udat.pdu then counting now udat.teid udat.size udat.mode c else c in
    elim (Bool-cases (is_dropped udat)) [
      | inl d ↦ rw (d, cycle) (cycle-counted now k m rest c)
      | inr d ↦
          rw (d, cycle) (omega (arith, cycle-counted now k m rest c', pass_one now k m udat c))
    ]
