-- ===== src/Ctrlplane/Gtpc/Digits/Decimal.antt =====
-- Numbers written as pairs of decimal digits by gtpc_digits_set and read by gtpc_digits_get
-- (ctrlplane/src/pkt/gtpc_item_func.c).
use native.Mathlib.Nat.{pow-suc}
use mixi_pgw.Prelude.{
  ℕ, zero, suc, ◌+◌, ◌*◌, ◌/◌, ◌%◌, ◌^◌, ◌<◌, ◌≤◌, ◌≡◌, refl, ◌∙◌, arith, none, some, Bool-cases,
  List, [], ◌∷◌, ◌++◌, length, length-append, ltb, leb, true, false, inl, inr, ◌⊎◌, All, All-append,
  ◌-◌,
}
use mixi_pgw.Ctrlplane.Gtpc.Digits.{
  Numberdigit, print_digits, print_llu, max_digits, strtoull, blank_digits, set_pairs, digits_set,
  print_nibble, pair_digits, read_digits, digits_get,
}

abbrev IsDigit : ℕ → Type 0
IsDigit d = d < 10

ten-pow-suc : (k : ℕ) → 10 ^ suc k ≡ 10 * 10 ^ k
ten-pow-suc k = omega (arith, pow-suc 10 k)

strtoull-append :
    (before : ℕ) (ds : List ℕ) (d : ℕ)
    → strtoull before (ds ++ (d ∷ [])) ≡ strtoull before ds * 10 + d
unfolding strtoull
strtoull-append before [] d = refl
strtoull-append before (e ∷ ds) d = strtoull-append (before * 10 + e) ds d

-- Decimal notation is read back.
strtoull-print_digits : (fuel n : ℕ) → n < 10 ^ fuel → strtoull 0 (print_digits fuel n) ≡ n
unfolding print_digits strtoull
strtoull-print_digits zero n h = omega (arith, h)
strtoull-print_digits (suc fuel) n h = elim (Bool-cases (ltb n 10)) [
  | inl e ↦ rw (e, print_digits) (omega arith)
  | inr e ↦
      let rest = strtoull-print_digits fuel (n / 10) (omega (arith, h, ten-pow-suc fuel)) in
      rw (e, print_digits)
        (strtoull-append 0 (print_digits fuel (n / 10)) (n % 10) ∙ omega (arith, rest))
]

print_digits-IsDigit : (fuel n : ℕ) → All IsDigit (print_digits fuel n)
unfolding print_digits
print_digits-IsDigit zero n = tt
print_digits-IsDigit (suc fuel) n = elim (Bool-cases (ltb n 10)) [
  | inl e ↦ rw (e, print_digits) (ground (arith, e), tt)
  | inr e ↦
      rw (e, print_digits)
        (All-append IsDigit (print_digits fuel (n / 10)) (n % 10 ∷ [])
          (print_digits-IsDigit fuel (n / 10)) (omega arith, tt))
]

-- A number has at most k digits exactly when it is below 10 ^ k.
print_digits-le : (fuel k n : ℕ) → n < 10 ^ suc k → length (print_digits fuel n) ≤ suc k
unfolding print_digits
print_digits-le zero k n h = omega arith
print_digits-le (suc fuel) zero n h = elim (Bool-cases (ltb n 10)) [
  | inl e ↦ rw (e, print_digits) (omega arith)
  | inr e ↦ absurd (ground (arith, e, h))
]
print_digits-le (suc fuel) (suc k) n h = elim (Bool-cases (ltb n 10)) [
  | inl e ↦ rw (e, print_digits) (omega arith)
  | inr e ↦
      let rest = print_digits-le fuel k (n / 10) (omega (arith, h, ten-pow-suc (suc k))) in
      rw (e, print_digits)
        (omega (arith, rest, length-append (print_digits fuel (n / 10)) (n % 10 ∷ [])))
]

ten-pow-pos : (k : ℕ) → 0 < 10 ^ k
ten-pow-pos zero = omega arith
ten-pow-pos (suc k) = omega (arith, ten-pow-suc k, ten-pow-pos k)

print_digits-pos : (fuel n : ℕ) → 0 < fuel → 0 < length (print_digits fuel n)
unfolding print_digits
print_digits-pos zero n h = h
print_digits-pos (suc fuel) n h = elim (Bool-cases (ltb n 10)) [
  | inl e ↦ rw (e, print_digits) (omega arith)
  | inr e ↦
      rw (e, print_digits) (omega (arith, length-append (print_digits fuel (n / 10)) (n % 10 ∷ [])))
]

print_digits-lt :
    (fuel k n : ℕ) → n < 10 ^ fuel → 10 ^ suc k ≤ n → suc k < length (print_digits fuel n)
unfolding print_digits
print_digits-lt zero k n h g = absurd (omega (arith, h, g, ten-pow-pos (suc k)))
print_digits-lt (suc fuel) zero n h g = elim (Bool-cases (ltb n 10)) [
  | inl e ↦ absurd (ground (arith, e, g))
  | inr e ↦
      let rest = print_digits-pos fuel (n / 10) (more_fuel fuel h) in
      rw (e, print_digits)
        (omega (arith, rest, length-append (print_digits fuel (n / 10)) (n % 10 ∷ [])))
]
  where
    more_fuel : (fuel : ℕ) → n < 10 ^ suc fuel → 0 < fuel
    more_fuel zero h = absurd (omega (arith, h, g))
    more_fuel (suc fuel) h = omega arith
print_digits-lt (suc fuel) (suc k) n h g = elim (Bool-cases (ltb n 10)) [
  | inl e ↦
      let low : n < 10 = ground (arith, e) in
      absurd (omega (arith, low, g, ten-pow-suc (suc k), ten-pow-suc k, ten-pow-pos k))
  | inr e ↦
      let rest =
        print_digits-lt fuel k (n / 10) (omega (arith, h, ten-pow-suc fuel))
          (omega (arith, g, ten-pow-suc (suc k))) in
      rw (e, print_digits)
        (omega (arith, rest, length-append (print_digits fuel (n / 10)) (n % 10 ∷ [])))
]

read_digits-blank_digits : (len : ℕ) → read_digits (blank_digits len) ≡ []
unfolding read_digits blank_digits pair_digits
read_digits-blank_digits zero = refl
read_digits-blank_digits (suc len) = read_digits-blank_digits len

pair_digits_low : (d : ℕ) → d < 10 → pair_digits (record { low = d; high = 0xf }) ≡ d ∷ []
unfolding pair_digits print_nibble
pair_digits_low d h = ground arith

pair_digits_both :
    (d e : ℕ) → d < 10 → e < 10 → pair_digits (record { low = d; high = e }) ≡ d ∷ e ∷ []
unfolding pair_digits print_nibble
pair_digits_both d e h k = ground arith

read_digits-set_pairs :
    (len : ℕ) (ds : List ℕ)
    → All IsDigit ds
    → length ds ≤ len * 2
    → read_digits (set_pairs len ds) ≡ ds
unfolding read_digits set_pairs blank_digits
read_digits-set_pairs zero [] all fits = refl
read_digits-set_pairs (suc len) [] all fits = read_digits-blank_digits (suc len)
read_digits-set_pairs zero (d ∷ rest) all fits = absurd (omega (arith, fits))
read_digits-set_pairs (suc len) (d ∷ []) all fits =
    rw (pair_digits_low d all.0, read_digits-blank_digits len) refl
read_digits-set_pairs (suc len) (d ∷ e ∷ rest) all fits =
    rw
      (
        pair_digits_both d e all.0 all.1.0,
        read_digits-set_pairs len rest all.1.1 (omega (arith, fits)),
      )
      refl

-- An array of len pairs takes every number of at most 2 * len digits, and a longer number is refused.
-- From the array gtpc_digits_get reads the number back where errno is not ERANGE, and leaves errno so;
-- once errno is ERANGE, it gives (U64)-1 for every such array.
pub digits_get-digits_set :
    (len digit : ℕ)
    → 0 < len
    → digit < 2 ^ 64
    → ((digit < 10 ^ (len * 2))
        × ((ds : List Numberdigit) × (digits_set len digit ≡ some ds)
            × (digits_get false ds ≡ (digit, false))
            × (digits_get true ds ≡ (2 ^ 64 - 1, true))))
      ⊎ ((10 ^ (len * 2) ≤ digit) × (digits_set len digit ≡ none))
unfolding digits_set print_llu digits_get
digits_get-digits_set zero digit pos h = absurd (omega (arith, pos))
digits_get-digits_set (suc len) digit pos h = elim (Bool-cases (ltb digit (10 ^ (suc len * 2)))) [
  | inl e ↦
      let fits = print_digits-le max_digits (suc (len * 2)) digit (ground (arith, e)) in
      let room : leb (length (print_digits max_digits digit)) (suc len * 2) ≡ true =
        ground (arith, fits) in
      inl (
        ground (arith, e),
        (
          set_pairs (suc len) (print_digits max_digits digit),
          rw (digits_set, room) refl,
          read_back (suc len) (omega (arith, fits)),
          refl,
        ),
      )
  | inr e ↦
      let long =
        print_digits-lt max_digits (suc (len * 2)) digit (omega (arith, h)) (ground (arith, e)) in
      let room : leb (length (print_digits max_digits digit)) (suc len * 2) ≡ false =
        ground (arith, long) in
      inr (ground (arith, e), rw (digits_set, room) refl)
]
  where
    read_back :
        (len : ℕ)
        → length (print_digits max_digits digit) ≤ len * 2
        → digits_get false (set_pairs len (print_digits max_digits digit)) ≡ (digit, false)
    read_back len fits =
        let back = strtoull-print_digits max_digits digit (omega (arith, h)) in
        rw
          (
            read_digits-set_pairs len (print_digits max_digits digit)
                (print_digits-IsDigit max_digits digit) fits,
            back,
          )
          (let small : leb (2 ^ 64) digit ≡ false = ground (arith, h) in rw small refl)
