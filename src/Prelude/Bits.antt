-- ===== src/Prelude/Bits.antt =====
-- One bit of a word: `w & (1 << k)` and `w ^ (1 << k)` as statements on the binary digits.
use Prim.Native.Nat.{
  ℕ, zero, suc, ◌+◌, ◌-◌, ◌*◌, ◌/◌, ◌%◌, ◌^◌, ◌≤◌, ◌<◌, min, bit_and, bit_xor, digits, differ,
  bit_and-bitwise, bit_xor-bitwise,
}
use mathlib.Core.Path.{◌≡◌, refl, ap}
use native.Mathlib.Omega.{arith}
use native.Mathlib.Nat.{pow-suc}
use mixi_pgw.Prelude.Tests.{◌==◌, if◌then◌else◌}

-- The recursion on digits does not depend on how much of its fuel is left over.
digits_enough :
    (z : ℕ → ℕ) (f : ℕ → ℕ → ℕ) (n m a b : ℕ) → a ≤ n → a ≤ m → digits z f n a b ≡ digits z f m a b
digits_enough z f zero zero a b p q = refl
digits_enough z f zero (suc m) zero b p q = refl
digits_enough z f zero (suc m) (suc a) b p q = absurd (omega arith)
digits_enough z f (suc n) zero zero b p q = refl
digits_enough z f (suc n) zero (suc a) b p q = absurd (omega arith)
digits_enough z f (suc n) (suc m) zero b p q = refl
digits_enough z f (suc n) (suc m) (suc a) b p q =
    let rest = digits_enough z f n m (suc a / 2) (b / 2) (omega arith) (omega arith) in
    ap (λ (t : ℕ). t * 2 + f (suc a % 2) (b % 2)) rest

-- Reading a number of halves digit by digit.
pub bit_and_halves : (a b : ℕ) → bit_and a b ≡ bit_and (a / 2) (b / 2) * 2 + min (a % 2) (b % 2)
bit_and_halves zero b = omega (arith, bit_and-bitwise 0 b, bit_and-bitwise (0 / 2) (b / 2))
bit_and_halves (suc a) b = omega (
  arith,
  bit_and-bitwise (suc a) b,
  bit_and-bitwise (suc a / 2) (b / 2),
  digits_enough (λ _. 0) min a (suc a / 2) (suc a / 2) (b / 2) (omega arith) (omega arith),
)

zero-differ : (y : ℕ) → differ 0 y ≡ y
zero-differ y = refl

pub bit_xor_halves : (a b : ℕ) → bit_xor a b ≡ bit_xor (a / 2) (b / 2) * 2 + differ (a % 2) (b % 2)
bit_xor_halves zero b =
    ground (arith, bit_xor-bitwise 0 b, bit_xor-bitwise (0 / 2) (b / 2), zero-differ (b % 2))
bit_xor_halves (suc a) b = omega (
  arith,
  bit_xor-bitwise (suc a) b,
  bit_xor-bitwise (suc a / 2) (b / 2),
  digits_enough (λ y. y) differ a (suc a / 2) (suc a / 2) (b / 2) (omega arith) (omega arith),
)

-- The bit of weight 2 ^ k.
pub bit : ℕ → ℕ → ℕ
bit w zero = w % 2
bit w (suc k) = bit (w / 2) k

pub bit-lt : (w k : ℕ) → bit w k < 2
unfolding bit
bit-lt w zero = omega arith
bit-lt w (suc k) = bit-lt (w / 2) k

differ_low : (d r a b : ℕ) → a < 2 → b < 2 → (d * 2 + differ a b) % 2 ≡ differ a b
differ_low d r zero zero p q = omega arith
differ_low d r zero (suc zero) p q = omega arith
differ_low d r (suc zero) zero p q = omega arith
differ_low d r (suc zero) (suc zero) p q = omega arith
differ_low d r zero (suc (suc b)) p q = absurd (omega arith)
differ_low d r (suc zero) (suc (suc b)) p q = absurd (omega arith)
differ_low d r (suc (suc a)) b p q = absurd (omega arith)

differ-le : (a b : ℕ) → a < 2 → b < 2 → differ a b < 2
differ-le zero b p q = q
differ-le (suc zero) zero p q = omega arith
differ-le (suc zero) (suc zero) p q = omega arith
differ-le (suc zero) (suc (suc b)) p q = absurd (omega arith)
differ-le (suc (suc a)) b p q = absurd (omega arith)

-- Exclusive or works on each bit by itself.
pub bit-bit_xor : (a b k : ℕ) → bit (bit_xor a b) k ≡ differ (bit a k) (bit b k)
unfolding bit
bit-bit_xor a b zero =
    rw (bit_xor_halves a b)
      (differ_low (bit_xor (a / 2) (b / 2)) 0 (a % 2) (b % 2) (omega arith) (omega arith))
bit-bit_xor a b (suc k) =
    let low = differ-le (a % 2) (b % 2) (omega arith) (omega arith) in
    let half : bit_xor a b / 2 ≡ bit_xor (a / 2) (b / 2) = omega (arith, bit_xor_halves a b, low) in
    rw half (bit-bit_xor (a / 2) (b / 2) k)

two-pow-suc : (k : ℕ) → 2 ^ suc k ≡ 2 * 2 ^ k
two-pow-suc k = omega (arith, pow-suc 2 k)

bit-zero : (k : ℕ) → bit 0 k ≡ 0
unfolding bit
bit-zero zero = refl
bit-zero (suc k) = bit-zero k

-- `1 << k` has the one bit k.
pub bit-two-pow : (k j : ℕ) → bit (2 ^ k) j ≡ (if k == j then 1 else 0)
unfolding bit
bit-two-pow zero zero = refl
bit-two-pow zero (suc j) = ground (arith, bit-zero j)
bit-two-pow (suc k) zero = ground (arith, two-pow-suc k)
bit-two-pow (suc k) (suc j) =
    let half : 2 ^ suc k / 2 ≡ 2 ^ k = omega (arith, two-pow-suc k) in
    rw half (ground (arith, bit-two-pow k j))

-- `w ^ (1 << k)` turns bit k over and no other.
pub bit_flip : (w k j : ℕ) → bit (bit_xor w (2 ^ k)) j ≡ (if k == j then 1 - bit w j else bit w j)
bit_flip w k j = rw (bit-bit_xor w (2 ^ k) j, bit-two-pow k j) (by_digit (bit w j) (bit-lt w j))
  where
    by_digit : (d : ℕ) → d < 2 → differ d (if k == j then 1 else 0) ≡ (if k == j then 1 - d else d)
    by_digit zero h = ground arith
    by_digit (suc zero) h = ground arith
    by_digit (suc (suc d)) h = absurd (omega arith)

bit_and-zero : (n a : ℕ) → a ≤ n → bit_and a 0 ≡ 0
bit_and-zero n zero h = refl
bit_and-zero zero (suc a) h = absurd (omega arith)
bit_and-zero (suc n) (suc a) h =
    omega (arith, bit_and_halves (suc a) 0, bit_and-zero n (suc a / 2) (omega arith))

-- `w & (1 << k)` is bit k at its weight.
bit_and-two-pow : (w k : ℕ) → bit_and w (2 ^ k) ≡ bit w k * 2 ^ k
unfolding bit
bit_and-two-pow w zero =
    omega (arith, bit_and_halves w 1, bit_and-zero (w / 2) (w / 2) (omega arith))
bit_and-two-pow w (suc k) = omega (
  arith,
  bit_and_halves w (2 ^ suc k),
  two-pow-suc k,
  ap (bit_and (w / 2)) (half k),
  bit_and-two-pow (w / 2) k,
  ap (λ (t : ℕ). bit (w / 2) k * t) (two-pow-suc k),
)
  where
    half : (k : ℕ) → 2 ^ suc k / 2 ≡ 2 ^ k
    half k = omega (arith, two-pow-suc k)

two-pow-pos : (k : ℕ) → 0 < 2 ^ k
two-pow-pos zero = omega arith
two-pow-pos (suc k) = omega (arith, two-pow-suc k, two-pow-pos k)

-- The test `w & (1 << k)` of the source reads bit k.
pub bit_test : (w k : ℕ) → (bit_and w (2 ^ k) == 0) ≡ (bit w k == 0)
bit_test w k = rw (bit_and-two-pow w k) (by_digit (bit w k) (bit-lt w k))
  where
    by_digit : (d : ℕ) → d < 2 → (d * 2 ^ k == 0) ≡ (d == 0)
    by_digit zero h = ground arith
    by_digit (suc zero) h = ground (arith, two-pow-pos k)
    by_digit (suc (suc d)) h = absurd (omega arith)

bit_ones : (n k : ℕ) → k < n → bit (2 ^ n - 1) k ≡ 1
unfolding bit
bit_ones zero k h = absurd (omega arith)
bit_ones (suc n) zero h = omega (arith, two-pow-suc n, two-pow-pos n)
bit_ones (suc n) (suc k) h =
    let half : (2 ^ suc n - 1) / 2 ≡ 2 ^ n - 1 = omega (arith, two-pow-suc n, two-pow-pos n) in
    rw half (bit_ones n k (omega arith))

-- `w ^ (uint64_t)-1` turns each of the 64 bits over.
pub bit_flip_all : (w k : ℕ) → k < 64 → bit (bit_xor w (2 ^ 64 - 1)) k ≡ 1 - bit w k
bit_flip_all w k h =
    rw (bit-bit_xor w (2 ^ 64 - 1) k, bit_ones 64 k h) (by_digit (bit w k) (bit-lt w k))
  where
    by_digit : (d : ℕ) → d < 2 → differ d 1 ≡ 1 - d
    by_digit zero h = refl
    by_digit (suc zero) h = refl
    by_digit (suc (suc d)) h = absurd (omega arith)
