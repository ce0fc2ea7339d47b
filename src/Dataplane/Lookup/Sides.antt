-- ===== src/Dataplane/Lookup/Sides.antt =====
-- Which side of an entry is the front: the bitmap of lookup_tpl.hh, bit by bit.
use Prim.Native.Nat.{bit_xor}
use mixi_pgw.Prelude.{
  ℕ, zero, suc, ◌+◌, ◌-◌, ◌*◌, ◌/◌, ◌^◌, ◌<◌, ◌≡◌, refl, ◌≢◌, not, ◌==◌, ltb, leb, if◌then◌else◌,
  ◌&&◌, arith, update,
}
use mixi_pgw.Prelude.Bits.{bit, bit-lt, bit_flip, bit_flip_all, bit_test}
use mixi_pgw.Dataplane.Lookup.{front_is_a, flip_side, flip_words}

front_bit :
    (bmp : ℕ → ℕ) (k : ℕ) → front_is_a bmp k ≡ not (bit (bmp (k / 64)) (k - k / 64 * 64) == 0)
unfolding front_is_a
front_bit bmp k = rw (bit_test (bmp (k / 64)) (k - k / 64 * 64)) refl

not_flipped : (d : ℕ) → d < 2 → not (1 - d == 0) ≡ not (not (d == 0))
not_flipped zero h = refl
not_flipped (suc zero) h = refl
not_flipped (suc (suc d)) h = absurd (omega arith)

not_same_position : (k j : ℕ) → k ≢ j → k / 64 ≡ j / 64 → k - k / 64 * 64 ≢ j - j / 64 * 64
not_same_position k j h e p = h (omega arith)

-- SwapSide turns its own entry over and leaves every other as it is.
pub front_is_a-flip_side :
    (bmp : ℕ → ℕ) (k j : ℕ)
    → front_is_a (flip_side bmp k) j ≡ (if k == j then not (front_is_a bmp j) else front_is_a bmp j)
unfolding flip_side
front_is_a-flip_side bmp k j = ground (
  arith,
  front_bit (flip_side bmp k) j,
  front_bit bmp j,
  bit_flip (bmp (k / 64)) (k - k / 64 * 64) (j - j / 64 * 64),
  not_flipped (bit (bmp (j / 64)) (j - j / 64 * 64)) (bit-lt _ _),
  not_same_position k j,
)

flip_words_lem :
    (n w : ℕ) (bmp : ℕ → ℕ) (v k : ℕ)
    → k < 64
    → bit (flip_words n w bmp v) k
      ≡ (if leb w v && ltb v (w + n) then 1 - bit (bmp v) k else bit (bmp v) k)
unfolding flip_words
flip_words_lem zero w bmp v k h = ground arith
flip_words_lem (suc n) w bmp v k h =
    let bmp' : ℕ → ℕ = update bmp w (bit_xor (bmp w) (2 ^ 64 - 1)) in
    ground (arith, flip_words_lem n (w + 1) bmp' v k h, bit_flip_all (bmp v) k h)

-- Flipping the words turns every entry of theirs over.
pub front_is_a-flip_words :
    (n : ℕ) (bmp : ℕ → ℕ) (j : ℕ)
    → j / 64 < n
    → front_is_a (flip_words n 0 bmp) j ≡ not (front_is_a bmp j)
front_is_a-flip_words n bmp j h = ground (
  arith,
  front_bit (flip_words n 0 bmp) j,
  front_bit bmp j,
  flip_words_lem n 0 bmp (j / 64) (j - j / 64 * 64) (omega arith),
  not_flipped (bit (bmp (j / 64)) (j - j / 64 * 64)) (bit-lt _ _),
)
