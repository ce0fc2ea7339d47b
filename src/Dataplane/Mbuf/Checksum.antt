-- ===== src/Dataplane/Mbuf/Checksum.antt =====
-- _checksum and _wrapsum: the loops end, and a header that carries its checksum sums to 0.
use mixi_pgw.Prelude.{
  ℕ, suc, ◌⊎◌, inl, inr, ◌+◌, ◌-◌, ◌*◌, ◌%◌, ◌^◌, ◌≤◌, ◌<◌, ◌≡◌, refl, ◌∙◌, ap, htons, htons-htons,
  arith,
}
use mixi_pgw.Ctrlplane.Gtpc.{Octets}
use mixi_pgw.Dataplane.Mbuf.{le16, sum_words, fold_carries, checksum, wrapsum}

fold_carries-lt : (s : ℕ) → s < 2 ^ 32 → fold_carries 3 s < 2 ^ 16
unfolding fold_carries
fold_carries-lt s h = ground arith

fold_carries-remainder : (s : ℕ) → fold_carries 3 s % 65535 ≡ s % 65535
unfolding fold_carries
fold_carries-remainder s = ground arith

fold_carries-pos : (s : ℕ) → 0 < s → 0 < fold_carries 3 s
unfolding fold_carries
fold_carries-pos s h = ground arith

htons-lt : (w : ℕ) → htons w < 2 ^ 16
unfolding htons
htons-lt w = omega arith

htons-zero : htons 0 ≡ 0
unfolding htons
htons-zero = refl

abbrev word : Octets → ℕ → ℕ
word addr at = htons (le16 addr at)

-- The words of a header but for its checksum.
abbrev other_words : Octets → ℕ
other_words addr =
    word addr 0
    + word addr 2
    + word addr 4
    + word addr 6
    + word addr 8
    + word addr 12
    + word addr 14
    + word addr 16
    + word addr 18

sum_words_20 : (addr : Octets) → sum_words addr 0 20 0 ≡ other_words addr + word addr 10
unfolding sum_words
sum_words_20 addr = omega (
  arith,
  htons-lt (le16 addr 0),
  htons-lt (le16 addr 2),
  htons-lt (le16 addr 4),
  htons-lt (le16 addr 6),
  htons-lt (le16 addr 8),
  htons-lt (le16 addr 10),
  htons-lt (le16 addr 12),
  htons-lt (le16 addr 14),
  htons-lt (le16 addr 16),
  htons-lt (le16 addr 18),
)

other_words-lt : (addr : Octets) → other_words addr < 9 * 65536
other_words-lt addr = omega (
  arith,
  htons-lt (le16 addr 0),
  htons-lt (le16 addr 2),
  htons-lt (le16 addr 4),
  htons-lt (le16 addr 6),
  htons-lt (le16 addr 8),
  htons-lt (le16 addr 12),
  htons-lt (le16 addr 14),
  htons-lt (le16 addr 16),
  htons-lt (le16 addr 18),
)

wrapsum-checksum :
    (addr : Octets)
    → wrapsum (checksum addr 20 0)
      ≡ htons (65535 - fold_carries 3 (other_words addr + word addr 10))
unfolding wrapsum checksum
wrapsum-checksum addr =
    let s = other_words addr + word addr 10 in
    let below : s < 2 ^ 32 = omega (arith, other_words-lt addr, htons-lt (le16 addr 10)) in
    rw (sum_words_20 addr) (ap htons (low (fold_carries 3 s) (fold_carries-lt s below)))
  where
    low : (f : ℕ) → f < 2 ^ 16 → (2 ^ 32 - 1 - f) % 2 ^ 16 ≡ 65535 - f
    low f h = omega arith

-- What is added to a sum to complete it makes it fold to all ones.
completed :
    (s : ℕ) → 0 < s → s < 9 * 65536 → fold_carries 3 (s + (65535 - fold_carries 3 s)) ≡ 65535
completed s p h =
    let t = s + (65535 - fold_carries 3 s) in
    omega (
      arith,
      fold_carries-lt s (omega arith),
      fold_carries-remainder s,
      fold_carries-pos t (omega arith),
      fold_carries-lt t (omega arith),
      fold_carries-remainder t,
    )

word_same : (f g : Octets) (k : ℕ) → f k ≡ g k → f (suc k) ≡ g (suc k) → word f k ≡ word g k
word_same f g k p q = rw (p, q) refl

-- Headers of 20 octets that agree but for their checksums.
abbrev pub Agree : Octets → Octets → Type 0
Agree f g = (k : ℕ) → k < 20 → (k < 10) ⊎ (12 ≤ k) → f k ≡ g k

other_words_same : (f g : Octets) → Agree f g → other_words f ≡ other_words g
other_words_same f g same = omega (
  arith,
  low 0 (omega arith),
  low 2 (omega arith),
  low 4 (omega arith),
  low 6 (omega arith),
  low 8 (omega arith),
  high 12 (omega arith) (omega arith),
  high 14 (omega arith) (omega arith),
  high 16 (omega arith) (omega arith),
  high 18 (omega arith) (omega arith),
)
  where
    low : (k : ℕ) → suc k < 10 → word f k ≡ word g k
    low k h =
        word_same f g k (same k (omega arith) (inl (omega arith)))
          (same (suc k) (omega arith) (inl h))

    high : (k : ℕ) → 12 ≤ k → suc k < 20 → word f k ≡ word g k
    high k lo h =
        word_same f g k (same k (omega arith) (inr lo)) (same (suc k) h (inr (omega arith)))

htons_nonzero : (a b : ℕ) → a ≡ 0x45 → 0 < htons (a + b * 0x100)
unfolding htons
htons_nonzero a b e = omega arith

begins_nonzero : (addr : Octets) → addr 0 ≡ 0x45 → 0 < other_words addr
begins_nonzero addr e =
    let first : 0 < word addr 0 = htons_nonzero (addr 0) (addr 1) e in omega (arith, first)

-- An IPv4 header of 20 octets, with the checksum in the place of the 0 it was computed over, has
-- the checksum 0.
pub wrapsum-checksum_complete :
    (zeroed full : Octets)
    → Agree full zeroed
    → zeroed 0 ≡ 0x45
    → le16 zeroed 10 ≡ 0
    → le16 full 10 ≡ wrapsum (checksum zeroed 20 0)
    → wrapsum (checksum full 20 0) ≡ 0
wrapsum-checksum_complete zeroed full agree e blank put =
    let s = other_words zeroed in
    let p = begins_nonzero zeroed e in
    let f = fold_carries 3 s in
    let none_yet : word zeroed 10 ≡ 0 = ap htons blank ∙ htons-zero in
    let total : s + word zeroed 10 ≡ s = omega (arith, none_yet) in
    let rest : word full 10 ≡ 65535 - f =
      ap htons (put ∙ wrapsum-checksum zeroed ∙ ap (λ t. htons (65535 - fold_carries 3 t)) total)
      ∙ htons-htons (65535 - f) (omega arith) in
    wrapsum-checksum full
    ∙ rw (other_words_same full zeroed agree, rest)
        (ap (λ t. htons (65535 - t)) (completed s p (other_words-lt zeroed)) ∙ htons-zero)
