-- ===== src/Prelude/Map.antt =====
-- Maps with numbers for keys (std::map and std::unordered_map), as association lists.
use Prim.Native.Nat.{ℕ}
use mathlib.Core.Path.{◌≡◌, refl}
use mathlib.Core.List.{List, [], ◌∷◌}
use mathlib.Core.Option.{Option, none, some}
use native.Mathlib.Omega.{arith}
use mixi_pgw.Prelude.Tests.{◌==◌, if◌then◌else◌}

module _ {ℓ} {V : Type ℓ} where
  unfoldable pub lookup : ℕ → List (ℕ × V) → Option V
  lookup key [] = none
  lookup key ((own, value) ∷ rest) = if own == key then some value else lookup key rest

  unfoldable pub erase : ℕ → List (ℕ × V) → List (ℕ × V)
  erase key [] = []
  erase key ((own, value) ∷ rest) =
      if own == key then erase key rest else (own, value) ∷ erase key rest

  -- m[key] = value
  unfoldable pub insert : ℕ → V → List (ℕ × V) → List (ℕ × V)
  insert key value [] = (key, value) ∷ []
  insert key value ((own, old) ∷ rest) =
      if own == key then (key, value) ∷ rest else (own, old) ∷ insert key value rest

  pub lookup-erase :
      (key j : ℕ) (map : List (ℕ × V))
      → lookup j (erase key map) ≡ (if key == j then none else lookup j map)
  unfolding lookup erase
  lookup-erase key j [] = ground arith
  lookup-erase key j ((own, value) ∷ rest) = ground (arith, lookup-erase key j rest)

  pub lookup-insert :
      (key j : ℕ) (value : V) (map : List (ℕ × V))
      → lookup j (insert key value map) ≡ (if key == j then some value else lookup j map)
  unfolding lookup insert
  lookup-insert key j value [] = refl
  lookup-insert key j value ((own, old) ∷ rest) = ground (arith, lookup-insert key j value rest)
