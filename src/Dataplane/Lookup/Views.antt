-- ===== src/Dataplane/Lookup/Views.antt =====
-- lookup_tpl.hh against a plain partial map: what `Find` of the front side shows after each call.
use mixi_pgw.Prelude.{
  ℕ, ◌-◌, ◌≡◌, refl, true, false, ◌==◌, ltb, Option, none, some, if◌then◌else◌, arith, Bool-cases,
  inl, inr,
}
use mixi_pgw.Dataplane.Lookup.{
  Lookup, Item, Iterator, end, side_a, side_b, stat_on, find, assign, swap_side, front_is_a,
  write_back,
}
use mixi_pgw.Dataplane.Lookup.Sides.{front_is_a-flip_side}

module _ {ℓ} {A : Type ℓ} where
  abbrev body_at : Lookup A → Iterator → Option A
  body_at t end = none
  body_at t (side_a k) = some (t.data_side_a k).body
  body_at t (side_b k) = some (t.data_side_b k).body

  -- What a reader finds under a key.
  pub view : ℕ → Lookup A → ℕ → Option A
  view size t k = body_at t (find size t k false)

  pub view_cases :
      (size : ℕ) (t : Lookup A) (k : ℕ)
      → view size t k ≡ (
          if ltb (size - 1) k
          then none
          else if front_is_a t.data_side_bmp k
          then (if (t.data_side_a k).valid == stat_on then some (t.data_side_a k).body else none)
          else if (t.data_side_b k).valid == stat_on
          then some (t.data_side_b k).body
          else none)
  unfolding view find
  view_cases size t k = ground arith

  pub find_cases :
      (size : ℕ) (t : Lookup A) (k : ℕ)
      → find size t k true ≡ (
          if ltb (size - 1) k
          then end
          else if front_is_a t.data_side_bmp k
          then side_b k
          else side_a k)
  unfolding find
  find_cases size t k = refl

  -- A write to the back entry and the swap change the view of that key alone.
  pub view-write_back :
      (size : ℕ) (t : Lookup A) (k j : ℕ) (x : Item A)
      → ltb (size - 1) k ≡ false
      → view size (write_back size t k (find size t k true) x).1 j
        ≡ (if k == j then (if x.valid == stat_on then some x.body else none) else view size t j)
  unfolding write_back swap_side assign
  view-write_back size t k j x h = elim (Bool-cases (front_is_a t.data_side_bmp k)) [
    | inl a ↦
        rw (find_cases size t k, h, a)
          (ground (
            arith,
            view_cases size t j,
            view_cases size (swap_side (assign t (side_b k) x) k) j,
            front_is_a-flip_side t.data_side_bmp k j,
          ))
    | inr b ↦
        rw (find_cases size t k, h, b)
          (ground (
            arith,
            view_cases size t j,
            view_cases size (swap_side (assign t (side_a k) x) k) j,
            front_is_a-flip_side t.data_side_bmp k j,
          ))
  ]
