-- ===== src/Dataplane/Lookup/Enumerate.antt =====
-- EnumerateForUpdate of lookup_tpl.hh: which entries it renews, and what it does to the entry 0.
use mixi_pgw.Prelude.{
  ℕ, zero, suc, ◌+◌, ◌-◌, ◌*◌, ◌/◌, ◌<◌, ◌≡◌, refl, ◌==◌, ltb, leb, none, some, if◌then◌else◌, ◌&&◌,
  arith,
}
use mixi_pgw.Dataplane.Lookup.{
  Lookup, Item, front_is_a, refresh, update_entry, update_entries, enumerate_for_update,
}
use mixi_pgw.Dataplane.Lookup.Sides.{front_is_a-flip_words}
use mixi_pgw.Dataplane.Lookup.Views.{view, view_cases}

module _ {ℓ} {A : Type ℓ} where
  -- The two entries of a key, whatever their `stat.valid`.
  pub front : Lookup A → ℕ → Item A
  front t k = if front_is_a t.data_side_bmp k then t.data_side_a k else t.data_side_b k

  pub back : Lookup A → ℕ → Item A
  back t k = if front_is_a t.data_side_bmp k then t.data_side_b k else t.data_side_a k

  update_entries-bmp :
      (func : Item A → Item A) (n k : ℕ) (t : Lookup A)
      → (update_entries func n k t).data_side_bmp ≡ t.data_side_bmp
  unfolding update_entries update_entry
  update_entries-bmp func zero k t = refl
  update_entries-bmp func (suc n) k t =
      ground (arith, update_entries-bmp func n (k + 1) (update_entry func t k))

  update_entry-sides :
      (func : Item A → Item A) (t : Lookup A) (k j : ℕ)
      → let u = update_entry func t k in
        (u.data_side_bmp ≡ t.data_side_bmp)
        × (front u j ≡ front t j)
        × (back u j ≡ (if k == j then refresh func (front t j) else back t j))
  unfolding update_entry front back
  update_entry-sides func t k j = ground arith

  -- The loop leaves the front side alone and renews the back entries of its range.
  update_entries-sides :
      (func : Item A → Item A) (n k : ℕ) (t : Lookup A) (j : ℕ)
      → (front (update_entries func n k t) j ≡ front t j)
        × (back (update_entries func n k t) j
            ≡ (if leb k j && ltb j (k + n) then refresh func (front t j) else back t j))
  unfolding update_entries
  update_entries-sides func zero k t j = ground arith
  update_entries-sides func (suc n) k t j = ground (
    arith,
    update_entry-sides func t k j,
    update_entries-sides func n (k + 1) (update_entry func t k) j,
  )

  swapped :
      (size : ℕ) (func : Item A → Item A) (t : Lookup A) (j : ℕ)
      → j < size / 64 * 64
      → front (enumerate_for_update size func t) j ≡ back (update_entries func (size - 1) 1 t) j
  unfolding enumerate_for_update front back
  swapped size func t j h = ground (
    arith,
    front_is_a-flip_words (size / 64) (update_entries func (size - 1) 1 t).data_side_bmp j
        (omega arith),
  )

  -- For a table of whole bitmap words: after EnumerateForUpdate every key from 1 on shows what
  -- `func` made of its front entry, also where that entry was not valid; the key 0 shows its
  -- former back entry, which `func` never saw.
  pub enumerate_for_update_lem :
      (size words : ℕ) (func : Item A → Item A) (t : Lookup A) (j : ℕ)
      → size ≡ words * 64
      → j < size
      → view size (enumerate_for_update size func t) j ≡ (
          if j == 0
          then (if (back t 0).valid == 0 then some (back t 0).body else none)
          else some (func (front t j)).body)
  enumerate_for_update_lem size words func t j e h = ground (
    arith,
    view_front size (enumerate_for_update size func t) j h,
    swapped size func t j (omega arith),
    update_entries-sides func (size - 1) 1 t j,
    refresh_lem func (front t j),
  )
    where
      view_front :
          (size : ℕ) (t : Lookup A) (j : ℕ)
          → j < size
          → view size t j ≡ (if (front t j).valid == 0 then some (front t j).body else none)
      view_front size t j h = unfold front in ground (arith, view_cases size t j)

      refresh_lem :
          (func : Item A → Item A) (x : Item A)
          → ((refresh func x).valid ≡ 0) × ((refresh func x).body ≡ (func x).body)
      refresh_lem func x = unfold refresh in (refl, refl)
