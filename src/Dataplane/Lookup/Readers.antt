-- ===== src/Dataplane/Lookup/Readers.antt =====
-- Readers of lookup_tpl.hh hold a pointer to a front entry while the writer works on the back side.
use mixi_pgw.Prelude.{ℕ, ◌-◌, ◌≡◌, refl, Bool, true, false, ◌==◌, ltb, if◌then◌else◌, arith}
use mixi_pgw.Dataplane.Lookup.{
  Lookup, Item, Iterator, end, side_a, side_b, find, deref, assign, swap_side, add, del, clock,
  front_is_a, is_stale, stamp, write_back, stat_on, stat_off, failure,
}
use mixi_pgw.Dataplane.Lookup.Views.{find_cases}
use mixi_pgw.Dataplane.Lookup.Refinement.{Call, adds, dels, clocks, call}

module _ {ℓ} {A : Type ℓ} where
  front_pointer :
      (size : ℕ) (t : Lookup A) (j : ℕ)
      → find size t j false ≡ (
          if ltb (size - 1) j
          then end
          else if front_is_a t.data_side_bmp j
          then (if (t.data_side_a j).valid == stat_on then side_a j else end)
          else if (t.data_side_b j).valid == stat_on
          then side_b j
          else end)
  unfolding find
  front_pointer size t j = refl

  write_back_keeps :
      (size : ℕ) (t : Lookup A) (k j : ℕ) (x : Item A)
      → let u = (write_back size t k (find size t k true) x).1 in
        deref u (find size t j false) ≡ deref t (find size t j false)
  unfolding write_back assign swap_side deref
  write_back_keeps size t k j x = ground (arith, find_cases size t k, front_pointer size t j)

  stamp_keeps :
      (size : ℕ) (t : Lookup A) (c : Bool) (j : ℕ) (p : Iterator)
      → (find size (stamp t c) j false ≡ find size t j false) × (deref (stamp t c) p ≡ deref t p)
  unfolding stamp find deref
  stamp_keeps size t true j end = (refl, refl)
  stamp_keeps size t true j (side_a k) = (refl, refl)
  stamp_keeps size t true j (side_b k) = (refl, refl)
  stamp_keeps size t false j p = (refl, refl)

  write_keeps :
      (size : ℕ) (t : Lookup A) (k j : ℕ) (x : Item A) (c : Bool)
      → let t' = stamp t c in
        let r =
          if is_stale t c then (failure, t) else write_back size t' k (find size t' k true) x in
        deref r.1 (find size t j false) ≡ deref t (find size t j false)
  write_keeps size t k j x c =
      ground (
        arith,
        write_back_keeps size (stamp t c) k j x,
        stamp_keeps size t c j (find size t j false),
      )

  -- What a reader got from Find on the front side of any key, also the key that is written, reads
  -- the same entry after one Add, Del or Clock of the writer.
  pub call_keeps_readers :
      (size : ℕ) (t : Lookup A) (c : Call A) (j : ℕ)
      → deref (call size t c).1 (find size t j false) ≡ deref t (find size t j false)
  unfolding call add del clock
  call_keeps_readers size t (adds k x c) j =
      write_keeps size t k j (record { valid = stat_on; body = x }) c
  call_keeps_readers size t (dels k c) j =
      let t' = stamp t c in
      write_keeps size t k j (record (deref t' (find size t' k true)) { valid = stat_off }) c
  call_keeps_readers size t clocks j = clock_keeps (find size t j false)
    where
      clock_keeps : (p : Iterator) → deref (clock t) p ≡ deref t p
      clock_keeps end = unfold deref in refl
      clock_keeps (side_a k) = unfold deref in refl
      clock_keeps (side_b k) = unfold deref in refl
