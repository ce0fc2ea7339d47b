-- ===== src/Dataplane/Lookup/Refinement.antt =====
-- lookup_tpl.hh refines a partial map with a clock: the same answers, and the same contents.
use mixi_pgw.Prelude.{
  ℕ, ◌+◌, ◌-◌, ◌%◌, ◌^◌, ◌≡◌, refl, ◌∙◌, ap, fun_ext, Bool, true, false, ◌==◌, ltb, leb, Option,
  none, some, List, [], ◌∷◌, if◌then◌else◌, ◌&&◌, update, arith, Bool-cases, inl, inr,
}
use mixi_pgw.Dataplane.Lookup.{
  Lookup, Item, Outcome, success, failure, thrown, clock, clear, find, add, del, is_stale, stamp,
  swap_side, assign, deref, stat_off, write_back,
}
use mixi_pgw.Dataplane.Lookup.Views.{view, find_cases, view-write_back, view_cases}

-- The map: the entries that a reader finds, and the two clock values.
pub record Table {ℓ} (A : Type ℓ) : Type ℓ where
  pub entries : ℕ → Option A
  pub now : ℕ
  pub last : ℕ

pub data Call {ℓ} (A : Type ℓ) : Type ℓ where
  adds : ℕ → A → Bool → Call A
  dels : ℕ → Bool → Call A
  clocks : Call A

module _ {ℓ} {A : Type ℓ} where
  -- A checked call needs a clock that has moved; a key beyond the table is a throw.
  spec_write : ℕ → Table A → ℕ → Option A → Bool → Outcome × Table A
  spec_write size m k x checked =
      let m' = if checked then record m { last = m.now } else m in
      if checked && leb m.now m.last
      then (failure, m)
      else if ltb (size - 1) k
      then (thrown, m')
      else (success, record m' { entries = update m.entries k x })

  pub spec : ℕ → Table A → Call A → Outcome × Table A
  unfolding spec_write
  spec size m (adds k x checked) = spec_write size m k (some x) checked
  spec size m (dels k checked) = spec_write size m k none checked
  spec size m clocks = (success, record m { now = (m.now + 1) % 2 ^ 64 })

  unfoldable pub call : ℕ → Lookup A → Call A → Outcome × Lookup A
  call size t (adds k x checked) = add size t k x checked
  call size t (dels k checked) = del size t k checked
  call size t clocks = (success, clock t)

  pub abstracts : ℕ → Lookup A → Table A
  abstracts size t = record {
    entries = view size t;
    now = t.virtual_clock_counter;
    last = t.virtual_clock_counter_prv;
  }

  same_view :
      (size : ℕ) (t u : Lookup A) (j : ℕ)
      → t.data_side_a ≡ u.data_side_a
      → t.data_side_b ≡ u.data_side_b
      → t.data_side_bmp ≡ u.data_side_bmp
      → view size t j ≡ view size u j
  same_view size t u j a b c = ground (arith, view_cases size t j, view_cases size u j)

  view-stamp :
      (size : ℕ) (t : Lookup A) (c : Bool) (j : ℕ) → view size (stamp t c) j ≡ view size t j
  unfolding stamp
  view-stamp size t true j = same_view size (stamp t true) t j refl refl refl
  view-stamp size t false j = refl

  write_back_out :
      (size : ℕ) (t : Lookup A) (k : ℕ) (x : Item A)
      → ltb (size - 1) k ≡ true
      → write_back size t k (find size t k true) x ≡ (thrown, t)
  unfolding write_back
  write_back_out size t k x h = rw (find_cases size t k, h) refl

  write_back_in :
      (size : ℕ) (t : Lookup A) (k : ℕ) (x : Item A)
      → ltb (size - 1) k ≡ false
      → let r = write_back size t k (find size t k true) x in
        (r.0 ≡ success)
        × (r.1.virtual_clock_counter ≡ t.virtual_clock_counter)
        × (r.1.virtual_clock_counter_prv ≡ t.virtual_clock_counter_prv)
  unfolding write_back swap_side assign
  write_back_in size t k x h = rw (find_cases size t k, h) (ground arith)

  entries-write_back :
      (size : ℕ) (t : Lookup A) (k : ℕ) (x : Item A) (y : Option A)
      → (if x.valid == 0 then some x.body else none) ≡ y
      → ltb (size - 1) k ≡ false
      → view size (write_back size t k (find size t k true) x).1 ≡ update (view size t) k y
  entries-write_back size t k x y e h = fun_ext λ j. ground (arith, view-write_back size t k j x h)

  -- A write to the back side and the swap write the entry of the map.
  write_back_refines :
      (size : ℕ) (t : Lookup A) (k : ℕ) (x : Item A) (y : Option A)
      → (if x.valid == 0 then some x.body else none) ≡ y
      → let r = write_back size t k (find size t k true) x in
        let m = abstracts size t in
        (r.0 ≡ (if ltb (size - 1) k then thrown else success))
        × (abstracts size r.1
            ≡ (if ltb (size - 1) k then m else record m { entries = update m.entries k y }))
  unfolding abstracts
  write_back_refines size t k x y e = elim (Bool-cases (ltb (size - 1) k)) [
    | inl out ↦ rw (write_back_out size t k x out, out) (refl, refl)
    | inr fits ↦
        rw fits
          (ground (arith, write_back_in size t k x fits, entries-write_back size t k x y e fits))
  ]

  abstracts-stamp :
      (size : ℕ) (t : Lookup A)
      → abstracts size (stamp t true) ≡ record (abstracts size t) { last = t.virtual_clock_counter }
  unfolding abstracts stamp
  abstracts-stamp size t = λ i. record {
    entries = fun_ext (view-stamp size t true) i;
    now = t.virtual_clock_counter;
    last = t.virtual_clock_counter;
  }

  entries_stamped :
      (size : ℕ) (t : Lookup A) (k : ℕ) (x : Item A) (y : Option A)
      → (if x.valid == 0 then some x.body else none) ≡ y
      → ltb (size - 1) k ≡ false
      → let t' = stamp t true in
        view size (write_back size t' k (find size t' k true) x).1 ≡ update (view size t) k y
  entries_stamped size t k x y e h =
      entries-write_back size (stamp t true) k x y e h
      ∙ fun_ext λ j. ground (arith, view-stamp size t true j)

  clocks_stamped :
      (size : ℕ) (t : Lookup A) (k : ℕ) (x : Item A)
      → ltb (size - 1) k ≡ false
      → let t' = stamp t true in
        let r = write_back size t' k (find size t' k true) x in
        (r.0 ≡ success)
        × (r.1.virtual_clock_counter ≡ t.virtual_clock_counter)
        × (r.1.virtual_clock_counter_prv ≡ t.virtual_clock_counter)
  unfolding stamp
  clocks_stamped size t k x h = write_back_in size (stamp t true) k x h

  -- One write, its clock checked, does what the map does.
  write_refines :
      (size : ℕ) (t : Lookup A) (k : ℕ) (x : Item A) (y : Option A) (checked : Bool)
      → (if x.valid == 0 then some x.body else none) ≡ y
      → let t' = stamp t checked in
        let r =
          if is_stale t checked
          then (failure, t)
          else write_back size t' k (find size t' k true) x in
        let m = spec_write size (abstracts size t) k y checked in
        (r.0 ≡ m.0) × (abstracts size r.1 ≡ m.1)
  unfolding spec_write is_stale
  write_refines size t k x y false e =
      unfold stamp in ground (arith, write_back_refines size t k x y e)
  write_refines size t k x y true e =
      elim (Bool-cases (leb t.virtual_clock_counter t.virtual_clock_counter_prv)) [
        | inl stale ↦ unfold abstracts in rw stale (refl, refl)
        | inr fresh ↦ elim (Bool-cases (ltb (size - 1) k)) [
          | inl out ↦
              rw (write_back_out size (stamp t true) k x out)
                (unfold abstracts in rw (fresh, out) (refl, abstracts-stamp size t))
          | inr fits ↦
              let kept = clocks_stamped size t k x fits in
              unfold abstracts in
              rw (fresh, fits)
                (
                  kept.0,
                  λ i. record {
                    entries = entries_stamped size t k x y e fits i;
                    now = kept.1 i;
                    last = kept.2 i;
                  },
                )
        ]
      ]

  -- Each call gives the answer of the map, and leaves the table at the map that it leaves.
  pub call_refines :
      (size : ℕ) (t : Lookup A) (c : Call A)
      → ((call size t c).0 ≡ (spec size (abstracts size t) c).0)
        × (abstracts size (call size t c).1 ≡ (spec size (abstracts size t) c).1)
  unfolding call spec add del clock abstracts
  call_refines size t (adds k x checked) =
      write_refines size t k (record { valid = 0; body = x }) (some x) checked refl
  call_refines size t (dels k checked) =
      let t' = stamp t checked in
      let x = record (deref t' (find size t' k true)) { valid = stat_off } in
      write_refines size t k x none checked refl
  call_refines size t clocks = (
    refl,
    λ i. record {
      entries = fun_ext (λ j. same_view size (clock t) t j refl refl refl) i;
      now = (t.virtual_clock_counter + 1) % 2 ^ 64;
      last = t.virtual_clock_counter_prv;
    },
  )

  unfoldable pub calls : ℕ → Lookup A → List (Call A) → List Outcome × Lookup A
  calls size t [] = ([], t)
  calls size t (c ∷ cs) =
      let (o, t') = call size t c in let (os, u) = calls size t' cs in (o ∷ os, u)

  pub spec_calls : ℕ → Table A → List (Call A) → List Outcome × Table A
  spec_calls size m [] = ([], m)
  spec_calls size m (c ∷ cs) =
      let (o, m') = spec size m c in let (os, n) = spec_calls size m' cs in (o ∷ os, n)

  calls_refine_from :
      (size : ℕ) (t : Lookup A) (m : Table A) (cs : List (Call A))
      → abstracts size t ≡ m
      → ((calls size t cs).0 ≡ (spec_calls size m cs).0)
        × (abstracts size (calls size t cs).1 ≡ (spec_calls size m cs).1)
  unfolding calls spec_calls
  calls_refine_from size t m [] e = (refl, e)
  calls_refine_from size t m (c ∷ cs) e =
      let step = call_refines size t c in
      let moved = step.1 ∙ ap (λ (n : Table A). (spec size n c).1) e in
      let rest = calls_refine_from size (call size t c).1 (spec size m c).1 cs moved in
      (λ i. (step.0 ∙ ap (λ (n : Table A). (spec size n c).0) e) i ∷ rest.0 i, rest.1)

  abbrev pub empty_table : Table A
  empty_table = record { entries = λ _. none; now = 0; last = 0 }

  -- After Clear, any run of Clock, Add and Del on the table answers call by call as the run on the
  -- empty map does, and ends with the front side of every key showing the entry of the map.
  pub calls_refine :
      (size : ℕ) (blank : A) (t : Lookup A) (cs : List (Call A))
      → ((calls size (clear blank t) cs).0 ≡ (spec_calls size empty_table cs).0)
        × (abstracts size (calls size (clear blank t) cs).1 ≡ (spec_calls size empty_table cs).1)
  unfolding abstracts clear
  calls_refine size blank t cs =
      calls_refine_from size (clear blank t) empty_table cs
        (λ i. record { entries = fun_ext (λ j. cleared j) i; now = 0; last = 0 })
    where
      cleared : (j : ℕ) → view size (clear blank t) j ≡ none
      cleared j = ground (arith, view_cases size (clear blank t) j)
