-- ===== src/Dataplane/Lookup/Runs.antt =====
-- The table of lookup_tpl.hh at concrete inputs.
use mixi_pgw.Prelude.{
  ℕ, ◌≡◌, refl, true, false, ◌==◌, if◌then◌else◌, none, some, List, [], ◌∷◌, arith,
}
use mixi_pgw.Dataplane.Lookup.{
  Lookup, success, failure, thrown, clear, clock, add, del, find, deref, enumerate_for_update,
  is_stale, stamp, write_back, front_is_a, flip_side,
}
use mixi_pgw.Dataplane.Lookup.Views.{view}
use mixi_pgw.Dataplane.Lookup.Refinement.{
  Call, adds, dels, clocks, call, calls, spec_calls, abstracts, empty_table, calls_refine,
}
use mixi_pgw.Dataplane.Lookup.Readers.{call_keeps_readers}
use mixi_pgw.Dataplane.Lookup.Enumerate.{front, back, enumerate_for_update_lem}

-- A table of 128 numbers before Clear, with whatever the memory holds.
abbrev raw_table : Lookup ℕ
raw_table = record {
  data_side_a = λ _. record { valid = 1; body = 7 };
  data_side_b = λ _. record { valid = 0; body = 9 };
  end_item = record { valid = 0; body = 0 };
  data_side_bmp = λ _. 5;
  virtual_clock_counter = 3;
  virtual_clock_counter_prv = 8;
}

-- An update, a lookup key beyond the table, a stale update, and a removal after the clock.
abbrev some_calls : List (Call ℕ)
some_calls = clocks ∷ adds 3 42 true ∷ adds 200 1 false ∷ dels 3 true ∷ clocks ∷ dels 3 true ∷ []

calls-some_calls :
    (calls 128 (clear 0 raw_table) some_calls).0
    ≡ (success ∷ success ∷ thrown ∷ failure ∷ success ∷ success ∷ [])
unfolding calls call add del clock clear is_stale stamp write_back find front_is_a flip_side
calls-some_calls = refl

calls_refine_example :
    ((calls 128 (clear 0 raw_table) some_calls).0 ≡ (spec_calls 128 empty_table some_calls).0)
    × (abstracts 128 (calls 128 (clear 0 raw_table) some_calls).1
        ≡ (spec_calls 128 empty_table some_calls).1)
calls_refine_example = calls_refine 128 0 raw_table some_calls

call_keeps_readers_example :
    deref (call 128 raw_table (adds 3 42 false)).1 (find 128 raw_table 3 false)
    ≡ deref raw_table (find 128 raw_table 3 false)
call_keeps_readers_example = call_keeps_readers 128 raw_table (adds 3 42 false) 3

enumerate_for_update_example : view 128 (enumerate_for_update 128 (λ x. x) raw_table) 0 ≡ (
    if 0 == 0
    then (if (back raw_table 0).valid == 0 then some (back raw_table 0).body else none)
    else some (front raw_table 0).body)
enumerate_for_update_example =
    enumerate_for_update_lem 128 2 (λ x. x) raw_table 0 (omega arith) (omega arith)
