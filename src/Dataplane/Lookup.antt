-- ===== src/Dataplane/Lookup.antt =====
-- dataplane/inc/lookup_tpl.hpp and lookup_tpl.hh: the table `Lookup<T,S,K>` with two sides.
-- An entry `T` is its bit `stat.valid` and a body; `A` is the type of the body. `size` is the
-- template argument S, which is at least 1. The arrays are functions of the index; a bitmap word has 64 bits.
-- A pointer into the arrays (the class Iterator) names its side and its index.
pub mod Sides
pub mod Views
pub mod Refinement
pub mod Readers
pub mod Enumerate
mod Runs
use Prim.Native.Nat.{bit_and, bit_xor}
use mixi_pgw.Prelude.{
  ℕ, zero, suc, ◌+◌, ◌-◌, ◌*◌, ◌/◌, ◌%◌, ◌^◌, Bool, true, false, not, ◌==◌, ltb, leb, Option, none,
  some, if◌then◌else◌, update,
}

-- STAT_ON and STAT_OFF
abbrev pub stat_on : ℕ
stat_on = 0

abbrev pub stat_off : ℕ
stat_off = 1

pub record Item {ℓ} (A : Type ℓ) : Type ℓ where
  pub valid : ℕ
  pub body : A

pub record Lookup {ℓ} (A : Type ℓ) : Type ℓ where
  pub data_side_a : ℕ → Item A
  pub data_side_b : ℕ → Item A
  pub end_item : Item A
  pub data_side_bmp : ℕ → ℕ
  pub virtual_clock_counter : ℕ
  pub virtual_clock_counter_prv : ℕ

pub data Iterator : Type 0 where
  end : Iterator
  side_a side_b : ℕ → Iterator

-- What a call does: it returns 0 or -1, or it throws.
pub data Outcome : Type 0 where
  success failure thrown : Outcome

-- data_side_bmp_[gcnt >> 6] & bits
pub front_is_a : (ℕ → ℕ) → ℕ → Bool
front_is_a bmp gcnt = not (bit_and (bmp (gcnt / 64)) (2 ^ (gcnt - gcnt / 64 * 64)) == 0)

pub flip_side : (ℕ → ℕ) → ℕ → ℕ → ℕ
flip_side bmp gcnt =
    update bmp (gcnt / 64) (bit_xor (bmp (gcnt / 64)) (2 ^ (gcnt - gcnt / 64 * 64)))

-- data_side_bmp_[gcnt] ^= (uint64_t)-1
pub flip_words : ℕ → ℕ → (ℕ → ℕ) → ℕ → ℕ
flip_words zero w bmp = bmp
flip_words (suc n) w bmp = flip_words n (w + 1) (update bmp w (bit_xor (bmp w) (2 ^ 64 - 1)))

module _ {ℓ} {A : Type ℓ} where
  pub clock : Lookup A → Lookup A
  clock t = record t { virtual_clock_counter = (t.virtual_clock_counter + 1) % 2 ^ 64 }

  -- memset to 0, and every entry is STAT_OFF; `blank` is the body of zero bytes
  pub clear : A → Lookup A → Lookup A
  clear blank t = record {
    data_side_a = λ _. record { valid = stat_off; body = blank };
    data_side_b = λ _. record { valid = stat_off; body = blank };
    end_item = record { valid = 0; body = blank };
    data_side_bmp = λ _. 0;
    virtual_clock_counter = 0;
    virtual_clock_counter_prv = 0;
  }

  -- flag: the back side, valid or not; otherwise the front side, if it is valid
  pub find : ℕ → Lookup A → ℕ → Bool → Iterator
  find size t gcnt flag =
      if ltb (size - 1) gcnt
      then end
      else if flag
      then (if front_is_a t.data_side_bmp gcnt then side_b gcnt else side_a gcnt)
      else if front_is_a t.data_side_bmp gcnt
      then (if (t.data_side_a gcnt).valid == stat_on then side_a gcnt else end)
      else if (t.data_side_b gcnt).valid == stat_on
      then side_b gcnt
      else end

  -- *itr, and a write through it
  pub deref : Lookup A → Iterator → Item A
  deref t end = t.end_item
  deref t (side_a k) = t.data_side_a k
  deref t (side_b k) = t.data_side_b k

  pub assign : Lookup A → Iterator → Item A → Lookup A
  assign t end x = record t { end_item = x }
  assign t (side_a k) x = record t { data_side_a = update t.data_side_a k x }
  assign t (side_b k) x = record t { data_side_b = update t.data_side_b k x }

  pub swap_side : Lookup A → ℕ → Lookup A
  swap_side t gcnt = record t { data_side_bmp = flip_side t.data_side_bmp gcnt }

  -- the read phase of Add and Del: a stale clock is refused
  pub is_stale : Lookup A → Bool → Bool
  is_stale t true = leb t.virtual_clock_counter t.virtual_clock_counter_prv
  is_stale t false = false

  pub stamp : Lookup A → Bool → Lookup A
  stamp t true = record t { virtual_clock_counter_prv = t.virtual_clock_counter }
  stamp t false = t

  pub write_back : ℕ → Lookup A → ℕ → Iterator → Item A → Outcome × Lookup A
  unfolding assign swap_side
  write_back size t gcnt end x = (thrown, t)
  write_back size t gcnt (side_a k) x = (success, swap_side (assign t (side_a k) x) gcnt)
  write_back size t gcnt (side_b k) x = (success, swap_side (assign t (side_b k) x) gcnt)

  -- `nochk_counter` other than 0 asks for the check of the clock
  pub add : ℕ → Lookup A → ℕ → A → Bool → Outcome × Lookup A
  unfolding is_stale stamp write_back
  add size t gcnt itm nochk_counter =
      if is_stale t nochk_counter
      then (failure, t)
      else let t' = stamp t nochk_counter in
        write_back size t' gcnt (find size t' gcnt true) (record { valid = stat_on; body = itm })

  pub del : ℕ → Lookup A → ℕ → Bool → Outcome × Lookup A
  unfolding is_stale stamp write_back
  del size t gcnt nochk_counter =
      if is_stale t nochk_counter
      then (failure, t)
      else let t' = stamp t nochk_counter in
        let itr = find size t' gcnt true in
        write_back size t' gcnt itr (record (deref t' itr) { valid = stat_off })

  -- operator[]: a valid front entry, or else the back entry, which is made valid and the front
  pub validate : Lookup A → Iterator → Lookup A
  unfolding assign deref
  validate t itr = assign t itr (record (deref t itr) { valid = stat_on })

  pub index_back : Lookup A → ℕ → Iterator → Option Iterator × Lookup A
  unfolding validate swap_side
  index_back t gcnt end = (none, t)
  index_back t gcnt (side_a k) = (some (side_a k), swap_side (validate t (side_a k)) gcnt)
  index_back t gcnt (side_b k) = (some (side_b k), swap_side (validate t (side_b k)) gcnt)

  pub index_front : ℕ → Lookup A → ℕ → Iterator → Option Iterator × Lookup A
  unfolding index_back
  index_front size t gcnt end = index_back t gcnt (find size t gcnt true)
  index_front size t gcnt (side_a k) = (some (side_a k), validate t (side_a k))
  index_front size t gcnt (side_b k) = (some (side_b k), validate t (side_b k))

  -- `none` is a throw
  pub index : ℕ → Lookup A → ℕ → Option Iterator × Lookup A
  unfolding index_front
  index size t gcnt =
      if ltb (size - 1) gcnt then (none, t) else index_front size t gcnt (find size t gcnt false)

  -- EnumerateForUpdate: copy front to back, let `func` change it, make it valid
  pub refresh : (Item A → Item A) → Item A → Item A
  refresh func x = record (func x) { valid = stat_on }

  pub update_entry : (Item A → Item A) → Lookup A → ℕ → Lookup A
  unfolding refresh
  update_entry func t k =
      if front_is_a t.data_side_bmp k
      then record t { data_side_b = update t.data_side_b k (refresh func (t.data_side_a k)) }
      else record t { data_side_a = update t.data_side_a k (refresh func (t.data_side_b k)) }

  -- for (gcnt = k; ...; gcnt++), `n` rounds
  pub update_entries : (Item A → Item A) → ℕ → ℕ → Lookup A → Lookup A
  update_entries func zero k t = t
  update_entries func (suc n) k t = update_entries func n (k + 1) (update_entry func t k)

  pub enumerate_for_update : ℕ → (Item A → Item A) → Lookup A → Lookup A
  unfolding update_entries update_entry flip_words
  enumerate_for_update size func t =
      let t' = update_entries func (size - 1) 1 t in
      record t' { data_side_bmp = flip_words (size / 64) 0 t'.data_side_bmp }
