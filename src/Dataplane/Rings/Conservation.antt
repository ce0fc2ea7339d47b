-- ===== src/Dataplane/Rings/Conservation.antt =====
-- No packet is lost or doubled on its way into a ring.
use mixi_pgw.Prelude.{
  ℕ, zero, suc, ◌+◌, ◌*◌, ◌^◌, ◌%◌, ◌≤◌, ◌<◌, ◌≡◌, refl, ap, ◌⊎◌, inl, inr, true, false, ◌==◌, ltb,
  if◌then◌else◌, List, [], ◌∷◌, ◌++◌, length, take, drop, length-append, arith, Bool-cases, All,
}
use mixi_pgw.Dataplane.Rings.{
  Core, Op, send, flush, flush_distribute, send_or_buffer, burst_flush, burst_flush_distribute_rx,
  run_op, run_ops, sent_of, sent_all,
}

-- How often an mbuf stands in a list.
unfoldable pub count : ℕ → List ℕ → ℕ
count x [] = 0
count x (y ∷ ys) = (if x == y then 1 else 0) + count x ys

count-append : (x : ℕ) (xs ys : List ℕ) → count x (xs ++ ys) ≡ count x xs + count x ys
unfolding count
count-append x [] ys = omega arith
count-append x (y ∷ xs) ys = omega (arith, count-append x xs ys)

count-nil : (x : ℕ) → count x [] ≡ 0
unfolding count
count-nil x = refl

-- rte_ring_sp_enqueue_bulk takes all packets or none.
abbrev pub IsBulk : (ℕ → ℕ) → Type 0
IsBulk bulk = (n : ℕ) → (bulk n ≡ 0) ⊎ (bulk n ≡ n)

-- The buffer is never full between two calls.
abbrev pub HasRoom : Core → Type 0
HasRoom c = length c.output < c.burst_to

-- Where an mbuf can be.
abbrev pub held : ℕ → Core → ℕ
held x c = count x c.ring + count x c.freed + count x c.output

take-all : (xs : List ℕ) (n : ℕ) → length xs ≤ n → take n xs ≡ xs
take-all [] zero h = refl
take-all [] (suc n) h = refl
take-all (x ∷ xs) zero h = absurd (omega arith)
take-all (x ∷ xs) (suc n) h = ap (◌∷◌ x) (take-all xs n (omega arith))

drop-none : (xs : List ℕ) → drop 0 xs ≡ xs
drop-none [] = refl
drop-none (x ∷ xs) = refl

-- The counter does not wrap in one more operation.
abbrev IsSmall : Core → Type 0
IsSmall c = c.drop_count + c.burst_to < 2 ^ 64

record IsStep (c c' : Core) (sent : List ℕ) : Type 0 where
  pub room : HasRoom c'
  pub burst : c'.burst_to ≡ c.burst_to
  pub same : (x : ℕ) → held x c' ≡ held x c + count x sent
  pub counted : length c'.freed + c.drop_count ≤ c'.drop_count + length c.freed
  pub few : c'.drop_count ≤ c.drop_count + c.burst_to

send-IsStep :
    (bulk : ℕ → ℕ) (mbuf : ℕ) (c : Core)
    → IsBulk bulk
    → HasRoom c
    → IsSmall c
    → IsStep c (send_or_buffer bulk mbuf c) (mbuf ∷ [])
unfolding send_or_buffer
send-IsStep bulk mbuf c b r w =
    let len = length-append c.output (mbuf ∷ []) in
    let out = c.output ++ (mbuf ∷ []) in
    elim (Bool-cases (ltb (length out) c.burst_to)) [
      | inl e ↦
          rw (e, send_or_buffer)
            (record {
              room = ground arith;
              burst = refl;
              same = λ x. omega (arith, count-append x c.output (mbuf ∷ []));
              counted = omega arith;
              few = omega arith;
            })
      | inr e ↦
          let whole : take c.burst_to out ≡ out = take-all out c.burst_to (omega (arith, len, r)) in
          elim (Bool-cases (bulk c.burst_to == 0)) [
            | inl z ↦
                rw (e, z, whole, send_or_buffer)
                  (record {
                    room = ground arith;
                    burst = refl;
                    same = λ x. omega (
                      arith,
                      count-append x c.output (mbuf ∷ []),
                      count-append x c.freed out,
                      count-nil x,
                    );
                    counted = omega (arith, length-append c.freed out, len, r, w);
                    few = omega (arith, w);
                  })
            | inr z ↦
                let full : bulk c.burst_to ≡ c.burst_to = ground (arith, b c.burst_to) in
                rw (e, z, full, whole, whole, send_or_buffer)
                  (record {
                    room = ground arith;
                    burst = refl;
                    same = λ x. omega (
                      arith,
                      count-append x c.output (mbuf ∷ []),
                      count-append x c.ring out,
                      count-nil x,
                    );
                    counted = omega arith;
                    few = omega arith;
                  })
          ]
    ]

-- The buffer emptied into the ring, or freed with a count that is large enough.
emptied-IsStep :
    (c : Core) (drops : ℕ)
    → HasRoom c
    → IsSmall c
    → IsStep c (record c { output = []; ring = c.ring ++ c.output }) []
      × (length c.output ≤ drops
          → drops ≤ c.burst_to
          → IsStep c
              (record c {
                output = [];
                freed = c.freed ++ c.output;
                drop_count = (c.drop_count + drops) % 2 ^ 64;
              })
              [])
emptied-IsStep c drops r w = (
  record {
    room = omega (arith, r);
    burst = refl;
    same = λ x. omega (arith, count-append x c.ring c.output, count-nil x);
    counted = omega arith;
    few = omega arith;
  },
  λ enough most. record {
    room = omega (arith, r);
    burst = refl;
    same = λ x. omega (arith, count-append x c.freed c.output, count-nil x);
    counted = omega (arith, length-append c.freed c.output, enough, most, w);
    few = omega (arith, most, w);
  },
)

append-nil : (xs : List ℕ) → xs ++ [] ≡ xs
append-nil [] = refl
append-nil (x ∷ xs) = ap (◌∷◌ x) (append-nil xs)

length-zero : (xs : List ℕ) → length xs ≡ 0 → xs ≡ []
length-zero [] h = refl
length-zero (x ∷ xs) h = absurd (omega arith)

flush-IsStep :
    (bulk : ℕ → ℕ) (c : Core)
    → IsBulk bulk
    → HasRoom c
    → IsSmall c
    → IsStep c (burst_flush bulk c) []
unfolding burst_flush
flush-IsStep bulk c b r w =
    let e = emptied-IsStep c (length c.output) r w in
    elim (Bool-cases (length c.output == 0)) [
      | inl z ↦
          rw (z, burst_flush)
            (record {
              room = ground arith;
              burst = refl;
              same = λ x.
                  omega (arith, ap (count x) (length-zero c.output (ground arith)), count-nil x);
              counted = omega arith;
              few = omega arith;
            })
      | inr z ↦ elim (b (length c.output)) [
        | inl none ↦
            let apart : (0 == length c.output) ≡ false = ground arith in
            rw (z, none, apart, drop-none c.output, append-nil c.ring, burst_flush)
              (e.1 (omega arith) (omega (arith, r)))
        | inr all ↦
            let equal : (length c.output == length c.output) ≡ true = ground arith in
            rw (z, all, equal, burst_flush) e.0
      ]
    ]

distribute-IsStep :
    (bulk : ℕ → ℕ) (c : Core)
    → IsBulk bulk
    → HasRoom c
    → IsSmall c
    → IsStep c (burst_flush_distribute_rx bulk c) []
unfolding burst_flush_distribute_rx
distribute-IsStep bulk c b r w =
    let e = emptied-IsStep c c.burst_to r w in
    elim (Bool-cases (length c.output == 0)) [
      | inl z ↦
          rw (z, burst_flush_distribute_rx)
            (record {
              room = r;
              burst = refl;
              same = λ x. omega (arith, count-nil x);
              counted = omega arith;
              few = omega arith;
            })
      | inr z ↦ elim (b (length c.output)) [
        | inl none ↦ rw (z, none, burst_flush_distribute_rx) (e.1 (omega (arith, r)) (omega arith))
        | inr all ↦
            let whole = take-all c.output (length c.output) (omega arith) in
            rw (z, all, z, whole, burst_flush_distribute_rx) e.0
      ]
    ]

run_op-IsStep :
    (bulk : ℕ → ℕ) (op : Op) (c : Core)
    → IsBulk bulk
    → HasRoom c
    → IsSmall c
    → IsStep c (run_op bulk op c) (sent_of op)
unfolding run_op sent_of
run_op-IsStep bulk (send mbuf) c b r w = send-IsStep bulk mbuf c b r w
run_op-IsStep bulk flush c b r w = flush-IsStep bulk c b r w
run_op-IsStep bulk flush_distribute c b r w = distribute-IsStep bulk c b r w

-- In every run of sends and flushes in which the drop counter cannot come to 2 ^ 64, at a burst for
-- each operation, with a ring that takes all packets or none and room in the buffer at the start,
-- each packet stands in the ring, in the buffer or back in the pool as often as it was sent, the
-- buffer keeps room for one more, and the drop counter counts at least the packets that were freed.
pub run_ops_conserves :
    (ops : List ((ℕ → ℕ) × Op)) (c : Core)
    → All (λ o. IsBulk o.0) ops
    → HasRoom c
    → c.drop_count + length ops * c.burst_to < 2 ^ 64
    → ((x : ℕ) → held x (run_ops ops c) ≡ held x c + count x (sent_all ops))
      × HasRoom (run_ops ops c)
      × (length (run_ops ops c).freed + c.drop_count ≤ (run_ops ops c).drop_count + length c.freed)
unfolding run_ops sent_all
run_ops_conserves [] c bs r w = (λ x. omega (arith, count-nil x), r, omega arith)
run_ops_conserves ((bulk, op) ∷ ops) c (b, bs) r w =
    let s = run_op-IsStep bulk op c b r (omega (arith, w)) in
    let left : (run_op bulk op c).drop_count + length ops * (run_op bulk op c).burst_to < 2 ^ 64 =
      omega (arith, w, s.few, ap (◌*◌ (length ops)) s.burst) in
    let ih = run_ops_conserves ops (run_op bulk op c) bs s.room left in
    (
      λ x. omega (arith, ih.0 x, s.same x, count-append x (sent_of op) (sent_all ops)),
      ih.1,
      omega (arith, ih.2, s.counted),
    )
