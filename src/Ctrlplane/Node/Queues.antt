-- ===== src/Ctrlplane/Node/Queues.antt =====
-- ctrlplane/src/cmn/enq.c and deq_burst.c: a queue gives out what it took, in the order it was put in.
use mixi_pgw.Prelude.{
  ℕ, ◌+◌, ◌%◌, ◌^◌, ◌<◌, ◌≤◌, ◌≡◌, inl, inr, Bool-cases, refl, sym, ap, ◌∙◌, arith, leb,
  if◌then◌else◌, List, [], ◌∷◌, ◌++◌, length, take, drop, max, length-append, take-append-drop,
}
use mathlib.Core.List.{append-nil, append_assoc}
use mixi_pgw.Ctrlplane.Node.{Queue, enq, deq_burst, ring_size_max}

pub data Step {ℓ} (A : Type ℓ) : Type ℓ where
  put : A → Step A
  get : ℕ → Step A

module _ {ℓ} {A : Type ℓ} where
  -- The steps in order, with what the bursts gave out.
  pub run_steps : List (Step A) → Queue A → Queue A × List A
  run_steps [] q = (q, [])
  run_steps (put packet ∷ rest) q = run_steps rest (enq q packet)
  run_steps (get bound ∷ rest) q =
      let burst = deq_burst q bound in
      let later = run_steps rest burst.0 in (later.0, burst.1 ++ later.1)

  -- The packets that found room.
  pub taken : List (Step A) → Queue A → List A
  taken [] q = []
  taken (put packet ∷ rest) q =
      let later = taken rest (enq q packet) in
      if leb ring_size_max q.queue_count then later else packet ∷ later
  taken (get bound ∷ rest) q = taken rest (deq_burst q bound).0

  pub record IsCounted (q : Queue A) : Type 0 where
    pub counted : q.queue_count ≡ length q.queue
    pub bounded : q.queue_count ≤ ring_size_max

  length-take : (n : ℕ) (xs : List A) → length (take n xs) + length (drop n xs) ≡ length xs
  length-take n xs = sym (length-append (take n xs) (drop n xs)) ∙ ap length (take-append-drop n xs)

  enq-IsCounted : (q : Queue A) (packet : A) → IsCounted q → IsCounted (enq q packet)
  unfolding enq
  enq-IsCounted q packet h = elim (Bool-cases (leb ring_size_max q.queue_count)) [
    | inl e ↦ rw (e, enq) (record { counted = h.counted; bounded = h.bounded })
    | inr e ↦
        let room : q.queue_count < ring_size_max = ground (arith, e) in
        rw (e, enq)
          (record {
            counted = omega (arith, h.counted, room, length-append q.queue (packet ∷ []));
            bounded = omega (arith, room);
          })
  ]

  deq_burst-IsCounted : (q : Queue A) (bound : ℕ) → IsCounted q → IsCounted (deq_burst q bound).0
  unfolding deq_burst
  deq_burst-IsCounted q bound h = record {
    counted = omega (arith, h.counted, h.bounded, length-take (max 1 bound) q.queue);
    bounded = omega (arith, h.counted, h.bounded, length-take (max 1 bound) q.queue);
  }

  keeps_count :
      (steps : List (Step A)) (q : Queue A) → IsCounted q → IsCounted (run_steps steps q).0
  unfolding run_steps
  keeps_count [] q h = h
  keeps_count (put packet ∷ rest) q h = keeps_count rest (enq q packet) (enq-IsCounted q packet h)
  keeps_count (get bound ∷ rest) q h =
      keeps_count rest (deq_burst q bound).0 (deq_burst-IsCounted q bound h)

  run_steps_order :
      (steps : List (Step A)) (q : Queue A)
      → (run_steps steps q).1 ++ (run_steps steps q).0.queue ≡ q.queue ++ taken steps q
  unfolding run_steps taken enq deq_burst
  run_steps_order [] q = sym (append-nil q.queue)
  run_steps_order (put packet ∷ rest) q = elim (Bool-cases (leb ring_size_max q.queue_count)) [
    | inl e ↦
        rw (run_steps, taken, e)
          (run_steps_order rest (record q { queue_drops = (q.queue_drops + 1) % 2 ^ 64 }))
    | inr e ↦
        rw (run_steps, taken, e)
          (run_steps_order rest (record q {
            queue_count = (q.queue_count + 1) % 2 ^ 64;
            queue = q.queue ++ (packet ∷ []);
          })
            ∙ append_assoc q.queue (packet ∷ []) _)
  ]
  run_steps_order (get bound ∷ rest) q =
      let burst = deq_burst q bound in
      append_assoc burst.1 (run_steps rest burst.0).1 (run_steps rest burst.0).0.queue
      ∙ ap (λ l. burst.1 ++ l) (run_steps_order rest burst.0)
      ∙ sym (append_assoc burst.1 burst.0.queue (taken rest burst.0))
      ∙ ap (λ l. l ++ taken rest burst.0) (take-append-drop (max 1 bound) q.queue)

-- After any calls of pgw_enq and pgw_deq_burst on an empty queue, the packets that found room have
-- come out, or are still queued, in the order they were put in, each once; and the counter is the
-- number of those queued and never above RING_SIZE_MAX.
pub run_steps-IsCounted {ℓ} :
    {A : Type ℓ} (steps : List (Step A))
    → let q : Queue A = record { queue = []; queue_count = 0; queue_drops = 0 } in
      ((run_steps steps q).1 ++ (run_steps steps q).0.queue ≡ taken steps q)
      × IsCounted (run_steps steps q).0
run_steps-IsCounted steps =
    let q : Queue _ = record { queue = []; queue_count = 0; queue_drops = 0 } in
    (
      run_steps_order steps q,
      keeps_count steps q (record { counted = refl; bounded = omega arith }),
    )
