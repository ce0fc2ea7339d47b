-- ===== src/Dataplane/Rings/Runs.antt =====
-- The buffers in front of a ring at concrete inputs.
use mixi_pgw.Prelude.{ℕ, ◌+◌, ◌≤◌, ◌≡◌, refl, inl, inr, List, [], ◌∷◌, All, length, arith}
use mixi_pgw.Dataplane.Rings.{
  Core, Op, send, flush, flush_distribute, run_ops, run_op, send_or_buffer, burst_flush,
  burst_flush_distribute_rx, sent_all,
}
use mixi_pgw.Dataplane.Rings.Conservation.{IsBulk, HasRoom, held, count, run_ops_conserves}

abbrev idle : Core
idle = record { output = []; burst_to = 2; drop_count = 0; ring = []; freed = [] }

-- A ring with room, and one that is full.
abbrev accepts : ℕ → ℕ
accepts n = n

abbrev refuses : ℕ → ℕ
refuses n = 0

abbrev traffic : List ((ℕ → ℕ) × Op)
traffic =
    (accepts, send 1)
    ∷ (accepts, send 2)
    ∷ (refuses, send 3)
    ∷ (refuses, send 4)
    ∷ (refuses, send 5)
    ∷ (refuses, flush_distribute)
    ∷ (accepts, send 6)
    ∷ (accepts, flush)
    ∷ []

traffic-IsBulk : All (λ o. IsBulk o.0) traffic
traffic-IsBulk = (all, (all, (none, (none, (none, (none, (all, (all, tt))))))))
  where
    all : IsBulk accepts
    all n = inr refl

    none : IsBulk refuses
    none n = inl refl

-- The queue that could not be flushed held one packet; the counter grew by two.
run_ops-traffic : run_ops traffic idle ≡ record {
  output = [];
  burst_to = 2;
  drop_count = 4;
  ring = 1 ∷ 2 ∷ 6 ∷ [];
  freed = 3 ∷ 4 ∷ 5 ∷ [];
}
unfolding run_ops run_op send_or_buffer burst_flush burst_flush_distribute_rx
run_ops-traffic = refl

run_ops_conserves_example :
    ((x : ℕ) → held x (run_ops traffic idle) ≡ held x idle + count x (sent_all traffic))
    × HasRoom (run_ops traffic idle)
    × (length (run_ops traffic idle).freed + 0 ≤ (run_ops traffic idle).drop_count + 0)
run_ops_conserves_example =
    run_ops_conserves traffic idle traffic-IsBulk (omega arith) (omega arith)
