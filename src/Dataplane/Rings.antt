-- ===== src/Dataplane/Rings.antt =====
-- dataplane/src/core/cores.cc and core_rx_distributor.cc: packets on their way into a ring.
-- An mbuf is its address as a number. The ring is rte_ring: a call of rte_ring_sp_enqueue_bulk is
-- the parameter `bulk`, from the number of packets to the number that the ring takes. What the ring
-- took and what was given back to the pool are kept as lists.
pub mod Conservation
mod Runs
use mixi_pgw.Prelude.{
  ℕ, ◌+◌, ◌%◌, ◌^◌, Bool, true, false, not, ◌==◌, ltb, if◌then◌else◌, List, [], ◌∷◌, ◌++◌, length,
  take, drop,
}

-- CoreInterface: `output` is output_ up to output_cnt_
pub record Core : Type 0 where
  pub output : List ℕ
  pub burst_to : ℕ
  pub drop_count : ℕ
  pub ring : List ℕ
  pub freed : List ℕ

-- CoreInterface::SendOrBuffer
unfoldable pub send_or_buffer : (ℕ → ℕ) → ℕ → Core → Core
send_or_buffer bulk mbuf c =
    let output = c.output ++ (mbuf ∷ []) in
    if ltb (length output) c.burst_to
    then record c { output = output }
    else if bulk c.burst_to == 0
    then record c {
      output = [];
      freed = c.freed ++ take c.burst_to output;
      drop_count = (c.drop_count + c.burst_to) % 2 ^ 64;
    }
    else record c { output = []; ring = c.ring ++ take (bulk c.burst_to) (take c.burst_to output) }

-- CoreInterface::BurstFlush, which frees from the first packet that the ring did not take
unfoldable pub burst_flush : (ℕ → ℕ) → Core → Core
burst_flush bulk c =
    let cnt = length c.output in
    if cnt == 0
    then record c { output = [] }
    else if not (bulk cnt == cnt)
    then record c {
      output = [];
      ring = c.ring ++ take (bulk cnt) c.output;
      freed = c.freed ++ drop (bulk cnt) c.output;
      drop_count = (c.drop_count + cnt) % 2 ^ 64;
    }
    else record c { output = []; ring = c.ring ++ c.output }

-- One queue of CoreRxDistributor::BurstFlushDistributeRx: a drop is counted as burst_to_ packets.
unfoldable pub burst_flush_distribute_rx : (ℕ → ℕ) → Core → Core
burst_flush_distribute_rx bulk c =
    let cnt = length c.output in
    if cnt == 0
    then c
    else if bulk cnt == 0
    then record c {
      output = [];
      freed = c.freed ++ c.output;
      drop_count = (c.drop_count + c.burst_to) % 2 ^ 64;
    }
    else record c { output = []; ring = c.ring ++ take (bulk cnt) c.output }

pub data Op : Type 0 where
  send : ℕ → Op
  flush : Op
  flush_distribute : Op

unfoldable pub run_op : (ℕ → ℕ) → Op → Core → Core
run_op bulk (send mbuf) c = send_or_buffer bulk mbuf c
run_op bulk flush c = burst_flush bulk c
run_op bulk flush_distribute c = burst_flush_distribute_rx bulk c

-- A run: each operation with what the ring does at that moment.
unfoldable pub run_ops : List ((ℕ → ℕ) × Op) → Core → Core
run_ops [] c = c
run_ops ((bulk, op) ∷ ops) c = run_ops ops (run_op bulk op c)

unfoldable pub sent_of : Op → List ℕ
sent_of (send mbuf) = mbuf ∷ []
sent_of _ = []

unfoldable pub sent_all : List ((ℕ → ℕ) × Op) → List ℕ
sent_all [] = []
sent_all ((_, op) ∷ ops) = sent_of op ++ sent_all ops
