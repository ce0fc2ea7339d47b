-- ===== src/Ctrlplane/Node.antt =====
-- ctrlplane/src/cmn/enq.c, deq_burst.c and alloc_packet.c: the queues between the nodes of the PGW
-- and the packets on them. Each call holds the mutex of its queue and is one step; allocations
-- succeed. A size_t wraps at 2 ^ 64.
pub mod Queues
use mixi_pgw.Prelude.{
  ℕ, zero, suc, ◌+◌, ◌-◌, ◌*◌, ◌%◌, ◌^◌, leb, if◌then◌else◌, List, [], ◌∷◌, ◌++◌, length, take,
  drop, max,
}
use mixi_pgw.Ctrlplane.Gtpc.{Octets, GenericPacket, memcpy}

-- RING_SIZE_MAX
abbrev pub ring_size_max : ℕ
ring_size_max = 20 * 1024

-- One direction of a node_t: the tail queue, its counter and its drops.
pub record Queue {ℓ} (A : Type ℓ) : Type ℓ where
  pub queue : List A
  pub queue_count : ℕ
  pub queue_drops : ℕ

module _ {ℓ} {A : Type ℓ} where
  -- OK is returned on both branches, and a packet that is dropped is not freed.
  unfoldable pub enq : Queue A → A → Queue A
  enq q packet =
      if leb ring_size_max q.queue_count
      then record q { queue_drops = (q.queue_drops + 1) % 2 ^ 64 }
      else record q { queue_count = (q.queue_count + 1) % 2 ^ 64; queue = q.queue ++ (packet ∷ []) }

  -- At most `length` packets from the head, but one at the least: the bound is tested after each.
  unfoldable pub deq_burst : Queue A → ℕ → Queue A × List A
  deq_burst q bound =
      let packets = take (max 1 bound) q.queue in
      (
        record q {
          queue = drop (max 1 bound) q.queue;
          queue_count = (q.queue_count + 2 ^ 64 - length packets) % 2 ^ 64;
        },
        packets,
      )

unfoldable pub swap_address : GenericPacket → GenericPacket
swap_address p = record p { saddr = p.caddr; caddr = p.saddr }

unfoldable pub pgw_alloc_packet : ℕ → GenericPacket
pgw_alloc_packet len = record { payload = λ _. 0; datalen = len; saddr = []; caddr = [] }

unfoldable pub duplicate_packet : GenericPacket → GenericPacket
duplicate_packet src =
    let dst = pgw_alloc_packet src.datalen in
    record dst {
      datalen = src.datalen;
      saddr = src.saddr;
      caddr = src.caddr;
      payload = memcpy dst.payload 0 src.payload src.datalen;
    }
