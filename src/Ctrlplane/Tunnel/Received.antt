-- ===== src/Ctrlplane/Tunnel/Received.antt =====
-- ctrlplane/src/pgw/event: packets from the socket to the handlers of a node.
use mixi_pgw.Prelude.{
  ℕ, zero, suc, ◌+◌, ◌<◌, ◌≤◌, ◌≡◌, refl, sym, ◌∙◌, ap, arith, Bool, true, false, some, List, [],
  ◌∷◌, ◌++◌, length, take, All, leb, ◌==◌,
}
use mathlib.Core.List.{append-nil, append_assoc}
use mixi_pgw.Ctrlplane.Gtpc.{GenericPacket}
use mixi_pgw.Ctrlplane.Node.{Queue, enq, deq_burst, ring_size_max}
use mixi_pgw.Ctrlplane.Tunnel.{TunnelNode}
use mixi_pgw.Ctrlplane.Tunnel.Dispatch.{rx_node, event_rx, each_packet, node_burst}

-- Packets received one after the other.
abbrev pub receive_all :
    ℕ → List GenericPacket → (ℕ → Queue GenericPacket) → ℕ → Queue GenericPacket
receive_all port [] ingress = ingress
receive_all port (pkt ∷ rest) ingress = receive_all port rest (event_rx true port pkt ingress).1

-- The queue of the node after one packet that is its own.
module _ (port idx : ℕ) (pkt : GenericPacket) (ingress : ℕ → Queue GenericPacket)
    (here : rx_node port pkt.payload ≡ some idx)
    (room : (ingress idx).queue_count + 1 < ring_size_max) where
  event_rx-enq : (event_rx true port pkt ingress).1 idx ≡ enq (ingress idx) pkt
  unfolding event_rx
  event_rx-enq = let same : (idx == idx) ≡ true = ground arith in rw (here, event_rx) (rw same refl)

  event_rx-queue :
      ((event_rx true port pkt ingress).1 idx).queue ≡ (ingress idx).queue ++ (pkt ∷ [])
  unfolding enq
  event_rx-queue =
      let free : leb ring_size_max (ingress idx).queue_count ≡ false = ground (arith, room) in
      ap (λ q. q.queue) event_rx-enq ∙ rw free refl

  event_rx-count :
      ((event_rx true port pkt ingress).1 idx).queue_count ≡ (ingress idx).queue_count + 1
  unfolding enq
  event_rx-count =
      let free : leb ring_size_max (ingress idx).queue_count ≡ false = ground (arith, room) in
      ap (λ q. q.queue_count) event_rx-enq ∙ rw free (omega (arith, room))

-- The packets of a node stand behind what its queue held.
receive_all-queue :
    (port idx : ℕ) (pkts : List GenericPacket) (ingress : ℕ → Queue GenericPacket)
    → All (λ pkt. rx_node port pkt.payload ≡ some idx) pkts
    → (ingress idx).queue_count + length pkts < ring_size_max
    → ((receive_all port pkts ingress) idx).queue ≡ (ingress idx).queue ++ pkts
receive_all-queue port idx [] ingress all room = sym (append-nil (ingress idx).queue)
receive_all-queue port idx (pkt ∷ rest) ingress (here, all) room =
    let room1 : (ingress idx).queue_count + 1 < ring_size_max = omega (arith, room) in
    let count = event_rx-count port idx pkt ingress here room1 in
    receive_all-queue port idx rest (event_rx true port pkt ingress).1 all
      (omega (arith, count, room))
    ∙ ap (λ q. q ++ rest) (event_rx-queue port idx pkt ingress here room1)
    ∙ append_assoc (ingress idx).queue (pkt ∷ []) rest

-- All of a short list.
take_all : (n : ℕ) (pkts : List GenericPacket) → length pkts ≤ n → take n pkts ≡ pkts
take_all zero [] le = refl
take_all (suc n) [] le = refl
take_all zero (pkt ∷ rest) le = absurd (omega (arith, le))
take_all (suc n) (pkt ∷ rest) le = ap (◌∷◌ pkt) (take_all n rest (omega (arith, le)))

-- The handler is called for each packet of the list, in its order, on what the last call left.
pub data IsHandled (handler : GenericPacket → TunnelNode → Bool × TunnelNode)
    : List GenericPacket → TunnelNode → TunnelNode → Type 0 where
  over : {n : TunnelNode} → IsHandled handler [] n n
  next :
      {pkt : GenericPacket} {rest : List GenericPacket} {n last : TunnelNode}
      → IsHandled handler rest (handler pkt n).1 last
      → IsHandled handler (pkt ∷ rest) n last

each_packet-IsHandled :
    (handler : GenericPacket → TunnelNode → Bool × TunnelNode) (pkts : List GenericPacket)
    (n : TunnelNode)
    → IsHandled handler pkts n (each_packet handler pkts n)
unfolding each_packet
each_packet-IsHandled handler [] n = over
each_packet-IsHandled handler (pkt ∷ rest) n =
    next (each_packet-IsHandled handler rest (handler pkt n).1)

-- From 1 to 32 packets that come in on a port for one node, whose queue is empty, are handled by
-- its next burst: each is given to the handler once, in the order in which they came.
pub node_burst-receive_all :
    (handler : GenericPacket → TunnelNode → Bool × TunnelNode) (port idx : ℕ) (pkt : GenericPacket)
    (rest : List GenericPacket) (ingress : ℕ → Queue GenericPacket) (n : TunnelNode)
    → All (λ p. rx_node port p.payload ≡ some idx) (pkt ∷ rest)
    → (ingress idx).queue ≡ []
    → (ingress idx).queue_count ≡ 0
    → length (pkt ∷ rest) ≤ 32
    → ((node_burst handler (receive_all port (pkt ∷ rest) ingress idx) n).0 ≡ true)
      × IsHandled handler
          (pkt ∷ rest)
          n
          (node_burst handler (receive_all port (pkt ∷ rest) ingress idx) n).2
unfolding node_burst deq_burst
node_burst-receive_all handler port idx pkt rest ingress n all empty count le =
    let queued =
      receive_all-queue port idx (pkt ∷ rest) ingress all (omega (arith, count, le))
      ∙ ap (λ q. q ++ (pkt ∷ rest)) empty in
    let taken = ap (take 32) queued ∙ take_all 32 (pkt ∷ rest) le in
    (
      rw (node_burst, taken) refl,
      rw (node_burst, taken) (each_packet-IsHandled handler (pkt ∷ rest) n),
    )
