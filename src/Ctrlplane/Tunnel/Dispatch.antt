-- ===== src/Ctrlplane/Tunnel/Dispatch.antt =====
-- ctrlplane/src/pgw/event/event_rx.c, which puts a packet from a socket on the queue of a node, and
-- the loops of the nodes: event_gtpc_other.c and the first functions of event_gtpc_create_session.c
-- and event_gtpc_modify_bearer.c. PGW_PANIC does not occur, since pgw_enq always returns OK.
use mixi_pgw.Prelude.{
  ℕ, ◌+◌, ◌-◌, ◌%◌, Bool, true, false, not, ◌&&◌, ◌||◌, ◌==◌, if◌then◌else◌, Option, none, some,
  List, [], ◌∷◌, update,
}
use mixi_pgw.Ctrlplane.Gtpc.{Octets, GenericPacket, version}
use mixi_pgw.Ctrlplane.Node.{Queue, enq, deq_burst}
use mixi_pgw.Ctrlplane.Tunnel.{World, TunnelNode, le32_at}
use mixi_pgw.Ctrlplane.Tunnel.Create.{on_create_session}
use mixi_pgw.Ctrlplane.Tunnel.Modify.{on_modify_bearer}
use mixi_pgw.Ctrlplane.Tunnel.Remove.{
  event_gtpc_delete_session_req, event_gtpc_delete_bearer_req, event_gtpc_suspend_notification_req,
  event_gtpc_resume_notification_req,
}

-- The numbers of the nodes (PGW_NODE_GTPU_ECHO_REQ and on), with two for Create Session.
abbrev pub node_gtpu_echo_req : ℕ
node_gtpu_echo_req = 0

abbrev pub node_gtpc_echo_req : ℕ
node_gtpc_echo_req = 1

abbrev pub node_create_session_req : ℕ
node_create_session_req = 3

abbrev pub node_create_session_req_max : ℕ
node_create_session_req_max = 5

abbrev pub node_modify_bearer_req : ℕ
node_modify_bearer_req = node_create_session_req_max

abbrev pub node_gtpc_other_req : ℕ
node_gtpc_other_req = 6

abbrev pub node_gtpu_other_req : ℕ
node_gtpu_other_req = 7

-- The node of a GTP-U packet.
unfoldable pub gtpu_node : Octets → Option ℕ
gtpu_node gtp =
    if version gtp == 1
    then some (if gtp 1 == 1 || gtp 1 == 2 then node_gtpu_echo_req else node_gtpu_other_req)
    else none

-- The node of a GTP-C packet of version 2. Create Session Requests are spread by the sequence number.
unfoldable pub gtpc_node : Octets → Option ℕ
gtpc_node gtp =
    if gtp 1 == 1 || gtp 1 == 2
    then some node_gtpc_echo_req
    else if gtp 1 == 32
    then some (
        node_create_session_req
        + le32_at gtp 8 % (node_create_session_req_max - node_create_session_req))
    else if gtp 1 == 34
    then some node_modify_bearer_req
    else if gtp 1 == 36 || gtp 1 == 99 || gtp 1 == 162 || gtp 1 == 164
    then some node_gtpc_other_req
    else none

-- Of version 1, a packet with one of the three flags of GTPC_V1_NSE_MASK.
unfoldable pub gtpc_v1_node : Octets → Option ℕ
gtpc_v1_node gtp = if not (gtp 0 % 8 == 0) then some node_gtpc_other_req else none

-- GTPU1_PORT and GTPC_PORT
unfoldable pub rx_node : ℕ → Octets → Option ℕ
rx_node port gtp =
    if port == 2152
    then gtpu_node gtp
    else if port == 2123 && version gtp == 2
    then gtpc_node gtp
    else if port == 2123 && version gtp == 1
    then gtpc_v1_node gtp
    else none

-- The queues of the nodes by their numbers; ERR frees the packet.
unfoldable pub event_rx :
    Bool → ℕ → GenericPacket → (ℕ → Queue GenericPacket) → Bool × (ℕ → Queue GenericPacket)
event_rx is_on port pkt ingress = elim (if is_on then rx_node port pkt.payload else none) [
  | none ↦ (false, ingress)
  | some idx ↦ (true, update ingress idx (enq (ingress idx) pkt))
]

-- The loop of a node over a burst, whose handler may fail for a packet.
unfoldable pub each_packet :
    (GenericPacket → TunnelNode → Bool × TunnelNode) → List GenericPacket → TunnelNode → TunnelNode
each_packet handler [] n = n
each_packet handler (pkt ∷ rest) n = each_packet handler rest (handler pkt n).1

-- ERR where nothing is queued.
unfoldable pub node_burst :
    (GenericPacket → TunnelNode → Bool × TunnelNode)
    → Queue GenericPacket
    → TunnelNode
    → Bool × Queue GenericPacket × TunnelNode
node_burst handler ingress n =
    let (left, pkts) = deq_burst ingress 32 in
    elim pkts [
      | [] ↦ (false, left, n)
      | first ∷ rest ↦ (true, left, each_packet handler (first ∷ rest) n)
    ]

abbrev pub event_gtpc_create_session_req :
    World → Queue GenericPacket → TunnelNode → Bool × Queue GenericPacket × TunnelNode
event_gtpc_create_session_req w = node_burst (on_create_session w)

abbrev pub event_gtpc_modify_bearer_req :
    World → Queue GenericPacket → TunnelNode → Bool × Queue GenericPacket × TunnelNode
event_gtpc_modify_bearer_req w = node_burst (on_modify_bearer w)

-- event_gtpc_v1_any_req, which is not modelled, is given.
module _ (event_gtpc_v1_any_req : GenericPacket → TunnelNode → Bool × TunnelNode) (w : World) where
  unfoldable pub other_packet : GenericPacket → TunnelNode → Bool × TunnelNode
  other_packet pkt n =
      if version pkt.payload == 2
      then (if pkt.payload 1 == 36
          then event_gtpc_delete_session_req w pkt n
          else if pkt.payload 1 == 99
          then event_gtpc_delete_bearer_req w pkt n
          else if pkt.payload 1 == 164
          then event_gtpc_resume_notification_req w pkt n
          else if pkt.payload 1 == 162
          then event_gtpc_suspend_notification_req w pkt n
          else (true, n))
      else event_gtpc_v1_any_req pkt n

  abbrev pub event_gtpc_other_req :
      Queue GenericPacket → TunnelNode → Bool × Queue GenericPacket × TunnelNode
  event_gtpc_other_req = node_burst other_packet
