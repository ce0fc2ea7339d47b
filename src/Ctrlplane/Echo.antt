-- ===== src/Ctrlplane/Echo.antt =====
-- ctrlplane/src/pgw/event/event_gtpc_echo.c: the node that answers GTP-C echo requests, keeps the
-- SGWs it heard of and notices their restarts.
-- pgw_duplicate_packet and pgw_enq return OK always, so pgw_panic is never called. What is sent to
-- the database is a list of queries. A sockaddr_in is its octets: two of family, two of port, four of
-- address. Freed packets are left out.
pub mod Restarts
mod Runs
use mixi_pgw.Prelude.{
  ℕ, zero, suc, ◌+◌, ◌-◌, ◌*◌, ◌/◌, ◌%◌, ◌^◌, Bool, true, false, not, ◌&&◌, ◌||◌, ◌==◌,
  if◌then◌else◌, Option, none, some, List, [], ◌∷◌, ◌++◌, get_or, update,
}
use mixi_pgw.Ctrlplane.Gtpc.{Octets, GenericPacket, u16_at}
use mixi_pgw.Ctrlplane.Peers.{SgwPeer, SgwPeers, get_sgw_peer, set_sgw_peer}
use mixi_pgw.Ctrlplane.Node.{Queue, enq, deq_burst, swap_address, duplicate_packet}

pub data Query : Type 0 where
  -- CHANGE_STATUS_SQL: the addresses of the destination and the source
  keepalive_ok : List ℕ → List ℕ → Query
  -- ECHO_RESTART_UPD_SQL: an address and its restart counter
  echo_restart : ℕ → ℕ → Query

pub record EchoNode : Type 0 where
  pub peers_table : SgwPeers
  pub ingress : Queue GenericPacket
  pub egress : Queue GenericPacket
  pub queries : List Query

-- (U32)-1
abbrev pub no_counter : ℕ
no_counter = 2 ^ 32 - 1

-- saddr.sin_addr.s_addr, on a little-endian host
unfoldable pub s_addr : List ℕ → ℕ
s_addr sockaddr =
    get_or sockaddr 4 0
    + get_or sockaddr 5 0 * 0x100
    + get_or sockaddr 6 0 * 0x10000
    + get_or sockaddr 7 0 * 0x1000000

-- Where the recovery item of an echo request stands, if that is all its length field has room for.
unfoldable pub recovery_at : Octets → Option ℕ
recovery_at gtp =
    let at = if gtp 0 / 8 % 2 == 1 then 12 else 8 in
    if u16_at gtp 2 == at - 4 + 5 && gtp at == 3 then some at else none

-- The callback: the state is ot_counter once a peer was found.
unfoldable pub find_extend : ℕ → Option ℕ → SgwPeer → Option ℕ × SgwPeer
find_extend in_expire c p = (some p.counter, record p { expire = in_expire })

unfoldable pub register : ℕ → ℕ → ℕ → SgwPeers → SgwPeers
register ip counter expire t = elim (set_sgw_peer ip counter expire t) [
  | none ↦ t
  | some after ↦ after
]

-- _observer_sgw_peers after the search, with its table, ot_counter and whether it found a peer.
unfoldable pub note_peer : ℕ → ℕ → ℕ → SgwPeers × Option ℕ × Bool → EchoNode → EchoNode
note_peer ipv4 counter in_expire found n =
    let missing = record n { peers_table = register ipv4 counter in_expire found.0 } in
    elim found.1 [
      | none ↦ missing
      | some ot_counter ↦
          if not found.2
          then missing
          else if ot_counter == counter
          then record n { peers_table = found.0 }
          else record n {
            peers_table = found.0;
            queries = n.queries ++ (echo_restart ipv4 counter ∷ []);
          }
    ]

-- _observer_sgw_peers
unfoldable pub observer_sgw_peers : ℕ → ℕ → ℕ → EchoNode → EchoNode
observer_sgw_peers now ipv4 counter n =
    if ipv4 == 0 || counter == no_counter
    then n
    else note_peer ipv4 counter (now % 2 ^ 32)
        (get_sgw_peer (find_extend (now % 2 ^ 32)) ipv4 n.peers_table none) n

-- An echo request: the request goes back to its sender, and after it the response.
unfoldable pub answer_request : GenericPacket → EchoNode → EchoNode
answer_request pkt n =
    let request = swap_address (duplicate_packet pkt) in
    let response = swap_address (record pkt { payload = update pkt.payload 1 2 }) in
    record n { egress = enq (enq n.egress request) response }

-- One packet, with restart_counter, which the loop keeps from the packet before.
unfoldable pub echo_packet : ℕ → GenericPacket → ℕ × EchoNode → ℕ × EchoNode
echo_packet now pkt (restart_counter, n) =
    if pkt.payload 1 == 1
    then elim (recovery_at pkt.payload) [
      | none ↦ (
        restart_counter,
        answer_request pkt (
            if restart_counter == no_counter
            then n
            else observer_sgw_peers now (s_addr pkt.saddr) restart_counter n),
      )
      | some at ↦
          let counter = pkt.payload (at + 4) in
          (
            counter,
            answer_request (record pkt { payload = update pkt.payload (at + 4) 0 })
                (if counter == no_counter
                  then n
                  else observer_sgw_peers now (s_addr pkt.saddr) counter n),
          )
    ]
    else if pkt.payload 1 == 2
    then (
      restart_counter,
      record n { queries = n.queries ++ (keepalive_ok pkt.caddr pkt.saddr ∷ []) },
    )
    else (restart_counter, n)

unfoldable pub echo_packets : ℕ → List GenericPacket → ℕ × EchoNode → ℕ × EchoNode
echo_packets now [] s = s
echo_packets now (pkt ∷ rest) s = echo_packets now rest (echo_packet now pkt s)

-- ERR where nothing is queued.
unfoldable pub event_gtpc_echo_req : ℕ → EchoNode → Bool × EchoNode
event_gtpc_echo_req now n =
    let burst = deq_burst n.ingress 32 in
    let started = record n { ingress = burst.0 } in
    elim burst.1 [
      | [] ↦ (false, started)
      | _ ∷ _ ↦ (true, (echo_packets now burst.1 (no_counter, started)).1)
    ]
