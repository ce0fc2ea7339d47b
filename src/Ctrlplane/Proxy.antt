-- ===== src/Ctrlplane/Proxy.antt =====
-- ctrlplane/src/proxy/proxy_event.cc: the timer and the two GTP-C sockets of the proxy.
-- What a handler learns from the kernel, the parser and the database is in its Datagram and its
-- World: recvfrom, getsockname, pgw_send_sock, gtpc_validate_header, _ParseImsi and the query of
-- FindGroupByImsi. A signed length below 0 is the U64 that it is converted to. `gid` is what the
-- variable holds before it is written. The handlers run one after the other in libevent's loop.
pub mod Delivery
pub mod Correlation
use mixi_pgw.Prelude.{
  ℕ, suc, ◌+◌, ◌*◌, ◌/◌, ◌%◌, ◌^◌, Bool, true, false, not, ◌&&◌, ◌||◌, ◌==◌, ltb, leb,
  if◌then◌else◌, Option, none, some, List, [], ◌∷◌,
}
use mixi_pgw.Ctrlplane.Routes.{
  Routes, RouteInt, RouteSession, Address, stat_add, stat_reject, stat_expire, set_session,
  find_session_by_seqno_teid, set_ext_route, find_internl_route_by_group_from_cache, cache,
}

-- A datagram as both of its reads see it.
pub record Datagram : Type 0 where
  pub peer : Address
  pub peeked : ℕ
  pub length : ℕ
  pub version : ℕ
  pub v1_sequence : Bool
  pub v1_npdu : Bool
  pub v1_extension : Bool
  pub type : ℕ
  pub teid : ℕ
  pub seqno : ℕ
  pub recieved : ℕ
  -- gtpc_validate_header
  pub is_valid : Bool
  -- _ParseImsi: the IMSI, and the tunnel identifier of the sender
  pub parsed : Option (ℕ × ℕ)

pub record World : Type 0 where
  pub now : ℕ
  pub gid : ℕ
  pub ether_max_len : ℕ
  pub sockname : Option ℕ
  pub find_group_by_imsi : ℕ → Option ℕ
  pub is_sent : Bool

-- the sockets that ExtSock and IntSock return
pub data Socket : Type 0 where
  ext_sock int_sock : Socket

-- What pgw_send_sock writes: the datagram with its type, or the echo response.
pub record Sent : Type 0 where
  pub socket : Socket
  pub to : Address
  pub type : ℕ
  pub datalen : ℕ

abbrev pub echo_req : ℕ
echo_req = 1

abbrev pub echo_res : ℕ
echo_res = 2

abbrev pub create_session_req : ℕ
create_session_req = 32

abbrev pub create_session_res : ℕ
create_session_res = 33

-- sizeof(gtpc_header_t) - 4
abbrev pub header_length : ℕ
header_length = 8

-- the tests on the header that is peeked at
unfoldable pub is_headed : World → Datagram → Bool
is_headed w d =
    d.peeked == header_length && not (ltb d.length 4 || ltb w.ether_max_len d.length) && d.is_valid

-- pckt.datalen
unfoldable pub datalen : Datagram → ℕ
datalen d =
    if d.version == 1 && (d.v1_sequence || d.v1_npdu || d.v1_extension)
    then 4 + d.length + 4
    else 4 + d.length

unfoldable pub is_whole : Datagram → Bool
is_whole d = not (ltb d.recieved 4 || not (d.recieved == datalen d))

-- GTPC_V1_MSG_CREATE_PDP_CONTEXT_REQ up to GTPC_V1_MSG_DELETE_PDP_CONTEXT_RES
unfoldable pub is_pdp : ℕ → Bool
is_pdp type = not (ltb type 16 || ltb 21 type)

unfoldable pub is_request : Datagram → Bool
is_request d =
    if d.version == 2
    then d.type == create_session_req || d.type == echo_req
    else d.version == 1 && is_pdp d.type

unfoldable pub is_response : Datagram → Bool
is_response d =
    if d.version == 2
    then d.type == create_session_res || d.type == echo_req
    else d.version == 1 && is_pdp d.type

-- the label `error` of OnRecieveExt
unfoldable pub reject_ext : World → ℕ → ℕ → Datagram → Routes → Routes × Option Sent
reject_ext w gid rlen d r = (stat_reject w.now d.peer.sin_addr gid rlen 0 r, none)

-- pgw_send_sock and the statistics after it
unfoldable pub send_ext : World → ℕ → Sent → Datagram → Routes → Routes × Option Sent
send_ext w gid sent d r =
    if w.is_sent
    then (stat_add w.now d.peer.sin_addr gid (datalen d) 0 0 r, some sent)
    else reject_ext w gid d.recieved d r

-- from the parsed request on: the group, its first route, and the session before it is sent
unfoldable pub forward_request : World → Datagram → Routes → Routes × Option Sent
forward_request w d r = elim d.parsed [
  | none ↦ reject_ext w w.gid d.recieved d r
  | some (imsi, c_teid) ↦ elim (w.find_group_by_imsi imsi) [
    | none ↦ reject_ext w 0xffff d.recieved d r
    | some gid ↦ elim (find_internl_route_by_group_from_cache gid r) [
      | none ↦ reject_ext w gid d.recieved d r
      | some [] ↦ reject_ext w gid d.recieved d r
      | some (route ∷ _) ↦
          send_ext w gid
            (record {
              socket = int_sock;
              to = record { sin_addr = route.host; sin_port = route.port % 2 ^ 16 };
              type = d.type;
              datalen = datalen d;
            })
            d (set_session w.now imsi (d.seqno % 2 ^ 24) c_teid d.peer r)
    ]
  ]
]

-- the answer to GTPC_ECHO_REQ: the request with another type (and, not modelled, with its restart
-- counter at 0)
unfoldable pub echo : Socket → Datagram → Sent
echo socket d = record { socket = socket; to = d.peer; type = echo_res; datalen = datalen d }

-- OnRecieveExt from the checks of the message's type on
unfoldable pub accept_ext : World → Datagram → Routes → Routes × Option Sent
accept_ext w d r =
    if not (is_request d)
    then reject_ext w w.gid d.recieved d r
    else if d.type == echo_req
    then send_ext w w.gid (echo ext_sock d) d r
    else forward_request w d r

unfoldable pub on_recieve_ext : World → Datagram → Routes → Routes × Option Sent
on_recieve_ext w d r =
    if not (is_headed w d)
    then reject_ext w w.gid d.peeked d r
    else if not (is_whole d)
    then reject_ext w 0 d.recieved d r
    else elim w.sockname [
      | none ↦ reject_ext w 0 d.recieved d r
      | some _ ↦ accept_ext w d (set_ext_route d.peer r)
    ]

-- the label `error` of OnRecieveInt; `own` is sa, which getsockname has written or not
unfoldable pub reject_int : World → ℕ → ℕ → Routes → Routes × Option Sent
reject_int w own rlen r = (stat_reject w.now own w.gid 0 rlen r, none)

unfoldable pub send_int : World → ℕ → Sent → Datagram → Routes → Routes × Option Sent
send_int w own sent d r =
    if w.is_sent
    then (stat_add w.now own w.gid 0 (datalen d) 0 r, some sent)
    else reject_int w own d.recieved r

unfoldable pub forward_response : World → ℕ → Datagram → Routes → Routes × Option Sent
forward_response w own d r = elim (find_session_by_seqno_teid d.seqno d.teid r) [
  | none ↦ reject_int w own d.recieved r
  | some sess ↦
      send_int w own
        (record { socket = ext_sock; to = sess.host; type = d.type; datalen = datalen d }) d r
]

-- OnRecieveInt from the checks of the message's type on
unfoldable pub accept_int : World → ℕ → Datagram → Routes → Routes × Option Sent
accept_int w own d r =
    if not (is_response d)
    then reject_int w own d.recieved r
    else if d.version == 2 && d.type == echo_req
    then send_int w own (echo int_sock d) d r
    else forward_response w own d r

-- `unset` is what sa holds where getsockname has not written it
unfoldable pub on_recieve_int : World → ℕ → Datagram → Routes → Routes × Option Sent
on_recieve_int w unset d r =
    if not (is_headed w d)
    then reject_int w unset d.peeked r
    else if not (is_whole d)
    then reject_int w unset d.recieved r
    else elim w.sockname [
      | none ↦ reject_int w unset d.recieved r
      | some own ↦ accept_int w own d r
    ]

-- The two static counters of OnTimeOut and the flag Proxy::reload_.
pub record Timer : Type 0 where
  pub counter : ℕ
  pub counter_session : ℕ
  pub reload : Bool

-- the first half of OnTimeOut: `rows` is what the database holds when it is asked
unfoldable pub refresh : List (ℕ × ℕ) → Timer → Routes → Timer × Routes
refresh rows t r =
    if ltb 6000 t.counter
    then (record t { counter = 0; reload = false }, if t.reload then cache rows r else r)
    else (record t { counter = (t.counter + 1) % 2 ^ 64 }, r)

unfoldable pub on_time_out : ℕ → List (ℕ × ℕ) → Timer → Routes → Timer × Routes
on_time_out now rows t r =
    let (t', r') = refresh rows t r in
    if ltb 360000 t'.counter_session
    then (record t' { counter_session = 0 }, stat_expire now (0 / 100) r')
    else (record t' { counter_session = (t'.counter_session + 1) % 2 ^ 64 }, r')

-- What happens in the loop of libevent.
pub data Event : Type 0 where
  from_ext : World → Datagram → Event
  from_int : World → ℕ → Datagram → Event
  timed_out : ℕ → List (ℕ × ℕ) → Timer → Event

unfoldable pub dispatch : Event → Routes → Routes
dispatch (from_ext w d) r = (on_recieve_ext w d r).0
dispatch (from_int w unset d) r = (on_recieve_int w unset d r).0
dispatch (timed_out now rows t) r = (on_time_out now rows t r).1

unfoldable pub dispatch_all : List Event → Routes → Routes
dispatch_all [] r = r
dispatch_all (e ∷ es) r = dispatch_all es (dispatch e r)
