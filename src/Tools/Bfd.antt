-- ===== src/Tools/Bfd.antt =====
-- tools/src/lib_srv/bfd.cc, tools/inc/lib_srv/bfd.hpp and tools/inc/lib/const/bfd.h: BFD sessions.
-- The mutex makes each handler one step. The clock is an argument, a connection that exists is a
-- flag, and a written datagram is an output; logs are left out, and so are the authentication
-- fields of a session, which nothing reads.
pub mod Machine
pub mod Sending
pub mod Receiving
mod Runs
use mixi_pgw.Prelude.{
  ℕ, ◌+◌, ◌*◌, ◌%◌, ◌^◌, min, max, Bool, true, false, not, ◌&&◌, ◌||◌, ◌==◌, ltb, if◌then◌else◌,
  Option, none, some, List, [], ◌∷◌, ◌++◌, lookup, insert, erase, htonl,
}

pub data State : Type 0 where
  admin_down down init up : State

abbrev pub is_admin_down : State → Bool
is_admin_down admin_down = true
is_admin_down _ = false

abbrev pub is_down : State → Bool
is_down down = true
is_down _ = false

abbrev pub is_init : State → Bool
is_init init = true
is_init _ = false

abbrev pub is_up : State → Bool
is_up up = true
is_up _ = false

-- BFDDIAG_NEIGHBORSAIDDOWN
abbrev pub diag_neighbor_said_down : ℕ
diag_neighbor_said_down = 3

pub record Session : Type 0 where
  pub session_state : State
  pub remote_session_state : State
  pub local_discr : ℕ
  pub remote_discr : ℕ
  pub local_diag : ℕ
  pub desired_min_tx_interval : ℕ
  pub required_min_rx_interval : ℕ
  pub remote_min_rx_interval : ℕ
  pub demand_mode : Bool
  pub remote_demand_mode : Bool
  pub detect_mult : ℕ
  pub must_cease_tx_echo : Bool
  pub must_terminate : Bool
  pub detect_time : ℕ
  pub pollbit_on : Bool
  pub peer_addr : ℕ
  pub peer_port : ℕ
  pub received_min_rx_interval : ℕ
  pub connected : Bool

-- BfdSession(ipaddr, port)
unfoldable pub new_session : ℕ → ℕ → Session
new_session ipaddr port = record {
  session_state = down;
  remote_session_state = down;
  local_discr = 0;
  remote_discr = 0;
  local_diag = 0;
  desired_min_tx_interval = 1000000;
  required_min_rx_interval = 1000000;
  remote_min_rx_interval = 0;
  demand_mode = false;
  remote_demand_mode = false;
  detect_mult = 3;
  must_cease_tx_echo = false;
  must_terminate = false;
  detect_time = 0;
  pollbit_on = false;
  peer_addr = ipaddr;
  peer_port = port;
  received_min_rx_interval = 0;
  connected = false;
}

-- bfd_t, a control packet as it is on the wire
pub record Packet : Type 0 where
  pub vers : ℕ
  pub diag : ℕ
  pub state : State
  pub poll : Bool
  pub final : Bool
  pub cpi : Bool
  pub auth : Bool
  pub demand : Bool
  pub multipoint : Bool
  pub detect_mult : ℕ
  pub length : ℕ
  pub my_discr : ℕ
  pub your_discr : ℕ
  pub min_tx_int : ℕ
  pub min_rx_int : ℕ
  pub min_echo_rx_int : ℕ

abbrev pub min_packet_length : ℕ
min_packet_length = 24

-- BfdSessionManager with the counter of discriminators
pub record Manager : Type 0 where
  pub sessions : List (ℕ × Session)
  pub local_discriminator_incr : ℕ

-- MAKE_ULL(ipaddr, port)
pub session_key : ℕ → ℕ → ℕ
session_key ipaddr port = ipaddr % 2 ^ 32 * 2 ^ 32 + port % 2 ^ 32

pub find_unsafe : Manager → ℕ → ℕ → Option Session
unfolding session_key
find_unsafe m ipaddr port = lookup (session_key ipaddr port) m.sessions

-- what a caller writes through the pointer that find_unsafe returns
pub put_session : Manager → ℕ → ℕ → Session → Manager
unfolding session_key
put_session m ipaddr port s = record m { sessions = insert (session_key ipaddr port) s m.sessions }

pub subscribe : Manager → ℕ → ℕ → Manager
unfolding put_session new_session
subscribe m ipaddr port = put_session m ipaddr port (new_session ipaddr port)

pub unsubscribe : Manager → ℕ → ℕ → Manager
unfolding session_key
unsubscribe m ipaddr port = record m { sessions = erase (session_key ipaddr port) m.sessions }

-- the packet that transmit_unsafe fills in
pub fill_packet : Session → Packet
fill_packet s = record {
  vers = 1;
  diag = s.local_diag;
  state = if not (s.local_discr == 0) then s.session_state else down;
  poll = false;
  final = s.pollbit_on;
  cpi = true;
  auth = false;
  demand = false;
  multipoint = false;
  detect_mult = s.detect_mult;
  length = min_packet_length;
  my_discr = s.local_discr;
  your_discr = s.remote_discr;
  min_tx_int = htonl s.desired_min_tx_interval;
  min_rx_int = htonl s.required_min_rx_interval;
  min_echo_rx_int = htonl s.received_min_rx_interval;
}

-- transmit_unsafe and sendudp: nothing is written without a connection
pub transmit : Session → List Packet
unfolding fill_packet
transmit s =
    let bfd = fill_packet s in
    if (bfd.your_discr == 0 || bfd.my_discr == 0) && not (is_down bfd.state)
    then []
    else if s.connected
    then bfd ∷ []
    else []

-- one round of on_bfd_thread at the time `curms`
pub on_bfd_thread : List (ℕ × Session) → ℕ → List Packet
unfolding transmit
on_bfd_thread [] curms = []
on_bfd_thread ((_, s) ∷ rest) curms =
    (if ltb curms s.detect_time
        && not s.must_cease_tx_echo
        && not s.must_terminate
        && not (s.remote_discr == 0)
        && not (s.remote_min_rx_interval == 0)
      then transmit s
      else [])
    ++ on_bfd_thread rest curms

-- the states of the session, from its own and the remote state
pub change_state : Session → Session
change_state s =
    if is_admin_down s.remote_session_state
    then (if not (is_down s.session_state)
        then record s { local_diag = diag_neighbor_said_down; session_state = down }
        else s)
    else if is_down s.session_state
    then (if is_down s.remote_session_state
        then record s { session_state = init }
        else if is_init s.remote_session_state
        then record s { session_state = up }
        else s)
    else if is_init s.session_state
    then (if is_init s.remote_session_state || is_up s.remote_session_state
        then record s { session_state = up }
        else record s { session_state = down; remote_discr = 0 })
    else if is_down s.remote_session_state
    then record s { local_diag = diag_neighbor_said_down; session_state = down }
    else s

-- psess->conn_ == NULL: connect, and take the next discriminator
pub connect : ℕ → Session → ℕ × Session
connect incr s =
    if s.connected
    then (incr, s)
    else let next = (incr + 1) % 2 ^ 32 in
      (
        (if ltb 0x7fffffff next then 0 else next),
        record s { connected = true; local_discr = htonl next },
      )

-- the fields that are taken over from the packet
pub take_over : ℕ → Packet → Session → Session
take_over curms bfd s = record s {
  remote_session_state = bfd.state;
  remote_demand_mode = bfd.demand;
  remote_discr = bfd.my_discr;
  remote_min_rx_interval = bfd.min_rx_int;
  received_min_rx_interval = min s.received_min_rx_interval bfd.min_rx_int;
  must_terminate = if bfd.final then true else s.must_terminate;
  detect_time =
      (curms + bfd.detect_mult * max bfd.min_rx_int s.desired_min_tx_interval % 2 ^ 32) % 2 ^ 64;
}

-- the rest of the locked block: the state, and the answer to a poll
pub answer : Packet → Session → Session × List Packet
unfolding change_state transmit
answer bfd s =
    if is_admin_down s.session_state
    then (s, [])
    else let s' = change_state s in
      if bfd.poll
      then (record s' { pollbit_on = true }, transmit (record s' { pollbit_on = true }))
      else (s', [])

pub handle : ℕ → Manager → ℕ → ℕ → Packet → Session → Manager × List Packet
unfolding connect take_over answer put_session
handle curms m ipaddr port bfd s =
    let (incr, connected) = connect m.local_discriminator_incr s in
    let (s', sent) = answer bfd (take_over curms bfd connected) in
    (put_session (record m { local_discriminator_incr = incr }) ipaddr port s', sent)

-- the checks at the head of on_bfd_recieve
pub is_dropped : ℕ → Packet → Bool
is_dropped len bfd =
    not (len == min_packet_length)
    || bfd.multipoint
    || not (bfd.vers == 1)
    || bfd.auth
    || bfd.my_discr == 0
    || bfd.detect_mult == 0
    || (bfd.your_discr == 0 && not (is_down bfd.state || is_admin_down bfd.state))

-- a packet that names a discriminator for a session that is not there
pub adopt : Manager → ℕ → ℕ → Packet → Manager × List Packet
unfolding put_session new_session transmit
adopt m ipaddr port bfd =
    let s = record (new_session ipaddr port) {
      remote_discr = bfd.my_discr;
      local_discr = bfd.your_discr;
      session_state = down;
    } in
    (put_session m ipaddr port s, transmit s)

pub on_bfd_recieve : ℕ → Manager → ℕ → ℕ → Packet → ℕ → Manager × List Packet
on_bfd_recieve curms m ipaddr port bfd len =
    if is_dropped len bfd then (m, []) else elim (find_unsafe m ipaddr port) [
      | some s ↦ handle curms m ipaddr port bfd s
      | none ↦
          if not (bfd.your_discr == 0)
          then adopt m ipaddr port bfd
          else if is_down bfd.state
          then handle curms m ipaddr port bfd (new_session ipaddr port)
          else (m, [])
    ]
