-- ===== src/Tools/Bfd/Runs.antt =====
-- The sessions of bfd.cc at concrete inputs.
use mixi_pgw.Prelude.{◌≡◌, ◌≢◌, true, false, not, ◌&&◌, if◌then◌else◌, [], lookup, arith, inr}
use mixi_pgw.Tools.Bfd.{
  admin_down, down, init, up, is_down, Session, Packet, Manager, new_session, session_key,
  on_bfd_recieve, find_unsafe, change_state, diag_neighbor_said_down,
}
use mixi_pgw.Tools.Bfd.Machine.{rounds, change_state-rfc_next, rounds_up}
use mixi_pgw.Tools.Bfd.Receiving.{Inv, recieve_isolates, recieve-Inv}

-- One side in Init, the other still up.
abbrev one : Session
one = record (new_session 1 3784) {
  session_state = init;
  remote_session_state = down;
  remote_discr = 4;
}

abbrev other : Session
other = record (new_session 2 3784) { session_state = up }

one-live : one.session_state ≢ admin_down
one-live e = ground arith

other-live : other.session_state ≢ admin_down
other-live e = ground arith

rounds_up_example :
    ((rounds 3 (one, other)).0.session_state ≡ up) × ((rounds 3 (one, other)).1.session_state ≡ up)
rounds_up_example = rounds_up one other one-live other-live

change_state-rfc_next_example :
    ((change_state one).session_state ≡ down)
    × ((change_state one).remote_discr ≡ 0)
    × ((change_state one).local_diag ≡ (
        if not (is_down init) && is_down (change_state one).session_state && not true
        then diag_neighbor_said_down
        else one.local_diag))
change_state-rfc_next_example = change_state-rfc_next one one-live

abbrev idle : Manager
idle = record { sessions = []; local_discriminator_incr = 6 }

-- A poll of a neighbour that is down.
abbrev hello : Packet
hello = record {
  vers = 1;
  diag = 0;
  state = down;
  poll = true;
  final = false;
  cpi = false;
  auth = false;
  demand = false;
  multipoint = false;
  detect_mult = 3;
  length = 24;
  my_discr = 9;
  your_discr = 0;
  min_tx_int = 1000;
  min_rx_int = 1000;
  min_echo_rx_int = 0;
}

idle-Inv : Inv idle
unfolding lookup
idle-Inv = record { counter = omega arith; sound = λ key s h. ground arith }

recieve-Inv_example : Inv (on_bfd_recieve 50 idle 1 3784 hello 24).0
recieve-Inv_example = recieve-Inv 50 idle 1 3784 hello 24 idle-Inv

elsewhere : 5 ≢ session_key 1 3784
unfolding session_key
elsewhere e = omega arith

recieve_isolates_example :
    find_unsafe (on_bfd_recieve 50 idle 1 3784 hello 24).0 1 3785 ≡ find_unsafe idle 1 3785
recieve_isolates_example =
    recieve_isolates 50 idle 1 3784 hello 24 1 3785 (omega arith) (omega arith) (omega arith)
      (omega arith) (inr (omega arith))
