-- ===== src/Tools/Bfd/Sending.antt =====
-- What bfd.cc writes to the network.
use mixi_pgw.Prelude.{
  ℕ, ◌≡◌, ◌≢◌, ◌⊎◌, Bool, true, false, not, ◌&&◌, ◌==◌, ltb, if◌then◌else◌, List, [], ◌∷◌, All,
  All-append, arith,
}
use mixi_pgw.Tools.Bfd.{
  down, Session, Packet, Manager, transmit, fill_packet, on_bfd_thread, on_bfd_recieve, handle,
  adopt, answer, new_session, change_state, min_packet_length,
}
use mixi_pgw.Tools.Bfd.Receiving.{recieve_cases}

-- RFC 5880, 6.8.6: a packet that claims a state other than Down names both discriminators.
pub record IsSendable (p : Packet) : Type 0 where
  pub version : p.vers ≡ 1
  pub whole : p.length ≡ min_packet_length
  pub plain : (p.auth ≡ false) × (p.multipoint ≡ false) × (p.demand ≡ false) × (p.poll ≡ false)
  pub named : (p.state ≡ down) ⊎ ((p.my_discr ≢ 0) × (p.your_discr ≢ 0))

transmit-IsSendable : (s : Session) → All IsSendable (transmit s)
unfolding transmit fill_packet
transmit-IsSendable s = ground arith

-- Every packet that a round of the sender's thread writes has the version 1 and the length of a
-- control packet without authentication, and names both discriminators unless its state is Down.
on_bfd_thread-IsSendable :
    (ss : List (ℕ × Session)) (curms : ℕ) → All IsSendable (on_bfd_thread ss curms)
unfolding on_bfd_thread
on_bfd_thread-IsSendable [] curms = tt
on_bfd_thread-IsSendable ((k, s) ∷ rest) curms =
    let test =
      ltb curms s.detect_time
      && not s.must_cease_tx_echo
      && not s.must_terminate
      && not (s.remote_discr == 0)
      && not (s.remote_min_rx_interval == 0) in
    All-append IsSendable (if test then transmit s else []) (on_bfd_thread rest curms) (chosen test)
      (on_bfd_thread-IsSendable rest curms)
  where
    chosen : (b : Bool) → All IsSendable (if b then transmit s else [])
    chosen true = transmit-IsSendable s
    chosen false = tt

answer-IsSendable : (bfd : Packet) (s : Session) → All IsSendable (answer bfd s).1
unfolding answer
answer-IsSendable bfd s =
    let s' = change_state s in ground (arith, transmit-IsSendable (record s' { pollbit_on = true }))

handle-IsSendable :
    (curms : ℕ) (m : Manager) (ipaddr port : ℕ) (bfd : Packet) (s : Session)
    → All IsSendable (handle curms m ipaddr port bfd s).1
unfolding handle
handle-IsSendable curms m ipaddr port bfd s = answer-IsSendable bfd _

-- Every packet that is written in answer to a received one has the version 1 and the length of a
-- control packet without authentication, and names both discriminators unless its state is Down.
on_bfd_recieve-IsSendable :
    (curms : ℕ) (m : Manager) (ipaddr port : ℕ) (bfd : Packet) (len : ℕ)
    → All IsSendable (on_bfd_recieve curms m ipaddr port bfd len).1
unfolding adopt
on_bfd_recieve-IsSendable curms m ipaddr port bfd len =
    recieve_cases (λ r. All IsSendable r.1) curms m ipaddr port bfd len tt
      (transmit-IsSendable (record (new_session ipaddr port) {
        remote_discr = bfd.my_discr;
        local_discr = bfd.your_discr;
        session_state = down;
      }))
      λ s _. handle-IsSendable curms m ipaddr port bfd s
