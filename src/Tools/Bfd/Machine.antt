-- ===== src/Tools/Bfd/Machine.antt =====
-- The state changes of bfd.cc against RFC 5880, section 6.8.6.
use mixi_pgw.Prelude.{ℕ, zero, suc, ◌≡◌, ◌≢◌, ap, ◌∙◌, not, ◌&&◌, if◌then◌else◌, arith}
use mixi_pgw.Tools.Bfd.{
  State, admin_down, down, init, up, is_down, is_init, Session, change_state,
  diag_neighbor_said_down,
}

-- The table of the RFC: the local state, the state in the packet.
pub rfc_next : State → State → State
rfc_next admin_down r = admin_down
rfc_next down down = init
rfc_next down init = up
rfc_next init admin_down = down
rfc_next init init = up
rfc_next init up = up
rfc_next up admin_down = down
rfc_next up down = down
rfc_next s r = s

-- What the code makes of the two states.
pub next : State → State → State
unfolding rfc_next
next init down = down
next s r = rfc_next s r

change_state-next :
    (s : Session)
    → s.session_state ≢ admin_down
    → (change_state s).session_state ≡ next s.session_state s.remote_session_state
unfolding change_state next rfc_next
change_state-next s h = ground arith

-- Outside of AdminDown the new state is the one of the RFC's table, but for a session in Init that
-- hears Down: the table keeps Init, and the code falls back to Down and forgets the remote
-- discriminator. The diagnostic code is set exactly when the neighbour's state brings a session
-- down, Init and Down excepted.
pub change_state-rfc_next :
    (s : Session)
    → s.session_state ≢ admin_down
    → let t = change_state s in
      let falls_back = is_init s.session_state && is_down s.remote_session_state in
      let torn_down = not (is_down s.session_state) && is_down t.session_state && not falls_back in
      (t.session_state
        ≡ (if falls_back then down else rfc_next s.session_state s.remote_session_state))
      × (t.remote_discr ≡ (if falls_back then 0 else s.remote_discr))
      × (t.local_diag ≡ (if torn_down then diag_neighbor_said_down else s.local_diag))
unfolding change_state rfc_next
change_state-rfc_next s h = ground arith

-- The session hears the state `r`.
pub hear : Session → State → Session
hear s r = change_state (record s { remote_session_state = r })

-- One round between two sessions: the first hears the second, then the second hears the first.
pub round : Session × Session → Session × Session
unfolding hear
round (a, b) = let a' = hear a b.session_state in (a', hear b a'.session_state)

pub rounds : ℕ → Session × Session → Session × Session
unfolding round
rounds zero p = p
rounds (suc n) p = rounds n (round p)

-- The states of a pair of sessions after a round depend on the states alone.
round_states : State × State → State × State
unfolding next
round_states (x, y) = (next x y, next y (next x y))

abbrev states : Session × Session → State × State
states (a, b) = (a.session_state, b.session_state)

next-ne-admin_down : (x y : State) → x ≢ admin_down → next x y ≢ admin_down
unfolding next rfc_next
next-ne-admin_down x y h = ground arith

hear-next :
    (s : Session) (r : State)
    → s.session_state ≢ admin_down
    → (hear s r).session_state ≡ next s.session_state r
unfolding hear
hear-next s r h = change_state-next (record s { remote_session_state = r }) h

states-round :
    (a b : Session)
    → a.session_state ≢ admin_down
    → b.session_state ≢ admin_down
    → states (round (a, b)) ≡ round_states (states (a, b))
unfolding round round_states
states-round a b h k =
    ground
      (arith, hear-next a b.session_state h, hear-next b (hear a b.session_state).session_state k)

up_after_three :
    (x y : State)
    → x ≢ admin_down
    → y ≢ admin_down
    → round_states (round_states (round_states (x, y))) ≡ (up, up)
unfolding round_states next rfc_next
up_after_three x y h k = ground arith

round-ne-admin_down :
    (a b : Session)
    → a.session_state ≢ admin_down
    → b.session_state ≢ admin_down
    → ((round (a, b)).0.session_state ≢ admin_down) × ((round (a, b)).1.session_state ≢ admin_down)
unfolding round_states
round-ne-admin_down a b h k = ground (
  arith,
  states-round a b h k,
  next-ne-admin_down a.session_state b.session_state h,
  next-ne-admin_down b.session_state (next a.session_state b.session_state) k,
)

-- Whatever states two sessions that are not AdminDown start from, three undisturbed rounds bring
-- both to Up.
pub rounds_up :
    (a b : Session)
    → a.session_state ≢ admin_down
    → b.session_state ≢ admin_down
    → let p = rounds 3 (a, b) in (p.0.session_state ≡ up) × (p.1.session_state ≡ up)
unfolding rounds
rounds_up a b h k =
    let p = round (a, b) in
    let live = round-ne-admin_down a b h k in
    let q = round p in
    let live' = round-ne-admin_down p.0 p.1 live.0 live.1 in
    let both =
      states-round q.0 q.1 live'.0 live'.1
      ∙ ap round_states (states-round p.0 p.1 live.0 live.1)
      ∙ ap (λ (s : State × State). round_states (round_states s)) (states-round a b h k)
      ∙ up_after_three a.session_state b.session_state h k in
    ((λ i. (both i).0), (λ i. (both i).1))
