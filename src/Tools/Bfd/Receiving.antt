-- ===== src/Tools/Bfd/Receiving.antt =====
-- What on_bfd_recieve of bfd.cc does to the sessions.
use mixi_pgw.Prelude.{
  ℕ, ◌+◌, ◌%◌, ◌^◌, ◌≤◌, ◌<◌, ◌≡◌, refl, ◌≢◌, ◌⊎◌, inl, inr, true, false, not, ◌==◌, some, List, [],
  arith, Option-cases, Bool-cases, lookup, insert, lookup-insert, htonl_pos,
}
use mixi_pgw.Tools.Bfd.{
  admin_down, down, is_down, Session, Packet, Manager, on_bfd_recieve, handle, adopt, answer,
  is_dropped, find_unsafe, put_session, new_session, connect, take_over, change_state, session_key,
}

-- The rules of RFC 5880, 6.8.6, for a control packet without authentication.
pub record IsWellFormed (len : ℕ) (p : Packet) : Type 0 where
  pub whole : len ≡ 24
  pub version : p.vers ≡ 1
  pub supported : (p.multipoint ≡ false) × (p.auth ≡ false)
  pub from_somebody : p.my_discr ≢ 0
  pub multiplied : p.detect_mult ≢ 0
  pub to_somebody : p.your_discr ≡ 0 → (p.state ≡ down) ⊎ (p.state ≡ admin_down)

kept-IsWellFormed : (len : ℕ) (p : Packet) → is_dropped len p ≡ false → IsWellFormed len p
unfolding is_dropped
kept-IsWellFormed len p h = ground arith

-- A packet that is not well formed changes no session and is not answered.
recieve_drops :
    (curms : ℕ) (m : Manager) (ipaddr port : ℕ) (p : Packet) (len : ℕ)
    → ¬ IsWellFormed len p
    → on_bfd_recieve curms m ipaddr port p len ≡ (m, [])
unfolding on_bfd_recieve
recieve_drops curms m ipaddr port p len bad = elim (Bool-cases (is_dropped len p)) [
  | inl e ↦ rw e
  | inr e ↦ absurd (bad (kept-IsWellFormed len p e))
]

pub recieve_cases {ℓ} :
    (P : Manager × List Packet → Type ℓ) (curms : ℕ) (m : Manager) (ipaddr port : ℕ) (p : Packet)
    (len : ℕ)
    → P (m, [])
    → P (adopt m ipaddr port p)
    → ((s : Session)
        → (find_unsafe m ipaddr port ≡ some s) ⊎ (s ≡ new_session ipaddr port)
        → P (handle curms m ipaddr port p s))
    → P (on_bfd_recieve curms m ipaddr port p len)
unfolding on_bfd_recieve
recieve_cases P curms m ipaddr port p len same adopted handled =
    elim (Bool-cases (is_dropped len p)) [
      | inl e ↦ rw e same
      | inr e ↦ elim (Option-cases (find_unsafe m ipaddr port)) [
        | inl n ↦
            rw (e, n, on_bfd_recieve)
              (elim (Bool-cases (not (p.your_discr == 0))) [
                | inl named ↦ rw named adopted
                | inr unnamed ↦ elim (Bool-cases (is_down p.state)) [
                  | inl d ↦ rw (unnamed, d) (handled (new_session ipaddr port) (inr refl))
                  | inr d ↦ rw (unnamed, d) same
                ]
              ])
        | inr (s, f) ↦ rw (e, f, on_bfd_recieve) (handled s (inl f))
      ]
    ]

-- Two peers that differ in address or port have keys of their own.
session_key-injective :
    (ipaddr port ipaddr' port' : ℕ)
    → ipaddr < 2 ^ 32
    → port < 2 ^ 32
    → ipaddr' < 2 ^ 32
    → port' < 2 ^ 32
    → session_key ipaddr port ≡ session_key ipaddr' port'
    → (ipaddr ≡ ipaddr') × (port ≡ port')
unfolding session_key
session_key-injective ipaddr port ipaddr' port' a b c d e =
    (omega (arith, a, b, c, d, e), omega (arith, a, b, c, d, e))

-- A packet from one address and port of 32 bits leaves the session of every other such address and
-- port as it was, or absent.
pub recieve_isolates :
    (curms : ℕ) (m : Manager) (ipaddr port : ℕ) (p : Packet) (len ipaddr' port' : ℕ)
    → ipaddr < 2 ^ 32
    → port < 2 ^ 32
    → ipaddr' < 2 ^ 32
    → port' < 2 ^ 32
    → (ipaddr ≢ ipaddr') ⊎ (port ≢ port')
    → find_unsafe (on_bfd_recieve curms m ipaddr port p len).0 ipaddr' port'
      ≡ find_unsafe m ipaddr' port'
unfolding find_unsafe
recieve_isolates curms m ipaddr port p len ipaddr' port' a b c d other =
    recieve_cases
      (λ r.
        lookup (session_key ipaddr' port') r.0.sessions
        ≡ lookup (session_key ipaddr' port') m.sessions)
      curms m ipaddr port p len refl (unfold adopt put_session in put_elsewhere _)
      λ s _. unfold handle put_session in put_elsewhere _
  where
    apart : session_key ipaddr port ≢ session_key ipaddr' port'
    apart e =
        let (same_ip, same_port) = session_key-injective ipaddr port ipaddr' port' a b c d e in
        elim other [ inl ip ↦ ip same_ip | inr po ↦ po same_port ]

    put_elsewhere :
        (s : Session)
        → lookup (session_key ipaddr' port') (insert (session_key ipaddr port) s m.sessions)
          ≡ lookup (session_key ipaddr' port') m.sessions
    put_elsewhere s = ground (
      arith,
      lookup-insert (session_key ipaddr port) (session_key ipaddr' port') s m.sessions,
      apart,
    )

-- What holds of every session between two events.
pub record IsSound (s : Session) : Type 0 where
  pub identified : s.connected ≡ true → s.local_discr ≢ 0
  pub no_echo : s.received_min_rx_interval ≡ 0
  pub multiplier : s.detect_mult ≡ 3

pub record Inv (m : Manager) : Type 0 where
  pub counter : m.local_discriminator_incr ≤ 0x7fffffff
  pub sound : (key : ℕ) (s : Session) → lookup key m.sessions ≡ some s → IsSound s

connect-IsSound :
    (incr : ℕ) (s : Session)
    → incr ≤ 0x7fffffff
    → IsSound s
    → ((connect incr s).0 ≤ 0x7fffffff) × IsSound (connect incr s).1
unfolding connect
connect-IsSound incr s h v = ground (arith, htonl_pos ((incr + 1) % 2 ^ 32))

take_over-IsSound : (now : ℕ) (p : Packet) (s : Session) → IsSound s → IsSound (take_over now p s)
unfolding take_over
take_over-IsSound now p s v = ground arith

answer-IsSound : (p : Packet) (s : Session) → IsSound s → IsSound (answer p s).0
unfolding answer change_state
answer-IsSound p s v = ground arith

put-Inv :
    (m : Manager) (ipaddr port : ℕ) (s : Session)
    → Inv m
    → IsSound s
    → Inv (put_session m ipaddr port s)
unfolding put_session
put-Inv m ipaddr port s v h = record {
  counter = v.counter;
  sound = λ key u e.
      ground (arith, lookup-insert (session_key ipaddr port) key s m.sessions, v.sound key u);
}

handle-Inv :
    (now : ℕ) (m : Manager) (ipaddr port : ℕ) (p : Packet) (s : Session)
    → Inv m
    → IsSound s
    → Inv (handle now m ipaddr port p s).0
unfolding handle
handle-Inv now m ipaddr port p s v h =
    let c = connect-IsSound m.local_discriminator_incr s v.counter h in
    put-Inv _ ipaddr port _ (record { counter = c.0; sound = v.sound })
      (answer-IsSound p _ (take_over-IsSound now p _ c.1))

new_session-IsSound : (ipaddr port : ℕ) → IsSound (new_session ipaddr port)
unfolding new_session
new_session-IsSound ipaddr port = ground arith

-- Every received packet keeps the invariant: the counter of discriminators is at most 0x7fffffff, a
-- session with a connection has a local discriminator other than 0, and every session has the
-- received receive interval 0 and the multiplier 3.
pub recieve-Inv :
    (now : ℕ) (m : Manager) (ipaddr port : ℕ) (p : Packet) (len : ℕ)
    → Inv m
    → Inv (on_bfd_recieve now m ipaddr port p len).0
recieve-Inv now m ipaddr port p len v =
    recieve_cases (λ r. Inv r.0) now m ipaddr port p len v
      (unfold adopt in put-Inv m ipaddr port _ v (adopted ipaddr port))
      λ s known. handle-Inv now m ipaddr port p s v (sound s known)
  where
    adopted :
        (ipaddr port : ℕ)
        → IsSound (record (new_session ipaddr port) {
          remote_discr = p.my_discr;
          local_discr = p.your_discr;
          session_state = down;
        })
    adopted ipaddr port = unfold new_session in ground arith

    sound :
        (s : Session)
        → (find_unsafe m ipaddr port ≡ some s) ⊎ (s ≡ new_session ipaddr port)
        → IsSound s
    sound s (inl found) = unfold find_unsafe in v.sound _ s found
    sound s (inr fresh) = rw fresh (new_session-IsSound ipaddr port)
