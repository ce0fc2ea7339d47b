-- ===== src/Ctrlplane/Routes/Sessions.antt =====
-- The session cache of routes.cc: which peer a pair of sequence number and tunnel belongs to.
use mixi_pgw.Prelude.{
  ℕ, ◌^◌, ◌<◌, ◌≡◌, refl, Option, none, some, lookup, insert, lookup-insert, arith, inl, inr,
  Option-cases,
}
use mixi_pgw.Ctrlplane.Routes.{
  Routes, RouteSession, Address, set_session, new_session, find_session_by_seqno_teid, session_key,
}

pub session_key_inj :
    (a b c d : ℕ)
    → a < 2 ^ 32
    → b < 2 ^ 32
    → c < 2 ^ 32
    → d < 2 ^ 32
    → session_key a b ≡ session_key c d
    → (a ≡ c) × (b ≡ d)
unfolding session_key
session_key_inj a b c d ha hb hc hd e = (omega arith, omega arith)

unfoldable pub host_of : Option RouteSession → Option Address
host_of none = none
host_of (some s) = some s.host

unfoldable pub or_else : Address → Option Address → Option Address
or_else a none = some a
or_else a (some b) = some b

-- The peer that a response with this sequence number and tunnel is sent to.
unfoldable pub peer_of : ℕ → ℕ → Routes → Option Address
peer_of seqno teid r = host_of (find_session_by_seqno_teid seqno teid r)

pub set_session-new :
    (now imsi seqno teid : ℕ) (a : Address) (r : Routes)
    → lookup (session_key seqno teid) r.session ≡ none
    → (set_session now imsi seqno teid a r).session
      ≡ insert (session_key seqno teid) (new_session now imsi seqno teid a) r.session
unfolding set_session
set_session-new now imsi seqno teid a r n = rw (n, set_session) refl

set_session-known :
    (now imsi seqno teid : ℕ) (a : Address) (r : Routes) (s : RouteSession)
    → lookup (session_key seqno teid) r.session ≡ some s
    → set_session now imsi seqno teid a r ≡ r
unfolding set_session
set_session-known now imsi seqno teid a r s f = rw (f, set_session) refl

-- The first peer to send a pair of sequence number and tunnel keeps it.
set_session-peer_of :
    (now imsi seqno teid : ℕ) (a : Address) (r : Routes)
    → peer_of seqno teid (set_session now imsi seqno teid a r) ≡ or_else a (peer_of seqno teid r)
unfolding find_session_by_seqno_teid peer_of
set_session-peer_of now imsi seqno teid a r =
    let key = session_key seqno teid in
    elim (Option-cases (lookup key r.session)) [
      | inl n ↦
          let s = new_session now imsi seqno teid a in
          let found : lookup key (insert key s r.session) ≡ some s =
            ground (arith, lookup-insert key key s r.session) in
          rw (set_session-new now imsi seqno teid a r n, found, n)
            (unfold new_session host_of or_else in refl)
      | inr (s, f) ↦
          rw (set_session-known now imsi seqno teid a r s f, f) (unfold host_of or_else in refl)
    ]

-- No call of SetSession takes a session away or changes one.
pub set_session_keeps :
    (now imsi seqno teid key : ℕ) (a : Address) (r : Routes) (s : RouteSession)
    → lookup key r.session ≡ some s
    → lookup key (set_session now imsi seqno teid a r).session ≡ some s
set_session_keeps now imsi seqno teid key a r s h =
    let own = session_key seqno teid in
    elim (Option-cases (lookup own r.session)) [
      | inl n ↦
          rw (set_session-new now imsi seqno teid a r n)
            (ground (arith, lookup-insert own key (new_session now imsi seqno teid a) r.session))
      | inr (u, f) ↦ rw (set_session-known now imsi seqno teid a r u f) h
    ]
