-- ===== src/Ctrlplane/Proxy/Delivery.antt =====
-- Which sessions the proxy keeps, whatever happens.
use mixi_pgw.Prelude.{
  ℕ, ◌+◌, ◌-◌, ◌/◌, ◌%◌, ◌^◌, ◌≤◌, ◌<◌, All, ◌≡◌, true, not, ◌&&◌, ◌==◌, ltb, Option, none, some,
  List, [], ◌∷◌, lookup, arith, inl, inr, Bool-cases, Option-cases, if_both,
}
use mixi_pgw.Ctrlplane.Routes.{
  Routes, RouteSession, stat_add, stat_reject, stat_expire, find_session_by_seqno_teid,
  set_ext_route, find_internl_route_by_group_from_cache, cache, ProxyStat, unexpired,
}
use mixi_pgw.Ctrlplane.Routes.Sessions.{set_session_keeps}
use mixi_pgw.Ctrlplane.Proxy.{
  Datagram, World, Sent, Event, from_ext, from_int, timed_out, dispatch, dispatch_all,
  on_recieve_ext, on_recieve_int, on_time_out, reject_ext, reject_int, send_ext, send_int,
  forward_request, forward_response, refresh, is_headed, is_whole, echo, accept_ext, accept_int,
  is_request, is_response, echo_req, ext_sock, int_sock, Timer,
}

-- A session that is there stays.
abbrev pub Keeps : ℕ → RouteSession → Routes → Type 0
Keeps key s r = lookup key r.session ≡ some s

send_ext-Keeps :
    (w : World) (gid : ℕ) (sent : Sent) (d : Datagram) (r : Routes) (key : ℕ) (s : RouteSession)
    → Keeps key s r
    → Keeps key s (send_ext w gid sent d r).0
unfolding send_ext reject_ext stat_add stat_reject
send_ext-Keeps w gid sent d r key s h = elim (Bool-cases w.is_sent) [
  | inl e ↦ rw e h
  | inr e ↦ rw e h
]

reject_ext-Keeps :
    (w : World) (gid rlen : ℕ) (d : Datagram) (r : Routes) (key : ℕ) (s : RouteSession)
    → Keeps key s r
    → Keeps key s (reject_ext w gid rlen d r).0
unfolding reject_ext stat_reject
reject_ext-Keeps w gid rlen d r key s h = h

forward_request-Keeps :
    (w : World) (d : Datagram) (r : Routes) (key : ℕ) (s : RouteSession)
    → Keeps key s r
    → Keeps key s (forward_request w d r).0
unfolding forward_request reject_ext
forward_request-Keeps w d r key s h =
    let rejected = λ (gid : ℕ). reject_ext-Keeps w gid d.recieved d r key s h in
    elim (Option-cases d.parsed) [
      | inl n ↦ rw (n, forward_request) (rejected w.gid)
      | inr ((imsi, c_teid), p) ↦ elim (Option-cases (w.find_group_by_imsi imsi)) [
        | inl n ↦ rw (p, n, forward_request) (rejected 0xffff)
        | inr (gid, g) ↦ elim (Option-cases (find_internl_route_by_group_from_cache gid r)) [
          | inl n ↦ rw (p, g, n, forward_request) (rejected gid)
          | inr ([], n) ↦ rw (p, g, n, forward_request) (rejected gid)
          | inr (route ∷ rest, n) ↦
              rw (p, g, n, forward_request)
                (send_ext-Keeps w gid _ d _ key s
                  (set_session_keeps w.now imsi (d.seqno % 2 ^ 24) c_teid key d.peer r s h))
        ]
      ]
    ]

module _ (key : ℕ) (s : RouteSession) where
  abbrev KeepsIt : Routes × Option Sent → Type 0
  KeepsIt x = Keeps key s x.0

  accept_ext-Keeps :
      (w : World) (d : Datagram) (r : Routes) → Keeps key s r → KeepsIt (accept_ext w d r)
  unfolding accept_ext
  accept_ext-Keeps w d r h =
      if_both KeepsIt (not (is_request d)) _ _ (reject_ext-Keeps w w.gid d.recieved d r key s h) (
        if_both KeepsIt (d.type == echo_req) _ _
          (send_ext-Keeps w w.gid (echo ext_sock d) d r key s h)
          (forward_request-Keeps w d r key s h))

  on_recieve_ext-Keeps :
      (w : World) (d : Datagram) (r : Routes) → Keeps key s r → KeepsIt (on_recieve_ext w d r)
  unfolding on_recieve_ext
  on_recieve_ext-Keeps w d r h =
      if_both KeepsIt (not (is_headed w d)) _ _ (reject_ext-Keeps w w.gid d.peeked d r key s h) (
        if_both KeepsIt (not (is_whole d)) _ _ (reject_ext-Keeps w 0 d.recieved d r key s h)
          (named w.sockname))
    where
      named :
          (o : Option ℕ)
          → KeepsIt (elim o as (λ _. Routes × Option Sent) [
            | none ↦ reject_ext w 0 d.recieved d r
            | some _ ↦ accept_ext w d (set_ext_route d.peer r)
          ])
      named none = reject_ext-Keeps w 0 d.recieved d r key s h
      named (some own) = accept_ext-Keeps w d (set_ext_route d.peer r) (unfold set_ext_route in h)

  reject_int-Keeps :
      (w : World) (own rlen : ℕ) (r : Routes) → Keeps key s r → KeepsIt (reject_int w own rlen r)
  unfolding reject_int stat_reject
  reject_int-Keeps w own rlen r h = h

  send_int-Keeps :
      (w : World) (own : ℕ) (sent : Sent) (d : Datagram) (r : Routes)
      → Keeps key s r
      → KeepsIt (send_int w own sent d r)
  unfolding send_int stat_add
  send_int-Keeps w own sent d r h =
      if_both KeepsIt w.is_sent _ _ h (reject_int-Keeps w own d.recieved r h)

  forward_response-Keeps :
      (w : World) (own : ℕ) (d : Datagram) (r : Routes)
      → Keeps key s r
      → KeepsIt (forward_response w own d r)
  unfolding forward_response
  forward_response-Keeps w own d r h =
      elim (Option-cases (find_session_by_seqno_teid d.seqno d.teid r)) [
        | inl n ↦ rw (n, forward_response) (reject_int-Keeps w own d.recieved r h)
        | inr (u, f) ↦ rw (f, forward_response) (send_int-Keeps w own _ d r h)
      ]

  accept_int-Keeps :
      (w : World) (own : ℕ) (d : Datagram) (r : Routes)
      → Keeps key s r
      → KeepsIt (accept_int w own d r)
  unfolding accept_int
  accept_int-Keeps w own d r h =
      if_both KeepsIt (not (is_response d)) _ _ (reject_int-Keeps w own d.recieved r h) (
        if_both KeepsIt (d.version == 2 && d.type == echo_req) _ _
          (send_int-Keeps w own (echo int_sock d) d r h) (forward_response-Keeps w own d r h))

  on_recieve_int-Keeps :
      (w : World) (unset : ℕ) (d : Datagram) (r : Routes)
      → Keeps key s r
      → KeepsIt (on_recieve_int w unset d r)
  unfolding on_recieve_int
  on_recieve_int-Keeps w unset d r h =
      if_both KeepsIt (not (is_headed w d)) _ _ (reject_int-Keeps w unset d.peeked r h) (
        if_both KeepsIt (not (is_whole d)) _ _ (reject_int-Keeps w unset d.recieved r h)
          (named w.sockname))
    where
      named :
          (o : Option ℕ)
          → KeepsIt (elim o as (λ _. Routes × Option Sent) [
            | none ↦ reject_int w unset d.recieved r
            | some own ↦ accept_int w own d r
          ])
      named none = reject_int-Keeps w unset d.recieved r h
      named (some own) = accept_int-Keeps w own d r h

  on_time_out-Keeps :
      (now : ℕ) (rows : List (ℕ × ℕ)) (t : Timer) (r : Routes)
      → Keeps key s r
      → Keeps key s (on_time_out now rows t r).1
  unfolding on_time_out refresh stat_expire cache
  on_time_out-Keeps now rows t r h = ground arith

  dispatch-Keeps : (e : Event) (r : Routes) → Keeps key s r → Keeps key s (dispatch e r)
  unfolding dispatch
  dispatch-Keeps (from_ext w d) r h = on_recieve_ext-Keeps w d r h
  dispatch-Keeps (from_int w unset d) r h = on_recieve_int-Keeps w unset d r h
  dispatch-Keeps (timed_out now rows t) r h = on_time_out-Keeps now rows t r h

  -- Once a session is known, no datagram and no timer takes it away or changes it.
  pub dispatch_all-Keeps :
      (es : List Event) (r : Routes) → Keeps key s r → Keeps key s (dispatch_all es r)
  unfolding dispatch_all
  dispatch_all-Keeps [] r h = h
  dispatch_all-Keeps (e ∷ es) r h = dispatch_all-Keeps es (dispatch e r) (dispatch-Keeps e r h)

refresh-counter_session :
    (rows : List (ℕ × ℕ)) (t : Timer) (r : Routes)
    → (refresh rows t r).0.counter_session ≡ t.counter_session
unfolding refresh
refresh-counter_session rows t r = ground arith

unexpired-kept :
    (limit : ℕ) (xs : List (ℕ × ProxyStat)) → All (λ x. limit ≤ x.1.created) (unexpired limit xs)
unfolding unexpired
unexpired-kept limit [] = tt
unexpired-kept limit ((k, s) ∷ rest) = ground (arith, unexpired-kept limit rest)

-- When the timer expires the statistics, the elapsed time it passes is 0: of all statistics only
-- those that were written in the current second are left.
on_time_out_forgets :
    (now : ℕ) (rows : List (ℕ × ℕ)) (t : Timer) (r : Routes)
    → now < 2 ^ 32
    → 360000 < t.counter_session
    → All (λ x. now ≤ x.1.created) (on_time_out now rows t r).1.stats
unfolding on_time_out stat_expire
on_time_out_forgets now rows t r h late =
    let due : ltb 360000 (refresh rows t r).0.counter_session ≡ true =
      rw (refresh-counter_session rows t r) (ground arith) in
    let limit : (now % 2 ^ 32 + 2 ^ 32 - 0 / 100 % 2 ^ 32) % 2 ^ 32 ≡ now = omega (arith, h) in
    rw (due, on_time_out) (rw limit (unexpired-kept now (refresh rows t r).1.stats))
