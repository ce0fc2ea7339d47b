-- ===== src/Ctrlplane/Proxy/Correlation.antt =====
-- That a response comes back to the peer whose request it answers.
use mixi_pgw.Prelude.{
  ℕ, ◌%◌, ◌^◌, ◌≡◌, refl, ap, ◌∙◌, true, false, ◌&&◌, ◌==◌, Option, none, some, List, ◌∷◌, lookup,
  insert, lookup-insert, arith,
}
use mixi_pgw.Ctrlplane.Routes.{
  Routes, RouteInt, RouteSession, new_session, stat_add, set_session, find_session_by_seqno_teid,
  set_ext_route, find_internl_route_by_group_from_cache, session_key,
}
use mixi_pgw.Ctrlplane.Routes.Sessions.{set_session-new}
use mixi_pgw.Ctrlplane.Proxy.{
  Datagram, World, Sent, Event, dispatch_all, on_recieve_ext, on_recieve_int, reject_ext,
  reject_int, send_ext, send_int, forward_request, forward_response, is_headed, is_whole,
  is_request, is_response, echo, echo_req, accept_ext, accept_int, ext_sock, int_sock, datalen,
}
use mixi_pgw.Ctrlplane.Proxy.Delivery.{Keeps, dispatch_all-Keeps}

-- A request that can be forwarded: it is well formed, the subscriber's group is known, and the group
-- has a route.
pub record IsRoutable (w : World) (d : Datagram) (r : Routes) (imsi c_teid gid : ℕ)
    (route : RouteInt) (rest : List RouteInt) : Type 0 where
  pub headed : is_headed w d ≡ true
  pub whole : is_whole d ≡ true
  pub own : (n : ℕ) × (w.sockname ≡ some n)
  pub request : is_request d ≡ true
  pub no_echo : (d.type == echo_req) ≡ false
  pub parsed : d.parsed ≡ some (imsi, c_teid)
  pub group : w.find_group_by_imsi imsi ≡ some gid
  pub routes : find_internl_route_by_group_from_cache gid r ≡ some (route ∷ rest)
  pub sent : w.is_sent ≡ true

pub record IsDeliverable (w : World) (own : ℕ) (d : Datagram) : Type 0 where
  pub headed : is_headed w d ≡ true
  pub whole : is_whole d ≡ true
  pub named : w.sockname ≡ some own
  pub response : is_response d ≡ true
  pub no_echo : (d.version == 2 && d.type == echo_req) ≡ false
  pub sent : w.is_sent ≡ true

accepted :
    (w : World) (d : Datagram) (r : Routes) (own : ℕ)
    → is_headed w d ≡ true
    → is_whole d ≡ true
    → w.sockname ≡ some own
    → on_recieve_ext w d r ≡ accept_ext w d (set_ext_route d.peer r)
unfolding on_recieve_ext accept_ext reject_ext send_ext forward_request
accepted w d r own h k n = rw (h, k, n) refl

forwarded :
    (w : World) (d : Datagram) (r : Routes) (imsi c_teid gid : ℕ) (route : RouteInt)
    (rest : List RouteInt)
    → d.parsed ≡ some (imsi, c_teid)
    → w.find_group_by_imsi imsi ≡ some gid
    → find_internl_route_by_group_from_cache gid r ≡ some (route ∷ rest)
    → w.is_sent ≡ true
    → ((forward_request w d r).0.session
        ≡ (set_session w.now imsi (d.seqno % 2 ^ 24) c_teid d.peer r).session)
      × ((forward_request w d r).1
          ≡ some (record {
            socket = int_sock;
            to = record { sin_addr = route.host; sin_port = route.port % 2 ^ 16 };
            type = d.type;
            datalen = datalen d;
          }))
unfolding forward_request send_ext stat_add reject_ext datalen
forwarded w d r imsi c_teid gid route rest p g n s =
    rw (p, g, n, s, forward_request, send_ext) (refl, refl)

delivered :
    (w : World) (unset own : ℕ) (d : Datagram) (r : Routes) (sess : RouteSession)
    → IsDeliverable w own d
    → find_session_by_seqno_teid d.seqno d.teid r ≡ some sess
    → (on_recieve_int w unset d r).1
      ≡ some (record { socket = ext_sock; to = sess.host; type = d.type; datalen = datalen d })
unfolding on_recieve_int accept_int forward_response send_int reject_int echo datalen is_headed
    is_whole is_response
delivered w unset own d r sess v f =
    rw (v.headed, v.whole, v.named, v.response, v.no_echo, f, v.sent, forward_response, send_int)
      refl

passed :
    (w : World) (d : Datagram) (r : Routes)
    → is_request d ≡ true
    → (d.type == echo_req) ≡ false
    → accept_ext w d r ≡ forward_request w d r
unfolding accept_ext
passed w d r q n = rw (q, n, accept_ext) refl

-- The session that a forwarded request leaves, where there was none.
remembered :
    (w : World) (d : Datagram) (r : Routes) (imsi c_teid gid : ℕ) (route : RouteInt)
    (rest : List RouteInt)
    → IsRoutable w d r imsi c_teid gid route rest
    → find_session_by_seqno_teid (d.seqno % 2 ^ 24) c_teid r ≡ none
    → Keeps
        (session_key (d.seqno % 2 ^ 24) c_teid)
        (new_session w.now imsi (d.seqno % 2 ^ 24) c_teid d.peer)
        (on_recieve_ext w d r).0
unfolding set_ext_route find_internl_route_by_group_from_cache find_session_by_seqno_teid
remembered w d r imsi c_teid gid route rest v n =
    let seqno = d.seqno % 2 ^ 24 in
    let key = session_key seqno c_teid in
    let s = new_session w.now imsi seqno c_teid d.peer in
    let routed = set_ext_route d.peer r in
    let f = forwarded w d routed imsi c_teid gid route rest v.parsed v.group v.routes v.sent in
    let there : lookup key (insert key s r.session) ≡ some s =
      ground (arith, lookup-insert key key s r.session) in
    let accept : accept_ext w d routed ≡ forward_request w d routed =
      passed w d routed v.request v.no_echo in
    ap (λ (x : Routes × Option Sent). lookup key x.0.session)
      (accepted w d r v.own.0 v.headed v.whole v.own.1 ∙ accept)
    ∙ ap (lookup key) (f.0 ∙ set_session-new w.now imsi seqno c_teid d.peer routed n)
    ∙ there

-- A response comes back to the peer whose request it answers: when a request with a new pair of
-- sequence number and tunnel was forwarded, and a response that carries this pair arrives, however
-- many datagrams and timers lie between, it is sent to the peer of the request.
pub response_returns :
    (w : World) (d : Datagram) (r : Routes) (imsi c_teid gid : ℕ) (route : RouteInt)
    (rest : List RouteInt) (es : List Event) (w' : World) (unset own : ℕ) (e : Datagram)
    → IsRoutable w d r imsi c_teid gid route rest
    → find_session_by_seqno_teid (d.seqno % 2 ^ 24) c_teid r ≡ none
    → IsDeliverable w' own e
    → e.seqno ≡ d.seqno % 2 ^ 24
    → e.teid ≡ c_teid
    → (on_recieve_int w' unset e (dispatch_all es (on_recieve_ext w d r).0)).1
      ≡ some (record { socket = ext_sock; to = d.peer; type = e.type; datalen = datalen e })
unfolding find_session_by_seqno_teid new_session
response_returns w d r imsi c_teid gid route rest es w' unset own e v n u q t =
    let seqno = d.seqno % 2 ^ 24 in
    let s = new_session w.now imsi seqno c_teid d.peer in
    let after = (on_recieve_ext w d r).0 in
    let kept =
      dispatch_all-Keeps (session_key seqno c_teid) s es after
        (remembered w d r imsi c_teid gid route rest v n) in
    let same : session_key e.seqno e.teid ≡ session_key seqno c_teid =
      λ i. session_key (q i) (t i) in
    delivered w' unset own e (dispatch_all es after) s u
      (ap (λ (k : ℕ). lookup k (dispatch_all es after).session) same ∙ kept)
