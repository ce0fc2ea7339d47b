-- ===== src/Ctrlplane/Tunnel/Notifying.antt =====
-- ctrlplane/src/pgw/event: what the handlers of Suspend Notification and Resume Notification
-- answer.
use mixi_pgw.Prelude.{
  ℕ, ◌≡◌, refl, sym, ap, arith, ◌&&◌, if◌then◌else◌, some, List, [], ◌∷◌, Bool-cases, inl, inr,
}
use mixi_pgw.Ctrlplane.Gtpc.{shift, is_echo, GtpPacket, GenericPacket}
use mixi_pgw.Ctrlplane.Tunnel.{
  Tunnel, Processing, World, TunnelNode, reply, lookup_tunnel, suspend_notify, resume_notify,
  read_request, cause_piece, accepted_cause, denied_cause, imsi_number, no_tunnel,
}
use mixi_pgw.Ctrlplane.Gtpc.Digits.{digits_get}
use mixi_pgw.Ctrlplane.Gtpc.Version1.{imsi_digits}
use mixi_pgw.Ctrlplane.Tunnel.Remove.{
  find_by_teid, notified, suspend_found, event_gtpc_suspend_notification_req, resume_found,
  event_gtpc_resume_notification_req,
}
use mixi_pgw.Ctrlplane.Tunnel.Sizes.{Fits, cause_piece-len, cause_piece-Leads}
use mixi_pgw.Ctrlplane.Tunnel.Causes.{IsResponded, IsAnswered-IsResponded}
use mixi_pgw.Ctrlplane.Tunnel.Answers.{
  IsAnswered, IsAnswered-type, IsFresh, is_any, last_row, handled, handled-IsAnswered_from,
  find_by_teid-IsLooked, lookup_tunnel-IsLooked, read_request-IsFresh,
}

cause_only-Fits : (cause : ℕ) → Fits 1501 (cause_piece cause ∷ [])
cause_only-Fits cause =
    ((omega (arith, cause_piece-len cause), tt), omega (arith, cause_piece-len cause))

-- A Suspend Notification that can be read is answered by `enq` with a cause alone, in a response of
-- type 163 with the sequence number of the request: 16 where the database has a row for its teid
-- and the UPDATE succeeds, else 93. The UPDATE is made just where there is a row.
event_gtpc_suspend_notification_req-IsAnswered :
    (w : World) (pckt : GenericPacket) (n : TunnelNode) (rpckt : GtpPacket) (cs : Processing)
    → read_request pckt ≡ some (rpckt, cs)
    → IsAnswered
        (event_gtpc_suspend_notification_req w pckt n)
        n
        163
        (last_row no_tunnel (w.find_teid cs.gtph_teid)).sgw_c_teid
        cs.gtph_seqno
        rpckt
        (if is_any (w.find_teid cs.gtph_teid) then suspend_notify cs.gtph_teid ∷ [] else [])
        (if is_any (w.find_teid cs.gtph_teid) && w.is_done (suspend_notify cs.gtph_teid)
          then cause_piece 16 ∷ []
          else cause_piece 93 ∷ [])
unfolding event_gtpc_suspend_notification_req suspend_found notified handled is_echo
event_gtpc_suspend_notification_req-IsAnswered w pckt n rpckt cs e =
    let row = find_by_teid w cs in
    let looked = find_by_teid-IsLooked w cs in
    rw (e, event_gtpc_suspend_notification_req)
      (IsAnswered-type
        (is_any (w.find_teid cs.gtph_teid) && w.is_done (suspend_notify cs.gtph_teid)) _ n 163 _ _
        rpckt _ _
        (handled-IsAnswered_from w rpckt row n (suspend_notify row.gtph_teid) 163 163
          (cause_piece accepted_cause ∷ []) (cause_piece denied_cause ∷ []) refl refl
          (cause_only-Fits accepted_cause) (cause_only-Fits denied_cause) (w.find_teid cs.gtph_teid)
          cs (suspend_notify cs.gtph_teid) (read_request-IsFresh pckt rpckt cs e) looked
          (ap suspend_notify looked.same_teid)))

-- The tunnels that a Resume Notification finds: none without an IMSI.
abbrev pub rows_of : World → Processing → List Tunnel
rows_of w cs = if cs.parse.flag 25 then w.find_teid cs.gtph_teid else []

resume_without_imsi :
    (w : World) (n : TunnelNode) (rpckt : GtpPacket) (cs : Processing)
    → IsFresh cs
    → IsAnswered
        (notified rpckt 165 denied_cause cs n)
        n
        165
        0
        cs.gtph_seqno
        rpckt
        []
        (cause_piece denied_cause ∷ [])
unfolding notified handled is_echo lookup_tunnel
resume_without_imsi w n rpckt cs fresh = rw (sym without) (
    handled-IsAnswered_from w rpckt cs n (resume_notify 0) 165 165 (cause_piece accepted_cause ∷ [])
      (cause_piece denied_cause ∷ []) refl refl (cause_only-Fits accepted_cause)
      (cause_only-Fits denied_cause) [] cs (resume_notify 0) fresh (lookup_tunnel-IsLooked [] cs)
      refl)
  where
    without :
        handled w rpckt cs n
          (resume_notify 0)
          165
          165
          (cause_piece accepted_cause ∷ [])
          (cause_piece denied_cause ∷ [])
          refl
          refl
          (cause_only-Fits accepted_cause)
          (cause_only-Fits denied_cause)
        ≡ reply rpckt 165 (some (cause_piece denied_cause ∷ [])) cs n
    without = rw fresh.unforged refl

event_gtpc_resume_notification_req-IsAnswered :
    (w : World) (pckt : GenericPacket) (n : TunnelNode) (rpckt : GtpPacket) (cs : Processing)
    → read_request pckt ≡ some (rpckt, cs)
    → IsAnswered
        (event_gtpc_resume_notification_req w pckt n)
        n
        165
        (last_row no_tunnel (rows_of w cs)).sgw_c_teid
        cs.gtph_seqno
        rpckt
        (if is_any (rows_of w cs)
          then resume_notify (imsi_number w.is_erange cs.parse) ∷ []
          else [])
        (if is_any (rows_of w cs) && w.is_done (resume_notify (imsi_number w.is_erange cs.parse))
          then cause_piece 16 ∷ []
          else cause_piece 93 ∷ [])
unfolding event_gtpc_resume_notification_req resume_found notified handled is_echo imsi_number
event_gtpc_resume_notification_req-IsAnswered w pckt n rpckt cs e =
    let row = find_by_teid w cs in
    let looked = find_by_teid-IsLooked w cs in
    elim (Bool-cases (cs.parse.flag 25)) [
      | inr f ↦
          rw (e, f, event_gtpc_resume_notification_req)
            (resume_without_imsi w n rpckt cs (read_request-IsFresh pckt rpckt cs e))
      | inl f ↦
          rw (e, f, event_gtpc_resume_notification_req)
            (IsAnswered-type
              (is_any (w.find_teid cs.gtph_teid)
                && w.is_done (resume_notify (imsi_number w.is_erange cs.parse)))
              _ n 165 _ _ rpckt _ _
              (handled-IsAnswered_from w rpckt row n
                (resume_notify (imsi_number w.is_erange row.parse)) 165 165
                (cause_piece accepted_cause ∷ []) (cause_piece denied_cause ∷ []) refl refl
                (cause_only-Fits accepted_cause) (cause_only-Fits denied_cause)
                (w.find_teid cs.gtph_teid) cs (resume_notify (imsi_number w.is_erange cs.parse))
                (read_request-IsFresh pckt rpckt cs e) looked
                (imsi_same cs row looked.same_stored)))
    ]
  where
    imsi_same :
        (a b : Processing)
        → b.parse.stored ≡ a.parse.stored
        → resume_notify (imsi_number w.is_erange b.parse)
          ≡ resume_notify (imsi_number w.is_erange a.parse)
    imsi_same a b same =
        ap (λ st. resume_notify (digits_get w.is_erange (imsi_digits 8 (shift (st 1) 4))).0) same

-- A Resume Notification that can be read makes one response with a cause alone, which goes to the end
-- of the egress queue, or is dropped and counted where 20480 packets stand there. It has type 165 and the
-- sequence number of the request; the cause is 16 where the request has an IMSI, the database has a row
-- for its teid and the UPDATE for that IMSI succeeds, else 93. The UPDATE is made just where
-- there is an IMSI and a row.
pub event_gtpc_resume_notification_req-IsResponded :
    (w : World) (pckt : GenericPacket) (n : TunnelNode) (rpckt : GtpPacket) (cs : Processing)
    → read_request pckt ≡ some (rpckt, cs)
    → IsResponded
        (event_gtpc_resume_notification_req w pckt n)
        n
        165
        (last_row no_tunnel (rows_of w cs)).sgw_c_teid
        cs.gtph_seqno
        rpckt
        (if is_any (rows_of w cs)
          then resume_notify (imsi_number w.is_erange cs.parse) ∷ []
          else [])
        (if is_any (rows_of w cs) && w.is_done (resume_notify (imsi_number w.is_erange cs.parse))
          then cause_piece 16 ∷ []
          else cause_piece 93 ∷ [])
        (if is_any (rows_of w cs) && w.is_done (resume_notify (imsi_number w.is_erange cs.parse))
          then 16
          else 93)
event_gtpc_resume_notification_req-IsResponded w pckt n rpckt cs e =
    IsAnswered-IsResponded _ n 165 _ _ rpckt _
      (is_any (rows_of w cs) && w.is_done (resume_notify (imsi_number w.is_erange cs.parse)))
      (cause_piece 16 ∷ []) (cause_piece 93 ∷ []) (cause_piece-Leads 16 [] (omega arith))
      (cause_piece-Leads 93 [] (omega arith))
      (event_gtpc_resume_notification_req-IsAnswered w pckt n rpckt cs e)
