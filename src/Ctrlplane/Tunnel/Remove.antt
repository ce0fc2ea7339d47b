-- ===== src/Ctrlplane/Tunnel/Remove.antt =====
-- ctrlplane/src/pgw/event: event_gtpc_delete_session.c, event_gtpc_delete_bearer.c,
-- event_gtpc_suspend_notification.c and event_gtpc_resume_notification.c, each with its _accept
-- and its _denied.
use mixi_pgw.Prelude.{ℕ, ◌+◌, ◌%◌, ◌^◌, Bool, false, if◌then◌else◌, none, some, List, [], ◌∷◌, ◌++◌}
use mixi_pgw.Ctrlplane.Gtpc.{GtpPacket, GenericPacket, Piece, u16_at}
use mixi_pgw.Ctrlplane.Gtpc.Items.{ebi_set}
use mixi_pgw.Ctrlplane.Tunnel.{
  Processing, World, TunnelNode, delete_session, suspend_notify, resume_notify, read_request,
  lookup_tunnel, is_found, reply, after_query, piece, cause_piece, recovery_piece, accepted_cause,
  denied_cause, root_ebi, imsi_number,
}
use mixi_pgw.Ctrlplane.Tunnel.Options.{pco_pieces}

-- The SELECT by the teid of the header.
unfoldable pub find_by_teid : World → Processing → Processing
find_by_teid w cs = lookup_tunnel (w.find_teid cs.gtph_teid) cs

unfoldable pub delete_session_accepted : World → Processing → List Piece
delete_session_accepted w cs =
    cause_piece accepted_cause ∷ (pco_pieces cs.parse ++ (recovery_piece w ∷ []))

unfoldable pub delete_session_denied : World → Processing → List Piece
delete_session_denied w cs = cause_piece denied_cause ∷ recovery_piece w ∷ []

unfoldable pub delete_session_found :
    GtpPacket → World → Processing → TunnelNode → Bool × TunnelNode
delete_session_found rpckt w cs n =
    let denied = reply rpckt 37 (some (delete_session_denied w cs)) cs in
    if is_found cs
    then after_query w (delete_session cs.gtph_teid (root_ebi cs.parse))
        (reply rpckt 37 (some (delete_session_accepted w cs)) cs) denied n
    else denied n

unfoldable pub event_gtpc_delete_session_req :
    World → GenericPacket → TunnelNode → Bool × TunnelNode
event_gtpc_delete_session_req w pckt n = elim (read_request pckt) [
  | none ↦ (false, n)
  | some (rpckt, cs) ↦ delete_session_found rpckt w (find_by_teid w cs) n
]

unfoldable pub ebi_piece : Processing → Piece
ebi_piece cs = piece 73 (ebi_set 0 cs.tunnel.ebi)

unfoldable pub delete_bearer_accepted : Processing → List Piece
delete_bearer_accepted cs = cause_piece accepted_cause ∷ ebi_piece cs ∷ pco_pieces cs.parse

-- HAVE_PCO sends the item of the request back.
unfoldable pub delete_bearer_denied : World → Processing → List Piece
delete_bearer_denied w cs =
    cause_piece denied_cause
    ∷ ebi_piece cs
    ∷ recovery_piece w
    ∷ (if cs.parse.flag 19
        then record {
          type = 78;
          octets = cs.parse.stored 78;
          len = (u16_at (cs.parse.stored 78) 1 + 4) % 2 ^ 16;
        }
          ∷ []
        else [])

-- The types of the two responses differ: GTPC_DELETE_BEARER_RES and GTPC_DELETE_SESSION_RES.
unfoldable pub delete_bearer_found : GtpPacket → World → Processing → TunnelNode → Bool × TunnelNode
delete_bearer_found rpckt w cs n =
    let denied = reply rpckt 37 (some (delete_bearer_denied w cs)) cs in
    if is_found cs
    then after_query w (delete_session cs.gtph_teid (root_ebi cs.parse))
        (reply rpckt 100 (some (delete_bearer_accepted cs)) cs) denied n
    else denied n

unfoldable pub event_gtpc_delete_bearer_req : World → GenericPacket → TunnelNode → Bool × TunnelNode
event_gtpc_delete_bearer_req w pckt n = elim (read_request pckt) [
  | none ↦ (false, n)
  | some (rpckt, cs) ↦ delete_bearer_found rpckt w (find_by_teid w cs) n
]

-- The response of both notifications.
unfoldable pub notified : GtpPacket → ℕ → ℕ → Processing → TunnelNode → Bool × TunnelNode
notified rpckt type cause cs n = reply rpckt type (some (cause_piece cause ∷ [])) cs n

unfoldable pub suspend_found : GtpPacket → World → Processing → TunnelNode → Bool × TunnelNode
suspend_found rpckt w cs n =
    if is_found cs
    then after_query w (suspend_notify cs.gtph_teid) (notified rpckt 163 accepted_cause cs)
        (notified rpckt 163 denied_cause cs) n
    else notified rpckt 163 denied_cause cs n

unfoldable pub event_gtpc_suspend_notification_req :
    World → GenericPacket → TunnelNode → Bool × TunnelNode
event_gtpc_suspend_notification_req w pckt n = elim (read_request pckt) [
  | none ↦ (false, n)
  | some (rpckt, cs) ↦ suspend_found rpckt w (find_by_teid w cs) n
]

unfoldable pub resume_found : GtpPacket → World → Processing → TunnelNode → Bool × TunnelNode
resume_found rpckt w cs n =
    if is_found cs
    then after_query w (resume_notify (imsi_number w.is_erange cs.parse))
        (notified rpckt 165 accepted_cause cs) (notified rpckt 165 denied_cause cs) n
    else notified rpckt 165 denied_cause cs n

-- A notification without an IMSI is denied before the tunnel is looked up.
unfoldable pub event_gtpc_resume_notification_req :
    World → GenericPacket → TunnelNode → Bool × TunnelNode
event_gtpc_resume_notification_req w pckt n = elim (read_request pckt) [
  | none ↦ (false, n)
  | some (rpckt, cs) ↦
      if cs.parse.flag 25
      then resume_found rpckt w (find_by_teid w cs) n
      else notified rpckt 165 denied_cause cs n
]
