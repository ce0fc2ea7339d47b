-- ===== src/Ctrlplane/Tunnel/Removing.antt =====
-- ctrlplane/src/pgw/event: what the handlers of Delete Session, Delete Bearer, Suspend Notification
-- and Resume Notification answer.
use mixi_pgw.Prelude.{
  ℕ, ◌≤◌, ◌≡◌, refl, ◌∙◌, arith, false, ◌&&◌, if◌then◌else◌, some, List, [], ◌∷◌, ◌++◌,
}
use mixi_pgw.Ctrlplane.Gtpc.{is_echo, GtpPacket, GenericPacket, Piece}
use mixi_pgw.Ctrlplane.Tunnel.{
  Processing, World, TunnelNode, delete_session, read_request, cause_piece, recovery_piece,
  accepted_cause, denied_cause, root_ebi, no_tunnel,
}
use mixi_pgw.Ctrlplane.Tunnel.Options.{pco_pieces}
use mixi_pgw.Ctrlplane.Tunnel.Remove.{
  find_by_teid, delete_session_accepted, delete_session_denied, delete_session_found,
  event_gtpc_delete_session_req, ebi_piece, delete_bearer_accepted, delete_bearer_denied,
  delete_bearer_found, event_gtpc_delete_bearer_req,
}
use mixi_pgw.Ctrlplane.Tunnel.Sizes.{
  Fits, Fits-append, cause_piece-len, cause_piece-Leads, recovery_piece-len, ebi_set-len,
  pco_pieces-Fits,
}
use mixi_pgw.Ctrlplane.Tunnel.Causes.{IsResponded, IsAnswered-IsResponded}
use mixi_pgw.Ctrlplane.Tunnel.Answers.{
  IsAnswered, IsAnswered-type, is_any, last_row, handled, handled-IsAnswered_from,
  find_by_teid-IsLooked, read_request-IsFresh,
}

-- A smaller bound.
Fits-le : (a b : ℕ) (pieces : List Piece) → a ≤ b → Fits a pieces → Fits b pieces
Fits-le a b pieces le (all, sum) = (all, omega (arith, le, sum))

cause_only-Fits : (cause : ℕ) → Fits 6 (cause_piece cause ∷ [])
cause_only-Fits cause =
    ((omega (arith, cause_piece-len cause), tt), omega (arith, cause_piece-len cause))

recovery_only-Fits : (w : World) → Fits 5 (recovery_piece w ∷ [])
recovery_only-Fits w =
    ((omega (arith, recovery_piece-len w), tt), omega (arith, recovery_piece-len w))

delete_session_denied-Fits : (w : World) (cs : Processing) → Fits 1501 (delete_session_denied w cs)
unfolding delete_session_denied
delete_session_denied-Fits w cs = Fits-le 11 1501 (delete_session_denied w cs) (omega arith) (
    Fits-append 6 5 (cause_piece denied_cause ∷ []) (recovery_piece w ∷ [])
      (cause_only-Fits denied_cause) (recovery_only-Fits w))

delete_session_accepted-Fits :
    (w : World) (cs : Processing) → Fits 1501 (delete_session_accepted w cs)
unfolding delete_session_accepted
delete_session_accepted-Fits w cs = Fits-le 92 1501 (delete_session_accepted w cs) (omega arith) (
    Fits-append 6 86 (cause_piece accepted_cause ∷ [])
      (pco_pieces cs.parse ++ (recovery_piece w ∷ [])) (cause_only-Fits accepted_cause)
      (Fits-append 81 5 (pco_pieces cs.parse) (recovery_piece w ∷ []) (pco_pieces-Fits cs.parse)
        (recovery_only-Fits w)))

-- The UPDATE after the SELECT is that of the request.
delete_session-same :
    (w : World) (cs : Processing)
    → delete_session (find_by_teid w cs).gtph_teid (root_ebi (find_by_teid w cs).parse)
      ≡ delete_session cs.gtph_teid (root_ebi cs.parse)
delete_session-same w cs =
    let looked = find_by_teid-IsLooked w cs in rw (looked.same_teid, looked.same_stored) refl

event_gtpc_delete_session_req-IsAnswered :
    (w : World) (pckt : GenericPacket) (n : TunnelNode) (rpckt : GtpPacket) (cs : Processing)
    → read_request pckt ≡ some (rpckt, cs)
    → IsAnswered
        (event_gtpc_delete_session_req w pckt n)
        n
        37
        (last_row no_tunnel (w.find_teid cs.gtph_teid)).sgw_c_teid
        cs.gtph_seqno
        rpckt
        (if is_any (w.find_teid cs.gtph_teid)
          then delete_session cs.gtph_teid (root_ebi cs.parse) ∷ []
          else [])
        (if is_any (w.find_teid cs.gtph_teid)
            && w.is_done (delete_session cs.gtph_teid (root_ebi cs.parse))
          then delete_session_accepted w (find_by_teid w cs)
          else delete_session_denied w (find_by_teid w cs))
unfolding event_gtpc_delete_session_req delete_session_found handled is_echo
event_gtpc_delete_session_req-IsAnswered w pckt n rpckt cs e =
    let row = find_by_teid w cs in
    let looked = find_by_teid-IsLooked w cs in
    rw (e, event_gtpc_delete_session_req)
      (IsAnswered-type
        (is_any (w.find_teid cs.gtph_teid)
          && w.is_done (delete_session cs.gtph_teid (root_ebi cs.parse)))
        _ n 37 _ _ rpckt _ _
        (handled-IsAnswered_from w rpckt row n (delete_session row.gtph_teid (root_ebi row.parse))
          37 37 (delete_session_accepted w row) (delete_session_denied w row) refl refl
          (delete_session_accepted-Fits w row) (delete_session_denied-Fits w row)
          (w.find_teid cs.gtph_teid) cs (delete_session cs.gtph_teid (root_ebi cs.parse))
          (read_request-IsFresh pckt rpckt cs e) looked (delete_session-same w cs)))

-- A Delete Session Request that can be read makes one response, which goes to the end of the egress
-- queue, or is dropped and counted where 20480 packets stand there. It has type 37, the sequence
-- number of the request, the teid that the last row of the database has for the SGW (0 without a row)
-- and the request's addresses swapped; its first item is the cause, 16 where the database has a row
-- for the teid of the request and the UPDATE succeeds, and else 93, and the items are those of an accepted or of a
-- denied response with it. The UPDATE is made just where there is a row.
pub event_gtpc_delete_session_req-IsResponded :
    (w : World) (pckt : GenericPacket) (n : TunnelNode) (rpckt : GtpPacket) (cs : Processing)
    → read_request pckt ≡ some (rpckt, cs)
    → IsResponded
        (event_gtpc_delete_session_req w pckt n)
        n
        37
        (last_row no_tunnel (w.find_teid cs.gtph_teid)).sgw_c_teid
        cs.gtph_seqno
        rpckt
        (if is_any (w.find_teid cs.gtph_teid)
          then delete_session cs.gtph_teid (root_ebi cs.parse) ∷ []
          else [])
        (if is_any (w.find_teid cs.gtph_teid)
            && w.is_done (delete_session cs.gtph_teid (root_ebi cs.parse))
          then delete_session_accepted w (find_by_teid w cs)
          else delete_session_denied w (find_by_teid w cs))
        (if is_any (w.find_teid cs.gtph_teid)
            && w.is_done (delete_session cs.gtph_teid (root_ebi cs.parse))
          then 16
          else 93)
unfolding delete_session_accepted delete_session_denied
event_gtpc_delete_session_req-IsResponded w pckt n rpckt cs e =
    IsAnswered-IsResponded _ n 37 _ _ rpckt _
      (is_any (w.find_teid cs.gtph_teid)
        && w.is_done (delete_session cs.gtph_teid (root_ebi cs.parse)))
      (delete_session_accepted w (find_by_teid w cs)) (delete_session_denied w (find_by_teid w cs))
      (cause_piece-Leads 16 [] (omega arith)) (cause_piece-Leads 93 [] (omega arith))
      (event_gtpc_delete_session_req-IsAnswered w pckt n rpckt cs e)

ebi_only-Fits : (cs : Processing) → Fits 5 (ebi_piece cs ∷ [])
unfolding ebi_piece
ebi_only-Fits cs =
    ((omega (arith, ebi_set-len 0 cs.tunnel.ebi), tt), omega (arith, ebi_set-len 0 cs.tunnel.ebi))

delete_bearer_accepted-Fits : (cs : Processing) → Fits 1501 (delete_bearer_accepted cs)
unfolding delete_bearer_accepted
delete_bearer_accepted-Fits cs = Fits-le 92 1501 (delete_bearer_accepted cs) (omega arith) (
    Fits-append 6 86 (cause_piece accepted_cause ∷ []) (ebi_piece cs ∷ pco_pieces cs.parse)
      (cause_only-Fits accepted_cause)
      (Fits-append 5 81 (ebi_piece cs ∷ []) (pco_pieces cs.parse) (ebi_only-Fits cs)
        (pco_pieces-Fits cs.parse)))

delete_bearer_denied-Fits :
    (w : World) (cs : Processing) → cs.parse.flag 19 ≡ false → Fits 1501 (delete_bearer_denied w cs)
unfolding delete_bearer_denied
delete_bearer_denied-Fits w cs no_pco = rw no_pco (
    Fits-le 16 1501 (cause_piece denied_cause ∷ ebi_piece cs ∷ recovery_piece w ∷ []) (omega arith)
      (Fits-append 6 10 (cause_piece denied_cause ∷ []) (ebi_piece cs ∷ recovery_piece w ∷ [])
        (cause_only-Fits denied_cause)
        (Fits-append 5 5 (ebi_piece cs ∷ []) (recovery_piece w ∷ []) (ebi_only-Fits cs)
          (recovery_only-Fits w))))

event_gtpc_delete_bearer_req-IsAnswered :
    (w : World) (pckt : GenericPacket) (n : TunnelNode) (rpckt : GtpPacket) (cs : Processing)
    → read_request pckt ≡ some (rpckt, cs)
    → cs.parse.flag 19 ≡ false
    → IsAnswered
        (event_gtpc_delete_bearer_req w pckt n)
        n
        (if is_any (w.find_teid cs.gtph_teid)
            && w.is_done (delete_session cs.gtph_teid (root_ebi cs.parse))
          then 100
          else 37)
        (last_row no_tunnel (w.find_teid cs.gtph_teid)).sgw_c_teid
        cs.gtph_seqno
        rpckt
        (if is_any (w.find_teid cs.gtph_teid)
          then delete_session cs.gtph_teid (root_ebi cs.parse) ∷ []
          else [])
        (if is_any (w.find_teid cs.gtph_teid)
            && w.is_done (delete_session cs.gtph_teid (root_ebi cs.parse))
          then delete_bearer_accepted (find_by_teid w cs)
          else delete_bearer_denied w (find_by_teid w cs))
unfolding event_gtpc_delete_bearer_req delete_bearer_found handled is_echo
event_gtpc_delete_bearer_req-IsAnswered w pckt n rpckt cs e no_pco =
    let row = find_by_teid w cs in
    let looked = find_by_teid-IsLooked w cs in
    rw (e, event_gtpc_delete_bearer_req)
      (handled-IsAnswered_from w rpckt row n (delete_session row.gtph_teid (root_ebi row.parse)) 100
        37 (delete_bearer_accepted row) (delete_bearer_denied w row) refl refl
        (delete_bearer_accepted-Fits row)
        (delete_bearer_denied-Fits w row (looked.same_flags 19 (omega arith) ∙ no_pco))
        (w.find_teid cs.gtph_teid) cs (delete_session cs.gtph_teid (root_ebi cs.parse))
        (read_request-IsFresh pckt rpckt cs e) looked (delete_session-same w cs))

-- A Delete Bearer Request that can be read and has no PCO item makes one response, which goes to the
-- end of the egress queue, or is dropped and counted where 20480 packets stand there. Where the
-- database has a row for its teid and the UPDATE succeeds, the response has type 100 (Delete Bearer)
-- and the cause 16 first, and else type 37, which is that of Delete Session, and the cause 93.
pub event_gtpc_delete_bearer_req-IsResponded :
    (w : World) (pckt : GenericPacket) (n : TunnelNode) (rpckt : GtpPacket) (cs : Processing)
    → read_request pckt ≡ some (rpckt, cs)
    → cs.parse.flag 19 ≡ false
    → IsResponded
        (event_gtpc_delete_bearer_req w pckt n)
        n
        (if is_any (w.find_teid cs.gtph_teid)
            && w.is_done (delete_session cs.gtph_teid (root_ebi cs.parse))
          then 100
          else 37)
        (last_row no_tunnel (w.find_teid cs.gtph_teid)).sgw_c_teid
        cs.gtph_seqno
        rpckt
        (if is_any (w.find_teid cs.gtph_teid)
          then delete_session cs.gtph_teid (root_ebi cs.parse) ∷ []
          else [])
        (if is_any (w.find_teid cs.gtph_teid)
            && w.is_done (delete_session cs.gtph_teid (root_ebi cs.parse))
          then delete_bearer_accepted (find_by_teid w cs)
          else delete_bearer_denied w (find_by_teid w cs))
        (if is_any (w.find_teid cs.gtph_teid)
            && w.is_done (delete_session cs.gtph_teid (root_ebi cs.parse))
          then 16
          else 93)
unfolding delete_bearer_accepted delete_bearer_denied
event_gtpc_delete_bearer_req-IsResponded w pckt n rpckt cs e no_pco =
    IsAnswered-IsResponded _ n _ _ _ rpckt _
      (is_any (w.find_teid cs.gtph_teid)
        && w.is_done (delete_session cs.gtph_teid (root_ebi cs.parse)))
      (delete_bearer_accepted (find_by_teid w cs)) (delete_bearer_denied w (find_by_teid w cs))
      (cause_piece-Leads 16 [] (omega arith)) (cause_piece-Leads 93 [] (omega arith))
      (event_gtpc_delete_bearer_req-IsAnswered w pckt n rpckt cs e no_pco)
