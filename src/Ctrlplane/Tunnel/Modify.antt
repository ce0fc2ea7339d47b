-- ===== src/Ctrlplane/Tunnel/Modify.antt =====
-- ctrlplane/src/pgw/event/event_gtpc_modify_bearer.c
use mixi_pgw.Prelude.{
  ℕ, Bool, false, not, ◌&&◌, ◌==◌, if◌then◌else◌, Option, none, some, List, [], ◌∷◌, ◌++◌,
}
use mixi_pgw.Ctrlplane.Gtpc.{GtpPacket, GenericPacket, Piece}
use mixi_pgw.Ctrlplane.Gtpc.Items.{
  cause_set, msisdn_set, ebi_set, charging_id_set, apn_restriction_set,
}
use mixi_pgw.Ctrlplane.Gtpc.State.{ParseState}
use mixi_pgw.Ctrlplane.Gtpc.Bearer.{bearer_ctx_set, add_children}
use mixi_pgw.Ctrlplane.Tunnel.{
  Processing, World, TunnelNode, modify_bearer, rat_only, modify_ebi, read_request, lookup_tunnel,
  is_found, reply, after_query, piece, cause_piece, recovery_piece, bearer_piece, private_piece,
  accepted_cause, denied_cause, bearer_ebi, restart_counter, prefixed, c_teid, u_teid, c_blk, u_blk,
  ◌>>=◌,
}
use mixi_pgw.Ctrlplane.Tunnel.Options.{pco_pieces}

-- Both F-TEIDs are there.
unfoldable pub has_teids : ParseState → Bool
has_teids cs = not (c_teid cs == 0) && not (u_teid cs == 0)

-- HAVE_RAT with rat.rat_type
unfoldable pub rat_type : ParseState → Option ℕ
rat_type cs = if cs.flag 11 then some (cs.stored 82 4) else none

-- The items of _accept; none where the MSISDN of the tunnel is too long for its item.
unfoldable pub modify_bearer_accepted : World → Processing → Option (List Piece)
modify_bearer_accepted w cs = do
  msisdn ← msisdn_set cs.tunnel.msisdn_num
  bctx ← add_children bearer_ctx_set (
      cause_set accepted_cause
      ∷ ebi_set 0 (bearer_ebi cs.parse)
      ∷ charging_id_set cs.tunnel.pgw_teid
      ∷ [])
  some (
      cause_piece accepted_cause
      ∷ piece 76 msisdn
      ∷ piece 73 (ebi_set 0 5)
      ∷ piece 127 (apn_restriction_set 0)
      ∷ (pco_pieces cs.parse
          ++ (bearer_piece bctx
              ∷ recovery_piece w
              ∷ (if has_teids cs.parse then private_piece cs ∷ [] else []))))

unfoldable pub modify_denied : GtpPacket → Processing → TunnelNode → Bool × TunnelNode
modify_denied rpckt cs n = reply rpckt 35 (some (cause_piece denied_cause ∷ [])) cs n

-- HAVE_EBI_B: the EBI of the bearer is saved, and then the response is accepted.
unfoldable pub modify_saved : GtpPacket → World → Processing → TunnelNode → Bool × TunnelNode
modify_saved rpckt w cs n =
    let accept = reply rpckt 35 (modify_bearer_accepted w cs) cs in
    if cs.parse.flag 14
    then after_query w (modify_ebi (bearer_ebi cs.parse) cs.tunnel.imsi_num) accept
        (modify_denied rpckt cs) n
    else accept n

-- With both F-TEIDs the tunnel is moved to them; else only a RAT is saved.
unfoldable pub modify_tunnel : GtpPacket → World → Processing → TunnelNode → Bool × TunnelNode
modify_tunnel rpckt w cs n =
    if has_teids cs.parse
    then after_query w
        (modify_bearer (c_teid cs.parse) (c_blk cs.parse) (u_teid cs.parse) (u_blk cs.parse)
          cs.tunnel.pgw_teid (rat_type cs.parse) (restart_counter cs.parse) cs.tunnel.imsi_num)
        (modify_saved rpckt w
          (record cs { tunnel = record cs.tunnel { sgw_c_teid = c_teid cs.parse } }))
        (modify_denied rpckt cs) n
    else elim (rat_type cs.parse) [
      | none ↦ modify_saved rpckt w cs n
      | some rat ↦
          after_query w (rat_only rat (restart_counter cs.parse) cs.tunnel.imsi_num)
            (modify_saved rpckt w cs) (modify_denied rpckt cs) n
    ]

unfoldable pub modify_found : GtpPacket → World → Processing → TunnelNode → Bool × TunnelNode
modify_found rpckt w cs n =
    if is_found cs then modify_tunnel rpckt w (prefixed cs) n else modify_denied rpckt cs n

unfoldable pub on_modify_bearer : World → GenericPacket → TunnelNode → Bool × TunnelNode
on_modify_bearer w pckt n = elim (read_request pckt) [
  | none ↦ (false, n)
  | some (rpckt, cs) ↦ modify_found rpckt w (lookup_tunnel (w.find_teid cs.gtph_teid) cs) n
]
