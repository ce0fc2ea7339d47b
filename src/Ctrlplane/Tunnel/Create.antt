-- ===== src/Ctrlplane/Tunnel/Create.antt =====
-- ctrlplane/src/pgw/event/event_gtpc_create_session.c
use mixi_pgw.Prelude.{
  ℕ, suc, ◌+◌, ◌*◌, ◌%◌, Bool, false, not, ◌&&◌, ◌==◌, if◌then◌else◌, Option, none, some, List, [],
  ◌∷◌, ◌++◌, get_or,
}
use mixi_pgw.Ctrlplane.Gtpc.{GtpPacket, GenericPacket, Piece}
use mixi_pgw.Ctrlplane.Gtpc.Items.{
  prefix, cause_set, f_teid_set, paa_set, ebi_set, charging_id_set, apn_restriction_set, ambr_set,
}
use mixi_pgw.Ctrlplane.Gtpc.State.{ParseState}
use mixi_pgw.Ctrlplane.Gtpc.Bearer.{bearer_ctx_set, add_children}
use mixi_pgw.Ctrlplane.Tunnel.{
  Processing, World, TunnelNode, pgwip, imsi_msisdn, create_session, read_request, lookup_tunnel,
  is_found, respond, after_query, piece, cause_piece, recovery_piece, bearer_piece, private_piece,
  accepted_cause, denied_cause, bearer_ebi, restart_counter, be32_at, prefixed, c_teid, u_teid,
  c_blk, u_blk, ◌>>=◌, pdn_type, imsi_number, msisdn_number, erange_after_msisdn,
}
use mixi_pgw.Ctrlplane.Tunnel.Options.{pco_pieces}

-- INCLUDED_ALL
unfoldable pub included_all : ParseState → Bool
included_all cs = cs.flag 31 && cs.flag 30 && cs.flag 29 && cs.flag 13 && cs.flag 27

-- The address of the UE in the network 10.0.0.0/8.
abbrev ueipv : List ℕ → List ℕ
ueipv ue_ipv = 10 ∷ prefix 3 (λ i. get_or ue_ipv (suc i) 0)

-- 2401:f100:XY00::/40
abbrev ipv6_address : World → List ℕ → List ℕ
ipv6_address w ue_ipv =
    0x40
    ∷ 0x24
    ∷ 0x01
    ∷ 0xf1
    ∷ 0x00
    ∷ (w.ext_set_num % 16 * 16 + w.pgw_unit_num % 16)
    ∷ (prefix 3 (λ i. get_or ue_ipv (suc i) 0) ++ (0 ∷ 0 ∷ 0 ∷ 0 ∷ 0 ∷ 0 ∷ 0 ∷ 1 ∷ []))

-- With a PDN item the address of its type, and ERR for a tunnel whose address has a first octet;
-- without one, ueipv is still 0.
unfoldable pub paa_of : World → Processing → Option (List ℕ)
paa_of w cs =
    if cs.parse.flag 12
    then (if not (get_or cs.tunnel.ue_ipv 0 0 == 0)
        then none
        else if pdn_type cs.parse == 2
        then paa_set 2 (ipv6_address w cs.tunnel.ue_ipv) 17
        else paa_set 1 (ueipv cs.tunnel.ue_ipv) 4)
    else paa_set 1 (0 ∷ 0 ∷ 0 ∷ 0 ∷ []) 4

-- The items of _accept.
unfoldable pub create_session_accepted : World → Processing → Option (List Piece)
create_session_accepted w cs = do
  pgw_c_fteid ← f_teid_set 1 7 cs.tunnel.pgw_teid (some cs.tunnel.pgw_c_ipv) none
  paa_ue ← paa_of w cs
  pgw_u_fteid ← f_teid_set 2 5 cs.tunnel.pgw_teid (some cs.tunnel.pgw_u_ipv) none
  bctx ← add_children bearer_ctx_set (
      cause_set accepted_cause
      ∷ ebi_set 0 (bearer_ebi cs.parse)
      ∷ pgw_u_fteid
      ∷ charging_id_set cs.tunnel.pgw_teid
      ∷ [])
  some (
      cause_piece accepted_cause
      ∷ piece 87 pgw_c_fteid
      ∷ piece 79 paa_ue
      ∷ piece 127 (apn_restriction_set 0)
      ∷ piece 72 (ambr_set (be32_at (cs.parse.stored 72) 4) (be32_at (cs.parse.stored 72) 8))
      ∷ (pco_pieces cs.parse ++ (bearer_piece bctx ∷ recovery_piece w ∷ private_piece cs ∷ [])))

-- The items of _denied.
unfoldable pub create_session_denied : Option (List Piece)
create_session_denied = do
  bctx ← add_children bearer_ctx_set (cause_set denied_cause ∷ ebi_set 0 0 ∷ [])
  some (cause_piece denied_cause ∷ bearer_piece bctx ∷ [])

-- The response goes to the teid of the request's F-TEID.
unfoldable pub create_reply :
    GtpPacket → Option (List Piece) → Processing → TunnelNode → Bool × TunnelNode
create_reply rpckt pieces cs n = respond rpckt 33 pieces (c_teid cs.parse) cs.gtph_seqno n

-- The tunnel is saved under the IMSI.
unfoldable pub create_saved : GtpPacket → World → ℕ → Processing → TunnelNode → Bool × TunnelNode
create_saved rpckt w imsi_num cs n =
    after_query w
      (create_session (c_teid cs.parse) (c_blk cs.parse) (u_teid cs.parse) (u_blk cs.parse)
        (cs.parse.stored 301 5) (bearer_ebi cs.parse) cs.tunnel.pgw_teid (restart_counter cs.parse)
        imsi_num)
      (create_reply rpckt (create_session_accepted w cs) cs)
      (create_reply rpckt create_session_denied cs) n

-- The tunnel of the IMSI, or else that of the MSISDN, whose IMSI it is then.
unfoldable pub create_found :
    GtpPacket → World → ℕ → ℕ → Processing → TunnelNode → Bool × TunnelNode
create_found rpckt w imsi_num msisdn_num cs n =
    let by_imsi = lookup_tunnel (w.find_imsi imsi_num) cs in
    let by_msisdn = lookup_tunnel (w.find_msisdn msisdn_num) by_imsi in
    if is_found by_imsi
    then create_saved rpckt w imsi_num (prefixed by_imsi) n
    else if is_found by_msisdn
    then create_saved rpckt w by_msisdn.tunnel.imsi_num (prefixed by_msisdn) n
    else create_reply rpckt create_session_denied by_msisdn n

-- The MSISDN of the request goes to its IMSI.
unfoldable pub create_bound :
    GtpPacket → World → ℕ → ℕ → Processing → TunnelNode → Bool × TunnelNode
create_bound rpckt w imsi_num msisdn_num cs n =
    let found = create_found rpckt w imsi_num msisdn_num cs in
    if not (imsi_num == 0) && not (msisdn_num == 0)
    then after_query w (imsi_msisdn msisdn_num imsi_num) found
        (create_reply rpckt create_session_denied cs) n
    else found n

unfoldable pub create_included : GtpPacket → World → Processing → TunnelNode → Bool × TunnelNode
create_included rpckt w cs n =
    let imsi_num = imsi_number (erange_after_msisdn w.is_erange cs.parse) cs.parse in
    let bound = create_bound rpckt w imsi_num (msisdn_number w.is_erange cs.parse) cs in
    if w.is_bound
    then after_query w (pgwip imsi_num) bound (create_reply rpckt create_session_denied cs) n
    else bound n

unfoldable pub on_create_session : World → GenericPacket → TunnelNode → Bool × TunnelNode
on_create_session w pckt n = elim (read_request pckt) [
  | none ↦ (false, n)
  | some (rpckt, cs) ↦
      if included_all cs.parse
      then create_included rpckt w cs n
      else create_reply rpckt create_session_denied cs n
]
