-- ===== src/Ctrlplane/Tunnel/Created.antt =====
-- ctrlplane/src/pgw/event/event_gtpc_create_session.c: what a Create Session Request
-- that can be read is answered where the address of its tunnel is free or no PDN is asked for.
use mixi_pgw.Prelude.{
  ℕ, ◌≡◌, refl, ◌∙◌, arith, Bool, true, false, not, ◌&&◌, ◌==◌, if◌then◌else◌, Option, some, List,
  [], ◌∷◌, Bool-cases, inl, inr,
}
use mathlib.Core.List.{append-nil}
use mixi_pgw.Ctrlplane.Gtpc.{is_echo, GtpPacket, GenericPacket, Piece}
use mixi_pgw.Ctrlplane.Tunnel.{
  Tunnel, Processing, World, TunnelNode, Update, pgwip, imsi_msisdn, create_session, read_request,
  lookup_tunnel, is_found, after_query, prefixed, c_teid, u_teid, c_blk, u_blk, bearer_ebi,
  restart_counter, imsi_number, msisdn_number, erange_after_msisdn,
}
use mixi_pgw.Ctrlplane.Tunnel.Create.{
  included_all, create_session_accepted, create_session_denied, create_reply, create_saved,
  create_found, create_bound, create_included, on_create_session,
}
use mixi_pgw.Ctrlplane.Tunnel.Sizes.{Fits}
use mixi_pgw.Ctrlplane.Tunnel.Responses.{respond-replies}
use mixi_pgw.Ctrlplane.Tunnel.Causes.{IsResponded, IsAnswered-IsResponded}
use mixi_pgw.Ctrlplane.Tunnel.Answers.{
  IsAnswered, IsFresh, is_any, lookup_tunnel-IsLooked, read_request-IsFresh,
}
use mixi_pgw.Ctrlplane.Tunnel.Creating.{
  attempts, all_done, HasAddress, create_session_denied-Fits, create_session_accepted-FitsOption,
  FitsOption-some, after_query-IsAnswered,
}

-- The numbers of the request, the MSISDN read first.
abbrev pub request_msisdn : World → Processing → ℕ
request_msisdn w cs = msisdn_number w.is_erange cs.parse

abbrev pub request_imsi : World → Processing → ℕ
request_imsi w cs = imsi_number (erange_after_msisdn w.is_erange cs.parse) cs.parse

-- The rows of the request: those of its IMSI, or of its MSISDN where the IMSI has none.
abbrev pub request_rows : World → Processing → List Tunnel
request_rows w cs =
    if is_any (w.find_imsi (request_imsi w cs))
    then w.find_imsi (request_imsi w cs)
    else w.find_msisdn (request_msisdn w cs)

-- The IMSI of the tunnel, and its row with the EBI of the request.
abbrev pub tunnel_imsi : World → Processing → ℕ
tunnel_imsi w cs =
    if is_any (w.find_imsi (request_imsi w cs))
    then request_imsi w cs
    else (lookup_tunnel (request_rows w cs) cs).tunnel.imsi_num

abbrev pub chosen : World → Processing → Processing
chosen w cs = prefixed (lookup_tunnel (request_rows w cs) cs)

abbrev pub saving : ℕ → Processing → Update
saving imsi_num row =
    create_session (c_teid row.parse) (c_blk row.parse) (u_teid row.parse) (u_blk row.parse)
      (row.parse.stored 301 5) (bearer_ebi row.parse) row.tunnel.pgw_teid
      (restart_counter row.parse) imsi_num

-- The UPDATEs of a request, in their order.
abbrev pub saving_steps : World → Processing → List Update
saving_steps w cs =
    if is_any (request_rows w cs) then saving (tunnel_imsi w cs) (chosen w cs) ∷ [] else []

abbrev pub binding_steps : World → Processing → List Update
binding_steps w cs =
    if not (request_imsi w cs == 0) && not (request_msisdn w cs == 0)
    then imsi_msisdn (request_msisdn w cs) (request_imsi w cs) ∷ saving_steps w cs
    else saving_steps w cs

abbrev pub create_steps : World → Processing → List Update
create_steps w cs =
    if w.is_bound then pgwip (request_imsi w cs) ∷ binding_steps w cs else binding_steps w cs

no_rows : (rows : List Tunnel) → is_any rows ≡ false → rows ≡ []
no_rows [] e = refl
no_rows (rec ∷ rest) e = cc

module _ (w : World) (rpckt : GtpPacket) (cs : Processing) (fresh : IsFresh cs)
    (accepted denied : List Piece) (fits_a : Fits 1501 accepted) (fits_d : Fits 1501 denied)
    (ea : create_session_accepted w (chosen w cs) ≡ some accepted)
    (ed : create_session_denied ≡ some denied) where
  -- A reply on a state that holds what the request stored.
  create_reply-IsAnswered :
      (o : Option (List Piece)) (pieces : List Piece) (row : Processing) (n : TunnelNode)
      → o ≡ some pieces
      → Fits 1501 pieces
      → row.parse.stored ≡ cs.parse.stored
      → row.gtph_seqno ≡ cs.gtph_seqno
      → IsAnswered (create_reply rpckt o row n) n 33 (c_teid cs.parse) cs.gtph_seqno rpckt [] pieces
  unfolding create_reply is_echo
  create_reply-IsAnswered o pieces row n e (all, le) stored seqno =
      let (r, sent, is) =
        respond-replies rpckt 33 pieces (c_teid cs.parse) cs.gtph_seqno n refl all
          (omega (arith, le)) in
      record { response = r; sent = rw (e, stored, seqno, append-nil) sent; is_reply = is }

  denied-IsAnswered :
      (row : Processing) (n : TunnelNode)
      → row.parse.stored ≡ cs.parse.stored
      → row.gtph_seqno ≡ cs.gtph_seqno
      → IsAnswered
          (create_reply rpckt create_session_denied row n)
          n
          33
          (c_teid cs.parse)
          cs.gtph_seqno
          rpckt
          []
          denied
  denied-IsAnswered row n stored seqno =
      create_reply-IsAnswered create_session_denied denied row n ed fits_d stored seqno

  saved-IsAnswered :
      (n : TunnelNode)
      → IsAnswered
          (create_saved rpckt w (tunnel_imsi w cs) (chosen w cs) n)
          n
          33
          (c_teid cs.parse)
          cs.gtph_seqno
          rpckt
          (attempts w (saving (tunnel_imsi w cs) (chosen w cs) ∷ []))
          (if true && all_done w (saving (tunnel_imsi w cs) (chosen w cs) ∷ [])
            then accepted
            else denied)
  unfolding create_saved prefixed
  saved-IsAnswered n =
      let looked = lookup_tunnel-IsLooked (request_rows w cs) cs in
      after_query-IsAnswered w rpckt (c_teid cs.parse) cs.gtph_seqno
        (saving (tunnel_imsi w cs) (chosen w cs)) [] true accepted denied _ _ n
        (λ m.
          create_reply-IsAnswered (create_session_accepted w (chosen w cs)) accepted (chosen w cs) m
            ea fits_a looked.same_stored looked.same_seqno)
        (λ m. denied-IsAnswered (chosen w cs) m looked.same_stored looked.same_seqno)

  found-IsAnswered :
      (n : TunnelNode)
      → IsAnswered
          (create_found rpckt w (request_imsi w cs) (request_msisdn w cs) cs n)
          n
          33
          (c_teid cs.parse)
          cs.gtph_seqno
          rpckt
          (attempts w (saving_steps w cs))
          (if is_any (request_rows w cs) && all_done w (saving_steps w cs)
            then accepted
            else denied)
  unfolding create_found lookup_tunnel
  found-IsAnswered n = elim (Bool-cases (is_any (w.find_imsi (request_imsi w cs)))) [
    | inl f ↦
        let looked = lookup_tunnel-IsLooked (w.find_imsi (request_imsi w cs)) cs in
        let found : is_found (lookup_tunnel (w.find_imsi (request_imsi w cs)) cs) ≡ true =
          looked.found ∙ rw f refl in
        rw (found, f, f, create_found) (rw f at (saved-IsAnswered n))
    | inr f ↦
        let none_found = no_rows (w.find_imsi (request_imsi w cs)) f in
        let looked = lookup_tunnel-IsLooked (w.find_msisdn (request_msisdn w cs)) cs in
        elim (Bool-cases (is_any (w.find_msisdn (request_msisdn w cs)))) [
          | inl g ↦
              let found : is_found (lookup_tunnel (w.find_msisdn (request_msisdn w cs)) cs) ≡ true =
                looked.found ∙ rw g refl in
              rw (none_found, fresh.unforged, found, g, create_found)
                (rw none_found at (saved-IsAnswered n))
          | inr g ↦
              let found : is_found (lookup_tunnel (w.find_msisdn (request_msisdn w cs)) cs)
                  ≡ false =
                looked.found ∙ rw (g, fresh.unforged) refl in
              rw (none_found, fresh.unforged, found, g, create_found)
                (denied-IsAnswered (lookup_tunnel (w.find_msisdn (request_msisdn w cs)) cs) n
                  looked.same_stored looked.same_seqno)
        ]
  ]

  bound-IsAnswered :
      (n : TunnelNode)
      → IsAnswered
          (create_bound rpckt w (request_imsi w cs) (request_msisdn w cs) cs n)
          n
          33
          (c_teid cs.parse)
          cs.gtph_seqno
          rpckt
          (attempts w (binding_steps w cs))
          (if is_any (request_rows w cs) && all_done w (binding_steps w cs)
            then accepted
            else denied)
  unfolding create_bound
  bound-IsAnswered n = bound_at (not (request_imsi w cs == 0) && not (request_msisdn w cs == 0))
    where
      bind : Update
      bind = imsi_msisdn (request_msisdn w cs) (request_imsi w cs)

      bound_at :
          (b : Bool)
          → IsAnswered
              (if b
                then after_query w bind
                    (create_found rpckt w (request_imsi w cs) (request_msisdn w cs) cs)
                    (create_reply rpckt create_session_denied cs)
                    n
                else create_found rpckt w (request_imsi w cs) (request_msisdn w cs) cs n)
              n
              33
              (c_teid cs.parse)
              cs.gtph_seqno
              rpckt
              (attempts w (if b then bind ∷ saving_steps w cs else saving_steps w cs))
              (if is_any (request_rows w cs)
                  && all_done w (if b then bind ∷ saving_steps w cs else saving_steps w cs)
                then accepted
                else denied)
      bound_at false = found-IsAnswered n
      bound_at true =
          after_query-IsAnswered w rpckt (c_teid cs.parse) cs.gtph_seqno bind (saving_steps w cs)
            (is_any (request_rows w cs)) accepted denied _ _ n found-IsAnswered
            (λ m. denied-IsAnswered cs m refl refl)

  included-IsAnswered :
      (n : TunnelNode)
      → IsAnswered
          (create_included rpckt w cs n)
          n
          33
          (c_teid cs.parse)
          cs.gtph_seqno
          rpckt
          (attempts w (create_steps w cs))
          (if is_any (request_rows w cs) && all_done w (create_steps w cs)
            then accepted
            else denied)
  unfolding create_included
  included-IsAnswered n = included_at w.is_bound
    where
      included_at :
          (b : Bool)
          → IsAnswered
              (if b
                then after_query w
                    (pgwip (request_imsi w cs))
                    (create_bound rpckt w (request_imsi w cs) (request_msisdn w cs) cs)
                    (create_reply rpckt create_session_denied cs)
                    n
                else create_bound rpckt w (request_imsi w cs) (request_msisdn w cs) cs n)
              n
              33
              (c_teid cs.parse)
              cs.gtph_seqno
              rpckt
              (attempts w
                (if b then pgwip (request_imsi w cs) ∷ binding_steps w cs else binding_steps w cs))
              (if is_any (request_rows w cs)
                  && all_done w (
                      if b
                      then pgwip (request_imsi w cs) ∷ binding_steps w cs
                      else binding_steps w cs)
                then accepted
                else denied)
      included_at false = bound-IsAnswered n
      included_at true =
          after_query-IsAnswered w rpckt (c_teid cs.parse) cs.gtph_seqno (pgwip (request_imsi w cs))
            (binding_steps w cs) (is_any (request_rows w cs)) accepted denied _ _ n bound-IsAnswered
            (λ m. denied-IsAnswered cs m refl refl)

-- A Create Session Request that can be read makes one response, if the address of its tunnel is
-- free or no PDN is asked for. It goes to the end of the egress queue, or is dropped and counted where
-- 20480 packets stand there; it has type 33, the teid of the request's F-TEID and its sequence number. A request
-- without all required items changes nothing in the database and is denied. Else the UPDATEs are made in their order up to the first
-- that fails (the address of the PGW where it is bound, the MSISDN where there is one and an IMSI, then
-- the tunnel where a row is found), and the response is accepted just where a row is found and
-- all of them succeed. The first item of the response is the cause, 16 where it is accepted and else 93.
pub on_create_session-IsResponded :
    (w : World) (pckt : GenericPacket) (n : TunnelNode) (rpckt : GtpPacket) (cs : Processing)
    → read_request pckt ≡ some (rpckt, cs)
    → HasAddress (chosen w cs)
    → (accepted : List Piece) × (denied : List Piece) × (create_session_accepted w (chosen w cs)
        ≡ some accepted)
      × (create_session_denied ≡ some denied)
      × IsResponded
          (on_create_session w pckt n)
          n
          33
          (c_teid cs.parse)
          cs.gtph_seqno
          rpckt
          (if included_all cs.parse then attempts w (create_steps w cs) else [])
          (if included_all cs.parse
              && (is_any (request_rows w cs) && all_done w (create_steps w cs))
            then accepted
            else denied)
          (if included_all cs.parse
              && (is_any (request_rows w cs) && all_done w (create_steps w cs))
            then 16
            else 93)
unfolding on_create_session
on_create_session-IsResponded w pckt n rpckt cs e address =
    let (accepted, ea, fits_a, leads_a) =
      FitsOption-some (create_session_accepted w (chosen w cs))
        (create_session_accepted-FitsOption w (chosen w cs) address) in
    let (denied, ed, (all_d, le_d), leads_d) = create_session_denied-Fits in
    let fresh = read_request-IsFresh pckt rpckt cs e in
    let fits_d : Fits 1501 denied = (all_d, omega (arith, le_d)) in
    (
      accepted,
      denied,
      ea,
      ed,
      IsAnswered-IsResponded _ n 33 _ _ rpckt _
          (included_all cs.parse && (is_any (request_rows w cs) && all_done w (create_steps w cs)))
          accepted denied leads_a leads_d
          (rw (e, on_create_session)
            (elim (Bool-cases (included_all cs.parse)) [
              | inl f ↦
                  rw f (included-IsAnswered w rpckt cs fresh accepted denied fits_a fits_d ea ed n)
              | inr f ↦ rw f (
                  denied-IsAnswered w rpckt cs fresh accepted denied fits_a fits_d ea ed cs n refl
                    refl)
            ])),
    )
