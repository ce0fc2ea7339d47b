-- ===== src/Ctrlplane/Tunnel/Answers.antt =====
-- ctrlplane/src/pgw/event: what the handlers of Delete Session, Delete Bearer, Suspend Notification
-- and Resume Notification answer.
use mixi_pgw.Prelude.{
  ℕ, ◌<◌, ◌≡◌, refl, sym, ◌∙◌, ap, arith, Bool, true, false, ◌&&◌, ◌||◌, if◌then◌else◌, Option,
  none, some, ◌⊎◌, ◌%◌, ◌^◌, List, [], ◌∷◌, ◌++◌, Bool-cases, inl, inr,
}
use mathlib.Core.List.{append-nil}
use mathlib.Core.Path.{subst}
use mixi_pgw.Ctrlplane.Gtpc.{
  GtpPacket, GenericPacket, Piece, is_echo, Made, made, failed, alloc_packet_from_payload,
}
use mixi_pgw.Ctrlplane.Gtpc.State.{set_flag}
use mixi_pgw.Ctrlplane.Gtpc.Unforged.{IsUnforged, iterate_item-IsUnforged}
use mixi_pgw.Ctrlplane.Node.{enq}
use mixi_pgw.Ctrlplane.Tunnel.{
  Tunnel, Processing, World, TunnelNode, Update, read_request, lookup_tunnel, on_tunnel_record,
  is_found, reply, after_query, query, no_tunnel, new_state,
}
use mixi_pgw.Ctrlplane.Tunnel.Remove.{find_by_teid}
use mixi_pgw.Ctrlplane.Tunnel.Responses.{IsReply, respond-replies}
use mixi_pgw.Ctrlplane.Tunnel.Sizes.{Fits}

-- Whether a SELECT has an answer, and its last row.
abbrev pub is_any : List Tunnel → Bool
is_any [] = false
is_any (rec ∷ rest) = true

abbrev pub last_row : Tunnel → List Tunnel → Tunnel
last_row before [] = before
last_row before (rec ∷ rest) = last_row rec rest

-- OK, with a response given to `enq` and the updates made.
pub record IsAnswered (result : Bool × TunnelNode) (n : TunnelNode) (type teid seqno : ℕ)
    (rpckt : GtpPacket) (updates : List Update) (pieces : List Piece) : Type 0 where
  pub response : GenericPacket
  pub sent :
      result ≡ (true, record n { egress = enq n.egress response; updates = n.updates ++ updates })
  pub is_reply : IsReply type teid seqno rpckt pieces response

Made-cases :
    (m : Made) → ((left : Option GtpPacket) × (m ≡ failed left)) ⊎ ((p : GtpPacket) × (m ≡ made p))
Made-cases (made p) = inr (p, refl)
Made-cases (failed left) = inl (left, refl)

-- Two types that are one.
pub IsAnswered-type :
    (b : Bool) (result : Bool × TunnelNode) (n : TunnelNode) (type teid seqno : ℕ)
    (rpckt : GtpPacket) (updates : List Update) (pieces : List Piece)
    → IsAnswered result n (if b then type else type) teid seqno rpckt updates pieces
    → IsAnswered result n type teid seqno rpckt updates pieces
IsAnswered-type true result n type teid seqno rpckt updates pieces h = h
IsAnswered-type false result n type teid seqno rpckt updates pieces h = h

-- What a request is read as.
pub record IsFresh (cs : Processing) : Type 0 where
  pub unforged : IsUnforged cs.parse
  pub no_row : cs.tunnel ≡ no_tunnel

abbrev IsFreshOption : Option (GtpPacket × Processing) → Type 0
IsFreshOption none = true ≡ true
IsFreshOption (some request) = IsFresh request.1

read_request-IsFreshOption : (pckt : GenericPacket) → IsFreshOption (read_request pckt)
unfolding read_request
read_request-IsFreshOption pckt = elim (Made-cases made_packet) [
  | inl (left, e) ↦ rw (e, read_request, IsFreshOption) refl
  | inr (parsed, e) ↦
      rw (e, read_request, IsFreshOption)
        (record { unforged = iterate_item-IsUnforged parsed new_state refl; no_row = refl })
]
  where
    made_packet : Made
    made_packet = alloc_packet_from_payload pckt.payload (pckt.datalen % 2 ^ 16)

pub read_request-IsFresh :
    (pckt : GenericPacket) (rpckt : GtpPacket) (cs : Processing)
    → read_request pckt ≡ some (rpckt, cs)
    → IsFresh cs
read_request-IsFresh pckt rpckt cs e = subst IsFreshOption e (read_request-IsFreshOption pckt)

-- What a SELECT does to the state.
pub record IsLooked (rows : List Tunnel) (cs after : Processing) : Type 0 where
  pub found : is_found after ≡ (is_any rows || is_found cs)
  pub row : after.tunnel ≡ last_row cs.tunnel rows
  pub same_teid : after.gtph_teid ≡ cs.gtph_teid
  pub same_seqno : after.gtph_seqno ≡ cs.gtph_seqno
  pub same_stored : after.parse.stored ≡ cs.parse.stored
  pub same_flags : (bit : ℕ) → bit < 26 → after.parse.flag bit ≡ cs.parse.flag bit

pub lookup_tunnel-IsLooked :
    (rows : List Tunnel) (cs : Processing) → IsLooked rows cs (lookup_tunnel rows cs)
unfolding lookup_tunnel on_tunnel_record set_flag
lookup_tunnel-IsLooked [] cs = record {
  found = refl;
  row = refl;
  same_teid = refl;
  same_seqno = refl;
  same_stored = refl;
  same_flags = λ bit lt. refl;
}
lookup_tunnel-IsLooked (rec ∷ rest) cs =
    let next = lookup_tunnel-IsLooked rest (on_tunnel_record rec cs) in
    record {
      found = next.found ∙ or_true (is_any rest);
      row = next.row;
      same_teid = next.same_teid;
      same_seqno = next.same_seqno;
      same_stored = next.same_stored;
      same_flags = λ bit lt. next.same_flags bit lt ∙ ground (arith, lt);
    }
  where
    or_true : (b : Bool) → (b || true) ≡ true
    or_true true = refl
    or_true false = refl

pub find_by_teid-IsLooked :
    (w : World) (cs : Processing) → IsLooked (w.find_teid cs.gtph_teid) cs (find_by_teid w cs)
unfolding find_by_teid
find_by_teid-IsLooked w cs = lookup_tunnel-IsLooked (w.find_teid cs.gtph_teid) cs

-- A reply of pieces that fit, after some updates.
reply-IsAnswered :
    (rpckt : GtpPacket) (type : ℕ) (pieces : List Piece) (cs : Processing) (n : TunnelNode)
    (updates : List Update)
    → is_echo type ≡ false
    → Fits 1501 pieces
    → IsAnswered
        (reply rpckt type (some pieces) cs (record n { updates = n.updates ++ updates }))
        n
        type
        cs.tunnel.sgw_c_teid
        cs.gtph_seqno
        rpckt
        updates
        pieces
unfolding reply
reply-IsAnswered rpckt type pieces cs n updates tunnel (all, le) =
    let (r, e, is) =
      respond-replies rpckt type pieces cs.tunnel.sgw_c_teid cs.gtph_seqno
        (record n { updates = n.updates ++ updates }) tunnel all (omega (arith, le)) in
    record { response = r; sent = e; is_reply = is }

-- A handler that denies without a row or where the update fails, and else accepts.
module _ (w : World) (rpckt : GtpPacket) (cs : Processing) (n : TunnelNode) (update : Update)
    (ok ng : ℕ) (accepted denied : List Piece) (ok_tunnel : is_echo ok ≡ false)
    (ng_tunnel : is_echo ng ≡ false) (accepted_fits : Fits 1501 accepted)
    (denied_fits : Fits 1501 denied) where
  unfoldable pub handled : Bool × TunnelNode
  handled =
      if is_found cs
      then after_query w update (reply rpckt ok (some accepted) cs)
          (reply rpckt ng (some denied) cs) n
      else reply rpckt ng (some denied) cs n

  handled-IsAnswered :
      IsAnswered handled n
        (if is_found cs && w.is_done update then ok else ng)
        cs.tunnel.sgw_c_teid
        cs.gtph_seqno
        rpckt
        (if is_found cs then update ∷ [] else [])
        (if is_found cs && w.is_done update then accepted else denied)
  unfolding handled after_query query
  handled-IsAnswered = elim (Bool-cases (is_found cs)) [
    | inr e ↦
        let nothing = reply-IsAnswered rpckt ng denied cs n [] ng_tunnel denied_fits in
        rw e (
          subst
            (λ l.
              IsAnswered (reply rpckt ng (some denied) cs (record n { updates = l })) n ng
                cs.tunnel.sgw_c_teid cs.gtph_seqno rpckt [] denied)
            (append-nil n.updates) nothing)
    | inl e ↦ elim (Bool-cases (w.is_done update)) [
      | inl d ↦
          rw (e, d) (reply-IsAnswered rpckt ok accepted cs n (update ∷ []) ok_tunnel accepted_fits)
      | inr d ↦
          rw (e, d) (reply-IsAnswered rpckt ng denied cs n (update ∷ []) ng_tunnel denied_fits)
    ]
  ]

  -- The same, told of the request as it was read.
  pub handled-IsAnswered_from :
      (rows : List Tunnel) (start : Processing) (made_update : Update)
      → IsFresh start
      → IsLooked rows start cs
      → update ≡ made_update
      → IsAnswered handled n
          (if is_any rows && w.is_done made_update then ok else ng)
          (last_row no_tunnel rows).sgw_c_teid
          start.gtph_seqno
          rpckt
          (if is_any rows then made_update ∷ [] else [])
          (if is_any rows && w.is_done made_update then accepted else denied)
  handled-IsAnswered_from rows start made_update fresh looked same =
      rw (sym found, sym same, sym row, sym looked.same_seqno) handled-IsAnswered
    where
      or_false : (b : Bool) → (b || false) ≡ b
      or_false true = refl
      or_false false = refl

      found : is_found cs ≡ is_any rows
      found = looked.found ∙ rw fresh.unforged (or_false (is_any rows))

      row : cs.tunnel ≡ last_row no_tunnel rows
      row = looked.row ∙ ap (λ t. last_row t rows) fresh.no_row
