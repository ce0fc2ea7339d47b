-- ===== src/Ctrlplane/Tunnel/Creating.antt =====
-- ctrlplane/src/pgw/event/event_gtpc_create_session.c: what a Create Session Request is answered.
use mixi_pgw.Prelude.{
  ℕ, ◌<◌, ◌≤◌, ◌⊎◌, ◌≡◌, refl, sym, ◌∙◌, ap, arith, Bool, true, false, ◌&&◌, ◌==◌, if◌then◌else◌,
  Option, none, some, List, [], ◌∷◌, ◌++◌, Bool-cases, inl, inr, get_or,
}
use mathlib.Core.List.{append_assoc}
use mathlib.Core.Path.{subst}
use mixi_pgw.Ctrlplane.Gtpc.{u16_at, GtpPacket, Piece}
use mixi_pgw.Ctrlplane.Gtpc.Items.{
  item_len, cause_set, ebi_set, f_teid_set, paa_set, charging_id_set, apn_restriction_set, ambr_set,
}
use mixi_pgw.Ctrlplane.Gtpc.Bearer.{
  bearer_ctx_set, add_children, bearer_ctx_add_child, bearer_ctx_length,
}
use mixi_pgw.Ctrlplane.Node.{enq}
use mixi_pgw.Ctrlplane.Tunnel.{
  Processing, World, TunnelNode, Update, after_query, query, bearer_piece, private_piece, pdn_type,
}
use mixi_pgw.Ctrlplane.Tunnel.Options.{pco_pieces}
use mixi_pgw.Ctrlplane.Tunnel.Create.{paa_of, create_session_accepted, create_session_denied}
use mixi_pgw.Ctrlplane.Tunnel.Sizes.{Fits, Leads, Fits-append, recovery_piece-len, pco_pieces-Fits}
use mixi_pgw.Ctrlplane.Tunnel.Answers.{IsAnswered}

-- UPDATEs one after the other, to the first that fails.
abbrev pub attempts : World → List Update → List Update
attempts w [] = []
attempts w (u ∷ rest) = u ∷ (if w.is_done u then attempts w rest else [])

abbrev pub all_done : World → List Update → Bool
all_done w [] = true
all_done w (u ∷ rest) = w.is_done u && all_done w rest

-- The items of the denied response, which fit.
pub create_session_denied-Fits :
    (pieces : List Piece) × (create_session_denied ≡ some pieces) × Fits 21 pieces × Leads 93 pieces
unfolding create_session_denied add_children bearer_ctx_add_child bearer_ctx_set item_len u16_at
    cause_set ebi_set bearer_piece bearer_ctx_length
create_session_denied-Fits =
    (_, refl, ((omega arith, (omega arith, tt)), omega arith), (refl, refl, refl))

-- The address of the tunnel is free where a PDN is asked for.
abbrev pub HasAddress : Processing → Type 0
HasAddress cs = (cs.parse.flag 12 ≡ false) ⊎ (get_or cs.tunnel.ue_ipv 0 0 ≡ 0)

abbrev PaaFits : Option (List ℕ) → Type 0
PaaFits none = ⊥
PaaFits (some paa) = (0 < item_len paa) × (item_len paa ≤ 26)

-- The pieces find room in a packet.
pub record Roomy (pieces : List Piece) : Type 0 where
  fits : Fits 1501 pieces
  leads : Leads 16 pieces

abbrev pub FitsOption : Option (List Piece) → Type 0
FitsOption none = ⊥
FitsOption (some pieces) = Roomy pieces

pub FitsOption-some :
    (o : Option (List Piece))
    → FitsOption o
    → (pieces : List Piece) × (o ≡ some pieces) × Fits 1501 pieces × Leads 16 pieces
FitsOption-some none h = absurd h
FitsOption-some (some pieces) h = (pieces, refl, h.fits, h.leads)

PaaFits-some :
    (o : Option (List ℕ))
    → PaaFits o
    → (paa : List ℕ) × (o ≡ some paa) × (0 < item_len paa) × (item_len paa ≤ 26)
PaaFits-some none h = absurd h
PaaFits-some (some paa) (pos, le) = (paa, refl, pos, le)

paa_of-PaaFits : (w : World) (cs : Processing) → HasAddress cs → PaaFits (paa_of w cs)
unfolding paa_of paa_set item_len u16_at
paa_of-PaaFits w cs (inl e) = rw (e, paa_of, PaaFits) (omega arith, omega arith)
paa_of-PaaFits w cs (inr a) = elim (Bool-cases (cs.parse.flag 12)) [
  | inr e ↦ rw (e, paa_of, PaaFits) (omega arith, omega arith)
  | inl e ↦ elim (Bool-cases (pdn_type cs.parse == 2)) [
    | inl t ↦ rw (e, a, t, paa_of, PaaFits) (omega arith, omega arith)
    | inr t ↦ rw (e, a, t, paa_of, PaaFits) (omega arith, omega arith)
  ]
]

-- Items before and behind the PCO item.
around_pco-Roomy :
    (front pco tail : List Piece)
    → Fits 1000 front
    → Fits 81 pco
    → Fits 100 tail
    → Leads 16 (front ++ (pco ++ tail))
    → Roomy (front ++ (pco ++ tail))
around_pco-Roomy front pco tail f p t l =
    let (all, le) = Fits-append 1000 181 front (pco ++ tail) f (Fits-append 81 100 pco tail p t) in
    record { fits = (all, omega (arith, le)); leads = l }

pub create_session_accepted-FitsOption :
    (w : World) (cs : Processing) → HasAddress cs → FitsOption (create_session_accepted w cs)
unfolding create_session_accepted add_children bearer_ctx_add_child bearer_ctx_set item_len u16_at
    cause_set ebi_set f_teid_set charging_id_set bearer_ctx_length apn_restriction_set bearer_piece
    private_piece ambr_set
create_session_accepted-FitsOption w cs free =
    let (paa, e, pos, le) = PaaFits-some (paa_of w cs) (paa_of-PaaFits w cs free) in
    rw (e, create_session_accepted, FitsOption)
      (around_pco-Roomy (_ ∷ _ ∷ _ ∷ _ ∷ _ ∷ []) (pco_pieces cs.parse) (_ ∷ _ ∷ _ ∷ [])
        ((omega arith, (omega arith, (pos, (omega arith, (omega arith, tt))))), omega (arith, le))
        (pco_pieces-Fits cs.parse)
        (
          (omega arith, (omega (arith, recovery_piece-len w), (omega arith, tt))),
          omega (arith, recovery_piece-len w),
        )
        (refl, refl, refl))

-- What the handler did, and what it did before and after one more UPDATE.
module _ (w : World) (rpckt : GtpPacket) (teid seqno : ℕ) where
  -- The UPDATE is the first.
  IsAnswered-cons :
      (result : Bool × TunnelNode) (n : TunnelNode) (u : Update) (rest : List Update)
      (pieces : List Piece)
      → IsAnswered result
          (record n { updates = n.updates ++ (u ∷ []) })
          33
          teid
          seqno
          rpckt
          rest
          pieces
      → IsAnswered result n 33 teid seqno rpckt (u ∷ rest) pieces
  IsAnswered-cons result n u rest pieces h = record {
    response = h.response;
    sent =
        h.sent
        ∙ ap (λ l. (true, record n { egress = enq n.egress h.response; updates = l }))
            (append_assoc n.updates (u ∷ []) rest);
    is_reply = h.is_reply;
  }

  pub after_query-IsAnswered :
      (u : Update) (steps : List Update) (is_ok : Bool) (accepted denied : List Piece)
      (ok ng : TunnelNode → Bool × TunnelNode) (n : TunnelNode)
      → ((m : TunnelNode)
          → IsAnswered
              (ok m)
              m
              33
              teid
              seqno
              rpckt
              (attempts w steps)
              (if is_ok && all_done w steps then accepted else denied))
      → ((m : TunnelNode) → IsAnswered (ng m) m 33 teid seqno rpckt [] denied)
      → IsAnswered
          (after_query w u ok ng n)
          n
          33
          teid
          seqno
          rpckt
          (attempts w (u ∷ steps))
          (if is_ok && all_done w (u ∷ steps) then accepted else denied)
  unfolding after_query query
  after_query-IsAnswered u steps is_ok accepted denied ok ng n on_ok on_ng =
      elim (Bool-cases (w.is_done u)) [
        | inl d ↦
            rw (d, attempts, all_done)
              (IsAnswered-cons (ok (record n { updates = n.updates ++ (u ∷ []) })) n u
                (attempts w steps) _ (on_ok _))
        | inr d ↦
            rw (d, attempts, all_done)
              (subst
                (λ b.
                  IsAnswered (ng (record n { updates = n.updates ++ (u ∷ []) })) n 33 teid seqno
                    rpckt (u ∷ []) (if b then accepted else denied))
                (sym (and_false is_ok))
                (IsAnswered-cons (ng (record n { updates = n.updates ++ (u ∷ []) })) n u [] denied
                  (on_ng _)))
      ]
    where
      and_false : (b : Bool) → (b && false) ≡ false
      and_false true = refl
      and_false false = refl
