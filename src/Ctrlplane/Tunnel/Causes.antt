-- ===== src/Ctrlplane/Tunnel/Causes.antt =====
-- ctrlplane/src/pgw/event: what of a response stands in its octets and on the egress queue.
use mixi_pgw.Prelude.{
  ℕ, ◌+◌, ◌%◌, ◌^◌, ◌≡◌, refl, sym, ◌∙◌, ap, arith, Bool, true, false, leb, ltb, if◌then◌else◌,
  List, [], ◌∷◌, ◌++◌, Bool-cases, inl, inr,
}
use mixi_pgw.Ctrlplane.Gtpc.{GtpItem, GtpPacket, GenericPacket, Octets, Piece}
use mixi_pgw.Ctrlplane.Gtpc.Layout.{Holds}
use mixi_pgw.Ctrlplane.Node.{Queue, enq, ring_size_max}
use mathlib.Core.Path.{subst}
use mixi_pgw.Ctrlplane.Tunnel.{TunnelNode, Update}
use mixi_pgw.Ctrlplane.Tunnel.Sizes.{Leads}
use mixi_pgw.Ctrlplane.Tunnel.Answers.{IsAnswered}

-- A queue of fewer than 20480 packets takes one more at its end; a full one counts a drop.
pub record IsOffered (q q' : Queue GenericPacket) (packet : GenericPacket) : Type 0 where
  pub queue : q'.queue ≡ (if ltb q.queue_count 20480 then q.queue ++ (packet ∷ []) else q.queue)
  pub drops :
      q'.queue_drops
      ≡ (if ltb q.queue_count 20480 then q.queue_drops else (q.queue_drops + 1) % 2 ^ 64)

-- An answer whose first item is a cause with this value, offered to the egress queue.
pub record IsResponded (result : Bool × TunnelNode) (n : TunnelNode) (type teid seqno : ℕ)
    (rpckt : GtpPacket) (updates : List Update) (pieces : List Piece) (cause : ℕ) : Type 0 where
  pub answered : IsAnswered result n type teid seqno rpckt updates pieces
  pub cause_type : answered.response.payload 12 ≡ 2
  pub cause_value : answered.response.payload 16 ≡ cause
  pub offered : IsOffered n.egress result.1.egress answered.response

enq-IsOffered :
    (q : Queue GenericPacket) (packet : GenericPacket) → IsOffered q (enq q packet) packet
unfolding enq
enq-IsOffered q packet = elim (Bool-cases (ltb q.queue_count 20480)) [
  | inl free ↦
      let room : leb ring_size_max q.queue_count ≡ false = ground (arith, free) in
      record { queue = rw (free, room) refl; drops = rw (free, room) refl }
  | inr full ↦
      let room : leb ring_size_max q.queue_count ≡ true = ground (arith, full) in
      record { queue = rw (full, room) refl; drops = rw (full, room) refl }
]

Holds-Leads :
    (packet : Octets) (end cause : ℕ) (items : List GtpItem) (pieces : List Piece)
    → Leads cause pieces
    → Holds packet 12 end items pieces
    → (packet 12 ≡ 2) × (packet 16 ≡ cause)
Holds-Leads packet end cause items [] l h = absurd l
Holds-Leads packet end cause [] (piece ∷ rest) l h = absurd h
Holds-Leads packet end cause (item ∷ items) (piece ∷ rest) (len, type, value) h =
    (h.1.0 0 (omega (arith, len)) ∙ type, h.1.0 4 (omega (arith, len)) ∙ value)

Leads-if :
    (b : Bool) (accepted denied : List Piece)
    → Leads 16 accepted
    → Leads 93 denied
    → Leads (if b then 16 else 93) (if b then accepted else denied)
Leads-if true accepted denied a d = a
Leads-if false accepted denied a d = d

pub IsAnswered-IsResponded :
    (result : Bool × TunnelNode) (n : TunnelNode) (type teid seqno : ℕ) (rpckt : GtpPacket)
    (updates : List Update) (b : Bool) (accepted denied : List Piece)
    → Leads 16 accepted
    → Leads 93 denied
    → IsAnswered result n type teid seqno rpckt updates (if b then accepted else denied)
    → IsResponded result n type teid seqno rpckt updates
        (if b then accepted else denied)
        (if b then 16 else 93)
IsAnswered-IsResponded result n type teid seqno rpckt updates b accepted denied a d h =
    let (ct, cv) =
      Holds-Leads h.response.payload h.response.datalen (if b then 16 else 93) h.is_reply.items
        (if b then accepted else denied) (Leads-if b accepted denied a d) h.is_reply.holds in
    record {
      answered = h;
      cause_type = ct;
      cause_value = cv;
      offered =
          subst (λ (q : Queue GenericPacket). IsOffered n.egress q h.response)
            (sym (ap (λ (r : Bool × TunnelNode). r.1.egress) h.sent))
            (enq-IsOffered n.egress h.response);
    }
