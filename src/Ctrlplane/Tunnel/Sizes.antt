-- ===== src/Ctrlplane/Tunnel/Sizes.antt =====
-- ctrlplane/src/pgw/event: the items of the responses have octets and find room in a packet.
use mixi_pgw.Prelude.{
  ℕ, ◌+◌, ◌<◌, ◌≤◌, ◌≡◌, refl, arith, leb, false, none, some, Option, List, [], ◌∷◌, ◌++◌, length,
  length-append, All, if_both, ◌||◌,
}
use mixi_pgw.Ctrlplane.Gtpc.{Piece, u16_at}
use mixi_pgw.Ctrlplane.Gtpc.Items.{item_len, cause_set, recovery_set, ebi_set, pco_set}
use mixi_pgw.Ctrlplane.Gtpc.Appending.{total}
use mixi_pgw.Ctrlplane.Gtpc.State.{ParseState}
use mixi_pgw.Ctrlplane.Tunnel.{World, piece, cause_piece, recovery_piece}
use mixi_pgw.Ctrlplane.Tunnel.Options.{
  pco_dns, pco_mtu, pco_ipcp, setup_pco, pco_pieces, pco_extension,
}

-- Pieces with octets, at most `bound` of them together.
abbrev pub Fits : ℕ → List Piece → Type 0
Fits bound pieces = All (λ piece. 0 < piece.len) pieces × (total pieces ≤ bound)

pub Fits-cons :
    (bound : ℕ) (piece : Piece) (rest : List Piece)
    → 0 < piece.len
    → Fits bound rest
    → Fits (piece.len + bound) (piece ∷ rest)
Fits-cons bound piece rest pos (all, le) = ((pos, all), omega (arith, le))

pub Fits-append : (a b : ℕ) (xs ys : List Piece) → Fits a xs → Fits b ys → Fits (a + b) (xs ++ ys)
Fits-append a b [] ys fx (all, le) = (all, omega (arith, le))
Fits-append a b (x ∷ xs) ys ((pos, all_x), le_x) fy =
    let (all, le) = Fits-append (total xs) b xs ys (all_x, omega arith) fy in
    ((pos, all), omega (arith, le, le_x))

-- The first item is a cause of six octets with this value.
abbrev pub Leads : ℕ → List Piece → Type 0
Leads cause [] = ⊥
Leads cause (piece ∷ rest) = (piece.len ≡ 6) × (piece.octets 0 ≡ 2) × (piece.octets 4 ≡ cause)

pub cause_piece-Leads :
    (cause : ℕ) (rest : List Piece) → cause < 0x100 → Leads cause (cause_piece cause ∷ rest)
unfolding item_len cause_set u16_at
cause_piece-Leads cause rest lt = (refl, refl, omega (arith, lt))

pub cause_piece-len : (cause : ℕ) → (cause_piece cause).len ≡ 6
unfolding item_len cause_set u16_at
cause_piece-len cause = refl

pub recovery_piece-len : (w : World) → (recovery_piece w).len ≡ 5
unfolding recovery_piece item_len recovery_set u16_at
recovery_piece-len w = refl

pub ebi_set-len : (inst ebi : ℕ) → item_len (ebi_set inst ebi) ≡ 5
unfolding item_len ebi_set u16_at
ebi_set-len inst ebi = refl

pco_dns-length : (cs : ParseState) → length (pco_dns cs) ≤ 52
unfolding pco_dns
pco_dns-length cs = ground arith

pco_mtu-length : (cs : ParseState) → length (pco_mtu cs) ≤ 5
unfolding pco_mtu
pco_mtu-length cs = ground arith

pco_ipcp-length : (cs : ParseState) → length (pco_ipcp cs) ≤ 19
unfolding pco_ipcp
pco_ipcp-length cs = ground arith

pco_set-Fits :
    (pco_head : ℕ) (buffer : List ℕ)
    → length buffer ≤ 76
    → Fits 81 (elim (pco_set pco_head buffer (length buffer + 1)) [
      | none ↦ []
      | some pco ↦ piece 78 pco ∷ []
    ])
unfolding pco_set item_len u16_at
pco_set-Fits pco_head buffer le =
    let small : leb 253 (length buffer + 1) ≡ false = ground (arith, le) in
    rw small ((omega arith, omega arith), omega (arith, le))

pub pco_pieces-Fits : (cs : ParseState) → Fits 81 (pco_pieces cs)
unfolding pco_pieces setup_pco
pco_pieces-Fits cs =
    let buffer = pco_dns cs ++ pco_mtu cs ++ pco_ipcp cs in
    let le : length buffer ≤ 76 = omega (
      arith,
      length-append (pco_dns cs ++ pco_mtu cs) (pco_ipcp cs),
      length-append (pco_dns cs) (pco_mtu cs),
      pco_dns-length cs,
      pco_mtu-length cs,
      pco_ipcp-length cs,
    ) in
    if_both (λ (o : Option (List ℕ)). Fits 81 (elim o [ none ↦ [] | some pco ↦ piece 78 pco ∷ [] ]))
      (cs.flag 8 || cs.flag 7 || cs.flag 5 || cs.flag 6) _ _
      (pco_set-Fits (pco_extension cs) buffer le) (tt, omega arith)
