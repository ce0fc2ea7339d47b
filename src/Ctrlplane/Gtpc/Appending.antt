-- ===== src/Ctrlplane/Gtpc/Appending.antt =====
-- ctrlplane/src/pkt/gtpc_item_func.c: calls of gtpc_append_item that all find room.
use mixi_pgw.Prelude.{
  ℕ, ◌+◌, ◌<◌, ◌≤◌, ◌≡◌, refl, sym, ◌∙◌, arith, some, false, ◌==◌, ◌||◌, leb, List, [], ◌∷◌, ◌++◌,
  All,
}
use mathlib.Core.List.{append-nil, append_assoc}
use mixi_pgw.Ctrlplane.Gtpc.{
  Octets, Piece, GtpPacket, append_item, append_each, written, memcpy, put_u16,
}
use mixi_pgw.Ctrlplane.Gtpc.Layout.{IsLaid, grown, small, grown-IsLaid}

abbrev pub total : List Piece → ℕ
total [] = 0
total (piece ∷ rest) = piece.len + total rest

-- The first two octets of the header.
first_kept :
    (p : GtpPacket) (item : Octets) (len j : ℕ)
    → 4 ≤ p.offset
    → j < 2
    → written p item len j ≡ p.packet j
unfolding written memcpy put_u16
first_kept p item len j h lt = ground arith

module _ (p : GtpPacket) (before : List Piece) (piece : Piece) (laid : IsLaid 4 12 p before)
    (pos : 0 < piece.len) (room : p.offset + piece.len < p.length) where
  append_item_succeeds :
      (q : GtpPacket) × (append_item p piece.type piece.octets piece.len ≡ some q)
      × IsLaid 4 12 q (before ++ (piece ∷ []))
      × (q.offset ≡ p.offset + piece.len)
      × ((j : ℕ) → j < 2 → q.packet j ≡ p.packet j)
  unfolding append_item grown
  append_item_succeeds =
      let free : (piece.len == 0 || leb p.length (p.offset + piece.len)) ≡ false =
        ground (arith, pos, room) in
      (
        grown 4 12 p before piece h laid pos room,
        rw free refl,
        grown-IsLaid 4 12 p before piece h laid pos room,
        small 4 12 p before piece h laid pos room,
        (λ j lt. first_kept p piece.octets piece.len j (omega (arith, laid.headed)) lt),
      )
    where
      h : 4 ≤ 12
      h = omega arith

-- Pieces that fit are all appended, and keep the first two octets of the header.
pub append_each_succeeds :
    (p : GtpPacket) (before rest : List Piece)
    → IsLaid 4 12 p before
    → All (λ piece. 0 < piece.len) rest
    → p.offset + total rest < p.length
    → (q : GtpPacket) × (append_each p rest ≡ some q)
      × IsLaid 4 12 q (before ++ rest)
      × (q.offset ≡ p.offset + total rest)
      × ((j : ℕ) → j < 2 → q.packet j ≡ p.packet j)
unfolding append_each
append_each_succeeds p before [] laid all room =
    (p, refl, rw append-nil laid, omega arith, (λ j lt. refl))
append_each_succeeds p before (piece ∷ rest) laid all room =
    let (q, e, laid_q, at_q, kept_q) =
      append_item_succeeds p before piece laid all.0 (omega (arith, room)) in
    let (r, f, laid_r, at_r, kept_r) =
      append_each_succeeds q (before ++ (piece ∷ [])) rest laid_q all.1
        (omega (arith, room, at_q, laid.sized, laid_q.sized)) in
    (
      r,
      rw (e, append_each) f,
      rw (sym (append_assoc before (piece ∷ []) rest)) laid_r,
      omega (arith, at_q, at_r),
      (λ j lt. kept_r j lt ∙ kept_q j lt),
    )
