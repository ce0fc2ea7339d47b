-- ===== src/Ctrlplane/Gtpc/Layout.antt =====
-- ctrlplane/src/pkt/gtpc_item_func.c: what a packet looks like after any calls of gtpc_append_item.
use mixi_pgw.Prelude.{
  ℕ, ◌+◌, ◌%◌, ◌^◌, ◌<◌, ◌≤◌, ◌≡◌, refl, ap, sym, ◌∙◌, arith, none, some, Bool-cases, inl, inr,
  List, [], ◌∷◌, ◌++◌, length, length-append, leb, ◌==◌, ◌||◌, ◌⊎◌,
}
use mathlib.Core.List.{append-nil, append_assoc}
use mixi_pgw.Ctrlplane.Gtpc.{
  Piece, Octets, GtpItem, GtpPacket, u16_at, written, append_item, alloc_packet, is_echo,
  type_headerlen, new_header, ether_max_len,
}
use mixi_pgw.Ctrlplane.Gtpc.Memory.{written_length, written_before, written_inside}

-- The items stand one after the other from `start` to `end`, and hold the pieces.
abbrev pub Holds : Octets → ℕ → ℕ → List GtpItem → List Piece → Type 0
Holds packet start end [] [] = start ≡ end
Holds packet start end [] (piece ∷ pieces) = ⊥
Holds packet start end (item ∷ items) [] = ⊥
Holds packet start end (item ∷ items) (piece ∷ pieces) =
    ((item.type ≡ piece.type) × (item.length ≡ piece.len) × (item.offset ≡ start) × (0 < piece.len))
    × (((i : ℕ) → i < piece.len → packet (start + i) ≡ piece.octets i)
        × Holds packet (start + piece.len) end items pieces)

-- `base` octets of the header are not counted by its length field.
pub record IsLaid (base head : ℕ) (p : GtpPacket) (pieces : List Piece) : Type 0 where
  pub holds : Holds p.packet head p.offset p.items pieces
  pub counted : p.count ≡ length pieces
  pub summed : u16_at p.packet 2 + base ≡ p.offset
  pub headed : head ≤ p.offset
  pub bounded : p.offset < p.length
  pub sized : p.length ≡ ether_max_len

pub Holds-count :
    (packet : Octets) (start end : ℕ) (items : List GtpItem) (pieces : List Piece)
    → Holds packet start end items pieces
    → start + length pieces ≤ end
Holds-count packet start end [] [] h = omega (arith, h)
Holds-count packet start end [] (piece ∷ pieces) h = absurd h
Holds-count packet start end (item ∷ items) [] h = absurd h
Holds-count packet start end (item ∷ items) (piece ∷ pieces) h =
    omega (arith, h.0.3, Holds-count packet (start + piece.len) end items pieces h.1.1)

-- One more item at the end, in a packet that keeps the octets before it.
Holds-snoc :
    (packet after : Octets) (start end : ℕ) (items : List GtpItem) (pieces : List Piece)
    (last : Piece)
    → 0 < last.len
    → ((j : ℕ) → start ≤ j → j < end → after j ≡ packet j)
    → ((i : ℕ) → i < last.len → after (end + i) ≡ last.octets i)
    → Holds packet start end items pieces
    → Holds after start
        (end + last.len)
        (items ++ (record { type = last.type; length = last.len; offset = end } ∷ []))
        (pieces ++ (last ∷ []))
Holds-snoc packet after start end [] [] last pos keeps puts h = (
  (refl, refl, sym h, pos),
  ((λ i lt. ap (λ t. after (t + i)) h ∙ puts i lt), ap (λ t. t + last.len) h),
)
Holds-snoc packet after start end [] (piece ∷ pieces) last pos keeps puts h = absurd h
Holds-snoc packet after start end (item ∷ items) [] last pos keeps puts h = absurd h
Holds-snoc packet after start end (item ∷ items) (piece ∷ pieces) last pos keeps puts h =
    let fits = Holds-count packet (start + piece.len) end items pieces h.1.1 in
    (
      h.0,
      (
        (λ i lt. keeps (start + i) (omega arith) (omega (arith, fits, lt)) ∙ h.1.0 i lt),
        Holds-snoc packet after (start + piece.len) end items pieces last pos
            (λ j lo hi. keeps j (omega arith) hi) puts h.1.1,
      ),
    )

module _ (base head : ℕ) (p : GtpPacket) (pieces : List Piece) (piece : Piece) (hh : 4 ≤ head)
    (laid : IsLaid base head p pieces) (pos : 0 < piece.len)
    (room : p.offset + piece.len < p.length) where
  open laid use {holds, counted, summed, headed, bounded, sized}

  unfoldable pub grown : GtpPacket
  grown = record p {
    items = p.items ++ (record { type = piece.type; length = piece.len; offset = p.offset } ∷ []);
    count = (p.count + 1) % 2 ^ 16;
    offset = (p.offset + piece.len) % 2 ^ 16;
    packet = written p piece.octets piece.len;
  }

  pub small : (p.offset + piece.len) % 2 ^ 16 ≡ p.offset + piece.len
  small = omega (arith, room, sized)

  pub grown-IsLaid : IsLaid base head grown (pieces ++ (piece ∷ []))
  unfolding grown
  grown-IsLaid = record {
    holds = rw small (
        Holds-snoc p.packet (written p piece.octets piece.len) head p.offset p.items pieces piece
          pos
          (λ j lo hi.
            written_before p piece.octets piece.len (omega (arith, headed)) j (omega arith) hi)
          (λ i lt. written_inside p piece.octets piece.len (omega (arith, headed)) i lt) holds);
    counted = omega (
      arith,
      counted,
      length-append pieces (piece ∷ []),
      Holds-count p.packet head p.offset p.items pieces holds,
      bounded,
      sized,
    );
    summed = omega (
      arith,
      written_length p piece.octets piece.len (omega (arith, headed)),
      summed,
      small,
      room,
      sized,
    );
    headed = omega (arith, small, headed);
    bounded = omega (arith, small, room);
    sized = sized;
  }

-- The two outcomes of an append.
pub append_item-cases :
    (base head : ℕ) (p : GtpPacket) (pieces : List Piece) (piece : Piece)
    → 4 ≤ head
    → IsLaid base head p pieces
    → (append_item p piece.type piece.octets piece.len ≡ none)
      ⊎ ((q : GtpPacket) × (append_item p piece.type piece.octets piece.len ≡ some q)
          × IsLaid base head q (pieces ++ (piece ∷ []))
          × (q.offset ≡ p.offset + piece.len))
unfolding append_item grown
append_item-cases base head p pieces piece hh laid =
    elim (Bool-cases (piece.len == 0 || leb p.length (p.offset + piece.len))) [
      | inl e ↦ inl (rw e refl)
      | inr e ↦
          let pos : 0 < piece.len = ground (arith, e) in
          let room : p.offset + piece.len < p.length = ground (arith, e) in
          inr (
            grown base head p pieces piece hh laid pos room,
            rw e refl,
            grown-IsLaid base head p pieces piece hh laid pos room,
            small base head p pieces piece hh laid pos room,
          )
    ]

-- The calls in order; one that fails changes nothing.
pub append_all : GtpPacket → List Piece → GtpPacket
append_all p [] = p
append_all p (piece ∷ rest) = elim (append_item p piece.type piece.octets piece.len) [
  | none ↦ append_all p rest
  | some q ↦ append_all q rest
]

-- The pieces that a packet had room for.
pub accepted : GtpPacket → List Piece → List Piece
accepted p [] = []
accepted p (piece ∷ rest) = elim (append_item p piece.type piece.octets piece.len) [
  | none ↦ accepted p rest
  | some q ↦ piece ∷ accepted q rest
]

append_all-IsLaid_from :
    (base head : ℕ) (p : GtpPacket) (before rest : List Piece)
    → 4 ≤ head
    → IsLaid base head p before
    → IsLaid base head (append_all p rest) (before ++ accepted p rest)
unfolding append_all accepted
append_all-IsLaid_from base head p before [] hh laid = rw append-nil laid
append_all-IsLaid_from base head p before (piece ∷ rest) hh laid =
    elim (append_item-cases base head p before piece hh laid) [
      | inl e ↦
          rw (e, append_all, accepted) (append_all-IsLaid_from base head p before rest hh laid)
      | inr (q, e, grown_laid, o) ↦
          rw (e, append_all, accepted, sym (append_assoc before (piece ∷ []) (accepted q rest)))
            (append_all-IsLaid_from base head q (before ++ (piece ∷ [])) rest hh grown_laid)
    ]

pub alloc_packet-IsLaid : (type : ℕ) → IsLaid 4 (type_headerlen type) (alloc_packet type) []
unfolding alloc_packet type_headerlen new_header u16_at
alloc_packet-IsLaid type = elim (Bool-cases (is_echo type)) [
  | inl e ↦ record {
    holds = refl;
    counted = refl;
    summed = rw e refl;
    headed = omega arith;
    bounded = rw e (omega arith);
    sized = refl;
  }
  | inr e ↦ record {
    holds = refl;
    counted = refl;
    summed = rw e refl;
    headed = omega arith;
    bounded = rw e (omega arith);
    sized = refl;
  }
]

-- After any calls of gtpc_append_item on a new packet, the items stand one after the other behind
-- the header and hold the octets of the calls that found room, in their order; the packet counts
-- them, the length field of its header is that of the packet without its first four octets, and the
-- packet stays below the size of its buffer.
pub append_all-IsLaid :
    (type : ℕ) (calls : List Piece)
    → IsLaid 4
        (type_headerlen type)
        (append_all (alloc_packet type) calls)
        (accepted (alloc_packet type) calls)
unfolding type_headerlen
append_all-IsLaid type calls =
    append_all-IsLaid_from 4 (type_headerlen type) (alloc_packet type) [] calls headed
      (alloc_packet-IsLaid type)
  where
    headed : 4 ≤ type_headerlen type
    headed = ground arith
