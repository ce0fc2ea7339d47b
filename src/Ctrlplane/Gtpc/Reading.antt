-- ===== src/Ctrlplane/Gtpc/Reading.antt =====
-- ctrlplane/src/pkt: gtpc_alloc_packet_from_payload takes a datagram apart exactly when its items
-- fill it.
use mixi_pgw.Prelude.{
  ℕ, zero, suc, ◌+◌, ◌-◌, ◌%◌, ◌^◌, ◌<◌, ◌≤◌, ◌≡◌, ◌≢◌, refl, ap, sym, ◌∙◌, arith, Option, none,
  some, Bool-cases, inl, inr, List, [], ◌∷◌, ◌++◌, length, ltb, leb, ◌==◌, ◌||◌, Bool, true, false,
  ◌⊎◌,
}
use mathlib.Core.Path.{subst}
use mathlib.Core.List.{append-nil, append_assoc}
use mixi_pgw.Ctrlplane.Gtpc.{
  Octets, GtpItem, GtpPacket, Made, made, failed, u16_at, written, shift, append_item, item_length,
  parse_items, ether_max_len,
}
use mixi_pgw.Ctrlplane.Gtpc.Memory.{written_length, written_before, written_inside}

-- The items of a datagram fill it from `offset` to `len`; the length of an item is the sum that
-- item_length takes in 16 bits, and not 0.
abbrev pub Tiles : Octets → ℕ → ℕ → List GtpItem → Type 0
Tiles payload len offset [] = offset ≡ len
Tiles payload len offset (item ∷ items) =
    ((item.type ≡ payload offset)
      × (item.offset ≡ offset)
      × (item.length ≡ item_length payload offset)
      × (0 < item.length))
    × Tiles payload len (offset + item.length) items

-- The packet holds the octets of the datagram from `head` on, as far as it goes.
pub record IsCopy (payload : Octets) (head : ℕ) (p : GtpPacket) : Type 0 where
  pub copied : (j : ℕ) → head ≤ j → j < p.offset → p.packet j ≡ payload j
  pub summed : u16_at p.packet 2 + 4 ≡ p.offset
  pub headed : head ≤ p.offset
  pub bounded : p.offset < p.length
  pub sized : p.length ≡ ether_max_len

-- One round of the loop, where the item fits.
module _ (payload : Octets) (head : ℕ) (p : GtpPacket) (len : ℕ) (hh : 4 ≤ head)
    (copy : IsCopy payload head p) (pos : 0 < len) (room : p.offset + len < p.length) where
  open copy use {copied, summed, headed, bounded, sized}

  pub next_item : GtpItem
  next_item = record { type = payload p.offset; length = len; offset = p.offset }

  pub grown : GtpPacket
  grown = record p {
    items = p.items ++ (next_item ∷ []);
    count = (p.count + 1) % 2 ^ 16;
    offset = (p.offset + len) % 2 ^ 16;
    packet = written p (shift payload p.offset) len;
  }

  small : (p.offset + len) % 2 ^ 16 ≡ p.offset + len
  small = omega (arith, room, sized)

  read_on :
      (j : ℕ) → head ≤ j → j < p.offset + len → written p (shift payload p.offset) len j ≡ payload j
  read_on j lo hi = elim (Bool-cases (ltb j p.offset)) [
    | inl e ↦
        written_before p (shift payload p.offset) len (omega (arith, headed)) j (omega arith)
          (ground (arith, e))
        ∙ copied j lo (ground (arith, e))
    | inr e ↦
        let le : p.offset ≤ j = ground (arith, e) in
        let back : p.offset + (j - p.offset) ≡ j = omega (arith, le) in
        sym (ap (written p (shift payload p.offset) len) back)
        ∙ written_inside p (shift payload p.offset) len (omega (arith, headed)) (j - p.offset)
            (omega (arith, le, hi))
        ∙ ap payload back
  ]

  grown-IsCopy : IsCopy payload head grown
  unfolding grown
  grown-IsCopy = record {
    copied = rw small read_on;
    summed = omega (
      arith,
      written_length p (shift payload p.offset) len (omega (arith, headed)),
      summed,
      small,
      room,
      sized,
    );
    headed = omega (arith, small, headed);
    bounded = omega (arith, small, room);
    sized = sized;
  }

append_item-cases :
    (payload : Octets) (head : ℕ) (p : GtpPacket) (len : ℕ)
    → 4 ≤ head
    → IsCopy payload head p
    → ((append_item p (payload p.offset) (shift payload p.offset) len ≡ none)
        × ((len ≡ 0) ⊎ (ether_max_len ≤ p.offset + len)))
      ⊎ ((q : GtpPacket) × (append_item p (payload p.offset) (shift payload p.offset) len ≡ some q)
          × IsCopy payload head q
          × (q.offset ≡ p.offset + len)
          × (q.items
              ≡ p.items
                ++ (record { type = payload p.offset; length = len; offset = p.offset } ∷ []))
          × (0 < len))
unfolding append_item grown next_item
append_item-cases payload head p len hh copy =
    elim (Bool-cases (len == 0 || leb p.length (p.offset + len))) [
      | inl e ↦ inl (rw e refl, ground (arith, e, copy.sized))
      | inr e ↦
          let pos : 0 < len = ground (arith, e) in
          let room : p.offset + len < p.length = ground (arith, e) in
          inr (
            grown payload head p len hh copy pos room,
            rw e refl,
            grown-IsCopy payload head p len hh copy pos room,
            small payload head p len hh copy pos room,
            refl,
            pos,
          )
    ]

packet_of : GtpPacket → Made → GtpPacket
packet_of d (made q) = q
packet_of d (failed o) = d

is_made : Made → Bool
is_made (made q) = true
is_made (failed o) = false

pub made_inj : (p q : GtpPacket) → made p ≡ made q → p ≡ q
unfolding packet_of
made_inj p q e = ap (packet_of p) e

pub failed-made : (o : Option GtpPacket) (q : GtpPacket) → failed o ≢ made q
unfolding is_made
failed-made o q e = let clash : false ≡ true = ap is_made e in ground (arith, clash)

module _ (payload : Octets) (len head : ℕ) (hh : 4 ≤ head) where
  -- What a packet became that was read to its end from the packet `p`, in so many rounds.
  abbrev pub Completed : ℕ → GtpPacket → GtpPacket → Type 0
  Completed rounds p q =
      (items : List GtpItem) × (q.items ≡ p.items ++ items)
      × Tiles payload len p.offset items
      × IsCopy payload head q
      × (q.offset ≡ len)
      × (length items ≤ rounds)

  Completed-step :
      (rounds : ℕ) (p g q : GtpPacket) (hlen : ℕ)
      → hlen ≡ item_length payload p.offset
      → 0 < hlen
      → g.offset ≡ p.offset + hlen
      → g.items
        ≡ p.items ++ (record { type = payload p.offset; length = hlen; offset = p.offset } ∷ [])
      → Completed rounds g q
      → Completed (suc rounds) p q
  Completed-step rounds p g q hlen eh pos eo ei (items, es, tiles, copy, end, few) = (
    record { type = payload p.offset; length = hlen; offset = p.offset } ∷ items,
    es
        ∙ ap (λ t. t ++ items) ei
        ∙ append_assoc p.items
            (record { type = payload p.offset; length = hlen; offset = p.offset } ∷ []) items,
    ((refl, refl, eh, pos), subst (λ t. Tiles payload len t items) eo tiles),
    copy,
    end,
    omega (arith, few),
  )

  pub parse_items-Completed :
      (rounds : ℕ) (p q : GtpPacket)
      → IsCopy payload head p
      → parse_items rounds p payload len p.offset ≡ made q
      → Completed rounds p q
  unfolding parse_items
  parse_items-Completed zero p q copy e = absurd (failed-made none q e)
  parse_items-Completed (suc rounds) p q copy e =
      let hlen = item_length payload p.offset in
      elim (append_item-cases payload head p hlen hh copy) [
        | inl (a, why) ↦
            let step : parse_items (suc rounds) p payload len p.offset ≡ failed none =
              rw (a, parse_items) refl in
            absurd (failed-made none q (sym step ∙ e))
        | inr (g, a, gcopy, go, gi, pos) ↦
            let small : (p.offset + hlen) % 2 ^ 16 ≡ g.offset =
              omega (arith, go, gcopy.bounded, gcopy.sized) in
            elim (Bool-cases (ltb len g.offset)) [
              | inl l ↦
                  let step : parse_items (suc rounds) p payload len p.offset ≡ failed (some g) =
                    rw (a, parse_items, small, l) refl in
                  absurd (failed-made (some g) q (sym step ∙ e))
              | inr l ↦ elim (Bool-cases (g.offset == len)) [
                | inl n ↦
                    let step : parse_items (suc rounds) p payload len p.offset ≡ made g =
                      rw (a, parse_items, small, l, small, n) refl in
                    let end : g.offset ≡ len = ground (arith, n) in
                    subst (Completed (suc rounds) p) (made_inj g q (sym step ∙ e)) (
                      Completed-step rounds p g g hlen refl pos go gi
                        ([], sym (append-nil g.items), end, gcopy, end, omega arith))
                | inr n ↦
                    let step : parse_items (suc rounds) p payload len p.offset
                        ≡ parse_items rounds g payload len g.offset =
                      rw (a, parse_items, small, l, small, n, small) refl in
                    Completed-step rounds p g q hlen refl pos go gi
                      (parse_items-Completed rounds g q gcopy (sym step ∙ e))
              ]
            ]
      ]

  pub Tiles-le : (offset : ℕ) (items : List GtpItem) → Tiles payload len offset items → offset ≤ len
  Tiles-le offset [] t = omega (arith, t)
  Tiles-le offset (item ∷ items) t = omega (arith, Tiles-le (offset + item.length) items t.1)

  -- Items that fill the datagram are read, if there are not too many and they find room.
  pub parse_items-made :
      (rounds : ℕ) (p : GtpPacket) (item : GtpItem) (items : List GtpItem)
      → IsCopy payload head p
      → Tiles payload len p.offset (item ∷ items)
      → length items < rounds
      → len < ether_max_len
      → (q : GtpPacket) × (parse_items rounds p payload len p.offset ≡ made q)
  unfolding parse_items
  parse_items-made zero p item items copy t few room = absurd (omega (arith, few))
  parse_items-made (suc rounds) p item items copy t few room =
      let hlen = item_length payload p.offset in
      let same : item.length ≡ hlen = t.0.2 in
      let fits : p.offset + hlen ≤ len =
        subst (λ h. p.offset + h ≤ len) same (Tiles-le (p.offset + item.length) items t.1) in
      elim (append_item-cases payload head p hlen hh copy) [
        | inl (a, inl why) ↦ absurd (omega (arith, why, same, t.0.3))
        | inl (a, inr why) ↦ absurd (omega (arith, why, fits, room))
        | inr (g, a, gcopy, go, gi, pos) ↦
            let small : (p.offset + hlen) % 2 ^ 16 ≡ g.offset =
              omega (arith, go, gcopy.bounded, gcopy.sized) in
            let l : ltb len g.offset ≡ false = ground (arith, go, fits) in
            let there : Tiles payload len g.offset items =
              subst (λ o. Tiles payload len o items) (ap (λ h. p.offset + h) same ∙ sym go) t.1 in
            elim (Bool-cases (g.offset == len)) [
              | inl n ↦ (g, rw (a, parse_items, small, l, small, n) refl)
              | inr n ↦
                  let (q, e) =
                    more g items (λ i is. parse_items-made rounds g i is gcopy) there few n in
                  (q, rw (a, parse_items, small, l, small, n, small) e)
            ]
      ]
    where
      more :
          (g : GtpPacket) (items : List GtpItem)
          → ((item : GtpItem) (rest : List GtpItem)
              → Tiles payload len g.offset (item ∷ rest)
              → length rest < rounds
              → len < ether_max_len
              → (q : GtpPacket) × (parse_items rounds g payload len g.offset ≡ made q))
          → Tiles payload len g.offset items
          → length items < suc rounds
          → (g.offset == len) ≡ false
          → (q : GtpPacket) × (parse_items rounds g payload len g.offset ≡ made q)
      more g [] next t few n = absurd (ground (arith, t, n))
      more g (item ∷ rest) next t few n = next item rest t (omega (arith, few)) room
