-- ===== src/Ctrlplane/Gtpc/Bearer/Children.antt =====
-- gtpc_iterate_bearer_ctx_item (ctrlplane/src/pkt/gtpc_item_func.c) reads the children that
-- gtpc_bearer_ctx_add_child wrote.
use mathlib.Core.List.{append_assoc, append-nil}
use mathlib.Core.Path.{subst}
use mathlib.Core.Option.{some_inj}
use mixi_pgw.Prelude.{
  ℕ, zero, suc, ◌+◌, ◌-◌, ◌%◌, ◌^◌, ◌<◌, ◌≤◌, ◌≡◌, refl, sym, ap, ◌∙◌, fun_ext, arith, leb, ltb,
  ◌==◌, if◌then◌else◌, none, some, Bool-cases, inl, inr, ◌⊎◌, List, [], ◌∷◌, ◌++◌, map, All, length,
  true, false,
}
use mixi_pgw.Ctrlplane.Gtpc.{
  Octets, shift, memcpy, u16_at, put_u16, Visited, visited, capability_item_count,
}
use mixi_pgw.Ctrlplane.Gtpc.Memory.{memcpy_before, memcpy_inside, u16_at-put_u16}
use mixi_pgw.Ctrlplane.Gtpc.Items.{octets, item_len, prefix}
use mixi_pgw.Ctrlplane.Gtpc.State.{bearer_items, iterate_bearer_ctx_item}
use mixi_pgw.Ctrlplane.Gtpc.Bearer.{
  BearerCtx, bearer_ctx_set, bearer_ctx_add_child, bearer_ctx_octets, add_children,
}

-- A callback that notes the type and the octets of each item.
pub note : ℕ → Octets → ℕ → List (ℕ × List ℕ) → Visited (List (ℕ × List ℕ))
note type item len seen = visited (seen ++ ((type, prefix len item) ∷ []))

-- An item with a header, whose length field is that of its octets.
abbrev pub IsItem : List ℕ → Type 0
IsItem item = (item_len item ≡ length item) × (4 ≤ length item)

-- The octets of the items, one after the other.
abbrev Spelled : Octets → ℕ → ℕ → List (List ℕ) → Type 0
Spelled memory start end [] = start ≡ end
Spelled memory start end (item ∷ items) =
    ((i : ℕ) → i < length item → memory (start + i) ≡ octets item i)
    × Spelled memory (start + length item) end items

Spelled-le :
    (memory : Octets) (start end : ℕ) (items : List (List ℕ))
    → Spelled memory start end items
    → start ≤ end
Spelled-le memory start end [] h = omega (arith, h)
Spelled-le memory start end (item ∷ items) h =
    omega (arith, Spelled-le memory (start + length item) end items h.1)

Spelled-snoc :
    (memory after : Octets) (start end : ℕ) (items : List (List ℕ)) (last : List ℕ)
    → ((j : ℕ) → j < end → after j ≡ memory j)
    → ((i : ℕ) → i < length last → after (end + i) ≡ octets last i)
    → Spelled memory start end items
    → Spelled after start (end + length last) (items ++ (last ∷ []))
Spelled-snoc memory after start end [] last keeps puts h =
    ((λ i lt. ap (λ t. after (t + i)) h ∙ puts i lt), ap (λ t. t + length last) h)
Spelled-snoc memory after start end (item ∷ items) last keeps puts h =
    let fits = Spelled-le memory (start + length item) end items h.1 in
    (
      (λ i lt. keeps (start + i) (omega (arith, fits, lt)) ∙ h.0 i lt),
      Spelled-snoc memory after (start + length item) end items last keeps puts h.1,
    )

record IsFilled (b : BearerCtx) (items : List (List ℕ)) : Type 0 where
  spelled : Spelled b.child 0 b.offset items
  summed : b.length ≡ b.offset
  bounded : b.offset < 256

prefix-octets :
    (item : List ℕ) (memory : Octets)
    → ((i : ℕ) → i < length item → memory i ≡ octets item i)
    → prefix (length item) memory ≡ item
unfolding prefix
prefix-octets [] memory h = refl
prefix-octets (x ∷ item) memory h =
    let rest = prefix-octets item (shift memory 1) (λ i lt.
      let step : 1 + i ≡ suc i = omega arith in ap memory step ∙ h (suc i) (omega arith)) in
    λ i. h 0 (omega arith) i ∷ rest i

named : List ℕ → ℕ × List ℕ
named item = (octets item 0, item)

-- One item in memory, as the loop reads it.
module _ (child : Octets) (cur : ℕ) (item : List ℕ) (is_item : IsItem item)
    (spelled : (i : ℕ) → i < length item → child (cur + i) ≡ octets item i) where
  first_read : child cur ≡ octets item 0
  first_read =
      let here : cur + 0 ≡ cur = omega arith in
      sym (ap child here) ∙ spelled 0 (omega (arith, is_item.1))

  len_read : (u16_at child (suc cur) + 4) % 2 ^ 16 ≡ length item
  unfolding u16_at item_len
  len_read =
      let one : cur + 1 ≡ suc cur = omega arith in
      let two : cur + 2 ≡ suc (suc cur) = omega arith in
      let high = sym (ap child one) ∙ spelled 1 (omega (arith, is_item.1)) in
      let low = sym (ap child two) ∙ spelled 2 (omega (arith, is_item.1)) in
      rw (high, low) is_item.0

  item_read : prefix (length item) (shift child cur) ≡ item
  item_read = prefix-octets item (shift child cur) spelled

-- One round of the loop.
module _ (rounds : ℕ) (child : Octets) (len cur : ℕ) (item : List ℕ) (seen : List (ℕ × List ℕ))
    (is_item : IsItem item) (spelled : (i : ℕ) → i < length item → child (cur + i) ≡ octets item i)
    (fits : cur + length item ≤ len) (small : len < 256) where
  bearer_items-round : bearer_items note (suc rounds) child len cur seen ≡ (
      if cur + length item == len
      then visited (seen ++ (named item ∷ []))
      else bearer_items note rounds child len (cur + length item) (seen ++ (named item ∷ [])))
  unfolding bearer_items note named
  bearer_items-round =
      let first = first_read child cur item is_item spelled in
      let hlen = len_read child cur item is_item spelled in
      let here = item_read child cur item is_item spelled in
      let next : (cur + length item) % 2 ^ 16 ≡ cur + length item = omega (arith, fits, small) in
      let inside : ltb cur len ≡ true = ground (arith, fits, is_item.1) in
      let over : ltb len (cur + length item) ≡ false = ground (arith, fits) in
      elim (Bool-cases (cur + length item == len)) [
        | inl n ↦
            rw (bearer_items, inside, note, hlen, next, over, hlen, next, n, first, hlen, here) refl
        | inr n ↦
            rw
              (bearer_items, inside, note, hlen, next, over, hlen, next, n, first, hlen, here, next)
              refl
      ]

bearer_items-note :
    (rounds : ℕ) (child : Octets) (len cur : ℕ) (item : List ℕ) (items : List (List ℕ))
    (seen : List (ℕ × List ℕ))
    → Spelled child cur len (item ∷ items)
    → All IsItem (item ∷ items)
    → len < 256
    → length items < rounds
    → bearer_items note rounds child len cur seen ≡ visited (seen ++ map named (item ∷ items))
unfolding named
bearer_items-note zero child len cur item items seen h all small few = absurd (omega (arith, few))
bearer_items-note (suc rounds) child len cur item [] seen h all small few =
    let n : (cur + length item == len) ≡ true = ground (arith, h.1) in
    bearer_items-round rounds child len cur item seen all.0 h.0 (omega (arith, h.1)) small
    ∙ rw n refl
bearer_items-note (suc rounds) child len cur item (second ∷ rest) seen h all small few =
    let after = Spelled-le child (cur + length item + length second) len rest h.1.1 in
    let n : (cur + length item == len) ≡ false = ground (arith, after, all.1.0.1) in
    bearer_items-round rounds child len cur item seen all.0 h.0 (omega (arith, after)) small
    ∙ rw n (
        bearer_items-note rounds child len (cur + length item) second rest
          (seen ++ (named item ∷ [])) h.1 all.1 small (omega (arith, few)))
    ∙ ap visited (append_assoc seen (named item ∷ []) (map named (second ∷ rest)))

-- The two outcomes of adding a child.
added-cases :
    (b : BearerCtx) (items : List (List ℕ)) (child : List ℕ)
    → IsItem child
    → IsFilled b items
    → (bearer_ctx_add_child b (octets child) (item_len child) ≡ none)
      ⊎ ((after : BearerCtx) × (bearer_ctx_add_child b (octets child) (item_len child) ≡ some after)
          × IsFilled after (items ++ (child ∷ [])))
unfolding bearer_ctx_add_child
added-cases b items child is_item h = elim (Bool-cases (leb 256 (b.offset + item_len child))) [
  | inl full ↦ inl (rw full refl)
  | inr room ↦
      let fits : b.offset + item_len child < 256 = ground (arith, room) in
      let len = is_item.0 in
      let small : (b.offset + item_len child) % 2 ^ 16 ≡ b.offset + length child =
        omega (arith, fits, len) in
      inr (
        record {
          length = (b.length + item_len child) % 2 ^ 16;
          child = memcpy b.child b.offset (octets child) (item_len child);
          offset = (b.offset + item_len child) % 2 ^ 16;
        },
        rw room refl,
        record {
          spelled = rw small (
              Spelled-snoc b.child (memcpy b.child b.offset (octets child) (item_len child)) 0
                b.offset items child
                (λ j lt. memcpy_before b.child b.offset (octets child) (item_len child) j lt)
                (λ i lt.
                  memcpy_inside b.child b.offset (octets child) (item_len child) i
                    (omega (arith, len, lt)))
                h.spelled);
          summed = omega (arith, h.summed, small, len, fits);
          bounded = omega (arith, small, len, fits);
        },
      )
]

add_children-IsFilled :
    (b after : BearerCtx) (before items : List (List ℕ))
    → All IsItem items
    → IsFilled b before
    → add_children b items ≡ some after
    → IsFilled after (before ++ items)
unfolding add_children
add_children-IsFilled b after before [] all h e =
    let same : b ≡ after = some_inj.0 e in
    rw (append-nil before) (subst (λ x. IsFilled x before) same h)
add_children-IsFilled b after before (child ∷ rest) all h e =
    elim (added-cases b before child all.0 h) [
      | inl full ↦
          let clash : none ≡ some after = sym (rw (add_children, full) refl) ∙ e in
          absurd (ground (arith, clash))
      | inr (next, made, filled) ↦
          let later : add_children next rest ≡ some after =
            sym (rw (add_children, made) refl) ∙ e in
          rw (← append_assoc before (child ∷ []) rest)
            (add_children-IsFilled next after (before ++ (child ∷ [])) rest all.1 filled later)
    ]

count_bound :
    (memory : Octets) (start end : ℕ) (items : List (List ℕ))
    → All IsItem items
    → Spelled memory start end items
    → start + length items ≤ end
count_bound memory start end [] all h = omega (arith, h)
count_bound memory start end (item ∷ items) all h =
    omega (arith, all.0.1, count_bound memory (start + length item) end items all.1 h.1)

child_read : (b : BearerCtx) → shift (bearer_ctx_octets b) 4 ≡ b.child
unfolding bearer_ctx_octets put_u16
child_read b =
    fun_ext λ j. let back : 4 + j - 4 ≡ j = omega arith in ground (arith, ap b.child back)

length_read : (b : BearerCtx) → b.length < 256 → u16_at (bearer_ctx_octets b) 1 ≡ b.length
unfolding bearer_ctx_octets
length_read b small =
    u16_at-put_u16 (λ j. if j == 0 then 93 else if leb 4 j then b.child (j - 4) else 0) 1 b.length
    ∙ omega (arith, small)

-- A bearer context that holds at least one item, whose items were added one after the other with
-- room for all and have length fields of their octets, is read back: gtpc_iterate_bearer_ctx_item
-- gives its callback the type and the octets of each, in their order, and returns OK.
pub iterate_bearer_ctx_item-add_children :
    (b : BearerCtx) (item : List ℕ) (items : List (List ℕ))
    → All IsItem (item ∷ items)
    → add_children bearer_ctx_set (item ∷ items) ≡ some b
    → iterate_bearer_ctx_item note (bearer_ctx_octets b) []
      ≡ visited (map (λ item. (octets item 0, item)) (item ∷ items))
unfolding iterate_bearer_ctx_item named bearer_ctx_set
iterate_bearer_ctx_item-add_children b item items all e =
    let start : IsFilled bearer_ctx_set [] = record {
      spelled = refl;
      summed = refl;
      bounded = omega arith;
    } in
    let filled = add_children-IsFilled bearer_ctx_set b [] (item ∷ items) all start e in
    let few = count_bound b.child 0 b.offset (item ∷ items) all filled.spelled in
    let len = length_read b (omega (arith, filled.summed, filled.bounded)) ∙ filled.summed in
    rw (iterate_bearer_ctx_item, child_read b, len)
      (bearer_items-note capability_item_count b.child b.offset 0 item items [] filled.spelled all
        filled.bounded (omega (arith, few, filled.bounded)))
