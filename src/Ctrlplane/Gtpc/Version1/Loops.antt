-- ===== src/Ctrlplane/Gtpc/Version1/Loops.antt =====
-- The two loops of _ParseImsi (ctrlplane/src/proxy/proxy_event.cc) over a version 1 request: the
-- extension headers and the items.
use mixi_pgw.Prelude.{
  ℕ, zero, suc, ◌+◌, ◌-◌, ◌*◌, ◌/◌, ◌%◌, ◌^◌, ◌<◌, ◌≤◌, ◌≡◌, ◌≢◌, ◌⊎◌, inl, inr, refl, ap, ◌∙◌,
  arith, Bool, true, false, ◌==◌, ltb, leb, none, some, Bool-cases, Option-cases,
}
use mixi_pgw.Ctrlplane.Gtpc.{Octets}
use mixi_pgw.Ctrlplane.Gtpc.State.{ParseState}
use mixi_pgw.Ctrlplane.Gtpc.Version1.{
  skip_extensions, Walked, running, rejected, walked, next_offset, message_len, parse_item,
  walk_items, v1_start, v1_items_start,
}

-- An extension header of length 0 behind an octet that announces it.
pub record IsEmptyExtension (rbuf : Octets) (rlen o : ℕ) : Type 0 where
  pub inside : o < rlen
  pub small : o < 2 ^ 16
  pub empty : rbuf o ≡ 0
  pub announced : rbuf (o - 1) ≢ 0

-- From one octet to another over extension headers that are not empty, each inside the datagram and
-- followed by an announced one.
pub data IsSkipped (rbuf : Octets) (rlen : ℕ) : ℕ → ℕ → Type 0 where
  here : {o : ℕ} → IsSkipped rbuf rlen o o
  over :
      {o to : ℕ}
      → o < rlen
      → rbuf o ≢ 0
      → rbuf (o + rbuf o * 4 - 1) ≢ 0
      → IsSkipped rbuf rlen (o + rbuf o * 4) to
      → IsSkipped rbuf rlen o to

-- The extension headers of the datagram lead to an empty one.
pub record ComesToExtension (rbuf : Octets) (rlen : ℕ) : Type 0 where
  pub flagged : rbuf 0 / 4 % 2 ≡ 1
  pub at : ℕ
  pub skipped : IsSkipped rbuf rlen (v1_start rbuf) at
  pub stuck : IsEmptyExtension rbuf rlen at

pub skip_extensions_stuck :
    (rounds : ℕ) (rbuf : Octets) (rlen o : ℕ)
    → IsEmptyExtension rbuf rlen o
    → skip_extensions rounds rbuf rlen o ≡ none
unfolding skip_extensions
skip_extensions_stuck zero rbuf rlen o h = refl
skip_extensions_stuck (suc rounds) rbuf rlen o h =
    let inside : ltb o rlen ≡ true = ground (arith, h.inside) in
    let same : (o + rbuf o * 4) % 2 ^ 16 ≡ o = omega (arith, h.small, h.empty) in
    let on : (rbuf (o - 1) == 0) ≡ false = ground (arith, h.announced) in
    rw (skip_extensions, inside, same, on, same) (skip_extensions_stuck rounds rbuf rlen o h)

skip_extensions_ends :
    (rounds : ℕ) (rbuf : Octets) (rlen offset : ℕ)
    → ((j : ℕ) → rbuf j < 2 ^ 8)
    → rlen < 2 ^ 15
    → rlen < rounds + offset
    → 0 < rounds
    → ((o : ℕ) × (skip_extensions rounds rbuf rlen offset ≡ some o))
      ⊎ ((o : ℕ) × IsSkipped rbuf rlen offset o × IsEmptyExtension rbuf rlen o)
unfolding skip_extensions
skip_extensions_ends zero rbuf rlen offset octets short enough pos = absurd (omega (arith, pos))
skip_extensions_ends (suc rounds) rbuf rlen offset octets short enough pos =
    elim (Bool-cases (ltb offset rlen)) [
      | inr e ↦ inl (offset, rw (skip_extensions, e) refl)
      | inl e ↦
          let inside : offset < rlen = ground (arith, e) in
          let next : (offset + rbuf offset * 4) % 2 ^ 16 ≡ offset + rbuf offset * 4 =
            omega (arith, inside, short, octets offset) in
          elim (Bool-cases (rbuf (offset + rbuf offset * 4 - 1) == 0)) [
            | inl z ↦ inl (offset + rbuf offset * 4, rw (skip_extensions, e, next, z, next) refl)
            | inr z ↦ elim (Bool-cases (rbuf offset == 0)) [
              | inl s ↦
                  let empty : rbuf offset ≡ 0 = ground (arith, s) in
                  let same : offset + rbuf offset * 4 ≡ offset = omega (arith, empty) in
                  inr (
                    offset,
                    here,
                    record {
                      inside = inside;
                      small = omega (arith, inside, short);
                      empty = empty;
                      announced = λ q. nonzero z (ap (λ t. rbuf (t - 1)) same ∙ q);
                    },
                  )
              | inr s ↦
                  elim (skip_extensions_ends rounds rbuf rlen (offset + rbuf offset * 4) octets
                    short (omega (arith, enough, nonempty s)) (omega (arith, enough, inside))) [
                      | inl (o, r) ↦ inl (o, rw (skip_extensions, e, next, z, next) r)
                      | inr (o, way, stuck) ↦ inr (o, over inside (filled s) (nonzero z) way, stuck)
                    ]
            ]
          ]
    ]
  where
    nonzero : {x : ℕ} → (x == 0) ≡ false → x ≢ 0
    nonzero {x} z = ground (arith, z)

    filled : (rbuf offset == 0) ≡ false → rbuf offset ≢ 0
    filled s = ground (arith, s)

    nonempty : (rbuf offset == 0) ≡ false → 0 < rbuf offset
    nonempty s = ground (arith, s)

-- An item after which the next one does not stand further on.
pub record IsNoProgress (rbuf : Octets) (rlen o : ℕ) : Type 0 where
  pub inside : o < rlen
  pub len : ℕ
  pub known : message_len (rbuf o) ≡ some len
  pub back : next_offset rbuf len o ≤ o

-- From one octet to another over items inside the datagram, each with the next behind it.
pub data IsWalked (rbuf : Octets) (rlen : ℕ) : ℕ → ℕ → Type 0 where
  here : {o : ℕ} → IsWalked rbuf rlen o o
  over :
      {o to len : ℕ}
      → o < rlen
      → message_len (rbuf o) ≡ some len
      → o < next_offset rbuf len o
      → IsWalked rbuf rlen (next_offset rbuf len o) to
      → IsWalked rbuf rlen o to

-- The items of the datagram lead to one behind which the next does not stand.
pub record ComesToItem (rbuf : Octets) (rlen : ℕ) : Type 0 where
  pub start : ℕ
  pub started : v1_items_start (suc rlen) rbuf rlen ≡ some start
  pub at : ℕ
  pub walked_to : IsWalked rbuf rlen start at
  pub stuck : IsNoProgress rbuf rlen at

is_running : Walked → Bool
is_running running = true
is_running rejected = false
is_running (walked cs) = false

rejected-running : rejected ≢ running
unfolding is_running
rejected-running e = let clash : false ≡ true = ap is_running e in ground (arith, clash)

walked-running : {cs : ParseState} → walked cs ≢ running
unfolding is_running
walked-running e = let clash : false ≡ true = ap is_running e in ground (arith, clash)

pub walk_items_ends :
    (rounds : ℕ) (rbuf : Octets) (rlen offset : ℕ) (cs : ParseState)
    → rlen < rounds + offset
    → 0 < rounds
    → (walk_items rounds rbuf rlen offset cs ≢ running)
      ⊎ ((o : ℕ) × IsWalked rbuf rlen offset o × IsNoProgress rbuf rlen o)
unfolding walk_items
walk_items_ends zero rbuf rlen offset cs enough pos = absurd (omega (arith, pos))
walk_items_ends (suc rounds) rbuf rlen offset cs enough pos = elim (Bool-cases (ltb offset rlen)) [
  | inr e ↦ inl (rw (walk_items, e) walked-running)
  | inl e ↦ elim (Option-cases (message_len (rbuf offset))) [
    | inl m ↦ inl (rw (walk_items, e, m) rejected-running)
    | inr (len, m) ↦ elim (Option-cases (parse_item rbuf len offset cs)) [
      | inl g ↦ inl (rw (walk_items, e, m, g) rejected-running)
      | inr (after, g) ↦ elim (Bool-cases (leb (next_offset rbuf len offset) offset)) [
        | inl b ↦ inr (
          offset,
          here,
          record { inside = ground (arith, e); len = len; known = m; back = ground (arith, b) },
        )
        | inr b ↦
            let on : offset < next_offset rbuf len offset = ground (arith, b) in
            let inside : offset < rlen = ground (arith, e) in
            elim (walk_items_ends rounds rbuf rlen (next_offset rbuf len offset) after
              (omega (arith, on, enough)) (omega (arith, enough, inside))) [
                | inl r ↦ inl (rw (walk_items, e, m, g) r)
                | inr (o, way, stuck) ↦ inr (o, over inside m on way, stuck)
              ]
      ]
    ]
  ]
]

pub walk_items_stuck :
    (rounds : ℕ) (rbuf : Octets) (rlen o len : ℕ) (cs : ParseState)
    → o < rlen
    → message_len (rbuf o) ≡ some len
    → parse_item rbuf len o cs ≡ some cs
    → next_offset rbuf len o ≡ o
    → walk_items rounds rbuf rlen o cs ≡ running
unfolding walk_items
walk_items_stuck zero rbuf rlen o len cs h m g n = refl
walk_items_stuck (suc rounds) rbuf rlen o len cs h m g n =
    let inside : ltb o rlen ≡ true = ground (arith, h) in
    rw (walk_items, inside, m, g, n) (walk_items_stuck rounds rbuf rlen o len cs h m g n)

pub v1_items_start_ends :
    (rbuf : Octets) (rlen : ℕ)
    → ((j : ℕ) → rbuf j < 2 ^ 8)
    → rlen < 2 ^ 15
    → ((o : ℕ) × (v1_items_start (suc rlen) rbuf rlen ≡ some o)) ⊎ ComesToExtension rbuf rlen
unfolding v1_items_start
v1_items_start_ends rbuf rlen octets short = elim (Bool-cases (rbuf 0 / 4 % 2 == 1)) [
  | inr e ↦ inl (v1_start rbuf, rw (v1_items_start, e) refl)
  | inl e ↦
      elim (skip_extensions_ends (suc rlen) rbuf rlen (v1_start rbuf) octets short (omega arith)
        (omega arith)) [
          | inl (o, r) ↦ inl (o, rw (v1_items_start, e) r)
          | inr (o, way, stuck) ↦
              inr (record { flagged = ground (arith, e); at = o; skipped = way; stuck = stuck })
        ]
]
