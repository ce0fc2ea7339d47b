-- ===== src/Ctrlplane/Gtpc/Version1/Progress.antt =====
-- Whether the loops of _ParseImsi (ctrlplane/src/proxy/proxy_event.cc) over a version 1 request end.
use mixi_pgw.Prelude.{
  ℕ, suc, ◌/◌, ◌%◌, ◌^◌, ◌<◌, ◌≤◌, ◌≡◌, ◌≢◌, ◌⊎◌, inl, inr, refl, sym, ap, ◌∙◌, arith, Bool, true,
  false, ◌==◌, Option, some, Bool-cases,
}
use mixi_pgw.Ctrlplane.Gtpc.{
  Octets, GtpPacket, Made, made, failed, iterate_item, alloc_packet_from_payload, version, u16_at,
  shift,
}
use mixi_pgw.Ctrlplane.Gtpc.State.{ParseState, on_gtpc_parse_root, state_of}
use mixi_pgw.Ctrlplane.Gtpc.Version1.{
  Walked, running, rejected, walked, next_offset, message_len, parse_item, walk_items, Parsed,
  unfinished, v1_start, v1_items_start, parse_imsi_v1, parse_imsi_v2, is_parsed, item_lengths,
  parse_imsi,
}
use mixi_pgw.Ctrlplane.Gtpc.Version1.Loops.{
  IsEmptyExtension, ComesToExtension, ComesToItem, skip_extensions_stuck, walk_items_ends,
  walk_items_stuck, v1_items_start_ends,
}

is_unfinished : Parsed → Bool
is_unfinished unfinished = true
is_unfinished _ = false

finished : {r : Parsed} → is_unfinished r ≡ false → r ≢ unfinished
unfolding is_unfinished
finished {r} h e = let clash : false ≡ true = sym h ∙ ap is_unfinished e in ground (arith, clash)

Walked-cases :
    (w : Walked) → (w ≡ running) ⊎ ((w ≡ rejected) ⊎ ((cs : ParseState) × (w ≡ walked cs)))
Walked-cases running = inl refl
Walked-cases rejected = inr (inl refl)
Walked-cases (walked cs) = inr (inr (cs, refl))

walk_finishes :
    (rounds : ℕ) (rbuf : Octets) (rlen offset : ℕ) (cs : ParseState)
    → v1_items_start rounds rbuf rlen ≡ some offset
    → walk_items rounds rbuf rlen offset cs ≢ running
    → is_unfinished (parse_imsi_v1 rounds rbuf rlen cs) ≡ false
unfolding parse_imsi_v1 is_unfinished
walk_finishes rounds rbuf rlen offset cs s ends =
    elim (Walked-cases (walk_items rounds rbuf rlen offset cs)) [
      | inl w ↦ absurd (ends w)
      | inr (inl w) ↦ rw (parse_imsi_v1, s, w) refl
      | inr (inr (after, w)) ↦ elim (Bool-cases (after.flag_v1 25)) [
        | inl f ↦ rw (parse_imsi_v1, s, w, f) refl
        | inr f ↦ rw (parse_imsi_v1, s, w, f) refl
      ]
    ]

parse_imsi_v1_ends :
    (rbuf : Octets) (rlen : ℕ) (cs : ParseState)
    → ((j : ℕ) → rbuf j < 2 ^ 8)
    → rlen < 2 ^ 15
    → (is_unfinished (parse_imsi_v1 (suc rlen) rbuf rlen cs) ≡ false)
      ⊎ (ComesToExtension rbuf rlen ⊎ ComesToItem rbuf rlen)
parse_imsi_v1_ends rbuf rlen cs octets short = elim (v1_items_start_ends rbuf rlen octets short) [
  | inr stuck ↦ inr (inl stuck)
  | inl (offset, s) ↦
      elim (walk_items_ends (suc rlen) rbuf rlen offset cs (omega arith) (omega arith)) [
        | inr (o, way, stuck) ↦
            inr
              (inr (record { start = offset; started = s; at = o; walked_to = way; stuck = stuck }))
        | inl ends ↦ inl (walk_finishes (suc rlen) rbuf rlen offset cs s ends)
      ]
]

parse_imsi_v2_ends :
    (rbuf : Octets) (rlen : ℕ) (cs : ParseState)
    → is_unfinished (parse_imsi_v2 rbuf rlen cs) ≡ false
unfolding parse_imsi_v2 is_unfinished
parse_imsi_v2_ends rbuf rlen cs =
    elim (Made-cases (alloc_packet_from_payload rbuf (rlen % 2 ^ 16))) [
      | inl (left, e) ↦ rw (parse_imsi_v2, e) refl
      | inr (p, e) ↦
          let after = state_of (iterate_item on_gtpc_parse_root p cs) in
          elim (Bool-cases (after.flag 25)) [
            | inr f ↦ rw (parse_imsi_v2, e, f) refl
            | inl f ↦ elim (Bool-cases (after.flag 30)) [
              | inl g ↦ rw (parse_imsi_v2, e, f, g) refl
              | inr g ↦ rw (parse_imsi_v2, e, f, g) refl
            ]
          ]
    ]
  where
    Made-cases :
        (r : Made) → ((o : Option GtpPacket) × (r ≡ failed o)) ⊎ ((p : GtpPacket) × (r ≡ made p))
    Made-cases (failed o) = inl (o, refl)
    Made-cases (made p) = inr (p, refl)

-- _ParseImsi returns on a datagram of octets of less than 2 ^ 15, after at most as many rounds of a
-- loop as it has octets and one more, unless its extension headers, from the first of them on, lead to
-- one of length 0, or its items, from the first of them on, lead to one behind which the 16-bit
-- offset of the next does not lie.
pub parse_imsi_ends :
    (rbuf : Octets) (rlen : ℕ) (cs : ParseState)
    → ((j : ℕ) → rbuf j < 2 ^ 8)
    → rlen < 2 ^ 15
    → (parse_imsi (suc rlen) rbuf rlen cs ≢ unfinished)
      ⊎ (ComesToExtension rbuf rlen ⊎ ComesToItem rbuf rlen)
unfolding parse_imsi
parse_imsi_ends rbuf rlen cs octets short = elim (Bool-cases (version rbuf == 2)) [
  | inl v ↦ inl (rw (parse_imsi, v) (finished (parse_imsi_v2_ends rbuf rlen cs)))
  | inr v ↦ elim (parse_imsi_v1_ends rbuf rlen cs octets short) [
    | inl ends ↦ inl (rw (parse_imsi, v) (finished ends))
    | inr stuck ↦ inr stuck
  ]
]

-- A datagram of another version than 2 with the extension flag, a next extension header that is
-- announced and has the length 0, keeps _ParseImsi in its loop for ever: no number of rounds is
-- enough.
pub parse_imsi_hangs :
    (rounds : ℕ) (rbuf : Octets) (rlen : ℕ) (cs : ParseState)
    → (version rbuf == 2) ≡ false
    → rbuf 0 / 4 % 2 ≡ 1
    → IsEmptyExtension rbuf rlen 12
    → parse_imsi rounds rbuf rlen cs ≡ unfinished
unfolding parse_imsi parse_imsi_v1 v1_items_start v1_start
parse_imsi_hangs rounds rbuf rlen cs v x stuck =
    let flagged : (rbuf 0 / 4 % 2 == 1) ≡ true = ground (arith, x) in
    let start : (rbuf 0 % 8 == 0) ≡ false = ground (arith, x) in
    rw
      (
        parse_imsi,
        v,
        parse_imsi_v1,
        v1_items_start,
        flagged,
        v1_start,
        start,
        skip_extensions_stuck rounds rbuf rlen 12 stuck,
      )
      refl

passed_over :
    (rbuf : Octets) (o : ℕ) (cs : ParseState)
    → is_parsed (rbuf o) ≡ false
    → parse_item rbuf 0 o cs ≡ some cs
unfolding parse_item
passed_over rbuf o cs g = rw (parse_item, g) refl

stays :
    (rbuf : Octets) (o : ℕ) → u16_at (shift rbuf o) 1 ≡ 0xfffd → o ≤ 12 → next_offset rbuf 0 o ≡ o
unfolding next_offset item_lengths
stays rbuf o u le = omega (arith, u, le)

v1_start-le : (rbuf : Octets) → v1_start rbuf ≤ 12
unfolding v1_start
v1_start-le rbuf = ground arith

-- A request of another version than 2 without extension headers, whose first item has a variable
-- length of 0xfffd, and no parser, keeps _ParseImsi in its loop for ever: the length with the header
-- is 0 in 16 bits.
parse_imsi_hangs_on_item :
    (rounds : ℕ) (rbuf : Octets) (rlen : ℕ) (cs : ParseState)
    → (version rbuf == 2) ≡ false
    → rbuf 0 / 4 % 2 ≡ 0
    → v1_start rbuf < rlen
    → message_len (rbuf (v1_start rbuf)) ≡ some 0
    → is_parsed (rbuf (v1_start rbuf)) ≡ false
    → u16_at (shift rbuf (v1_start rbuf)) 1 ≡ 0xfffd
    → parse_imsi rounds rbuf rlen cs ≡ unfinished
unfolding parse_imsi parse_imsi_v1 v1_items_start
parse_imsi_hangs_on_item rounds rbuf rlen cs v x inside m g u =
    let flagged : (rbuf 0 / 4 % 2 == 1) ≡ false = ground (arith, x) in
    let here = v1_start rbuf in
    let stuck =
      walk_items_stuck rounds rbuf rlen here 0 cs inside m (passed_over rbuf here cs g)
        (stays rbuf here u (v1_start-le rbuf)) in
    rw (parse_imsi, v, parse_imsi_v1, v1_items_start, flagged, stuck) refl
