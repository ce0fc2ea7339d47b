-- ===== src/Dataplane/Policer/Table.antt =====
-- The policer on the whole map of entries, through Find with a callback.
use mixi_pgw.Prelude.{
  ℕ, sym, ◌∙◌, ◌≡◌, refl, Bool, true, false, ◌==◌, Option, none, some, List, lookup, insert,
  lookup-insert, htonl, arith, inl, inr, Option-cases,
}
use mixi_pgw.Dataplane.Policer.{
  Item, Metered, masked, ingress_callback, egress_callback, find_update,
}
use mixi_pgw.Dataplane.Policer.Refill.{IsWithin, meter-IsWithin}

-- Every entry's buckets are within their sizes.
abbrev pub AllWithin : List (ℕ × Item) → Type 0
AllWithin map = (key : ℕ) (itm : Item) → lookup key map ≡ some itm → IsWithin itm

-- A callback that leaves the tunnel of an entry alone and keeps its buckets within their sizes.
record IsPolicing (callback : Item → Option Metered) : Type 0 where
  pub bounded : (itm : Item) (m : Metered) → callback itm ≡ some m → IsWithin itm → IsWithin m.entry

ingress_callback-IsPolicing :
    (findkey now size : ℕ) → IsPolicing (ingress_callback findkey now size)
unfolding ingress_callback
ingress_callback-IsPolicing findkey now size = record {
  bounded = λ itm m e w. ground (arith, meter-IsWithin now size itm w);
}

egress_callback-IsPolicing : (teid now size : ℕ) → IsPolicing (egress_callback teid now size)
unfolding egress_callback
egress_callback-IsPolicing teid now size = record {
  bounded = λ itm m e w. ground (arith, meter-IsWithin now size itm w);
}

find_update-AllWithin :
    (b : Bool) (key : ℕ) (callback : Item → Option Metered) (map : List (ℕ × Item))
    → IsPolicing callback
    → AllWithin map
    → AllWithin (find_update b key callback map).0
unfolding find_update
find_update-AllWithin false key callback map p v = v
find_update-AllWithin true key callback map p v = elim (Option-cases (lookup (htonl key) map)) [
  | inl n ↦ rw (n, find_update) v
  | inr (itm, found) ↦ elim (Option-cases (callback itm)) [
    | inl c ↦ rw (found, c, find_update) v
    | inr (m, c) ↦
        rw (found, c, find_update)
          λ j u e.
            let kept = p.bounded itm m c (v (htonl key) itm found) in
            ground (arith, lookup-insert (htonl key) j m.entry map, v j u)
  ]
]

-- Both directions keep every bucket of every entry within its size, whatever packets come.
pub police-AllWithin :
    (findtype : Bool) (key findkey teid now size : ℕ) (map : List (ℕ × Item))
    → AllWithin map
    → AllWithin (find_update findtype key (ingress_callback findkey now size) map).0
      × AllWithin (find_update findtype key (egress_callback teid now size) map).0
police-AllWithin findtype key findkey teid now size map v = (
  find_update-AllWithin findtype key (ingress_callback findkey now size) map
      (ingress_callback-IsPolicing findkey now size) v,
  find_update-AllWithin findtype key (egress_callback teid now size) map
      (egress_callback-IsPolicing teid now size) v,
)

-- A packet whose inner source address is not the subscriber's takes no tokens from anybody.
spoofed-find_update :
    (findtype : Bool) (key findkey now size : ℕ) (map : List (ℕ × Item)) (itm : Item)
    → lookup (htonl key) map ≡ some itm
    → ¬ (masked itm.ue_ipv4 ≡ masked findkey)
    → find_update findtype key (ingress_callback findkey now size) map ≡ (map, none)
unfolding find_update ingress_callback
spoofed-find_update false key findkey now size map itm found apart = refl
spoofed-find_update true key findkey now size map itm found apart =
    let no : (masked itm.ue_ipv4 == masked findkey) ≡ false = ground arith in
    rw (found, no, find_update) refl

-- A callback that takes an entry leaves its work in the map.
pub find_update-found :
    (b : Bool) (key : ℕ) (callback : Item → Option Metered) (map : List (ℕ × Item)) (itm : Item)
    (m : Metered)
    → b ≡ true
    → lookup (htonl key) map ≡ some itm
    → callback itm ≡ some m
    → find_update b key callback map ≡ (insert (htonl key) m.entry map, some m)
unfolding find_update
find_update-found false key callback map itm m typed found taken = cc
find_update-found true key callback map itm m typed found taken =
    rw (found, taken, find_update) refl

-- What Find's callback left was found and taken.
pub find_update-taken :
    (b : Bool) (key : ℕ) (callback : Item → Option Metered) (map : List (ℕ × Item)) (m : Metered)
    → (find_update b key callback map).1 ≡ some m
    → (itm : Item) × ((lookup (htonl key) map ≡ some itm) × (callback itm ≡ some m))
unfolding find_update
find_update-taken false key callback map m e = cc
find_update-taken true key callback map m e = elim (Option-cases (lookup (htonl key) map)) [
  | inl n ↦
      let no : (find_update true key callback map).1 ≡ none = rw (n, find_update) refl in
      absurd (some_none (sym e ∙ no))
  | inr (itm, found) ↦ elim (Option-cases (callback itm)) [
    | inl c ↦
        let no : (find_update true key callback map).1 ≡ none = rw (found, c, find_update) refl in
        absurd (some_none (sym e ∙ no))
    | inr (m', c) ↦
        let yes : (find_update true key callback map).1 ≡ some m' =
          rw (found, c, find_update) refl in
        (itm, (found, c ∙ sym yes ∙ e))
  ]
]
  where
    some_none : {m : Metered} → some m ≡ none → ⊥
    some_none e = cc
