-- ===== src/Ctrlplane/Peers/Table.antt =====
-- ctrlplane/src/cmn/sgw_peers.c: the tail queue is a map from addresses to counters and times, as
-- long as it is changed by its own functions alone.
use mixi_pgw.Prelude.{
  ℕ, ◌≡◌, ◌≢◌, refl, arith, Bool, true, false, ◌==◌, if◌then◌else◌, Option, none, some, List, [],
  ◌∷◌, ◌++◌, Bool-cases, inl, inr, ◌⊎◌, length,
}
use mixi_pgw.Ctrlplane.Peers.{
  SgwPeer, SgwPeers, create_sgw_peers, write_peer, set_sgw_peer, visit_peers, get_sgw_peer,
  remove_peer, delete_sgw_peer, all_peers,
}

-- The abstract view: what the first peer with an address holds.
unfoldable pub find_peer : ℕ → List SgwPeer → Option (ℕ × ℕ)
find_peer ip [] = none
find_peer ip (p1 ∷ rest) = if p1.ip == ip then some (p1.counter, p1.expire) else find_peer ip rest

-- No address stands twice.
abbrev pub Once : List SgwPeer → Type 0
Once [] = Unit
Once (p1 ∷ rest) = (find_peer p1.ip rest ≡ none) × Once rest

-- The write of a peer that is there, and its absence, as the view sees them.
pub write_peer-cases :
    (ip counter expire : ℕ) (ps : List SgwPeer)
    → Once ps
    → ((write_peer ip counter expire ps ≡ none) × (find_peer ip ps ≡ none))
      ⊎ ((written : List SgwPeer) × (write_peer ip counter expire ps ≡ some written)
          × Once written
          × (length written ≡ length ps)
          × ((j : ℕ)
              → find_peer j written ≡ (if ip == j then some (counter, expire) else find_peer j ps)))
unfolding write_peer find_peer
write_peer-cases ip counter expire [] once = inl (refl, refl)
write_peer-cases ip counter expire (p1 ∷ rest) once = elim (Bool-cases (p1.ip == ip)) [
  | inl e ↦ inr (
    record p1 { counter = counter; expire = expire } ∷ rest,
    rw (write_peer, e) refl,
    once,
    refl,
    (λ j. ground (arith, e)),
  )
  | inr e ↦ elim (write_peer-cases ip counter expire rest once.1) [
    | inl (w, f) ↦ inl (rw (write_peer, e, w) refl, rw (find_peer, e) f)
    | inr (written, w, after, len, f) ↦ inr (
      p1 ∷ written,
      rw (write_peer, e, w) refl,
      (ground (arith, e, f p1.ip, once.0), after),
      omega (arith, len),
      (λ j. ground (arith, e, f j)),
    )
  ]
]

pub find_peer-append :
    (j : ℕ) (ps : List SgwPeer) (new : SgwPeer)
    → find_peer new.ip ps ≡ none
    → find_peer j (ps ++ (new ∷ []))
      ≡ (if new.ip == j then some (new.counter, new.expire) else find_peer j ps)
unfolding find_peer
find_peer-append j [] new h = refl
find_peer-append j (p1 ∷ rest) new h = ground (arith, h, find_peer-append j rest new)

find_peer-remove_peer :
    (ip j : ℕ) (ps : List SgwPeer)
    → Once ps
    → find_peer j (remove_peer ip ps) ≡ (if ip == j then none else find_peer j ps)
unfolding find_peer remove_peer
find_peer-remove_peer ip j [] h = ground arith
find_peer-remove_peer ip j (p1 ∷ rest) h = ground (arith, h.0, find_peer-remove_peer ip j rest h.1)

pub Once-append :
    (ps : List SgwPeer) (new : SgwPeer)
    → Once ps
    → find_peer new.ip ps ≡ none
    → Once (ps ++ (new ∷ []))
unfolding find_peer
Once-append [] new once h = (refl, tt)
Once-append (p1 ∷ rest) new once h = (
  ground (arith, h, once.0, find_peer-append p1.ip rest new),
  Once-append rest new once.1 (ground (arith, h)),
)

Once-remove_peer : (ip : ℕ) (ps : List SgwPeer) → Once ps → Once (remove_peer ip ps)
unfolding find_peer remove_peer
Once-remove_peer ip [] once = tt
Once-remove_peer ip (p1 ∷ rest) once = elim (Bool-cases (p1.ip == ip)) [
  | inl e ↦ rw (remove_peer, e) once.1
  | inr e ↦
      rw (remove_peer, e)
        (
          ground (arith, once.0, find_peer-remove_peer ip p1.ip rest once.1),
          Once-remove_peer ip rest once.1,
        )
]

-- One call on the table, and on a map from addresses to counters and times.
pub data Call : Type 0 where
  set : ℕ → ℕ → ℕ → Call
  delete : ℕ → Call

unfoldable pub run_call : Call → SgwPeers → SgwPeers
run_call (set ip counter expire) t = elim (set_sgw_peer ip counter expire t) [
  | none ↦ t
  | some after ↦ after
]
run_call (delete ip) t = delete_sgw_peer ip t

pub run_calls : List Call → SgwPeers → SgwPeers
run_calls [] t = t
run_calls (call ∷ rest) t = run_calls rest (run_call call t)

unfoldable pub map_call : Call → (ℕ → Option (ℕ × ℕ)) → ℕ → Option (ℕ × ℕ)
map_call (set ip counter expire) m j =
    if ip == 0 then m j else if ip == j then some (counter, expire) else m j
map_call (delete ip) m j = if ip == j then none else m j

pub map_calls : List Call → (ℕ → Option (ℕ × ℕ)) → ℕ → Option (ℕ × ℕ)
map_calls [] m = m
map_calls (call ∷ rest) m = map_calls rest (map_call call m)

-- The table shows the map.
pub record Shows (t : SgwPeers) (m : ℕ → Option (ℕ × ℕ)) : Type 0 where
  pub once : Once t.peers
  pub shown : (j : ℕ) → find_peer j t.peers ≡ m j

pub run_call-Shows :
    (call : Call) (t : SgwPeers) (m : ℕ → Option (ℕ × ℕ))
    → Shows t m
    → Shows (run_call call t) (map_call call m)
unfolding run_call map_call set_sgw_peer delete_sgw_peer
run_call-Shows (delete ip) t m h = record {
  once = Once-remove_peer ip t.peers h.once;
  shown = λ j. ground (arith, find_peer-remove_peer ip j t.peers h.once, h.shown j);
}
run_call-Shows (set ip counter expire) t m h = elim (Bool-cases (ip == 0)) [
  | inl z ↦ rw (run_call, map_call, set_sgw_peer, z) h
  | inr z ↦ elim (write_peer-cases ip counter expire t.peers h.once) [
    | inl (w, f) ↦
        rw (run_call, map_call, set_sgw_peer, z, w)
          (record {
            once =
                Once-append t.peers (record { ip = ip; counter = counter; expire = expire }) h.once
                  f;
            shown = λ j. ground (
              arith,
              find_peer-append j t.peers (record { ip = ip; counter = counter; expire = expire }) f,
              h.shown j,
            );
          })
    | inr (written, w, after, len, f) ↦
        rw (run_call, map_call, set_sgw_peer, z, w)
          (record { once = after; shown = λ j. ground (arith, f j, h.shown j) })
  ]
]

run_calls-Shows :
    (calls : List Call) (t : SgwPeers) (m : ℕ → Option (ℕ × ℕ))
    → Shows t m
    → Shows (run_calls calls t) (map_calls calls m)
unfolding run_calls map_calls
run_calls-Shows [] t m h = h
run_calls-Shows (call ∷ rest) t m h =
    run_calls-Shows rest (run_call call t) (map_call call m) (run_call-Shows call t m h)

-- A callback that only reads.
abbrev pub read_peer : Option (ℕ × ℕ) → SgwPeer → Option (ℕ × ℕ) × SgwPeer
read_peer u p = (some (p.counter, p.expire), p)

abbrev pub is_some : Option (ℕ × ℕ) → Bool
is_some none = false
is_some (some v) = true

visit_peers-read_peer :
    (ip : ℕ) (ps : List SgwPeer)
    → (ip == all_peers) ≡ false
    → visit_peers read_peer ip ps none ≡ (ps, find_peer ip ps, is_some (find_peer ip ps))
unfolding visit_peers find_peer
visit_peers-read_peer ip [] h = refl
visit_peers-read_peer ip (p1 ∷ rest) h = elim (Bool-cases (p1.ip == ip)) [
  | inl e ↦ rw (visit_peers, h, e, find_peer) refl
  | inr e ↦ rw (visit_peers, h, e, find_peer, visit_peers-read_peer ip rest h) refl
]

-- After any calls of pgw_set_sgw_peer and pgw_delete_sgw_peer on a new table, pgw_get_sgw_peer for
-- one address, other than (U32)-1, finds exactly what a map from addresses would hold: OK where the
-- address was set since it was last deleted, with the counter and time of the last call that set it.
-- A set of the address 0 changes nothing.
pub get_sgw_peer-run_calls :
    (now : ℕ) (calls : List Call) (ip : ℕ)
    → ip ≢ all_peers
    → let t = run_calls calls (create_sgw_peers now) in
      let held = map_calls calls (λ _. none) ip in
      get_sgw_peer read_peer ip t none ≡ (t, held, is_some held)
unfolding get_sgw_peer create_sgw_peers find_peer
get_sgw_peer-run_calls now calls ip h =
    let t = run_calls calls (create_sgw_peers now) in
    let start : Shows (create_sgw_peers now) (λ _. none) = record {
      once = tt;
      shown = λ j. refl;
    } in
    let held = (run_calls-Shows calls (create_sgw_peers now) (λ _. none) start).shown ip in
    rw (visit_peers-read_peer ip t.peers (ground (arith, h)), held) refl
