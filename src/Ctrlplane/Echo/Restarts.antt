-- ===== src/Ctrlplane/Echo/Restarts.antt =====
-- _observer_sgw_peers of ctrlplane/src/pgw/event/event_gtpc_echo.c against a map from addresses to
-- restart counters.
use mixi_pgw.Prelude.{
  ℕ, ◌%◌, ◌^◌, ◌≡◌, ◌≢◌, refl, sym, ap, ◌∙◌, arith, Bool, true, false, ◌==◌, ◌||◌, if◌then◌else◌,
  Option, none, some, List, [], ◌∷◌, ◌++◌, Bool-cases, inl, inr, ◌⊎◌, All,
}
use mathlib.Core.List.{append-nil, append_assoc}
use mathlib.Core.Option.{some_inj}
use mixi_pgw.Ctrlplane.Peers.{
  SgwPeer, SgwPeers, write_peer, set_sgw_peer, visit_peers, get_sgw_peer, all_peers,
}
use mixi_pgw.Ctrlplane.Peers.Table.{
  find_peer, Shows, write_peer-cases, run_call-Shows, set, run_call, map_call,
}
use mixi_pgw.Ctrlplane.Echo.{
  EchoNode, Query, echo_restart, find_extend, note_peer, observer_sgw_peers, register, no_counter,
}

-- The callback writes the time of the peer that it finds.
visit_peers-find_extend :
    (ip expire : ℕ) (ps : List SgwPeer)
    → (ip == all_peers) ≡ false
    → ((find_peer ip ps ≡ none) × (visit_peers (find_extend expire) ip ps none ≡ (ps, none, false)))
      ⊎ ((c : ℕ) × (x : ℕ) × (written : List SgwPeer) × (find_peer ip ps ≡ some (c, x))
          × (write_peer ip c expire ps ≡ some written)
          × (visit_peers (find_extend expire) ip ps none ≡ (written, some c, true)))
unfolding visit_peers find_peer find_extend write_peer
visit_peers-find_extend ip expire [] h = inl (refl, refl)
visit_peers-find_extend ip expire (p1 ∷ rest) h = elim (Bool-cases (p1.ip == ip)) [
  | inl e ↦ inr (
    p1.counter,
    p1.expire,
    record p1 { expire = expire } ∷ rest,
    rw (find_peer, e) refl,
    rw (write_peer, e) refl,
    rw (visit_peers, h, e) refl,
  )
  | inr e ↦ elim (visit_peers-find_extend ip expire rest h) [
    | inl (f, v) ↦ inl (rw (find_peer, e) f, rw (visit_peers, h, e, v) refl)
    | inr (c, x, written, f, w, v) ↦ inr (
      c,
      x,
      p1 ∷ written,
      rw (find_peer, e) f,
      rw (write_peer, e, w) refl,
      rw (visit_peers, h, e, v) refl,
    )
  ]
]

-- What is heard of one SGW: the time, its address and its restart counter.
pub record Heard : Type 0 where
  pub now : ℕ
  pub ip : ℕ
  pub counter : ℕ

abbrev pub IsHeard : Heard → Type 0
IsHeard o = (o.ip ≢ 0) × (o.ip ≢ all_peers) × (o.counter ≢ no_counter)

-- The first counter of an SGW is kept; the time is that of the last request.
pub remember : Heard → (ℕ → Option (ℕ × ℕ)) → ℕ → Option (ℕ × ℕ)
remember o m j =
    if o.ip == j
    then elim (m o.ip) [
      | none ↦ some (o.counter, o.now % 2 ^ 32)
      | some known ↦ some (known.0, o.now % 2 ^ 32)
    ]
    else m j

-- A counter other than the first one is a restart.
pub restart : Heard → (ℕ → Option (ℕ × ℕ)) → List Query
restart o m = elim (m o.ip) [
  | none ↦ []
  | some known ↦ if known.0 == o.counter then [] else echo_restart o.ip o.counter ∷ []
]

remember-none :
    (o : Heard) (m : ℕ → Option (ℕ × ℕ)) (j : ℕ)
    → m o.ip ≡ none
    → remember o m j ≡ (if o.ip == j then some (o.counter, o.now % 2 ^ 32) else m j)
unfolding remember
remember-none o m j e = rw e refl

remember-some :
    (o : Heard) (m : ℕ → Option (ℕ × ℕ)) (c x j : ℕ)
    → m o.ip ≡ some (c, x)
    → remember o m j ≡ (if o.ip == j then some (c, o.now % 2 ^ 32) else m j)
unfolding remember
remember-some o m c x j e = rw e refl

restart-some :
    (o : Heard) (m : ℕ → Option (ℕ × ℕ)) (c x : ℕ)
    → m o.ip ≡ some (c, x)
    → restart o m ≡ (if c == o.counter then [] else echo_restart o.ip o.counter ∷ [])
unfolding restart
restart-some o m c x e = rw (restart, e) refl

restart-none : (o : Heard) (m : ℕ → Option (ℕ × ℕ)) → m o.ip ≡ none → restart o m ≡ []
unfolding restart
restart-none o m e = rw (restart, e) refl

abbrev pub Observed : Heard → EchoNode → EchoNode → (ℕ → Option (ℕ × ℕ)) → Type 0
Observed o n after m =
    Shows after.peers_table (remember o m) × (after.queries ≡ n.queries ++ restart o m)

-- A new SGW is set, as by a call of its own.
registered :
    (o : Heard) (t : SgwPeers) (m : ℕ → Option (ℕ × ℕ))
    → o.ip ≢ 0
    → m o.ip ≡ none
    → Shows t m
    → Shows (register o.ip o.counter (o.now % 2 ^ 32) t) (remember o m)
unfolding register map_call set_sgw_peer run_call
registered o t m h e shows =
    let done = run_call-Shows (set o.ip o.counter (o.now % 2 ^ 32)) t m shows in
    record { once = done.once; shown = λ j. done.shown j ∙ same j }
  where
    same : (j : ℕ) → map_call (set o.ip o.counter (o.now % 2 ^ 32)) m j ≡ remember o m j
    same j = rw (remember-none o m j e) (ground (arith, h))

-- The time of an SGW that is known is written.
extended :
    (o : Heard) (t : SgwPeers) (m : ℕ → Option (ℕ × ℕ)) (c x : ℕ) (written : List SgwPeer)
    → m o.ip ≡ some (c, x)
    → find_peer o.ip t.peers ≡ some (c, x)
    → Shows t m
    → write_peer o.ip c (o.now % 2 ^ 32) t.peers ≡ some written
    → Shows (record t { peers = written }) (remember o m)
extended o t m c x written e f shows w =
    elim (write_peer-cases o.ip c (o.now % 2 ^ 32) t.peers shows.once) [
      | inl (none_written, none_found) ↦
          let clash : some (c, x) ≡ none = sym f ∙ none_found in absurd (ground (arith, clash))
      | inr (other, w', after, len, g) ↦
          let same : other ≡ written = some_inj.0 (sym w' ∙ w) in
          rw (← same) (record {
            once = after;
            shown = λ j. g j ∙ ground (arith, shows.shown j) ∙ sym (remember-some o m c x j e);
          })
    ]

get_sgw_peer-find_extend :
    (ip expire : ℕ) (t : SgwPeers)
    → (ip == all_peers) ≡ false
    → ((find_peer ip t.peers ≡ none)
        × (get_sgw_peer (find_extend expire) ip t none ≡ (t, none, false)))
      ⊎ ((c : ℕ) × (x : ℕ) × (written : List SgwPeer) × (find_peer ip t.peers ≡ some (c, x))
          × (write_peer ip c expire t.peers ≡ some written)
          × (get_sgw_peer (find_extend expire) ip t none
              ≡ (record t { peers = written }, some c, true)))
unfolding get_sgw_peer
get_sgw_peer-find_extend ip expire t h = elim (visit_peers-find_extend ip expire t.peers h) [
  | inl (f, v) ↦ inl (f, rw v refl)
  | inr (c, x, written, f, w, v) ↦ inr (c, x, written, f, w, rw v refl)
]

module _ (o : Heard) (n : EchoNode) (m : ℕ → Option (ℕ × ℕ)) (shows : Shows n.peers_table m) where
  noted : SgwPeers × Option ℕ × Bool → EchoNode
  noted found = note_peer o.ip o.counter (o.now % 2 ^ 32) found n

  note_peer-missing :
      o.ip ≢ 0
      → find_peer o.ip n.peers_table.peers ≡ none
      → Observed o n (noted (n.peers_table, none, false)) m
  unfolding noted note_peer
  note_peer-missing h f =
      let fresh : m o.ip ≡ none = sym (shows.shown o.ip) ∙ f in
      (
        registered o n.peers_table m h fresh shows,
        rw (restart-none o m fresh) (sym (append-nil n.queries)),
      )

  note_peer-found :
      (c x : ℕ) (written : List SgwPeer)
      → find_peer o.ip n.peers_table.peers ≡ some (c, x)
      → write_peer o.ip c (o.now % 2 ^ 32) n.peers_table.peers ≡ some written
      → Observed o n (noted (record n.peers_table { peers = written }, some c, true)) m
  unfolding noted note_peer
  note_peer-found c x written f w =
      let known : m o.ip ≡ some (c, x) = sym (shows.shown o.ip) ∙ f in
      let kept = extended o n.peers_table m c x written known f shows w in
      elim (Bool-cases (c == o.counter)) [
        | inl e ↦ rw e (kept, rw (restart-some o m c x known, e) (sym (append-nil n.queries)))
        | inr e ↦ rw e (kept, rw (restart-some o m c x known, e) refl)
      ]

observer_sgw_peers-Observed :
    (o : Heard) (n : EchoNode) (m : ℕ → Option (ℕ × ℕ))
    → IsHeard o
    → Shows n.peers_table m
    → Observed o n (observer_sgw_peers o.now o.ip o.counter n) m
unfolding observer_sgw_peers noted
observer_sgw_peers-Observed o n m hears shows =
    let guard : (o.ip == 0 || o.counter == no_counter) ≡ false = ground (arith, hears.0, hears.2) in
    let one : (o.ip == all_peers) ≡ false = ground (arith, hears.1) in
    elim (get_sgw_peer-find_extend o.ip (o.now % 2 ^ 32) n.peers_table one) [
      | inl (f, gotten) ↦
          rw (observer_sgw_peers, guard, gotten) (note_peer-missing o n m shows hears.0 f)
      | inr (c, x, written, f, w, gotten) ↦
          rw (observer_sgw_peers, guard, gotten) (note_peer-found o n m shows c x written f w)
    ]

-- What the node makes of a run, and what the map makes of it.
pub observe_all : List Heard → EchoNode → EchoNode
observe_all [] n = n
observe_all (o ∷ rest) n = observe_all rest (observer_sgw_peers o.now o.ip o.counter n)

pub remember_all : List Heard → (ℕ → Option (ℕ × ℕ)) → ℕ → Option (ℕ × ℕ)
remember_all [] m = m
remember_all (o ∷ rest) m = remember_all rest (remember o m)

pub restarts : List Heard → (ℕ → Option (ℕ × ℕ)) → List Query
restarts [] m = []
restarts (o ∷ rest) m = restart o m ++ restarts rest (remember o m)

-- Over any run of echo requests with restart counters, the table of SGWs shows the map that keeps
-- for each address the first counter it was heard with and the time of its last request; and a
-- query to end sessions is sent for exactly those requests whose counter is not the first one.
-- Addresses are neither 0 nor (U32)-1.
pub observe_all-Shows :
    (run : List Heard) (n : EchoNode) (m : ℕ → Option (ℕ × ℕ))
    → All IsHeard run
    → Shows n.peers_table m
    → Shows (observe_all run n).peers_table (remember_all run m)
      × ((observe_all run n).queries ≡ n.queries ++ restarts run m)
unfolding observe_all remember_all restarts
observe_all-Shows [] n m hears shows = (shows, sym (append-nil n.queries))
observe_all-Shows (o ∷ rest) n m hears shows =
    let step = observer_sgw_peers-Observed o n m hears.0 shows in
    let later =
      observe_all-Shows rest (observer_sgw_peers o.now o.ip o.counter n) (remember o m) hears.1
        step.0 in
    (
      later.0,
      later.1
          ∙ ap (λ q. q ++ restarts rest (remember o m)) step.1
          ∙ append_assoc n.queries (restart o m) (restarts rest (remember o m)),
    )
