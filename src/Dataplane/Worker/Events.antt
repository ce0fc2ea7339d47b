-- ===== src/Dataplane/Worker/Events.antt =====
-- What binlog events and warm-up packets do to the sessions that a worker finds.
use mixi_pgw.Prelude.{
  ℕ, ◌^◌, ◌<◌, ◌≡◌, refl, sym, ap, ◌∙◌, true, not, ◌==◌, if◌then◌else◌, Option, none, some, List,
  [], ◌∷◌, lookup, lookup-insert, lookup-erase, htonl, htonl-htonl, arith, if_both,
}
use mixi_pgw.Dataplane.Policer.{Item}
use mixi_pgw.Dataplane.Worker.{
  Worker, Column, Value, type_numeric, type_text, Record, on_notify, read, blank, with_policer,
  is_complete, session_nkey, apply_map, apply_table, apply_record, virtual_cycle, find_session,
}

on_notify-evt : (c : Column) (v : Value) (rec : Record) → (on_notify c v rec).evt ≡ rec.evt
unfolding on_notify
on_notify-evt c (type_numeric v) rec = refl
on_notify-evt c (type_text none) rec = refl
on_notify-evt c (type_text (some v)) rec = refl

read-evt : (cs : List (Column × Value)) (rec : Record) → (read cs rec).evt ≡ rec.evt
unfolding read
read-evt [] rec = refl
read-evt ((c, v) ∷ cs) rec = read-evt cs (on_notify c v rec) ∙ on_notify-evt c v rec

apply_record-idle : (rec : Record) (w : Worker) → rec.evt ≡ 0 → apply_record rec w ≡ w
unfolding apply_record apply_map apply_table
apply_record-idle rec w h =
    let same = λ (x : Worker). x ≡ w in
    rw h (
      if_both same (not (is_complete rec.lnk)) _ _ refl
        (if_both same w.findtype _ _ refl (if_both same _ _ _ refl refl)))

-- OnNotify never writes the kind of the event, so no event of the binlog changes a worker.
virtual_cycle_idles : (ev : Option (List (Column × Value))) (w : Worker) → virtual_cycle ev w ≡ w
unfolding virtual_cycle blank
virtual_cycle_idles none w = refl
virtual_cycle_idles (some cs) w =
    let rec = read cs blank in
    apply_record-idle (record rec { lnk = with_policer w rec.lnk }) w (read-evt cs blank)

htonl_inj : (a b : ℕ) → a < 2 ^ 32 → b < 2 ^ 32 → htonl a ≡ htonl b → a ≡ b
htonl_inj a b p q e = sym (htonl-htonl a p) ∙ ap htonl e ∙ htonl-htonl b q

htonl-== : (a b : ℕ) → a < 2 ^ 32 → b < 2 ^ 32 → (htonl a == htonl b) ≡ (a == b)
htonl-== a b p q = ground (arith, htonl_inj a b p q, ap htonl {x = a} {y = b})

-- The session that a record leaves under its own key.
abbrev pub outcome : ℕ → Item → Option Item → Option Item
outcome evt lnk old =
    if evt == 30
    then some lnk
    else if evt == 31
    then (if lnk.active == 0 then none else some lnk)
    else if evt == 32
    then none
    else old

lookup-apply_map :
    (evt key j : ℕ) (lnk : Item) (map : List (ℕ × Item))
    → lookup j (apply_map evt key lnk map)
      ≡ (if key == j then outcome evt lnk (lookup j map) else lookup j map)
unfolding apply_map
lookup-apply_map evt key j lnk map =
    ground (arith, lookup-insert key j lnk map, lookup-erase key j map)

find_session-map :
    (key : ℕ) (w : Worker) → w.findtype ≡ true → find_session key w ≡ lookup (htonl key) w.map
unfolding find_session
find_session-map key w t = rw (t, find_session) refl

apply_record-map :
    (rec : Record) (w : Worker)
    → w.findtype ≡ true
    → is_complete rec.lnk ≡ true
    → apply_record rec w
      ≡ record w { map = apply_map rec.evt (htonl (session_nkey w rec.lnk)) rec.lnk w.map }
unfolding apply_record session_nkey
apply_record-map rec w t c = rw (c, t, apply_record) refl

-- On the map, a complete record of a known kind changes the session of its own key alone: an insert
-- or an update of an active session is found from then on, a removal is not.
apply_record-find_session :
    (rec : Record) (w : Worker) (key : ℕ)
    → w.findtype ≡ true
    → is_complete rec.lnk ≡ true
    → key < 2 ^ 32
    → session_nkey w rec.lnk < 2 ^ 32
    → find_session key (apply_record rec w) ≡ (
        if session_nkey w rec.lnk == key
        then outcome rec.evt rec.lnk (find_session key w)
        else find_session key w)
apply_record-find_session rec w key t c p q =
    let nkey = session_nkey w rec.lnk in
    let changed = record w { map = apply_map rec.evt (htonl nkey) rec.lnk w.map } in
    rw (apply_record-map rec w t c, find_session-map key changed t, find_session-map key w t)
      (rw (lookup-apply_map rec.evt (htonl nkey) (htonl key) rec.lnk w.map, htonl-== nkey key q p)
        refl)
