-- ===== src/Dataplane/Worker.antt =====
-- dataplane/src/core/core_pgw_base_worker.cc: the sessions that a PGW worker finds its packets'
-- tunnels in, and how binlog events and warm-up packets change them. A worker has both tables; its
-- findtype_ says which one it uses. The reader of the binlog (binlog/) is left out: an event is
-- the list of columns that it notifies. An IPv4 address in a text is what get_ipv4 makes of it.
mod Runs
pub mod Events
use mixi_pgw.Prelude.{
  ℕ, ◌+◌, ◌*◌, ◌/◌, ◌%◌, ◌^◌, Bool, true, false, not, ◌&&◌, ◌||◌, ◌==◌, if◌then◌else◌, Option, none,
  some, List, [], ◌∷◌, lookup, insert, erase, htonl,
}
use mixi_pgw.Dataplane.Lookup.{Lookup, Outcome, Iterator, end, find, deref, add, del}
use mixi_pgw.Dataplane.Policer.{Item}

-- GROUPID, PGWID and GROUPVAL
unfoldable pub groupid : ℕ → ℕ
groupid c = c / 2 ^ 16 % 2 ^ 4

unfoldable pub pgwid : ℕ → ℕ
pgwid c = c / 2 ^ 20 % 2 ^ 4

unfoldable pub groupval : ℕ → ℕ
groupval c = c % 2 ^ 16

-- CorePgwBaseWorker; lookup_ is a table of COUNT_TEIDGROUP_PER_CORE entries
pub record Worker : Type 0 where
  pub findtype : Bool
  pub is_egress : Bool
  pub groupid : ℕ
  pub pgwid : ℕ
  pub cnt_pgw : ℕ
  pub policer_cir : ℕ
  pub policer_cbs : ℕ
  pub policer_eir : ℕ
  pub policer_ebs : ℕ
  pub map : List (ℕ × Item)
  pub lookup_table : Lookup Item

abbrev pub teid_group_size : ℕ
teid_group_size = 65536

-- the columns of the table tunnel that OnNotify reads, and all others
pub data Column : Type 0 where
  t_pgw_teid t_sgw_gtpu_teid t_active t_qos : Column
  t_sgw_gtpu_ipv t_ueipv4 t_pgw_gtpu_ipv : Column
  t_other : Column

pub data Value : Type 0 where
  type_numeric : ℕ → Value
  type_text : Option ℕ → Value

-- record_t
pub record Record : Type 0 where
  pub evt : ℕ
  pub lnk : Item

unfoldable pub on_numeric : Column → ℕ → Item → Item
on_numeric t_pgw_teid v lnk = record lnk { ue_teid = v % 2 ^ 32 }
on_numeric t_sgw_gtpu_teid v lnk = record lnk { sgw_gtpu_teid = v % 2 ^ 32 }
on_numeric t_active v lnk = record lnk { active = v % 2 }
on_numeric t_qos v lnk = record lnk { mode = v % 4 }
on_numeric _ v lnk = lnk

unfoldable pub on_text : Column → ℕ → Item → Item
on_text t_sgw_gtpu_ipv v lnk = record lnk { sgw_gtpu_ipv4 = v }
on_text t_ueipv4 v lnk = record lnk { ue_ipv4 = v }
on_text t_pgw_gtpu_ipv v lnk = record lnk { pgw_gtpu_ipv4 = v }
on_text _ v lnk = lnk

unfoldable pub on_notify : Column → Value → Record → Record
on_notify clmnid (type_numeric v) rec = record rec { lnk = on_numeric clmnid v rec.lnk }
on_notify clmnid (type_text none) rec = rec
on_notify clmnid (type_text (some v)) rec = record rec { lnk = on_text clmnid v rec.lnk }

-- event->Read(&notify, &record)
unfoldable pub read : List (Column × Value) → Record → Record
read [] rec = rec
read ((clmnid, v) ∷ rest) rec = read rest (on_notify clmnid v rec)

-- bzero(&record, sizeof(record))
unfoldable pub blank : Record
blank = record {
  evt = 0;
  lnk = record {
    active = 0;
    mode = 0;
    ue_ipv4 = 0;
    ue_teid = 0;
    sgw_gtpu_teid = 0;
    sgw_gtpu_ipv4 = 0;
    pgw_gtpu_ipv4 = 0;
    epoch_w = 0;
    commit_rate = 0;
    commit_burst_size = 0;
    commit_information_rate = 0;
    excess_rate = 0;
    excess_burst_size = 0;
    excess_information_rate = 0;
  };
}

unfoldable pub with_policer : Worker → Item → Item
with_policer w lnk = record lnk {
  commit_information_rate = w.policer_cir;
  commit_burst_size = w.policer_cbs;
  excess_information_rate = w.policer_eir;
  excess_burst_size = w.policer_ebs;
}

unfoldable pub is_complete : Item → Bool
is_complete lnk = not (
    lnk.ue_ipv4 == 0
    || lnk.ue_teid == 0
    || lnk.sgw_gtpu_ipv4 == 0
    || lnk.sgw_gtpu_teid == 0
    || lnk.pgw_gtpu_ipv4 == 0)

unfoldable pub session_nkey : Worker → Item → ℕ
session_nkey w lnk = if w.is_egress then lnk.ue_ipv4 else lnk.ue_teid

-- the event 30 is an insert, 31 an update and 32 a delete
unfoldable pub apply_map : ℕ → ℕ → Item → List (ℕ × Item) → List (ℕ × Item)
apply_map evt key lnk map =
    if evt == 30
    then insert key lnk map
    else if evt == 31
    then (if lnk.active == 0 then erase key map else insert key lnk map)
    else if evt == 32
    then erase key map
    else map

unfoldable pub apply_table : ℕ → Item → Lookup Item → Lookup Item
apply_table evt lnk t =
    let key = groupval lnk.ue_teid in
    if evt == 30
    then (add teid_group_size t key lnk false).1
    else if evt == 31
    then (if lnk.active == 0
        then (del teid_group_size t key false).1
        else (add teid_group_size t key lnk false).1)
    else if evt == 32
    then (del teid_group_size t key false).1
    else t

unfoldable pub apply_record : Record → Worker → Worker
apply_record rec w =
    if not (is_complete rec.lnk)
    then w
    else if w.findtype
    then record w { map = apply_map rec.evt (htonl (session_nkey w rec.lnk)) rec.lnk w.map }
    else if pgwid rec.lnk.ue_teid == w.pgwid && groupid rec.lnk.ue_teid == w.groupid
    then record w { lookup_table = apply_table rec.evt rec.lnk w.lookup_table }
    else w

-- VirtualCycle; none is a read that failed
unfoldable pub virtual_cycle : Option (List (Column × Value)) → Worker → Worker
virtual_cycle none w = w
virtual_cycle (some columns) w =
    let rec = read columns blank in apply_record (record rec { lnk = with_policer w rec.lnk }) w

-- Find(key, out); End is none
unfoldable pub find_session : ℕ → Worker → Option Item
find_session key w =
    if w.findtype
    then lookup (htonl key) w.map
    else if not (groupid key == w.groupid)
    then none
    else let itr = find teid_group_size w.lookup_table (groupval (htonl key)) false in
      found itr (deref w.lookup_table itr).body
  where
    found : Iterator → Item → Option Item
    found end x = none
    found _ x = some x

-- One packet of the warm-up ring: `itm` is lookup_t on the stack with the five values that the
-- private extension carries. A packet that lacks a value is skipped, and none is rte_exit.
unfoldable pub warm_up : Item → Worker → Option Worker
warm_up itm w =
    let nkey = session_nkey w itm in
    if not (is_complete itm)
    then some w
    else if w.findtype
    then some (record w { map = insert (htonl nkey) itm w.map })
    else if w.cnt_pgw == 0
    then none
    else if nkey % w.cnt_pgw == w.groupid
    then some (record w {
      lookup_table = (add teid_group_size w.lookup_table (groupval itm.ue_teid) itm false).1;
    })
    else some w
