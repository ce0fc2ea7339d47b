-- ===== src/Ctrlplane/Routes.antt =====
-- ctrlplane/src/proxy/routes.cc, route.cc and proxy_stats.cc: the routes, the sessions and the
-- statistics of the proxy. The time is an argument; the rows that the database returns are a list.
-- A host is its IPv4 address as inet_pton reads it. All words wrap around at 64 bits.
pub mod Counting
pub mod Sessions
use mixi_pgw.Prelude.{
  ℕ, ◌+◌, ◌-◌, ◌*◌, ◌/◌, ◌%◌, ◌^◌, Bool, true, false, not, ◌&&◌, ◌==◌, ltb, if◌then◌else◌, Option,
  none, some, List, [], ◌∷◌, ◌++◌, length, lookup, insert,
}

-- SOCKADDRIN
pub record Address : Type 0 where
  pub sin_addr : ℕ
  pub sin_port : ℕ

pub record RouteInt : Type 0 where
  pub host : ℕ
  pub cnt : ℕ
  pub port : ℕ

pub record RouteExt : Type 0 where
  pub host : Address
  pub cnt : ℕ
  pub sock : ℕ

pub record RouteSession : Type 0 where
  pub host : Address
  pub imsi : ℕ
  pub seqno : ℕ
  pub teid : ℕ
  pub created : ℕ

pub record ProxyStat : Type 0 where
  pub ip : ℕ
  pub group : ℕ
  pub req_bytes : ℕ
  pub req_cnt : ℕ
  pub res_bytes : ℕ
  pub res_cnt : ℕ
  pub delay : ℕ
  pub req_reject_bytes : ℕ
  pub res_reject_bytes : ℕ
  pub req_reject_cnt : ℕ
  pub res_reject_cnt : ℕ
  pub created : ℕ

-- The counters of PSTAT_COUNT that StatCount reads out of the statistics.
pub data PstatCount : Type 0 where
  bytes_request bytes_response count_request count_response count_delay : PstatCount
  rejected_request rejected_response count_session : PstatCount

pub record Routes : Type 0 where
  pub grouproutes : List (ℕ × List RouteInt)
  pub sgw_routes : List (ℕ × RouteExt)
  pub session : List (ℕ × RouteSession)
  pub stats : List (ℕ × ProxyStat)
  pub extsock : ℕ

-- an addition on U64
unfoldable pub add : ℕ → ℕ → ℕ
add a b = (a + b) % 2 ^ 64

unfoldable pub positive : ℕ → ℕ
positive n = if n == 0 then 0 else 1

-- ProxyStat::ProxyStat(ip, group, req_cnt, res_cnt, delay, req_bytes, res_bytes)
unfoldable pub new_stat : ℕ → ℕ → ℕ → ℕ → ℕ → ℕ → ℕ → ℕ → ProxyStat
new_stat now ip group req_cnt res_cnt delay req_bytes res_bytes = record {
  ip = ip;
  group = group;
  req_bytes = req_bytes;
  req_cnt = req_cnt;
  res_bytes = res_bytes;
  res_cnt = res_cnt;
  delay = delay;
  req_reject_bytes = 0;
  res_reject_bytes = 0;
  req_reject_cnt = 0;
  res_reject_cnt = 0;
  created = now;
}

-- ProxyStat::Add
unfoldable pub accumulate : ℕ → ℕ → ℕ → ℕ → ProxyStat → ProxyStat
accumulate now req_bytes res_bytes delay s = record s {
  req_bytes = add s.req_bytes req_bytes;
  res_bytes = add s.res_bytes res_bytes;
  req_cnt = add s.req_cnt (positive req_bytes);
  res_cnt = add s.res_cnt (positive res_bytes);
  delay = add s.delay delay;
  created = now;
}

-- ProxyStat::Reject, whose second test reads the sum and not the argument
unfoldable pub reject : ℕ → ℕ → ℕ → ProxyStat → ProxyStat
reject now req_reject_bytes res_reject_bytes s = record s {
  req_reject_bytes = add s.req_reject_bytes req_reject_bytes;
  req_reject_cnt = add s.req_reject_cnt (positive req_reject_bytes);
  res_reject_bytes = add s.res_reject_bytes res_reject_bytes;
  res_reject_cnt = add s.res_reject_cnt (positive (add s.res_reject_bytes res_reject_bytes));
  created = now;
}

unfoldable pub stat_add : ℕ → ℕ → ℕ → ℕ → ℕ → ℕ → Routes → Routes
stat_add now ip group req_bytes res_bytes delay r =
    let s : ProxyStat = elim (lookup ip r.stats) [
      | none ↦
          new_stat now ip group (positive req_bytes) (positive res_bytes) delay req_bytes res_bytes
      | some s ↦ accumulate now req_bytes res_bytes delay s
    ] in
    record r { stats = insert ip s r.stats }

unfoldable pub stat_reject : ℕ → ℕ → ℕ → ℕ → ℕ → Routes → Routes
stat_reject now ip group req_reject_bytes res_reject_bytes r =
    let s : ProxyStat = elim (lookup ip r.stats) [
      | none ↦ reject now req_reject_bytes res_reject_bytes (new_stat now ip group 0 0 0 0 0)
      | some s ↦ reject now req_reject_bytes res_reject_bytes s
    ] in
    record r { stats = insert ip s r.stats }

-- what StatExpire keeps: `(it->second).created_ < now` goes, on U32
unfoldable pub unexpired : ℕ → List (ℕ × ProxyStat) → List (ℕ × ProxyStat)
unexpired limit [] = []
unexpired limit ((k, s) ∷ rest) =
    let kept = unexpired limit rest in if ltb s.created limit then kept else (k, s) ∷ kept

unfoldable pub stat_expire : ℕ → ℕ → Routes → Routes
stat_expire now elapsed r = record r {
  stats = unexpired ((now % 2 ^ 32 + 2 ^ 32 - elapsed % 2 ^ 32) % 2 ^ 32) r.stats;
}

-- ADDCOUNT(e, i, c, s), with the size of the sessions
unfoldable pub add_count : PstatCount → ProxyStat → ℕ → ℕ → ℕ
add_count bytes_request i c size = add c i.req_bytes
add_count bytes_response i c size = add c i.res_bytes
add_count count_request i c size = add c i.req_cnt
add_count count_response i c size = add c i.res_cnt
add_count count_delay i c size = add c i.delay
add_count rejected_request i c size = add c i.req_reject_cnt
add_count rejected_response i c size = add c i.res_reject_cnt
add_count count_session i c size = add c size

-- whether an entry with this key is counted: (U32)-1 and (U16)-1 stand for all of them
unfoldable pub selects : ℕ → ℕ → ℕ → Bool
selects ip group key =
    let k_ip = key / 2 ^ 32 % 2 ^ 32 in
    let k_group = key / 2 ^ 16 % 2 ^ 16 in
    if not (ip == 0xffffffff) && not (group == 0xffff)
    then ip == k_ip && group == k_group
    else if not (ip == 0xffffffff) && group == 0xffff
    then ip == k_ip
    else true

unfoldable pub count_from : PstatCount → ℕ → ℕ → ℕ → List (ℕ × ProxyStat) → ℕ → ℕ
count_from e ip group size [] count = count
count_from e ip group size ((k, s) ∷ rest) count =
    count_from e ip group size rest (if selects ip group k then add_count e s count size else count)

-- StatCount, for the counters that are not about the process
unfoldable pub stat_count : PstatCount → ℕ → ℕ → Routes → ℕ
stat_count e ip group r = count_from e ip group (length r.session % 2 ^ 64) r.stats 0

-- (seqno << 32) | teid
unfoldable pub session_key : ℕ → ℕ → ℕ
session_key seqno teid = seqno % 2 ^ 32 * 2 ^ 32 + teid % 2 ^ 32

-- RouteSession::RouteSession(imsi, seqno, teid, host)
unfoldable pub new_session : ℕ → ℕ → ℕ → ℕ → Address → RouteSession
new_session now imsi seqno teid addr = record {
  host = addr;
  imsi = imsi;
  seqno = seqno;
  teid = teid;
  created = now % 2 ^ 32;
}

unfoldable pub set_session : ℕ → ℕ → ℕ → ℕ → Address → Routes → Routes
set_session now imsi seqno teid addr r =
    let key = session_key seqno teid in
    elim (lookup key r.session) [
      | some _ ↦ r
      | none ↦ record r { session = insert key (new_session now imsi seqno teid addr) r.session }
    ]

unfoldable pub find_session_by_seqno_teid : ℕ → ℕ → Routes → Option RouteSession
find_session_by_seqno_teid seqno teid r = lookup (session_key seqno teid) r.session

unfoldable pub set_ext_route : Address → Routes → Routes
set_ext_route addr r = record r {
  sgw_routes =
      insert addr.sin_addr (record { host = addr; cnt = 0; sock = r.extsock }) r.sgw_routes;
}

unfoldable pub find_internl_route_by_group_from_cache : ℕ → Routes → Option (List RouteInt)
find_internl_route_by_group_from_cache gid r = elim (lookup gid r.grouproutes) [
  | none ↦ none
  | some [] ↦ none
  | some (x ∷ xs) ↦ some (x ∷ xs)
]

-- The rows of the table proxy, each one a group and a destination, into the routes of the groups.
unfoldable pub cache_rows : List (ℕ × ℕ) → List (ℕ × List RouteInt) → List (ℕ × List RouteInt)
cache_rows [] groups = groups
cache_rows ((gid, dst_ip) ∷ rows) groups =
    let route : RouteInt = record { host = dst_ip; cnt = 0; port = 2123 } in
    let routes : List RouteInt = elim (lookup gid groups) [
      | some rts ↦ rts ++ (route ∷ [])
      | none ↦ route ∷ []
    ] in
    cache_rows rows (insert gid routes groups)

unfoldable pub cache : List (ℕ × ℕ) → Routes → Routes
cache rows r = record r { grouproutes = cache_rows rows [] }
