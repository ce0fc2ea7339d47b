-- ===== src/Ctrlplane/Runs.antt =====
-- The proxy at concrete inputs.
use mixi_pgw.Prelude.{◌%◌, ◌^◌, ◌≡◌, refl, true, false, none, some, List, [], ◌∷◌, lookup}
use mixi_pgw.Ctrlplane.Routes.{
  Routes, RouteInt, RouteSession, Address, find_session_by_seqno_teid,
  find_internl_route_by_group_from_cache,
}
use mixi_pgw.Ctrlplane.Proxy.{
  Datagram, World, Event, from_ext, timed_out, ext_sock, is_headed, is_whole, is_request,
  is_response, datalen, dispatch_all, on_recieve_ext, on_recieve_int,
}
use mixi_pgw.Ctrlplane.Proxy.Delivery.{Keeps, dispatch_all-Keeps}
use mixi_pgw.Ctrlplane.Proxy.Correlation.{IsRoutable, IsDeliverable, response_returns}

abbrev sgw : Address
sgw = record { sin_addr = 0x0a000001; sin_port = 2123 }

abbrev other_sgw : Address
other_sgw = record { sin_addr = 0x0a000002; sin_port = 2123 }

abbrev pgw : RouteInt
pgw = record { host = 0x0a000101; cnt = 0; port = 2123 }

abbrev cached : Routes
cached = record {
  grouproutes = (7, pgw ∷ []) ∷ [];
  sgw_routes = [];
  session = [];
  stats = [];
  extsock = 3;
}

-- Create Session Request, with a spare octet after the sequence number.
abbrev request : Datagram
request = record {
  peer = sgw;
  peeked = 8;
  length = 100;
  version = 2;
  v1_sequence = false;
  v1_npdu = false;
  v1_extension = false;
  type = 32;
  teid = 0;
  seqno = 0x05000123;
  recieved = 104;
  is_valid = true;
  parsed = some (440100, 77);
}

abbrev response : Datagram
response = record request { peer = other_sgw; type = 33; teid = 77; seqno = 0x123; parsed = none }

abbrev world : World
world = record {
  now = 5000;
  gid = 0;
  ether_max_len = 1514;
  sockname = some 9;
  find_group_by_imsi = λ _. some 7;
  is_sent = true;
}

request-IsRoutable : IsRoutable world request cached 440100 77 7 pgw []
unfolding is_headed is_whole is_request datalen find_internl_route_by_group_from_cache lookup
request-IsRoutable = record {
  headed = refl;
  whole = refl;
  own = (9, refl);
  request = refl;
  no_echo = refl;
  parsed = refl;
  group = refl;
  routes = refl;
  sent = refl;
}

response-IsDeliverable : IsDeliverable world 9 response
unfolding is_headed is_whole is_response datalen
response-IsDeliverable = record {
  headed = refl;
  whole = refl;
  named = refl;
  response = refl;
  no_echo = refl;
  sent = refl;
}

-- A request of somebody else with the same pair, and a timer, lie between.
abbrev between : List Event
between =
    from_ext world (record request { peer = other_sgw })
    ∷ timed_out 6000 [] (record { counter = 6001; counter_session = 0; reload = true })
    ∷ []

new_pair : find_session_by_seqno_teid (0x05000123 % 2 ^ 24) 77 cached ≡ none
unfolding find_session_by_seqno_teid lookup
new_pair = refl

response_returns_example :
    (on_recieve_int world 0 response
      (dispatch_all between (on_recieve_ext world request cached).0)).1
    ≡ some (record { socket = ext_sock; to = sgw; type = 33; datalen = datalen response })
response_returns_example =
    response_returns world request cached 440100 77 7 pgw [] between world 0 9 response
      request-IsRoutable new_pair response-IsDeliverable refl refl

abbrev session : RouteSession
session = record { host = sgw; imsi = 440100; seqno = 0x123; teid = 77; created = 5000 }

abbrev with_session : Routes
with_session = record cached { session = (12, session) ∷ [] }

session-known : lookup 12 with_session.session ≡ some session
unfolding lookup
session-known = refl

dispatch_all-Keeps_example : Keeps 12 session (dispatch_all between with_session)
dispatch_all-Keeps_example = dispatch_all-Keeps 12 session between with_session session-known
