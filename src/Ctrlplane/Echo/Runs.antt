-- ===== src/Ctrlplane/Echo/Runs.antt =====
-- The queues, the table of SGWs and the echo node of ctrlplane/src/cmn and ctrlplane/src/pgw/event at
-- concrete inputs.
use mixi_pgw.Prelude.{ℕ, ◌≡◌, refl, none, List, [], ◌∷◌, ◌++◌, arith}
use mixi_pgw.Ctrlplane.Peers.{create_sgw_peers, get_sgw_peer}
use mixi_pgw.Ctrlplane.Peers.Table.{
  set, delete, run_calls, map_calls, read_peer, is_some, Shows, get_sgw_peer-run_calls, Call,
  find_peer,
}
use mixi_pgw.Ctrlplane.Node.{Queue}
use mixi_pgw.Ctrlplane.Node.Queues.{
  Step, put, get, run_steps, taken, IsCounted, run_steps-IsCounted,
}
use mixi_pgw.Ctrlplane.Echo.{EchoNode}
use mixi_pgw.Ctrlplane.Echo.Restarts.{Heard, observe_all, remember_all, restarts, observe_all-Shows}

abbrev calls : List Call
calls = set 10 3 500 ∷ set 11 4 501 ∷ delete 10 ∷ set 11 5 502 ∷ set 0 6 503 ∷ []

get_sgw_peer-run_calls_example :
    let t = run_calls calls (create_sgw_peers 499) in
    let held = map_calls calls (λ _. none) 11 in
    get_sgw_peer read_peer 11 t none ≡ (t, held, is_some held)
get_sgw_peer-run_calls_example = get_sgw_peer-run_calls 499 calls 11 (omega arith)

abbrev steps : List (Step ℕ)
steps = put 1 ∷ put 2 ∷ get 1 ∷ put 3 ∷ get 32 ∷ []

run_steps-IsCounted_example :
    let q : Queue ℕ = record { queue = []; queue_count = 0; queue_drops = 0 } in
    ((run_steps steps q).1 ++ (run_steps steps q).0.queue ≡ taken steps q)
    × IsCounted (run_steps steps q).0
run_steps-IsCounted_example = run_steps-IsCounted steps

abbrev heard : List Heard
heard =
    record { now = 500; ip = 10; counter = 1 }
    ∷ record { now = 560; ip = 10; counter = 2 }
    ∷ record { now = 561; ip = 11; counter = 1 }
    ∷ []

abbrev new_node : EchoNode
new_node = record {
  peers_table = create_sgw_peers 499;
  ingress = record { queue = []; queue_count = 0; queue_drops = 0 };
  egress = record { queue = []; queue_count = 0; queue_drops = 0 };
  queries = [];
}

new_node-Shows : Shows new_node.peers_table (λ _. none)
unfolding create_sgw_peers find_peer
new_node-Shows = record { once = tt; shown = λ j. refl }

observe_all-Shows_example :
    Shows (observe_all heard new_node).peers_table (remember_all heard (λ _. none))
    × ((observe_all heard new_node).queries ≡ [] ++ restarts heard (λ _. none))
unfolding create_sgw_peers
observe_all-Shows_example =
    observe_all-Shows heard new_node (λ _. none) (omega arith) new_node-Shows
