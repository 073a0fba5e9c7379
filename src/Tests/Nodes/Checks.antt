-- ===== src/Tests/Nodes/Checks.antt =====
-- Examples of the checks of nodes. The database is the one of the nodes' examples.
use neo_easy_tier_deamon.Prelude.{◌≡◌, refl, true, false, none, some, List, [], ◌∷◌}
use neo_easy_tier_deamon.Prelude.Int.{pos}
use neo_easy_tier_deamon.Prelude.Text.{codes, text_eq, split_once}
use neo_easy_tier_deamon.Probe.Db.{NodeRow}
use neo_easy_tier_deamon.Probe.Manager.{Checker, contains, ids, check_node_changes}
use neo_easy_tier_deamon.Probe.Manager.Follow.{check_node_changes_exact}
use neo_easy_tier_deamon.Probe.Check.{
  Instance, PeerRoutePair, test_node_healthy, is_destination, find_destination, read_search,
  read_pair, passed, check_pass,
}
use neo_easy_tier_deamon.Probe.Check.Found.{IsPassed, test_node_healthy_passed}
use neo_easy_tier_deamon.Probe.Check.Passes.{IsFollowed, check_pass-IsFollowed}
use neo_easy_tier_deamon.Probe.Record.{HealthyMemRecord}
use neo_easy_tier_deamon.Probe.Sync.{IdMap}
use neo_easy_tier_deamon.Tests.Nodes.{table, node}

abbrev rows : List NodeRow
rows = node ∷ []

-- A health checker that never fails, and one that always does.
abbrev willing : Checker (List NodeRow)
willing = record {
  add_node = λ i s. (true, s);
  try_update_node = λ i s. (true, s);
  remove_node = λ i s. (true, s);
}

abbrev failing : Checker (List NodeRow)
failing = record {
  add_node = λ i s. (false, s);
  try_update_node = λ i s. (false, s);
  remove_node = λ i s. (false, s);
}

check_node_changes_exact_example :
    let out = check_node_changes table willing (pos 2 ∷ [], rows) in
    (out.0 ≡ true) × (contains (pos 0) out.1.0 ≡ contains (pos 0) (ids (table.rows rows)))
unfolding table
check_node_changes_exact_example =
    check_node_changes_exact table willing (λ i s. refl) (λ i s. refl) (pos 0) (pos 2 ∷ []) rows
      rows refl

-- A public server, and then the node itself, with two connections.
abbrev pairs : List PeerRoutePair
pairs =
    record {
      route =
          some
            (record { hostname = codes "public"; version = codes "2.4"; feature_flag = some true });
      peer = none;
    }
    ∷ record {
      route =
          some (record {
            hostname = codes "node";
            version = codes "2.4-x";
            feature_flag = some false;
          });
      peer = some (record { peer_id = 9; conns = some 800 ∷ some 300 ∷ [] });
    }
    ∷ []

abbrev instance_info : Instance
instance_info = record {
  running = true;
  error_msg = none;
  peer_route_pairs = pairs;
  foreign_network_summary = some ((9, 4) ∷ []);
}

test_node_healthy_passed_example : IsPassed instance_info (codes "2.4") 300 4
unfolding test_node_healthy find_destination is_destination read_search read_pair text_eq split_once
test_node_healthy_passed_example = test_node_healthy_passed instance_info (codes "2.4") 300 4 refl

check_pass-IsFollowed_example :
    (s' : List NodeRow) × (m' : IdMap HealthyMemRecord) × (check_pass table
        (λ i status time error s. s)
        (λ e. "")
        (pos 0)
        (passed (codes "2") 300 4)
        5
        6
        (rows, [])
      ≡ some (s', m'))
    × IsFollowed table
        (λ i status time error s. s)
        (λ e. "")
        (λ i status time error s j r h. (r, h))
        (pos 0)
        (passed (codes "2") 300 4)
        rows
        []
        s'
        m'
check_pass-IsFollowed_example =
    check_pass-IsFollowed table (λ i status time error s. s) (λ e. "")
      (λ i status time error s j r h. (r, h)) (pos 0) (passed (codes "2") 300 4) 5 6 rows []
      (λ e. absurd cc)
