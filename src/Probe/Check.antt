-- ===== src/Probe/Check.antt =====
-- A health check of a node: `test_node_healthy` and a pass of the loop of `node_health_check_task`
-- in neo-uptime-node/src/health_checker.rs. What the instance of the VPN that runs for the node
-- reports of itself is an argument.
use Prim.Native.String.{String}
use neo_easy_tier_deamon.Prelude.{
  ℕ, zero, suc, ◌≡◌, ◌≤◌, refl, Bool, true, false, ◌||◌, ◌&&◌, not, Option, none, some, List, [],
  ◌∷◌, if◌then◌else◌, min, ◌==◌, ltb,
}
use neo_easy_tier_deamon.Prelude.Int.{ℤ, int_eq, as_i32}
use neo_easy_tier_deamon.Prelude.Text.{Text, codes, split_once, text_eq}
use neo_easy_tier_deamon.Probe.Status.{HealthStatus, healthy, unhealthy}
use neo_easy_tier_deamon.Probe.Record.{
  HealthyMemRecord, HealthStats, Float, map_option, new, update_health_status, get_health_stats,
}
use neo_easy_tier_deamon.Probe.Db.{Orm, update_node_status, update_node_version}
use neo_easy_tier_deamon.Probe.Sync.{IdMap}
pub mod Destination
pub mod Found
pub mod Passes

-- `PeerInfo` of easytier's API: its id, and the latency of each connection that has statistics.
pub record PeerInfo : Type 0 where
  pub peer_id : ℕ
  pub conns : List (Option ℕ)

-- `Route`: what the test reads. The feature flag says whether the peer is a public server.
pub record Route : Type 0 where
  pub hostname : Text
  pub version : Text
  pub feature_flag : Option Bool

pub record PeerRoutePair : Type 0 where
  pub route : Option Route
  pub peer : Option PeerInfo

-- `NetworkInstanceRunningInfo`; the summary holds the number of networks by peer id.
pub record Instance : Type 0 where
  pub running : Bool
  pub error_msg : Option Text
  pub peer_route_pairs : List PeerRoutePair
  pub foreign_network_summary : Option (List (ℕ × ℕ))

-- Why a node is not healthy.
pub data Failure : Type 0 where
  instance_not_found not_running not_online : Failure
  has_error : Text → Failure

-- The version, the response time in microseconds and the number of connections; or an error; or
-- the panic where a route has no feature flag.
pub data Tested : Type 0 where
  passed : Text → ℕ → ℕ → Tested
  bail : Failure → Tested
  panic : Tested

abbrev pub has_conns : Option PeerInfo → Bool
has_conns none = false
has_conns (some p) = elim p.conns [ [] ↦ false | _ ∷ _ ↦ true ]

-- The test of the closure, `none` where `feature_flag.unwrap()` panics.
unfoldable pub is_destination : PeerRoutePair → Option Bool
is_destination x = elim x.route [
  | none ↦ some false
  | some route ↦ elim route.feature_flag [
    | none ↦ none
    | some is_public_server ↦ some (
        not is_public_server
        && not (text_eq route.hostname (codes "NeoUptimeDeamon"))
        && has_conns x.peer)
  ]
]

pub data Search : Type 0 where
  found : PeerRoutePair → Search
  absent aborted : Search

abbrev pub search_step : Option Bool → PeerRoutePair → Search → Search
search_step none x rest = aborted
search_step (some true) x rest = found x
search_step (some false) x rest = rest

-- `p.iter().find(..)`
unfoldable pub find_destination : List PeerRoutePair → Search
unfolding is_destination
find_destination [] = absent
find_destination (x ∷ xs) = let rest = find_destination xs in search_step (is_destination x) x rest

-- `version.split("-").next()`
abbrev pub before_dash : Text → Text
before_dash v = elim (split_once b'-' v) [ none ↦ v | some (a, b) ↦ a ]

-- The latencies that are there, and the smallest of them.
abbrev pub latencies : List (Option ℕ) → List ℕ
latencies [] = []
latencies (none ∷ cs) = latencies cs
latencies (some n ∷ cs) = n ∷ latencies cs

abbrev pub smallest : ℕ → List ℕ → ℕ
smallest n [] = n
smallest n (m ∷ ms) = smallest (min n m) ms

abbrev pub response_time_of : List ℕ → ℕ
response_time_of [] = 0
response_time_of (n ∷ ns) = smallest n ns

abbrev pub network_count : ℕ → List (ℕ × ℕ) → ℕ
network_count i [] = 0
network_count i ((j, n) ∷ m) = let rest = network_count i m in if j == i then n else rest

abbrev pub conn_count_of : ℕ → Option (List (ℕ × ℕ)) → ℕ
conn_count_of i none = 0
conn_count_of i (some m) = network_count i m

-- What is read off the pair that was found. The first two cases are the later checks of the
-- function, which a pair that was found passes.
unfoldable pub read_pair : Option (List (ℕ × ℕ)) → Option Route → Option PeerInfo → Tested
read_pair summary none peer = bail not_online
read_pair summary (some route) none = bail not_online
read_pair summary (some route) (some peer) =
    passed (before_dash route.version) (response_time_of (latencies peer.conns))
      (conn_count_of peer.peer_id summary)

unfoldable pub read_search : Option (List (ℕ × ℕ)) → Search → Tested
unfolding read_pair
read_search summary absent = bail not_online
read_search summary aborted = panic
read_search summary (found x) = read_pair summary x.route x.peer

-- `None` where there is no such instance.
unfoldable pub test_node_healthy : Option Instance → Tested
unfolding read_search find_destination
test_node_healthy none = bail instance_not_found
test_node_healthy (some i) =
    if i.running
    then elim i.error_msg [
      | some err ↦ bail (has_error err)
      | none ↦ read_search i.foreign_network_summary (find_destination i.peer_route_pairs)
    ]
    else bail not_running

abbrev pub record_of : ℤ → IdMap HealthyMemRecord → Option HealthyMemRecord
record_of i [] = none
record_of i ((j, r) ∷ m) = let rest = record_of i m in if int_eq j i then some r else rest

-- `get_node_health_stats`
abbrev pub stats_of :
    {F : Type 0} → Float F → ℤ → ℕ → IdMap HealthyMemRecord → Option (HealthStats F)
stats_of f i hours records = map_option (λ r. get_health_stats f r hours) (record_of i records)

-- `get_all_nodes_health_status`, over the records that the map has.
abbrev pub all_statuses : List HealthyMemRecord → List (ℤ × HealthStatus × Option String)
all_statuses [] = []
all_statuses (r ∷ rs) = (r.node_id, r.current_health_status, r.last_error_info) ∷ all_statuses rs

abbrev pub record_or_new : ℤ → ℕ → Option HealthyMemRecord → HealthyMemRecord
unfolding new
record_or_new i now none = new i now
record_or_new i now (some r) = r

-- `create_health_record` (of which an error is only logged) is `add_record`, the text of an error
-- is `message`. The clock is read once for the columns and twice for the record.
module _ {S : Type 0} (db : Orm S)
    (add_record : ℤ → HealthStatus → Option ℤ → Option String → S → S)
    (message : Failure → String) where
  -- `record_health_status`
  pub record_health_status :
      ℤ
      → HealthStatus
      → Option ℤ
      → Option String
      → ℕ
      → ℕ
      → S × IdMap HealthyMemRecord
      → S × IdMap HealthyMemRecord
  unfolding update_health_status record_or_new
  record_health_status i status time error now now' (s, records) = (
    add_record i status time error s,
    (i, update_health_status (record_or_new i now (record_of i records)) status time error now now')
        ∷ records,
  )

  -- A pass of the loop; `none` where the test panics, which ends the task.
  pub check_pass :
      ℤ → Tested → ℕ → ℕ → S × IdMap HealthyMemRecord → Option (S × IdMap HealthyMemRecord)
  unfolding record_health_status
  check_pass i panic now now' (s, records) = none
  check_pass i (passed version time conns) now now' (s, records) =
      let s1 = (update_node_status db i true (some (as_i32 conns)) now s).1 in
      let (s2, records') =
        record_health_status i healthy (some (as_i32 time)) none now now' (s1, records) in
      some ((update_node_version db i version now s2).1, records')
  check_pass i (bail e) now now' (s, records) =
      let s1 = (update_node_status db i false none now s).1 in
      some (record_health_status i unhealthy none (some (message e)) now now' (s1, records))
