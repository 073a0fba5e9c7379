-- ===== src/Tests/Routes/Building.antt =====
-- An example of next hops from synced infos.
use mathlib.Core.List.{lookup}
use native.Mathlib.Omega.{arith}
use neo_easy_tier_deamon.Prelude.{
  ℕ, length, ◌<◌, ◌≤◌, ◌^◌, ◌≡◌, ◌≢◌, refl, [], ◌∷◌, some, get_elem?, ℕ_discrete,
}
use neo_easy_tier_deamon.Prelude.Int.{pos}
use neo_easy_tier_deamon.Prelude.Assoc.{IsUnique}
use neo_easy_tier_deamon.Route.Messages.{RoutePeerInfo}
use neo_easy_tier_deamon.Route.Synced.{SyncedRouteInfo, new_peer_info}
use neo_easy_tier_deamon.Route.Dijkstra.Heap.{list_heap}
use neo_easy_tier_deamon.Route.Table.{PeerGraph, RouteTable}
use neo_easy_tier_deamon.Route.Table.Hops.{IsOlder, IsRouted}
use neo_easy_tier_deamon.Route.Graph.{build_next_hops, least_hop}
use neo_easy_tier_deamon.Route.Graph.Routes.{IsBuilt, BestBy, build_next_hops_lem}
use neo_easy_tier_deamon.Tests.Routes.Instances.{list_petgraph}

abbrev known : (peer_id version : ℕ) → RoutePeerInfo
known peer_id version = record (new_peer_info [] 0) { peer_id = peer_id; version = version }

-- We are the peer 1 and connected to 2; the peer 3 is only mentioned.
abbrev synced : SyncedRouteInfo ℕ
synced = record {
  peer_infos = (1, known 1 4) ∷ (2, known 2 5) ∷ (3, known 3 0) ∷ [];
  raw_peer_infos = [];
  conn_map = (1, (2 ∷ 3 ∷ [], 1)) ∷ (2, (1 ∷ [], 1)) ∷ [];
  foreign_network = [];
  group_trust_map = [];
  group_trust_map_cache = [];
  version = 7;
}

synced_unique : IsUnique ℕ_discrete synced.peer_infos
unfolding lookup ℕ_discrete
synced_unique = (refl, (refl, (refl, tt)))

synced_mine : lookup ℕ_discrete 1 synced.peer_infos ≡ some (known 1 4)
unfolding lookup ℕ_discrete
synced_mine = refl

abbrev no_hops : RouteTable
no_hops = record { next_hop_map = []; next_hop_map_version = 0 }

no_hops-IsOlder : IsOlder 7 no_hops
unfolding lookup
no_hops-IsOlder = record { entries = λ p x e. absurd (ground (arith, e)); counter = omega arith }

known_version : (known 1 4).version ≢ 0
unfolding new_peer_info
known_version = omega arith

one_each : (a b : ℕ) → (n : ℕ) × (pos 1 ≡ pos n) × (n < 2 ^ 31)
one_each a b = (1, refl, omega arith)

few_peers : length synced.peer_infos ≤ 2 ^ 32
few_peers = omega arith

build_next_hops_example :
    (graph : PeerGraph) × (start : ℕ) × (t : RouteTable) × (get_elem? graph.nodes start ≡ some 1)
    × IsBuilt (λ _ _. pos 1) synced synced_unique graph
    × (build_next_hops list_petgraph list_heap 1 synced least_hop (λ _ _. pos 1) no_hops ≡ some t)
    × IsRouted (BestBy least_hop) graph start 7 t
build_next_hops_example =
    build_next_hops_lem list_petgraph list_heap 1 synced least_hop (λ _ _. pos 1) no_hops
      (known 1 4) synced_unique synced_mine known_version one_each few_peers no_hops-IsOlder
