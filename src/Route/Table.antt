-- ===== src/Route/Table.antt =====
-- The next hops of `RouteTable` in easytier/src/peers/peer_ospf_route.rs, and the graph of peers
-- that they are computed on.
use mathlib.Core.List.{lookup, Memᴰ}
use native.Mathlib.Omega.{arith}
use neo_easy_tier_deamon.Prelude.{
  ℕ, zero, suc, ◌+◌, ◌-◌, ◌%◌, ◌^◌, ◌≤◌, ◌≡◌, ◌↔◌, max, Bool, Option, none, some, List, [], ◌∷◌,
  ◌++◌, map, if◌then◌else◌, ltb, leb, ◌==◌, get_elem?, ℕ_discrete, refl, ap,
}
use neo_easy_tier_deamon.Prelude.Int.{ℤ, as_i32}
use neo_easy_tier_deamon.Prelude.Assoc.{put}
use neo_easy_tier_deamon.Route.Dijkstra.{
  Graph, Edge, BinaryHeap, Outcome, done, panicked, out_of_fuel, dijkstra_with_first_hop, add_usize,
}
use neo_easy_tier_deamon.Route.Dijkstra.Correct.{IsLeastCost}
use neo_easy_tier_deamon.Route.Table.Links.{Link, Adjacency, graph_of, IsSmall}
pub mod Links
pub mod Small
pub mod Paths
pub mod Entries
pub mod LeastCost
pub mod Hops
pub mod Tight
pub mod LeastHop

-- A graph as it was built: the peer of each node, and the edges that were added.
pub record PeerGraph : Type 0 where
  pub nodes : List ℕ
  pub links : List Link

-- What the code takes from petgraph: the edges of a node, and `dijkstra`, which gives each node
-- that a walk reaches the least cost of such a walk, where its sums of `usize` do not overflow.
pub record Petgraph : Type 0 where
  pub adjacency : Adjacency
  pub dijkstra : List Link → ℕ → (ℕ → ℕ) → List (ℕ × ℕ)
  pub dijkstra_lem :
      (links : List Link) (start : ℕ) (edge_cost : ℕ → ℕ) (v a : ℕ)
      → IsSmall edge_cost links
      → (lookup ℕ_discrete v (dijkstra links start edge_cost) ≡ some a)
        ↔ IsLeastCost (graph_of adjacency edge_cost links) start v a

pub record NextHopInfo : Type 0 where
  pub next_hop_peer_id : ℕ
  pub path_latency : ℤ
  pub path_len : ℕ
  pub version : ℕ

-- The part of `RouteTable` that says where packets go next.
pub record RouteTable : Type 0 where
  pub next_hop_map : List (ℕ × NextHopInfo)
  pub next_hop_map_version : ℕ

abbrev pub avoid_relay_cost : ℕ
avoid_relay_cost = 2 ^ 31 - 1

unfoldable pub get_next_hop : ℕ → RouteTable → Option NextHopInfo
get_next_hop dst_peer_id table = elim (lookup ℕ_discrete dst_peer_id table.next_hop_map) [
  | none ↦ none
  | some x ↦ if leb table.next_hop_map_version x.version then some x else none
]

unfoldable pub next_hop_info : (version cost peer path_len : ℕ) → NextHopInfo
next_hop_info version cost peer path_len = record {
  next_hop_peer_id = peer;
  path_latency = as_i32 (cost % avoid_relay_cost);
  path_len = path_len;
  version = version;
}

-- `entry(dst).and_modify(…).or_insert(info)`
unfoldable pub insert_newer :
    (version dst : ℕ) → NextHopInfo → List (ℕ × NextHopInfo) → List (ℕ × NextHopInfo)
insert_newer version dst info m = elim (lookup ℕ_discrete dst m) [
  | none ↦ put ℕ_discrete dst info m
  | some x ↦ if ltb x.version version then put ℕ_discrete dst info m else m
]

-- One turn of the loop over the first hops; `none` is the panic of an `unwrap`.
unfoldable pub insert_hop :
    PeerGraph
    → List (ℕ × ℕ)
    → (version dst next_hop path_len : ℕ) → List (ℕ × NextHopInfo)
    → Option (List (ℕ × NextHopInfo))
insert_hop graph costs version dst next_hop path_len m = elim (get_elem? graph.nodes next_hop) [
  | none ↦ none
  | some peer ↦ elim (lookup ℕ_discrete dst costs) [
    | none ↦ none
    | some cost ↦ elim (get_elem? graph.nodes dst) [
      | none ↦ none
      | some dst_peer_id ↦
          some (insert_newer version dst_peer_id (next_hop_info version cost peer path_len) m)
    ]
  ]
]

unfoldable pub insert_hops :
    PeerGraph
    → List (ℕ × ℕ)
    → (version : ℕ) → List (ℕ × (ℕ × ℕ))
    → List (ℕ × NextHopInfo)
    → Option (List (ℕ × NextHopInfo))
insert_hops graph costs version [] m = some m
insert_hops graph costs version ((dst, (next_hop, path_len)) ∷ hops) m =
    elim (insert_hop graph costs version dst next_hop path_len m) [
      | none ↦ none
      | some n ↦ insert_hops graph costs version hops n
    ]

unfoldable pub set_hops :
    (version : ℕ) → RouteTable → Option (List (ℕ × NextHopInfo)) → Option RouteTable
set_hops version table none = none
set_hops version table (some m) =
    some
      (record { next_hop_map = m; next_hop_map_version = max table.next_hop_map_version version })

unfoldable pub use_search : PeerGraph → (version : ℕ) → RouteTable → Outcome → Option RouteTable
use_search graph version table (done t) =
    set_hops version table (insert_hops graph t.scores version t.first_hop table.next_hop_map)
use_search graph version table panicked = none
use_search graph version table out_of_fuel = none

unfoldable pub gen_next_hop_map_with_least_cost :
    Petgraph → BinaryHeap → PeerGraph → (start_node version : ℕ) → RouteTable → Option RouteTable
gen_next_hop_map_with_least_cost p heap graph start_node version table =
    use_search graph version table (
      dijkstra_with_first_hop add_usize heap (graph_of p.adjacency (λ w. w) graph.links) start_node)

unfoldable pub normalize_edge_cost : ℕ → ℕ
normalize_edge_cost w = if leb avoid_relay_cost w then avoid_relay_cost + 1 else 1

unfoldable pub is_shortest : List (ℕ × ℕ) → Link → Bool
is_shortest path_len_map e = elim (lookup ℕ_discrete e.source path_len_map) [
  | none ↦ Bool.false
  | some a ↦ elim (lookup ℕ_discrete e.target path_len_map) [
    | none ↦ Bool.false
    | some b ↦ (a + normalize_edge_cost e.cost) % 2 ^ 64 == b
  ]
]

unfoldable pub shortest_links : List (ℕ × ℕ) → List Link → List Link
shortest_links path_len_map [] = []
shortest_links path_len_map (e ∷ links) =
    let rest = shortest_links path_len_map links in
    if is_shortest path_len_map e then e ∷ rest else rest

unfoldable pub gen_next_hop_map_with_least_hop :
    Petgraph → BinaryHeap → PeerGraph → (start_node version : ℕ) → RouteTable → Option RouteTable
gen_next_hop_map_with_least_hop p heap graph start_node version table =
    let path_len_map = p.dijkstra graph.links start_node normalize_edge_cost in
    let subgraph : PeerGraph = record {
      nodes = graph.nodes;
      links = shortest_links path_len_map graph.links;
    } in
    elim (get_elem? graph.nodes start_node) [
      | none ↦ none
      | some _ ↦ gen_next_hop_map_with_least_cost p heap subgraph start_node version table
    ]
