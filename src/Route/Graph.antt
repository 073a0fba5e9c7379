-- ===== src/Route/Graph.antt =====
-- The graph of peers: `build_peer_graph_from_synced_info` of easytier/src/peers/peer_ospf_route.rs, and
-- the next hops that `build_from_synced_info` computes on it.
use mathlib.Core.List.{lookup}
use neo_easy_tier_deamon.Prelude.{
  ℕ, zero, suc, ◌+◌, ◌-◌, ◌%◌, ◌^◌, ◌≡◌, Bool, true, false, Option, none, some, List, [], ◌∷◌, ◌++◌,
  if◌then◌else◌, ◌==◌, ℕ_discrete,
}
use neo_easy_tier_deamon.Prelude.Int.{ℤ, pos, negsuc}
use neo_easy_tier_deamon.Route.Messages.{RoutePeerInfo}
use neo_easy_tier_deamon.Route.Synced.{SyncedRouteInfo, get_connected_peers, get_avoid_relay_data}
use neo_easy_tier_deamon.Route.Dijkstra.{BinaryHeap}
use neo_easy_tier_deamon.Route.Table.{
  PeerGraph, Petgraph, RouteTable, avoid_relay_cost, gen_next_hop_map_with_least_cost,
  gen_next_hop_map_with_least_hop,
}
use neo_easy_tier_deamon.Route.Table.Links.{Link}
pub mod Nodes
pub mod Linked
pub mod Routes

-- `as usize` of an `i32`, on 64 bits.
unfoldable pub as_usize : ℤ → ℕ
as_usize (pos n) = n
as_usize (negsuc n) = 2 ^ 64 - 1 - n

-- The peers that become nodes, in the order of their indices.
unfoldable pub node_ids : List (ℕ × RoutePeerInfo) → List ℕ
node_ids [] = []
node_ids ((peer_id, info) ∷ infos) =
    let rest = node_ids infos in if info.version == 0 then rest else peer_id ∷ rest

-- `peer_id_to_node_index`, of the nodes from the index `idx` on.
unfoldable pub index_from : (idx : ℕ) → List ℕ → List (ℕ × ℕ)
index_from idx [] = []
index_from idx (peer_id ∷ peer_ids) = (peer_id, idx) ∷ index_from (idx + 1) peer_ids

unfoldable pub connected_or_default : Option (List ℕ) → List ℕ
connected_or_default none = []
connected_or_default (some peers) = peers

-- `RouteCostCalculatorInterface::calculate_cost` is the argument `calculate_cost`.
module _ {Raw : Type 0} (calculate_cost : ℕ → ℕ → ℤ) (s : SyncedRouteInfo Raw) where
  unfoldable pub edge_cost_of : (src_peer_id dst_peer_id : ℕ) → ℕ
  edge_cost_of src_peer_id dst_peer_id =
      let cost = as_usize (calculate_cost src_peer_id dst_peer_id) in
      if get_avoid_relay_data src_peer_id s then (cost + avoid_relay_cost) % 2 ^ 64 else cost

  -- The edges of one peer; peers that are no nodes are passed over.
  unfoldable pub add_edges : List (ℕ × ℕ) → (src_peer_id src_node_idx : ℕ) → List ℕ → List Link
  add_edges index src_peer_id src_node_idx [] = []
  add_edges index src_peer_id src_node_idx (dst ∷ peers) = elim (lookup ℕ_discrete dst index) [
    | none ↦ add_edges index src_peer_id src_node_idx peers
    | some dst_node_idx ↦
        record { source = src_node_idx; target = dst_node_idx; cost = edge_cost_of src_peer_id dst }
        ∷ add_edges index src_peer_id src_node_idx peers
  ]

  unfoldable pub add_all_edges : List (ℕ × ℕ) → List (ℕ × ℕ) → List Link
  add_all_edges index [] = []
  add_all_edges index ((src_peer_id, src_node_idx) ∷ rest) =
      add_edges index src_peer_id src_node_idx
        (connected_or_default (get_connected_peers src_peer_id s))
      ++ add_all_edges index rest

  -- The graph, and the node of our own peer; `none` is `NodeIndex::end()`, with no edges.
  unfoldable pub build_peer_graph_from_synced_info : (my_peer_id : ℕ) → PeerGraph × Option ℕ
  build_peer_graph_from_synced_info my_peer_id =
      let nodes = node_ids s.peer_infos in
      let index = index_from 0 nodes in
      elim (lookup ℕ_discrete my_peer_id index) [
        | none ↦ (record { nodes = nodes; links = [] }, none)
        | some start ↦ (record { nodes = nodes; links = add_all_edges index index }, some start)
      ]

pub data NextHopPolicy : Type 0 where
  least_hop : NextHopPolicy
  least_cost : NextHopPolicy

unfoldable pub gen_next_hop_map :
    NextHopPolicy
    → Petgraph
    → BinaryHeap
    → PeerGraph
    → (start_node version : ℕ) → RouteTable
    → Option RouteTable
gen_next_hop_map least_hop p heap graph start_node version table =
    gen_next_hop_map_with_least_hop p heap graph start_node version table
gen_next_hop_map least_cost p heap graph start_node version table =
    gen_next_hop_map_with_least_cost p heap graph start_node version table

-- With nodes but without our own, both policies panic on the weight of `NodeIndex::end()`.
unfoldable pub next_hops_from :
    NextHopPolicy
    → Petgraph
    → BinaryHeap
    → PeerGraph × Option ℕ
    → (version : ℕ) → RouteTable
    → Option RouteTable
next_hops_from policy p heap (graph, start) version table = elim graph.nodes [
  | [] ↦ some table
  | _ ∷ _ ↦ elim start [
    | none ↦ none
    | some start_node ↦ gen_next_hop_map policy p heap graph start_node version table
  ]
]

-- The part of `build_from_synced_info` that computes the next hops.
unfoldable pub build_next_hops :
    {Raw : Type 0}
    → Petgraph
    → BinaryHeap
    → (my_peer_id : ℕ) → SyncedRouteInfo Raw
    → NextHopPolicy
    → (ℕ → ℕ → ℤ)
    → RouteTable
    → Option RouteTable
build_next_hops p heap my_peer_id s policy calculate_cost table =
    next_hops_from policy p heap (build_peer_graph_from_synced_info calculate_cost s my_peer_id)
      s.version table
