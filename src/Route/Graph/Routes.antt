-- ===== src/Route/Graph/Routes.antt =====
-- The next hops that come of the synced infos, through the graph of peers.
use mathlib.Core.List.{lookup, Memᴰ}
use mathlib.Core.Path.{subst}
use mathlib.Core.Option.{none-ne-some}
use native.Mathlib.Omega.{arith}
use neo_easy_tier_deamon.Prelude.{
  ℕ, ◌+◌, ◌^◌, ◌≤◌, ◌<◌, length, ◌≡◌, ◌≢◌, ◌↔◌, refl, sym, ap, ◌∙◌, List, [], ◌∷◌, some, get_elem?,
  ℕ_discrete,
}
use neo_easy_tier_deamon.Prelude.Int.{ℤ, pos}
use neo_easy_tier_deamon.Prelude.Assoc.{IsUnique, lookup-mem, mem-lookup}
use neo_easy_tier_deamon.Route.Messages.{RoutePeerInfo}
use neo_easy_tier_deamon.Route.Synced.{SyncedRouteInfo, get_connected_peers}
use neo_easy_tier_deamon.Route.Dijkstra.{BinaryHeap}
use neo_easy_tier_deamon.Route.Table.{PeerGraph, Petgraph, RouteTable}
use neo_easy_tier_deamon.Route.Table.Links.{Link, IsSmall}
use neo_easy_tier_deamon.Route.Table.Small.{bound_le}
use neo_easy_tier_deamon.Route.Table.Paths.{Measure}
use neo_easy_tier_deamon.Route.Table.Hops.{IsGraph, IsOlder, IsRouted, LeastCost, LeastHop}
use neo_easy_tier_deamon.Route.Table.LeastCost.{gen_next_hop_map_with_least_cost_lem}
use neo_easy_tier_deamon.Route.Table.LeastHop.{gen_next_hop_map_with_least_hop_lem}
use neo_easy_tier_deamon.Route.Graph.{
  node_ids, index_from, connected_or_default, add_edges, add_all_edges,
  build_peer_graph_from_synced_info, NextHopPolicy, least_hop, least_cost, gen_next_hop_map,
  next_hops_from, build_next_hops,
}
use neo_easy_tier_deamon.Route.Graph.Nodes.{
  mem-index_from, index_from-get, mem-node_ids, node_ids-mem, index-IsUnique, node_ids-IsDistinct,
  get-mem, mem-get, node_ids-length, get_elem?-length,
}
use neo_easy_tier_deamon.Route.Graph.Linked.{
  edge_cost-small, the_link, IsEdge-add_edges, IsLinked, all_edges-IsEdge, row-all_edges,
}

module _ {Raw : Type 0} (calculate_cost : ℕ → ℕ → ℤ) (s : SyncedRouteInfo Raw)
    (unique : IsUnique ℕ_discrete s.peer_infos) where
  abbrev nodes : List ℕ
  nodes = node_ids s.peer_infos

  abbrev index : List (ℕ × ℕ)
  index = index_from 0 nodes

  abbrev links : List Link
  links = add_all_edges calculate_cost s index index

  node_at : (a i : ℕ) → lookup ℕ_discrete a index ≡ some i → get_elem? nodes i ≡ some a
  node_at a i e =
      let (j, same, g) = mem-index_from 0 a i nodes (mem-lookup ℕ_discrete a i index e) in
      let i_eq : j ≡ i = omega arith in ap (get_elem? nodes) (sym i_eq) ∙ g

  index_at : (a i : ℕ) → get_elem? nodes i ≡ some a → Memᴰ (a, i) index
  index_at a i e =
      let same : 0 + i ≡ i = omega arith in
      subst (λ x. Memᴰ (a, x) index) same (index_from-get 0 a i nodes e)

  found_at : (a i : ℕ) → get_elem? nodes i ≡ some a → lookup ℕ_discrete a index ≡ some i
  found_at a i e =
      lookup-mem ℕ_discrete a i index (index-IsUnique 0 s.peer_infos unique) (index_at a i e)

  links-IsLinked : (l : Link) → Memᴰ l links → IsLinked calculate_cost s nodes l
  links-IsLinked l m =
      let (a, i, q, e) = all_edges-IsEdge calculate_cost s index index l m in
      let at_i =
        node_at a i (lookup-mem ℕ_discrete a i index (index-IsUnique 0 s.peer_infos unique) q) in
      record {
        src = a;
        dst = e.dst;
        source_peer = ap (get_elem? nodes) e.from ∙ at_i;
        target_peer = node_at e.dst l.target e.found;
        connected = e.member;
        cost_eq = e.cost_eq;
      }

  linked-links : (l : Link) → IsLinked calculate_cost s nodes l → Memᴰ l links
  linked-links l h =
      let at_target = found_at h.dst l.target h.target_peer in
      let edge =
        IsEdge-add_edges calculate_cost s index h.src l.source l.target h.dst
          (connected_or_default (get_connected_peers h.src s)) h.connected at_target in
      row-all_edges calculate_cost s index index l h.src l.source
        (index_at h.src l.source h.source_peer)
        (subst
          (λ c. Memᴰ (the_link l.source l.target c) (
            add_edges calculate_cost s index h.src l.source
              (connected_or_default (get_connected_peers h.src s))))
          (sym h.cost_eq) edge)

  -- Latencies that are not negative, and no more peers than there are ids of 32 bits, make a graph
  -- whose sums do not overflow.
  links-IsSmall :
      ((a b : ℕ) → (n : ℕ) × (calculate_cost a b ≡ pos n) × (n < 2 ^ 31))
      → length s.peer_infos ≤ 2 ^ 32
      → IsSmall (λ w. w) links
  links-IsSmall latency few = record {
    costs = λ l m.
        let h = links-IsLinked l m in
        let (n, e, lt) = latency h.src h.dst in
        omega (arith, h.cost_eq, edge_cost-small calculate_cost s h.src h.dst n e lt);
    nodes = bound_le links (2 ^ 32) (λ l m. omega (
      arith,
      few,
      node_ids-length s.peer_infos,
      get_elem?-length nodes l.source _ (links-IsLinked l m).source_peer,
    ));
  }

  -- A graph that says what the synced infos say: its nodes are the peers whose info has a version, and
  -- there is an edge exactly from each to each that it is connected to, of the cost that is calculated.
  pub record IsBuilt (graph : PeerGraph) : Type 0 where
    pub is_graph : IsGraph graph
    pub nodes_iff :
        (a : ℕ)
        → ((i : ℕ) × (get_elem? graph.nodes i ≡ some a))
          ↔ ((x : RoutePeerInfo) × (lookup ℕ_discrete a s.peer_infos ≡ some x) × (x.version ≢ 0))
    pub links_iff : (l : Link) → Memᴰ l graph.links ↔ IsLinked calculate_cost s graph.nodes l

  abbrev built : PeerGraph
  built = record { nodes = nodes; links = links }

  built-IsBuilt : IsBuilt built
  built-IsBuilt = record {
    is_graph = record {
      distinct = node_ids-IsDistinct s.peer_infos unique;
      ends = λ l m. let h = links-IsLinked l m in (h.dst, h.target_peer);
    };
    nodes_iff = λ a. (
      (λ h.
          let (x, m, v) = mem-node_ids a s.peer_infos (mem-get a h.0 nodes h.1) in
          (x, lookup-mem ℕ_discrete a x s.peer_infos unique m, v)),
      λ h.
          get-mem a nodes
            (node_ids-mem a h.0 s.peer_infos (mem-lookup ℕ_discrete a h.0 s.peer_infos h.1) h.2),
    );
    links_iff = λ l. (links-IsLinked l, linked-links l);
  }

-- The paths that a policy takes for the best.
abbrev pub BestBy : NextHopPolicy → Measure → Measure → Type 0
BestBy least_hop = LeastHop
BestBy least_cost = LeastCost

by_policy :
    (policy : NextHopPolicy) (p : Petgraph) (heap : BinaryHeap) (graph : PeerGraph)
    (start version me : ℕ) (table : RouteTable)
    → IsGraph graph
    → IsSmall (λ w. w) graph.links
    → get_elem? graph.nodes start ≡ some me
    → IsOlder version table
    → (t : RouteTable) × (gen_next_hop_map policy p heap graph start version table ≡ some t)
      × IsRouted (BestBy policy) graph start version t
unfolding gen_next_hop_map
by_policy least_hop p heap graph start version me table g small a o =
    gen_next_hop_map_with_least_hop_lem p heap graph start version me table g small a o
by_policy least_cost p heap graph start version me table g small a o =
    gen_next_hop_map_with_least_cost_lem p heap graph start version me table g small a o

nonempty :
    (policy : NextHopPolicy) (p : Petgraph) (heap : BinaryHeap) (ns : List ℕ) (ls : List Link)
    (start version me : ℕ) (table : RouteTable)
    → get_elem? ns start ≡ some me
    → next_hops_from policy p heap (record { nodes = ns; links = ls }, some start) version table
      ≡ gen_next_hop_map policy p heap (record { nodes = ns; links = ls }) start version table
unfolding next_hops_from
nonempty policy p heap [] ls start version me table e = absurd (none-ne-some _ e)
nonempty policy p heap (n ∷ ns) ls start version me table e = refl

-- From the synced infos to the next hops: if our own info has a version, no latency is negative, there are at
-- most 2 ^ 32 peers, each once, and the table is of an older version of the infos, there is no panic, under either policy. The peers with a version and their connections are the
-- graph, and the table answers exactly for the peers that a path from us reaches, by a path that is best by the
-- policy.
pub build_next_hops_lem :
    {Raw : Type 0} (p : Petgraph) (heap : BinaryHeap) (my_peer_id : ℕ) (s : SyncedRouteInfo Raw)
    (policy : NextHopPolicy) (calculate_cost : ℕ → ℕ → ℤ) (table : RouteTable)
    (mine : RoutePeerInfo) (unique : IsUnique ℕ_discrete s.peer_infos)
    → lookup ℕ_discrete my_peer_id s.peer_infos ≡ some mine
    → mine.version ≢ 0
    → ((a b : ℕ) → (n : ℕ) × (calculate_cost a b ≡ pos n) × (n < 2 ^ 31))
    → length s.peer_infos ≤ 2 ^ 32
    → IsOlder s.version table
    → (graph : PeerGraph) × (start : ℕ) × (t : RouteTable) × (get_elem? graph.nodes start
        ≡ some my_peer_id)
      × IsBuilt calculate_cost s unique graph
      × (build_next_hops p heap my_peer_id s policy calculate_cost table ≡ some t)
      × IsRouted (BestBy policy) graph start s.version t
unfolding build_next_hops build_peer_graph_from_synced_info
build_next_hops_lem p heap my_peer_id s policy calculate_cost table mine unique known versioned
      latency few older =
    let graph = built calculate_cost s unique in
    let h = built-IsBuilt calculate_cost s unique in
    let (start, at_start) = (h.nodes_iff my_peer_id).1 (mine, known, versioned) in
    let found = found_at calculate_cost s unique my_peer_id start at_start in
    let (t, e, routed) =
      by_policy policy p heap graph start s.version my_peer_id table h.is_graph
        (links-IsSmall calculate_cost s unique latency few) at_start older in
    (
      graph,
      start,
      t,
      at_start,
      h,
      rw (found, build_peer_graph_from_synced_info)
          (nonempty policy p heap graph.nodes graph.links start s.version my_peer_id table at_start
            ∙ e),
      routed,
    )
