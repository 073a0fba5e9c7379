-- ===== src/Route/Table/LeastCost.antt =====
-- `gen_next_hop_map_with_least_cost`.
use mathlib.Core.List.{lookup}
use mathlib.Core.Path.{subst}
use mathlib.Core.Option.{none-ne-some, some-injective}
use native.Mathlib.Omega.{arith}
use neo_easy_tier_deamon.Prelude.{
  ℕ, ◌%◌, ◌≤◌, ◌≡◌, refl, sym, ap, ◌∙◌, inl, inr, [], some, ℕ_discrete, Bool-cases, Option-cases,
  if_true, if_false, get_elem?, max, ◌==◌,
}
use neo_easy_tier_deamon.Prelude.Int.{pos, as_i32}
use neo_easy_tier_deamon.Prelude.Assoc.{lookup-mem}
use neo_easy_tier_deamon.Route.Dijkstra.{BinaryHeap, Search}
use neo_easy_tier_deamon.Route.Dijkstra.Edges.{Scored, Hops}
use neo_easy_tier_deamon.Route.Dijkstra.Correct.{search_ends, Scored-IsLeastCost, below_walks}
use neo_easy_tier_deamon.Route.Dijkstra.Rounds.{IsSettled}
use neo_easy_tier_deamon.Route.Table.{
  PeerGraph, Petgraph, RouteTable, next_hop_info, avoid_relay_cost, set_hops, use_search,
  gen_next_hop_map_with_least_cost,
}
use neo_easy_tier_deamon.Route.Table.Links.{graph_of, IsSmall}
use neo_easy_tier_deamon.Route.Table.Small.{search_usize}
use neo_easy_tier_deamon.Route.Table.Paths.{
  Way, Measure, at_start, along, no_way, further, cost_walk, walk_cost,
}
use neo_easy_tier_deamon.Route.Table.Entries.{NextHopMap, IsKnown, IsInserted, insert_hops_lem}
use neo_easy_tier_deamon.Route.Table.Hops.{
  IsGraph, IsOlder, IsRoute, IsRouted, LeastCost, get_next_hop-found, get_next_hop-stale,
}

as_i32-small : (c : ℕ) → as_i32 (c % avoid_relay_cost) ≡ pos (c % avoid_relay_cost)
unfolding as_i32
as_i32-small c = ground arith

module _ (p : Petgraph) (heap : BinaryHeap) (graph : PeerGraph) (start version : ℕ)
    (is_graph : IsGraph graph) (me : ℕ)
    (at_start_node : get_elem? graph.nodes start ≡ some me) where
  -- The end and the first node of a path stand for peers.
  nodes_of_Way :
      {v : ℕ} {m : Measure}
      → Way graph.links start v m
      → ((q : ℕ) × (get_elem? graph.nodes v ≡ some q))
        × ((q : ℕ) × (get_elem? graph.nodes m.first ≡ some q))
  unfolding no_way further
  nodes_of_Way (at_start v m ev em) = (
    (me, ap (get_elem? graph.nodes) ev ∙ at_start_node),
    (me, ap (λ (x : Measure). get_elem? graph.nodes x.first) em ∙ at_start_node),
  )
  nodes_of_Way (along v m u k l q r es et em) =
      let (_, (f, known)) = nodes_of_Way q in
      let (t, target) = is_graph.ends l r in
      (
        (t, ap (get_elem? graph.nodes) (sym et) ∙ target),
        elim (Bool-cases (k.count == 0)) [
          | inl y ↦ (
            t,
            ap (λ (x : Measure). get_elem? graph.nodes x.first) em
                ∙ (ap (get_elem? graph.nodes) (if_true _ _ _ y) ∙ target),
          )
          | inr n ↦ (
            f,
            ap (λ (x : Measure). get_elem? graph.nodes x.first) em
                ∙ (ap (get_elem? graph.nodes) (if_false _ _ _ n) ∙ known),
          )
        ],
      )

  -- A first hop, its score and their path.
  record IsHop (t : Search) (v hop count : ℕ) : Type 0 where
    pub way : Measure
    pub path : Way graph.links start v way
    pub best : (m : Measure) → Way graph.links start v m → way.cost ≤ m.cost
    pub score : Scored t v way.cost
    pub first : way.first ≡ hop
    pub edges : way.count ≡ count

  search-IsHop :
      (t : Search)
      → IsSettled (graph_of p.adjacency (λ w. w) graph.links) start t
      → t.visit_next ≡ []
      → (v hop count : ℕ) → Hops t v (hop, count)
      → IsHop t v hop count
  search-IsHop t h n v hop count l =
      let (a, sc) = h.sound.hopped v (hop, count) l in
      let (k, f, w) = h.sound.walked v a sc in
      let same = some-injective _ _ (sym f ∙ l) in
      let (m, path, ec, ef, en) = walk_cost p.adjacency graph.links start w in
      let least =
        (Scored-IsLeastCost (graph_of p.adjacency (λ w. w) graph.links) start t h n v a).0 sc in
      record {
        way = m;
        path = path;
        best = λ o q.
            subst (λ x. x ≤ o.cost) (sym ec)
              (least.least o.cost o.first o.count (cost_walk p.adjacency graph.links start q));
        score = subst (Scored t v) (sym ec) sc;
        first = ef ∙ ap (λ (x : ℕ × ℕ). x.0) same;
        edges = en ∙ ap (λ (x : ℕ × ℕ). x.1) same;
      }

  hop-IsKnown :
      (t : Search) (v hop count : ℕ) → IsHop t v hop count → IsKnown graph t.scores version v hop
  hop-IsKnown t v hop count h =
      let ((q, at_v), (f, at_first)) = nodes_of_Way h.path in
      record {
        peer = f;
        peer_known = ap (get_elem? graph.nodes) (sym h.first) ∙ at_first;
        cost = h.way.cost;
        cost_known = h.score;
        dst_peer = q;
        dst_known = at_v;
      }

  module _ (table : RouteTable) (older : IsOlder version table) (t : Search)
      (h : IsSettled (graph_of p.adjacency (λ w. w) graph.links) start t)
      (empty : t.visit_next ≡ []) (m : NextHopMap)
      (inserted : (v q : ℕ)
        → get_elem? graph.nodes v ≡ some q
        → IsInserted graph t.scores version t.first_hop table.next_hop_map m v q) where
    new_table : RouteTable
    new_table = record {
      next_hop_map = m;
      next_hop_map_version = max table.next_hop_map_version version;
    }

    routed : IsRouted LeastCost graph start version new_table
    unfolding new_table
    routed v q at_v = elim (Option-cases (lookup ℕ_discrete v t.first_hop)) [
      | inl miss ↦
          let same = (inserted v q at_v).absent miss in
          let nothing =
            get_next_hop-stale q new_table
              (λ x l. omega (arith, older.entries q x (sym same ∙ l), older.counter)) in
          (
            (λ info e. absurd (none-ne-some _ (sym nothing ∙ e))),
            λ w path.
                let (b, l, _) =
                  below_walks (graph_of p.adjacency (λ x. x) graph.links) start t h empty
                    (cost_walk p.adjacency graph.links start path) in
                let (k, f, _) = h.sound.walked v b l in absurd (none-ne-some _ (sym miss ∙ f)),
          )
      | inr ((hop, count), l) ↦
          let found = search-IsHop t h empty v hop count l in
          let (_, (f, at_first)) = nodes_of_Way found.path in
          let at_hop = ap (get_elem? graph.nodes) (sym found.first) ∙ at_first in
          let there =
            get_next_hop-found q new_table (next_hop_info version found.way.cost f count)
              ((inserted v q at_v).stale hop count f found.way.cost (older.entries q) l at_hop
                found.score)
              (unfold next_hop_info in omega (arith, older.counter)) in
          (
            (λ info e.
                subst (IsRoute LeastCost graph start version v) (some-injective _ _ (sym there ∙ e))
                  (record {
                    way = found.way;
                    path = found.path;
                    best = found.best;
                    next = unfold next_hop_info in at_first;
                    path_len = unfold next_hop_info in sym found.edges;
                    latency = unfold next_hop_info in as_i32-small found.way.cost;
                    current = unfold next_hop_info in refl;
                  })),
            λ w path. (next_hop_info version found.way.cost f count, there),
          )
    ]

-- From a node of a graph whose nodes stand for different peers and whose edges end at them, with at
-- most 2 ^ 32 nodes and no cost of 2 ^ 32 or more, and on a table of an older version, the policy of
-- least cost ends with no panic. Afterwards the table
-- has a next hop exactly for the peers that some path from the start reaches, and it describes one
-- path of least cost: its first node's peer, its cost modulo the cost that stands for "avoid relay"
-- as the latency, the number of its edges as the length, and the version.
pub gen_next_hop_map_with_least_cost_lem :
    (p : Petgraph) (heap : BinaryHeap) (graph : PeerGraph) (start version me : ℕ)
    (table : RouteTable)
    → IsGraph graph
    → IsSmall (λ w. w) graph.links
    → get_elem? graph.nodes start ≡ some me
    → IsOlder version table
    → (t : RouteTable) × (gen_next_hop_map_with_least_cost p heap graph start version table
        ≡ some t)
      × IsRouted LeastCost graph start version t
unfolding gen_next_hop_map_with_least_cost use_search set_hops new_table
gen_next_hop_map_with_least_cost_lem p heap graph start version me table is_graph small at_node
      older =
    let (t, e, h, empty) = search_ends (graph_of p.adjacency (λ w. w) graph.links) start heap in
    let (m, inserts, inserted) =
      insert_hops_lem graph t.scores version is_graph.distinct t.first_hop table.next_hop_map
        (λ dst hop n q. hop-IsKnown p heap graph start version is_graph me at_node t dst hop n (
          search-IsHop p heap graph start version is_graph me at_node t h empty dst hop n
            (lookup-mem ℕ_discrete dst (hop, n) t.first_hop h.sound.unique q))) in
    (
      new_table p heap graph start version is_graph me at_node table older t h empty m inserted,
      ap (use_search graph version table)
            (search_usize p.adjacency (λ w. w) graph.links small heap start ∙ e)
          ∙ ap (set_hops version table) inserts,
      routed p heap graph start version is_graph me at_node table older t h empty m inserted,
    )
