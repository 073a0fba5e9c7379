-- ===== src/Route/Table/LeastHop.antt =====
-- `gen_next_hop_map_with_least_hop`.
use mathlib.Core.List.{lookup, Memᴰ}
use mathlib.Core.Option.{some-injective}
use native.Mathlib.Omega.{arith}
use neo_easy_tier_deamon.Prelude.{
  ℕ, ◌+◌, ◌-◌, ◌^◌, ◌≤◌, ◌↔◌, ◌≡◌, refl, sym, ap, ◌∙◌, List, some, ℕ_discrete, get_elem?,
}
use neo_easy_tier_deamon.Route.Dijkstra.{BinaryHeap}
use neo_easy_tier_deamon.Route.Dijkstra.Walks.{stay}
use neo_easy_tier_deamon.Route.Dijkstra.Correct.{
  search_ends, below_walks, Scored-IsLeastCost, IsLeastCost,
}
use neo_easy_tier_deamon.Route.Dijkstra.Heap.{list_heap}
use neo_easy_tier_deamon.Route.Table.{
  PeerGraph, Petgraph, RouteTable, NextHopInfo, normalize_edge_cost, shortest_links,
  gen_next_hop_map_with_least_hop,
}
use neo_easy_tier_deamon.Route.Table.Links.{Link, graph_of, bound, IsSmall}
use neo_easy_tier_deamon.Route.Table.Small.{bound_mono, score_usize}
use neo_easy_tier_deamon.Route.Table.Paths.{
  Way, Measure, at_start, along, no_way, further, length_walk, walk_length,
}
use neo_easy_tier_deamon.Route.Table.Hops.{IsGraph, IsOlder, IsRoute, IsRouted, LeastCost, LeastHop}
use neo_easy_tier_deamon.Route.Table.LeastCost.{gen_next_hop_map_with_least_cost_lem}
use neo_easy_tier_deamon.Route.Table.Tight.{
  normalize_edge_cost-small, IsTight, kept_of_tight, kept-IsTight,
}

module _ (p : Petgraph) (links : List Link) (start : ℕ) where
  abbrev lengths : List (ℕ × ℕ)
  lengths = p.dijkstra links start normalize_edge_cost

module _ (p : Petgraph) (links : List Link) (start : ℕ) (few : bound links ≤ 2 ^ 32) where
  abbrev HasLength : ℕ → ℕ → Type 0
  HasLength v a = lookup ℕ_discrete v (lengths p links start) ≡ some a

  lengths-IsSmall : IsSmall normalize_edge_cost links
  lengths-IsSmall = record {
    costs = λ l m. omega (arith, normalize_edge_cost-small l.cost);
    nodes = few;
  }

  length_iff :
      (v a : ℕ)
      → HasLength v a ↔ IsLeastCost (graph_of p.adjacency normalize_edge_cost links) start v a
  length_iff v a = p.dijkstra_lem links start normalize_edge_cost v a lengths-IsSmall

  lengths_fit : (v a : ℕ) → HasLength v a → a ≤ 2 ^ 64 - 2 ^ 32
  lengths_fit v a l =
      let g = graph_of p.adjacency normalize_edge_cost links in
      let (t, e, h, n) = search_ends g start list_heap in
      score_usize p.adjacency normalize_edge_cost links lengths-IsSmall list_heap start t e v a
        ((Scored-IsLeastCost g start t h n v a).1 ((length_iff v a).0 l))

  start_length : HasLength start 0
  start_length = (length_iff start 0).1 (record {
    attained = (start, 0, stay start 0 start 0 refl refl refl refl);
    least = λ c k n w. omega arith;
  })

  -- Each path is at least as long as the length that `dijkstra` gave to its end.
  length_below : {v : ℕ} {m : Measure} (a : ℕ) → HasLength v a → Way links start v m → a ≤ m.length
  length_below {v} {m} a l q =
      ((length_iff v a).0 l).least m.length m.first m.count (length_walk p.adjacency links start q)

  has_length : {v : ℕ} {m : Measure} → Way links start v m → (a : ℕ) × HasLength v a
  has_length {v} {m} q =
      let g = graph_of p.adjacency normalize_edge_cost links in
      let (t, _, h, n) = search_ends g start list_heap in
      let (b, l, _) = below_walks g start t h n (length_walk p.adjacency links start q) in
      (b, (length_iff v b).1 ((Scored-IsLeastCost g start t h n v b).0 l))

  -- The paths of the subgraph are paths of the graph, and have the least length.
  kept-Way :
      {v : ℕ} {m : Measure}
      → Way (shortest_links (lengths p links start) links) start v m
      → Way links start v m × HasLength v m.length
  unfolding no_way further
  kept-Way (at_start v m ev em) = (
    at_start v m ev em,
    ap (λ x. lookup ℕ_discrete x (lengths p links start)) ev
        ∙ (start_length ∙ ap some (sym (ap (λ (x : Measure). x.length) em))),
  )
  kept-Way (along v m u k l q r es et em) =
      let (path, len) = kept-Way q in
      let (inside, tight) = kept-IsTight (lengths p links start) lengths_fit l links r in
      let same : tight.from ≡ k.length = some-injective _ _ (
        sym tight.from_length ∙ (ap (λ x. lookup ℕ_discrete x (lengths p links start)) es ∙ len)) in
      (
        along v m u k l path inside es et em,
        ap (λ x. lookup ℕ_discrete x (lengths p links start)) (sym et)
            ∙ (tight.to_length
                ∙ ap some (
                    ap (λ x. x + normalize_edge_cost l.cost) same
                    ∙ sym (ap (λ (x : Measure). x.length) em))),
      )

  -- Each path of the graph that has the least length is a path of the subgraph.
  shortest-Way :
      {v : ℕ} {m : Measure}
      → Way links start v m
      → HasLength v m.length
      → Way (shortest_links (lengths p links start) links) start v m
  unfolding no_way further
  shortest-Way (at_start v m ev em) len = at_start v m ev em
  shortest-Way (along v m u k l q r es et em) len =
      let (a, la) = has_length q in
      let below = length_below a la q in
      let (f, n, w) = ((length_iff u a).0 la).attained in
      let (o, short, eo, _, _) = walk_length p.adjacency links start w in
      let above = length_below m.length len (along v (further o l) u o l short r es et refl) in
      let em_length : m.length ≡ k.length + normalize_edge_cost l.cost =
        ap (λ (x : Measure). x.length) em in
      let same : a ≡ k.length = omega arith in
      let tight : IsTight (lengths p links start) lengths_fit l = record {
        from = a;
        from_length = ap (λ x. lookup ℕ_discrete x (lengths p links start)) es ∙ la;
        to_length =
            ap (λ x. lookup ℕ_discrete x (lengths p links start)) et
            ∙ (len ∙ ap some (em_length ∙ ap (λ x. x + normalize_edge_cost l.cost) (sym same)));
      } in
      along v m u k l (shortest-Way q (la ∙ ap some same))
        (kept_of_tight (lengths p links start) lengths_fit l links r tight) es et em

module _ (p : Petgraph) (graph : PeerGraph) (start version : ℕ) where
  abbrev subgraph : PeerGraph
  subgraph = record {
    nodes = graph.nodes;
    links = shortest_links (lengths p graph.links start) graph.links;
  }

module _ (p : Petgraph) (graph : PeerGraph) (start version : ℕ)
    (few : bound graph.links ≤ 2 ^ 32) where
  inside : (l : Link) → Memᴰ l (subgraph p graph start version).links → Memᴰ l graph.links
  inside l m =
      (kept-IsTight (lengths p graph.links start) (lengths_fit p graph.links start few) l
        graph.links m).0

  subgraph-IsSmall :
      IsSmall (λ w. w) graph.links → IsSmall (λ w. w) (subgraph p graph start version).links
  subgraph-IsSmall h = record {
    costs = λ l m. h.costs l (inside l m);
    nodes = omega (arith, h.nodes, bound_mono _ graph.links inside);
  }

  subgraph-IsGraph : IsGraph graph → IsGraph (subgraph p graph start version)
  subgraph-IsGraph g = record { distinct = g.distinct; ends = λ l m. g.ends l (inside l m) }

  -- A path of least cost in the subgraph is a path of least length, of least cost among those.
  LeastHop-IsRoute :
      (v : ℕ) (info : NextHopInfo)
      → IsRoute LeastCost (subgraph p graph start version) start version v info
      → IsRoute LeastHop graph start version v info
  LeastHop-IsRoute v info r =
      let (path, len) = kept-Way p graph.links start few r.path in
      record {
        way = r.way;
        path = path;
        best = λ m q. (
          length_below p graph.links start few r.way.length len q,
          λ e. r.best m (shortest-Way p graph.links start few q (len ∙ ap some e)),
        );
        next = r.next;
        path_len = r.path_len;
        latency = r.latency;
        current = r.current;
      }

  reached_in_subgraph :
      {v : ℕ} {m : Measure}
      → Way graph.links start v m
      → (o : Measure) × Way (subgraph p graph start version).links start v o
  reached_in_subgraph {v} {m} q =
      let (a, la) = has_length p graph.links start few q in
      let (f, n, w) = ((length_iff p graph.links start few v a).0 la).attained in
      let (o, short, eo, _, _) = walk_length p.adjacency graph.links start w in
      (o, shortest-Way p graph.links start few short (la ∙ ap some (sym eo)))

-- From a node of a graph whose nodes stand for different peers and whose edges end at them, with at
-- most 2 ^ 32 nodes and no cost of 2 ^ 32 or more, and on a table of an older version, the policy of
-- least hops ends with no panic. Afterwards the table
-- has a next hop exactly for the peers that some path from the start reaches, and it describes a path
-- of least length (where an edge of the cost for "avoid relay" or more counts that cost plus one, and
-- each other edge counts one), which has the least cost of all paths of that length.
pub gen_next_hop_map_with_least_hop_lem :
    (p : Petgraph) (heap : BinaryHeap) (graph : PeerGraph) (start version me : ℕ)
    (table : RouteTable)
    → IsGraph graph
    → IsSmall (λ w. w) graph.links
    → get_elem? graph.nodes start ≡ some me
    → IsOlder version table
    → (t : RouteTable) × (gen_next_hop_map_with_least_hop p heap graph start version table ≡ some t)
      × IsRouted LeastHop graph start version t
unfolding gen_next_hop_map_with_least_hop
gen_next_hop_map_with_least_hop_lem p heap graph start version me table is_graph small at_node
      older =
    let (t, e, routed) =
      gen_next_hop_map_with_least_cost_lem p heap (subgraph p graph start version) start version me
        table (subgraph-IsGraph p graph start version small.nodes is_graph)
        (subgraph-IsSmall p graph start version small.nodes small) at_node older in
    (
      t,
      rw (at_node, gen_next_hop_map_with_least_hop) e,
      λ v q at_v. (
        (λ info found.
            LeastHop-IsRoute p graph start version small.nodes v info
              ((routed v q at_v).0 info found)),
        λ m path.
            let (o, short) = reached_in_subgraph p graph start version small.nodes path in
            (routed v q at_v).1 o short,
      ),
    )
