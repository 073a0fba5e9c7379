-- ===== src/Route/Table/Small.antt =====
-- Graphs of peers on which the sums of `usize` do not overflow.
use mathlib.Core.List.{Memᴰ}
use native.Mathlib.Omega.{arith}
use neo_easy_tier_deamon.Prelude.{ℕ, refl, ◌+◌, ◌*◌, ◌-◌, ◌^◌, ◌≤◌, ◌<◌, ◌≡◌, ap, List, [], ◌∷◌}
use neo_easy_tier_deamon.Prelude.Mem.{mem-of_map}
use neo_easy_tier_deamon.Route.Dijkstra.{
  BinaryHeap, Edge, Search, done, add_usize, dijkstra_with_first_hop,
}
use neo_easy_tier_deamon.Route.Dijkstra.Edges.{Scored}
use neo_easy_tier_deamon.Route.Dijkstra.Fits.{mul_le_left, dijkstra_with_first_hop-fits, score_fits}
use neo_easy_tier_deamon.Route.Table.Links.{
  Link, Adjacency, graph_of, with_cost, bound, lt-bound, IsSmall,
}

pub bound_mono :
    (links links' : List Link)
    → ((l : Link) → Memᴰ l links → Memᴰ l links')
    → bound links ≤ bound links'
unfolding bound
bound_mono [] links' sub = omega arith
bound_mono (l ∷ links) links' sub = omega (
  arith,
  lt-bound links' l (sub l (Memᴰ.head refl)),
  bound_mono links links' (λ k m. sub k (Memᴰ.tail m)),
)

pub bound_le :
    (links : List Link) (n : ℕ) → ((l : Link) → Memᴰ l links → l.source < n) → bound links ≤ n
unfolding bound
bound_le [] n h = omega arith
bound_le (l ∷ links) n h =
    omega (arith, h l (Memᴰ.head refl), bound_le links n (λ k m. h k (Memᴰ.tail m)))

module _ (adj : Adjacency) (edge_cost : ℕ → ℕ) (links : List Link)
    (h : IsSmall edge_cost links) where
  small_costs :
      (v : ℕ) (e : Edge) → Memᴰ e ((graph_of adj edge_cost links).edges v) → e.cost ≤ 2 ^ 32 - 1
  unfolding graph_of with_cost
  small_costs v e m =
      let (x, q, same) = mem-of_map (with_cost edge_cost) e (adj.out links v) m in
      omega (
        arith,
        ap (λ (y : Edge). y.cost) same,
        h.costs (record { source = v; target = x.target; cost = x.cost })
            ((adj.out_lem links v x).0 q),
      )

  most : (graph_of adj edge_cost links).node_bound * (2 ^ 32 - 1) ≤ 2 ^ 32 * (2 ^ 32 - 1)
  unfolding graph_of
  most = mul_le_left (bound links) (2 ^ 32) (2 ^ 32 - 1) h.nodes

  pub search_usize :
      (heap : BinaryHeap) (start : ℕ)
      → dijkstra_with_first_hop add_usize heap (graph_of adj edge_cost links) start
        ≡ dijkstra_with_first_hop ◌+◌ heap (graph_of adj edge_cost links) start
  search_usize heap start =
      dijkstra_with_first_hop-fits add_usize heap (graph_of adj edge_cost links) start (2 ^ 32 - 1)
        small_costs (λ x y l. omega (arith, most))

  -- Room for one more edge of the subgraph.
  pub score_usize :
      (heap : BinaryHeap) (start : ℕ) (t : Search)
      → dijkstra_with_first_hop ◌+◌ heap (graph_of adj edge_cost links) start ≡ done t
      → (v a : ℕ) → Scored t v a
      → a ≤ 2 ^ 64 - 2 ^ 32
  score_usize heap start t e v a l = omega (
    arith,
    most,
    score_fits ◌+◌ (graph_of adj edge_cost links) (2 ^ 32 - 1) small_costs (λ x y l. refl) heap
        start t e v a l,
  )
