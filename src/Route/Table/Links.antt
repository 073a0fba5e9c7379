-- ===== src/Route/Table/Links.antt =====
-- The edges that petgraph's `edges` gives for a node, from those that were added to the graph.
use mathlib.Core.List.{Memᴰ}
use native.Mathlib.Omega.{arith}
use neo_easy_tier_deamon.Prelude.{
  ℕ, suc, ◌≤◌, ◌<◌, ◌^◌, ◌≡◌, ◌↔◌, refl, ap, List, [], ◌∷◌, map, max,
}
use neo_easy_tier_deamon.Route.Dijkstra.{Graph, Edge}

pub record Link : Type 0 where
  pub source : ℕ
  pub target : ℕ
  pub cost : ℕ

-- The edges of a node are the added ones that start there, in whatever order.
pub record Adjacency : Type 0 where
  pub out : List Link → ℕ → List Edge
  pub out_lem :
      (links : List Link) (v : ℕ) (e : Edge)
      → Memᴰ e (out links v) ↔ Memᴰ (record { source = v; target = e.target; cost = e.cost }) links

-- Above each source.
unfoldable pub bound : List Link → ℕ
bound [] = 0
bound (l ∷ links) = max (suc l.source) (bound links)

pub lt-bound : (links : List Link) (l : Link) → Memᴰ l links → l.source < bound links
unfolding bound
lt-bound [] l m = elim m [ ]
lt-bound (x ∷ links) l (Memᴰ.head e) = omega (arith, ap (λ (k : Link). k.source) e)
lt-bound (x ∷ links) l (Memᴰ.tail m) = omega (arith, lt-bound links l m)

unfoldable pub with_cost : (ℕ → ℕ) → Edge → Edge
with_cost f e = record { target = e.target; cost = f e.cost }

no_edges : {A B : Type 0} (f : A → B) (l : List A) → ((a : A) → ¬ Memᴰ a l) → map f l ≡ []
no_edges f [] h = refl
no_edges f (x ∷ l) h = absurd (h x (Memᴰ.head refl))

pub outside_graph :
    (adj : Adjacency) (edge_cost : ℕ → ℕ) (links : List Link) (v : ℕ)
    → bound links ≤ v
    → map (with_cost edge_cost) (adj.out links v) ≡ []
outside_graph adj edge_cost links v h =
    no_edges (with_cost edge_cost) (adj.out links v)
      (λ e m. omega (arith, lt-bound links _ ((adj.out_lem links v e).0 m)))

unfoldable pub graph_of : Adjacency → (edge_cost : ℕ → ℕ) → List Link → Graph
graph_of adj edge_cost links = record {
  node_bound = bound links;
  edges = λ v. map (with_cost edge_cost) (adj.out links v);
  outside = outside_graph adj edge_cost links;
}

-- Costs that 32 bits hold, and nodes that petgraph's indices of 32 bits can tell apart.
pub record IsSmall (edge_cost : ℕ → ℕ) (links : List Link) : Type 0 where
  pub costs : (l : Link) → Memᴰ l links → edge_cost l.cost < 2 ^ 32
  pub nodes : bound links ≤ 2 ^ 32
