-- ===== src/Route/Table/Paths.antt =====
-- Paths along the edges that were added to a graph of peers, with what `RouteTable` measures of
-- them, and the walks of `dijkstra_with_first_hop` on that graph.
use mathlib.Core.List.{Memᴰ}
use mathlib.Core.Path.{subst}
use native.Mathlib.Omega.{arith}
use neo_easy_tier_deamon.Prelude.{ℕ, ◌+◌, ◌≡◌, refl, sym, ap, ◌∙◌, ◌==◌, if◌then◌else◌, List}
use neo_easy_tier_deamon.Prelude.Mem.{mem-map, mem-of_map}
use neo_easy_tier_deamon.Route.Dijkstra.{Edge}
use neo_easy_tier_deamon.Route.Dijkstra.Walks.{Walk, stay, step}
use neo_easy_tier_deamon.Route.Table.{normalize_edge_cost}
use neo_easy_tier_deamon.Route.Table.Links.{Link, Adjacency, graph_of, with_cost}

-- The length of a path as the least-hop policy counts it, its cost, the first node after the start
-- (the start itself when there is none), and the number of its edges.
pub record Measure : Type 0 where
  pub length : ℕ
  pub cost : ℕ
  pub first : ℕ
  pub count : ℕ

unfoldable pub no_way : ℕ → Measure
no_way start = record { length = 0; cost = 0; first = start; count = 0 }

unfoldable pub further : Measure → Link → Measure
further m l = record {
  length = m.length + normalize_edge_cost l.cost;
  cost = m.cost + l.cost;
  first = if m.count == 0 then l.target else m.first;
  count = m.count + 1;
}

module _ (links : List Link) (start : ℕ) where
  pub data Way : ℕ → Measure → Type 0 where
    at_start : (v : ℕ) (m : Measure) → v ≡ start → m ≡ no_way start → Way v m
    along :
        (v : ℕ) (m : Measure) (u : ℕ) (k : Measure) (l : Link)
        → Way u k
        → Memᴰ l links
        → l.source ≡ u
        → l.target ≡ v
        → m ≡ further k l
        → Way v m

module _ (adj : Adjacency) (edge_cost : ℕ → ℕ) (links : List Link) where
  edge_of_link :
      (l : Link)
      → Memᴰ l links
      → Memᴰ
          (record { target = l.target; cost = edge_cost l.cost })
          ((graph_of adj edge_cost links).edges l.source)
  unfolding graph_of with_cost
  edge_of_link l m =
      mem-map (with_cost edge_cost) (record { target = l.target; cost = l.cost })
        (adj.out links l.source)
        ((adj.out_lem links l.source (record { target = l.target; cost = l.cost })).1 m)

  link_of_edge :
      (v : ℕ) (e : Edge)
      → Memᴰ e ((graph_of adj edge_cost links).edges v)
      → (c : ℕ) × Memᴰ (record { source = v; target = e.target; cost = c }) links
        × (e.cost ≡ edge_cost c)
  unfolding graph_of with_cost
  link_of_edge v e m =
      let (a, n, i) = mem-of_map (with_cost edge_cost) e (adj.out links v) m in
      (
        a.cost,
        subst (λ x. Memᴰ (record { source = v; target = x; cost = a.cost }) links)
            (ap (λ (y : Edge). y.target) i) ((adj.out_lem links v a).0 n),
        sym (ap (λ (y : Edge). y.cost) i),
      )

-- A total that grows by the cost of each edge is the cost of a walk.
module _ (adj : Adjacency) (edge_cost : ℕ → ℕ) (links : List Link) (start : ℕ) (total : Measure → ℕ)
    (total_start : total (no_way start) ≡ 0)
    (total_further : (m : Measure) (l : Link)
      → total (further m l) ≡ total m + edge_cost l.cost) where
  way-Walk :
      {v : ℕ} {m : Measure}
      → Way links start v m
      → Walk (graph_of adj edge_cost links) start v (total m) m.first m.count
  unfolding no_way further
  way-Walk (at_start v m ev em) =
      stay v (total m) m.first m.count ev (ap total em ∙ total_start)
        (ap (λ (x : Measure). x.first) em) (ap (λ (x : Measure). x.count) em)
  way-Walk (along v m u k l p q es et em) =
      let e : Edge = record { target = l.target; cost = edge_cost l.cost } in
      step v (total m) m.first m.count u (total k) k.first k.count e (way-Walk p)
        (subst (λ x. Memᴰ e ((graph_of adj edge_cost links).edges x)) es
          (edge_of_link adj edge_cost links l q))
        et (ap total em ∙ total_further k l)
        (ap (λ (x : Measure). x.first) em ∙ ap (λ x. if k.count == 0 then x else k.first) et)
        (ap (λ (x : Measure). x.count) em)

  walk-Way :
      {v c f n : ℕ}
      → Walk (graph_of adj edge_cost links) start v c f n
      → (m : Measure) × Way links start v m × (total m ≡ c) × (m.first ≡ f) × (m.count ≡ n)
  unfolding no_way further
  walk-Way (stay v c f n ev ec ef en) =
      (no_way start, at_start v (no_way start) ev refl, total_start ∙ sym ec, sym ef, sym en)
  walk-Way (step v c f n u d k n' e w q et ec ef en) =
      let (m, p, mc, mf, mn) = walk-Way w in
      let (x, r, i) = link_of_edge adj edge_cost links u e q in
      let l : Link = record { source = u; target = e.target; cost = x } in
      (
        further m l,
        along v (further m l) u m l p r refl et refl,
        omega (arith, total_further m l),
        rw (mn, et, mf) (sym ef),
        omega arith,
      )

module _ (adj : Adjacency) (links : List Link) (start : ℕ) where
  pub cost_walk :
      {v : ℕ} {m : Measure}
      → Way links start v m
      → Walk (graph_of adj (λ w. w) links) start v m.cost m.first m.count
  cost_walk =
      way-Walk adj (λ w. w) links start (λ m. m.cost) (unfold no_way in refl)
        (λ m l. unfold further in refl)

  pub walk_cost :
      {v c f n : ℕ}
      → Walk (graph_of adj (λ w. w) links) start v c f n
      → (m : Measure) × Way links start v m × (m.cost ≡ c) × (m.first ≡ f) × (m.count ≡ n)
  walk_cost =
      walk-Way adj (λ w. w) links start (λ m. m.cost) (unfold no_way in refl)
        (λ m l. unfold further in refl)

  pub length_walk :
      {v : ℕ} {m : Measure}
      → Way links start v m
      → Walk (graph_of adj normalize_edge_cost links) start v m.length m.first m.count
  length_walk =
      way-Walk adj normalize_edge_cost links start (λ m. m.length) (unfold no_way in refl)
        (λ m l. unfold further in refl)

  pub walk_length :
      {v c f n : ℕ}
      → Walk (graph_of adj normalize_edge_cost links) start v c f n
      → (m : Measure) × Way links start v m × (m.length ≡ c) × (m.first ≡ f) × (m.count ≡ n)
  walk_length =
      walk-Way adj normalize_edge_cost links start (λ m. m.length) (unfold no_way in refl)
        (λ m l. unfold further in refl)
