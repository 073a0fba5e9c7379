-- ===== src/Tests/Routes/Instances.antt =====
-- A graph library as it is assumed, on lists of edges.
use mathlib.Core.List.{lookup, Memᴰ}
use mathlib.Core.Path.{subst}
use native.Mathlib.Omega.{arith}
use neo_easy_tier_deamon.Prelude.{
  ℕ, ◌≡◌, ◌↔◌, sym, ap, ◌∙◌, inl, inr, if◌then◌else◌, List, [], ◌∷◌, true, ℕ_discrete, Bool-cases,
  if_true, if_false, ◌==◌, some,
}
use neo_easy_tier_deamon.Route.Dijkstra.{
  Edge, Outcome, done, panicked, out_of_fuel, dijkstra_with_first_hop, add_usize,
}
use neo_easy_tier_deamon.Route.Dijkstra.Heap.{list_heap}
use neo_easy_tier_deamon.Route.Dijkstra.Correct.{IsLeastCost, dijkstra_with_first_hop_lem}
use neo_easy_tier_deamon.Route.Table.{Petgraph}
use neo_easy_tier_deamon.Route.Table.Links.{Link, Adjacency, graph_of, IsSmall}
use neo_easy_tier_deamon.Route.Table.Small.{search_usize}

edge_of : Link → Edge
edge_of l = record { target = l.target; cost = l.cost }

pub out_links : List Link → ℕ → List Edge
unfolding edge_of
out_links [] v = []
out_links (l ∷ links) v =
    let rest = out_links links v in if l.source == v then edge_of l ∷ rest else rest

link_from : ℕ → Edge → Link
link_from v e = record { source = v; target = e.target; cost = e.cost }

to_links :
    (links : List Link) (v : ℕ) (e : Edge) → Memᴰ e (out_links links v) → Memᴰ (link_from v e) links
unfolding out_links link_from edge_of
to_links [] v e m = elim m [ ]
to_links (l ∷ links) v e m = elim (Bool-cases (l.source == v)) [
  | inl y ↦ elim (subst (Memᴰ e) (if_true _ _ _ y) m) [
    | Memᴰ.head h ↦
        let same : l.source ≡ v = ground (arith, y) in
        Memᴰ.head
          (ap (λ (x : Edge). link_from v x) h ∙ ap (λ x. link_from x (edge_of l)) (sym same))
    | Memᴰ.tail t ↦ Memᴰ.tail (to_links links v e t)
  ]
  | inr n ↦ Memᴰ.tail (to_links links v e (subst (Memᴰ e) (if_false _ _ _ n) m))
]

from_links :
    (links : List Link) (v : ℕ) (e : Edge) → Memᴰ (link_from v e) links → Memᴰ e (out_links links v)
unfolding out_links link_from edge_of
from_links [] v e m = elim m [ ]
from_links (l ∷ links) v e (Memᴰ.head h) =
    let y : (l.source == v) ≡ true = ground (arith, ap (λ (x : Link). x.source) h) in
    subst (Memᴰ e) (sym (if_true _ _ _ y)) (Memᴰ.head (ap (λ (x : Link). edge_of x) h))
from_links (l ∷ links) v e (Memᴰ.tail t) =
    let rest = from_links links v e t in
    elim (Bool-cases (l.source == v)) [
      | inl y ↦ subst (Memᴰ e) (sym (if_true _ _ _ y)) (Memᴰ.tail rest)
      | inr n ↦ subst (Memᴰ e) (sym (if_false _ _ _ n)) rest
    ]

pub out_links_iff :
    (links : List Link) (v : ℕ) (e : Edge)
    → Memᴰ e (out_links links v)
      ↔ Memᴰ (record { source = v; target = e.target; cost = e.cost }) links
unfolding link_from
out_links_iff links v e = (to_links links v e, from_links links v e)

abbrev pub list_adjacency : Adjacency
list_adjacency = record { out = out_links; out_lem = out_links_iff }

scores_of : Outcome → List (ℕ × ℕ)
scores_of (done t) = t.scores
scores_of panicked = []
scores_of out_of_fuel = []

pub list_dijkstra : List Link → ℕ → (ℕ → ℕ) → List (ℕ × ℕ)
unfolding scores_of
list_dijkstra links start edge_cost =
    scores_of
      (dijkstra_with_first_hop add_usize list_heap (graph_of list_adjacency edge_cost links) start)

pub list_dijkstra_iff :
    (links : List Link) (start : ℕ) (edge_cost : ℕ → ℕ) (v a : ℕ)
    → IsSmall edge_cost links
    → (lookup ℕ_discrete v (list_dijkstra links start edge_cost) ≡ some a)
      ↔ IsLeastCost (graph_of list_adjacency edge_cost links) start v a
unfolding list_dijkstra scores_of
list_dijkstra_iff links start edge_cost v a small =
    let (t, e, iff, _, _, _) =
      dijkstra_with_first_hop_lem list_heap (graph_of list_adjacency edge_cost links) start in
    subst
      (λ o.
        (lookup ℕ_discrete v (scores_of o) ≡ some a)
        ↔ IsLeastCost (graph_of list_adjacency edge_cost links) start v a)
      (sym (search_usize list_adjacency edge_cost links small list_heap start ∙ e)) (iff v a)

abbrev pub list_petgraph : Petgraph
list_petgraph = record {
  adjacency = list_adjacency;
  dijkstra = list_dijkstra;
  dijkstra_lem = list_dijkstra_iff;
}
