-- ===== src/Tests/Routes.antt =====
-- Examples of shortest paths and of tables of next hops.
use mathlib.Core.List.{lookup, Memᴰ}
use mathlib.Core.List.Memᴰ
use neo_easy_tier_deamon.Prelude.{
  ℕ, zero, suc, ◌≡◌, ◌≤◌, ◌<◌, ◌^◌, ◌+◌, ◌*◌, ◌↔◌, refl, ap, List, [], ◌∷◌, get_or, length, arith,
  some, get_elem?, ℕ_discrete,
}
use neo_easy_tier_deamon.Route.Dijkstra.{Graph, Edge, Search, done, dijkstra_with_first_hop}
use neo_easy_tier_deamon.Route.Dijkstra.Heap.{list_heap}
use neo_easy_tier_deamon.Route.Dijkstra.Walks.{Walk}
use neo_easy_tier_deamon.Route.Dijkstra.Edges.{Scored, Hops}
use neo_easy_tier_deamon.Route.Dijkstra.Correct.{IsLeastCost, dijkstra_with_first_hop_lem}
use neo_easy_tier_deamon.Route.Table.{
  PeerGraph, RouteTable, gen_next_hop_map_with_least_cost, gen_next_hop_map_with_least_hop,
}
use neo_easy_tier_deamon.Route.Table.Links.{Link, IsSmall, bound}
use neo_easy_tier_deamon.Route.Table.Hops.{IsGraph, IsOlder, IsRouted, LeastCost, LeastHop}
use neo_easy_tier_deamon.Route.Table.LeastCost.{gen_next_hop_map_with_least_cost_lem}
use neo_easy_tier_deamon.Route.Table.LeastHop.{gen_next_hop_map_with_least_hop_lem}
use neo_easy_tier_deamon.Tests.Routes.Instances.{list_petgraph}
mod Instances
mod Syncing
mod Sessions
mod Building

get_or-outside : (l : List (List Edge)) (v : ℕ) → length l ≤ v → get_or l v [] ≡ []
get_or-outside [] v h = refl
get_or-outside (x ∷ l) zero h = absurd (ground (arith, h))
get_or-outside (x ∷ l) (suc v) h = get_or-outside l v (ground (arith, h))

abbrev rows : List (List Edge)
rows =
    (record { target = 1; cost = 5 } ∷ record { target = 2; cost = 1 } ∷ [])
    ∷ []
    ∷ (record { target = 1; cost = 1 } ∷ [])
    ∷ []

-- From 0 to 1 the way over 2 is cheaper than the direct one; nothing leads to 3.
triangle : Graph
triangle = record { node_bound = 3; edges = λ v. get_or rows v []; outside = get_or-outside rows }

dijkstra_with_first_hop_example :
    (t : Search) × (dijkstra_with_first_hop ◌+◌ list_heap triangle 0 ≡ done t)
    × ((v a : ℕ) → Scored t v a ↔ IsLeastCost triangle 0 v a)
    × ((v hop count : ℕ)
        → Hops t v (hop, count)
        → (a : ℕ) × IsLeastCost triangle 0 v a × Walk triangle 0 v a hop count)
    × ((v c k n : ℕ) → Walk triangle 0 v c k n → (h : ℕ × ℕ) × Hops t v h)
    × Hops t 0 (0, 0)
dijkstra_with_first_hop_example = dijkstra_with_first_hop_lem list_heap triangle 0

abbrev peers : PeerGraph
peers = record {
  nodes = 10 ∷ 20 ∷ 30 ∷ [];
  links =
      record { source = 0; target = 1; cost = 5 }
      ∷ record { source = 0; target = 2; cost = 1 }
      ∷ record { source = 2; target = 1; cost = 1 }
      ∷ [];
}

peer_at : (i p : ℕ) → get_elem? peers.nodes i ≡ some p → p ≡ 10 * (i + 1)
peer_at zero p e = ground (arith, e)
peer_at (suc zero) p e = ground (arith, e)
peer_at (suc (suc zero)) p e = ground (arith, e)
peer_at (suc (suc (suc i))) p e = absurd (ground (arith, e))

peer_ends : (l : Link) → Memᴰ l peers.links → (q : ℕ) × (get_elem? peers.nodes l.target ≡ some q)
peer_ends l (Memᴰ.head e) = (20, ap (λ (x : Link). get_elem? peers.nodes x.target) e)
peer_ends l (Memᴰ.tail (Memᴰ.head e)) = (30, ap (λ (x : Link). get_elem? peers.nodes x.target) e)
peer_ends l (Memᴰ.tail (Memᴰ.tail (Memᴰ.head e))) =
    (20, ap (λ (x : Link). get_elem? peers.nodes x.target) e)
peer_ends l (Memᴰ.tail (Memᴰ.tail (Memᴰ.tail m))) = elim m [ ]

peers-IsGraph : IsGraph peers
peers-IsGraph = record {
  distinct = λ i j p a b. omega (arith, peer_at i p a, peer_at j p b);
  ends = peer_ends;
}

peer_costs : (l : Link) → Memᴰ l peers.links → l.cost < 2 ^ 32
peer_costs l (Memᴰ.head e) = omega (arith, ap (λ (x : Link). x.cost) e)
peer_costs l (Memᴰ.tail (Memᴰ.head e)) = omega (arith, ap (λ (x : Link). x.cost) e)
peer_costs l (Memᴰ.tail (Memᴰ.tail (Memᴰ.head e))) = omega (arith, ap (λ (x : Link). x.cost) e)
peer_costs l (Memᴰ.tail (Memᴰ.tail (Memᴰ.tail m))) = elim m [ ]

peers-IsSmall : IsSmall (λ w. w) peers.links
unfolding bound
peers-IsSmall = record { costs = peer_costs; nodes = omega arith }

abbrev empty_table : RouteTable
empty_table = record { next_hop_map = []; next_hop_map_version = 0 }

empty-IsOlder : IsOlder 1 empty_table
unfolding lookup
empty-IsOlder = record { entries = λ p x e. absurd (ground (arith, e)); counter = omega arith }

gen_next_hop_map_with_least_cost_example :
    (t : RouteTable) × (gen_next_hop_map_with_least_cost list_petgraph list_heap peers 0 1
        empty_table
      ≡ some t)
    × IsRouted LeastCost peers 0 1 t
gen_next_hop_map_with_least_cost_example =
    gen_next_hop_map_with_least_cost_lem list_petgraph list_heap peers 0 1 10 empty_table
      peers-IsGraph peers-IsSmall refl empty-IsOlder

gen_next_hop_map_with_least_hop_example :
    (t : RouteTable) × (gen_next_hop_map_with_least_hop list_petgraph list_heap peers 0 1
        empty_table
      ≡ some t)
    × IsRouted LeastHop peers 0 1 t
gen_next_hop_map_with_least_hop_example =
    gen_next_hop_map_with_least_hop_lem list_petgraph list_heap peers 0 1 10 empty_table
      peers-IsGraph peers-IsSmall refl empty-IsOlder
