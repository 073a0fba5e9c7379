-- ===== src/Route/Table/Hops.antt =====
-- What a table of next hops says of the paths of a graph.
use mathlib.Core.List.{lookup, Memᴰ}
use native.Mathlib.Omega.{arith}
use neo_easy_tier_deamon.Prelude.{
  ℕ, ◌%◌, ◌≤◌, ◌≡◌, some, none, get_elem?, ℕ_discrete, leb, if_true, if_false, refl, inl, inr,
  Option-cases,
}
use neo_easy_tier_deamon.Prelude.Int.{pos}
use neo_easy_tier_deamon.Route.Table.{
  PeerGraph, RouteTable, NextHopInfo, avoid_relay_cost, get_next_hop,
}
use neo_easy_tier_deamon.Route.Table.Links.{Link}
use neo_easy_tier_deamon.Route.Table.Paths.{Way, Measure}
use neo_easy_tier_deamon.Route.Table.Entries.{IsStale, IsDistinct}

-- The nodes stand for different peers, and each edge ends at one of them.
pub record IsGraph (graph : PeerGraph) : Type 0 where
  pub distinct : IsDistinct graph.nodes
  pub ends : (l : Link) → Memᴰ l graph.links → (q : ℕ) × (get_elem? graph.nodes l.target ≡ some q)

-- The table was last computed for an older version.
pub record IsOlder (version : ℕ) (table : RouteTable) : Type 0 where
  pub entries : (p : ℕ) → IsStale version table.next_hop_map p
  pub counter : table.next_hop_map_version ≤ version

-- The entry describes a path to `v` that is `better` than all others.
pub record IsRoute (better : Measure → Measure → Type 0) (graph : PeerGraph) (start version v : ℕ)
    (info : NextHopInfo) : Type 0 where
  pub way : Measure
  pub path : Way graph.links start v way
  pub best : (m : Measure) → Way graph.links start v m → better way m
  pub next : get_elem? graph.nodes way.first ≡ some info.next_hop_peer_id
  pub path_len : info.path_len ≡ way.count
  pub latency : info.path_latency ≡ pos (way.cost % avoid_relay_cost)
  pub current : info.version ≡ version

abbrev pub LeastCost : Measure → Measure → Type 0
LeastCost a b = a.cost ≤ b.cost

-- Of least length, and of least cost among the paths of that length.
abbrev pub LeastHop : Measure → Measure → Type 0
LeastHop a b = (a.length ≤ b.length) × (a.length ≡ b.length → a.cost ≤ b.cost)

-- The table answers exactly for the peers that a path reaches, by a best path.
abbrev pub IsRouted :
    (Measure → Measure → Type 0) → PeerGraph → (start version : ℕ) → RouteTable → Type 0
IsRouted better graph start version t =
    (v p : ℕ)
    → get_elem? graph.nodes v ≡ some p
    → ((info : NextHopInfo)
        → get_next_hop p t ≡ some info
        → IsRoute better graph start version v info)
      × ((m : Measure)
          → Way graph.links start v m
          → (info : NextHopInfo) × (get_next_hop p t ≡ some info))

pub get_next_hop-found :
    (p : ℕ) (t : RouteTable) (x : NextHopInfo)
    → lookup ℕ_discrete p t.next_hop_map ≡ some x
    → t.next_hop_map_version ≤ x.version
    → get_next_hop p t ≡ some x
unfolding get_next_hop
get_next_hop-found p t x e l =
    rw (e, get_next_hop) (if_true (leb t.next_hop_map_version x.version) _ _ (ground arith))

pub get_next_hop-stale :
    (p : ℕ) (t : RouteTable)
    → IsStale t.next_hop_map_version t.next_hop_map p
    → get_next_hop p t ≡ none
unfolding get_next_hop
get_next_hop-stale p t s = elim (Option-cases (lookup ℕ_discrete p t.next_hop_map)) [
  | inl e ↦ rw (e, get_next_hop) refl
  | inr (x, e) ↦
      let l = s x e in
      rw (e, get_next_hop) (if_false (leb t.next_hop_map_version x.version) _ _ (ground arith))
]
