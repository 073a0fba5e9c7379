-- ===== src/Route/Graph/Linked.antt =====
-- The edges of the graph of peers, and what they say of the synced infos.
use mathlib.Core.List.{lookup, Memᴰ}
use mathlib.Core.Path.{subst}
use native.Mathlib.Omega.{arith}
use neo_easy_tier_deamon.Prelude.{
  ℕ, ◌<◌, ◌^◌, Bool-cases, ◌≡◌, refl, sym, ap, ◌∙◌, inl, inr, List, [], ◌∷◌, some, get_elem?,
  ℕ_discrete, Option-cases,
}
use neo_easy_tier_deamon.Prelude.Int.{ℤ, pos}
use neo_easy_tier_deamon.Prelude.Mem.{mem-append_left, mem-append_right, mem-of_append}
use neo_easy_tier_deamon.Route.Synced.{SyncedRouteInfo, get_connected_peers, get_avoid_relay_data}
use neo_easy_tier_deamon.Route.Table.Links.{Link}
use neo_easy_tier_deamon.Route.Graph.{
  as_usize, connected_or_default, edge_cost_of, add_edges, add_all_edges,
}

abbrev pub the_link : (source target cost : ℕ) → Link
the_link source target cost = record { source = source; target = target; cost = cost }

module _ {Raw : Type 0} (calculate_cost : ℕ → ℕ → ℤ) (s : SyncedRouteInfo Raw) where
  abbrev pub ConnectedTo : ℕ → ℕ → Type 0
  ConnectedTo a b = Memᴰ b (connected_or_default (get_connected_peers a s))

  -- An edge of the peer `a` with the node `i`, to one of these peers.
  pub record IsEdge (index : List (ℕ × ℕ)) (a i : ℕ) (peers : List ℕ) (l : Link) : Type 0 where
    pub dst : ℕ
    pub member : Memᴰ dst peers
    pub found : lookup ℕ_discrete dst index ≡ some l.target
    pub from : l.source ≡ i
    pub cost_eq : l.cost ≡ edge_cost_of calculate_cost s a dst

  edges_more :
      (index : List (ℕ × ℕ)) (a i b : ℕ) (peers : List ℕ) (l : Link)
      → IsEdge index a i peers l
      → IsEdge index a i (b ∷ peers) l
  edges_more index a i b peers l h = record {
    dst = h.dst;
    member = Memᴰ.tail h.member;
    found = h.found;
    from = h.from;
    cost_eq = h.cost_eq;
  }

  pub add_edges-IsEdge :
      (index : List (ℕ × ℕ)) (a i : ℕ) (peers : List ℕ) (l : Link)
      → Memᴰ l (add_edges calculate_cost s index a i peers)
      → IsEdge index a i peers l
  unfolding add_edges
  add_edges-IsEdge index a i [] l m = elim m [ ]
  add_edges-IsEdge index a i (b ∷ peers) l m = elim (Option-cases (lookup ℕ_discrete b index)) [
    | inl e ↦
        edges_more index a i b peers l (add_edges-IsEdge index a i peers l (rw (e, add_edges) at m))
    | inr (j, e) ↦
        let n : Memᴰ l (
            record { source = i; target = j; cost = edge_cost_of calculate_cost s a b }
            ∷ add_edges calculate_cost s index a i peers) =
          rw (e, add_edges) at m in
        elim n [
          | Memᴰ.head h ↦ record {
            dst = b;
            member = Memᴰ.head refl;
            found = e ∙ ap some (sym (ap (λ (x : Link). x.target) h));
            from = ap (λ (x : Link). x.source) h;
            cost_eq = ap (λ (x : Link). x.cost) h;
          }
          | Memᴰ.tail t ↦ edges_more index a i b peers l (add_edges-IsEdge index a i peers l t)
        ]
  ]

  pub IsEdge-add_edges :
      (index : List (ℕ × ℕ)) (a i j b : ℕ) (peers : List ℕ)
      → Memᴰ b peers
      → lookup ℕ_discrete b index ≡ some j
      → Memᴰ
          (record { source = i; target = j; cost = edge_cost_of calculate_cost s a b })
          (add_edges calculate_cost s index a i peers)
  unfolding add_edges
  IsEdge-add_edges index a i j b [] m e = elim m [ ]
  IsEdge-add_edges index a i j b (c ∷ peers) (Memᴰ.head h) e =
      let f : lookup ℕ_discrete c index ≡ some j =
        ap (λ x. lookup ℕ_discrete x index) (sym h) ∙ e in
      rw (f, add_edges) (Memᴰ.head (ap (λ x. the_link i j (edge_cost_of calculate_cost s a x)) h))
  IsEdge-add_edges index a i j b (c ∷ peers) (Memᴰ.tail t) e =
      let rest = IsEdge-add_edges index a i j b peers t e in
      elim (Option-cases (lookup ℕ_discrete c index)) [
        | inl f ↦ rw (f, add_edges) rest
        | inr (k, f) ↦ rw (f, add_edges) (Memᴰ.tail rest)
      ]

  -- An edge of the graph: its peers, and what the synced infos say of them.
  pub record IsLinked (nodes : List ℕ) (l : Link) : Type 0 where
    pub src : ℕ
    pub dst : ℕ
    pub source_peer : get_elem? nodes l.source ≡ some src
    pub target_peer : get_elem? nodes l.target ≡ some dst
    pub connected : ConnectedTo src dst
    pub cost_eq : l.cost ≡ edge_cost_of calculate_cost s src dst

  pub all_edges-IsEdge :
      (index rest : List (ℕ × ℕ)) (l : Link)
      → Memᴰ l (add_all_edges calculate_cost s index rest)
      → (a : ℕ) × (i : ℕ) × Memᴰ (a, i) rest
        × IsEdge index a i (connected_or_default (get_connected_peers a s)) l
  unfolding add_all_edges
  all_edges-IsEdge index [] l m = elim m [ ]
  all_edges-IsEdge index ((a, i) ∷ rest) l m =
      elim (mem-of_append l
        (add_edges calculate_cost s index a i (connected_or_default (get_connected_peers a s))) _
        m) [
          | inl h ↦ (
            a,
            i,
            Memᴰ.head refl,
            add_edges-IsEdge index a i (connected_or_default (get_connected_peers a s)) l h,
          )
          | inr t ↦ let (b, j, q, e) = all_edges-IsEdge index rest l t in (b, j, Memᴰ.tail q, e)
        ]

  pub row-all_edges :
      (index rest : List (ℕ × ℕ)) (l : Link) (a i : ℕ)
      → Memᴰ (a, i) rest
      → Memᴰ l
          (add_edges calculate_cost s index a i (connected_or_default (get_connected_peers a s)))
      → Memᴰ l (add_all_edges calculate_cost s index rest)
  unfolding add_all_edges
  row-all_edges index [] l a i q m = elim q [ ]
  row-all_edges index ((b, j) ∷ rest) l a i (Memᴰ.head e) m = mem-append_left l _ _ (
      subst
        (λ (x : ℕ × ℕ). Memᴰ l (
          add_edges calculate_cost s index x.0 x.1
            (connected_or_default (get_connected_peers x.0 s))))
        e m)
  row-all_edges index ((b, j) ∷ rest) l a i (Memᴰ.tail t) m =
      mem-append_right l _ _ (row-all_edges index rest l a i t m)

  -- A latency that is not negative gives a cost that 32 bits hold.
  pub edge_cost-small :
      (a b n : ℕ)
      → calculate_cost a b ≡ pos n
      → n < 2 ^ 31
      → edge_cost_of calculate_cost s a b < 2 ^ 32
  unfolding edge_cost_of as_usize
  edge_cost-small a b n e lt = elim (Bool-cases (get_avoid_relay_data a s)) [
    | inl y ↦ rw (e, y) (omega arith)
    | inr x ↦ rw (e, x) (omega arith)
  ]
