-- ===== src/Route/Dijkstra/Fits.antt =====
-- `dijkstra_with_first_hop` with an addition that wraps, where no sum of costs is too large for it.
use mathlib.Core.List.{lookup, Memᴰ}
use mathlib.Core.List.Memᴰ
use mathlib.Core.Path.{subst}
use mathlib.Core.Option.{some-injective, none-ne-some}
use native.Mathlib.Omega.{arith}
use neo_easy_tier_deamon.Prelude.{
  ℕ, zero, suc, ◌+◌, ◌*◌, ◌≤◌, ◌≡◌, refl, sym, ap, ◌∙◌, inl, inr, if◌then◌else◌, List, [], ◌∷◌,
  Option, none, some, false, ℕ_discrete, Bool-cases, Option-cases, if_true, if_false, ltb,
}
use neo_easy_tier_deamon.Prelude.Assoc.{put}
use neo_easy_tier_deamon.Route.Dijkstra.{
  Graph, Edge, Search, MinScored, BinaryHeap, is_visited, IsPopped, Pops, relax_all, visit, Outcome,
  done, panicked, out_of_fuel, edges_left, round, loop, initial, dijkstra_with_first_hop,
}
use neo_easy_tier_deamon.Route.Dijkstra.Edges.{Scored}
use neo_easy_tier_deamon.Route.Dijkstra.Within.{IsWithin, IsWithin-mono, relax_all-fits}

-- The nodes below `n` that are not visited.
unfoldable nodes_left : List ℕ → ℕ → ℕ
nodes_left visited zero = 0
nodes_left visited (suc n) = (if is_visited visited n then 0 else 1) + nodes_left visited n

nodes_left-visit :
    (vis : List ℕ) (node n : ℕ)
    → is_visited vis node ≡ false
    → nodes_left (node ∷ vis) n + (if ltb node n then 1 else 0) ≡ nodes_left vis n
unfolding nodes_left is_visited
nodes_left-visit vis node zero h = ground arith
nodes_left-visit vis node (suc n) h = elim (ℕ_discrete n node) [
  | yes e ↦ ground (arith, nodes_left-visit vis node n h, h, e)
  | no k ↦ ground (arith, nodes_left-visit vis node n h, k)
]

nodes_left-none : (n : ℕ) → 0 + nodes_left [] n ≡ n
unfolding nodes_left is_visited
nodes_left-none zero = refl
nodes_left-none (suc n) = omega (arith, nodes_left-none n)

pub mul_le_left : (a b c : ℕ) → a ≤ b → a * c ≤ b * c
mul_le_left a b zero le = grind arith
mul_le_left a b (suc c) le = grind (arith, mul_le_left a b c le)

visited_after :
    (node : ℕ) (o : Option Search) (t : Search)
    → visit node o ≡ some t
    → (u : Search) × (o ≡ some u) × (record u { visited = node ∷ u.visited } ≡ t)
unfolding visit
visited_after node none t e = absurd (none-ne-some _ e)
visited_after node (some u) t e = (u, refl, some-injective _ _ e)

module _ (add : ℕ → ℕ → ℕ) (g : Graph) (c : ℕ)
    (small : (v : ℕ) (e : Edge) → Memᴰ e (g.edges v) → e.cost ≤ c)
    (exact : (x y : ℕ) → x + y ≤ g.node_bound * c → add x y ≡ x + y) where
  -- Each node that was visited raised the scores by `c` at most.
  record IsBelow (s : Search) : Type 0 where
    rounds : ℕ
    counted : rounds + nodes_left s.visited g.node_bound ≡ g.node_bound
    within : IsWithin (rounds * c) s

  -- A round on a node of the graph.
  abbrev one : ℕ → ℕ
  one node = if ltb node g.node_bound then 1 else 0

  edge_fits :
      (node d rounds : ℕ) (e : Edge)
      → d ≤ rounds * c
      → Memᴰ e (g.edges node)
      → d + e.cost ≤ (rounds + one node) * c
  edge_fits node d rounds e le q = elim (Bool-cases (ltb node g.node_bound)) [
    | inl y ↦ rw y (grind (arith, small node e q))
    | inr n ↦ absurd (Memᴰ.not-nil (subst (Memᴰ e) (g.outside node (ground arith)) q))
  ]

  now-IsBelow :
      (node rounds : ℕ) (u : Search)
      → rounds + nodes_left (node ∷ u.visited) g.node_bound ≡ g.node_bound
      → IsWithin (rounds * c) u
      → IsBelow (record u { visited = node ∷ u.visited })
  now-IsBelow node rounds u counted w = record {
    rounds = rounds;
    counted = counted;
    within = record { queued = w.queued; scored = w.scored };
  }

  round-fits :
      (start : ℕ) (m : MinScored) (s : Search) (h : IsBelow s)
      → m.score ≤ h.rounds * c
      → (round add g start m s ≡ round ◌+◌ g start m s)
        × ((t : Search) → round ◌+◌ g start m s ≡ some t → IsBelow t)
  unfolding round
  round-fits start m s h le = elim (Bool-cases (is_visited s.visited m.node)) [
    | inl y ↦ (rw y refl, λ t q. subst IsBelow (some-injective _ _ (sym (if_true _ _ _ y) ∙ q)) h)
    | inr n ↦
        let counted = nodes_left-visit s.visited m.node g.node_bound n in
        let bounded : (h.rounds + one m.node) * c ≤ g.node_bound * c =
          mul_le_left (h.rounds + one m.node) g.node_bound c (omega (arith, h.counted)) in
        let (same, kept) =
          relax_all-fits add ((h.rounds + one m.node) * c) (λ x y l. exact x y (omega arith)) start
            m.node m.score (g.edges m.node) s (λ e q. edge_fits m.node m.score h.rounds e le q)
            (IsWithin-mono (h.rounds * c) ((h.rounds + one m.node) * c) s
              (mul_le_left h.rounds (h.rounds + one m.node) c (omega arith)) h.within) in
        (
          rw (n, same) refl,
          λ t q.
              let (u, l, e) =
                visited_after m.node (relax_all ◌+◌ start m.node m.score (g.edges m.node) s) t
                  (sym (if_false _ _ _ n) ∙ q) in
              subst IsBelow e (
                now-IsBelow m.node (h.rounds + one m.node) u
                  (omega (
                    arith,
                    h.counted,
                    ap (λ l. nodes_left (m.node ∷ l) g.node_bound) (kept u l).same,
                  ))
                  (kept u l).within),
        )
  ]

  popped-IsBelow :
      (m : MinScored) (s : Search) (rest : List MinScored)
      → IsPopped s.visit_next m rest
      → IsBelow s
      → (k : IsBelow (record s { visit_next = rest })) × (m.score ≤ k.rounds * c)
  popped-IsBelow m s rest p h = (
    record {
      rounds = h.rounds;
      counted = h.counted;
      within = record { queued = λ e q. h.within.queued e (p.kept e q); scored = h.within.scored };
    },
    h.within.queued m p.member,
  )

  abbrev IfDone : Outcome → Type 0
  IfDone (done t) = IsBelow t
  IfDone panicked = Unit
  IfDone out_of_fuel = Unit

  loop-fits :
      (heap : BinaryHeap) (start fuel : ℕ) (s : Search)
      → IsBelow s
      → (loop add heap g start fuel s ≡ loop ◌+◌ heap g start fuel s)
        × IfDone (loop ◌+◌ heap g start fuel s)
  unfolding loop
  loop-fits heap start zero s h = (refl, tt)
  loop-fits heap start (suc fuel) s h = elim (Option-cases (heap.pop s.visit_next)) [
    | inl e ↦ (rw (e, loop) refl, rw (e, loop) h)
    | inr ((m, rest), e) ↦
        let t = record s { visit_next = rest } in
        let p : IsPopped s.visit_next m rest = subst (Pops s.visit_next) e (heap.pop_lem _) in
        let (k, le) = popped-IsBelow m s rest p h in
        let (same, below) = round-fits start m t k le in
        elim (Option-cases (round ◌+◌ g start m t)) [
          | inl n ↦ (rw (e, loop) (rw (same, n, loop) refl), rw (e, loop) (rw (n, loop) tt))
          | inr (u, l) ↦
              let (rest_same, last) = loop-fits heap start fuel u (below u l) in
              (rw (e, loop) (rw (same, l, loop) rest_same), rw (e, loop) (rw (l, loop) last))
        ]
  ]

  initial-IsBelow : (start : ℕ) → IsBelow (initial start)
  unfolding initial put lookup
  initial-IsBelow start = record {
    rounds = 0;
    counted = nodes_left-none g.node_bound;
    within = record {
      queued = λ m q. omega (arith, ap (λ (x : MinScored). x.score) (Memᴰ.eq_of_singleton q));
      scored = λ v a e. ground (arith, e);
    };
  }

  search-fits :
      (heap : BinaryHeap) (start : ℕ)
      → (dijkstra_with_first_hop add heap g start ≡ dijkstra_with_first_hop ◌+◌ heap g start)
        × IfDone (dijkstra_with_first_hop ◌+◌ heap g start)
  unfolding dijkstra_with_first_hop
  search-fits heap start =
      loop-fits heap start (edges_left g [] g.node_bound + 2) (initial start)
        (initial-IsBelow start)

  done-IsBelow :
      (heap : BinaryHeap) (start : ℕ) (t : Search)
      → dijkstra_with_first_hop ◌+◌ heap g start ≡ done t
      → IsBelow t
  done-IsBelow heap start t e = subst IfDone e (search-fits heap start).1

  pub score_fits :
      (heap : BinaryHeap) (start : ℕ) (t : Search)
      → dijkstra_with_first_hop ◌+◌ heap g start ≡ done t
      → (v a : ℕ) → Scored t v a
      → a ≤ g.node_bound * c
  score_fits heap start t e v a l =
      let h = done-IsBelow heap start t e in
      omega (
        arith,
        h.within.scored v a l,
        mul_le_left h.rounds g.node_bound c (omega (arith, h.counted)),
      )

pub dijkstra_with_first_hop-fits :
    (add : ℕ → ℕ → ℕ) (heap : BinaryHeap) (g : Graph) (start c : ℕ)
    → ((v : ℕ) (e : Edge) → Memᴰ e (g.edges v) → e.cost ≤ c)
    → ((x y : ℕ) → x + y ≤ g.node_bound * c → add x y ≡ x + y)
    → dijkstra_with_first_hop add heap g start ≡ dijkstra_with_first_hop ◌+◌ heap g start
dijkstra_with_first_hop-fits add heap g start c small exact =
    (search-fits add g c small exact heap start).0
