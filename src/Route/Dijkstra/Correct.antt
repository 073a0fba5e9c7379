-- ===== src/Route/Dijkstra/Correct.antt =====
-- What `dijkstra_with_first_hop` returns.
use mathlib.Core.List.{lookup, Memᴰ}
use mathlib.Core.List.Memᴰ
use mathlib.Core.Path.{subst}
use native.Mathlib.Omega.{arith}
use neo_easy_tier_deamon.Prelude.{
  ℕ, zero, suc, ◌+◌, ◌≤◌, ◌<◌, ◌≡◌, refl, sym, ap, ◌∙◌, inl, inr, List, [], ◌∷◌, Option, none, some,
  ℕ_discrete, Bool-cases, Option-cases, if_true, if_false, ◌↔◌,
}
use neo_easy_tier_deamon.Prelude.Assoc.{put, lookup-put_self, put-IsUnique}
use neo_easy_tier_deamon.Route.Dijkstra.{
  Graph, Search, MinScored, is_visited, visit, round, loop, done, BinaryHeap, IsPopped, Pops,
  initial, edges_left, dijkstra_with_first_hop,
}
use neo_easy_tier_deamon.Route.Dijkstra.Walks.{Walk, stay, walk_bound}
use neo_easy_tier_deamon.Route.Dijkstra.Edges.{Scored, Hops, AtMost, Visited}
use neo_easy_tier_deamon.Route.Dijkstra.Turns.{relax_all_lem}
use neo_easy_tier_deamon.Route.Dijkstra.Rounds.{
  IsSettled, work, popped, skip, popped-IsBusy, visited_now, visited_now-IsSettled,
  edges_left-falls,
}

module _ (g : Graph) (start : ℕ) where
  round_lem :
      (s : Search) (m : MinScored) (rest : List MinScored)
      → IsPopped s.visit_next m rest
      → IsSettled g start s
      → (t : Search) × (round ◌+◌ g start m (record s { visit_next = rest }) ≡ some t)
        × IsSettled g start t
        × (work g start t < work g start s)
  unfolding round popped visit visited_now
  round_lem s m rest p h = elim (Bool-cases (is_visited s.visited m.node)) [
    | inl y ↦ (
      popped g start s m rest p h,
      if_true _ _ _ y,
      skip g start s m rest p h y,
      omega (arith, p.size),
    )
    | inr n ↦
        let (t, e, r) =
          relax_all_lem g start m.node m.score (g.edges m.node) (record s { visit_next = rest })
            (popped-IsBusy g start s m rest p h n) (λ e q. q) in
        (
          visited_now g start m.node m.score (record s { visit_next = rest }) t r,
          if_false _ _ _ n ∙ ap (visit m.node) e,
          visited_now-IsSettled g start m.node m.score (record s { visit_next = rest }) t r,
          omega (
            arith,
            edges_left-falls g start s.visited m.node n,
            ap (λ (l : List ℕ). edges_left g (m.node ∷ l) g.node_bound) r.same,
            r.size,
            p.size,
          ),
        )
  ]

  popped-Pops :
      (heap : BinaryHeap) (h : List MinScored) (o : Option (MinScored × List MinScored))
      → heap.pop h ≡ o
      → Pops h o
  popped-Pops heap h o e = subst (Pops h) e (heap.pop_lem h)

  -- Each round lowers `work`, so the loop ends within that many rounds and one more.
  loop_lem :
      (heap : BinaryHeap) (fuel : ℕ) (s : Search)
      → IsSettled g start s
      → work g start s < fuel
      → (t : Search) × (loop ◌+◌ heap g start fuel s ≡ done t)
        × IsSettled g start t
        × (t.visit_next ≡ [])
  unfolding loop
  loop_lem heap zero s h l = absurd (omega arith)
  loop_lem heap (suc fuel) s h l = elim (Option-cases (heap.pop s.visit_next)) [
    | inl e ↦ (s, rw (e, loop) refl, h, popped-Pops heap s.visit_next none e)
    | inr ((m, rest), e) ↦
        let (t, q, k, w) =
          round_lem s m rest (popped-Pops heap s.visit_next (some (m, rest)) e) h in
        let (u, r, d, n) = loop_lem heap fuel t k (omega arith) in
        (u, rw (e, loop) (rw (q, loop) r), d, n)
  ]

  -- Before the first round `start` alone has a score.
  only_start : (v a : ℕ) → Scored (initial start) v a → (v ≡ start) × (a ≡ 0)
  unfolding initial put lookup
  only_start v a e = ground (arith, e)

  only_start_hop : (v : ℕ) (h : ℕ × ℕ) → Hops (initial start) v h → Scored (initial start) v 0
  unfolding initial put lookup
  only_start_hop v h e = ground (arith, e)

  initial-IsSettled : IsSettled g start (initial start)
  unfolding initial is_visited
  initial-IsSettled = record {
    sound = record {
      walked = λ v a e.
          let (i, z) = only_start v a e in
          (
            (start, 0),
            subst (λ x. Hops (initial start) x (start, 0)) (sym i)
                (lookup-put_self ℕ_discrete start (start, 0) []),
            stay v a start 0 i z refl refl,
          );
      hopped = λ v h e. (0, only_start_hop v h e);
      unique = put-IsUnique ℕ_discrete start (start, 0) [] tt;
      origin = lookup-put_self ℕ_discrete start 0 [];
      origin_hop = lookup-put_self ℕ_discrete start (start, 0) [];
      backed = λ m q.
          subst (λ (x : MinScored). AtMost (initial start) x.node x.score)
            (sym (Memᴰ.eq_of_singleton q)) (0, lookup-put_self ℕ_discrete start 0 [], omega arith);
      reached = λ v y. absurd (ground arith);
      relaxed = λ u a e y l m. absurd (ground arith);
    };
    queued = λ v a n e. let (i, z) = only_start v a e in Memᴰ.head (rw (i, z) refl);
    ordered = λ v a m y e q. absurd (ground arith);
  }

  pub search_ends :
      (heap : BinaryHeap)
      → (t : Search) × (dijkstra_with_first_hop ◌+◌ heap g start ≡ done t)
        × IsSettled g start t
        × (t.visit_next ≡ [])
  unfolding dijkstra_with_first_hop
  search_ends heap =
      loop_lem heap (edges_left g [] g.node_bound + 2) (initial start) initial-IsSettled
        (unfold initial in omega arith)

  pub all-Visited :
      (t : Search)
      → IsSettled g start t
      → t.visit_next ≡ []
      → (v a : ℕ) → Scored t v a
      → Visited t v
  all-Visited t h n v a e = elim (Bool-cases (is_visited t.visited v)) [
    | inl y ↦ y
    | inr u ↦ absurd (Memᴰ.not-nil (subst (Memᴰ _) n (h.queued v a u e)))
  ]

  pub below_walks :
      (t : Search)
      → IsSettled g start t
      → t.visit_next ≡ []
      → {v c k n : ℕ} → Walk g start v c k n
      → AtMost t v c
  below_walks t h n w =
      walk_bound g start (AtMost t) (0, h.sound.origin, omega arith)
        (λ u d e (b, l, le) m.
          let (x, k, lx) = h.sound.relaxed u b e (all-Visited t h n u b l) l m in
          (x, k, omega arith))
        w

  -- The least cost of a walk from `start` to `v`.
  pub record IsLeastCost (v a : ℕ) : Type 0 where
    pub attained : (k : ℕ) × (n : ℕ) × Walk g start v a k n
    pub least : (c k n : ℕ) → Walk g start v c k n → a ≤ c

  pub Scored-IsLeastCost :
      (t : Search)
      → IsSettled g start t
      → t.visit_next ≡ []
      → (v a : ℕ) → Scored t v a ↔ IsLeastCost v a
  Scored-IsLeastCost t h n v a = (
    λ e.
        let (k, _, w) = h.sound.walked v a e in
        record {
          attained = (k.0, k.1, w);
          least = λ c x y u. let (b, l, le) = below_walks t h n u in ground (arith, e, l, le);
        },
    λ q.
        let (k, m, w) = q.attained in
        let (b, l, le) = below_walks t h n w in
        let (x, _, u) = h.sound.walked v b l in
        let ge = q.least b x.0 x.1 u in let same : b ≡ a = omega arith in subst (Scored t v) same l,
  )

-- With the addition of natural numbers, the search ends with no panic, whichever of the entries with equal scores the heap pops first. A node
-- then has the score `a` exactly when `a` is the least cost of a walk from `start` to it. Exactly the nodes
-- that a walk reaches have a first hop, and it is the first vertex after `start` (`start` itself for
-- `start`) and the number of edges of one and the same walk of least cost.
pub dijkstra_with_first_hop_lem :
    (heap : BinaryHeap) (g : Graph) (start : ℕ)
    → (t : Search) × (dijkstra_with_first_hop ◌+◌ heap g start ≡ done t)
      × ((v a : ℕ) → Scored t v a ↔ IsLeastCost g start v a)
      × ((v hop count : ℕ)
          → Hops t v (hop, count)
          → (a : ℕ) × IsLeastCost g start v a × Walk g start v a hop count)
      × ((v c k n : ℕ) → Walk g start v c k n → (h : ℕ × ℕ) × Hops t v h)
      × Hops t start (start, 0)
dijkstra_with_first_hop_lem heap g start =
    let (t, e, h, n) = search_ends g start heap in
    (
      t,
      e,
      Scored-IsLeastCost g start t h n,
      (λ v hop count l.
          let (a, sc) = h.sound.hopped v (hop, count) l in
          let (k, f, w) = h.sound.walked v a sc in
          let same : k ≡ (hop, count) = ground (arith, f, l) in
          (
            a,
            (Scored-IsLeastCost g start t h n v a).0 sc,
            subst (λ (x : ℕ × ℕ). Walk g start v a x.0 x.1) same w,
          )),
      (λ v c k n' w.
          let (b, l, _) = below_walks g start t h n w in
          let (k', f, _) = h.sound.walked v b l in (k', f)),
      h.sound.origin_hop,
    )
