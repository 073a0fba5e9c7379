-- ===== src/Route/Dijkstra/Edges.antt =====
-- One turn of the inner loop of `dijkstra_with_first_hop`, and the whole of that loop.
use mathlib.Core.List.{lookup, Memᴰ}
use mathlib.Core.Path.{subst}
use native.Mathlib.Omega.{arith}
use neo_easy_tier_deamon.Prelude.{
  ℕ, ◌+◌, ◌≤◌, ◌<◌, ◌≡◌, ◌≢◌, refl, sym, ◌∙◌, ◌⊎◌, inl, inr, ◌==◌, true, false, some, ℕ_discrete,
  Bool-cases, if_true, if_false,
}
use neo_easy_tier_deamon.Prelude.Assoc.{lookup-put, lookup-put_self, IsUnique, put-IsUnique}
use neo_easy_tier_deamon.Route.Dijkstra.{
  Graph, Edge, Search, MinScored, is_visited, hop_of, improved,
}
use neo_easy_tier_deamon.Route.Dijkstra.Walks.{Walk, stay, step, walk_still}

abbrev pub Scored : Search → ℕ → ℕ → Type 0
Scored s v a = lookup ℕ_discrete v s.scores ≡ some a

abbrev pub Hops : Search → ℕ → ℕ × ℕ → Type 0
Hops s v h = lookup ℕ_discrete v s.first_hop ≡ some h

-- `v` has a score of at most `a`.
abbrev pub AtMost : Search → ℕ → ℕ → Type 0
AtMost s v a = (b : ℕ) × Scored s v b × (b ≤ a)

abbrev pub Visited : Search → ℕ → Type 0
Visited s v = is_visited s.visited v ≡ true

abbrev pub Unvisited : Search → ℕ → Type 0
Unvisited s v = is_visited s.visited v ≡ false

module _ (g : Graph) (start : ℕ) where
  -- What holds at each moment of the search.
  pub record IsSound (s : Search) : Type 0 where
    pub walked : (v a : ℕ) → Scored s v a → (h : ℕ × ℕ) × Hops s v h × Walk g start v a h.0 h.1
    pub hopped : (v : ℕ) (h : ℕ × ℕ) → Hops s v h → (a : ℕ) × Scored s v a
    pub unique : IsUnique ℕ_discrete s.first_hop
    pub origin : Scored s start 0
    pub origin_hop : Hops s start (start, 0)
    pub backed : (m : MinScored) → Memᴰ m s.visit_next → AtMost s m.node m.score
    pub reached : (v : ℕ) → Visited s v → (a : ℕ) × Scored s v a
    pub relaxed :
        (u a : ℕ) (e : Edge)
        → Visited s u
        → Scored s u a
        → Memᴰ e (g.edges u)
        → AtMost s e.target (a + e.cost)

  -- What holds while the edges of `node`, which was popped with the score `d`, are looked at.
  pub record IsBusy (node d : ℕ) (s : Search) : Type 0 where
    pub sound : IsSound s
    pub queued :
        (v a : ℕ)
        → v ≢ node
        → Unvisited s v
        → Scored s v a
        → Memᴰ (record { score = a; node = v }) s.visit_next
    pub least : (v a : ℕ) → Visited s v → Scored s v a → a ≤ d
    pub later : (m : MinScored) → Memᴰ m s.visit_next → d ≤ m.score
    pub current : Scored s node d
    pub fresh : Unvisited s node

  pub hop_found :
      (node d : ℕ) (s : Search) (e : Edge)
      → IsBusy node d s
      → Memᴰ e (g.edges node)
      → (h : ℕ × ℕ) × (hop_of start node e.target s ≡ some h)
        × Walk g start e.target (d + e.cost) h.0 (h.1 + 1)
  unfolding hop_of
  hop_found node d s e b m = elim (Bool-cases (node == start)) [
    | inl y ↦
        let at_start : node ≡ start = ground arith in
        let zero_score : d ≡ 0 = ground (arith, b.current, b.sound.origin, at_start) in
        (
          (e.target, 0),
          if_true _ _ _ y,
          step e.target (d + e.cost) e.target 1 node d start 0 e
              (stay node d start 0 at_start zero_score refl refl) m refl refl refl refl,
        )
    | inr n ↦
        let (h, l, w) = b.sound.walked node d b.current in
        let away : node ≢ start = ground arith in
        (
          h,
          if_false _ _ _ n ∙ l,
          step e.target (d + e.cost) h.0 (h.1 + 1) node d h.0 h.1 e w m refl refl
              (sym (
                if_false (h.1 == 0) e.target h.0
                  (ground (arith, λ (z : h.1 ≡ 0). away (walk_still g start w z)))))
              refl,
        )
  ]

  module _ (node d next score : ℕ) (hop : ℕ × ℕ) (s : Search)
      (better : (a : ℕ) → Scored s next a → score < a) where
    new_score :
        (v a : ℕ)
        → Scored (improved next score hop s) v a
        → ((v ≡ next) × (a ≡ score)) ⊎ ((v ≢ next) × Scored s v a)
    unfolding improved
    new_score v a h = ground (arith, lookup-put ℕ_discrete next v score s.scores)

    pub at_next : Scored (improved next score hop s) next score
    unfolding improved
    at_next = lookup-put_self ℕ_discrete next score s.scores

    elsewhere : (v a : ℕ) → v ≢ next → Scored s v a → Scored (improved next score hop s) v a
    unfolding improved
    elsewhere v a n h = ground (arith, lookup-put ℕ_discrete next v score s.scores)

    hop_elsewhere :
        (v : ℕ) (h : ℕ × ℕ) → v ≢ next → Hops s v h → Hops (improved next score hop s) v h
    unfolding improved
    hop_elsewhere v h n e =
        ground (arith, lookup-put ℕ_discrete next v (hop.0, hop.1 + 1) s.first_hop)

    pub falls : (v a : ℕ) → AtMost s v a → AtMost (improved next score hop s) v a
    falls v a (b, h, l) = elim (ℕ_discrete v next) [
      | yes e ↦
          let lower = better b (subst (λ x. Scored s x b) e h) in
          (
            score,
            subst (λ x. Scored (improved next score hop s) x score) (sym e) at_next,
            omega arith,
          )
      | no n ↦ (b, elsewhere v b n h, l)
    ]

    module _ (b : IsBusy node d s) (unvisited : Unvisited s next) (from : d ≤ score)
        (w : Walk g start next score hop.0 (hop.1 + 1)) where
      not_node : node ≢ next
      not_node e = omega (arith, better d (subst (λ x. Scored s x d) e b.current))

      not_start : start ≢ next
      not_start e = omega (arith, better 0 (subst (λ x. Scored s x 0) e b.sound.origin))

      not-Visited : (v : ℕ) → Visited s v → v ≢ next
      not-Visited v y e = cc (subst (Visited s) e y, unvisited)

      walked_improved :
          (v a : ℕ)
          → Scored (improved next score hop s) v a
          → (h : ℕ × ℕ) × Hops (improved next score hop s) v h × Walk g start v a h.0 h.1
      unfolding improved
      walked_improved v a h = elim (new_score v a h) [
        | inl (ev, ea) ↦ (
          (hop.0, hop.1 + 1),
          subst (λ x. Hops (improved next score hop s) x (hop.0, hop.1 + 1)) (sym ev)
              (lookup-put_self ℕ_discrete next (hop.0, hop.1 + 1) s.first_hop),
          rw (ev, ea) w,
        )
        | inr (n, old) ↦ let (k, l, u) = b.sound.walked v a old in (k, hop_elsewhere v k n l, u)
      ]

      hopped_improved :
          (v : ℕ) (h : ℕ × ℕ)
          → Hops (improved next score hop s) v h
          → (a : ℕ) × Scored (improved next score hop s) v a
      unfolding improved
      hopped_improved v h e = elim (ℕ_discrete v next) [
        | yes i ↦ (score, subst (λ x. Scored (improved next score hop s) x score) (sym i) at_next)
        | no n ↦
            let (a, l) =
              b.sound.hopped v h
                (ground (arith, lookup-put ℕ_discrete next v (hop.0, hop.1 + 1) s.first_hop)) in
            (a, elsewhere v a n l)
      ]

      backed_improved :
          (m : MinScored)
          → Memᴰ m (improved next score hop s).visit_next
          → AtMost (improved next score hop s) m.node m.score
      unfolding improved
      backed_improved m (Memᴰ.head e) =
          subst (λ (x : MinScored). AtMost (improved next score hop s) x.node x.score) (sym e)
            (score, at_next, omega arith)
      backed_improved m (Memᴰ.tail t) = falls m.node m.score (b.sound.backed m t)

      improved-IsSound : IsSound (improved next score hop s)
      unfolding improved
      improved-IsSound = record {
        walked = walked_improved;
        hopped = hopped_improved;
        unique = put-IsUnique ℕ_discrete next (hop.0, hop.1 + 1) s.first_hop b.sound.unique;
        origin = elsewhere start 0 not_start b.sound.origin;
        origin_hop = hop_elsewhere start (start, 0) not_start b.sound.origin_hop;
        backed = backed_improved;
        reached = λ v y. let (a, h) = b.sound.reached v y in (a, elsewhere v a (not-Visited v y) h);
        relaxed = λ u a e y h m. elim (new_score u a h) [
          | inl (eu, _) ↦ absurd (not-Visited u y eu)
          | inr (_, old) ↦ falls e.target (a + e.cost) (b.sound.relaxed u a e y old m)
        ];
      }

      pub improved-IsBusy : IsBusy node d (improved next score hop s)
      unfolding improved
      improved-IsBusy = record {
        sound = improved-IsSound;
        queued = λ v a n y h. elim (new_score v a h) [
          | inl (ev, ea) ↦ Memᴰ.head (rw (ev, ea) refl)
          | inr (_, old) ↦ Memᴰ.tail (b.queued v a n y old)
        ];
        least = λ v a y h. elim (new_score v a h) [
          | inl (ev, _) ↦ absurd (not-Visited v y ev)
          | inr (_, old) ↦ b.least v a y old
        ];
        later = λ m t. elim t [
          | Memᴰ.head e ↦ subst (λ (x : MinScored). d ≤ x.score) (sym e) from
          | Memᴰ.tail r ↦ b.later m r
        ];
        current = elsewhere node d not_node b.current;
        fresh = b.fresh;
      }
