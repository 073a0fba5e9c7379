-- ===== src/Route/Dijkstra/Rounds.antt =====
-- The rounds of `dijkstra_with_first_hop`: what holds between them, and how many there are.
use mathlib.Core.List.{Memᴰ}
use mathlib.Core.Path.{subst}
use native.Mathlib.Omega.{arith}
use neo_easy_tier_deamon.Prelude.{
  ℕ, zero, suc, ◌+◌, ◌≤◌, ◌≡◌, ◌≢◌, sym, ap, inl, inr, if◌then◌else◌, List, ◌∷◌, false, ℕ_discrete,
  Bool-cases, ltb, length, ◌⊎◌,
}
use neo_easy_tier_deamon.Route.Dijkstra.{
  Graph, Edge, Search, MinScored, is_visited, IsPopped, edges_left, cmp,
}
use neo_easy_tier_deamon.Route.Dijkstra.Edges.{Scored, AtMost, IsBusy, IsSound, Visited, Unvisited}
use neo_easy_tier_deamon.Route.Dijkstra.Turns.{IsRelaxed}

module _ (g : Graph) (start : ℕ) where
  pub record IsSettled (s : Search) : Type 0 where
    pub sound : IsSound g start s
    pub queued :
        (v a : ℕ)
        → Unvisited s v
        → Scored s v a
        → Memᴰ (record { score = a; node = v }) s.visit_next
    pub ordered :
        (v a : ℕ) (m : MinScored) → Visited s v → Scored s v a → Memᴰ m s.visit_next → a ≤ m.score

  abbrev pub work : Search → ℕ
  work s = edges_left g s.visited g.node_bound + length s.visit_next

  module _ (s : Search) (m : MinScored) (rest : List MinScored) (p : IsPopped s.visit_next m rest)
      (h : IsSettled s) where
    unfoldable pub popped : Search
    popped = record s { visit_next = rest }

    least_popped : (e : MinScored) → Memᴰ e s.visit_next → m.score ≤ e.score
    unfolding cmp
    least_popped e q = ground (arith, p.greatest e q)

    popped-IsSound : IsSound g start popped
    unfolding popped
    popped-IsSound = record {
      walked = h.sound.walked;
      hopped = h.sound.hopped;
      unique = h.sound.unique;
      origin = h.sound.origin;
      origin_hop = h.sound.origin_hop;
      backed = λ e q. h.sound.backed e (p.kept e q);
      reached = h.sound.reached;
      relaxed = h.sound.relaxed;
    }

    -- An entry of a visited node is passed over.
    pub skip : Visited s m.node → IsSettled popped
    unfolding popped
    skip y = record {
      sound = popped-IsSound;
      queued = λ v a n e.
          p.split _ (h.queued v a n e)
            (λ i. cc (n, y, ap (λ (x : MinScored). is_visited s.visited x.node) i));
      ordered = λ v a e z l q. h.ordered v a e z l (p.kept e q);
    }

    current_popped : Unvisited s m.node → Scored s m.node m.score
    current_popped n =
        let (a, e, l) = h.sound.backed m p.member in
        let le = least_popped _ (h.queued m.node a n e) in
        let same : a ≡ m.score = omega arith in rw (sym same) e

    pub popped-IsBusy : Unvisited s m.node → IsBusy g start m.node m.score popped
    unfolding popped
    popped-IsBusy n = record {
      sound = popped-IsSound;
      queued =
          λ v a d u e. p.split _ (h.queued v a u e) (λ i. d (ap (λ (x : MinScored). x.node) i));
      least = λ v a y e. h.ordered v a m y e p.member;
      later = λ e q. least_popped e (p.kept e q);
      current = current_popped n;
      fresh = n;
    }

  module _ (node d : ℕ) (s t : Search) (r : IsRelaxed g start node d (g.edges node) s t) where
    unfoldable pub visited_now : Search
    visited_now = record t { visited = node ∷ t.visited }

    now-Visited : (v : ℕ) → Visited visited_now v → (v ≡ node) ⊎ Visited t v
    unfolding visited_now is_visited
    now-Visited v y = ground arith

    now-Unvisited : (v : ℕ) → Unvisited visited_now v → (v ≢ node) × Unvisited t v
    unfolding visited_now is_visited
    now-Unvisited v y = ground arith

    score_of_node : (a : ℕ) → Scored t node a → a ≡ d
    score_of_node a e = ground (arith, e, r.busy.current)

    visited_now-IsSound : IsSound g start visited_now
    unfolding visited_now
    visited_now-IsSound = record {
      walked = r.busy.sound.walked;
      hopped = r.busy.sound.hopped;
      unique = r.busy.sound.unique;
      origin = r.busy.sound.origin;
      origin_hop = r.busy.sound.origin_hop;
      backed = r.busy.sound.backed;
      reached = λ v y. elim (now-Visited v y) [
        | inl e ↦ (d, subst (λ x. Scored t x d) (sym e) r.busy.current)
        | inr o ↦ r.busy.sound.reached v o
      ];
      relaxed = λ u a e y l m. elim (now-Visited u y) [
        | inl i ↦
            let same = score_of_node a (subst (λ x. Scored t x a) i l) in
            subst (λ x. AtMost t e.target (x + e.cost)) (sym same)
              (r.offered e (subst (λ x. Memᴰ e (g.edges x)) i m))
        | inr o ↦ r.busy.sound.relaxed u a e o l m
      ];
    }

    pub visited_now-IsSettled : IsSettled visited_now
    unfolding visited_now
    visited_now-IsSettled = record {
      sound = visited_now-IsSound;
      queued = λ v a n e. let (away, u) = now-Unvisited v n in r.busy.queued v a away u e;
      ordered = λ v a m y e q. elim (now-Visited v y) [
        | inl i ↦ omega (arith, score_of_node a (subst (λ x. Scored t x a) i e), r.busy.later m q)
        | inr o ↦ omega (arith, r.busy.least v a o e, r.busy.later m q)
      ];
    }

  edges_left-visit :
      (vis : List ℕ) (node n : ℕ)
      → is_visited vis node ≡ false
      → edges_left g (node ∷ vis) n + (if ltb node n then length (g.edges node) else 0)
        ≡ edges_left g vis n
  unfolding edges_left is_visited
  edges_left-visit vis node zero h = ground arith
  edges_left-visit vis node (suc n) h = elim (ℕ_discrete n node) [
    | yes e ↦ ground (arith, edges_left-visit vis node n h, h, e)
    | no k ↦ ground (arith, edges_left-visit vis node n h, k)
  ]

  pub edges_left-falls :
      (vis : List ℕ) (node : ℕ)
      → is_visited vis node ≡ false
      → edges_left g (node ∷ vis) g.node_bound + length (g.edges node)
        ≡ edges_left g vis g.node_bound
  edges_left-falls vis node h = elim (Bool-cases (ltb node g.node_bound)) [
    | inl y ↦ ground (arith, edges_left-visit vis node g.node_bound h, y)
    | inr n ↦
        let none_out = ap (λ (l : List Edge). length l) (g.outside node (ground arith)) in
        ground (arith, edges_left-visit vis node g.node_bound h, n, none_out)
  ]
