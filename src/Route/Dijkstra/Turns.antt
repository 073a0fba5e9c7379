-- ===== src/Route/Dijkstra/Turns.antt =====
-- The inner loop of `dijkstra_with_first_hop`: it ends with no panic, and each edge is relaxed.
use mathlib.Core.List.{lookup, Memᴰ}
use mathlib.Core.List.Memᴰ
use mathlib.Core.Path.{subst}
use native.Mathlib.Omega.{arith}
use neo_easy_tier_deamon.Prelude.{
  ℕ, ◌+◌, ◌≤◌, ◌<◌, ◌≡◌, refl, sym, ◌∙◌, inl, inr, List, [], ◌∷◌, Option, none, some, ℕ_discrete,
  Bool-cases, if_true, if_false, ltb, length,
}
use neo_easy_tier_deamon.Route.Dijkstra.{
  Graph, Edge, Search, is_visited, improved, improve, offer, relax, relax_all,
}
use neo_easy_tier_deamon.Route.Dijkstra.Edges.{
  Scored, AtMost, IsBusy, hop_found, falls, at_next, improved-IsBusy, Unvisited,
}

module _ (g : Graph) (start node d : ℕ) where
  -- What the turns on the edges `es` make of a search.
  pub record IsRelaxed (es : List Edge) (s t : Search) : Type 0 where
    pub busy : IsBusy g start node d t
    pub same : t.visited ≡ s.visited
    pub lower : (v a : ℕ) → AtMost s v a → AtMost t v a
    pub offered : (e : Edge) → Memᴰ e es → AtMost t e.target (d + e.cost)
    pub size : length t.visit_next ≤ length es + length s.visit_next

  unchanged :
      (e : Edge) (s : Search)
      → IsBusy g start node d s
      → AtMost s e.target (d + e.cost)
      → IsRelaxed (e ∷ []) s s
  unchanged e s b o = record {
    busy = b;
    same = refl;
    lower = λ v a h. h;
    offered = λ f m.
        subst (λ (x : Edge). AtMost s x.target (d + x.cost)) (sym (Memᴰ.eq_of_singleton m)) o;
    size = omega arith;
  }

  improve_lem :
      (e : Edge) (s : Search)
      → IsBusy g start node d s
      → Memᴰ e (g.edges node)
      → Unvisited s e.target
      → ((a : ℕ) → Scored s e.target a → d + e.cost < a)
      → (t : Search) × (improve start node e.target (d + e.cost) s ≡ some t)
        × IsRelaxed (e ∷ []) s t
  unfolding improve
  improve_lem e s b m y better =
      let (h, found, w) = hop_found g start node d s e b m in
      let t = improved e.target (d + e.cost) h s in
      (
        t,
        rw (found, improve) refl,
        record {
          busy =
              improved-IsBusy g start node d e.target (d + e.cost) h s better b y (omega arith) w;
          same = unfold improved in refl;
          lower = falls g start node d e.target (d + e.cost) h s better;
          offered = λ f q.
              subst (λ (x : Edge). AtMost t x.target (d + x.cost)) (sym (Memᴰ.eq_of_singleton q))
                (d + e.cost, at_next g start node d e.target (d + e.cost) h s better, omega arith);
          size = unfold improved in omega arith;
        },
      )

  offer_lem :
      (e : Edge) (s : Search) (o : Option ℕ)
      → lookup ℕ_discrete e.target s.scores ≡ o
      → IsBusy g start node d s
      → Memᴰ e (g.edges node)
      → Unvisited s e.target
      → (t : Search) × (offer start node e.target (d + e.cost) s o ≡ some t)
        × IsRelaxed (e ∷ []) s t
  unfolding offer
  offer_lem e s none l b m y = improve_lem e s b m y (λ a h. cc (h, l))
  offer_lem e s (some old) l b m y = elim (Bool-cases (ltb (d + e.cost) old)) [
    | inl lt ↦
        let (t, q, r) = improve_lem e s b m y (λ a h. ground (arith, h, l, lt)) in
        (t, if_true _ _ _ lt ∙ q, r)
    | inr ge ↦ (s, if_false _ _ _ ge, unchanged e s b (old, l, ground arith))
  ]

  relax_lem :
      (e : Edge) (s : Search)
      → IsBusy g start node d s
      → Memᴰ e (g.edges node)
      → (t : Search) × (relax ◌+◌ start node d e s ≡ some t) × IsRelaxed (e ∷ []) s t
  unfolding relax
  relax_lem e s b m = elim (Bool-cases (is_visited s.visited e.target)) [
    | inl y ↦
        let (a, h) = b.sound.reached e.target y in
        (s, if_true _ _ _ y, unchanged e s b (a, h, omega (arith, b.least e.target a y h)))
    | inr n ↦
        let (t, q, r) = offer_lem e s (lookup ℕ_discrete e.target s.scores) refl b m n in
        (t, if_false _ _ _ n ∙ q, r)
  ]

  -- The inner loop on edges of `node` ends, and each target has at most the score offered.
  pub relax_all_lem :
      (es : List Edge) (s : Search)
      → IsBusy g start node d s
      → ((e : Edge) → Memᴰ e es → Memᴰ e (g.edges node))
      → (t : Search) × (relax_all ◌+◌ start node d es s ≡ some t) × IsRelaxed es s t
  unfolding relax_all
  relax_all_lem [] s b sub = (
    s,
    refl,
    record {
      busy = b;
      same = refl;
      lower = λ v a h. h;
      offered = λ f m. absurd (Memᴰ.not-nil m);
      size = omega arith;
    },
  )
  relax_all_lem (e ∷ es) s b sub =
      let (t, q, r) = relax_lem e s b (sub e (Memᴰ.head refl)) in
      let (u, p, k) = relax_all_lem es t r.busy (λ f m. sub f (Memᴰ.tail m)) in
      (
        u,
        rw (q, relax_all) p,
        record {
          busy = k.busy;
          same = k.same ∙ r.same;
          lower = λ v a h. k.lower v a (r.lower v a h);
          offered = λ f m. elim m [
            | Memᴰ.head i ↦
                subst (λ (x : Edge). AtMost u x.target (d + x.cost)) (sym i)
                  (k.lower e.target (d + e.cost) (r.offered e (Memᴰ.head refl)))
            | Memᴰ.tail j ↦ k.offered f j
          ];
          size = omega (arith, r.size, k.size);
        },
      )
