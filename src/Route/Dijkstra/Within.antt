-- ===== src/Route/Dijkstra/Within.antt =====
-- The inner loop of `dijkstra_with_first_hop` with an addition that wraps: while no sum is above a bound,
-- the scores stay within it.
use mathlib.Core.List.{Memᴰ}
use mathlib.Core.Path.{subst}
use mathlib.Core.Option.{some-injective, none-ne-some}
use native.Mathlib.Omega.{arith}
use neo_easy_tier_deamon.Prelude.{
  ℕ, ◌+◌, ◌≤◌, ◌≡◌, refl, sym, ap, ◌∙◌, inl, inr, List, [], ◌∷◌, Option, none, some, ℕ_discrete,
  Bool-cases, Option-cases, if_true, if_false, ltb,
}
use neo_easy_tier_deamon.Prelude.Assoc.{lookup-put}
use neo_easy_tier_deamon.Route.Dijkstra.{
  Edge, Search, MinScored, is_visited, improved, improve, offer, hop_of, relax, relax_all,
}
use neo_easy_tier_deamon.Route.Dijkstra.Edges.{Scored}

-- All scores and all entries of the heap are at most `b`.
pub record IsWithin (b : ℕ) (s : Search) : Type 0 where
  pub queued : (m : MinScored) → Memᴰ m s.visit_next → m.score ≤ b
  pub scored : (v a : ℕ) → Scored s v a → a ≤ b

-- What the turns of the inner loop keep.
pub record IsKept (b : ℕ) (s t : Search) : Type 0 where
  pub within : IsWithin b t
  pub same : t.visited ≡ s.visited

pub IsWithin-mono : (b b' : ℕ) (s : Search) → b ≤ b' → IsWithin b s → IsWithin b' s
IsWithin-mono b b' s le w = record {
  queued = λ m q. omega (arith, w.queued m q);
  scored = λ v a e. omega (arith, w.scored v a e);
}

improved-IsKept :
    (b next score : ℕ) (hop : ℕ × ℕ) (s : Search)
    → score ≤ b
    → IsWithin b s
    → IsKept b s (improved next score hop s)
unfolding improved
improved-IsKept b next score hop s le w = record {
  within = record {
    queued = λ m q. elim q [
      | Memᴰ.head e ↦ omega (arith, ap (λ (x : MinScored). x.score) e)
      | Memᴰ.tail r ↦ w.queued m r
    ];
    scored = λ v a e. elim (ℕ_discrete next v) [
      | yes y ↦ ground (arith, lookup-put ℕ_discrete next v score s.scores, e, y)
      | no n ↦ w.scored v a (ground (arith, lookup-put ℕ_discrete next v score s.scores, e, n))
    ];
  };
  same = refl;
}

improve-IsKept :
    (b start node next score : ℕ) (s t : Search)
    → score ≤ b
    → IsWithin b s
    → improve start node next score s ≡ some t
    → IsKept b s t
unfolding improve
improve-IsKept b start node next score s t le w e = elim (Option-cases (hop_of start node next s)) [
  | inl n ↦ absurd (none-ne-some _ (sym (rw (n, improve) refl) ∙ e))
  | inr (h, l) ↦
      let found : improve start node next score s ≡ some (improved next score h s) =
        rw (l, improve) refl in
      subst (IsKept b s) (some-injective _ _ (sym found ∙ e))
        (improved-IsKept b next score h s le w)
]

stays : (b : ℕ) (s t : Search) → IsWithin b s → some s ≡ some t → IsKept b s t
stays b s t w e = subst (IsKept b s) (some-injective _ _ e) (record { within = w; same = refl })

offer-IsKept :
    (b start node next score : ℕ) (s t : Search) (o : Option ℕ)
    → score ≤ b
    → IsWithin b s
    → offer start node next score s o ≡ some t
    → IsKept b s t
unfolding offer
offer-IsKept b start node next score s t none le w e =
    improve-IsKept b start node next score s t le w e
offer-IsKept b start node next score s t (some old) le w e = elim (Bool-cases (ltb score old)) [
  | inl y ↦ improve-IsKept b start node next score s t le w (sym (if_true _ _ _ y) ∙ e)
  | inr n ↦ stays b s t w (sym (if_false _ _ _ n) ∙ e)
]

module _ (add : ℕ → ℕ → ℕ) (b : ℕ) (exact : (x y : ℕ) → x + y ≤ b → add x y ≡ x + y) where
  relax-same :
      (start node d : ℕ) (e : Edge) (s : Search)
      → d + e.cost ≤ b
      → relax add start node d e s ≡ relax ◌+◌ start node d e s
  unfolding relax
  relax-same start node d e s le = rw (exact d e.cost le) refl

  relax-IsKept :
      (start node d : ℕ) (e : Edge) (s t : Search)
      → d + e.cost ≤ b
      → IsWithin b s
      → relax ◌+◌ start node d e s ≡ some t
      → IsKept b s t
  unfolding relax
  relax-IsKept start node d e s t le w q = elim (Bool-cases (is_visited s.visited e.target)) [
    | inl y ↦ stays b s t w (sym (if_true _ _ _ y) ∙ q)
    | inr n ↦
        offer-IsKept b start node e.target (d + e.cost) s t _ le w (sym (if_false _ _ _ n) ∙ q)
  ]

  pub relax_all-fits :
      (start node d : ℕ) (es : List Edge) (s : Search)
      → ((e : Edge) → Memᴰ e es → d + e.cost ≤ b)
      → IsWithin b s
      → (relax_all add start node d es s ≡ relax_all ◌+◌ start node d es s)
        × ((t : Search) → relax_all ◌+◌ start node d es s ≡ some t → IsKept b s t)
  unfolding relax_all
  relax_all-fits start node d [] s small w = (refl, λ t q. stays b s t w q)
  relax_all-fits start node d (e ∷ es) s small w =
      let le = small e (Memᴰ.head refl) in
      let first = relax-same start node d e s le in
      elim (Option-cases (relax ◌+◌ start node d e s)) [
        | inl n ↦ (
          rw (first, n, relax_all) refl,
          λ t q. absurd (none-ne-some _ (sym (rw (n, relax_all) refl) ∙ q)),
        )
        | inr (u, l) ↦
            let k = relax-IsKept start node d e s u le w l in
            let (rest, kept) =
              relax_all-fits start node d es u (λ f m. small f (Memᴰ.tail m)) k.within in
            let together : relax_all ◌+◌ start node d (e ∷ es) s ≡ relax_all ◌+◌ start node d es u =
              rw (l, relax_all) refl in
            (
              rw (first, l, relax_all) rest,
              λ t q.
                  let r = kept t (sym together ∙ q) in
                  record { within = r.within; same = r.same ∙ k.same },
            )
      ]
