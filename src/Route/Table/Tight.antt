-- ===== src/Route/Table/Tight.antt =====
-- The edges that `gen_next_hop_map_with_least_hop` keeps for its subgraph.
use mathlib.Core.List.{lookup, Memᴰ}
use mathlib.Core.Path.{subst}
use native.Mathlib.Omega.{arith}
use neo_easy_tier_deamon.Prelude.{
  ℕ, ◌+◌, ◌-◌, ◌%◌, ◌^◌, ◌≤◌, ◌≡◌, refl, sym, ap, ◌∙◌, inl, inr, List, [], ◌∷◌, some, ℕ_discrete,
  true, Bool-cases, Option-cases, if_true, if_false, ◌==◌, ==_refl,
}
use neo_easy_tier_deamon.Route.Table.{normalize_edge_cost, is_shortest, shortest_links}
use neo_easy_tier_deamon.Route.Table.Links.{Link}

pub normalize_edge_cost-small : (w : ℕ) → normalize_edge_cost w ≤ 2 ^ 31
unfolding normalize_edge_cost
normalize_edge_cost-small w = ground arith

-- The lengths leave room for one more edge.
module _ (path_len_map : List (ℕ × ℕ))
    (fits : (v a : ℕ) → lookup ℕ_discrete v path_len_map ≡ some a → a ≤ 2 ^ 64 - 2 ^ 32) where
  is_shortest_of :
      (l : Link) (a b : ℕ)
      → lookup ℕ_discrete l.source path_len_map ≡ some a
      → lookup ℕ_discrete l.target path_len_map ≡ some b
      → is_shortest path_len_map l ≡ ((a + normalize_edge_cost l.cost) % 2 ^ 64 == b)
  unfolding is_shortest
  is_shortest_of l a b ea eb = rw (ea, is_shortest) (rw (eb, is_shortest) refl)

  -- The source and the target have lengths, which differ by the length of the edge.
  pub record IsTight (l : Link) : Type 0 where
    pub from : ℕ
    pub from_length : lookup ℕ_discrete l.source path_len_map ≡ some from
    pub to_length :
        lookup ℕ_discrete l.target path_len_map ≡ some (from + normalize_edge_cost l.cost)

  shortest-IsTight : (l : Link) → is_shortest path_len_map l ≡ true → IsTight l
  unfolding is_shortest
  shortest-IsTight l e = elim (Option-cases (lookup ℕ_discrete l.source path_len_map)) [
    | inl miss ↦ absurd (ground (arith, e, miss))
    | inr (a, ea) ↦ elim (Option-cases (lookup ℕ_discrete l.target path_len_map)) [
      | inl miss ↦ absurd (ground (arith, e, miss, ea))
      | inr (b, eb) ↦
          let test = sym (is_shortest_of l a b ea eb) ∙ e in
          let same : a + normalize_edge_cost l.cost ≡ b =
            ground (arith, test, fits l.source a ea, normalize_edge_cost-small l.cost) in
          record { from = a; from_length = ea; to_length = eb ∙ ap some (sym same) }
    ]
  ]

  shortest_of_tight : (l : Link) → IsTight l → is_shortest path_len_map l ≡ true
  shortest_of_tight l t =
      let exact : (t.from + normalize_edge_cost l.cost) % 2 ^ 64
          ≡ t.from + normalize_edge_cost l.cost =
        omega (arith, fits l.source t.from t.from_length, normalize_edge_cost-small l.cost) in
      is_shortest_of l t.from (t.from + normalize_edge_cost l.cost) t.from_length t.to_length
      ∙ (ap (λ x. x == t.from + normalize_edge_cost l.cost) exact ∙ ==_refl _)

  pub kept_of_tight :
      (l : Link) (links : List Link)
      → Memᴰ l links
      → IsTight l
      → Memᴰ l (shortest_links path_len_map links)
  unfolding shortest_links
  kept_of_tight l [] m t = elim m [ ]
  kept_of_tight l (k ∷ links) (Memᴰ.head e) t =
      subst (Memᴰ l)
        (sym (if_true _ _ _ (ap (is_shortest path_len_map) (sym e) ∙ shortest_of_tight l t)))
        (Memᴰ.head e)
  kept_of_tight l (k ∷ links) (Memᴰ.tail m) t =
      let rest = kept_of_tight l links m t in
      elim (Bool-cases (is_shortest path_len_map k)) [
        | inl y ↦ subst (Memᴰ l) (sym (if_true _ _ _ y)) (Memᴰ.tail rest)
        | inr n ↦ subst (Memᴰ l) (sym (if_false _ _ _ n)) rest
      ]

  pub kept-IsTight :
      (l : Link) (links : List Link)
      → Memᴰ l (shortest_links path_len_map links)
      → Memᴰ l links × IsTight l
  unfolding shortest_links
  kept-IsTight l [] m = elim m [ ]
  kept-IsTight l (k ∷ links) m = elim (Bool-cases (is_shortest path_len_map k)) [
    | inl y ↦ elim (subst (Memᴰ l) (if_true _ _ _ y) m) [
      | Memᴰ.head e ↦ (Memᴰ.head e, shortest-IsTight l (ap (is_shortest path_len_map) e ∙ y))
      | Memᴰ.tail r ↦ let (q, t) = kept-IsTight l links r in (Memᴰ.tail q, t)
    ]
    | inr n ↦
        let (q, t) = kept-IsTight l links (subst (Memᴰ l) (if_false _ _ _ n) m) in (Memᴰ.tail q, t)
  ]
