-- ===== src/Acl/Rules/Sorted.antt =====
-- The rules of a chain in the order of their priorities
-- (easytier/src/common/acl_processor.rs).
use mathlib.Core.List.{Memᴰ}
use mathlib.Core.List.Memᴰ
use mathlib.Core.Path.{subst}
use native.Mathlib.Nat.{le_trans}
use neo_easy_tier_deamon.Prelude.{
  ℕ, ◌≤◌, ◌≡◌, sym, ◌∙◌, ap, refl, Bool, true, List, [], ◌∷◌, if◌then◌else◌, arith, inl, inr, ◌⊎◌,
  Bool-cases, leb, leb→le,
}
use neo_easy_tier_deamon.Acl.{CidrLib, Rule, Chain, FastLookupRule}
use neo_easy_tier_deamon.Acl.Rules.{
  convert_to_fast_lookup_rule, insert_by_priority, sort_by_priority, convert_all, rules_of_chain,
  filter,
}

module _ {V4 V6 : Type 0} (lib : CidrLib V4 V6) where
  abbrev pub AllBelow : ℕ → List (FastLookupRule V4 V6) → Type 0
  AllBelow n [] = Unit
  AllBelow n (x ∷ xs) = (x.priority ≤ n) × AllBelow n xs

  -- No rule has a higher priority than one before it.
  abbrev pub IsSorted : List (FastLookupRule V4 V6) → Type 0
  IsSorted [] = Unit
  IsSorted (x ∷ xs) = AllBelow x.priority xs × IsSorted xs

  AllBelow-le : (m n : ℕ) (xs : List (FastLookupRule V4 V6)) → m ≤ n → AllBelow m xs → AllBelow n xs
  AllBelow-le m n [] le h = tt
  AllBelow-le m n (x ∷ xs) le (h, rest) = (le_trans h le, AllBelow-le m n xs le rest)

  insert-AllBelow :
      (n : ℕ) (r : FastLookupRule V4 V6) (xs : List (FastLookupRule V4 V6))
      → r.priority ≤ n
      → AllBelow n xs
      → AllBelow n (insert_by_priority lib r xs)
  unfolding insert_by_priority
  insert-AllBelow n r [] le h = (le, tt)
  insert-AllBelow n r (x ∷ xs) le (h, rest) = ground (arith, insert-AllBelow n r xs le rest)

  insert-IsSorted :
      (r : FastLookupRule V4 V6) (xs : List (FastLookupRule V4 V6))
      → IsSorted xs
      → IsSorted (insert_by_priority lib r xs)
  unfolding insert_by_priority
  insert-IsSorted r [] h = (tt, tt)
  insert-IsSorted r (x ∷ xs) (below, h) = elim (Bool-cases (leb x.priority r.priority)) [
    | inl y ↦
        let le = leb→le x.priority r.priority y in
        rw y ((le, AllBelow-le x.priority r.priority xs le below), (below, h))
    | inr y ↦
        let le : r.priority ≤ x.priority = ground arith in
        rw y (insert-AllBelow x.priority r xs le below, insert-IsSorted r xs h)
  ]

  pub sort_by_priority-IsSorted :
      (xs : List (FastLookupRule V4 V6)) → IsSorted (sort_by_priority lib xs)
  unfolding sort_by_priority
  sort_by_priority-IsSorted [] = tt
  sort_by_priority-IsSorted (x ∷ xs) =
      insert-IsSorted x (sort_by_priority lib xs) (sort_by_priority-IsSorted xs)

  swapped :
      (a r x : FastLookupRule V4 V6) (xs : List (FastLookupRule V4 V6))
      → (Memᴰ a (insert_by_priority lib r xs) → Memᴰ a (r ∷ xs))
      → (a ≡ x) ⊎ Memᴰ a (insert_by_priority lib r xs)
      → Memᴰ a (r ∷ x ∷ xs)
  swapped a r x xs f (inl e) = Memᴰ.tail (Memᴰ.head e)
  swapped a r x xs f (inr m) = elim (Memᴰ.cases_cons (f m)) [
    | inl e ↦ Memᴰ.head e
    | inr m' ↦ Memᴰ.tail (Memᴰ.tail m')
  ]

  from_insert :
      (a r : FastLookupRule V4 V6) (xs : List (FastLookupRule V4 V6))
      → Memᴰ a (insert_by_priority lib r xs)
      → Memᴰ a (r ∷ xs)
  unfolding insert_by_priority
  from_insert a r [] m = m
  from_insert a r (x ∷ xs) m = elim (Bool-cases (leb x.priority r.priority)) [
    | inl y ↦ (rw y at m)
    | inr y ↦ swapped a r x xs (from_insert a r xs) (Memᴰ.cases_cons (rw y at m))
  ]

  to_insert :
      (a r : FastLookupRule V4 V6) (xs : List (FastLookupRule V4 V6))
      → Memᴰ a (r ∷ xs)
      → Memᴰ a (insert_by_priority lib r xs)
  unfolding insert_by_priority
  to_insert a r [] m = m
  to_insert a r (x ∷ xs) m = elim (Bool-cases (leb x.priority r.priority)) [
    | inl y ↦ rw y m
    | inr y ↦ rw y (elim (Memᴰ.cases_cons m) [
      | inl e ↦ Memᴰ.tail (to_insert a r xs (Memᴰ.head e))
      | inr m' ↦ elim (Memᴰ.cases_cons m') [
        | inl e ↦ Memᴰ.head e
        | inr m'' ↦ Memᴰ.tail (to_insert a r xs (Memᴰ.tail m''))
      ]
    ])
  ]

  -- Sorting loses no rule and makes none.
  from_sort :
      (a : FastLookupRule V4 V6) (xs : List (FastLookupRule V4 V6))
      → Memᴰ a (sort_by_priority lib xs)
      → Memᴰ a xs
  unfolding sort_by_priority
  from_sort a [] m = m
  from_sort a (x ∷ xs) m = elim (Memᴰ.cases_cons (from_insert a x (sort_by_priority lib xs) m)) [
    | inl e ↦ Memᴰ.head e
    | inr m' ↦ Memᴰ.tail (from_sort a xs m')
  ]

  to_sort :
      (a : FastLookupRule V4 V6) (xs : List (FastLookupRule V4 V6))
      → Memᴰ a xs
      → Memᴰ a (sort_by_priority lib xs)
  unfolding sort_by_priority
  to_sort a [] m = m
  to_sort a (x ∷ xs) m =
      to_insert a x (sort_by_priority lib xs)
        (elim (Memᴰ.cases_cons m) [ inl e ↦ Memᴰ.head e | inr m' ↦ Memᴰ.tail (to_sort a xs m') ])

  -- A rule of the configuration that is enabled.
  abbrev pub Enabled : Chain → Rule → Type 0
  Enabled c q = Memᴰ q c.rules × (q.enabled ≡ true)

  -- The rules that are converted where the first one is enabled or not.
  abbrev Converted : FastLookupRule V4 V6 → Rule → List Rule → Bool → Type 0
  Converted a r rs enabled =
      let rest = filter (λ (r : Rule). r.enabled) rs in
      Memᴰ a (convert_all lib (if enabled then r ∷ rest else rest))

  from_converted :
      (a : FastLookupRule V4 V6) (rs : List Rule)
      → Memᴰ a (convert_all lib (filter (λ (r : Rule). r.enabled) rs))
      → (q : Rule) × Memᴰ q rs × (q.enabled ≡ true) × (a ≡ convert_to_fast_lookup_rule lib q)
  from_converted a [] m = absurd (Memᴰ.not-nil m)
  from_converted a (r ∷ rs) m = elim (Bool-cases r.enabled) [
    | inl y ↦ elim (Memᴰ.cases_cons (subst (Converted a r rs) y m)) [
      | inl e ↦ (r, Memᴰ.head refl, y, e)
      | inr m' ↦ let (q, there, on, e) = from_converted a rs m' in (q, Memᴰ.tail there, on, e)
    ]
    | inr y ↦
        let (q, there, on, e) = from_converted a rs (subst (Converted a r rs) y m) in
        (q, Memᴰ.tail there, on, e)
  ]

  to_converted :
      (q : Rule) (rs : List Rule)
      → Memᴰ q rs
      → q.enabled ≡ true
      → Memᴰ
          (convert_to_fast_lookup_rule lib q)
          (convert_all lib (filter (λ (r : Rule). r.enabled) rs))
  to_converted q [] m on = absurd (Memᴰ.not-nil m)
  to_converted q (r ∷ rs) m on = elim (Memᴰ.cases_cons m) [
    | inl e ↦
        let y : r.enabled ≡ true = sym (ap (λ (r : Rule). r.enabled) e) ∙ on in
        subst (Converted (convert_to_fast_lookup_rule lib q) r rs) (sym y)
          (Memᴰ.head (ap (convert_to_fast_lookup_rule lib) e))
    | inr m' ↦ elim (Bool-cases r.enabled) [
      | inl y ↦
          subst (Converted (convert_to_fast_lookup_rule lib q) r rs) (sym y)
            (Memᴰ.tail (to_converted q rs m' on))
      | inr y ↦
          subst (Converted (convert_to_fast_lookup_rule lib q) r rs) (sym y)
            (to_converted q rs m' on)
    ]
  ]

  pub from_rules_of_chain :
      (a : FastLookupRule V4 V6) (c : Chain)
      → Memᴰ a (rules_of_chain lib c)
      → (q : Rule) × Enabled c q × (a ≡ convert_to_fast_lookup_rule lib q)
  unfolding rules_of_chain
  from_rules_of_chain a c m =
      let (q, there, on, e) = from_converted a c.rules (from_sort a _ m) in (q, (there, on), e)

  pub to_rules_of_chain :
      (q : Rule) (c : Chain)
      → Enabled c q
      → Memᴰ (convert_to_fast_lookup_rule lib q) (rules_of_chain lib c)
  unfolding rules_of_chain
  to_rules_of_chain q c (there, on) = to_sort _ _ (to_converted q c.rules there on)

  pub rules_of_chain-IsSorted : (c : Chain) → IsSorted (rules_of_chain lib c)
  unfolding rules_of_chain
  rules_of_chain-IsSorted c =
      sort_by_priority-IsSorted (convert_all lib (filter (λ (r : Rule). r.enabled) c.rules))
