-- ===== src/Route/Graph/Nodes.antt =====
-- The nodes of the graph of peers and their indices.
use mathlib.Core.List.{lookup, Memᴰ}
use mathlib.Core.Path.{subst}
use mathlib.Core.Logic.{if_pos, if_neg}
use mathlib.Core.Option.{none-ne-some, some-injective}
use native.Mathlib.Omega.{arith}
use neo_easy_tier_deamon.Prelude.{
  ℕ, zero, suc, length, ◌<◌, ◌≤◌, ◌+◌, ◌≡◌, ◌≢◌, refl, sym, ap, ◌∙◌, inl, inr, List, [], ◌∷◌, none,
  some, ◌==◌, get_elem?, ℕ_discrete, false, ==_ne, Bool-cases, if_true, if_false,
}
use neo_easy_tier_deamon.Prelude.Assoc.{IsUnique, lookup-mem}
use neo_easy_tier_deamon.Route.Messages.{RoutePeerInfo}
use neo_easy_tier_deamon.Route.Graph.{node_ids, index_from}
use neo_easy_tier_deamon.Route.Table.Entries.{IsDistinct}

abbrev Infos : Type 0
Infos = List (ℕ × RoutePeerInfo)

-- The entry of an index.
pub mem-index_from :
    (idx k i : ℕ) (ps : List ℕ)
    → Memᴰ (k, i) (index_from idx ps)
    → (j : ℕ) × (i ≡ idx + j) × (get_elem? ps j ≡ some k)
unfolding index_from
mem-index_from idx k i [] m = elim m [ ]
mem-index_from idx k i (p ∷ ps) (Memᴰ.head e) =
    (0, omega (arith, ap (λ (x : ℕ × ℕ). x.1) e), ap some (sym (ap (λ (x : ℕ × ℕ). x.0) e)))
mem-index_from idx k i (p ∷ ps) (Memᴰ.tail m) =
    let (j, e, g) = mem-index_from (idx + 1) k i ps m in (suc j, omega arith, g)

pub index_from-get :
    (idx k j : ℕ) (ps : List ℕ) → get_elem? ps j ≡ some k → Memᴰ (k, idx + j) (index_from idx ps)
unfolding index_from
index_from-get idx k j [] e = absurd (none-ne-some _ e)
index_from-get idx k zero (p ∷ ps) e =
    let same : idx + 0 ≡ idx = omega arith in Memᴰ.head (cc (some-injective _ _ e, same))
index_from-get idx k (suc j) (p ∷ ps) e =
    let same : idx + 1 + j ≡ idx + suc j = omega arith in
    Memᴰ.tail
      (subst (λ i. Memᴰ (k, i) (index_from (idx + 1) ps)) same (index_from-get (idx + 1) k j ps e))

-- A node is a peer whose info has a version.
pub mem-node_ids :
    (k : ℕ) (infos : Infos)
    → Memᴰ k (node_ids infos)
    → (x : RoutePeerInfo) × Memᴰ (k, x) infos × (x.version ≢ 0)
unfolding node_ids
mem-node_ids k [] m = elim m [ ]
mem-node_ids k ((p, x) ∷ infos) m = elim (Bool-cases (x.version == 0)) [
  | inl y ↦
      let (z, n, v) = mem-node_ids k infos (subst (Memᴰ k) (if_true _ _ _ y) m) in
      (z, Memᴰ.tail n, v)
  | inr n ↦ elim (subst (Memᴰ k) (if_false _ _ _ n) m) [
    | Memᴰ.head e ↦ (x, Memᴰ.head (ap (λ i. (i, x)) e), ground (arith, n))
    | Memᴰ.tail t ↦ let (z, q, v) = mem-node_ids k infos t in (z, Memᴰ.tail q, v)
  ]
]

pub node_ids-mem :
    (k : ℕ) (x : RoutePeerInfo) (infos : Infos)
    → Memᴰ (k, x) infos
    → x.version ≢ 0
    → Memᴰ k (node_ids infos)
unfolding node_ids
node_ids-mem k x [] m v = elim m [ ]
node_ids-mem k x ((p, y) ∷ infos) (Memᴰ.head e) v =
    let n : (y.version == 0) ≡ false =
      ==_ne y.version 0 (λ z. v (ap (λ (w : ℕ × RoutePeerInfo). w.1.version) e ∙ z)) in
    subst (Memᴰ k) (sym (if_false _ _ _ n)) (Memᴰ.head (ap (λ (z : ℕ × RoutePeerInfo). z.0) e))
node_ids-mem k x ((p, y) ∷ infos) (Memᴰ.tail m) v =
    let rest = node_ids-mem k x infos m v in
    elim (Bool-cases (y.version == 0)) [
      | inl t ↦ subst (Memᴰ k) (sym (if_true _ _ _ t)) rest
      | inr f ↦ subst (Memᴰ k) (sym (if_false _ _ _ f)) (Memᴰ.tail rest)
    ]

absent-index :
    (k idx : ℕ) (infos : Infos)
    → lookup ℕ_discrete k infos ≡ none
    → lookup ℕ_discrete k (index_from idx (node_ids infos)) ≡ none
unfolding lookup node_ids index_from
absent-index k idx [] e = refl
absent-index k idx ((p, x) ∷ infos) e = elim (ℕ_discrete k p) [
  | yes i ↦ absurd (none-ne-some x (sym e ∙ if_pos (ℕ_discrete k p) i _ _))
  | no n ↦
      let rest = sym (if_neg (ℕ_discrete k p) n (some x) (lookup ℕ_discrete k infos)) ∙ e in
      elim (Bool-cases (x.version == 0)) [
        | inl y ↦
            subst (λ l. lookup ℕ_discrete k (index_from idx l) ≡ none) (sym (if_true _ _ _ y))
              (absent-index k idx infos rest)
        | inr z ↦
            subst (λ l. lookup ℕ_discrete k (index_from idx l) ≡ none) (sym (if_false _ _ _ z))
              (if_neg (ℕ_discrete k p) n (some idx) _ ∙ absent-index k (idx + 1) infos rest)
      ]
]

pub index-IsUnique :
    (idx : ℕ) (infos : Infos)
    → IsUnique ℕ_discrete infos
    → IsUnique ℕ_discrete (index_from idx (node_ids infos))
unfolding node_ids index_from
index-IsUnique idx [] u = tt
index-IsUnique idx ((p, x) ∷ infos) (n, u) = elim (Bool-cases (x.version == 0)) [
  | inl y ↦
      subst (λ l. IsUnique ℕ_discrete (index_from idx l)) (sym (if_true _ _ _ y))
        (index-IsUnique idx infos u)
  | inr z ↦
      subst (λ l. IsUnique ℕ_discrete (index_from idx l)) (sym (if_false _ _ _ z))
        (absent-index p (idx + 1) infos n, index-IsUnique (idx + 1) infos u)
]

pub node_ids-IsDistinct : (infos : Infos) → IsUnique ℕ_discrete infos → IsDistinct (node_ids infos)
node_ids-IsDistinct infos u i j p a b =
    let unique = index-IsUnique 0 infos u in
    let at_i = lookup-mem ℕ_discrete p (0 + i) _ unique (index_from-get 0 p i (node_ids infos) a) in
    let at_j = lookup-mem ℕ_discrete p (0 + j) _ unique (index_from-get 0 p j (node_ids infos) b) in
    omega (arith, some-injective _ _ (sym at_i ∙ at_j))

-- The elements of a list are those at its places.
pub get-mem : (k : ℕ) (ps : List ℕ) → Memᴰ k ps → (j : ℕ) × (get_elem? ps j ≡ some k)
get-mem k [] m = elim m [ ]
get-mem k (p ∷ ps) (Memᴰ.head e) = (0, ap some (sym e))
get-mem k (p ∷ ps) (Memᴰ.tail m) = let (j, e) = get-mem k ps m in (suc j, e)

pub mem-get : (k j : ℕ) (ps : List ℕ) → get_elem? ps j ≡ some k → Memᴰ k ps
mem-get k j [] e = absurd (none-ne-some _ e)
mem-get k zero (p ∷ ps) e = Memᴰ.head (sym (some-injective _ _ e))
mem-get k (suc j) (p ∷ ps) e = Memᴰ.tail (mem-get k j ps e)

pub node_ids-length : (infos : List (ℕ × RoutePeerInfo)) → length (node_ids infos) ≤ length infos
unfolding node_ids
node_ids-length [] = omega arith
node_ids-length ((a, x) ∷ infos) = ground (arith, node_ids-length infos)

pub get_elem?-length : (l : List ℕ) (i a : ℕ) → get_elem? l i ≡ some a → i < length l
get_elem?-length [] i a e = absurd (none-ne-some _ e)
get_elem?-length (x ∷ l) zero a e = omega arith
get_elem?-length (x ∷ l) (suc i) a e = omega (arith, get_elem?-length l i a e)
