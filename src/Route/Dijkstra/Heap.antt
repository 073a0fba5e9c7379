-- ===== src/Route/Dijkstra/Heap.antt =====
-- A heap as a list, of which `pop` takes the first of the greatest entries.
use mathlib.Core.List.{Memᴰ}
use mathlib.Core.List.Memᴰ
use Prim.Native.Nat.{Ordering}
use mathlib.Core.Path.{subst}
use native.Mathlib.Omega.{arith}
use neo_easy_tier_deamon.Prelude.{
  ◌≤◌, ◌<◌, ◌≢◌, refl, sym, inl, inr, if◌then◌else◌, List, [], ◌∷◌, Option, none, some, Bool-cases,
  if_true, if_false, ltb,
}
use neo_easy_tier_deamon.Route.Dijkstra.{MinScored, BinaryHeap, IsPopped, Pops, cmp}

less_first : MinScored → List MinScored → MinScored × List MinScored → MinScored × List MinScored
less_first x xs r = if ltb r.0.score x.score then (r.0, x ∷ r.1) else (x, xs)

pop_nonempty : MinScored → List MinScored → MinScored × List MinScored
unfolding less_first
pop_nonempty x [] = (x, [])
pop_nonempty x (y ∷ ys) = less_first x (y ∷ ys) (pop_nonempty y ys)

unfoldable pub pop_first : List MinScored → Option (MinScored × List MinScored)
unfolding pop_nonempty
pop_first [] = none
pop_first (x ∷ xs) = some (pop_nonempty x xs)

cmp_ge : (m e : MinScored) → m.score ≤ e.score → cmp m e ≢ Ordering.lt
unfolding cmp
cmp_ge m e h = ground arith

cmp_le : (m e : MinScored) → cmp m e ≢ Ordering.lt → m.score ≤ e.score
unfolding cmp
cmp_le m e h = ground arith

abbrev PopsTo : List MinScored → MinScored × List MinScored → Type 0
PopsTo h r = IsPopped h r.0 r.1

only_one : (x : MinScored) → PopsTo (x ∷ []) (x, [])
only_one x = record {
  member = Memᴰ.head refl;
  kept = λ e m. absurd (Memᴰ.not-nil m);
  split = λ e m n. absurd (n (Memᴰ.eq_of_singleton m));
  size = refl;
  greatest = λ e m.
      cmp_ge x e
        (subst (λ (y : MinScored). x.score ≤ y.score) (sym (Memᴰ.eq_of_singleton m)) (omega arith));
}

later_one :
    (x : MinScored) (xs : List MinScored) (r : MinScored × List MinScored)
    → r.0.score < x.score
    → PopsTo xs r
    → PopsTo (x ∷ xs) (r.0, x ∷ r.1)
later_one x xs r lt p = record {
  member = Memᴰ.tail p.member;
  kept = λ e m. elim m [ Memᴰ.head i ↦ Memᴰ.head i | Memᴰ.tail j ↦ Memᴰ.tail (p.kept e j) ];
  split = λ e m n. elim m [ Memᴰ.head i ↦ Memᴰ.head i | Memᴰ.tail j ↦ Memᴰ.tail (p.split e j n) ];
  size = omega (arith, p.size);
  greatest = λ e m. elim m [
    | Memᴰ.head i ↦
        cmp_ge r.0 e (subst (λ (y : MinScored). r.0.score ≤ y.score) (sym i) (omega arith))
    | Memᴰ.tail j ↦ p.greatest e j
  ];
}

first_one :
    (x : MinScored) (xs : List MinScored) (r : MinScored × List MinScored)
    → x.score ≤ r.0.score
    → PopsTo xs r
    → PopsTo (x ∷ xs) (x, xs)
first_one x xs r le p = record {
  member = Memᴰ.head refl;
  kept = λ e m. Memᴰ.tail m;
  split = λ e m n. elim m [ Memᴰ.head i ↦ absurd (n i) | Memᴰ.tail j ↦ j ];
  size = refl;
  greatest = λ e m. elim m [
    | Memᴰ.head i ↦ cmp_ge x e (subst (λ (y : MinScored). x.score ≤ y.score) (sym i) (omega arith))
    | Memᴰ.tail j ↦ cmp_ge x e (omega (arith, cmp_le r.0 e (p.greatest e j)))
  ];
}

pop_nonempty_lem : (x : MinScored) (xs : List MinScored) → PopsTo (x ∷ xs) (pop_nonempty x xs)
unfolding pop_nonempty less_first
pop_nonempty_lem x [] = only_one x
pop_nonempty_lem x (y ∷ ys) =
    let r = pop_nonempty y ys in
    let p = pop_nonempty_lem y ys in
    elim (Bool-cases (ltb r.0.score x.score)) [
      | inl lt ↦
          subst (PopsTo (x ∷ y ∷ ys)) (sym (if_true _ _ _ lt))
            (later_one x (y ∷ ys) r (ground arith) p)
      | inr ge ↦
          subst (PopsTo (x ∷ y ∷ ys)) (sym (if_false _ _ _ ge))
            (first_one x (y ∷ ys) r (ground arith) p)
    ]

pub pop_first_lem : (h : List MinScored) → Pops h (pop_first h)
unfolding pop_first
pop_first_lem [] = refl
pop_first_lem (x ∷ xs) = pop_nonempty_lem x xs

abbrev pub list_heap : BinaryHeap
list_heap = record { pop = pop_first; pop_lem = pop_first_lem }
