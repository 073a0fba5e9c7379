-- ===== src/Prelude/Mem.antt =====
-- The elements of the list that `map` makes.
use mathlib.Core.Path.{◌≡◌, refl, sym, ap}
use mathlib.Core.List.{List, [], ◌∷◌, ◌++◌, map, Memᴰ}
use mathlib.Core.Logic.{◌⊎◌, inl, inr}

module _ {ℓ} {A B : Type ℓ} where
  pub mem-map : (f : A → B) (a : A) (l : List A) → Memᴰ a l → Memᴰ (f a) (map f l)
  mem-map f a [] m = elim m [ ]
  mem-map f a (x ∷ l) (Memᴰ.head e) = Memᴰ.head (ap f e)
  mem-map f a (x ∷ l) (Memᴰ.tail m) = Memᴰ.tail (mem-map f a l m)

  pub mem-of_map :
      (f : A → B) (b : B) (l : List A) → Memᴰ b (map f l) → (a : A) × Memᴰ a l × (f a ≡ b)
  mem-of_map f b [] m = elim m [ ]
  mem-of_map f b (x ∷ l) (Memᴰ.head e) = (x, Memᴰ.head refl, sym e)
  mem-of_map f b (x ∷ l) (Memᴰ.tail m) = let (a, n, e) = mem-of_map f b l m in (a, Memᴰ.tail n, e)

module _ {ℓ} {A : Type ℓ} where
  pub mem-append_left : (a : A) (l k : List A) → Memᴰ a l → Memᴰ a (l ++ k)
  mem-append_left a [] k m = elim m [ ]
  mem-append_left a (x ∷ l) k (Memᴰ.head e) = Memᴰ.head e
  mem-append_left a (x ∷ l) k (Memᴰ.tail m) = Memᴰ.tail (mem-append_left a l k m)

  pub mem-append_right : (a : A) (l k : List A) → Memᴰ a k → Memᴰ a (l ++ k)
  mem-append_right a [] k m = m
  mem-append_right a (x ∷ l) k m = Memᴰ.tail (mem-append_right a l k m)

  pub mem-of_append : (a : A) (l k : List A) → Memᴰ a (l ++ k) → Memᴰ a l ⊎ Memᴰ a k
  mem-of_append a [] k m = inr m
  mem-of_append a (x ∷ l) k (Memᴰ.head e) = inl (Memᴰ.head e)
  mem-of_append a (x ∷ l) k (Memᴰ.tail m) = elim (mem-of_append a l k m) [
    | inl h ↦ inl (Memᴰ.tail h)
    | inr t ↦ inr t
  ]
