-- ===== src/Prelude/Assoc.antt =====
-- Hash maps as association lists, over the library's `lookup`: an insertion replaces the value of
-- a key that is there.
use mathlib.Core.List.{List, [], ◌∷◌, lookup, Memᴰ}
use mathlib.Core.Logic.{if_pos, if_neg}
use mathlib.Core.Logic.{ite}
use mathlib.Core.Option.{none, some, none-ne-some, some-injective}
use mathlib.Core.Path.{◌≡◌, refl, ap, ap₂, sym, ◌∙◌}
use native.Mathlib.Omega.{arith}

module _ {ℓ} {K V : Type ℓ} (dec : Discrete K) where
  unfoldable pub put : K → V → List (K × V) → List (K × V)
  put k v [] = (k, v) ∷ []
  put k v ((j, w) ∷ m) = let rest = put k v m in ite (dec j k) ((k, v) ∷ m) ((j, w) ∷ rest)

  unfoldable pub remove : K → List (K × V) → List (K × V)
  remove k [] = []
  remove k ((j, w) ∷ m) = let rest = remove k m in ite (dec j k) rest ((j, w) ∷ rest)

  pub lookup-put :
      (k j : K) (v : V) (m : List (K × V))
      → lookup dec j (put k v m) ≡ ite (dec k j) (some v) (lookup dec j m)
  unfolding lookup put
  lookup-put k j v [] = ground arith
  lookup-put k j v ((i, w) ∷ m) = ground (arith, lookup-put k j v m)

  pub lookup-remove :
      (k j : K) (m : List (K × V)) → lookup dec j (remove k m) ≡ ite (dec k j) none (lookup dec j m)
  unfolding lookup remove
  lookup-remove k j [] = ground arith
  lookup-remove k j ((i, w) ∷ m) = ground (arith, lookup-remove k j m)

  pub lookup-put_self : (k : K) (v : V) (m : List (K × V)) → lookup dec k (put k v m) ≡ some v
  lookup-put_self k v m = rw (lookup-put k k v m) (ground arith)

  -- No key stands twice.
  abbrev pub IsUnique : List (K × V) → Type ℓ
  IsUnique [] = Unit
  IsUnique ((k, v) ∷ m) = (lookup dec k m ≡ none) × IsUnique m

  pub put-IsUnique : (k : K) (v : V) (m : List (K × V)) → IsUnique m → IsUnique (put k v m)
  unfolding put lookup
  put-IsUnique k v [] u = (refl, tt)
  put-IsUnique k v ((j, w) ∷ m) (n, u) =
      elim (dec j k) as (λ d. IsUnique (ite d ((k, v) ∷ m) ((j, w) ∷ put k v m))) [
        | yes e ↦ (ap (λ i. lookup dec i m) (sym e) ∙ n, u)
        | no d ↦ (ground (arith, lookup-put k j v m), put-IsUnique k v m u)
      ]

  pub lookup-mem :
      (k : K) (v : V) (m : List (K × V)) → IsUnique m → Memᴰ (k, v) m → lookup dec k m ≡ some v
  unfolding lookup
  lookup-mem k v [] u h = elim h [ ]
  lookup-mem k v ((j, w) ∷ m) (n, u) (Memᴰ.head e) =
      if_pos (dec k j) (ap (λ (x : K × V). x.0) e) _ (lookup dec k m)
      ∙ ap some (sym (ap (λ (x : K × V). x.1) e))
  lookup-mem k v ((j, w) ∷ m) (n, u) (Memᴰ.tail h) =
      let rest = lookup-mem k v m u h in
      if_neg (dec k j) (λ e. none-ne-some _ (sym n ∙ (ap (λ x. lookup dec x m) (sym e) ∙ rest)))
        (some w) _
      ∙ rest

  pub mem-lookup : (k : K) (v : V) (m : List (K × V)) → lookup dec k m ≡ some v → Memᴰ (k, v) m
  unfolding lookup
  mem-lookup k v [] h = absurd (ground arith)
  mem-lookup k v ((j, w) ∷ m) h =
      elim (dec k j) as (λ d. ite d (some w) (lookup dec k m) ≡ some v → Memᴰ (k, v) ((j, w) ∷ m)) [
        | yes e ↦ λ l. Memᴰ.head (ap₂ (λ x y. (x, y)) e (sym (some-injective w v l)))
        | no n ↦ λ l. Memᴰ.tail (mem-lookup k v m l)
      ]
        h
