-- ===== src/Prelude/Text.antt =====
-- Texts as lists of the bytes of their UTF-8 form, with the methods of Rust's `str` that the
-- program calls.
use Prim.Native.String.{String}
use Prim.Native.Char.{code}
use mathlib.Core.List.{reverse, reverse-append, reverse-reverse}
use Prim.Native.Nat.{ℕ}
use mathlib.Core.Path.{◌≡◌, refl, ap, ap₂, sym}
use native.Mathlib.Decide.{ℕ_discrete}
use mathlib.Core.Bool.{Bool, true, false}
use mathlib.Core.Option.{Option, none, some}
use mathlib.Core.Logic.{◌↔◌}
use mathlib.Core.List.{List, [], ◌∷◌, ◌++◌}
use native.Mathlib.Omega.{arith}
use neo_easy_tier_deamon.Prelude.Tests.{◌==◌, if◌then◌else◌, ==_refl}
pub mod Decimal

abbrev pub Text : Type 0
Text = List ℕ

-- The bytes of a literal (which is ASCII).
abbrev pub codes : String → Text
codes String.[] = []
codes (String.◌∷◌ c s) = code c ∷ codes s

unfoldable pub strip_prefix : Text → Text → Option Text
strip_prefix [] s = some s
strip_prefix (c ∷ p) [] = none
strip_prefix (c ∷ p) (d ∷ s) = let rest = strip_prefix p s in if c == d then rest else none

abbrev map_some {ℓ κ} : {A : Type ℓ} {B : Type κ} → (A → B) → Option A → Option B
map_some f none = none
map_some f (some a) = some (f a)

unfoldable pub strip_suffix : Text → Text → Option Text
unfolding strip_prefix
strip_suffix p s = map_some reverse (strip_prefix (reverse p) (reverse s))

-- The part before the first `c`, and the part after it.
unfoldable pub split_once : ℕ → Text → Option (Text × Text)
split_once c [] = none
split_once c (d ∷ s) =
    let rest = split_once c s in
    if c == d then some ([], s) else map_some (λ r. (d ∷ r.0, r.1)) rest

pub strip_prefix-append : (p s : Text) → strip_prefix p (p ++ s) ≡ some s
unfolding strip_prefix
strip_prefix-append [] s = refl
strip_prefix-append (c ∷ p) s = rw (==_refl c) (strip_prefix-append p s)

pub strip_suffix-append : (p s : Text) → strip_suffix p (s ++ p) ≡ some s
unfolding strip_suffix
strip_suffix-append p s =
    rw (reverse-append s p)
      (rw (strip_prefix-append (reverse p) (reverse s)) (ap some (reverse-reverse s)))

unfoldable pub text_eq : Text → Text → Bool
text_eq [] [] = true
text_eq (c ∷ s) (d ∷ t) = let rest = text_eq s t in if c == d then rest else false
text_eq [] (d ∷ t) = false
text_eq (c ∷ s) [] = false

pub text_eq_iff : (s t : Text) → (text_eq s t ≡ true) ↔ (s ≡ t)
unfolding text_eq
text_eq_iff [] [] = ground arith
text_eq_iff (c ∷ s) (d ∷ t) = ground (arith, text_eq_iff s t)
text_eq_iff [] (d ∷ t) = ground arith
text_eq_iff (c ∷ s) [] = ground arith

pub cons_ne_nil : (c : ℕ) (s : Text) → ¬ ((c ∷ s) ≡ [])
cons_ne_nil c s e = ground (arith, e)

pub cons_head : (c d : ℕ) (s t : Text) → (c ∷ s) ≡ (d ∷ t) → c ≡ d
cons_head c d s t e = ground (arith, e)

pub cons_tail : (c d : ℕ) (s t : Text) → (c ∷ s) ≡ (d ∷ t) → s ≡ t
cons_tail c d s t e = ground (arith, e)

unfoldable pub decide_cons :
    (c d : ℕ) (s t : Text) → Dec (c ≡ d) → Dec (s ≡ t) → Dec ((c ∷ s) ≡ (d ∷ t))
decide_cons c d s t (yes e) (yes f) = yes (ap₂ (λ x l. x ∷ l) e f)
decide_cons c d s t (yes e) (no f) = no (λ h. f (cons_tail c d s t h))
decide_cons c d s t (no e) f = no (λ h. e (cons_head c d s t h))

unfoldable pub text_discrete : Discrete Text
unfolding decide_cons
text_discrete [] [] = yes refl
text_discrete [] (d ∷ t) = no (λ h. cons_ne_nil d t (sym h))
text_discrete (c ∷ s) [] = no (cons_ne_nil c s)
text_discrete (c ∷ s) (d ∷ t) = decide_cons c d s t (ℕ_discrete c d) (text_discrete s t)

-- `s.contains(p)`: the text `p` begins at some place of `s`.
unfoldable pub contains : Text → Text → Bool
unfolding strip_prefix
contains p [] = elim (strip_prefix p []) [ none ↦ false | some _ ↦ true ]
contains p (c ∷ s) =
    let rest = contains p s in elim (strip_prefix p (c ∷ s)) [ none ↦ rest | some _ ↦ true ]
