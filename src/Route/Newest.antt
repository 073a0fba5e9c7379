-- ===== src/Route/Newest.antt =====
-- Entries with versions: what is kept of those that are received for one key, where each is written if
-- there is none before it or it has a higher version.
use mathlib.Core.List.{lookup}
use mathlib.Core.Path.{subst}
use mathlib.Core.Logic.{if_neg}
use native.Mathlib.Omega.{arith}
use neo_easy_tier_deamon.Prelude.{
  ℕ, ◌≤◌, ◌<◌, ◌≡◌, refl, sym, ap, ◌∙◌, ◌⊎◌, inl, inr, List, Option, none, some, Bool, true, false,
  ltb, ltb→lt,
}
use neo_easy_tier_deamon.Prelude.Assoc.{put, lookup-put, lookup-put_self}

module _ {A : Type 0} (version : A → ℕ) where
  -- An entry of at least the version `v`.
  abbrev pub HasVersion : ℕ → Option A → Type 0
  HasVersion v o = (x : A) × (o ≡ some x) × (v ≤ version x)

  -- `new` is the old entry, unless one that is received has a higher version: then it is one of highest
  -- version among those.
  pub record IsNewest (IsReceived : A → Type 0) (old new : Option A) : Type 0 where
    pub origin :
        (new ≡ old)
        ⊎ ((x : A) × IsReceived x
            × (new ≡ some x)
            × ((y : A) → old ≡ some y → version y < version x))
    pub above : (x : A) → IsReceived x → HasVersion (version x) new
    pub above_old : (y : A) → old ≡ some y → HasVersion (version y) new

  pub none_received : (R : A → Type 0) (o : Option A) → ((x : A) → ¬ R x) → IsNewest R o o
  none_received R o h = record {
    origin = inl refl;
    above = λ x m. absurd (h x m);
    above_old = λ y e. (y, e, omega arith);
  }

  -- Entries that are received one after the other.
  pub then_received :
      (R S T : A → Type 0)
      → ((x : A) → R x → T x)
      → ((x : A) → S x → T x)
      → ((x : A) → T x → R x ⊎ S x)
      → (a b c : Option A) → IsNewest R a b
      → IsNewest S b c
      → IsNewest T a c
  then_received R S T r s split a b c h k = record {
    origin = elim k.origin [
      | inl e ↦ elim h.origin [ inl f ↦ inl (e ∙ f) | inr (y, m, f, l) ↦ inr (y, r y m, e ∙ f, l) ]
      | inr (y, m, f, l) ↦
          inr (y, s y m, f, λ z e. let (w, g, le) = h.above_old z e in omega (arith, l w g))
    ];
    above = λ y m. elim (split y m) [
      | inl q ↦
          let (w, g, le) = h.above y q in let (u, f, le') = k.above_old w g in (u, f, omega arith)
      | inr q ↦ k.above y q
    ];
    above_old = λ y e.
        let (w, g, le) = h.above_old y e in
        let (u, f, le') = k.above_old w g in (u, f, omega arith);
  }

  -- Whether an entry is written over `o`.
  unfoldable pub is_newer : A → Option A → Bool
  is_newer a none = true
  is_newer a (some old) = ltb (version old) (version a)

  is_newer_lt : (a y : A) (o : Option A) → is_newer a o ≡ true → o ≡ some y → version y < version a
  unfolding is_newer
  is_newer_lt a y o t e = ltb→lt (version y) (version a) (sym (ap (is_newer a) e) ∙ t)

  not_newer : (a : A) (o : Option A) → is_newer a o ≡ false → HasVersion (version a) o
  unfolding is_newer
  not_newer a none e = absurd (ground (arith, e))
  not_newer a (some y) e = (y, refl, ground (arith, e))

  module _ {K : Type 0} (dec : Discrete K) (k p : K) (a : A) (m : List (K × A)) where
    abbrev One : A → Type 0
    One x = (x ≡ a) × (k ≡ p)

    at_key :
        k ≡ p
        → is_newer a (lookup dec k m) ≡ true
        → IsNewest One (lookup dec p m) (lookup dec p (put dec k a m))
    at_key e y =
        let stored : lookup dec p (put dec k a m) ≡ some a =
          subst (λ q. lookup dec q (put dec k a m) ≡ some a) e (lookup-put_self dec k a m) in
        let newer : is_newer a (lookup dec p m) ≡ true =
          ap (λ q. is_newer a (lookup dec q m)) (sym e) ∙ y in
        record {
          origin = inr (a, (refl, e), stored, λ z l. is_newer_lt a z (lookup dec p m) newer l);
          above = λ x q. (a, stored, subst (λ z. version z ≤ version a) (sym q.0) (omega arith));
          above_old =
              λ z l. let lt = is_newer_lt a z (lookup dec p m) newer l in (a, stored, omega arith);
        }

    -- A newer entry is stored.
    pub store-IsNewest :
        is_newer a (lookup dec k m) ≡ true
        → IsNewest One (lookup dec p m) (lookup dec p (put dec k a m))
    store-IsNewest y = elim (dec k p) [
      | yes e ↦ at_key e y
      | no n ↦
          let kept : lookup dec p (put dec k a m) ≡ lookup dec p m =
            lookup-put dec k p a m ∙ if_neg (dec k p) n (some a) (lookup dec p m) in
          record {
            origin = inl kept;
            above = λ x q. absurd (n q.1);
            above_old = λ z l. (z, kept ∙ l, omega arith);
          }
    ]

    -- Another is not.
    pub keep-IsNewest :
        is_newer a (lookup dec k m) ≡ false → IsNewest One (lookup dec p m) (lookup dec p m)
    keep-IsNewest y = record {
      origin = inl refl;
      above = λ x q.
          let (z, f, le) =
            not_newer a (lookup dec p m) (ap (λ r. is_newer a (lookup dec r m)) (sym q.1) ∙ y) in
          (z, f, subst (λ w. version w ≤ version z) (sym q.0) le);
      above_old = λ z l. (z, l, omega arith);
    }
