-- ===== src/Acl/Process/Highest.antt =====
-- Which rule of a chain is found first (easytier/src/common/acl_processor.rs).
use mathlib.Core.List.{Memᴰ}
use mathlib.Core.List.Memᴰ
use mathlib.Core.Path.{subst}
use native.Mathlib.Nat.{le_refl}
use neo_easy_tier_deamon.Prelude.{
  ℕ, ◌+◌, ◌≤◌, ◌≡◌, refl, true, false, ◌||◌, not, none, some, List, [], ◌∷◌, if◌then◌else◌, arith,
  inl, inr, Bool-cases,
}
use neo_easy_tier_deamon.Acl.{ChainType, Rule, Chain, FastLookupRule, PacketInfo}
use neo_easy_tier_deamon.Acl.Rules.{rule_matches, convert_to_fast_lookup_rule, rules_of_chain}
use neo_easy_tier_deamon.Acl.Rules.Sorted.{
  AllBelow, IsSorted, Enabled, from_rules_of_chain, to_rules_of_chain, rules_of_chain-IsSorted,
}
use neo_easy_tier_deamon.Acl.Entry.{Config}
use neo_easy_tier_deamon.Acl.Process.Verdict.{find_rule}

module _ {V4 V6 : Type 0} (cfg : Config V4 V6) where
  -- What is known of a rule that was found.
  record IsFound (rules : List (FastLookupRule V4 V6)) (p : PacketInfo) (r : FastLookupRule V4 V6)
      : Type 0 where
    there : Memᴰ r rules
    enabled : r.enabled ≡ true
    matches : rule_matches cfg.lib r p ≡ true
    highest :
        IsSorted cfg.lib rules
        → (x : FastLookupRule V4 V6) → Memᴰ x rules
        → x.enabled ≡ true
        → rule_matches cfg.lib x p ≡ true
        → x.priority ≤ r.priority

  AllBelow-Mem :
      (n : ℕ) (x : FastLookupRule V4 V6) (xs : List (FastLookupRule V4 V6))
      → AllBelow cfg.lib n xs
      → Memᴰ x xs
      → x.priority ≤ n
  AllBelow-Mem n x [] h m = absurd (Memᴰ.not-nil m)
  AllBelow-Mem n x (y ∷ ys) (h, rest) m = elim (Memᴰ.cases_cons m) [
    | inl e ↦ rw e h
    | inr m' ↦ AllBelow-Mem n x ys rest m'
  ]

  hit_passes :
      (x : FastLookupRule V4 V6) (p : PacketInfo)
      → x.enabled ≡ true
      → rule_matches cfg.lib x p ≡ true
      → (not x.enabled || not (rule_matches cfg.lib x p)) ≡ false
  hit_passes x p on fits = ground arith

  passes_hit :
      (x : FastLookupRule V4 V6) (p : PacketInfo)
      → (not x.enabled || not (rule_matches cfg.lib x p)) ≡ false
      → (x.enabled ≡ true) × (rule_matches cfg.lib x p ≡ true)
  passes_hit x p e = ground arith

  first_IsFound :
      (x : FastLookupRule V4 V6) (xs : List (FastLookupRule V4 V6)) (p : PacketInfo)
      → (x.enabled ≡ true) × (rule_matches cfg.lib x p ≡ true)
      → IsFound (x ∷ xs) p x
  first_IsFound x xs p (on, fits) = record {
    there = Memᴰ.head refl;
    enabled = on;
    matches = fits;
    highest = λ sorted z m on' fits'. elim (Memᴰ.cases_cons m) [
      | inl e ↦ rw e (le_refl x.priority)
      | inr m' ↦ AllBelow-Mem x.priority z xs sorted.0 m'
    ];
  }

  find_rule-IsFound :
      (rules : List (FastLookupRule V4 V6)) (n k : ℕ) (p : PacketInfo) (r : FastLookupRule V4 V6)
      → find_rule cfg rules n p ≡ some (r, k)
      → IsFound rules p r
  unfolding find_rule
  find_rule-IsFound [] n k p r e = absurd cc
  find_rule-IsFound (x ∷ xs) n k p r e =
      elim (Bool-cases (not x.enabled || not (rule_matches cfg.lib x p))) [
        | inl y ↦
            let f = find_rule-IsFound xs (n + 1) k p r (rw y at e) in
            record {
              there = Memᴰ.tail f.there;
              enabled = f.enabled;
              matches = f.matches;
              highest = λ sorted z m on fits. elim (Memᴰ.cases_cons m) [
                | inl e ↦ let q = hit_passes z p on fits in absurd cc
                | inr m' ↦ f.highest sorted.1 z m' on fits
              ];
            }
        | inr y ↦
            let same : x ≡ r = cc (
              subst (λ b. (if b then find_rule cfg xs (n + 1) p else some (x, n)) ≡ some (r, k)) y
                e) in
            subst (λ r. IsFound (x ∷ xs) p r) same (first_IsFound x xs p (passes_hit x p y))
      ]

  find_rule-none :
      (rules : List (FastLookupRule V4 V6)) (n : ℕ) (p : PacketInfo) (x : FastLookupRule V4 V6)
      → find_rule cfg rules n p ≡ none
      → Memᴰ x rules
      → x.enabled ≡ true
      → rule_matches cfg.lib x p ≡ true
      → ⊥
  unfolding find_rule
  find_rule-none [] n p x e m on fits = Memᴰ.not-nil m
  find_rule-none (y ∷ ys) n p x e m on fits =
      elim (Bool-cases (not y.enabled || not (rule_matches cfg.lib y p))) [
        | inl skip ↦ elim (Memᴰ.cases_cons m) [
          | inl same ↦ let q = hit_passes x p on fits in cc
          | inr m' ↦ find_rule-none ys (n + 1) p x (rw skip at e) m' on fits
        ]
        | inr take ↦
            cc (subst (λ b. (if b then find_rule cfg ys (n + 1) p else some (y, n)) ≡ none) take e)
      ]

  -- An enabled rule of a chain that matches a packet.
  abbrev pub Applies : Chain → PacketInfo → Rule → Type 0
  Applies c p q =
      Enabled cfg.lib c q × (rule_matches cfg.lib (convert_to_fast_lookup_rule cfg.lib q) p ≡ true)

  -- A rule of a chain that applies, and none that applies has a higher priority.
  pub record IsHighest (c : Chain) (p : PacketInfo) (r : FastLookupRule V4 V6) : Type 0 where
    pub rule : Rule
    pub applies : Applies c p rule
    pub converted : r ≡ convert_to_fast_lookup_rule cfg.lib rule
    pub highest : (q : Rule) → Applies c p q → q.priority ≤ rule.priority

  -- A chain is passed where it is disabled, is of another type, or has no rule that applies.
  abbrev pub IsPassed : ChainType → PacketInfo → Chain → Type 0
  IsPassed t p c = c.enabled ≡ true → c.chain_type ≡ t → (q : Rule) → Applies c p q → ⊥

  pub data Decides (t : ChainType) (p : PacketInfo) (r : FastLookupRule V4 V6)
      : List Chain → Type 0 where
    here :
        {c : Chain} {cs : List Chain}
        → c.enabled ≡ true
        → c.chain_type ≡ t
        → IsHighest c p r
        → Decides t p r (c ∷ cs)
    later :
        {c : Chain} {cs : List Chain} → IsPassed t p c → Decides t p r cs → Decides t p r (c ∷ cs)

  abbrev pub AllPassed : ChainType → PacketInfo → List Chain → Type 0
  AllPassed t p [] = Unit
  AllPassed t p (c ∷ cs) = IsPassed t p c × AllPassed t p cs

  pub found_IsHighest :
      (c : Chain) (p : PacketInfo) (r : FastLookupRule V4 V6) (n k : ℕ)
      → find_rule cfg (rules_of_chain cfg.lib c) n p ≡ some (r, k)
      → IsHighest c p r
  unfolding convert_to_fast_lookup_rule
  found_IsHighest c p r n k e =
      let f = find_rule-IsFound (rules_of_chain cfg.lib c) n k p r e in
      let (q, on, conv) = from_rules_of_chain cfg.lib r c f.there in
      record {
        rule = q;
        applies = (on, subst (λ x. rule_matches cfg.lib x p ≡ true) conv f.matches);
        converted = conv;
        highest = λ q' (on', fits).
            subst (λ (x : FastLookupRule V4 V6). q'.priority ≤ x.priority) conv
              (f.highest (rules_of_chain-IsSorted cfg.lib c)
                (convert_to_fast_lookup_rule cfg.lib q') (to_rules_of_chain cfg.lib q' c on') on'.1
                fits);
      }

  pub none_IsPassed :
      (c : Chain) (p : PacketInfo) (n : ℕ)
      → find_rule cfg (rules_of_chain cfg.lib c) n p ≡ none
      → (q : Rule) → Applies c p q
      → ⊥
  unfolding convert_to_fast_lookup_rule
  none_IsPassed c p n e q (on, fits) =
      find_rule-none (rules_of_chain cfg.lib c) n p (convert_to_fast_lookup_rule cfg.lib q) e
        (to_rules_of_chain cfg.lib q c on) on.1 fits
