-- ===== src/Acl/Process/Decide.antt =====
-- Which rule of a configuration decides (easytier/src/common/acl_processor.rs).
use mathlib.Core.Path.{subst}
use mathlib.Core.Logic.{ite}
use neo_easy_tier_deamon.Prelude.{
  ℕ, ◌+◌, ◌≡◌, ◌≢◌, ◌∙◌, sym, refl, true, ◌||◌, not, Option, none, some, List, [], ◌∷◌, ◌++◌, inl,
  inr, ◌⊎◌, Bool-cases, Option-cases, if_true, if_false,
}
use neo_easy_tier_deamon.Acl.{
  ChainType, ChainType-discrete, inbound, outbound, forward, unspecified_chain, CidrLib, Chain,
  FastLookupRule, PacketInfo,
}
use neo_easy_tier_deamon.Acl.Rules.{rule_matches, rules_of_chain, build_chains, build_rules}
use neo_easy_tier_deamon.Acl.Entry.{Config, config_of, rule_result, default_result}
use neo_easy_tier_deamon.Acl.Process.Verdict.{find_rule, verdict, verdict_of}
use neo_easy_tier_deamon.Acl.Process.Highest.{
  IsPassed, Decides, AllPassed, found_IsHighest, none_IsPassed,
}

module _ {V4 V6 : Type 0} (cfg : Config V4 V6) where
  find_rule-append_some :
      (xs ys : List (FastLookupRule V4 V6)) (n : ℕ) (p : PacketInfo) (x : FastLookupRule V4 V6 × ℕ)
      → find_rule cfg xs n p ≡ some x
      → find_rule cfg (xs ++ ys) n p ≡ some x
  unfolding find_rule
  find_rule-append_some [] ys n p x e = absurd cc
  find_rule-append_some (y ∷ xs) ys n p x e =
      elim (Bool-cases (not y.enabled || not (rule_matches cfg.lib y p))) [
        | inl skip ↦
            if_true _ _ _ skip
            ∙ find_rule-append_some xs ys (n + 1) p x (sym (if_true _ _ _ skip) ∙ e)
        | inr take ↦ if_false _ _ _ take ∙ (sym (if_false _ _ _ take) ∙ e)
      ]

  find_rule-append_none :
      (xs ys : List (FastLookupRule V4 V6)) (n : ℕ) (p : PacketInfo)
      → find_rule cfg xs n p ≡ none
      → (m : ℕ) × (find_rule cfg (xs ++ ys) n p ≡ find_rule cfg ys m p)
  unfolding find_rule
  find_rule-append_none [] ys n p e = (n, refl)
  find_rule-append_none (y ∷ xs) ys n p e =
      elim (Bool-cases (not y.enabled || not (rule_matches cfg.lib y p))) [
        | inl skip ↦
            let (m, same) = find_rule-append_none xs ys (n + 1) p (sym (if_true _ _ _ skip) ∙ e) in
            (m, if_true _ _ _ skip ∙ same)
        | inr take ↦ absurd (cc (sym (if_false _ _ _ take) ∙ e))
      ]

  -- What is known of the rule that was found, or of all chains where none was.
  abbrev Outcome : ChainType → PacketInfo → List Chain → Option (FastLookupRule V4 V6 × ℕ) → Type 0
  Outcome t p cs none = AllPassed cfg t p cs
  Outcome t p cs (some (r, k)) = Decides cfg t p r cs

  Outcome-later :
      (t : ChainType) (p : PacketInfo) (c : Chain) (cs : List Chain)
      (o : Option (FastLookupRule V4 V6 × ℕ))
      → IsPassed cfg t p c
      → Outcome t p cs o
      → Outcome t p (c ∷ cs) o
  Outcome-later t p c cs none passed h = (passed, h)
  Outcome-later t p c cs (some (r, k)) passed h = Decides.later passed h

  -- Of a chain that counts for the type.
  chain-Outcome :
      (t : ChainType) (c : Chain) (cs : List Chain) (n : ℕ) (p : PacketInfo)
      → c.enabled ≡ true
      → c.chain_type ≡ t
      → ((m : ℕ) → Outcome t p cs (find_rule cfg (build_chains cfg.lib t cs) m p))
      → Outcome t p
          (c ∷ cs)
          (find_rule cfg (rules_of_chain cfg.lib c ++ build_chains cfg.lib t cs) n p)
  chain-Outcome t c cs n p on same ih =
      elim (Option-cases (find_rule cfg (rules_of_chain cfg.lib c) n p)) [
        | inl e ↦
            let (m, eq) =
              find_rule-append_none (rules_of_chain cfg.lib c) (build_chains cfg.lib t cs) n p e in
            subst (Outcome t p (c ∷ cs)) (sym eq) (
              Outcome-later t p c cs (find_rule cfg (build_chains cfg.lib t cs) m p)
                (λ on' same'. none_IsPassed cfg c p n e) (ih m))
        | inr ((r, k), e) ↦
            subst (Outcome t p (c ∷ cs))
              (sym (
                find_rule-append_some (rules_of_chain cfg.lib c) (build_chains cfg.lib t cs) n p
                  (r, k) e))
              (Decides.here on same (found_IsHighest cfg c p r n k e))
      ]

  build_chains-Outcome :
      (t : ChainType) (cs : List Chain) (n : ℕ) (p : PacketInfo)
      → Outcome t p cs (find_rule cfg (build_chains cfg.lib t cs) n p)
  unfolding build_chains find_rule
  build_chains-Outcome t [] n p = tt
  build_chains-Outcome t (c ∷ cs) n p =
      let rest = build_chains cfg.lib t cs in
      let later = λ (passed : IsPassed cfg t p c).
        Outcome-later t p c cs (find_rule cfg rest n p) passed (build_chains-Outcome t cs n p) in
      let At : List (FastLookupRule V4 V6) → Type 0 =
        λ l. Outcome t p (c ∷ cs) (find_rule cfg l n p) in
      elim (Bool-cases c.enabled) [
        | inl on ↦
            subst At (sym (if_true _ _ _ on))
              (elim (ChainType-discrete c.chain_type t)
                as (λ d. At (ite d (rules_of_chain cfg.lib c ++ rest) rest)) [
                  | yes same ↦ chain-Outcome t c cs n p on same (λ m. build_chains-Outcome t cs m p)
                  | no ne ↦ later (λ on' same. absurd (ne same))
                ])
        | inr off ↦ subst At (sym (if_false _ _ _ off)) (later (λ on. absurd (cc (on, off))))
      ]

module _ {V4 V6 : Type 0} (lib : CidrLib V4 V6) where
  abbrev pub config_with : List Chain → Config V4 V6
  config_with cs = config_of lib (record { chains = some cs })

  decided :
      (cs : List Chain) (p : PacketInfo) (c : ChainType) (o : Option (FastLookupRule V4 V6 × ℕ))
      → Outcome (config_with cs) c p cs o
      → ((r : FastLookupRule V4 V6) × Decides (config_with cs) c p r cs
          × (verdict_of (config_with cs) o p c ≡ rule_result (config_with cs) r p))
        ⊎ (AllPassed (config_with cs) c p cs
            × (verdict_of (config_with cs) o p c ≡ default_result (config_with cs) c))
  decided cs p c none h = inr (h, refl)
  decided cs p c (some (r, k)) h = inl (r, h, refl)

  -- For a chain type that is specified, the verdict on a packet is the result of a rule of the
  -- first enabled chain of this type that has an enabled rule matching the packet, and no enabled
  -- rule of this chain that matches has a higher priority; or, where no enabled chain of this type
  -- has an enabled rule that matches, it is the result of the default action.
  pub verdict-decided :
      (cs : List Chain) (p : PacketInfo) (c : ChainType)
      → c ≢ unspecified_chain
      → ((r : FastLookupRule V4 V6) × Decides (config_with cs) c p r cs
          × (verdict (config_with cs) p c ≡ rule_result (config_with cs) r p))
        ⊎ (AllPassed (config_with cs) c p cs
            × (verdict (config_with cs) p c ≡ default_result (config_with cs) c))
  unfolding config_of build_rules
  verdict-decided cs p unspecified_chain sup = absurd (sup refl)
  verdict-decided cs p inbound sup =
      decided cs p inbound _ (build_chains-Outcome (config_with cs) inbound cs 0 p)
  verdict-decided cs p outbound sup =
      decided cs p outbound _ (build_chains-Outcome (config_with cs) outbound cs 0 p)
  verdict-decided cs p forward sup =
      decided cs p forward _ (build_chains-Outcome (config_with cs) forward cs 0 p)
