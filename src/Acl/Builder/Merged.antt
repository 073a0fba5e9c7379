-- ===== src/Acl/Builder/Merged.antt =====
-- A whitelist beside the chains of a configuration (easytier/src/common/acl_processor.rs).
use mathlib.Core.Logic.{if_pos}
use neo_easy_tier_deamon.Prelude.{
  ◌≡◌, ◌≢◌, ◌∙◌, sym, ap, inl, inr, Option, none, some, List, [], ◌∷◌, ◌++◌,
}
use neo_easy_tier_deamon.Prelude.Text.{Text}
use neo_easy_tier_deamon.Acl.{
  ChainType, ChainType-discrete, inbound, unspecified_chain, CidrLib, Rule, Chain, Acl, PacketInfo,
  AclResult, FastLookupRule,
}
use neo_easy_tier_deamon.Acl.Rules.{default_of_chains, build_default_action}
use neo_easy_tier_deamon.Acl.Entry.{Config, config_of, default_result}
use neo_easy_tier_deamon.Acl.Process.Verdict.{verdict}
use neo_easy_tier_deamon.Acl.Process.Highest.{Decides, here, later, AllPassed}
use neo_easy_tier_deamon.Acl.Process.Decide.{config_with, verdict-decided}
use neo_easy_tier_deamon.Acl.Builder.{
  inbound_chain, tcp_rule, udp_rule, append_rules, rules_for, build,
}

abbrev chains_of : Option Acl → List Chain
chains_of none = []
chains_of (some acl) = elim acl.chains [ none ↦ [] | some cs ↦ cs ]

abbrev chains_in : Option (Option Acl) → List Chain
chains_in none = []
chains_in (some o) = chains_of o

default_of_chains-first :
    (t : ChainType) (c : Chain) (cs : List Chain)
    → c.chain_type ≡ t
    → default_of_chains t (c ∷ cs) ≡ c.default_action
unfolding default_of_chains
default_of_chains-first t c cs e =
    if_pos (ChainType-discrete c.chain_type t) e c.default_action (default_of_chains t cs)

append_rules-first :
    (c : Chain) (cs cs' : List Chain) (x y : Option (List Rule))
    → append_rules (some (record { chains = some (c ∷ cs) })) x y
      ≡ some (some (record { chains = some cs' }))
    → (rest : List Chain) × (c ∷ rest ≡ cs')
append_rules-first c cs cs' none y e = absurd cc
append_rules-first c cs cs' (some ts) none e = absurd cc
append_rules-first c cs cs' (some ts) (some us) e =
    (cs ++ inbound_chain (ts ++ us) ∷ [], ap chains_in e)

build-first :
    (c : Chain) (cs cs' : List Chain) (tcp_list udp_list : List Text)
    → build (some (record { chains = some (c ∷ cs) })) tcp_list udp_list
      ≡ some (some (record { chains = some cs' }))
    → (rest : List Chain) × (c ∷ rest ≡ cs')
unfolding build
build-first c cs cs' [] [] e = (cs, ap chains_in e)
build-first c cs cs' (s ∷ ss) us e = append_rules-first c cs cs' _ _ e
build-first c cs cs' [] (u ∷ us) e =
    append_rules-first c cs cs' (rules_for (tcp_rule 1000) []) (rules_for (udp_rule 1000) (u ∷ us))
      e

module _ {V4 V6 : Type 0} (cfg : Config V4 V6) where
  AllPassed-undecided :
      (t : ChainType) (p : PacketInfo) (r : FastLookupRule V4 V6) (cs : List Chain)
      → AllPassed cfg t p cs
      → Decides cfg t p r cs
      → ⊥
  AllPassed-undecided t p r [] h d = elim d [ ]
  AllPassed-undecided t p r (c ∷ cs) (passed, h) (here on same highest) =
      passed on same highest.rule highest.applies
  AllPassed-undecided t p r (c ∷ cs) (passed, h) (later passed' d) =
      AllPassed-undecided t p r cs h d

module _ {V4 V6 : Type 0} (lib : CidrLib V4 V6) where
  -- Where no rule applies, the default is that of the first chain of the type.
  verdict-default :
      (cs : List Chain) (p : PacketInfo) (t : ChainType)
      → t ≢ unspecified_chain
      → AllPassed (config_with lib cs) t p cs
      → (verdict (config_with lib cs) p t).action ≡ default_of_chains t cs
  unfolding default_result config_of build_default_action
  verdict-default cs p t sup passed = elim (verdict-decided lib cs p t sup) [
    | inl (r, d, e) ↦ absurd (AllPassed-undecided (config_with lib cs) t p r cs passed d)
    | inr (h, e) ↦ ap (λ (r : AclResult). r.action) e
  ]

  -- Where whitelists are added to a configuration whose first chain is an inbound one, an inbound
  -- packet that no enabled rule of an enabled inbound chain matches gets the default action of this
  -- first chain, enabled or not, and not the drop of the whitelist's chain.
  pub build-keeps_default :
      (c : Chain) (cs cs' : List Chain) (tcp_list udp_list : List Text) (p : PacketInfo)
      → build (some (record { chains = some (c ∷ cs) })) tcp_list udp_list
        ≡ some (some (record { chains = some cs' }))
      → c.chain_type ≡ inbound
      → AllPassed (config_with lib cs') inbound p cs'
      → (verdict (config_with lib cs') p inbound).action ≡ c.default_action
  build-keeps_default c cs cs' tcp_list udp_list p e type passed =
      let (rest, same) = build-first c cs cs' tcp_list udp_list e in
      verdict-default cs' p inbound (λ e. cc) passed
      ∙ (ap (default_of_chains inbound) (sym same) ∙ default_of_chains-first inbound c rest type)
