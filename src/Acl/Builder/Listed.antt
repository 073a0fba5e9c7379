-- ===== src/Acl/Builder/Listed.antt =====
-- When the rules of a whitelist match (easytier/src/common/acl_processor.rs).
use neo_easy_tier_deamon.Prelude.{
  ℕ, ◌+◌, ◌≡◌, ◌∙◌, ap, refl, Bool, true, false, ◌&&◌, ◌||◌, Option, none, some, List, [], ◌∷◌,
  if◌then◌else◌, arith, inl, inr, Bool-cases,
}
use neo_easy_tier_deamon.Prelude.Text.{Text}
use neo_easy_tier_deamon.Acl.{
  Protocol, unspecified, tcp, udp, icmp, icmpv6, any, Action, ChainType, ChainType-discrete,
  inbound, CidrLib, Rule, FastLookupRule, PacketInfo, Protocol-discrete,
}
use neo_easy_tier_deamon.Acl.Rules.{
  rule_matches, convert_to_fast_lookup_rule, filter_map, any_of, port_matches, parse_port_range,
  protocol_matches, build_rules, build_default_action,
}
use neo_easy_tier_deamon.Acl.Entry.{Config, config_of, rule_result, default_result}
use neo_easy_tier_deamon.Acl.Process.Verdict.{find_rule, verdict, verdict_of}
use neo_easy_tier_deamon.Acl.Builder.{parse_port_list, tcp_rule, udp_rule, inbound_chain}
use neo_easy_tier_deamon.Acl.Builder.Ports.{TrimKeeps, port_listed, port_matches-parse_port_list}

module _ {V4 V6 : Type 0} (cfg : Config V4 V6) where
  abbrev pub AllAllow : List (FastLookupRule V4 V6) → Type 0
  AllAllow [] = Unit
  AllAllow (r ∷ rs) = (r.enabled ≡ true) × (r.action ≡ Action.allow) × AllAllow rs

  rule_result-allow :
      (r : FastLookupRule V4 V6) (p : PacketInfo)
      → r.action ≡ Action.allow
      → (rule_result cfg r p).action ≡ Action.allow
  unfolding rule_result
  rule_result-allow r p e = ground arith

  -- Rules that all allow: a packet is let in where one of them matches, or by the default.
  verdict_of-allow :
      (rs : List (FastLookupRule V4 V6)) (n : ℕ) (p : PacketInfo) (c : ChainType)
      → AllAllow rs
      → (verdict_of cfg (find_rule cfg rs n p) p c).action
        ≡ (if any_of (λ r. rule_matches cfg.lib r p) rs then Action.allow else cfg.default_action c)
  unfolding find_rule default_result rule_matches rule_result
  verdict_of-allow [] n p c h = refl
  verdict_of-allow (r ∷ rs) n p c (on, al, h) = elim (Bool-cases (rule_matches cfg.lib r p)) [
    | inl y ↦ rw (on, y) (rule_result-allow r p al)
    | inr y ↦ rw (on, y) (verdict_of-allow rs (n + 1) p c h)
  ]

-- What the two whitelists list, by the protocol of the packet.
abbrev pub by_protocol : Protocol → Bool → Bool → Bool
by_protocol tcp a b = a
by_protocol udp a b = b
by_protocol unspecified a b = false
by_protocol icmp a b = false
by_protocol icmpv6 a b = false
by_protocol any a b = false

abbrev pub is_listed : List Text → List Text → PacketInfo → Bool
is_listed tcp_list udp_list p =
    by_protocol p.protocol (port_listed p.dst_port tcp_list) (port_listed p.dst_port udp_list)

and_true : (a : Bool) → (a && true) ≡ a
and_true true = refl
and_true false = refl

or_false : (a : Bool) → (a || false) ≡ a
or_false true = refl
or_false false = refl

module _ {V4 V6 : Type 0} (lib : CidrLib V4 V6) where
  pub matches_both :
      (t : Protocol) (a b : Bool)
      → ((protocol_matches lib tcp t && a) || ((protocol_matches lib udp t && b) || false))
        ≡ by_protocol t a b
  unfolding protocol_matches Protocol-discrete
  matches_both tcp a b = or_false a
  matches_both udp a b = or_false b
  matches_both unspecified a b = refl
  matches_both icmp a b = refl
  matches_both icmpv6 a b = refl
  matches_both any a b = refl

  pub matches_tcp :
      (t : Protocol) (a : Bool)
      → ((protocol_matches lib tcp t && a) || false) ≡ by_protocol t a false
  unfolding protocol_matches Protocol-discrete
  matches_tcp tcp a = or_false a
  matches_tcp udp a = refl
  matches_tcp unspecified a = refl
  matches_tcp icmp a = refl
  matches_tcp icmpv6 a = refl
  matches_tcp any a = refl

  pub matches_udp :
      (t : Protocol) (b : Bool)
      → ((protocol_matches lib udp t && b) || false) ≡ by_protocol t false b
  unfolding protocol_matches Protocol-discrete
  matches_udp tcp b = refl
  matches_udp udp b = or_false b
  matches_udp unspecified b = refl
  matches_udp icmp b = refl
  matches_udp icmpv6 b = refl
  matches_udp any b = refl

  port_matches_none : (q : Option ℕ) → port_matches q [] ≡ true
  port_matches_none none = refl
  port_matches_none (some q) = refl

  -- What is left of the test of a rule with no addresses, source ports or groups.
  only_ports :
      (t : Protocol) (p : PacketInfo) (ranges : List (ℕ × ℕ))
      → (protocol_matches lib t p.protocol
          && (true
              && (true
                  && (port_matches p.src_port []
                      && (port_matches p.dst_port ranges && (true && true))))))
        ≡ (protocol_matches lib t p.protocol && port_matches p.dst_port ranges)
  only_ports t p ranges =
      let src = port_matches_none p.src_port in
      let dst = and_true (port_matches p.dst_port ranges) in
      ap (λ b. protocol_matches lib t p.protocol && (b && (port_matches p.dst_port ranges && true)))
        src
      ∙ ap (λ b. protocol_matches lib t p.protocol && b) dst

  tcp_rule-matches :
      (n : ℕ) (ps : List Text) (p : PacketInfo)
      → rule_matches lib (convert_to_fast_lookup_rule lib (tcp_rule n ps)) p ≡ (
          protocol_matches lib tcp p.protocol
          && port_matches p.dst_port (filter_map (parse_port_range lib) ps))
  unfolding rule_matches convert_to_fast_lookup_rule
  tcp_rule-matches n ps p = only_ports tcp p (filter_map (parse_port_range lib) ps)

  udp_rule-matches :
      (n : ℕ) (ps : List Text) (p : PacketInfo)
      → rule_matches lib (convert_to_fast_lookup_rule lib (udp_rule n ps)) p ≡ (
          protocol_matches lib udp p.protocol
          && port_matches p.dst_port (filter_map (parse_port_range lib) ps))
  unfolding rule_matches convert_to_fast_lookup_rule
  udp_rule-matches n ps p = only_ports udp p (filter_map (parse_port_range lib) ps)

  module _ (keeps : TrimKeeps lib) where
    pub tcp_rule-listed :
        (n : ℕ) (s : Text) (ss ps : List Text) (p : PacketInfo)
        → parse_port_list (s ∷ ss) ≡ some ps
        → rule_matches lib (convert_to_fast_lookup_rule lib (tcp_rule n ps)) p
          ≡ (protocol_matches lib tcp p.protocol && port_listed p.dst_port (s ∷ ss))
    tcp_rule-listed n s ss ps p e =
        tcp_rule-matches n ps p
        ∙ ap (λ b. protocol_matches lib tcp p.protocol && b)
            (port_matches-parse_port_list lib keeps p.dst_port s ss ps e)

    pub udp_rule-listed :
        (n : ℕ) (s : Text) (ss ps : List Text) (p : PacketInfo)
        → parse_port_list (s ∷ ss) ≡ some ps
        → rule_matches lib (convert_to_fast_lookup_rule lib (udp_rule n ps)) p
          ≡ (protocol_matches lib udp p.protocol && port_listed p.dst_port (s ∷ ss))
    udp_rule-listed n s ss ps p e =
        udp_rule-matches n ps p
        ∙ ap (λ b. protocol_matches lib udp p.protocol && b)
            (port_matches-parse_port_list lib keeps p.dst_port s ss ps e)

  -- The configuration of the two rules, or of one.
  abbrev pub config_for : List Rule → Config V4 V6
  config_for rules = config_of lib (record { chains = some (inbound_chain rules ∷ []) })

  pub both_rules :
      (tp up : List Text) (p : PacketInfo)
      → (verdict (config_for (tcp_rule 1000 tp ∷ udp_rule 999 up ∷ [])) p inbound).action ≡ (
          if rule_matches lib (convert_to_fast_lookup_rule lib (tcp_rule 1000 tp)) p
            || (rule_matches lib (convert_to_fast_lookup_rule lib (udp_rule 999 up)) p || false)
          then Action.allow
          else Action.drop)
  unfolding config_of build_rules ChainType-discrete convert_to_fast_lookup_rule
      build_default_action
  both_rules tp up p =
      verdict_of-allow (config_for (tcp_rule 1000 tp ∷ udp_rule 999 up ∷ [])) _ 0 p inbound
        (refl, refl, (refl, refl, tt))

  pub one_tcp :
      (tp : List Text) (p : PacketInfo)
      → (verdict (config_for (tcp_rule 1000 tp ∷ [])) p inbound).action ≡ (
          if rule_matches lib (convert_to_fast_lookup_rule lib (tcp_rule 1000 tp)) p || false
          then Action.allow
          else Action.drop)
  unfolding config_of build_rules ChainType-discrete convert_to_fast_lookup_rule
      build_default_action
  one_tcp tp p =
      verdict_of-allow (config_for (tcp_rule 1000 tp ∷ [])) _ 0 p inbound (refl, refl, tt)

  pub one_udp :
      (up : List Text) (p : PacketInfo)
      → (verdict (config_for (udp_rule 1000 up ∷ [])) p inbound).action ≡ (
          if rule_matches lib (convert_to_fast_lookup_rule lib (udp_rule 1000 up)) p || false
          then Action.allow
          else Action.drop)
  unfolding config_of build_rules ChainType-discrete convert_to_fast_lookup_rule
      build_default_action
  one_udp up p =
      verdict_of-allow (config_for (udp_rule 1000 up ∷ [])) _ 0 p inbound (refl, refl, tt)
