-- ===== src/Acl/Rules.antt =====
-- How the rules of a configuration are built, and which packets a rule matches
-- (easytier/src/common/acl_processor.rs).
pub mod Sorted
pub mod Unreadable
use neo_easy_tier_deamon.Prelude.{
  ℕ, leb, Bool, true, false, ◌||◌, ◌&&◌, Option, none, some, List, [], ◌∷◌, ◌++◌, if◌then◌else◌,
  ◌==◌, ◌^◌, ◌-◌,
}
use mathlib.Core.Logic.{ite}
use neo_easy_tier_deamon.Prelude.Text.{Text, split_once, text_eq}
use neo_easy_tier_deamon.Prelude.Text.Decimal.{parse_digits}
use neo_easy_tier_deamon.Acl.{
  Protocol, Action, ChainType, IpAddr, v4, v6, IpCidr, cidr4, cidr6, CidrLib, Rule, Chain, Acl,
  FastLookupRule, PacketInfo, Protocol-discrete, ChainType-discrete,
}

-- `parse::<u16>()`: an optional plus sign and digits.
abbrev pub parse_u16_digits : Text → Option ℕ
parse_u16_digits [] = none
parse_u16_digits (c ∷ s) = parse_digits (2 ^ 16 - 1) 0 (c ∷ s)

unfoldable pub parse_u16 : Text → Option ℕ
parse_u16 [] = none
parse_u16 (c ∷ s) = if c == b'+' then parse_u16_digits s else parse_u16_digits (c ∷ s)

abbrev pub both : Option ℕ → Option ℕ → Option (ℕ × ℕ)
both (some start) (some end) = some (start, end)
both _ _ = none

abbrev pub push {ℓ} : {A : Type ℓ} → Option A → List A → List A
push none xs = xs
push (some x) xs = x ∷ xs

abbrev pub filter_map {ℓ κ} : {A : Type ℓ} {B : Type κ} → (A → Option B) → List A → List B
filter_map f [] = []
filter_map f (x ∷ xs) = push (f x) (filter_map f xs)

abbrev pub any_of {ℓ} : {A : Type ℓ} → (A → Bool) → List A → Bool
any_of p [] = false
any_of p (x ∷ xs) = p x || any_of p xs

abbrev pub filter {ℓ} : {A : Type ℓ} → (A → Bool) → List A → List A
filter p [] = []
filter p (x ∷ xs) = let rest = filter p xs in if p x then x ∷ rest else rest

-- A condition that is left out where its list is empty.
abbrev pub unless_empty {ℓ} : {A : Type ℓ} → List A → Bool → Bool
unless_empty [] matches = true
unless_empty (_ ∷ _) matches = matches

abbrev pub port_matches : Option ℕ → List (ℕ × ℕ) → Bool
port_matches none ranges = true
port_matches (some port) ranges =
    unless_empty ranges (any_of (λ (r : ℕ × ℕ). leb r.0 port && leb port r.1) ranges)

abbrev pub group_matches : List Text → List Text → Bool
group_matches packet_groups rule_groups =
    unless_empty rule_groups (any_of (λ g. any_of (text_eq g) rule_groups) packet_groups)

module _ {V4 V6 : Type 0} (lib : CidrLib V4 V6) where
  unfoldable pub parse_port_range : Text → Option (ℕ × ℕ)
  unfolding parse_u16
  parse_port_range s = elim (split_once b'-' s) [
    | some (start, end) ↦ both (parse_u16 (lib.trim start)) (parse_u16 (lib.trim end))
    | none ↦ both (parse_u16 (lib.trim s)) (parse_u16 (lib.trim s))
  ]

  -- `convert_to_fast_lookup_rule`: what cannot be read is left out. (The counters that a rule gets
  -- are a state of their own.)
  unfoldable pub convert_to_fast_lookup_rule : Rule → FastLookupRule V4 V6
  unfolding parse_port_range
  convert_to_fast_lookup_rule r = record {
    priority = r.priority;
    protocol = r.protocol;
    src_ip_ranges = filter_map lib.from_str r.source_ips;
    dst_ip_ranges = filter_map lib.from_str r.destination_ips;
    src_port_ranges = filter_map parse_port_range r.source_ports;
    dst_port_ranges = filter_map parse_port_range r.ports;
    source_groups = r.source_groups;
    destination_groups = r.destination_groups;
    action = r.action;
    enabled = r.enabled;
    stateful = r.stateful;
    rate_limit = r.rate_limit;
    burst_limit = r.burst_limit;
    rule = r;
  }

  -- `sort_by(|a, b| b.priority.cmp(&a.priority))`: a stable sort, here by insertion.
  unfoldable pub insert_by_priority :
      FastLookupRule V4 V6 → List (FastLookupRule V4 V6) → List (FastLookupRule V4 V6)
  insert_by_priority r [] = r ∷ []
  insert_by_priority r (x ∷ xs) =
      let rest = insert_by_priority r xs in
      if leb x.priority r.priority then r ∷ x ∷ xs else x ∷ rest

  unfoldable pub sort_by_priority : List (FastLookupRule V4 V6) → List (FastLookupRule V4 V6)
  unfolding insert_by_priority
  sort_by_priority [] = []
  sort_by_priority (r ∷ rs) = insert_by_priority r (sort_by_priority rs)

  abbrev pub convert_all : List Rule → List (FastLookupRule V4 V6)
  convert_all [] = []
  convert_all (r ∷ rs) = convert_to_fast_lookup_rule r ∷ convert_all rs

  -- The rules of one chain, as they are appended to the vector of its type.
  unfoldable pub rules_of_chain : Chain → List (FastLookupRule V4 V6)
  unfolding sort_by_priority
  rules_of_chain c = sort_by_priority (convert_all (filter (λ (r : Rule). r.enabled) c.rules))

  -- `build_rules`, the vector of one type.
  unfoldable pub build_chains : ChainType → List Chain → List (FastLookupRule V4 V6)
  unfolding rules_of_chain
  build_chains t [] = []
  build_chains t (c ∷ cs) =
      let rest = build_chains t cs in
      if c.enabled
      then ite (ChainType-discrete c.chain_type t) (rules_of_chain c ++ rest) rest
      else rest

  unfoldable pub build_rules : Acl → ChainType → List (FastLookupRule V4 V6)
  unfolding build_chains
  build_rules acl t = elim acl.chains [ none ↦ [] | some cs ↦ build_chains t cs ]

  -- `match (cidr, ip)`
  abbrev pub range_matches : IpAddr → IpCidr V4 V6 → Bool
  range_matches (v4 a) (cidr4 c) = lib.contains4 c a
  range_matches (v6 a) (cidr6 c) = lib.contains6 c a
  range_matches (v4 a) (cidr6 c) = false
  range_matches (v6 a) (cidr4 c) = false

  abbrev pub ip_matches : IpAddr → List (IpCidr V4 V6) → Bool
  ip_matches ip ranges = unless_empty ranges (any_of (range_matches ip) ranges)

  unfoldable pub protocol_matches : Protocol → Protocol → Bool
  unfolding Protocol-discrete
  protocol_matches rule_protocol packet_protocol =
      ite (Protocol-discrete rule_protocol Protocol.any) true
        (ite (Protocol-discrete rule_protocol packet_protocol) true false)

  unfoldable pub rule_matches : FastLookupRule V4 V6 → PacketInfo → Bool
  unfolding protocol_matches
  rule_matches rule p =
      protocol_matches rule.protocol p.protocol
      && (ip_matches p.src_ip rule.src_ip_ranges
          && (ip_matches p.dst_ip rule.dst_ip_ranges
              && (port_matches p.src_port rule.src_port_ranges
                  && (port_matches p.dst_port rule.dst_port_ranges
                      && (group_matches p.src_groups rule.source_groups
                          && group_matches p.dst_groups rule.destination_groups)))))

-- `build_default_actions`, the action of one type: that of the first chain of the type.
unfoldable pub default_of_chains : ChainType → List Chain → Action
unfolding ChainType-discrete
default_of_chains t [] = Action.allow
default_of_chains t (c ∷ cs) =
    let rest = default_of_chains t cs in
    ite (ChainType-discrete c.chain_type t) c.default_action rest

unfoldable pub build_default_action : Acl → ChainType → Action
unfolding default_of_chains
build_default_action acl t = elim acl.chains [
  | none ↦ Action.allow
  | some cs ↦ default_of_chains t cs
]
