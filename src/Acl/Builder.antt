-- ===== src/Acl/Builder.antt =====
-- The rules of the port whitelists of the command line: `AclRuleBuilder` of
-- easytier/src/common/acl_processor.rs. `none` is an error. The groups of a configuration are not
-- modelled.
pub mod Ports
pub mod Listed
pub mod Whitelist
pub mod Merged
use neo_easy_tier_deamon.Prelude.{
  ℕ, ◌+◌, ◌-◌, ◌%◌, ◌^◌, leb, true, false, Option, none, some, List, [], ◌∷◌, ◌++◌, if◌then◌else◌,
}
use neo_easy_tier_deamon.Prelude.Text.{Text, codes, split_once}
use neo_easy_tier_deamon.Prelude.Text.Decimal.{digits}
use neo_easy_tier_deamon.Acl.{Protocol, Action, Rule, Chain, Acl, inbound}
use neo_easy_tier_deamon.Acl.Rules.{parse_u16}

-- `port.to_string()`
abbrev pub port_text : ℕ → Text
port_text n = digits 5 n []

abbrev pub if_ordered : Option ℕ → Option ℕ → Text → Option Text
if_ordered (some start) (some end) s = if leb start end then some s else none
if_ordered (some start) none s = none
if_ordered none _ s = none

-- The body of the loop: a range of exactly two parts, or one port.
unfoldable pub parse_port_spec : Text → Option Text
unfolding parse_u16
parse_port_spec s = elim (split_once b'-' s) [
  | none ↦ elim (parse_u16 s) [ none ↦ none | some port ↦ some (port_text port) ]
  | some (start, end) ↦ elim (split_once b'-' end) [
    | some _ ↦ none
    | none ↦ if_ordered (parse_u16 start) (parse_u16 end) s
  ]
]

abbrev pub cons_option : Option Text → Option (List Text) → Option (List Text)
cons_option (some x) (some xs) = some (x ∷ xs)
cons_option (some x) none = none
cons_option none _ = none

unfoldable pub parse_port_list : List Text → Option (List Text)
unfolding parse_port_spec
parse_port_list [] = some []
parse_port_list (s ∷ ss) = cons_option (parse_port_spec s) (parse_port_list ss)

abbrev pub tcp_rule : ℕ → List Text → Rule
tcp_rule priority ports = record {
  name = codes "tcp_whitelist";
  description = codes "Auto-generated TCP whitelist rule";
  priority = priority;
  enabled = true;
  protocol = Protocol.tcp;
  ports = ports;
  source_ips = [];
  destination_ips = [];
  source_ports = [];
  action = Action.allow;
  rate_limit = 0;
  burst_limit = 0;
  stateful = true;
  source_groups = [];
  destination_groups = [];
}

abbrev pub udp_rule : ℕ → List Text → Rule
udp_rule priority ports = record {
  name = codes "udp_whitelist";
  description = codes "Auto-generated UDP whitelist rule";
  priority = priority;
  enabled = true;
  protocol = Protocol.udp;
  ports = ports;
  source_ips = [];
  destination_ips = [];
  source_ports = [];
  action = Action.allow;
  rate_limit = 0;
  burst_limit = 0;
  stateful = false;
  source_groups = [];
  destination_groups = [];
}

abbrev pub inbound_chain : List Rule → Chain
inbound_chain rules = record {
  name = codes "inbound_whitelist";
  chain_type = inbound;
  description = codes "Auto-generated inbound whitelist from CLI";
  enabled = true;
  rules = rules;
  default_action = Action.drop;
}

-- The rules of one whitelist.
unfoldable pub rules_for : (List Text → Rule) → List Text → Option (List Rule)
unfolding parse_port_list
rules_for rule [] = some []
rules_for rule (s ∷ ss) = elim (parse_port_list (s ∷ ss)) [
  | none ↦ none
  | some ports ↦ some (rule ports ∷ [])
]

-- The priority after the rule for TCP, which is made first.
abbrev pub next_priority : List Text → ℕ → ℕ
next_priority [] priority = priority
next_priority (_ ∷ _) priority = (priority + 2 ^ 32 - 1) % 2 ^ 32

abbrev pub append_chain : Option Acl → Chain → Acl
append_chain none c = record { chains = some (c ∷ []) }
append_chain (some acl) c = elim acl.chains [
  | none ↦ record { chains = some (c ∷ []) }
  | some cs ↦ record { chains = some (cs ++ c ∷ []) }
]

abbrev pub append_rules : Option Acl → Option (List Rule) → Option (List Rule) → Option (Option Acl)
append_rules acl (some ts) (some us) = some (some (append_chain acl (inbound_chain (ts ++ us))))
append_rules acl (some ts) none = none
append_rules acl none _ = none

-- `generate_acl_from_whitelists` and `do_build`, with the priority that the rule for TCP gets.
unfoldable pub generate_acl_from_whitelists :
    Option Acl → List Text → List Text → ℕ → Option (Option Acl)
unfolding rules_for
generate_acl_from_whitelists acl [] [] priority = some acl
generate_acl_from_whitelists acl tcp udp priority =
    append_rules acl (rules_for (tcp_rule priority) tcp)
      (rules_for (udp_rule (next_priority tcp priority)) udp)

-- `build`, which gives no priority.
unfoldable pub build : Option Acl → List Text → List Text → Option (Option Acl)
unfolding generate_acl_from_whitelists
build acl tcp udp = generate_acl_from_whitelists acl tcp udp 1000
