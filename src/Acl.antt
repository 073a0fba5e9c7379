-- ===== src/Acl.antt =====
-- Access control: the data of easytier/src/common/acl_processor.rs and of the messages of
-- easytier/src/proto/acl.proto that it uses. An enum field of a message is an `i32`, which is read
-- as its first case where it is no case of the enum: it is the enum here.
pub mod Rules
pub mod State
pub mod Entry
pub mod Process
pub mod Builder
pub mod Filter
use neo_easy_tier_deamon.Prelude.{ℕ, Bool, Option, List, ℕ_discrete}
use neo_easy_tier_deamon.Prelude.Text.{Text}

pub data Protocol : Type 0 where
  unspecified tcp udp icmp icmpv6 any : Protocol

pub data Action : Type 0 where
  noop allow drop : Action

pub data ChainType : Type 0 where
  unspecified_chain inbound outbound forward : ChainType

-- Addresses as numbers; the two ranges of the crate `cidr` are types of their own.
pub data IpAddr : Type 0 where
  v4 : ℕ → IpAddr
  v6 : ℕ → IpAddr

pub data IpCidr (V4 V6 : Type 0) : Type 0 where
  cidr4 : V4 → IpCidr V4 V6
  cidr6 : V6 → IpCidr V4 V6

-- What is used of the crate `cidr`, and `str::trim`, which goes by the white space of Unicode.
pub record CidrLib (V4 V6 : Type 0) : Type 0 where
  pub from_str : Text → Option (IpCidr V4 V6)
  pub contains4 : V4 → ℕ → Bool
  pub contains6 : V6 → ℕ → Bool
  pub trim : Text → Text

pub record Rule : Type 0 where
  pub name : Text
  pub description : Text
  pub priority : ℕ
  pub enabled : Bool
  pub protocol : Protocol
  pub ports : List Text
  pub source_ips : List Text
  pub destination_ips : List Text
  pub source_ports : List Text
  pub action : Action
  pub rate_limit : ℕ
  pub burst_limit : ℕ
  pub stateful : Bool
  pub source_groups : List Text
  pub destination_groups : List Text

pub record Chain : Type 0 where
  pub name : Text
  pub chain_type : ChainType
  pub description : Text
  pub enabled : Bool
  pub rules : List Rule
  pub default_action : Action

-- `Acl`: the chains, if there is a configuration at all.
pub record Acl : Type 0 where
  pub chains : Option (List Chain)

pub record FastLookupRule (V4 V6 : Type 0) : Type 0 where
  pub priority : ℕ
  pub protocol : Protocol
  pub src_ip_ranges : List (IpCidr V4 V6)
  pub dst_ip_ranges : List (IpCidr V4 V6)
  pub src_port_ranges : List (ℕ × ℕ)
  pub dst_port_ranges : List (ℕ × ℕ)
  pub source_groups : List Text
  pub destination_groups : List Text
  pub action : Action
  pub enabled : Bool
  pub stateful : Bool
  pub rate_limit : ℕ
  pub burst_limit : ℕ
  pub rule : Rule

pub record PacketInfo : Type 0 where
  pub src_ip : IpAddr
  pub dst_ip : IpAddr
  pub src_port : Option ℕ
  pub dst_port : Option ℕ
  pub protocol : Protocol
  pub packet_size : ℕ
  pub src_groups : List Text
  pub dst_groups : List Text

pub data RuleId : Type 0 where
  priority : ℕ → RuleId
  stateful : ℕ → RuleId
  default : RuleId

pub data AclLogContext : Type 0 where
  stateful_match : IpAddr → IpAddr → AclLogContext
  rule_match : IpAddr → IpAddr → Action → AclLogContext
  default_drop default_allow unsupported_chain_type rate_limit_drop : AclLogContext

pub record AclResult : Type 0 where
  pub action : Action
  pub matched_rule : Option RuleId
  pub should_log : Bool
  pub log_context : Option AclLogContext

pub record RateLimitKey : Type 0 where
  pub chain_type : ChainType
  pub rule_priority : ℕ

pub record AclCacheKey : Type 0 where
  pub chain_type : ChainType
  pub protocol : Protocol
  pub src_ip : IpAddr
  pub dst_ip : IpAddr
  pub src_port : ℕ
  pub dst_port : ℕ
  pub src_groups : List Text
  pub dst_groups : List Text

pub Protocol-discrete : Discrete Protocol
Protocol-discrete = hlevel

pub Action-discrete : Discrete Action
Action-discrete = hlevel

pub ChainType-discrete : Discrete ChainType
ChainType-discrete = hlevel

pub RateLimitKey-discrete : Discrete RateLimitKey
RateLimitKey-discrete = hlevel ℕ_discrete

pub AclCacheKey-discrete : Discrete AclCacheKey
AclCacheKey-discrete = hlevel ℕ_discrete
