-- ===== src/Acl/State.antt =====
-- The state of an `AclProcessor` (easytier/src/common/acl_processor.rs): its cache, its connection
-- table, its rate limiters and its counters. A call reads the clock once here: the time of the
-- process in nanoseconds and that of the system in seconds.
pub mod Track
pub mod Cleanup
use mathlib.Core.List.{lookup}
use mathlib.Core.Logic.{ite}
use neo_easy_tier_deamon.Prelude.{
  ℕ, ◌+◌, ◌-◌, ◌*◌, ◌/◌, ◌%◌, ◌^◌, ltb, leb, Bool, true, false, Option, none, some, List, [], ◌∷◌,
  if◌then◌else◌, ◌==◌, length, take, ℕ_discrete,
}
use neo_easy_tier_deamon.Prelude.Assoc.{put, remove}
use neo_easy_tier_deamon.Limiter.{
  BucketConfig, return, exchange, oversized, consume_pass, refill_pass,
}
use neo_easy_tier_deamon.Acl.{
  Protocol, Action, ChainType, inbound, outbound, forward, unspecified_chain, IpAddr, PacketInfo,
  RuleId, AclResult, RateLimitKey, AclCacheKey, RateLimitKey-discrete, AclCacheKey-discrete,
}

pub record Clock : Type 0 where
  pub instant : ℕ
  pub unix_secs : ℕ

-- Which counters: those of a rule by its place in the vector of its type, or the default ones.
pub data StatId : Type 0 where
  of_rule : ChainType → ℕ → StatId
  of_default : StatId

pub StatId-discrete : Discrete StatId
StatId-discrete = hlevel ℕ_discrete

pub record StatItem : Type 0 where
  pub packet_count : ℕ
  pub byte_count : ℕ

pub data AclStatKey : Type 0 where
  cache_hits cache_size cache_max_size rule_match_count default_allows default_drops : AclStatKey
  packets_total packets_allowed packets_dropped packets_noop : AclStatKey
  inbound_packets_total inbound_packets_allowed inbound_packets_dropped : AclStatKey
  inbound_packets_noop : AclStatKey
  outbound_packets_total outbound_packets_allowed outbound_packets_dropped : AclStatKey
  outbound_packets_noop : AclStatKey
  forward_packets_total forward_packets_allowed forward_packets_dropped : AclStatKey
  forward_packets_noop : AclStatKey
  unknown_packets_total unknown_packets_allowed unknown_packets_dropped : AclStatKey
  unknown_packets_noop : AclStatKey

pub data AclStatType : Type 0 where
  total allowed dropped noop : AclStatType

-- The key of one chain's packets.
abbrev pub from_chain_and_action : ChainType → AclStatType → AclStatKey
from_chain_and_action inbound total = inbound_packets_total
from_chain_and_action inbound allowed = inbound_packets_allowed
from_chain_and_action inbound dropped = inbound_packets_dropped
from_chain_and_action inbound noop = inbound_packets_noop
from_chain_and_action outbound total = outbound_packets_total
from_chain_and_action outbound allowed = outbound_packets_allowed
from_chain_and_action outbound dropped = outbound_packets_dropped
from_chain_and_action outbound noop = outbound_packets_noop
from_chain_and_action forward total = forward_packets_total
from_chain_and_action forward allowed = forward_packets_allowed
from_chain_and_action forward dropped = forward_packets_dropped
from_chain_and_action forward noop = forward_packets_noop
from_chain_and_action unspecified_chain total = unknown_packets_total
from_chain_and_action unspecified_chain allowed = unknown_packets_allowed
from_chain_and_action unspecified_chain dropped = unknown_packets_dropped
from_chain_and_action unspecified_chain noop = unknown_packets_noop

pub AclStatKey-discrete : Discrete AclStatKey
AclStatKey-discrete = hlevel

pub data ConnState : Type 0 where
  fresh established related invalid : ConnState

-- The text of the key determines the two addresses and the two ports.
pub record ConnKey : Type 0 where
  pub src_ip : IpAddr
  pub src_port : ℕ
  pub dst_ip : IpAddr
  pub dst_port : ℕ

pub ConnKey-discrete : Discrete ConnKey
ConnKey-discrete = hlevel ℕ_discrete

pub record ConnTrackEntry : Type 0 where
  pub src_addr : IpAddr × ℕ
  pub dst_addr : IpAddr × ℕ
  pub protocol : Protocol
  pub state : ConnState
  pub created_at : ℕ
  pub last_seen : ℕ
  pub packet_count : ℕ
  pub byte_count : ℕ

pub record RateLimitValue : Type 0 where
  pub config : BucketConfig
  pub available : ℕ
  pub last_update : ℕ

pub record AclCacheEntry : Type 0 where
  pub action : Action
  pub matched_rule : RuleId
  pub last_access : ℕ
  pub conn_track_key : Option ConnKey
  pub rate_limit_keys : List RateLimitKey
  pub chain_type : ChainType
  pub acl_result : Option AclResult
  pub rule_stats_vec : List StatId

pub record AclState : Type 0 where
  pub conn_track : List (ConnKey × ConnTrackEntry)
  pub rate_limiters : List (RateLimitKey × RateLimitValue)
  pub rule_cache : List (AclCacheKey × AclCacheEntry)
  pub stats : List (AclStatKey × ℕ)
  pub rule_stats : StatId → StatItem

abbrev pub port_or_zero : Option ℕ → ℕ
port_or_zero none = 0
port_or_zero (some p) = p

-- `AclCacheKey::from_packet_info`
abbrev pub cache_key : PacketInfo → ChainType → AclCacheKey
cache_key p chain_type = record {
  chain_type = chain_type;
  protocol = p.protocol;
  src_ip = p.src_ip;
  dst_ip = p.dst_ip;
  src_port = port_or_zero p.src_port;
  dst_port = port_or_zero p.dst_port;
  src_groups = p.src_groups;
  dst_groups = p.dst_groups;
}

abbrev pub conn_track_key : PacketInfo → ConnKey
conn_track_key p = record {
  src_ip = p.src_ip;
  src_port = port_or_zero p.src_port;
  dst_ip = p.dst_ip;
  dst_port = port_or_zero p.dst_port;
}

abbrev pub count_up : Option ℕ → ℕ
count_up none = 1
count_up (some n) = (n + 1) % 2 ^ 64

unfoldable pub increment_stat : AclStatKey → AclState → AclState
increment_stat k s = record s {
  stats = put AclStatKey-discrete k (count_up (lookup AclStatKey-discrete k s.stats)) s.stats;
}

abbrev pub bump : PacketInfo → StatItem → StatItem
bump p x = record {
  packet_count = (x.packet_count + 1) % 2 ^ 64;
  byte_count = (x.byte_count + p.packet_size) % 2 ^ 64;
}

-- `inc_cache_entry_stats`: once for each item of the list.
unfoldable pub inc_stats : List StatId → PacketInfo → (StatId → StatItem) → StatId → StatItem
inc_stats [] p f = f
inc_stats (i ∷ is) p f = inc_stats is p (λ j. ite (StatId-discrete i j) (bump p (f j)) (f j))

abbrev pub seen : PacketInfo → Clock → Option ConnTrackEntry → ConnTrackEntry
seen p t (some x) = record x {
  last_seen = t.unix_secs;
  packet_count = (x.packet_count + 1) % 2 ^ 64;
  byte_count = (x.byte_count + p.packet_size) % 2 ^ 64;
  state = established;
}
seen p t none = record {
  src_addr = (p.src_ip, port_or_zero p.src_port);
  dst_addr = (p.dst_ip, port_or_zero p.dst_port);
  protocol = p.protocol;
  state = fresh;
  created_at = t.unix_secs;
  last_seen = t.unix_secs;
  packet_count = 1;
  byte_count = p.packet_size;
}

unfoldable pub check_connection_state : ConnKey → PacketInfo → Clock → AclState → AclState
check_connection_state k p t s = record s {
  conn_track =
      put ConnKey-discrete k (seen p t (lookup ConnKey-discrete k s.conn_track)) s.conn_track;
}

-- `try_consume` while no other thread is in a loop: its exchange succeeds in the end.
unfoldable pub consume_alone : BucketConfig → ℕ → ℕ → Bool × ℕ
unfolding oversized consume_pass
consume_alone cfg tokens available =
    if oversized cfg tokens then (false, available) else elim (consume_pass tokens available) [
      | return b ↦ (b, available)
      | exchange new ↦ (true, new)
    ]

-- The entry of a key, made if it may be.
abbrev pub limiter_or_new : Option RateLimitValue → ℕ → ℕ → Bool → ℕ → Option RateLimitValue
limiter_or_new (some v) rate burst allow_create now = some v
limiter_or_new none rate burst false now = none
limiter_or_new none rate burst true now = some (record {
  config = record { capacity = burst; fill_rate = rate; refill_interval_ms = 10 };
  available = burst;
  last_update = now;
})

unfoldable pub take_token :
    RateLimitKey → Clock → AclState → Option RateLimitValue → Option (Bool × AclState)
take_token k t s none = none
take_token k t s (some v) =
    let out = consume_alone v.config 1 v.available in
    some (
      out.0,
      record s {
        rate_limiters =
            put RateLimitKey-discrete k (record v { available = out.1; last_update = t.instant })
              s.rate_limiters;
      },
    )

unfoldable pub check_rate_limit :
    RateLimitKey → ℕ → ℕ → Bool → Clock → AclState → Option (Bool × AclState)
unfolding take_token
check_rate_limit k rate burst allow_create t s =
    if rate == 0
    then some (true, s)
    else take_token k t s (
        limiter_or_new (lookup RateLimitKey-discrete k s.rate_limiters) rate burst allow_create
          t.instant)

-- A pass of the loop of the `refill` of a bucket, with no other thread in a loop of its own.
unfoldable pub refill : RateLimitKey → ℕ → AclState → AclState
unfolding refill_pass
refill k tokens s = elim (lookup RateLimitKey-discrete k s.rate_limiters) [
  | none ↦ s
  | some v ↦ elim (refill_pass v.config tokens v.available) [
    | return b ↦ s
    | exchange new ↦ record s {
      rate_limiters = put RateLimitKey-discrete k (record v { available = new }) s.rate_limiters;
    }
  ]
]
