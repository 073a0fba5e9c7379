-- ===== src/Acl/Entry.antt =====
-- What an `AclProcessor` is made of, and the results and cache entries that its rules give
-- (easytier/src/common/acl_processor.rs).
use mathlib.Core.Logic.{ite}
use neo_easy_tier_deamon.Prelude.{
  ℕ, ltb, Bool, true, false, ◌&&◌, Option, none, some, List, [], ◌∷◌, if◌then◌else◌,
}
use neo_easy_tier_deamon.Acl.{
  Action, Action-discrete, ChainType, CidrLib, FastLookupRule, PacketInfo, RuleId, AclLogContext,
  AclResult, RateLimitKey, Acl,
}
use neo_easy_tier_deamon.Acl.Rules.{build_rules, build_default_action}
use neo_easy_tier_deamon.Acl.State.{
  AclStatKey, ConnKey, ConnTrackEntry, RateLimitValue, AclCacheEntry, AclState, conn_track_key,
  of_rule, of_default,
}

-- What does not change once the processor has been made.
pub record Config (V4 V6 : Type 0) : Type 0 where
  pub lib : CidrLib V4 V6
  pub rules : ChainType → List (FastLookupRule V4 V6)
  pub default_action : ChainType → Action
  pub cache_max_size : ℕ

-- What `new_with_shared_state` makes of a configuration.
unfoldable pub config_of : {V4 V6 : Type 0} → CidrLib V4 V6 → Acl → Config V4 V6
config_of lib acl = record {
  lib = lib;
  rules = build_rules lib acl;
  default_action = build_default_action acl;
  cache_max_size = 1024;
}

abbrev pub or_empty {ℓ} : {A : Type ℓ} → Option (List A) → List A
or_empty none = []
or_empty (some m) = m

-- The state that a new processor starts with: the cache is empty, and so is what it is not given.
unfoldable pub new_with_shared_state :
    Option (List (ConnKey × ConnTrackEntry))
    → Option (List (RateLimitKey × RateLimitValue))
    → Option (List (AclStatKey × ℕ))
    → AclState
new_with_shared_state conn_track rate_limiters stats = record {
  conn_track = or_empty conn_track;
  rate_limiters = or_empty rate_limiters;
  rule_cache = [];
  stats = or_empty stats;
  rule_stats = λ i. record { packet_count = 0; byte_count = 0 };
}

abbrev pub dropped : RuleId → AclResult
dropped id = record {
  action = Action.drop;
  matched_rule = some id;
  should_log = false;
  log_context = some AclLogContext.rate_limit_drop;
}

abbrev pub is_default_drop : Action → Bool
is_default_drop a = ite (Action-discrete a Action.drop) true false

module _ {V4 V6 : Type 0} (cfg : Config V4 V6) where
  -- What a matching rule gives where no rate limit stops the packet.
  unfoldable pub rule_result : FastLookupRule V4 V6 → PacketInfo → AclResult
  unfolding Action-discrete
  rule_result rule p =
      if rule.stateful && ite (Action-discrete rule.action Action.allow) true false
      then record {
        action = Action.allow;
        matched_rule = some (RuleId.stateful rule.priority);
        should_log = false;
        log_context = some (AclLogContext.stateful_match p.src_ip p.dst_ip);
      }
      else record {
        action = rule.action;
        matched_rule = some (RuleId.priority rule.priority);
        should_log = false;
        log_context = some (AclLogContext.rule_match p.src_ip p.dst_ip rule.action);
      }

  abbrev pub is_tracked : FastLookupRule V4 V6 → Bool
  is_tracked rule = rule.stateful && ite (Action-discrete rule.action Action.allow) true false

  -- The entry that a matching rule leaves in the cache. A rule with a rate limit is put twice into
  -- the list of the counters.
  unfoldable pub rule_entry : FastLookupRule V4 V6 → ℕ → PacketInfo → ChainType → ℕ → AclCacheEntry
  unfolding rule_result
  rule_entry rule n p chain_type now =
      let limited = ltb 0 rule.rate_limit in
      record {
        action = Action.allow;
        matched_rule =
            if is_tracked rule
            then RuleId.stateful rule.priority
            else RuleId.priority rule.priority;
        last_access = now;
        conn_track_key = if is_tracked rule then some (conn_track_key p) else none;
        rate_limit_keys =
            if limited
            then record { chain_type = chain_type; rule_priority = rule.priority } ∷ []
            else [];
        chain_type = chain_type;
        acl_result = some (rule_result rule p);
        rule_stats_vec =
            if limited
            then of_rule chain_type n ∷ of_rule chain_type n ∷ []
            else of_rule chain_type n ∷ [];
      }

  unfoldable pub default_result : ChainType → AclResult
  default_result chain_type = record {
    action = cfg.default_action chain_type;
    matched_rule = some RuleId.default;
    should_log = false;
    log_context = some (
        if is_default_drop (cfg.default_action chain_type)
        then AclLogContext.default_drop
        else AclLogContext.default_allow);
  }

  unfoldable pub default_entry : ChainType → ℕ → AclCacheEntry
  unfolding default_result
  default_entry chain_type now = record {
    action = Action.allow;
    matched_rule = RuleId.default;
    last_access = now;
    conn_track_key = none;
    rate_limit_keys = [];
    chain_type = chain_type;
    acl_result = some (default_result chain_type);
    rule_stats_vec = of_default ∷ [];
  }

  abbrev pub unsupported : AclResult
  unsupported = record {
    action = Action.drop;
    matched_rule = some RuleId.default;
    should_log = false;
    log_context = some AclLogContext.unsupported_chain_type;
  }
