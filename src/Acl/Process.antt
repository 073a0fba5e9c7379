-- ===== src/Acl/Process.antt =====
-- How a packet is processed: `AclProcessor::process_packet` of
-- easytier/src/common/acl_processor.rs. `none` is a panic.
pub mod Verdict
pub mod Sound
pub mod Limits
pub mod Cleanup
pub mod Keep
pub mod Uncached
pub mod Hit
pub mod Correct
pub mod Sweep
pub mod Serve
pub mod Highest
pub mod Decide
pub mod Counts
use mathlib.Core.List.{lookup}
use mathlib.Core.Logic.{ite}
use neo_easy_tier_deamon.Prelude.{
  ℕ, zero, suc, ◌+◌, ◌-◌, ◌*◌, ◌/◌, ◌%◌, ◌^◌, ltb, leb, Bool, true, false, ◌||◌, ◌&&◌, not, Option,
  none, some, List, [], ◌∷◌, ◌++◌, if◌then◌else◌, ◌==◌, length, take, ℕ_discrete,
}
use neo_easy_tier_deamon.Prelude.Assoc.{put, remove}
use neo_easy_tier_deamon.Limiter.{BucketConfig, Attempt, return, exchange, oversized, consume_pass}
use neo_easy_tier_deamon.Acl.{
  Protocol, Action, Action-discrete, ChainType, inbound, outbound, forward, unspecified_chain,
  IpAddr, CidrLib, FastLookupRule, PacketInfo, RuleId, AclLogContext, AclResult, RateLimitKey,
  AclCacheKey, RateLimitKey-discrete, AclCacheKey-discrete, Acl,
}
use neo_easy_tier_deamon.Acl.Rules.{rule_matches, build_rules, build_default_action}
use neo_easy_tier_deamon.Acl.Entry.{
  Config, config_of, or_empty, new_with_shared_state, dropped, is_default_drop, rule_result,
  is_tracked, rule_entry, default_result, default_entry, unsupported,
}
use neo_easy_tier_deamon.Acl.State.{
  Clock, StatId, StatId-discrete, StatItem, AclStatKey, AclStatKey-discrete, ConnState, ConnKey,
  ConnKey-discrete, ConnTrackEntry, RateLimitValue, AclCacheEntry, AclState, port_or_zero,
  cache_key, conn_track_key, count_up, increment_stat, bump, inc_stats, seen,
  check_connection_state, consume_alone, limiter_or_new, take_token, check_rate_limit, of_rule,
  of_default,
}
use neo_easy_tier_deamon.Acl.State.Cleanup.{
  second, expired_timepoint, retain_recent, insert_by_access, accesses, remove_all, cleanup_cache,
  cache_result, cleanup_expired_connections,
}

-- The end of `process_packet_with_cache_entry`; a missing result is a panic of `unwrap`.
unfoldable pub use_entry :
    PacketInfo → AclCacheEntry → Clock → AclState → Option (AclResult × AclState)
unfolding check_connection_state inc_stats
use_entry p entry t s =
    let tracked : AclState = elim entry.conn_track_key [
      | none ↦ s
      | some k ↦ check_connection_state k p t s
    ] in
    let counted = record tracked {
      rule_stats = inc_stats entry.rule_stats_vec p tracked.rule_stats;
    } in
    elim entry.acl_result [ none ↦ none | some r ↦ some (r, counted) ]

-- The loop over the rate limits of an entry. The buckets are there, or the code panics.
unfoldable pub with_cache_entry :
    List RateLimitKey
    → PacketInfo
    → AclCacheEntry
    → Clock
    → AclState
    → Option (AclResult × AclState)
unfolding use_entry
with_cache_entry [] p entry t s = use_entry p entry t s
with_cache_entry (k ∷ ks) p entry t s = elim (check_rate_limit k 1 1 false t s) [
  | none ↦ none
  | some (true, s') ↦ with_cache_entry ks p entry t s'
  | some (false, s') ↦ some (dropped entry.matched_rule, s')
]

module _ {V4 V6 : Type 0} (cfg : Config V4 V6) where
  -- Counting, tracking and caching after a rule has matched and let the packet pass.
  unfoldable pub rule_passed :
      FastLookupRule V4 V6 → ℕ → PacketInfo → ChainType → Clock → AclState → AclState
  unfolding rule_entry check_connection_state increment_stat inc_stats cache_result
  rule_passed rule n p chain_type t s =
      let entry = rule_entry cfg rule n p chain_type t.instant in
      let tracked =
        if is_tracked cfg rule then check_connection_state (conn_track_key p) p t s else s in
      let matched = increment_stat AclStatKey.rule_match_count tracked in
      let counted = record matched {
        rule_stats = inc_stats entry.rule_stats_vec p matched.rule_stats;
      } in
      cache_result cfg.cache_max_size (cache_key p chain_type) entry t counted

  -- The body of the loop for a rule that matches.
  unfoldable pub apply_rule :
      FastLookupRule V4 V6
      → ℕ
      → PacketInfo
      → ChainType
      → Clock
      → AclState
      → Option (AclResult × AclState)
  unfolding rule_passed check_rate_limit
  apply_rule rule n p chain_type t s =
      if ltb 0 rule.rate_limit
      then elim (check_rate_limit
          (record { chain_type = chain_type; rule_priority = rule.priority }) rule.rate_limit
          rule.burst_limit true t s) [
            | none ↦ none
            | some (false, s') ↦ some (dropped (RuleId.priority rule.priority), s')
            | some (true, s') ↦ some (rule_result cfg rule p, rule_passed rule n p chain_type t s')
          ]
      else some (rule_result cfg rule p, rule_passed rule n p chain_type t s)

  unfoldable pub default_passed : PacketInfo → ChainType → Clock → AclState → AclState
  unfolding default_entry increment_stat inc_stats cache_result
  default_passed p chain_type t s =
      let key =
        if is_default_drop (cfg.default_action chain_type)
        then AclStatKey.default_drops
        else AclStatKey.default_allows in
      let matched = increment_stat key s in
      let counted = record matched {
        rule_stats = inc_stats (of_default ∷ []) p matched.rule_stats;
      } in
      cache_result cfg.cache_max_size (cache_key p chain_type)
        (default_entry cfg chain_type t.instant) t counted

  -- The loop over the rules, from place `n` on, and what comes after it.
  unfoldable pub process_rules :
      List (FastLookupRule V4 V6)
      → ℕ
      → PacketInfo
      → ChainType
      → Clock
      → AclState
      → Option (AclResult × AclState)
  unfolding apply_rule default_passed
  process_rules [] n p chain_type t s =
      some (default_result cfg chain_type, default_passed p chain_type t s)
  process_rules (rule ∷ rules) n p chain_type t s =
      let rest = process_rules rules (n + 1) p chain_type t s in
      if not rule.enabled || not (rule_matches cfg.lib rule p)
      then rest
      else apply_rule rule n p chain_type t s

  unfoldable pub process_uncached :
      PacketInfo → ChainType → Clock → AclState → Option (AclResult × AclState)
  unfolding process_rules
  process_uncached p unspecified_chain t s = some (unsupported cfg, s)
  process_uncached p inbound t s = process_rules (cfg.rules inbound) 0 p inbound t s
  process_uncached p outbound t s = process_rules (cfg.rules outbound) 0 p outbound t s
  process_uncached p forward t s = process_rules (cfg.rules forward) 0 p forward t s

  -- A cached entry is touched first.
  unfoldable pub process_cached :
      PacketInfo
      → ChainType
      → Clock
      → AclState
      → Option AclCacheEntry
      → Option (AclResult × AclState)
  unfolding process_uncached with_cache_entry increment_stat
  process_cached p chain_type t s none = process_uncached p chain_type t s
  process_cached p chain_type t s (some entry) =
      let touched = record entry { last_access = t.instant } in
      with_cache_entry entry.rate_limit_keys p touched t (
        increment_stat AclStatKey.cache_hits (record s {
          rule_cache = put AclCacheKey-discrete (cache_key p chain_type) touched s.rule_cache;
        }))

  unfoldable pub process_packet :
      PacketInfo → ChainType → Clock → AclState → Option (AclResult × AclState)
  unfolding process_cached
  process_packet p chain_type t s =
      process_cached p chain_type t s
        (lookup AclCacheKey-discrete (cache_key p chain_type) s.rule_cache)
