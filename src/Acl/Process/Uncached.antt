-- ===== src/Acl/Process/Uncached.antt =====
-- What a packet that is not in the cache gives, with a state that is sound
-- (easytier/src/common/acl_processor.rs).
use mathlib.Core.List.{lookup}
use neo_easy_tier_deamon.Prelude.{
  ℕ, ◌≤◌, ◌≡◌, ◌≢◌, ◌∙◌, refl, Bool, true, false, none, some, inl, inr, Bool-cases, ltb, ltb→lt,
  if_true, if_false,
}
use neo_easy_tier_deamon.Acl.{
  RuleId, FastLookupRule, ChainType, unspecified_chain, PacketInfo, RateLimitKey,
  RateLimitKey-discrete,
}
use neo_easy_tier_deamon.Acl.State.{
  AclState, Clock, RateLimitValue, check_rate_limit, check_connection_state, increment_stat,
}
use neo_easy_tier_deamon.Acl.Process.{rule_passed, apply_rule, default_passed}
use neo_easy_tier_deamon.Acl.Entry.{
  Config, dropped, rule_result, is_tracked, rule_entry, default_result, default_entry,
}
use neo_easy_tier_deamon.Acl.Process.Verdict.{HasPorts, find_rule}
use neo_easy_tier_deamon.Acl.Process.Sound.{Limiters, Present, IsSound}
use neo_easy_tier_deamon.Acl.Process.Limits.{IsTicked, check_rate_limit-IsTicked}
use neo_easy_tier_deamon.Acl.Process.Keep.{
  IsDone, IsSound-le, IsTicked-IsSound, cache_result-IsSound,
}

module _ {V4 V6 : Type 0} (cfg : Config V4 V6) where
  abbrev pub rule_key : FastLookupRule V4 V6 → ChainType → RateLimitKey
  rule_key rule c = record { chain_type = c; rule_priority = rule.priority }

  pub no_keys :
      (rule : FastLookupRule V4 V6) (n : ℕ) (p : PacketInfo) (c : ChainType) (t : Clock)
      (m : Limiters)
      → ltb 0 rule.rate_limit ≡ false
      → Present m t.instant (rule_entry cfg rule n p c t.instant).rate_limit_keys
  unfolding rule_entry
  no_keys rule n p c t m y = rw y tt

  pub one_key :
      (rule : FastLookupRule V4 V6) (n : ℕ) (p : PacketInfo) (c : ChainType) (t : Clock)
      (m : Limiters)
      → ltb 0 rule.rate_limit ≡ true
      → (v : RateLimitValue) × (lookup RateLimitKey-discrete (rule_key rule c) m ≡ some v)
        × (t.instant ≤ v.last_update)
      → Present m t.instant (rule_entry cfg rule n p c t.instant).rate_limit_keys
  unfolding rule_entry
  one_key rule n p c t m y used = rw y (used, tt)

  pub default_IsDone :
      (p : PacketInfo) (c : ChainType) (t : Clock) (s : AclState)
      → HasPorts p
      → c ≢ unspecified_chain
      → find_rule cfg (cfg.rules c) 0 p ≡ none
      → IsSound cfg t.instant s
      → IsDone cfg
          (default_result cfg c)
          false
          t.instant
          (some (default_result cfg c, default_passed cfg p c t s))
  unfolding default_passed increment_stat default_entry
  default_IsDone p c t s ports sup found h = record {
    result = default_result cfg c;
    after = default_passed cfg p c t s;
    returned = refl;
    decided = inl refl;
    sound =
        cache_result-IsSound cfg none p c t _ ports sup found tt
          (record { cache = h.cache; limiters = h.limiters });
  }

  -- Counting, tracking and caching keep the state sound.
  rule_passed-IsSound :
      (rule : FastLookupRule V4 V6) (n : ℕ) (p : PacketInfo) (c : ChainType) (t : Clock)
      (s : AclState)
      → HasPorts p
      → c ≢ unspecified_chain
      → find_rule cfg (cfg.rules c) 0 p ≡ some (rule, n)
      → Present s.rate_limiters t.instant (rule_entry cfg rule n p c t.instant).rate_limit_keys
      → IsSound cfg t.instant s
      → IsSound cfg t.instant (rule_passed cfg rule n p c t s)
  unfolding rule_passed increment_stat check_connection_state
  rule_passed-IsSound rule n p c t s ports sup found pres h =
      elim (Bool-cases (is_tracked cfg rule)) [
        | inl y ↦
            cache_result-IsSound cfg (some (rule, n)) p c t _ ports sup found (rw y pres)
              (record { cache = rw y h.cache; limiters = rw y h.limiters })
        | inr y ↦
            cache_result-IsSound cfg (some (rule, n)) p c t _ ports sup found (rw y pres)
              (record { cache = rw y h.cache; limiters = rw y h.limiters })
      ]

  unlimited_IsDone :
      (rule : FastLookupRule V4 V6) (n now : ℕ) (p : PacketInfo) (c : ChainType) (t : Clock)
      (s : AclState)
      → HasPorts p
      → c ≢ unspecified_chain
      → find_rule cfg (cfg.rules c) 0 p ≡ some (rule, n)
      → now ≤ t.instant
      → IsSound cfg now s
      → ltb 0 rule.rate_limit ≡ false
      → IsDone cfg
          (rule_result cfg rule p)
          (ltb 0 rule.rate_limit)
          t.instant
          (apply_rule cfg rule n p c t s)
  unfolding apply_rule
  unlimited_IsDone rule n now p c t s ports sup found le h y = record {
    result = rule_result cfg rule p;
    after = rule_passed cfg rule n p c t s;
    returned = if_false _ _ _ y;
    decided = inl refl;
    sound =
        rule_passed-IsSound rule n p c t s ports sup found (no_keys rule n p c t s.rate_limiters y)
          (IsSound-le cfg now t.instant s le h);
  }

  limited_IsDone :
      (rule : FastLookupRule V4 V6) (n now : ℕ) (p : PacketInfo) (c : ChainType) (t : Clock)
      (s s' : AclState) (b : Bool)
      → HasPorts p
      → c ≢ unspecified_chain
      → find_rule cfg (cfg.rules c) 0 p ≡ some (rule, n)
      → now ≤ t.instant
      → IsSound cfg now s
      → ltb 0 rule.rate_limit ≡ true
      → check_rate_limit (rule_key rule c) rule.rate_limit rule.burst_limit true t s ≡ some (b, s')
      → IsTicked (rule_key rule c) t.instant s s'
      → IsDone cfg
          (rule_result cfg rule p)
          (ltb 0 rule.rate_limit)
          t.instant
          (apply_rule cfg rule n p c t s)
  unfolding apply_rule
  limited_IsDone rule n now p c t s s' false ports sup found le h y e tick = record {
    result = dropped (RuleId.priority rule.priority);
    after = s';
    returned = if_true _ _ _ y ∙ rw e refl;
    decided = inr (y, refl, refl);
    sound = IsTicked-IsSound cfg _ now t.instant s s' le h tick;
  }
  limited_IsDone rule n now p c t s s' true ports sup found le h y e tick = record {
    result = rule_result cfg rule p;
    after = rule_passed cfg rule n p c t s';
    returned = if_true _ _ _ y ∙ rw e refl;
    decided = inl refl;
    sound =
        rule_passed-IsSound rule n p c t s' ports sup found
          (one_key rule n p c t s'.rate_limiters y tick.used)
          (IsTicked-IsSound cfg _ now t.instant s s' le h tick);
  }

  pub apply_rule-IsDone :
      (rule : FastLookupRule V4 V6) (n now : ℕ) (p : PacketInfo) (c : ChainType) (t : Clock)
      (s : AclState)
      → HasPorts p
      → c ≢ unspecified_chain
      → find_rule cfg (cfg.rules c) 0 p ≡ some (rule, n)
      → now ≤ t.instant
      → IsSound cfg now s
      → IsDone cfg
          (rule_result cfg rule p)
          (ltb 0 rule.rate_limit)
          t.instant
          (apply_rule cfg rule n p c t s)
  apply_rule-IsDone rule n now p c t s ports sup found le h =
      elim (Bool-cases (ltb 0 rule.rate_limit)) [
        | inl y ↦
            let (b, s', e, tick) =
              check_rate_limit-IsTicked (rule_key rule c) rule.rate_limit rule.burst_limit now true
                t s (ltb→lt 0 rule.rate_limit y) h.limiters le (inl refl) in
            limited_IsDone rule n now p c t s s' b ports sup found le h y e tick
        | inr y ↦ unlimited_IsDone rule n now p c t s ports sup found le h y
      ]
