-- ===== src/Acl/Process/Keep.antt =====
-- When a packet has been processed soundly, and how the cache and the rate limiters stay sound
-- (easytier/src/common/acl_processor.rs).
use native.Mathlib.Nat.{le_refl}
use neo_easy_tier_deamon.Prelude.{
  ℕ, ◌≤◌, ◌≡◌, ◌≢◌, ◌∙◌, sym, ap, Bool, true, false, Option, none, some, ◌⊎◌, ltb,
}
use neo_easy_tier_deamon.Acl.{
  Action, AclLogContext, FastLookupRule, ChainType, unspecified_chain, PacketInfo, AclResult,
  RateLimitKey,
}
use neo_easy_tier_deamon.Acl.State.{AclState, Clock, cache_key}
use neo_easy_tier_deamon.Acl.State.Cleanup.{cache_result}
use neo_easy_tier_deamon.Acl.Entry.{Config, rule_entry, default_entry}
use neo_easy_tier_deamon.Acl.Process.Verdict.{HasPorts, entry_of, find_rule, same_entry}
use neo_easy_tier_deamon.Acl.Process.Sound.{
  Limiters, Present, IsGood, IsSound, AllPast-le, AllGood-Grows,
}
use neo_easy_tier_deamon.Acl.Process.Limits.{IsTicked}
use neo_easy_tier_deamon.Acl.Process.Cleanup.{cache_result-AllGood}

module _ {V4 V6 : Type 0} (cfg : Config V4 V6) where
  -- The rule that decides has a rate limit.
  abbrev pub is_limited_rule : Option (FastLookupRule V4 V6 × ℕ) → Bool
  is_limited_rule none = false
  is_limited_rule (some (rule, n)) = ltb 0 rule.rate_limit

  abbrev pub is_limited : PacketInfo → ChainType → Bool
  is_limited p unspecified_chain = false
  is_limited p c = is_limited_rule (find_rule cfg (cfg.rules c) 0 p)

  -- A drop by the rate limit of the rule that decides.
  abbrev pub IsRateDrop : Bool → AclResult → Type 0
  IsRateDrop limited r =
      (limited ≡ true)
      × (r.action ≡ Action.drop)
      × (r.log_context ≡ some AclLogContext.rate_limit_drop)

  -- The packet has been processed: it got the result `v`, or was dropped by a rate limit, and the
  -- state is sound at `t`.
  pub record IsDone (v : AclResult) (limited : Bool) (t : ℕ) (o : Option (AclResult × AclState))
      : Type 0 where
    pub result : AclResult
    pub after : AclState
    pub returned : o ≡ some (result, after)
    pub decided : (result ≡ v) ⊎ IsRateDrop limited result
    pub sound : IsSound cfg t after

  -- The entry of a packet is good once its bucket has been used.
  pub entry-IsGood :
      (o : Option (FastLookupRule V4 V6 × ℕ)) (p : PacketInfo) (c : ChainType) (t : ℕ)
      (m : Limiters)
      → HasPorts p
      → c ≢ unspecified_chain
      → find_rule cfg (cfg.rules c) 0 p ≡ o
      → Present m t (entry_of cfg o p c t).rate_limit_keys
      → IsGood cfg m t (cache_key p c) (entry_of cfg o p c t)
  unfolding rule_entry default_entry
  entry-IsGood none p c t m ports sup found pres = record {
    agrees = λ q d hq e.
        ap (λ o. entry_of cfg o p c t) (sym found) ∙ same_entry cfg p q c d t ports hq (sym e);
    supported = sup;
    present = pres;
    past = le_refl t;
  }
  entry-IsGood (some (rule, n)) p c t m ports sup found pres = record {
    agrees = λ q d hq e.
        ap (λ o. entry_of cfg o p c t) (sym found) ∙ same_entry cfg p q c d t ports hq (sym e);
    supported = sup;
    present = pres;
    past = le_refl t;
  }

  pub IsSound-le :
      (now now' : ℕ) (s : AclState) → now ≤ now' → IsSound cfg now s → IsSound cfg now' s
  IsSound-le now now' s le h = record {
    cache =
        AllGood-Grows cfg s.rate_limiters s.rate_limiters now now' s.rule_cache
          (λ k v e. (v, e, le_refl v.last_update)) le h.cache;
    limiters = AllPast-le now now' s.rate_limiters le h.limiters;
  }

  pub IsTicked-IsSound :
      (k : RateLimitKey) (now t : ℕ) (s s' : AclState)
      → now ≤ t
      → IsSound cfg now s
      → IsTicked k t s s'
      → IsSound cfg t s'
  IsTicked-IsSound k now t s s' le h tick = record {
    cache = rw tick.same_cache (
        AllGood-Grows cfg s.rate_limiters s'.rate_limiters now t s.rule_cache tick.grows le
          h.cache);
    limiters = tick.past;
  }

  -- Putting the entry of a packet into the cache.
  pub cache_result-IsSound :
      (o : Option (FastLookupRule V4 V6 × ℕ)) (p : PacketInfo) (c : ChainType) (t : Clock)
      (s : AclState)
      → HasPorts p
      → c ≢ unspecified_chain
      → find_rule cfg (cfg.rules c) 0 p ≡ o
      → Present s.rate_limiters t.instant (entry_of cfg o p c t.instant).rate_limit_keys
      → IsSound cfg t.instant s
      → IsSound cfg t.instant
          (cache_result cfg.cache_max_size (cache_key p c) (entry_of cfg o p c t.instant) t s)
  unfolding cache_result
  cache_result-IsSound o p c t s ports sup found pres h = record {
    cache =
        cache_result-AllGood cfg s.rate_limiters t.instant cfg.cache_max_size (cache_key p c)
          (entry_of cfg o p c t.instant) t s
          (entry-IsGood o p c t.instant s.rate_limiters ports sup found pres) h.cache;
    limiters = h.limiters;
  }
