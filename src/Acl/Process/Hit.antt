-- ===== src/Acl/Process/Hit.antt =====
-- What a packet that is in the cache gives (easytier/src/common/acl_processor.rs).
use native.Mathlib.Nat.{le_refl}
use mathlib.Core.Path.{subst}
use neo_easy_tier_deamon.Prelude.{
  ℕ, ◌≤◌, ◌≡◌, ◌≢◌, sym, refl, Bool, true, false, Option, none, some, [], ◌∷◌, arith, inl, inr,
  Bool-cases, Option-cases, ltb, if_true, if_false,
}
use neo_easy_tier_deamon.Prelude.Assoc.{put}
use neo_easy_tier_deamon.Acl.{
  FastLookupRule, ChainType, unspecified_chain, PacketInfo, AclResult, AclCacheKey,
  AclCacheKey-discrete,
}
use neo_easy_tier_deamon.Acl.State.{
  AclState, AclCacheEntry, Clock, cache_key, check_rate_limit, check_connection_state,
  increment_stat, AclStatKey,
}
use neo_easy_tier_deamon.Acl.Process.{use_entry, with_cache_entry}
use neo_easy_tier_deamon.Acl.Entry.{
  Config, dropped, rule_result, rule_entry, default_result, default_entry,
}
use neo_easy_tier_deamon.Acl.Process.Verdict.{HasPorts, entry_of, verdict_of, find_rule}
use neo_easy_tier_deamon.Acl.Process.Sound.{
  Present, AllPast, IsSound, Grows, AllPast-le, AllGood-Grows, AllGood-put,
}
use neo_easy_tier_deamon.Acl.Process.Limits.{check_rate_limit-IsTicked}
use neo_easy_tier_deamon.Acl.Process.Keep.{is_limited_rule, IsDone, entry-IsGood}
use neo_easy_tier_deamon.Acl.Process.Uncached.{rule_key, no_keys, one_key}

module _ {V4 V6 : Type 0} (cfg : Config V4 V6) where
  -- Tracking and counting keep the state sound, and the result of the entry is returned.
  use_entry_lem :
      (p : PacketInfo) (e : AclCacheEntry) (r : AclResult) (t : Clock) (s : AclState)
      → e.acl_result ≡ some r
      → IsSound cfg t.instant s
      → (s' : AclState) × (use_entry p e t s ≡ some (r, s')) × IsSound cfg t.instant s'
  unfolding use_entry check_connection_state
  use_entry_lem p e r t s has h = elim (Option-cases e.conn_track_key) [
    | inl n ↦ rw (n, has) (_, refl, record { cache = h.cache; limiters = h.limiters })
    | inr (k, y) ↦ rw (y, has) (_, refl, record { cache = h.cache; limiters = h.limiters })
  ]

  -- The state at a hit, before the buckets are asked.
  abbrev pub touch : AclCacheKey → AclCacheEntry → AclState → AclState
  touch k e s =
      increment_stat AclStatKey.cache_hits
        (record s { rule_cache = put AclCacheKey-discrete k e s.rule_cache })

  -- A state whose buckets have been asked at `t`, and whose cache has the touched entry.
  touched_IsSound :
      (o : Option (FastLookupRule V4 V6 × ℕ)) (now : ℕ) (p : PacketInfo) (c : ChainType) (t : ℕ)
      (s s' : AclState)
      → HasPorts p
      → c ≢ unspecified_chain
      → find_rule cfg (cfg.rules c) 0 p ≡ o
      → now ≤ t
      → IsSound cfg now s
      → s'.rule_cache ≡ put AclCacheKey-discrete (cache_key p c) (entry_of cfg o p c t) s.rule_cache
      → Grows s.rate_limiters s'.rate_limiters
      → AllPast t s'.rate_limiters
      → Present s'.rate_limiters t (entry_of cfg o p c t).rate_limit_keys
      → IsSound cfg t s'
  touched_IsSound o now p c t s s' ports sup found le h same grows past pres = record {
    cache = rw same (
        AllGood-put cfg s'.rate_limiters t (cache_key p c) (entry_of cfg o p c t) s.rule_cache
          (entry-IsGood cfg o p c t s'.rate_limiters ports sup found pres)
          (AllGood-Grows cfg s.rate_limiters s'.rate_limiters now t s.rule_cache grows le h.cache));
    limiters = past;
  }

  pub IsDone-of :
      (v : AclResult) (limited : Bool) (t : ℕ) (o : Option (AclResult × AclState))
      → (s' : AclState) × (o ≡ some (v, s')) × IsSound cfg t s'
      → IsDone cfg v limited t o
  IsDone-of v limited t o (s', e, h) = record {
    result = v;
    after = s';
    returned = e;
    decided = inl refl;
    sound = h;
  }

  some_keys :
      (rule : FastLookupRule V4 V6) (n : ℕ) (p : PacketInfo) (c : ChainType) (t : ℕ)
      → ltb 0 rule.rate_limit ≡ true
      → (rule_entry cfg rule n p c t).rate_limit_keys ≡ rule_key cfg rule c ∷ []
  unfolding rule_entry
  some_keys rule n p c t y = if_true _ _ _ y

  zero_keys :
      (rule : FastLookupRule V4 V6) (n : ℕ) (p : PacketInfo) (c : ChainType) (t : ℕ)
      → ltb 0 rule.rate_limit ≡ false
      → (rule_entry cfg rule n p c t).rate_limit_keys ≡ []
  unfolding rule_entry
  zero_keys rule n p c t y = if_false _ _ _ y

  entry_result :
      (rule : FastLookupRule V4 V6) (n : ℕ) (p : PacketInfo) (c : ChainType) (t : ℕ)
      → (rule_entry cfg rule n p c t).acl_result ≡ some (rule_result cfg rule p)
  unfolding rule_entry
  entry_result rule n p c t = refl

  hit_limited :
      (rule : FastLookupRule V4 V6) (n : ℕ) (p : PacketInfo) (c : ChainType) (t : Clock)
      (s s' : AclState) (b : Bool)
      → ltb 0 rule.rate_limit ≡ true
      → check_rate_limit (rule_key cfg rule c) 1 1 false t s ≡ some (b, s')
      → IsSound cfg t.instant s'
      → IsDone cfg
          (rule_result cfg rule p)
          (ltb 0 rule.rate_limit)
          t.instant
          (with_cache_entry (rule_key cfg rule c ∷ []) p (rule_entry cfg rule n p c t.instant) t s)
  unfolding with_cache_entry
  hit_limited rule n p c t s s' false y e h = record {
    result = dropped (rule_entry cfg rule n p c t.instant).matched_rule;
    after = s';
    returned = rw (e, with_cache_entry) refl;
    decided = inr (y, refl, refl);
    sound = h;
  }
  hit_limited rule n p c t s s' true y e h =
      rw (e, with_cache_entry)
        (IsDone-of (rule_result cfg rule p) (ltb 0 rule.rate_limit) t.instant _ (
          use_entry_lem p (rule_entry cfg rule n p c t.instant) (rule_result cfg rule p) t s'
            (entry_result rule n p c t.instant) h))

  pub hit_IsDone :
      (o : Option (FastLookupRule V4 V6 × ℕ)) (now since : ℕ) (p : PacketInfo) (c : ChainType)
      (t : Clock) (s : AclState)
      → HasPorts p
      → c ≢ unspecified_chain
      → find_rule cfg (cfg.rules c) 0 p ≡ o
      → now ≤ t.instant
      → IsSound cfg now s
      → Present s.rate_limiters since (entry_of cfg o p c t.instant).rate_limit_keys
      → IsDone cfg (verdict_of cfg o p c) (is_limited_rule cfg o) t.instant (
          with_cache_entry
            (entry_of cfg o p c t.instant).rate_limit_keys
            p
            (entry_of cfg o p c t.instant)
            t
            (touch (cache_key p c) (entry_of cfg o p c t.instant) s))
  unfolding with_cache_entry increment_stat default_entry
  hit_IsDone none now since p c t s ports sup found le h pres =
      IsDone-of (default_result cfg c) false t.instant _ (
        use_entry_lem p (default_entry cfg c t.instant) (default_result cfg c) t _ refl (
          touched_IsSound none now p c t.instant s _ ports sup found le h refl
            (λ k v e. (v, e, le_refl v.last_update))
            (AllPast-le now t.instant s.rate_limiters le h.limiters) tt))
  hit_IsDone (some (rule, n)) now since p c t s ports sup found le h pres =
      elim (Bool-cases (ltb 0 rule.rate_limit)) [
        | inl y ↦
            let e : AclCacheEntry = rule_entry cfg rule n p c t.instant in
            let keys : e.rate_limit_keys ≡ rule_key cfg rule c ∷ [] =
              some_keys rule n p c t.instant y in
            let ((v, there, _), _) = subst (λ ks. Present s.rate_limiters since ks) keys pres in
            let (b, s', out, tick) =
              check_rate_limit-IsTicked (rule_key cfg rule c) 1 1 now false t
                (touch (cache_key p c) e s) (omega arith) h.limiters le (inr (v, there)) in
            subst
              (λ ks. IsDone cfg (rule_result cfg rule p) (ltb 0 rule.rate_limit) t.instant (
                with_cache_entry ks p (rule_entry cfg rule n p c t.instant) t
                  (touch (cache_key p c) (rule_entry cfg rule n p c t.instant) s)))
              (sym keys)
              (hit_limited rule n p c t (touch (cache_key p c) e s) s' b y out (
                touched_IsSound (some (rule, n)) now p c t.instant s s' ports sup found le h
                  tick.same_cache tick.grows tick.past
                  (one_key cfg rule n p c t s'.rate_limiters y tick.used)))
        | inr y ↦
            let keys : (rule_entry cfg rule n p c t.instant).rate_limit_keys ≡ [] =
              zero_keys rule n p c t.instant y in
            subst
              (λ ks. IsDone cfg (rule_result cfg rule p) (ltb 0 rule.rate_limit) t.instant (
                with_cache_entry ks p (rule_entry cfg rule n p c t.instant) t
                  (touch (cache_key p c) (rule_entry cfg rule n p c t.instant) s)))
              (sym keys)
              (IsDone-of (rule_result cfg rule p) (ltb 0 rule.rate_limit) t.instant _ (
                use_entry_lem p (rule_entry cfg rule n p c t.instant) (rule_result cfg rule p) t _
                  (entry_result rule n p c t.instant)
                  (touched_IsSound (some (rule, n)) now p c t.instant s _ ports sup found le h refl
                    (λ k v e. (v, e, le_refl v.last_update))
                    (AllPast-le now t.instant s.rate_limiters le h.limiters)
                    (no_keys cfg rule n p c t s.rate_limiters y))))
      ]
