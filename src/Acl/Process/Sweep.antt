-- ===== src/Acl/Process/Sweep.antt =====
-- A pass of the cleanup task keeps every bucket that an entry of the cache may ask
-- (easytier/src/common/acl_processor.rs).
use mathlib.Core.List.{lookup}
use native.Mathlib.Nat.{le_trans}
use neo_easy_tier_deamon.Prelude.{ℕ, ◌-◌, ◌*◌, ◌≤◌, ◌<◌, ◌≡◌, some, List, [], ◌∷◌, arith}
use neo_easy_tier_deamon.Acl.{RateLimitKey, RateLimitKey-discrete}
use neo_easy_tier_deamon.Acl.State.{AclState, RateLimitValue}
use neo_easy_tier_deamon.Acl.State.Cleanup.{
  second, expired_timepoint, cleanup_cache, retain_limiters, cleanup_pass,
}
use neo_easy_tier_deamon.Acl.Entry.{Config}
use neo_easy_tier_deamon.Acl.Process.Sound.{
  Limiters, Cache, Present, AllPast, AllGood, IsSound, AllPast-le,
}
use neo_easy_tier_deamon.Acl.Process.Cleanup.{AllAfter, cleanup_cache-AllGood}

retain_limiters-lookup :
    (t : ℕ) (k : RateLimitKey) (v : RateLimitValue) (m : Limiters)
    → t - v.last_update < 20 * second
    → lookup RateLimitKey-discrete k m ≡ some v
    → lookup RateLimitKey-discrete k (retain_limiters t m) ≡ some v
unfolding lookup retain_limiters
retain_limiters-lookup t k v [] young found = absurd cc
retain_limiters-lookup t k v ((j, w) ∷ m) young found =
    ground (arith, retain_limiters-lookup t k v m young)

retain_limiters-Present :
    (t since : ℕ) (ks : List RateLimitKey) (m : Limiters)
    → t - since < 20 * second
    → Present m since ks
    → Present (retain_limiters t m) since ks
retain_limiters-Present t since [] m young h = tt
retain_limiters-Present t since (k ∷ ks) m young ((v, found, le), rest) = (
  (v, retain_limiters-lookup t k v m (omega arith) found, le),
  retain_limiters-Present t since ks m young rest,
)

retain_limiters-AllPast :
    (now t : ℕ) (m : Limiters) → AllPast now m → AllPast now (retain_limiters t m)
unfolding retain_limiters
retain_limiters-AllPast now t [] h = tt
retain_limiters-AllPast now t ((k, v) ∷ m) h = ground (arith, retain_limiters-AllPast now t m h.1)

module _ {V4 V6 : Type 0} (cfg : Config V4 V6) where
  retain_limiters-AllGood :
      (now t : ℕ) (m : Limiters) (c : Cache)
      → now ≤ t
      → AllGood cfg m now c
      → AllAfter cfg (expired_timepoint t) c
      → AllGood cfg (retain_limiters t m) t c
  retain_limiters-AllGood now t m [] le h after = tt
  retain_limiters-AllGood now t m ((k, e) ∷ c) le (good, h) (a, after) = (
    record {
      agrees = good.agrees;
      supported = good.supported;
      present =
          retain_limiters-Present t e.last_access e.rate_limit_keys m (ground arith) good.present;
      past = le_trans good.past le;
    },
    retain_limiters-AllGood now t m c le h after,
  )

  -- A pass of the cleanup task, of any maximal size, at a time that is not before the last one,
  -- keeps the processor sound: no entry of the cache that stays loses its token bucket.
  pub cleanup_pass-IsSound :
      (now t max_size : ℕ) (s : AclState)
      → now ≤ t
      → IsSound cfg now s
      → IsSound cfg t (cleanup_pass max_size t s)
  unfolding cleanup_pass
  cleanup_pass-IsSound now t max_size s le h =
      let (good, after) =
        cleanup_cache-AllGood cfg s.rate_limiters now t max_size s.rule_cache h.cache in
      record {
        cache =
            retain_limiters-AllGood now t s.rate_limiters (cleanup_cache max_size t s.rule_cache) le
              good after;
        limiters =
            AllPast-le now t (retain_limiters t s.rate_limiters) le
              (retain_limiters-AllPast now t s.rate_limiters h.limiters);
      }
