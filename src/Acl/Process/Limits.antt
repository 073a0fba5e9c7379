-- ===== src/Acl/Process/Limits.antt =====
-- What a check of a rate limit leaves (easytier/src/common/acl_processor.rs).
use mathlib.Core.List.{lookup}
use native.Mathlib.Nat.{le_refl}
use neo_easy_tier_deamon.Prelude.{
  ℕ, ◌≤◌, ◌<◌, ◌≡◌, refl, Bool, true, false, Option, none, some, arith, inl, inr, ◌⊎◌, ◌==◌,
}
use neo_easy_tier_deamon.Prelude.Assoc.{put, lookup-put_self}
use neo_easy_tier_deamon.Acl.{RateLimitKey, RateLimitKey-discrete}
use neo_easy_tier_deamon.Acl.State.{
  AclState, Clock, RateLimitValue, take_token, limiter_or_new, check_rate_limit, consume_alone,
}
use neo_easy_tier_deamon.Acl.Process.Sound.{AllPast, Grows, AllPast-le, AllPast-put, Grows-put}

-- After a check of the bucket `k`: the cache is as it was, no bucket is lost, and that of `k` has
-- been used now.
pub record IsTicked (k : RateLimitKey) (t : ℕ) (s s' : AclState) : Type 0 where
  pub same_cache : s'.rule_cache ≡ s.rule_cache
  pub grows : Grows s.rate_limiters s'.rate_limiters
  pub past : AllPast t s'.rate_limiters
  pub used :
      (v : RateLimitValue) × (lookup RateLimitKey-discrete k s'.rate_limiters ≡ some v)
      × (t ≤ v.last_update)

-- The bucket is there, or it may be made.
abbrev pub MayTake : RateLimitKey → Bool → AclState → Type 0
MayTake k allow s =
    (allow ≡ true)
    ⊎ ((v : RateLimitValue) × (lookup RateLimitKey-discrete k s.rate_limiters ≡ some v))

limiter_there :
    (k : RateLimitKey) (rate burst now : ℕ) (allow : Bool) (s : AclState)
    → MayTake k allow s
    → (v : RateLimitValue) × (limiter_or_new
          (lookup RateLimitKey-discrete k s.rate_limiters)
          rate
          burst
          allow
          now
        ≡ some v)
limiter_there k rate burst now allow s (inr (v, e)) = (v, rw e refl)
limiter_there k rate burst now allow s (inl e) =
    rw e (from (lookup RateLimitKey-discrete k s.rate_limiters))
  where
    from :
        (o : Option RateLimitValue)
        → (v : RateLimitValue) × (limiter_or_new o rate burst true now ≡ some v)
    from none = (_, refl)
    from (some v) = (v, refl)

pub check_rate_limit-IsTicked :
    (k : RateLimitKey) (rate burst now : ℕ) (allow : Bool) (t : Clock) (s : AclState)
    → 0 < rate
    → AllPast now s.rate_limiters
    → now ≤ t.instant
    → MayTake k allow s
    → (b : Bool) × (s' : AclState) × (check_rate_limit k rate burst allow t s ≡ some (b, s'))
      × IsTicked k t.instant s s'
unfolding check_rate_limit take_token
check_rate_limit-IsTicked k rate burst now allow t s pos past le may =
    let (v, there) = limiter_there k rate burst t.instant allow s may in
    let nonzero : (rate == 0) ≡ false = ground arith in
    let w : RateLimitValue = record v {
      available = (consume_alone v.config 1 v.available).1;
      last_update = t.instant;
    } in
    (
      (consume_alone v.config 1 v.available).0,
      record s { rate_limiters = put RateLimitKey-discrete k w s.rate_limiters },
      rw (nonzero, there) refl,
      record {
        same_cache = refl;
        grows = Grows-put k w s.rate_limiters now past le;
        past =
            AllPast-put t.instant k w s.rate_limiters (le_refl t.instant)
              (AllPast-le now t.instant s.rate_limiters le past);
        used = (w, lookup-put_self RateLimitKey-discrete k w s.rate_limiters, le_refl t.instant);
      },
    )
