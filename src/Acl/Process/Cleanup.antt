-- ===== src/Acl/Process/Cleanup.antt =====
-- What the cleanup of the cache and of the rate limiters leaves
-- (easytier/src/common/acl_processor.rs).
use mathlib.Core.Logic.{ite}
use neo_easy_tier_deamon.Prelude.{
  ℕ, ◌+◌, ◌-◌, ◌*◌, ◌/◌, ◌<◌, List, [], ◌∷◌, inl, inr, Bool-cases, ltb, leb, take, length, ltb→lt,
}
use neo_easy_tier_deamon.Prelude.Assoc.{put, remove}
use neo_easy_tier_deamon.Acl.{AclCacheKey, AclCacheKey-discrete}
use neo_easy_tier_deamon.Acl.State.{AclState, AclCacheEntry, Clock}
use neo_easy_tier_deamon.Acl.State.Cleanup.{
  expired_timepoint, retain_recent, accesses, remove_all, cleanup_cache, cache_result,
}
use neo_easy_tier_deamon.Acl.Entry.{Config}
use neo_easy_tier_deamon.Acl.Process.Sound.{Limiters, Cache, IsGood, AllGood, AllGood-put}

module _ {V4 V6 : Type 0} (cfg : Config V4 V6) where
  -- Every entry was used after `limit`.
  abbrev pub AllAfter : ℕ → Cache → Type 0
  AllAfter limit [] = Unit
  AllAfter limit ((k, e) ∷ c) = (limit < e.last_access) × AllAfter limit c

  retain_recent-AllGood :
      (m : Limiters) (now limit : ℕ) (c : Cache)
      → AllGood cfg m now c
      → AllGood cfg m now (retain_recent limit c) × AllAfter limit (retain_recent limit c)
  retain_recent-AllGood m now limit [] h = (tt, tt)
  retain_recent-AllGood m now limit ((k, e) ∷ c) (good, h) =
      let (rest, after) = retain_recent-AllGood m now limit c h in
      elim (Bool-cases (ltb limit e.last_access)) [
        | inl y ↦ rw y ((good, rest), (ltb→lt limit e.last_access y, after))
        | inr n ↦ rw n (rest, after)
      ]

  remove-AllGood :
      (m : Limiters) (now limit : ℕ) (k : AclCacheKey) (c : Cache)
      → AllGood cfg m now c
      → AllAfter limit c
      → AllGood cfg m now (remove AclCacheKey-discrete k c)
        × AllAfter limit (remove AclCacheKey-discrete k c)
  unfolding remove
  remove-AllGood m now limit k [] h a = (tt, tt)
  remove-AllGood m now limit k ((j, e) ∷ c) (good, h) (a, as') =
      let out = remove-AllGood m now limit k c h as' in
      elim (AclCacheKey-discrete j k)
        as (λ d.
          AllGood cfg m now
            (ite d (remove AclCacheKey-discrete k c) ((j, e) ∷ remove AclCacheKey-discrete k c))
          × AllAfter limit (
              ite d (remove AclCacheKey-discrete k c) ((j, e) ∷ remove AclCacheKey-discrete k c))) [
                | yes same ↦ out
                | no ne ↦ ((good, out.0), (a, out.1))
              ]

  remove_all-AllGood :
      (m : Limiters) (now limit : ℕ) (ks : List (AclCacheKey × ℕ)) (c : Cache)
      → AllGood cfg m now c
      → AllAfter limit c
      → AllGood cfg m now (remove_all ks c) × AllAfter limit (remove_all ks c)
  remove_all-AllGood m now limit [] c h a = (h, a)
  remove_all-AllGood m now limit (k ∷ ks) c h a =
      let (h', a') = remove-AllGood m now limit k.0 c h a in
      remove_all-AllGood m now limit ks (remove AclCacheKey-discrete k.0 c) h' a'

  -- A cleanup keeps the good entries good, and keeps none that is older than 15 seconds.
  pub cleanup_cache-AllGood :
      (m : Limiters) (now t max_size : ℕ) (c : Cache)
      → AllGood cfg m now c
      → AllGood cfg m now (cleanup_cache max_size t c)
        × AllAfter (expired_timepoint t) (cleanup_cache max_size t c)
  unfolding cleanup_cache
  cleanup_cache-AllGood m now t max_size c h =
      let kept = retain_recent (expired_timepoint t) c in
      let (good, after) = retain_recent-AllGood m now (expired_timepoint t) c h in
      elim (Bool-cases (leb (length kept) max_size)) [
        | inl y ↦ rw y (good, after)
        | inr n ↦ rw n (
            remove_all-AllGood m now (expired_timepoint t)
              (take (length kept - max_size + max_size / 5) (accesses kept)) kept good after)
      ]

  pub cache_result-AllGood :
      (m : Limiters) (now max_size : ℕ) (k : AclCacheKey) (e : AclCacheEntry) (t : Clock)
      (s : AclState)
      → IsGood cfg m now k e
      → AllGood cfg m now s.rule_cache
      → AllGood cfg m now (cache_result max_size k e t s).rule_cache
  unfolding cache_result
  cache_result-AllGood m now max_size k e t s good h =
      let c = put AclCacheKey-discrete k e s.rule_cache in
      let h' = AllGood-put cfg m now k e s.rule_cache good h in
      elim (Bool-cases (ltb (max_size * 2) (length c))) [
        | inl y ↦ rw y ((cleanup_cache-AllGood m now t.instant max_size c h').0)
        | inr n ↦ rw n h'
      ]
