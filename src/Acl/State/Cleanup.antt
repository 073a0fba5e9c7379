-- ===== src/Acl/State/Cleanup.antt =====
-- What is kept of the cache, of the rate limiters and of the connections
-- (easytier/src/common/acl_processor.rs).
use neo_easy_tier_deamon.Prelude.{
  ℕ, ◌+◌, ◌-◌, ◌*◌, ◌/◌, ◌%◌, ◌^◌, ltb, leb, List, [], ◌∷◌, if◌then◌else◌, length, take,
}
use neo_easy_tier_deamon.Prelude.Assoc.{put, remove}
use neo_easy_tier_deamon.Acl.{RateLimitKey, AclCacheKey, AclCacheKey-discrete}
use neo_easy_tier_deamon.Acl.State.{
  Clock, ConnKey, ConnTrackEntry, RateLimitValue, AclCacheEntry, AclState,
}

-- The cleanup of the cache: old entries go, and then the oldest ones where there are too many.
abbrev pub second : ℕ
second = 10 ^ 9

abbrev pub expired_timepoint : ℕ → ℕ
expired_timepoint now = if ltb now (15 * second) then now else now - 15 * second

abbrev pub retain_recent :
    ℕ → List (AclCacheKey × AclCacheEntry) → List (AclCacheKey × AclCacheEntry)
retain_recent limit [] = []
retain_recent limit ((k, e) ∷ m) =
    let rest = retain_recent limit m in if ltb limit e.last_access then (k, e) ∷ rest else rest

abbrev pub insert_by_access : AclCacheKey × ℕ → List (AclCacheKey × ℕ) → List (AclCacheKey × ℕ)
insert_by_access x [] = x ∷ []
insert_by_access x (y ∷ ys) =
    let rest = insert_by_access x ys in if leb x.1 y.1 then x ∷ y ∷ ys else y ∷ rest

abbrev pub accesses : List (AclCacheKey × AclCacheEntry) → List (AclCacheKey × ℕ)
accesses [] = []
accesses ((k, e) ∷ m) = insert_by_access (k, e.last_access) (accesses m)

abbrev pub remove_all :
    List (AclCacheKey × ℕ) → List (AclCacheKey × AclCacheEntry) → List (AclCacheKey × AclCacheEntry)
remove_all [] m = m
remove_all (x ∷ xs) m = remove_all xs (remove AclCacheKey-discrete x.0 m)

unfoldable pub cleanup_cache :
    ℕ → ℕ → List (AclCacheKey × AclCacheEntry) → List (AclCacheKey × AclCacheEntry)
cleanup_cache max_size now cache =
    let kept = retain_recent (expired_timepoint now) cache in
    if leb (length kept) max_size
    then kept
    else remove_all (take (length kept - max_size + max_size / 5) (accesses kept)) kept

unfoldable pub cache_result : ℕ → AclCacheKey → AclCacheEntry → Clock → AclState → AclState
unfolding cleanup_cache
cache_result max_size k entry t s =
    let cache = put AclCacheKey-discrete k entry s.rule_cache in
    record s {
      rule_cache =
          if ltb (max_size * 2) (length cache)
          then cleanup_cache max_size t.instant cache
          else cache;
    }

-- A pass of the task of `start_cache_cleanup_task`: the cache, and then the rate limiters.
unfoldable pub retain_limiters :
    ℕ → List (RateLimitKey × RateLimitValue) → List (RateLimitKey × RateLimitValue)
retain_limiters now [] = []
retain_limiters now ((k, v) ∷ m) =
    let rest = retain_limiters now m in
    if ltb (now - v.last_update) (20 * second) then (k, v) ∷ rest else rest

unfoldable pub cleanup_pass : ℕ → ℕ → AclState → AclState
unfolding cleanup_cache retain_limiters
cleanup_pass max_size now s = record s {
  rule_cache = cleanup_cache max_size now s.rule_cache;
  rate_limiters = retain_limiters now s.rate_limiters;
}

-- `cleanup_expired_connections`: the subtraction wraps where an entry was seen in the future.
unfoldable pub cleanup_expired_connections :
    ℕ → ℕ → List (ConnKey × ConnTrackEntry) → List (ConnKey × ConnTrackEntry)
cleanup_expired_connections timeout_secs current_time [] = []
cleanup_expired_connections timeout_secs current_time ((k, e) ∷ m) =
    let rest = cleanup_expired_connections timeout_secs current_time m in
    if ltb timeout_secs ((current_time + 2 ^ 64 - e.last_seen) % 2 ^ 64)
    then rest
    else (k, e) ∷ rest
