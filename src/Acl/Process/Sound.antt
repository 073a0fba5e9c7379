-- ===== src/Acl/Process/Sound.antt =====
-- The invariant of the cache and of the rate limiters
-- (easytier/src/common/acl_processor.rs).
use mathlib.Core.List.{lookup}
use mathlib.Core.Logic.{ite}
use native.Mathlib.Nat.{le_trans, le_refl}
use neo_easy_tier_deamon.Prelude.{ℕ, ◌≤◌, ◌≡◌, ◌≢◌, refl, some, List, [], ◌∷◌, arith}
use neo_easy_tier_deamon.Prelude.Assoc.{put, lookup-put}
use neo_easy_tier_deamon.Acl.{
  ChainType, unspecified_chain, PacketInfo, AclCacheKey, AclCacheKey-discrete, RateLimitKey,
  RateLimitKey-discrete,
}
use neo_easy_tier_deamon.Acl.State.{AclState, AclCacheEntry, RateLimitValue, cache_key}
use neo_easy_tier_deamon.Acl.Entry.{Config}
use neo_easy_tier_deamon.Acl.Process.Verdict.{HasPorts, entry_for}

abbrev pub Limiters : Type 0
Limiters = List (RateLimitKey × RateLimitValue)

abbrev pub Cache : Type 0
Cache = List (AclCacheKey × AclCacheEntry)

-- Each key has a bucket that was used at `since` or later.
abbrev pub Present : Limiters → ℕ → List RateLimitKey → Type 0
Present m since [] = Unit
Present m since (k ∷ ks) =
    ((v : RateLimitValue) × (lookup RateLimitKey-discrete k m ≡ some v) × (since ≤ v.last_update))
    × Present m since ks

-- No bucket was used later than `now`.
abbrev pub AllPast : ℕ → Limiters → Type 0
AllPast now [] = Unit
AllPast now ((k, v) ∷ m) = (v.last_update ≤ now) × AllPast now m

module _ {V4 V6 : Type 0} (cfg : Config V4 V6) where
  -- An entry under a key is the one that a packet with this key gives, its buckets are there, and
  -- they were used when it was.
  pub record IsGood (m : Limiters) (now : ℕ) (k : AclCacheKey) (e : AclCacheEntry) : Type 0 where
    pub agrees :
        (p : PacketInfo) (c : ChainType)
        → HasPorts p
        → cache_key p c ≡ k
        → e ≡ entry_for cfg p c e.last_access
    pub supported : k.chain_type ≢ unspecified_chain
    pub present : Present m e.last_access e.rate_limit_keys
    pub past : e.last_access ≤ now

  abbrev pub AllGood : Limiters → ℕ → Cache → Type 0
  AllGood m now [] = Unit
  AllGood m now ((k, e) ∷ c) = IsGood m now k e × AllGood m now c

  pub record IsSound (now : ℕ) (s : AclState) : Type 0 where
    pub cache : AllGood s.rate_limiters now s.rule_cache
    pub limiters : AllPast now s.rate_limiters

-- Every bucket stays, and is not used earlier.
abbrev pub Grows : Limiters → Limiters → Type 0
Grows m m' =
    (k : RateLimitKey) (v : RateLimitValue)
    → lookup RateLimitKey-discrete k m ≡ some v
    → (v' : RateLimitValue) × (lookup RateLimitKey-discrete k m' ≡ some v')
      × (v.last_update ≤ v'.last_update)

pub Present-Grows :
    (m m' : Limiters) (since : ℕ) (ks : List RateLimitKey)
    → Grows m m'
    → Present m since ks
    → Present m' since ks
Present-Grows m m' since [] g h = tt
Present-Grows m m' since (k ∷ ks) g ((v, found, le), rest) =
    let (v', found', le') = g k v found in
    ((v', found', le_trans le le'), Present-Grows m m' since ks g rest)

pub AllPast-lookup :
    (now : ℕ) (m : Limiters) (k : RateLimitKey) (v : RateLimitValue)
    → AllPast now m
    → lookup RateLimitKey-discrete k m ≡ some v
    → v.last_update ≤ now
unfolding lookup
AllPast-lookup now [] k v h e = absurd cc
AllPast-lookup now ((j, w) ∷ m) k v h e = ground (arith, AllPast-lookup now m k v h.1)

pub AllPast-le : (now now' : ℕ) (m : Limiters) → now ≤ now' → AllPast now m → AllPast now' m
AllPast-le now now' [] le h = tt
AllPast-le now now' ((j, w) ∷ m) le h = (le_trans h.0 le, AllPast-le now now' m le h.1)

pub AllPast-put :
    (now : ℕ) (k : RateLimitKey) (v : RateLimitValue) (m : Limiters)
    → v.last_update ≤ now
    → AllPast now m
    → AllPast now (put RateLimitKey-discrete k v m)
unfolding put
AllPast-put now k v [] le h = (le, tt)
AllPast-put now k v ((j, w) ∷ m) le h =
    elim (RateLimitKey-discrete j k)
      as (λ d. AllPast now (ite d ((k, v) ∷ m) ((j, w) ∷ put RateLimitKey-discrete k v m))) [
        | yes e ↦ (le, h.1)
        | no ne ↦ (h.0, AllPast-put now k v m le h.1)
      ]

pub Grows-put :
    (k : RateLimitKey) (v : RateLimitValue) (m : Limiters) (now : ℕ)
    → AllPast now m
    → now ≤ v.last_update
    → Grows m (put RateLimitKey-discrete k v m)
Grows-put k v m now past le j w found =
    rw (lookup-put RateLimitKey-discrete k j v m)
      (elim (RateLimitKey-discrete k j)
        as (λ d.
          (v' : RateLimitValue) × (ite d (some v) (lookup RateLimitKey-discrete j m) ≡ some v')
          × (w.last_update ≤ v'.last_update)) [
            | yes e ↦ (v, refl, le_trans (AllPast-lookup now m j w past found) le)
            | no ne ↦ (w, found, omega arith)
          ])

-- A bucket changes, but not its time.
pub Grows-put_alike :
    (k : RateLimitKey) (v w : RateLimitValue) (m : Limiters)
    → lookup RateLimitKey-discrete k m ≡ some v
    → w.last_update ≡ v.last_update
    → Grows m (put RateLimitKey-discrete k w m)
Grows-put_alike k v w m there same j x found =
    rw (lookup-put RateLimitKey-discrete k j w m)
      (elim (RateLimitKey-discrete k j)
        as (λ d.
          (v' : RateLimitValue) × (ite d (some w) (lookup RateLimitKey-discrete j m) ≡ some v')
          × (x.last_update ≤ v'.last_update)) [
            | yes e ↦
                let alike : x ≡ v = cc (e, there, found) in
                (w, refl, rw (alike, same) (le_refl v.last_update))
            | no ne ↦ (x, found, le_refl x.last_update)
          ])

module _ {V4 V6 : Type 0} (cfg : Config V4 V6) where
  pub AllGood-Grows :
      (m m' : Limiters) (now now' : ℕ) (c : Cache)
      → Grows m m'
      → now ≤ now'
      → AllGood cfg m now c
      → AllGood cfg m' now' c
  AllGood-Grows m m' now now' [] g le h = tt
  AllGood-Grows m m' now now' ((k, e) ∷ c) g le (good, rest) = (
    record {
      agrees = good.agrees;
      supported = good.supported;
      present = Present-Grows m m' e.last_access e.rate_limit_keys g good.present;
      past = le_trans good.past le;
    },
    AllGood-Grows m m' now now' c g le rest,
  )

  pub AllGood-put :
      (m : Limiters) (now : ℕ) (k : AclCacheKey) (e : AclCacheEntry) (c : Cache)
      → IsGood cfg m now k e
      → AllGood cfg m now c
      → AllGood cfg m now (put AclCacheKey-discrete k e c)
  unfolding put
  AllGood-put m now k e [] good h = (good, tt)
  AllGood-put m now k e ((j, w) ∷ c) good h =
      elim (AclCacheKey-discrete j k)
        as (λ d. AllGood cfg m now (ite d ((k, e) ∷ c) ((j, w) ∷ put AclCacheKey-discrete k e c))) [
          | yes same ↦ (good, h.1)
          | no ne ↦ (h.0, AllGood-put m now k e c good h.1)
        ]

  pub AllGood-lookup :
      (m : Limiters) (now : ℕ) (k : AclCacheKey) (e : AclCacheEntry) (c : Cache)
      → AllGood cfg m now c
      → lookup AclCacheKey-discrete k c ≡ some e
      → IsGood cfg m now k e
  unfolding lookup
  AllGood-lookup m now k e [] h found = absurd cc
  AllGood-lookup m now k e ((j, w) ∷ c) h found =
      from (AclCacheKey-discrete k j) (λ f. AllGood-lookup m now k e c h.1 f) found
    where
      from :
          (d : Dec (k ≡ j))
          → (lookup AclCacheKey-discrete k c ≡ some e → IsGood cfg m now k e)
          → ite d (some w) (lookup AclCacheKey-discrete k c) ≡ some e
          → IsGood cfg m now k e
      from (yes same) later f = let q : w ≡ e = cc in rw (same, ← q) h.0
      from (no ne) later f = later f
