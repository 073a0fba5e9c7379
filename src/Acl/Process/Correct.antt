-- ===== src/Acl/Process/Correct.antt =====
-- The result of every packet (easytier/src/common/acl_processor.rs).
use mathlib.Core.List.{lookup}
use mathlib.Core.Path.{subst}
use neo_easy_tier_deamon.Prelude.{
  ℕ, ◌≤◌, ◌≡◌, ◌≢◌, sym, ap, refl, false, Option, none, some, inl, inr, Option-cases,
}
use neo_easy_tier_deamon.Acl.{
  inbound, outbound, forward, FastLookupRule, ChainType, unspecified_chain, PacketInfo,
  AclCacheKey-discrete,
}
use neo_easy_tier_deamon.Acl.State.{AclState, AclCacheEntry, Clock, cache_key}
use neo_easy_tier_deamon.Acl.Process.{
  with_cache_entry, apply_rule, default_passed, process_rules, process_uncached, process_packet,
}
use neo_easy_tier_deamon.Acl.Entry.{Config, rule_entry, default_result, default_entry, unsupported}
use neo_easy_tier_deamon.Acl.Process.Verdict.{
  HasPorts, entry_of, verdict, verdict_of, find_rule, process_rules-find_rule,
}
use neo_easy_tier_deamon.Acl.Process.Sound.{Present, IsSound, AllGood-lookup}
use neo_easy_tier_deamon.Acl.Process.Keep.{is_limited_rule, is_limited, IsDone, IsSound-le}
use neo_easy_tier_deamon.Acl.Process.Uncached.{default_IsDone, apply_rule-IsDone}
use neo_easy_tier_deamon.Acl.Process.Hit.{touch, IsDone-of, hit_IsDone}

module _ {V4 V6 : Type 0} (cfg : Config V4 V6) where
  touched_entry :
      (o : Option (FastLookupRule V4 V6 × ℕ)) (p : PacketInfo) (c : ChainType) (t : ℕ)
      (e : AclCacheEntry)
      → e ≡ entry_of cfg o p c e.last_access
      → record e { last_access = t } ≡ entry_of cfg o p c t
  unfolding rule_entry default_entry
  touched_entry none p c t e at = ap (λ (x : AclCacheEntry). record x { last_access = t }) at
  touched_entry (some (rule, n)) p c t e at =
      ap (λ (x : AclCacheEntry). record x { last_access = t }) at

  miss_IsDone :
      (o : Option (FastLookupRule V4 V6 × ℕ)) (now : ℕ) (p : PacketInfo) (c : ChainType) (t : Clock)
      (s : AclState)
      → HasPorts p
      → c ≢ unspecified_chain
      → find_rule cfg (cfg.rules c) 0 p ≡ o
      → now ≤ t.instant
      → IsSound cfg now s
      → IsDone cfg (verdict_of cfg o p c) (is_limited_rule cfg o) t.instant (elim o [
        | none ↦ some (default_result cfg c, default_passed cfg p c t s)
        | some (rule, k) ↦ apply_rule cfg rule k p c t s
      ])
  miss_IsDone none now p c t s ports sup found le h =
      default_IsDone cfg p c t s ports sup found (IsSound-le cfg now t.instant s le h)
  miss_IsDone (some (rule, n)) now p c t s ports sup found le h =
      apply_rule-IsDone cfg rule n now p c t s ports sup found le h

  packet_IsDone :
      (now : ℕ) (p : PacketInfo) (c : ChainType) (t : Clock) (s : AclState)
      → HasPorts p
      → c ≢ unspecified_chain
      → process_uncached cfg p c t s ≡ process_rules cfg (cfg.rules c) 0 p c t s
      → now ≤ t.instant
      → IsSound cfg now s
      → IsDone cfg
          (verdict_of cfg (find_rule cfg (cfg.rules c) 0 p) p c)
          (is_limited_rule cfg (find_rule cfg (cfg.rules c) 0 p))
          t.instant
          (process_packet cfg p c t s)
  unfolding process_packet
  packet_IsDone now p c t s ports sup unc le h =
      elim (Option-cases (lookup AclCacheKey-discrete (cache_key p c) s.rule_cache)) [
        | inl miss ↦
            rw (miss, unc, process_rules-find_rule cfg (cfg.rules c) 0 p c t s)
              (miss_IsDone (find_rule cfg (cfg.rules c) 0 p) now p c t s ports sup refl le h)
        | inr (e, hit) ↦
            let good =
              AllGood-lookup cfg s.rate_limiters now (cache_key p c) e s.rule_cache h.cache hit in
            let at : e ≡ entry_of cfg (find_rule cfg (cfg.rules c) 0 p) p c e.last_access =
              good.agrees p c ports refl in
            let touched = touched_entry (find_rule cfg (cfg.rules c) 0 p) p c t.instant e at in
            rw hit (
              subst
                (λ (x : AclCacheEntry).
                  IsDone cfg (verdict_of cfg (find_rule cfg (cfg.rules c) 0 p) p c)
                    (is_limited_rule cfg (find_rule cfg (cfg.rules c) 0 p)) t.instant
                    (with_cache_entry x.rate_limit_keys p x t (touch cfg (cache_key p c) x s)))
                (sym touched)
                (hit_IsDone cfg (find_rule cfg (cfg.rules c) 0 p) now e.last_access p c t s ports
                  sup refl le h
                  (subst
                    (λ (x : AclCacheEntry). Present s.rate_limiters e.last_access x.rate_limit_keys)
                    touched good.present)))
      ]

  -- A packet that has ports exactly if it is of TCP or UDP, at a time that is not before the last
  -- one, at a processor whose cache and rate limiters are sound, gets a result with no panic, from
  -- the cache or from the rules: that of the first rule that matches it, or of the default action,
  -- or a drop by the rate limit, which happens only where this rule has one. The processor is sound
  -- after it.
  pub process_packet-IsDone :
      (now : ℕ) (p : PacketInfo) (c : ChainType) (t : Clock) (s : AclState)
      → HasPorts p
      → now ≤ t.instant
      → IsSound cfg now s
      → IsDone cfg (verdict cfg p c) (is_limited cfg p c) t.instant (process_packet cfg p c t s)
  unfolding process_packet
  process_packet-IsDone now p unspecified_chain t s ports le h =
      elim (Option-cases
        (lookup AclCacheKey-discrete (cache_key p unspecified_chain) s.rule_cache)) [
          | inl miss ↦ rw miss (
              IsDone-of cfg (unsupported cfg) false t.instant _
                (s, refl, IsSound-le cfg now t.instant s le h))
          | inr (e, hit) ↦ absurd (
              (AllGood-lookup cfg s.rate_limiters now (cache_key p unspecified_chain) e s.rule_cache
                  h.cache hit).supported
                refl)
        ]
  process_packet-IsDone now p inbound t s ports le h =
      packet_IsDone now p inbound t s ports (λ e. cc) refl le h
  process_packet-IsDone now p outbound t s ports le h =
      packet_IsDone now p outbound t s ports (λ e. cc) refl le h
  process_packet-IsDone now p forward t s ports le h =
      packet_IsDone now p forward t s ports (λ e. cc) refl le h
