-- ===== src/Acl/Process/Serve.antt =====
-- A processor that serves packets, cleans up and is made again for a new configuration
-- (easytier/src/common/acl_processor.rs).
use mathlib.Core.List.{lookup}
use native.Mathlib.Nat.{le_refl}
use mathlib.Core.Path.{subst}
use neo_easy_tier_deamon.Prelude.{
  ℕ, min, ◌≤◌, ◌≡◌, sym, refl, none, some, List, [], ◌∷◌, inl, inr, Option-cases,
}
use neo_easy_tier_deamon.Prelude.Assoc.{put}
use neo_easy_tier_deamon.Acl.{ChainType, PacketInfo, RateLimitKey, RateLimitKey-discrete}
use neo_easy_tier_deamon.Acl.State.{AclState, Clock, RateLimitValue}
use neo_easy_tier_deamon.Acl.State.Cleanup.{cleanup_pass}
use neo_easy_tier_deamon.Acl.Process.{process_packet}
use neo_easy_tier_deamon.Acl.Entry.{Config}
use neo_easy_tier_deamon.Acl.Process.Verdict.{HasPorts, verdict}
use neo_easy_tier_deamon.Acl.Process.Sound.{
  AllPast, IsSound, AllPast-lookup, AllPast-put, Grows-put_alike, AllGood-Grows,
}
use neo_easy_tier_deamon.Acl.Process.Keep.{is_limited, IsDone}
use neo_easy_tier_deamon.Acl.Process.Correct.{process_packet-IsDone}
use neo_easy_tier_deamon.Acl.Process.Sweep.{cleanup_pass-IsSound}
use neo_easy_tier_deamon.Limiter.{refill_pass, saturating_add}
use neo_easy_tier_deamon.Acl.Entry.{config_of, new_with_shared_state}
use neo_easy_tier_deamon.Acl.State.{refill}
use neo_easy_tier_deamon.Acl.State.Cleanup.{cleanup_expired_connections}
use neo_easy_tier_deamon.Acl.{CidrLib, Acl}

-- What happens to a processor: a packet, a refill of a bucket, a pass of either cleanup task, or a
-- reload, which keeps the connections, the buckets and the counters.
pub data AclEvent : Type 0 where
  packet : PacketInfo → ChainType → Clock → AclEvent
  refilled : RateLimitKey → ℕ → AclEvent
  swept : ℕ → AclEvent
  expired : ℕ → AclEvent
  reloaded : Acl → AclEvent

-- The process clock does not go back, and packets have ports where their protocol does.
abbrev pub InOrder : ℕ → List AclEvent → Type 0
InOrder now [] = Unit
InOrder now (packet p c t ∷ es) = HasPorts p × (now ≤ t.instant) × InOrder t.instant es
InOrder now (refilled k n ∷ es) = InOrder now es
InOrder now (swept t ∷ es) = (now ≤ t) × InOrder t es
InOrder now (expired t ∷ es) = InOrder now es
InOrder now (reloaded acl ∷ es) = InOrder now es

module _ {V4 V6 : Type 0} (lib : CidrLib V4 V6) where
  -- Every packet is done, from the state that the events before it leave.
  abbrev pub IsServed : Config V4 V6 → AclState → List AclEvent → Type 0
  IsServed cfg s [] = Unit
  IsServed cfg s (packet p c t ∷ es) =
      (d : IsDone cfg (verdict cfg p c) (is_limited cfg p c) t.instant (process_packet cfg p c t s))
      × IsServed cfg d.after es
  IsServed cfg s (refilled k n ∷ es) = IsServed cfg (refill k n s) es
  IsServed cfg s (swept t ∷ es) = IsServed cfg (cleanup_pass cfg.cache_max_size t s) es
  IsServed cfg s (expired t ∷ es) =
      IsServed cfg (record s { conn_track = cleanup_expired_connections 60 t s.conn_track }) es
  IsServed cfg s (reloaded acl ∷ es) =
      IsServed (config_of lib acl)
        (new_with_shared_state (some s.conn_track) (some s.rate_limiters) (some s.stats)) es

  refill-IsSound :
      (cfg : Config V4 V6) (now : ℕ) (k : RateLimitKey) (n : ℕ) (s : AclState)
      → IsSound cfg now s
      → IsSound cfg now (refill k n s)
  unfolding refill refill_pass
  refill-IsSound cfg now k n s h =
      elim (Option-cases (lookup RateLimitKey-discrete k s.rate_limiters)) [
        | inl e ↦
            let same : refill k n s ≡ s = rw (e, refill) refl in
            subst (λ x. IsSound cfg now x) (sym same) h
        | inr (v, e) ↦
            let w : RateLimitValue = record v {
              available = min (saturating_add v.available n) v.config.capacity;
            } in
            let changed : refill k n s
                ≡ record s { rate_limiters = put RateLimitKey-discrete k w s.rate_limiters } =
              rw (e, refill) refl in
            subst (λ x. IsSound cfg now x) (sym changed)
              (record {
                cache =
                    AllGood-Grows cfg s.rate_limiters _ now now s.rule_cache
                      (Grows-put_alike k v w s.rate_limiters e refl) (le_refl now) h.cache;
                limiters =
                    AllPast-put now k w s.rate_limiters
                      (AllPast-lookup now s.rate_limiters k v h.limiters e) h.limiters;
              })
      ]

  fresh-IsSound :
      (cfg : Config V4 V6) (now : ℕ) (s : AclState)
      → AllPast now s.rate_limiters
      → IsSound cfg now
          (new_with_shared_state (some s.conn_track) (some s.rate_limiters) (some s.stats))
  unfolding new_with_shared_state
  fresh-IsSound cfg now s past = record { cache = tt; limiters = past }

  served :
      (cfg : Config V4 V6) (now : ℕ) (s : AclState) (es : List AclEvent)
      → IsSound cfg now s
      → InOrder now es
      → IsServed cfg s es
  served cfg now s [] h ok = tt
  served cfg now s (packet p c t ∷ es) h (ports, le, ok) =
      let d = process_packet-IsDone cfg now p c t s ports le h in
      (d, served cfg t.instant d.after es d.sound ok)
  served cfg now s (refilled k n ∷ es) h ok =
      served cfg now (refill k n s) es (refill-IsSound cfg now k n s h) ok
  served cfg now s (swept t ∷ es) h (le, ok) =
      served cfg t (cleanup_pass cfg.cache_max_size t s) es
        (cleanup_pass-IsSound cfg now t cfg.cache_max_size s le h) ok
  served cfg now s (expired t ∷ es) h ok =
      served cfg now _ es (record { cache = h.cache; limiters = h.limiters }) ok
  served cfg now s (reloaded acl ∷ es) h ok =
      served (config_of lib acl) now _ es (fresh-IsSound (config_of lib acl) now s h.limiters) ok

  -- A processor made of a configuration serves every sequence of packets, refills of buckets,
  -- cleanups of the cache and of the connections, and reloads of other configurations, where the
  -- process clock does not go back and exactly the packets of TCP and UDP have ports: it never
  -- panics, and each packet gets the result of the first rule of the configuration then in force
  -- that matches it, or of its default action, or is dropped by the rate limit of this rule.
  pub new_with_shared_state-IsServed :
      (acl : Acl) (es : List AclEvent)
      → InOrder 0 es
      → IsServed (config_of lib acl) (new_with_shared_state none none none) es
  unfolding new_with_shared_state
  new_with_shared_state-IsServed acl es ok =
      served (config_of lib acl) 0 _ es (record { cache = tt; limiters = tt }) ok
