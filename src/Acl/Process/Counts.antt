-- ===== src/Acl/Process/Counts.antt =====
-- The counters of the rules (easytier/src/common/acl_processor.rs).
use mathlib.Core.Path.{subst}
use mathlib.Core.Logic.{ite}
use neo_easy_tier_deamon.Prelude.{
  ℕ, ◌+◌, ◌*◌, ◌%◌, ◌^◌, ◌<◌, ◌≡◌, ap, sym, refl, Bool, true, false, ltb, List, [], ◌∷◌,
  if◌then◌else◌, arith, inl, inr, Bool-cases,
}
use neo_easy_tier_deamon.Acl.{ChainType, FastLookupRule, PacketInfo}
use neo_easy_tier_deamon.Acl.State.{
  AclState, Clock, StatId, StatId-discrete, StatItem, of_rule, inc_stats, bump, increment_stat,
  check_connection_state,
}
use neo_easy_tier_deamon.Acl.State.Cleanup.{cache_result}
use neo_easy_tier_deamon.Acl.Process.{rule_passed}
use neo_easy_tier_deamon.Acl.Entry.{Config, is_tracked, rule_entry}

-- How often a counter is in a list.
abbrev pub occurrences : StatId → List StatId → ℕ
occurrences i [] = 0
occurrences i (j ∷ is) = ite (StatId-discrete j i) 1 0 + occurrences i is

-- What `n` packets of the size `size` make of a counter, in 64 bits.
abbrev IsCounted : (n size : ℕ) → StatItem → StatItem → Type 0
IsCounted n size x y =
    (y.packet_count ≡ (x.packet_count + n) % 2 ^ 64)
    × (y.byte_count ≡ (x.byte_count + n * size) % 2 ^ 64)

abbrev IsWord : StatItem → Type 0
IsWord x = (x.packet_count < 2 ^ 64) × (x.byte_count < 2 ^ 64)

bump-IsWord : (p : PacketInfo) (x : StatItem) → IsWord (bump p x)
bump-IsWord p x = (omega arith, omega arith)

bump-IsCounted :
    (p : PacketInfo) (n : ℕ) (x y : StatItem)
    → IsCounted n p.packet_size (bump p x) y
    → IsCounted (1 + n) p.packet_size x y
bump-IsCounted p n x y (a, b) =
    let once_more : (1 + n) * p.packet_size ≡ p.packet_size + n * p.packet_size = grind arith in
    (omega arith, omega arith)

inc_stats-counts :
    (is : List StatId) (p : PacketInfo) (f : StatId → StatItem) (i : StatId)
    → IsWord (f i)
    → IsCounted (occurrences i is) p.packet_size (f i) (inc_stats is p f i)
unfolding inc_stats
inc_stats-counts [] p f i (a, b) = (omega arith, omega arith)
inc_stats-counts (j ∷ is) p f i h =
    let g : StatId → StatItem = λ k. ite (StatId-discrete j k) (bump p (f k)) (f k) in
    let rest = inc_stats-counts is p g i in
    elim (StatId-discrete j i)
        as (λ d.
          (IsWord (ite d (bump p (f i)) (f i))
            → IsCounted (occurrences i is) p.packet_size (ite d (bump p (f i)) (f i))
                (inc_stats is p g i))
          → IsCounted (ite d 1 0 + occurrences i is) p.packet_size (f i) (inc_stats is p g i)) [
            | yes e ↦ λ r.
                bump-IsCounted p (occurrences i is) (f i) (inc_stats is p g i)
                  (r (bump-IsWord p (f i)))
            | no ne ↦ λ r.
                let none_here : 0 + occurrences i is ≡ occurrences i is = omega arith in
                subst (λ k. IsCounted k p.packet_size (f i) (inc_stats is p g i)) (sym none_here)
                  (r h)
          ]
      rest

module _ {V4 V6 : Type 0} (cfg : Config V4 V6) where
  rule_entry-occurrences :
      (rule : FastLookupRule V4 V6) (n : ℕ) (p : PacketInfo) (c : ChainType) (t : ℕ) (i : StatId)
      → occurrences i (rule_entry cfg rule n p c t).rule_stats_vec
        ≡ ite (StatId-discrete (of_rule c n) i) (if ltb 0 rule.rate_limit then 2 else 1) 0
  unfolding rule_entry
  rule_entry-occurrences rule n p c t i = elim (Bool-cases (ltb 0 rule.rate_limit)) [
    | inl y ↦ rw y (ground arith)
    | inr y ↦ rw y (ground arith)
  ]

  rule_passed-rule_stats :
      (rule : FastLookupRule V4 V6) (n : ℕ) (p : PacketInfo) (c : ChainType) (t : Clock)
      (s : AclState)
      → (rule_passed cfg rule n p c t s).rule_stats
        ≡ inc_stats (rule_entry cfg rule n p c t.instant).rule_stats_vec p s.rule_stats
  unfolding rule_passed cache_result increment_stat check_connection_state
  rule_passed-rule_stats rule n p c t s =
      ap (inc_stats (rule_entry cfg rule n p c t.instant).rule_stats_vec p)
        (kept (is_tracked cfg rule) _ s refl)
    where
      kept :
          (b : Bool) (x s : AclState)
          → x.rule_stats ≡ s.rule_stats
          → (if b then x else s).rule_stats ≡ s.rule_stats
      kept true x s e = e
      kept false x s e = refl

  -- A packet that a rule lets pass with no cached entry is counted once in the counters of this
  -- rule, and twice where the rule has a rate limit, modulo 2 ^ 64; the counters of other rules stay
  -- the same. This is of counters that are below 2 ^ 64 before.
  pub rule_passed-counts :
      (rule : FastLookupRule V4 V6) (n : ℕ) (p : PacketInfo) (c : ChainType) (t : Clock)
      (s : AclState) (i : StatId)
      → (s.rule_stats i).packet_count < 2 ^ 64
      → (s.rule_stats i).byte_count < 2 ^ 64
      → let times : ℕ =
          ite (StatId-discrete (of_rule c n) i) (if ltb 0 rule.rate_limit then 2 else 1) 0 in
        let after = (rule_passed cfg rule n p c t s).rule_stats i in
        (after.packet_count ≡ ((s.rule_stats i).packet_count + times) % 2 ^ 64)
        × (after.byte_count ≡ ((s.rule_stats i).byte_count + times * p.packet_size) % 2 ^ 64)
  rule_passed-counts rule n p c t s i packets bytes =
      rw (rule_passed-rule_stats rule n p c t s, ← rule_entry-occurrences rule n p c t.instant i)
        (inc_stats-counts (rule_entry cfg rule n p c t.instant).rule_stats_vec p s.rule_stats i
          (packets, bytes))
