-- ===== src/Limiter.antt =====
-- The token bucket of easytier/src/common/token_bucket.rs. The compare-and-exchange loops are cut
-- at their atomic accesses. The floating point product that turns the time since the last refill
-- into tokens, and the background task that calls `refill`, are not modelled: the tokens to add
-- are an argument.
pub mod Threads
use neo_easy_tier_deamon.Prelude.{
  ℕ, ◌+◌, ◌-◌, ◌*◌, ◌/◌, ◌%◌, ◌^◌, ltb, Bool, true, false, Option, none, some, if◌then◌else◌, min,
  max,
}
use neo_easy_tier_deamon.Prelude.Words.{u64_mod}

-- `LimiterConfig` (easytier/src/proto/common.proto)
pub record LimiterConfig : Type 0 where
  pub burst_rate : Option ℕ
  pub bps : Option ℕ
  pub fill_duration_ms : Option ℕ

pub record BucketConfig : Type 0 where
  pub capacity : ℕ
  pub fill_rate : ℕ
  pub refill_interval_ms : ℕ

abbrev pub unwrap_or : Option ℕ → ℕ → ℕ
unwrap_or none d = d
unwrap_or (some n) d = n

abbrev pub interval_of : Option ℕ → ℕ
interval_of none = 10
interval_of (some x) = max 1 x

-- `impl From<LimiterConfig> for BucketConfig`; the product wraps.
unfoldable pub from_limiter : LimiterConfig → BucketConfig
from_limiter cfg =
    let burst_rate = max 1 (unwrap_or cfg.burst_rate 1) in
    let fill_rate = max 8196 (unwrap_or cfg.bps ((u64_mod - 1) / burst_rate)) in
    record {
      capacity = (burst_rate * fill_rate) % u64_mod;
      fill_rate = fill_rate;
      refill_interval_ms = interval_of cfg.fill_duration_ms;
    }

-- `u64::saturating_add`
abbrev pub saturating_add : ℕ → ℕ → ℕ
saturating_add a b = min (a + b) (u64_mod - 1)

-- What a pass of a loop does with the value that it has loaded: it returns, or it tries to exchange
-- this value for another.
pub data Attempt : Type 0 where
  return : Bool → Attempt
  exchange : ℕ → Attempt

-- The test of `try_consume` before its loop.
unfoldable pub oversized : BucketConfig → ℕ → Bool
oversized cfg tokens = ltb cfg.capacity tokens

-- A pass of the loop of `try_consume`.
unfoldable pub consume_pass : ℕ → ℕ → Attempt
consume_pass tokens current =
    if ltb current tokens then return false else exchange (current - tokens)

-- A pass of the loop of `refill`.
unfoldable pub refill_pass : BucketConfig → ℕ → ℕ → Attempt
refill_pass cfg tokens_to_add current =
    exchange (min (saturating_add current tokens_to_add) cfg.capacity)
