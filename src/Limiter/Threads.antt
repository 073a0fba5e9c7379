-- ===== src/Limiter/Threads.antt =====
-- Threads that share a token bucket (easytier/src/common/token_bucket.rs), as interleavings of
-- their atomic accesses.
use neo_easy_tier_deamon.Prelude.{
  ℕ, ◌+◌, ◌-◌, ◌<◌, ◌≤◌, ◌≡◌, refl, Bool, false, ◌==◌, if◌then◌else◌, arith, List, [], ◌∷◌,
  Bool-cases, inl, inr,
}
use native.Mathlib.Nat.{le_refl}
use neo_easy_tier_deamon.Prelude.Words.{u64_mod}
use neo_easy_tier_deamon.Limiter.{
  BucketConfig, Attempt, return, exchange, oversized, consume_pass, refill_pass,
}

-- Where a thread stands: outside, or in a loop with the value that it has loaded.
pub data Local : Type 0 where
  outside : Local
  consuming : ℕ → ℕ → Local
  refilling : ℕ → ℕ → Local

-- The bucket and its threads, with a count of the tokens given out and of those filled in.
pub record Bucket : Type 0 where
  pub available : ℕ
  pub given : ℕ
  pub filled : ℕ
  pub threads : ℕ → Local

abbrev pub update : (ℕ → Local) → ℕ → Local → ℕ → Local
update f i x j = if i == j then x else f j

-- What thread `i` may do next. A weak exchange can fail though the value has not changed.
pub data Move : Type 0 where
  call_consume : ℕ → Move
  call_refill : ℕ → Move
  pass : Bool → Move

-- The attempt of a thread that is in a loop.
abbrev pub attempt : BucketConfig → Local → Attempt
attempt cfg outside = return false
attempt cfg (consuming tokens current) = consume_pass tokens current
attempt cfg (refilling tokens current) = refill_pass cfg tokens current

-- The loop goes on with the value that the failed exchange has found.
abbrev pub reload : Local → ℕ → Local
reload outside actual = outside
reload (consuming tokens current) actual = consuming tokens actual
reload (refilling tokens current) actual = refilling tokens actual

abbrev pub loaded : Local → ℕ
loaded outside = 0
loaded (consuming tokens current) = current
loaded (refilling tokens current) = current

-- The counts after an exchange.
abbrev pub given_by : Local → ℕ → ℕ
given_by (consuming tokens current) new = tokens
given_by _ new = 0

abbrev pub filled_by : Local → ℕ → ℕ
filled_by (refilling tokens current) new = new - current
filled_by _ new = 0

-- The exchange of `new` for the loaded value. `spurious` is whether it fails without a reason.
unfoldable pub exchange_at : Bool → ℕ → ℕ → Local → Bucket → Bucket
exchange_at spurious i new l b =
    if b.available == loaded l
    then if spurious
      then record b { threads = update b.threads i (reload l b.available) }
      else record b {
        available = new;
        given = b.given + given_by l new;
        filled = b.filled + filled_by l new;
        threads = update b.threads i outside;
      }
    else record b { threads = update b.threads i (reload l b.available) }

unfoldable pub pass_at : Attempt → Bool → ℕ → Local → Bucket → Bucket
unfolding exchange_at
pass_at (return r) spurious i l b = record b { threads = update b.threads i outside }
pass_at (exchange new) spurious i l b = exchange_at spurious i new l b

abbrev pub enter : Local → ℕ → Local → Bucket → Bucket
enter outside i l b = record b { threads = update b.threads i l }
enter _ i l b = b

-- One move of thread `i`. A call of `try_consume` that is too large returns at once, and so does a
-- call of `refill` that has no token to add.
unfoldable pub step : BucketConfig → ℕ → Move → Bucket → Bucket
unfolding pass_at
step cfg i (call_consume tokens) b =
    if oversized cfg tokens then b else enter (b.threads i) i (consuming tokens b.available) b
step cfg i (call_refill tokens) b =
    if tokens == 0 then b else enter (b.threads i) i (refilling tokens b.available) b
step cfg i (pass spurious) b = pass_at (attempt cfg (b.threads i)) spurious i (b.threads i) b

unfoldable pub run : BucketConfig → List (ℕ × Move) → Bucket → Bucket
unfolding step
run cfg [] b = b
run cfg ((i, m) ∷ ms) b = run cfg ms (step cfg i m b)

-- `new_from_cfg`: a full bucket.
unfoldable pub full : BucketConfig → Bucket
full cfg = record { available = cfg.capacity; given = 0; filled = 0; threads = λ _. outside }

pub record IsSound (cfg : BucketConfig) (b : Bucket) : Type 0 where
  pub bounded : b.available ≤ cfg.capacity
  pub conserved : b.given + b.available ≡ cfg.capacity + b.filled

exchange_at-IsSound :
    (cfg : BucketConfig) (spurious : Bool) (i new : ℕ) (l : Local) (b : Bucket)
    → IsSound cfg b
    → attempt cfg l ≡ exchange new
    → cfg.capacity < u64_mod
    → IsSound cfg (exchange_at spurious i new l b)
unfolding exchange_at consume_pass refill_pass
exchange_at-IsSound cfg spurious i new outside b v e small = cc
exchange_at-IsSound cfg spurious i new (consuming tokens current) b v e small = ground arith
exchange_at-IsSound cfg spurious i new (refilling tokens current) b v e small = ground arith

pass_at-IsSound :
    (cfg : BucketConfig) (a : Attempt) (spurious : Bool) (i : ℕ) (l : Local) (b : Bucket)
    → IsSound cfg b
    → attempt cfg l ≡ a
    → cfg.capacity < u64_mod
    → IsSound cfg (pass_at a spurious i l b)
unfolding pass_at
pass_at-IsSound cfg (return r) spurious i l b v e small = record {
  bounded = v.bounded;
  conserved = v.conserved;
}
pass_at-IsSound cfg (exchange new) spurious i l b v e small =
    exchange_at-IsSound cfg spurious i new l b v e small

enter-IsSound :
    (cfg : BucketConfig) (l l' : Local) (i : ℕ) (b : Bucket)
    → IsSound cfg b
    → IsSound cfg (enter l i l' b)
enter-IsSound cfg outside l' i b v = record { bounded = v.bounded; conserved = v.conserved }
enter-IsSound cfg (consuming t c) l' i b v = v
enter-IsSound cfg (refilling t c) l' i b v = v

step-IsSound :
    (cfg : BucketConfig) (i : ℕ) (m : Move) (b : Bucket)
    → IsSound cfg b
    → cfg.capacity < u64_mod
    → IsSound cfg (step cfg i m b)
unfolding step
step-IsSound cfg i (call_consume tokens) b v small = elim (Bool-cases (oversized cfg tokens)) [
  | inl e ↦ rw e v
  | inr e ↦ rw e (enter-IsSound cfg (b.threads i) (consuming tokens b.available) i b v)
]
step-IsSound cfg i (call_refill tokens) b v small = elim (Bool-cases (tokens == 0)) [
  | inl e ↦ rw e v
  | inr e ↦ rw e (enter-IsSound cfg (b.threads i) (refilling tokens b.available) i b v)
]
step-IsSound cfg i (pass spurious) b v small =
    pass_at-IsSound cfg (attempt cfg (b.threads i)) spurious i (b.threads i) b v refl small

run-IsSound_from :
    (cfg : BucketConfig) (ms : List (ℕ × Move)) (b : Bucket)
    → IsSound cfg b
    → cfg.capacity < u64_mod
    → IsSound cfg (run cfg ms b)
unfolding run
run-IsSound_from cfg [] b v small = v
run-IsSound_from cfg ((i, m) ∷ ms) b v small =
    run-IsSound_from cfg ms (step cfg i m b) (step-IsSound cfg i m b v small) small

-- For a capacity of 64 bits, from a full bucket, in whatever order any threads make their atomic accesses and whichever
-- exchanges fail, the bucket never holds more than its capacity, and the tokens given out are
-- exactly the capacity and the tokens filled in, less those that are left.
pub run-IsSound :
    (cfg : BucketConfig) (ms : List (ℕ × Move))
    → cfg.capacity < u64_mod
    → IsSound cfg (run cfg ms (full cfg))
unfolding full
run-IsSound cfg ms small =
    run-IsSound_from cfg ms (full cfg)
      (record { bounded = le_refl cfg.capacity; conserved = omega arith }) small
