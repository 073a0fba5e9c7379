-- ===== src/Tests/Records.antt =====
-- Examples of the probe's records.
use Prim.Native.String.{String}
use neo_easy_tier_deamon.Prelude.{
  ℕ, ◌+◌, ◌-◌, ◌*◌, ◌/◌, ◌≡◌, refl, ap, true, false, none, some, List, [], ◌∷◌, arith, get_elem?,
}
use neo_easy_tier_deamon.Prelude.Int.{pos, negsuc}
use neo_easy_tier_deamon.Probe.Status.{
  HealthStatus, healthy, timeout, is_healthy, from_string, to_string, from_string-to_string,
}
use neo_easy_tier_deamon.Probe.Ring.{
  ring_size, item_at, granularity_sec, empty_ring, try_update_round, inc,
}
use neo_easy_tier_deamon.Probe.Record.{
  HealthRow, Float, get_counter_ring, from_db_records, new, update_health_status,
}
use neo_easy_tier_deamon.Probe.Record.History.{Check, replay, tally, Latest}
use neo_easy_tier_deamon.Probe.Record.Tallies.{any_check, healthy_check, replay_slots}
use neo_easy_tier_deamon.Probe.Record.CounterRing.{get_counter_ring_totals, get_counter_ring_stale}
use neo_easy_tier_deamon.Probe.Record.Load.{from_db_records_parted}

abbrev check : HealthStatus → ℕ → Check
check status at = record {
  status = status;
  response_time = none;
  error_message = none;
  read_at = at;
  at = at;
}

-- A healthy check, and one that times out a day and a quarter of an hour later.
abbrev first_at : ℕ
first_at = 1728000011

abbrev last_at : ℕ
last_at = 1728087311

abbrev checks : List Check
checks = check timeout last_at ∷ check healthy first_at ∷ []

replay_slots_example :
    let r = replay (pos 1) 0 checks in
    let t = item_at r.total_check_counter_ring 1 in
    let h = item_at r.healthy_counter_ring 1 in
    (t.counter ≡ tally any_check (t.round * ring_size + 1) checks)
    × (h.counter ≡ tally healthy_check (t.round * ring_size + 1) checks)
    × (h.round ≡ t.round)
    × Latest 1 t.round checks
replay_slots_example =
    replay_slots (pos 1) 0 checks 1 ((omega arith, tt), (tt, tt)) (omega arith) (omega arith)

get_counter_ring_totals_example :
    let r = replay (pos 1) 0 checks in
    get_elem? (get_counter_ring r).1 1
    ≡ some (tally any_check (r.last_check_time / granularity_sec - 1) checks)
unfolding replay new update_health_status
get_counter_ring_totals_example =
    get_counter_ring_totals (pos 1) 0 checks 1 ((omega arith, tt), (tt, tt)) (omega arith)
      (omega arith, (omega arith, tt)) (omega arith) (omega arith)

get_counter_ring_stale_example :
    let r = replay (pos 1) 0 checks in
    let old = (item_at r.healthy_counter_ring 0).round in
    (get_elem? (get_counter_ring r).1 1 ≡ some 0)
    × (tally any_check (r.last_check_time / granularity_sec - 1) checks ≡ 0)
    × (get_elem? (get_counter_ring r).2 1 ≡ some (tally healthy_check (old * ring_size + 0) checks))
unfolding replay new update_health_status empty_ring try_update_round inc
get_counter_ring_stale_example =
    get_counter_ring_stale (pos 1) 0 checks 1 0 ((omega arith, tt), (tt, tt)) (omega arith)
      (omega arith, (omega arith, tt)) (omega arith) (omega arith) refl (λ e. omega arith)

-- Whole numbers in place of the floating point ones.
abbrev whole_numbers : Float ℕ
whole_numbers = record {
  f_zero = 0;
  f_hundred = 100;
  from_u64 = λ n. n;
  from_i32 = λ i. elim i [ pos n ↦ n | negsuc n ↦ 0 ];
  f_div = λ a b. a / b;
  f_mul = λ a b. a * b;
}

abbrev recent : List Check
recent = check timeout (first_at + 900) ∷ check healthy first_at ∷ []

abbrev row : String → ℕ → HealthRow
row status at = record {
  id = pos 1;
  node_id = pos 1;
  status = status;
  response_time = pos 0;
  error_message = "";
  checked_at = at;
}

abbrev rows : List HealthRow
rows = row "healthy" (first_at + 20) ∷ row "timeout" first_at ∷ []

read_healthy : is_healthy (from_string (λ s. s) "healthy") ≡ true
unfolding to_string
read_healthy = ap is_healthy (from_string-to_string (λ s. s) (λ s. refl) healthy)

read_timeout : is_healthy (from_string (λ s. s) "timeout") ≡ false
unfolding to_string
read_timeout = ap is_healthy (from_string-to_string (λ s. s) (λ s. refl) timeout)

-- Two healthy rows of a round, and an unhealthy one of the round before.
from_db_records_parted_example :
    let r =
      from_db_records
        (λ s. s)
        (pos 1)
        (row "healthy" 1728086410 ∷ row "healthy" 1728086405 ∷ row "timeout" 1728000800 ∷ [])
        5
        1728086420 in
    ((item_at r.total_check_counter_ring 0).counter ≡ 1)
    × ((item_at r.healthy_counter_ring 0).counter ≡ 2)
from_db_records_parted_example =
    from_db_records_parted (λ s. s) (pos 1) (row "healthy" 1728086410) (row "healthy" 1728086405)
      (row "timeout" 1728000800) 5 1728086420 0 (omega arith, omega arith, omega arith)
      (refl, refl, refl) (refl, λ e. omega arith) (read_healthy, read_healthy, read_timeout)
