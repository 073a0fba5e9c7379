-- ===== src/Probe/Record.antt =====
-- `HealthyMemRecord` of neo-uptime-node/src/health_checker.rs: what the probe remembers of a node.
-- A time is in whole seconds since the epoch. A method that reads the clock takes what it read as
-- an argument, one for each reading.
pub mod History
pub mod Tallies
pub mod CounterRing
pub mod Stats
pub mod Load
pub mod FromRecords
use Prim.Native.String.{String}
use text.Mathlib.Text.{◌==◌}
use neo_easy_tier_deamon.Prelude.{
  ℕ, zero, suc, ◌+◌, ◌-◌, ◌*◌, ltb, Bool, true, false, Option, none, some, List, [], ◌∷◌,
  if◌then◌else◌,
}
use neo_easy_tier_deamon.Prelude.Int.{ℤ, pos, int_eq}
use neo_easy_tier_deamon.Prelude.Words.{u64_add, u64_sub}
use neo_easy_tier_deamon.Probe.Status.{HealthStatus, unknown, is_healthy, from_string}
use neo_easy_tier_deamon.Probe.Ring.{
  Ring, RingItem, ring_size, granularity_sec, max_duration_sec, slot_of, item_at, update_at,
  empty_ring, inc, get, try_update_round,
}

pub record HealthyMemRecord : Type 0 where
  pub node_id : ℤ
  pub current_health_status : HealthStatus
  pub last_error_info : Option String
  pub last_check_time : ℕ
  pub last_response_time : Option ℤ
  pub total_check_counter_ring : Ring
  pub healthy_counter_ring : Ring

-- A row of the table `health_records` (db/entity/health_records.rs).
pub record HealthRow : Type 0 where
  pub id : ℤ
  pub node_id : ℤ
  pub status : String
  pub response_time : ℤ
  pub error_message : String
  pub checked_at : ℕ

unfoldable pub new : ℤ → ℕ → HealthyMemRecord
new node_id now = record {
  node_id = node_id;
  current_health_status = unknown;
  last_error_info = none;
  last_check_time = now;
  last_response_time = none;
  total_check_counter_ring = empty_ring;
  healthy_counter_ring = empty_ring;
}

-- The three increments of `update_health_status`, at the clock's second reading.
abbrev pub count_check : Bool → ℕ → HealthyMemRecord → HealthyMemRecord
count_check ok now r =
    let i = slot_of now in
    let total = update_at r.total_check_counter_ring i (λ x. inc x now) in
    let aged = update_at r.healthy_counter_ring i (λ x. try_update_round x now) in
    record r {
      total_check_counter_ring = total;
      healthy_counter_ring = if ok then update_at aged i (λ x. inc x now) else aged;
    }

-- `now` is the clock's first reading, `now'` its second.
unfoldable pub update_health_status :
    HealthyMemRecord → HealthStatus → Option ℤ → Option String → ℕ → ℕ → HealthyMemRecord
update_health_status r status response_time error_message now now' =
    count_check (is_healthy status) now' (record r {
      current_health_status = status;
      last_check_time = now;
      last_response_time = response_time;
      last_error_info = error_message;
    })

-- The sum of the first `n` counters of a ring.
unfoldable pub sum_counters : Ring → ℕ → ℕ
sum_counters ring zero = 0
sum_counters ring (suc n) = u64_add (sum_counters ring n) (item_at ring n).counter

-- `HealthStats` of db/mod.rs, over the type of the floating point numbers.
pub record HealthStats (F : Type 0) : Type 0 where
  pub total_checks : ℕ
  pub healthy_count : ℕ
  pub unhealthy_count : ℕ
  pub health_percentage : F
  pub average_response_time : Option F
  pub uptime_percentage : F
  pub last_check_time : Option ℕ
  pub last_status : Option HealthStatus

-- The operations of `f64` that the statistics use.
pub record Float (F : Type 0) : Type 0 where
  pub f_zero : F
  pub f_hundred : F
  pub from_u64 : ℕ → F
  pub from_i32 : ℤ → F
  pub f_div : F → F → F
  pub f_mul : F → F → F

-- `if total_checks > 0 { (healthy_count as f64 / total_checks as f64) * 100.0 } else { 0.0 }`
abbrev pub percentage : {F : Type 0} → Float F → ℕ → ℕ → F
percentage f healthy_count total_checks =
    if ltb 0 total_checks
    then f.f_mul (f.f_div (f.from_u64 healthy_count) (f.from_u64 total_checks)) f.f_hundred
    else f.f_zero

abbrev pub map_option {ℓ κ} : {A : Type ℓ} {B : Type κ} → (A → B) → Option A → Option B
map_option f none = none
map_option f (some a) = some (f a)

-- `hours` is not used, and neither is the clock. The subtraction wraps.
pub get_health_stats : {F : Type 0} → Float F → HealthyMemRecord → ℕ → HealthStats F
get_health_stats f r hours =
    let total_checks = sum_counters r.total_check_counter_ring ring_size in
    let healthy_count = sum_counters r.healthy_counter_ring ring_size in
    record {
      total_checks = total_checks;
      healthy_count = healthy_count;
      unhealthy_count = u64_sub total_checks healthy_count;
      health_percentage = percentage f healthy_count total_checks;
      average_response_time = map_option f.from_i32 r.last_response_time;
      uptime_percentage = percentage f healthy_count total_checks;
      last_check_time = some r.last_check_time;
      last_status = some r.current_health_status;
    }

-- The loop of `get_counter_ring` from `i` on: the ring of totals as `get` leaves it, and what the
-- two lists hold from place `i` on.
pub counter_ring_from : ℕ → ℕ → Ring → Ring → ℕ → Ring × List ℕ × List ℕ
counter_ring_from zero i total healthy now = (total, [], [])
counter_ring_from (suc n) i total healthy now =
    let ring_time = now - i * granularity_sec in
    let j = slot_of ring_time in
    let (item, count) = get (item_at total j) ring_time in
    let (total', totals, healthies) =
      counter_ring_from n (i + 1) (update_at total j (λ _. item)) healthy now in
    (total', count ∷ totals, (item_at healthy j).counter ∷ healthies)

-- `get_counter_ring` changes the record: a total of another round is reset.
pub get_counter_ring : HealthyMemRecord → HealthyMemRecord × List ℕ × List ℕ
get_counter_ring r =
    let (total, totals, healthies) =
      counter_ring_from ring_size 0 r.total_check_counter_ring r.healthy_counter_ring
        r.last_check_time in
    (record r { total_check_counter_ring = total }, totals, healthies)

module _ (to_lowercase : String → String) where
  -- `Model::get_status`
  abbrev pub get_status : HealthRow → HealthStatus
  get_status row = from_string to_lowercase row.status

  -- One pass of the loop of `populate_ring_from_records`. Unlike an update, it leaves the ring of
  -- the healthy checks alone where the record is not healthy.
  pub populate_one : ℕ → HealthRow → HealthyMemRecord → HealthyMemRecord
  populate_one now row r =
      let i = slot_of row.checked_at in
      let counted = record r {
        total_check_counter_ring =
            update_at r.total_check_counter_ring i (λ x. inc x row.checked_at);
        healthy_counter_ring =
            if is_healthy (get_status row)
            then update_at r.healthy_counter_ring i (λ x. inc x row.checked_at)
            else r.healthy_counter_ring;
      } in
      if ltb (now - row.checked_at) max_duration_sec then counted else r

  pub populate_ring_from_records : ℕ → List HealthRow → HealthyMemRecord → HealthyMemRecord
  unfolding populate_one
  populate_ring_from_records now [] r = r
  populate_ring_from_records now (row ∷ rows) r =
      populate_ring_from_records now rows (populate_one now row r)

  -- What `from_db_records` takes over from the first row.
  abbrev pub from_latest : List HealthRow → HealthyMemRecord → HealthyMemRecord
  from_latest [] r = r
  from_latest (latest ∷ _) r = record r {
    current_health_status = get_status latest;
    last_check_time = latest.checked_at;
    last_response_time =
        if int_eq latest.response_time (pos 0) then none else some latest.response_time;
    last_error_info = if latest.error_message == "" then none else some latest.error_message;
  }

  -- `now` is read by `new`, `now'` by `populate_ring_from_records`.
  pub from_db_records : ℤ → List HealthRow → ℕ → ℕ → HealthyMemRecord
  unfolding populate_ring_from_records new
  from_db_records node_id records now now' =
      populate_ring_from_records now' records (from_latest records (new node_id now))
