-- ===== src/Probe/Record/FromRecords.antt =====
-- `HealthStats::from_records` of neo-uptime-node/src/db/mod.rs: the statistics of a list of stored
-- records, the latest first.
use Prim.Native.String.{String}
use neo_easy_tier_deamon.Prelude.{
  ℕ, suc, ◌+◌, ◌-◌, ◌≤◌, ◌≡◌, refl, Bool, true, false, ◌&&◌, Option, none, some, List, [], ◌∷◌,
  if◌then◌else◌, length, arith,
}
use neo_easy_tier_deamon.Prelude.Int.{ℤ, pos, is_positive, i32_add}
use neo_easy_tier_deamon.Probe.Status.{is_healthy}
use neo_easy_tier_deamon.Probe.Record.{HealthRow, HealthStats, Float, percentage, get_status}

-- `HealthStats::default()`
abbrev pub default_stats : {F : Type 0} → Float F → HealthStats F
default_stats f = record {
  total_checks = 0;
  healthy_count = 0;
  unhealthy_count = 0;
  health_percentage = f.f_zero;
  average_response_time = none;
  uptime_percentage = f.f_zero;
  last_check_time = none;
  last_status = none;
}

module _ (to_lowercase : String → String) where
  -- `Model::is_healthy`
  abbrev pub is_healthy_row : HealthRow → Bool
  is_healthy_row row = is_healthy (get_status to_lowercase row)

  abbrev pub count_healthy : List HealthRow → ℕ
  count_healthy [] = 0
  count_healthy (row ∷ rows) =
      let rest = count_healthy rows in if is_healthy_row row then suc rest else rest

  -- `healthy_records`: the healthy records with a response time.
  abbrev pub timed : List HealthRow → List HealthRow
  timed [] = []
  timed (row ∷ rows) =
      let rest = timed rows in
      if is_healthy_row row && is_positive row.response_time then row ∷ rest else rest

  abbrev pub sum_times : ℤ → List HealthRow → ℤ
  sum_times acc [] = acc
  sum_times acc (row ∷ rows) = sum_times (i32_add acc row.response_time) rows

  abbrev pub average : {F : Type 0} → Float F → List HealthRow → Option F
  average f [] = none
  average f (row ∷ rows) =
      some
        (f.f_div (f.from_i32 (sum_times (pos 0) (row ∷ rows))) (f.from_u64 (length (row ∷ rows))))

  unfoldable pub from_records : {F : Type 0} → Float F → List HealthRow → HealthStats F
  from_records f [] = default_stats f
  from_records f (row ∷ rows) =
      let total_checks = length (row ∷ rows) in
      let healthy_count = count_healthy (row ∷ rows) in
      record {
        total_checks = total_checks;
        healthy_count = healthy_count;
        unhealthy_count = total_checks - healthy_count;
        health_percentage = percentage f healthy_count total_checks;
        average_response_time = average f (timed (row ∷ rows));
        uptime_percentage = percentage f healthy_count total_checks;
        last_check_time = some row.checked_at;
        last_status = some (get_status to_lowercase row);
      }

  count_healthy-le-length : (rows : List HealthRow) → count_healthy rows ≤ length rows
  count_healthy-le-length [] = omega arith
  count_healthy-le-length (row ∷ rows) = ground (arith, count_healthy-le-length rows)

  -- There is an average exactly if some record is healthy and has a positive response time.
  abbrev pub any_timed : List HealthRow → Bool
  any_timed [] = false
  any_timed (row ∷ rows) =
      let rest = any_timed rows in
      if is_healthy_row row && is_positive row.response_time then true else rest

  abbrev pub has_average : {F : Type 0} → HealthStats F → Bool
  has_average s = elim s.average_response_time [ none ↦ false | some x ↦ true ]

  average-any_timed :
      {F : Type 0} (f : Float F) (rows : List HealthRow)
      → elim (average f (timed rows)) [ none ↦ false | some x ↦ true ] ≡ any_timed rows
  average-any_timed f [] = refl
  average-any_timed f (row ∷ rows) = ground (arith, average-any_timed f rows)

  -- The statistics of a list of records count each record once, as healthy or as not healthy, and
  -- they have an average exactly if some record is healthy with a positive response time.
  from_records_counts :
      {F : Type 0} (f : Float F) (rows : List HealthRow)
      → let s = from_records f rows in
        (s.total_checks ≡ length rows)
        × (s.healthy_count + s.unhealthy_count ≡ s.total_checks)
        × (s.healthy_count ≡ count_healthy rows)
        × (has_average s ≡ any_timed rows)
  unfolding from_records
  from_records_counts f [] = (refl, refl, refl, refl)
  from_records_counts f (row ∷ rows) = (
    refl,
    (let le = count_healthy-le-length (row ∷ rows) in omega arith),
    refl,
    average-any_timed f (row ∷ rows),
  )
