-- ===== src/Probe/Check/Passes.antt =====
-- What a pass of `node_health_check_task` leaves (neo-uptime-node/src/health_checker.rs).
use Prim.Native.String.{String}
use neo_easy_tier_deamon.Prelude.{ℕ, ◌≡◌, refl, true, false, Option, none, some}
use neo_easy_tier_deamon.Prelude.Int.{ℤ, int_eq, int_eq_iff, as_i32}
use neo_easy_tier_deamon.Probe.Status.{HealthStatus, healthy, unhealthy}
use neo_easy_tier_deamon.Probe.Record.{HealthyMemRecord, update_health_status}
use neo_easy_tier_deamon.Probe.Db.{Orm, update_node_status, update_node_version}
use neo_easy_tier_deamon.Probe.Db.Laws.{update_node_status_lem, update_node_version_lem}
use neo_easy_tier_deamon.Probe.Sync.{IdMap}
use neo_easy_tier_deamon.Probe.Sync.Keeps.{Keeps, Keeps-trans, Updated-Keeps}
use neo_easy_tier_deamon.Probe.Check.{
  Failure, Tested, passed, bail, panic, record_of, record_or_new, record_health_status, check_pass,
}

-- The status that a test stands for.
abbrev pub status_of : Tested → HealthStatus
status_of (passed version time conns) = healthy
status_of (bail e) = unhealthy
status_of panic = unhealthy

module _ {S : Type 0} (db : Orm S)
    (add_record : ℤ → HealthStatus → Option ℤ → Option String → S → S) (message : Failure → String)
    (add_record_keeps : (i : ℤ) (status : HealthStatus) (time : Option ℤ) (error : Option String)
        (s : S)
      → Keeps db s (add_record i status time error s)) where
  -- What a pass leaves of the records and of the table.
  pub record IsFollowed (i : ℤ) (t : Tested) (s : S) (m : IdMap HealthyMemRecord) (s' : S)
      (m' : IdMap HealthyMemRecord) : Type 0 where
    pub current : HealthyMemRecord
    pub found : record_of i m' ≡ some current
    pub status : current.current_health_status ≡ status_of t
    pub others : (j : ℤ) → int_eq i j ≡ false → record_of j m' ≡ record_of j m
    pub rows : Keeps db s s'

  -- A pass whose test does not panic ends. Afterwards the node has a record in memory with the
  -- status that the test stands for, the records of the other nodes are as they were, and every
  -- row of the table still has a row under its id, if writing a health record keeps the rows.
  pub check_pass-IsFollowed :
      (i : ℤ) (t : Tested) (now now' : ℕ) (s : S) (m : IdMap HealthyMemRecord)
      → (t ≡ panic → true ≡ false)
      → (s' : S) × (m' : IdMap HealthyMemRecord) × (check_pass db add_record message i t now now'
            (s, m)
          ≡ some (s', m'))
        × IsFollowed i t s m s' m'
  unfolding check_pass record_health_status update_health_status
  check_pass-IsFollowed i panic now now' s m h = absurd (let bad = h refl in cc)
  check_pass-IsFollowed i (bail e) now now' s m h =
      let out = update_node_status db i false none now s in
      (
        _,
        _,
        refl,
        record {
          current =
              update_health_status (record_or_new i now (record_of i m)) unhealthy none
                (some (message e)) now now';
          found = rw ((int_eq_iff i i).1 refl) refl;
          status = refl;
          others = λ j k. rw k refl;
          rows =
              Keeps-trans db s out.1 _
                (Updated-Keeps db _ i s out (update_node_status_lem db i false none now s))
                (add_record_keeps i unhealthy none (some (message e)) out.1);
        },
      )
  check_pass-IsFollowed i (passed v t c) now now' s m h =
      let out = update_node_status db i true (some (as_i32 c)) now s in
      let s2 = add_record i healthy (some (as_i32 t)) none out.1 in
      let last = update_node_version db i v now s2 in
      (
        _,
        _,
        refl,
        record {
          current =
              update_health_status (record_or_new i now (record_of i m)) healthy (some (as_i32 t))
                none now now';
          found = rw ((int_eq_iff i i).1 refl) refl;
          status = refl;
          others = λ j k. rw k refl;
          rows =
              Keeps-trans db s s2 last.1
                (Keeps-trans db s out.1 s2
                  (Updated-Keeps db _ i s out
                    (update_node_status_lem db i true (some (as_i32 c)) now s))
                  (add_record_keeps i healthy (some (as_i32 t)) none out.1))
                (Updated-Keeps db _ i s2 last (update_node_version_lem db i v now s2));
        },
      )
