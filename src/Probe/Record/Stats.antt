-- ===== src/Probe/Record/Stats.antt =====
-- `get_health_stats` of neo-uptime-node/src/health_checker.rs, on a record made by updates.
use neo_easy_tier_deamon.Prelude.{
  ℕ, suc, ◌+◌, ◌/◌, ◌<◌, ◌≤◌, List, [], ◌∷◌, length, Bool, if◌then◌else◌, arith,
}
use neo_easy_tier_deamon.Probe.Status.{HealthStatus, unknown}
use neo_easy_tier_deamon.Probe.Ring.{Ring, ring_size, granularity_sec}
use neo_easy_tier_deamon.Probe.Record.History.{Check}

-- Every check of the list is less than 96 quarters of an hour older than the quarter `w`.
abbrev pub Within : ℕ → List Check → Type 0
Within w [] = Unit
Within w (c ∷ cs) = (w < c.at / granularity_sec + ring_size) × Within w cs

-- How many checks of the kind `p` there are.
abbrev pub count : (Check → Bool) → List Check → ℕ
count p [] = 0
count p (c ∷ cs) = let rest = count p cs in if p c then suc rest else rest

pub count-le-length : (p : Check → Bool) (cs : List Check) → count p cs ≤ length cs
count-le-length p [] = omega arith
count-le-length p (c ∷ cs) = ground (arith, count-le-length p cs)

Within-mono : (w w' : ℕ) (cs : List Check) → w' ≤ w → Within w cs → Within w' cs
Within-mono w w' [] h v = tt
Within-mono w w' (c ∷ cs) h v = (omega arith, Within-mono w w' cs h v.1)

-- The history is shorter than a day at each of its checks.
abbrev pub IsWithinDay : List Check → Type 0
IsWithinDay [] = Unit
IsWithinDay (c ∷ cs) = Within (c.at / granularity_sec) cs × IsWithinDay cs

-- The status of the latest check.
abbrev pub latest_status : List Check → HealthStatus
latest_status [] = unknown
latest_status (c ∷ cs) = c.status
