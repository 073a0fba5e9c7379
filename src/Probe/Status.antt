-- ===== src/Probe/Status.antt =====
-- `HealthStatus` of neo-uptime-node/src/db/mod.rs, with the names by which the database stores it.
-- `str::to_lowercase` works on all of Unicode: it is a parameter here.
use Prim.Native.String.{String}
use text.Mathlib.Text.{◌==◌}
use neo_easy_tier_deamon.Prelude.{◌≡◌, refl, Bool, true, false, if◌then◌else◌}

pub data HealthStatus : Type 0 where
  healthy unhealthy timeout connection_error unknown : HealthStatus

-- `impl fmt::Display for HealthStatus`
unfoldable pub to_string : HealthStatus → String
to_string healthy = "healthy"
to_string unhealthy = "unhealthy"
to_string timeout = "timeout"
to_string connection_error = "connection_error"
to_string unknown = "unknown"

-- `PartialEq` with `HealthStatus::Healthy`, and `matches!(status, HealthStatus::Healthy)`
abbrev pub is_healthy : HealthStatus → Bool
is_healthy healthy = true
is_healthy _ = false

-- The `match` on the lowercased text.
parse_lower : String → HealthStatus
parse_lower s =
    if s == "healthy"
    then healthy
    else if s == "unhealthy"
    then unhealthy
    else if s == "timeout"
    then timeout
    else if s == "connection_error"
    then connection_error
    else unknown

-- The stored names are told apart.
parse_lower-to_string : (s : HealthStatus) → parse_lower (to_string s) ≡ s
unfolding parse_lower to_string
parse_lower-to_string healthy = refl
parse_lower-to_string unhealthy = refl
parse_lower-to_string timeout = refl
parse_lower-to_string connection_error = refl
parse_lower-to_string unknown = refl

module _ (to_lowercase : String → String) where
  -- `impl From<String> for HealthStatus`
  unfoldable pub from_string : String → HealthStatus
  unfolding parse_lower
  from_string s = parse_lower (to_lowercase s)

  -- What a status is stored as is read back as that status, if lowercasing leaves the five stored
  -- names (which are in lower case) alone.
  pub from_string-to_string :
      ((s : HealthStatus) → to_lowercase (to_string s) ≡ to_string s)
      → (s : HealthStatus) → from_string (to_string s) ≡ s
  unfolding from_string
  from_string-to_string h s = rw (h s) (parse_lower-to_string s)
