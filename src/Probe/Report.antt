-- ===== src/Probe/Report.antt =====
-- The report of a node's status to the backend: `start_status_report_task` of
-- neo-uptime-node/src/main.rs.
pub mod Retry
use neo_easy_tier_deamon.Prelude.{
  ◌↔◌, arith, ℕ, zero, suc, ◌+◌, ◌^◌, ◌≡◌, refl, ap, sym, ◌∙◌, leb, Bool, true, false, ◌||◌, Option,
  none, some, List, [], ◌∷◌, ◌++◌, if◌then◌else◌,
}
use neo_easy_tier_deamon.Prelude.Int.{ℤ, pos, div_trunc, IsI32}
use neo_easy_tier_deamon.Prelude.Text.{
  Text, codes, strip_prefix, strip_suffix, contains, strip_prefix-append, strip_suffix-append,
}
use neo_easy_tier_deamon.Prelude.Text.Decimal.{format_i32, parse_i32, parse_i32-format_i32}
use neo_easy_tier_deamon.Probe.Status.{HealthStatus, healthy, is_healthy}
use neo_easy_tier_deamon.Probe.Record.{map_option}
use neo_easy_tier_deamon.Probe.Db.{NodeRow}
use neo_easy_tier_deamon.Probe.Backend.{BackendPeer}

abbrev pub and_then {ℓ κ} : {A : Type ℓ} {B : Type κ} → Option A → (A → Option B) → Option B
and_then none f = none
and_then (some a) f = f a

abbrev pub description_prefix : Text
description_prefix = codes "Auto-added from backend (ID: "

-- `format!("Auto-added from backend (ID: {})", id)`
unfoldable pub describe : ℤ → Text
describe i = description_prefix ++ (format_i32 i ++ codes ")")

-- The id that a description names, if it is such a text.
unfoldable pub backend_id_of : Text → Option ℤ
backend_id_of description =
    and_then (and_then (strip_prefix description_prefix description) (strip_suffix (codes ")")))
      parse_i32

-- For any `i32`, the id is read back from the description that a sync gives a node under this id.
pub backend_id_of-describe : (i : ℤ) → IsI32 i → backend_id_of (describe i) ≡ some i
unfolding backend_id_of describe
backend_id_of-describe i h =
    ap (λ o. and_then (and_then o (strip_suffix (codes ")"))) parse_i32)
      (strip_prefix-append description_prefix (format_i32 i ++ codes ")"))
    ∙ ap (λ o. and_then o parse_i32) (strip_suffix-append (codes ")") (format_i32 i))
    ∙ parse_i32-format_i32 i h

-- The arguments of `report_status`.
pub record Heartbeat : Type 0 where
  pub backend_id : ℤ
  pub status : Text
  pub latency_ms : ℤ
  pub peer_count : ℤ

-- `rtt_us.map(|us| us / 1000).unwrap_or(0)`
abbrev pub latency_of : Option ℤ → ℤ
latency_of none = pos 0
latency_of (some us) = div_trunc us 1000

abbrev pub status_text : Bool → Text
status_text true = codes "online"
status_text false = codes "offline"

-- `peer_metadata.get(&node_id).and_then(|p| p.peer).unwrap_or(0)`
abbrev pub peer_count_of : Option BackendPeer → ℤ
peer_count_of none = pos 0
peer_count_of (some p) = elim p.peer [ none ↦ pos 0 | some n ↦ n ]

-- What is reported of a node: its status and last response time from the record in memory, its row
-- (`none` for an error of the database, `some none` for no row), and the metadata of its peer.
-- `none` where the node is skipped.
unfoldable pub heartbeat_of :
    HealthStatus → Option ℤ → Option (Option NodeRow) → Option BackendPeer → Option Heartbeat
heartbeat_of status rtt_us none metadata = none
heartbeat_of status rtt_us (some none) metadata = none
heartbeat_of status rtt_us (some (some node)) metadata =
    map_option
      (λ i. record {
        backend_id = i;
        status = status_text (is_healthy status);
        latency_ms = latency_of rtt_us;
        peer_count = peer_count_of metadata;
      })
      (backend_id_of node.description)

-- A node whose description is that of the id `i` (an `i32`) is reported under this id, as online
-- exactly if it is healthy, with its response time in whole milliseconds and the number of peers
-- from its metadata, each 0 where there is none.
heartbeat_of-describe :
    (status : HealthStatus) (rtt_us : Option ℤ) (node : NodeRow) (metadata : Option BackendPeer)
    (i : ℤ)
    → IsI32 i
    → node.description ≡ describe i
    → heartbeat_of status rtt_us (some (some node)) metadata
      ≡ some (record {
        backend_id = i;
        status = status_text (is_healthy status);
        latency_ms = latency_of rtt_us;
        peer_count = peer_count_of metadata;
      })
unfolding heartbeat_of
heartbeat_of-describe status rtt_us node metadata i h e =
    ap (map_option _) (ap backend_id_of e ∙ backend_id_of-describe i h)

map_option-none {ℓ κ} :
    {A : Type ℓ} {B : Type κ} (f : A → B) (o : Option A) → map_option f o ≡ none → o ≡ none
map_option-none f none h = refl
map_option-none f (some a) h = cc

-- Nothing is reported of a node exactly if the database gives no row of it, or a row whose
-- description names no id.
heartbeat_of-none :
    (status : HealthStatus) (rtt_us : Option ℤ) (found : Option (Option NodeRow))
    (metadata : Option BackendPeer)
    → (heartbeat_of status rtt_us found metadata ≡ none)
      ↔ ((row : NodeRow) → found ≡ some (some row) → backend_id_of row.description ≡ none)
unfolding heartbeat_of
heartbeat_of-none status rtt_us none metadata = (λ h row e. cc, λ h. refl)
heartbeat_of-none status rtt_us (some none) metadata = (λ h row e. cc, λ h. refl)
heartbeat_of-none status rtt_us (some (some r)) metadata = (
  λ h row e. let q : r ≡ row = cc in rw (← q) (map_option-none _ _ h),
  λ h. ap (map_option _) (h r refl),
)
