-- ===== src/Tests/Reports.antt =====
-- Examples of statuses and reports.
use neo_easy_tier_deamon.Prelude.{ℕ, ◌≡◌, true, false, some, [], ◌==◌, if◌then◌else◌, arith}
use neo_easy_tier_deamon.Prelude.Int.{pos}
use neo_easy_tier_deamon.Prelude.Text.{codes}
use neo_easy_tier_deamon.Probe.Db.{NodeRow}
use neo_easy_tier_deamon.Probe.Report.{describe, backend_id_of, backend_id_of-describe}
use neo_easy_tier_deamon.Probe.Report.Retry.{
  Reply, accepted, failed, Ends, report_with_retry, report_with_retry-Ends,
}

backend_id_of-describe_example : backend_id_of (describe (pos 42)) ≡ some (pos 42)
backend_id_of-describe_example = backend_id_of-describe (pos 42) (omega arith)

abbrev node : NodeRow
node = record {
  id = pos 3;
  name = codes "n";
  host = codes "h";
  port = pos 11010;
  protocol = codes "tcp";
  version = [];
  allow_relay = true;
  network_name = codes "default";
  network_secret = [];
  description = describe (pos 42);
  max_connections = pos 100;
  current_connections = pos 0;
  is_active = false;
  is_approved = true;
  qq_number = [];
  wechat = [];
  mail = [];
  created_at = 0;
  updated_at = 0;
}

-- One timeout, and then success.
abbrev replies : ℕ → Reply
replies n = if n == 0 then failed (codes "timeout") else accepted

report_with_retry-Ends_example : Ends replies (report_with_retry replies)
report_with_retry-Ends_example = report_with_retry-Ends replies
