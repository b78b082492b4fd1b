-- ===== src/Admin/ApiMonitoring.antt =====
-- frontend/admin_panel/src/app/pages/APIMonitoring.tsx
pub mod Screen
use trusyn_ai.Prelude.{
  ℕ, suc, ◌+◌, ◌≤◌, Text, codes, Bool, true, false, Option, none, some, List, [], ◌∷◌, map, arith,
  ◌%◌,
}
use trusyn_ai.Runtime.Value.{Value}
use trusyn_ai.Types.Common.{Number, PaginatedResult}
use trusyn_ai.Types.Reports.{AdminApiMonitoringSummary, AdminApiRequestItem, BucketCount}
use trusyn_ai.Admin.Common.{Answer, answered, failed, error_text, percent}
use trusyn_ai.Admin.Counting.{percent_le}
use trusyn_ai.Admin.SystemHealth.{last_twelve, bucket_time}

pub record ApiMonitoring : Type 0 where
  pub request_stream : List AdminApiRequestItem
  pub summary : Option AdminApiMonitoringSummary
  pub loading : Bool
  pub error : Option Value

unfoldable pub load_monitoring_start : ApiMonitoring → ApiMonitoring
load_monitoring_start p = record p { loading = true; error = none }

-- the two answers of `Promise.all`
unfoldable pub load_monitoring_finish :
    Answer (AdminApiMonitoringSummary × PaginatedResult AdminApiRequestItem)
    → ApiMonitoring
    → ApiMonitoring
load_monitoring_finish (answered (summary, page)) p = record p {
  summary = some summary;
  request_stream = page.items;
  loading = false;
}
load_monitoring_finish (failed message) p = record p {
  error = some (error_text (codes "Unable to load API monitoring feed") message);
  loading = false;
}

-- the slices of the chart: a model, its value, and the index of its colour in the palette of four
unfoldable pub slices_from : ℕ → List (Text × ℕ) → List (Text × ℕ × ℕ)
slices_from index [] = []
slices_from index ((name, value) ∷ usage) = (name, value, index % 4) ∷ slices_from (suc index) usage

unfoldable pub model_usage_data : ApiMonitoring → List (Text × ℕ × ℕ)
unfolding slices_from
model_usage_data p = usage_of p.summary
  where
    usage_of : Option AdminApiMonitoringSummary → List (Text × ℕ × ℕ)
    usage_of none = []
    usage_of (some s) = slices_from 0 s.model_usage

abbrev latency_of : Option AdminApiMonitoringSummary → List (Text × Number)
latency_of none = []
latency_of (some s) =
    map (λ (b : BucketCount). (bucket_time b.bucket, s.avg_latency_ms))
      (last_twelve s.requests_by_hour)

unfoldable pub latency_data : ApiMonitoring → List (Text × Number)
latency_data p = latency_of p.summary

-- `blockedCount`, `failedCount` and `successCount`
abbrev pub counts : Option AdminApiMonitoringSummary → ℕ × ℕ × ℕ
counts none = (0, 0, 0)
counts (some s) = (s.blocked_count, s.failed_count, s.success_count)

unfoldable pub success_rate : ApiMonitoring → ℕ
success_rate p =
    let (blocked, failed_ones, success) = counts p.summary in
    percent success (blocked + failed_ones + success)

-- The success rate of the monitored requests is at most 100 per cent, with a summary and without.
pub success_rate_le : (p : ApiMonitoring) → success_rate p ≤ 100
unfolding success_rate
success_rate_le p =
    percent_le (counts p.summary).2
      ((counts p.summary).0 + (counts p.summary).1 + (counts p.summary).2) (omega arith)
