-- ===== src/Admin/ApiMonitoring/Screen.antt =====
-- frontend/admin_panel/src/app/pages/APIMonitoring.tsx, its markup. The time since a date is a
-- parameter; numbers are shown with two decimals, or as whole ones.
use trusyn_ai.Prelude.{
  ℕ, ◌+◌, Text, codes, Option, none, some, List, [], ◌∷◌, if◌then◌else◌, ◌==◌, map,
}
use trusyn_ai.Runtime.Value.{Value}
use trusyn_ai.Types.Common.{Number}
use trusyn_ai.Types.Reports.{
  AdminApiMonitoringSummary, AdminApiRequestItem, RequestStatus, success, blocked, failed,
}
use trusyn_ai.Pages.Format.{Age, Elapsed, to_relative_time}
use trusyn_ai.Pages.Screen.{Button, shown_value}
use trusyn_ai.Admin.Screen.{BarColor, green, yellow, red, refresh_button}
use trusyn_ai.Admin.Organizations.Screen.{or_unknown_agent}
use trusyn_ai.Admin.ApiMonitoring.{
  ApiMonitoring, counts, success_rate, model_usage_data, latency_data,
}

abbrev pub zero_number : Number
zero_number = record { mantissa = 0; decimals = 0 }

-- the three numbers of the summary, which are 0 where there is none
abbrev pub speeds : Option AdminApiMonitoringSummary → Number × Number × Number
speeds none = (zero_number, zero_number, zero_number)
speeds (some s) = (s.requests_per_second, s.avg_latency_ms, s.p95_latency_ms)

pub record MonitoringHead : Type 0 where
  pub refresh : Button
  pub error : Option Value
  pub requests_per_second : Number
  pub avg_latency : Number
  pub p95_latency : Number
  pub blocked_requests : ℕ
  pub success_rate : ℕ

unfoldable pub monitoring_head : ApiMonitoring → MonitoringHead
unfolding success_rate
monitoring_head p = record {
  refresh = refresh_button p.loading;
  error = shown_value p.error;
  requests_per_second = (speeds p.summary).0;
  avg_latency = (speeds p.summary).1;
  p95_latency = (speeds p.summary).2;
  blocked_requests = (counts p.summary).0;
  success_rate = success_rate p;
}

pub record StreamCard : Type 0 where
  pub age : Age
  pub organization : Text
  pub agent : Text
  pub latency : Number
  pub status : RequestStatus
  pub color : BarColor
  pub endpoint : Text

abbrev pub request_color : RequestStatus → BarColor
request_color success = green
request_color blocked = red
request_color failed = yellow

module _ (since : Text → Elapsed) where
  abbrev pub stream_card : AdminApiRequestItem → StreamCard
  stream_card request = record {
    age = to_relative_time (since request.timestamp);
    organization = request.organization_name;
    agent = or_unknown_agent request.agent_name;
    latency = request.latency_ms;
    status = request.status;
    color = request_color request.status;
    endpoint = request.endpoint;
  }

  unfoldable pub request_cards : ApiMonitoring → List StreamCard
  unfolding to_relative_time
  request_cards p = map stream_card p.request_stream

-- a bar of the traffic: its width is a share, a count and the total, which is 0 of no total
pub record TrafficBar : Type 0 where
  pub label : Text
  pub value : ℕ
  pub color : BarColor
  pub share : ℕ × ℕ

abbrev pub traffic_bar : Text → BarColor → ℕ → ℕ → TrafficBar
traffic_bar label color total value = record {
  label = label;
  value = value;
  color = color;
  share = if total == 0 then (0, 1) else (value, total);
}

unfoldable pub traffic_mix : ApiMonitoring → List TrafficBar
traffic_mix p =
    let (blocked_count, failed_count, success_count) = counts p.summary in
    let total_count = blocked_count + failed_count + success_count in
    traffic_bar (codes "Success") green total_count success_count
    ∷ traffic_bar (codes "Blocked") red total_count blocked_count
    ∷ traffic_bar (codes "Failed") yellow total_count failed_count
    ∷ []

-- the two charts: the slices of the models, and the latency
unfoldable pub monitoring_charts : ApiMonitoring → List (Text × ℕ × ℕ) × List (Text × Number)
unfolding model_usage_data latency_data
monitoring_charts p = (model_usage_data p, latency_data p)
