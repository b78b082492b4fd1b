-- ===== src/Admin/SystemHealth.antt =====
-- frontend/admin_panel/src/app/pages/SystemHealth.tsx
pub mod Laws
pub mod Screen
use trusyn_ai.Prelude.{
  ℕ, ◌+◌, Text, text_eq, codes, Bool, true, false, ◌&&◌, Option, none, some, List, [], ◌∷◌,
  if◌then◌else◌, map, length, drop, ◌-◌, take,
}
use trusyn_ai.Runtime.Value.{Value}
use trusyn_ai.Types.Common.{Number}
use trusyn_ai.Types.Reports.{
  ApiHealthResponse, DbHealthResponse, ComponentHealthResponse, AdminApiMonitoringSummary,
  BucketCount,
}
use trusyn_ai.Admin.Common.{Answer, answered, failed, error_text, sum}

pub data ComponentStatus : Type 0 where
  operational degraded down : ComponentStatus

-- The uptime is in hundredths of a per cent, and the id, which is the key of a row and comes from
-- the name, is left out.
pub record SystemComponent : Type 0 where
  pub name : Text
  pub status : ComponentStatus
  pub uptime : ℕ
  pub latency_ms : Option Number
  pub checked_at : Text

unfoldable pub map_status : Text → ComponentStatus
map_status status =
    if text_eq status (codes "ok")
    then operational
    else if text_eq status (codes "error")
    then down
    else degraded

unfoldable pub normalize_component : Text → Text → Option Number → Text → SystemComponent
unfolding map_status
normalize_component label status latency_ms timestamp = record {
  name = label;
  status = map_status status;
  uptime = if text_eq status (codes "ok") then 9999 else 9750;
  latency_ms = latency_ms;
  checked_at = timestamp;
}

-- the six answers of `Promise.all`
pub record HealthAnswers : Type 0 where
  pub api : ApiHealthResponse
  pub db : DbHealthResponse
  pub cache : ComponentHealthResponse
  pub ws : ComponentHealthResponse
  pub governance : ComponentHealthResponse
  pub summary : AdminApiMonitoringSummary

pub record SystemHealth : Type 0 where
  pub components : List SystemComponent
  pub request_volume_data : List (Text × ℕ)
  pub response_time_data : List (Text × Number)
  pub loading : Bool
  pub error : Option Value

abbrev pub first_health : SystemHealth
first_health = record {
  components = [];
  request_volume_data = [];
  response_time_data = [];
  loading = true;
  error = none;
}

unfoldable pub load_health_start : SystemHealth → SystemHealth
load_health_start p = record p { loading = true; error = none }

-- `api.timestamp ?? new Date().toISOString()`
abbrev timestamp_or : Text → Option Text → Text
timestamp_or now none = now
timestamp_or now (some timestamp) = timestamp

unfoldable pub of_health : Text → ComponentHealthResponse → SystemComponent
unfolding normalize_component
of_health label c = normalize_component label c.status c.latency_ms c.timestamp

-- `mapped`; `now` is the time of the clock
unfoldable pub mapped : Text → HealthAnswers → List SystemComponent
unfolding normalize_component of_health
mapped now a =
    normalize_component (codes "API Gateway") a.api.status none (timestamp_or now a.api.timestamp)
    ∷ of_health (codes "Logging System") a.cache
    ∷ of_health (codes "Threat Detection") a.ws
    ∷ of_health (codes "Governance Engine") a.governance
    ∷ normalize_component (codes "Policy Engine") a.db.status a.db.latency_ms a.db.timestamp
    ∷ []

-- `slice(-12)`, and `slice(11, 16)` of a bucket
abbrev pub last_twelve : {A : Type 0} → List A → List A
last_twelve xs = drop (length xs - 12) xs

abbrev pub bucket_time : Text → Text
bucket_time bucket = take 5 (drop 11 bucket)

unfoldable pub volume_points : AdminApiMonitoringSummary → List (Text × ℕ)
volume_points s =
    map (λ (b : BucketCount). (bucket_time b.bucket, b.count)) (last_twelve s.requests_by_hour)

unfoldable pub load_health_finish : Text → Answer HealthAnswers → SystemHealth → SystemHealth
unfolding mapped volume_points
load_health_finish now (answered a) p = record p {
  components = mapped now a;
  request_volume_data = volume_points a.summary;
  response_time_data =
      map (λ (point : Text × ℕ). (point.0, a.summary.avg_latency_ms)) (volume_points a.summary);
  loading = false;
}
load_health_finish now (failed message) p = record p {
  error = some (error_text (codes "Unable to load system health") message);
  loading = false;
}

abbrev pub is_operational : ComponentStatus → Bool
is_operational operational = true
is_operational _ = false

abbrev pub every_operational : List SystemComponent → Bool
every_operational [] = true
every_operational (c ∷ components) = is_operational c.status && every_operational components

unfoldable pub all_operational : SystemHealth → Bool
all_operational p = every_operational p.components

-- the sum and the divisor of `avgUptime`, which is 0 without components
unfoldable pub avg_uptime : SystemHealth → ℕ × ℕ
avg_uptime p = (sum (map (λ (c : SystemComponent). c.uptime) p.components), length p.components)
