-- ===== src/Admin/SystemHealth/Screen.antt =====
-- frontend/admin_panel/src/app/pages/SystemHealth.tsx, its markup. The texts that the browser makes
-- of dates are a parameter; a latency is shown as a number with one decimal, or as a whole one.
use trusyn_ai.Prelude.{
  ℕ, ◌≡◌, ◌↔◌, Text, codes, Bool, true, not, Option, none, some, List, [], ◌∷◌, arith,
  if◌then◌else◌, keep, map, length, inl, inr, Bool-cases,
}
use trusyn_ai.Runtime.Value.{Value}
use trusyn_ai.Types.Common.{Number}
use trusyn_ai.Pages.Screen.{Button, shown_value}
use trusyn_ai.Admin.Common.{sum, count_if}
use trusyn_ai.Admin.Screen.{refresh_button}
use trusyn_ai.Admin.SystemHealth.{
  SystemHealth, SystemComponent, ComponentStatus, is_operational, every_operational,
  all_operational, avg_uptime,
}

-- the top of the page with the four figures; `uptime` is a sum and its divisor
pub record HealthHead : Type 0 where
  pub indicator : Bool
  pub title : Text
  pub error : Option Value
  pub refresh : Button
  pub uptime : ℕ × ℕ
  pub latency : Option Number
  pub throughput : ℕ
  pub healthy : ℕ
  pub listed : ℕ

-- `responseTimeData[0]?.latency`, which is 0 where it is missing
abbrev pub first_latency : List (Text × Number) → Option Number
first_latency [] = none
first_latency ((time, latency) ∷ points) = some latency

unfoldable pub health_head : SystemHealth → HealthHead
unfolding all_operational avg_uptime
health_head p = record {
  indicator = all_operational p;
  title =
      if all_operational p
      then codes "All Systems Operational"
      else codes "Degraded Components Detected";
  error = shown_value p.error;
  refresh = refresh_button p.loading;
  uptime = avg_uptime p;
  latency = first_latency p.response_time_data;
  throughput = sum (map (λ (point : Text × ℕ). point.1) p.request_volume_data);
  healthy = count_if (λ (c : SystemComponent). is_operational c.status) p.components;
  listed = length p.components;
}

pub record ComponentCard : Type 0 where
  pub name : Text
  pub last_check : Text
  pub status : ComponentStatus
  pub uptime : ℕ
  pub latency : Option Number

pub record IncidentCard : Type 0 where
  pub name : Text
  pub time : Text
  pub status : ComponentStatus

abbrev pub is_incident : SystemComponent → Bool
is_incident c = not (is_operational c.status)

module _ (local_time : Text → Text) where
  abbrev pub component_card : SystemComponent → ComponentCard
  component_card c = record {
    name = c.name;
    last_check = local_time c.checked_at;
    status = c.status;
    uptime = c.uptime;
    latency = c.latency_ms;
  }

  unfoldable pub component_cards : SystemHealth → List ComponentCard
  component_cards p = map component_card p.components

  abbrev pub incident_card : SystemComponent → IncidentCard
  incident_card c = record { name = c.name; time = local_time c.checked_at; status = c.status }

  -- the incidents, and whether it is said that there is none
  unfoldable pub recent_incidents : SystemHealth → List IncidentCard × Bool
  unfolding all_operational
  recent_incidents p = (map incident_card (keep is_incident p.components), all_operational p)

  no_incident_iff :
      (components : List SystemComponent)
      → (map incident_card (keep is_incident components) ≡ [])
        ↔ (every_operational components ≡ true)
  no_incident_iff [] = ground arith
  no_incident_iff (c ∷ components) = elim (Bool-cases (is_operational c.status)) [
    | inl fine ↦ rw fine (no_incident_iff components)
    | inr broken ↦ rw broken (ground arith)
  ]

  -- The health page lists an incident for each component that is not operational, and says that
  -- there is none exactly where it lists none.
  pub recent_incidents_iff :
      (p : SystemHealth) → ((recent_incidents p).0 ≡ []) ↔ ((recent_incidents p).1 ≡ true)
  unfolding recent_incidents all_operational
  recent_incidents_iff p = no_incident_iff p.components
