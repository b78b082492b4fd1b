-- ===== src/Admin/Overview/Screen.antt =====
-- frontend/admin_panel/src/app/pages/PlatformOverview.tsx, its markup. The time since a date is a
-- parameter; the risk score is shown with one decimal.
use trusyn_ai.Prelude.{ℕ, Text, codes, Option, none, some, List, take, map}
use trusyn_ai.Runtime.Value.{Value}
use trusyn_ai.Types.Common.{Number}
use trusyn_ai.Types.Governance.{AgentDto, AgentStatus, operational, warning}
use trusyn_ai.Types.Reports.{AdminPlatformOverview, DashboardSummaryDto, PlatformThreat}
use trusyn_ai.Pages.Format.{
  Age, Elapsed, to_relative_time, normalize_severity, normalize_agent_status,
}
use trusyn_ai.Pages.Screen.{Button, shown_value, Body, filled_body}
use trusyn_ai.Admin.Common.{spaced}
use trusyn_ai.Admin.Screen.{BarColor, green, yellow, red, refresh_button, trust_color, last_active}
use trusyn_ai.Admin.ApiMonitoring.Screen.{zero_number}
use trusyn_ai.Admin.Overview.{ViewState, recent_of, overview_counts, organization_name}

abbrev pub organizations_of : Option AdminPlatformOverview → ℕ
organizations_of none = 0
organizations_of (some platform) = platform.kpis.total_organizations

abbrev pub risk_of : Option AdminPlatformOverview → Number
risk_of none = zero_number
risk_of (some platform) = platform.kpis.avg_risk_score_24h

abbrev pub policies_of : Option DashboardSummaryDto → ℕ
policies_of none = 0
policies_of (some dashboard) = dashboard.kpis.policies_enabled

-- the top of the page with its six figures
pub record OverviewHead : Type 0 where
  pub refresh : Button
  pub error : Option Value
  pub total_organizations : ℕ
  pub active_agents : ℕ
  pub requests_processed : ℕ
  pub threats_blocked : ℕ
  pub active_policies : ℕ
  pub avg_risk_score : Number

unfoldable pub overview_head : ViewState → OverviewHead
unfolding overview_counts
overview_head p = record {
  refresh = refresh_button p.loading;
  error = shown_value p.error;
  total_organizations = organizations_of p.platform;
  active_agents = (overview_counts p.platform).0;
  threats_blocked = (overview_counts p.platform).1;
  requests_processed = (overview_counts p.platform).2;
  active_policies = policies_of p.dashboard;
  avg_risk_score = risk_of p.platform;
}

pub record ActivityCard : Type 0 where
  pub age : Age
  pub severity : Text
  pub title : Text
  pub organization : Text
  pub threat_type : Text

-- a row of the table of agents; `initial` is the first character of the name
pub record OverviewRow : Type 0 where
  pub initial : Text
  pub name : Text
  pub organization : Text
  pub status : Text
  pub status_color : BarColor
  pub trust_score : ℕ
  pub trust_color : BarColor
  pub last_active : Option Age

abbrev pub badge_color : AgentStatus → BarColor
badge_color operational = green
badge_color warning = yellow
badge_color _ = red

module _ (since : Text → Elapsed) where
  abbrev pub activity_card : PlatformThreat → ActivityCard
  activity_card event = record {
    age = to_relative_time (since event.detected_at);
    severity = normalize_severity event.severity;
    title = event.title;
    organization = event.organization_name;
    threat_type = spaced event.threat_type;
  }

  unfoldable pub activity_feed : ViewState → Body ActivityCard
  unfolding to_relative_time normalize_severity
  activity_feed p =
      filled_body (codes "No recent threat activity.") activity_card (recent_of p.platform)

  abbrev pub overview_row : List (Text × Text) → AgentDto → OverviewRow
  overview_row organizations agent = record {
    initial = take 1 agent.name;
    name = agent.name;
    organization = organization_name agent.organization_id organizations;
    status = normalize_agent_status agent.status;
    status_color = badge_color agent.status;
    trust_score = agent.trust_score;
    trust_color = trust_color agent.trust_score;
    last_active = last_active since agent.last_active_at;
  }

  unfoldable pub overview_table : ViewState → List OverviewRow
  unfolding organization_name normalize_agent_status trust_color last_active
  overview_table p = map (overview_row p.organizations) p.agents
