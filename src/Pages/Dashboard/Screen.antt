-- ===== src/Pages/Dashboard/Screen.antt =====
-- frontend/web-app/src/app/pages/DashboardPage.tsx and AnalyticsPage.tsx, their markup. The labels
-- that the browser makes of dates, and the time since a date, are parameters.
use trusyn_ai.Prelude.{
  ℕ, ◌^◌, ◌/◌, Text, codes, Bool, false, Option, none, some, List, [], ◌∷◌, if◌then◌else◌, leb,
  take,
}
use trusyn_ai.Runtime.Value.{Value}
use trusyn_ai.Types.Common.{
  Severity, Decision, allow, block, review, quarantine, rate_limit, Number,
}
use trusyn_ai.Types.Reports.{
  DashboardSummaryDto, DashboardKpis, RecentThreat, AgentActivity, AnalyticsOverviewDto,
  PolicyImpact,
}
use trusyn_ai.Pages.Format.{Age, Elapsed, relative_time}
use trusyn_ai.Pages.Screen.{
  Button, plain_button, Refresh, refresh_control, shown_value, severity_color, Body, filled_body,
}
use trusyn_ai.Pages.Dashboard.{
  DashboardPage, AnalyticsPage, Granularity, format_last_updated, kpis, threat_trend_chart,
  decision_distribution_chart, decision_chart, risk_chart, trust_chart,
}

-- the top of the dashboard; the button is paler while it is disabled
pub record DashboardHead : Type 0 where
  pub last_sync : Text
  pub refresh : Button
  pub spins : Bool
  pub error : Option Value

unfoldable pub dashboard_head : DashboardPage → DashboardHead
dashboard_head p = record {
  last_sync = format_last_updated p.last_updated;
  refresh = record { label = codes "Refresh"; disabled = p.refreshing; dimmed = p.refreshing };
  spins = p.refreshing;
  error = shown_value p.error;
}

abbrev pub whole : ℕ → Number
whole n = record { mantissa = n; decimals = 0 }

-- a tile: none stands for "--"
pub record Tile : Type 0 where
  pub label : Text
  pub value : Option Number

abbrev pub tile : Bool → Text → Number → Tile
tile loading label value = record { label = label; value = if loading then none else some value }

abbrev pub zero_kpis : DashboardKpis
zero_kpis = record {
  active_agents = 0;
  blocked_threats_24h = 0;
  avg_risk_score_24h = whole 0;
  policies_enabled = 0;
}

abbrev pub tiles_of : Bool → DashboardKpis → List Tile
tiles_of loading k =
    tile loading (codes "Active Agents") (whole k.active_agents)
    ∷ tile loading (codes "Blocked Threats (24h)") (whole k.blocked_threats_24h)
    ∷ tile loading (codes "Average Risk (24h)") k.avg_risk_score_24h
    ∷ tile loading (codes "Policies Enabled") (whole k.policies_enabled)
    ∷ []

abbrev pub kpis_or_zero : Option DashboardKpis → DashboardKpis
kpis_or_zero none = zero_kpis
kpis_or_zero (some k) = k

unfoldable pub dashboard_tiles : DashboardPage → List Tile
dashboard_tiles p = tiles_of p.loading (kpis_or_zero (kpis p))

-- the colour of a slice
abbrev pub decision_color : Decision → Text
decision_color allow = codes "#10B981"
decision_color block = codes "#EF4444"
decision_color review = codes "#F59E0B"
decision_color quarantine = codes "#EC4899"
decision_color rate_limit = codes "#8B5CF6"

abbrev pub slice : Decision × ℕ → (Decision × ℕ) × Text
slice (decision, count) = ((decision, count), decision_color decision)

abbrev pub point : {A : Type 0} → A → A
point a = a

pub record RecentThreatRow : Type 0 where
  pub title : Text
  pub severity : Severity
  pub color : Text
  pub threat_type : Text
  pub age : Age

-- a bar of an agent, which ends at 100 per cent
pub record ActivityRow : Type 0 where
  pub name : Text
  pub events : ℕ
  pub width : Number

abbrev pub at_most_hundred : Number → Number
at_most_hundred n = if leb 100 (n.mantissa / 10 ^ n.decimals) then whole 100 else n

abbrev pub activity_row : AgentActivity → ActivityRow
activity_row agent = record {
  name = agent.agent_name;
  events = agent.events_count_24h;
  width = at_most_hundred agent.trust_score;
}

abbrev pub activity_of : Option DashboardSummaryDto → List AgentActivity
activity_of none = []
activity_of (some summary) = summary.agent_activity_snapshot

abbrev pub recent_threats_of : Option DashboardSummaryDto → List RecentThreat
recent_threats_of none = []
recent_threats_of (some summary) = summary.recent_threats

-- the two charts and the two lists, each with its text where there is nothing
pub record DashboardPanels : Type 0 where
  pub threat_trend : Body (Text × ℕ)
  pub decisions : Body ((Decision × ℕ) × Text)
  pub recent_threats : Body RecentThreatRow
  pub activity : Body ActivityRow

module _ (label : Text → Text) (since : Text → Elapsed) where
  abbrev pub recent_threat_row : RecentThreat → RecentThreatRow
  recent_threat_row item = record {
    title = item.title;
    severity = item.severity;
    color = severity_color item.severity;
    threat_type = item.threat_type;
    age = relative_time (since item.detected_at);
  }

  unfoldable pub dashboard_panels : DashboardPage → DashboardPanels
  unfolding threat_trend_chart relative_time
  dashboard_panels p = record {
    threat_trend =
        filled_body (codes "No threat activity yet for this organization.") point
          (threat_trend_chart label p.data_shown);
    decisions =
        filled_body (codes "No governance decisions yet.") slice
          (decision_distribution_chart p.data_shown);
    recent_threats =
        filled_body (codes "No threat events captured yet.") recent_threat_row
          (take 6 (recent_threats_of p.data_shown));
    activity =
        filled_body (codes "No agent activity available yet.") activity_row
          (activity_of p.data_shown);
  }

-- the top of the analytics page: the fields, the two buttons and the three figures
pub record AnalyticsHead : Type 0 where
  pub refresh : Refresh
  pub start_at : Text
  pub end_at : Text
  pub granularity : Granularity
  pub apply : Button
  pub error : Option Value
  pub total_threats : ℕ
  pub blocked_decisions : ℕ
  pub average_risk_score : Number

abbrev pub overview_figures : Option AnalyticsOverviewDto → ℕ × ℕ × Number
overview_figures none = (0, 0, whole 0)
overview_figures (some o) = (o.total_threats, o.blocked_decisions, o.average_risk_score)

unfoldable pub analytics_head : AnalyticsPage → AnalyticsHead
analytics_head p = record {
  refresh = refresh_control p.refreshing;
  start_at = p.start_at;
  end_at = p.end_at;
  granularity = p.granularity;
  apply = plain_button (codes "Apply Filters") false;
  error = shown_value p.error;
  total_threats = (overview_figures p.overview).0;
  blocked_decisions = (overview_figures p.overview).1;
  average_risk_score = (overview_figures p.overview).2;
}

pub record ImpactRow : Type 0 where
  pub policy_name : Text
  pub related_events : ℕ
  pub enforcement_action : Decision

abbrev pub impact_row : PolicyImpact → ImpactRow
impact_row item = record {
  policy_name = item.policy_name;
  related_events = item.related_events;
  enforcement_action = item.enforcement_action;
}

abbrev pub impacts_of : Option (List PolicyImpact) → List PolicyImpact
impacts_of none = []
impacts_of (some items) = items

pub record AnalyticsPanels : Type 0 where
  pub risk_trends : Body (Text × Severity × ℕ)
  pub decisions : Body (Decision × ℕ)
  pub trust_trends : Body (Text × Number)
  pub policy_impact : Body ImpactRow

unfoldable pub analytics_panels : (Text → Text) → AnalyticsPage → AnalyticsPanels
unfolding risk_chart trust_chart
analytics_panels label p = record {
  risk_trends =
      filled_body (codes "No risk trend data in selected range.") point
        (risk_chart label p.risk_trends);
  decisions = filled_body (codes "No decision data in selected range.") point (decision_chart p);
  trust_trends = filled_body (codes "No trust data available.") point (trust_chart p.trust_trends);
  policy_impact =
      filled_body (codes "No policy impact records yet.") impact_row (impacts_of p.policy_impact);
}
