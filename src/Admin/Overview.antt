-- ===== src/Admin/Overview.antt =====
-- frontend/admin_panel/src/app/pages/PlatformOverview.tsx
pub mod Laws
pub mod Screen
use trusyn_ai.Prelude.{
  ℕ, ◌+◌, Text, text_eq, codes, Bool, true, false, Option, none, some, List, [], ◌∷◌, map,
  if◌then◌else◌,
}
use trusyn_ai.Runtime.Value.{Value}
use trusyn_ai.Types.Common.{PaginatedResult, Severity, low, medium, high, critical, Decision}
use trusyn_ai.Types.Governance.{AgentDto}
use trusyn_ai.Types.Reports.{
  AdminPlatformOverview, DashboardSummaryDto, AdminOrganizationItem, PlatformThreat, DecisionCount,
  BucketCount,
}
use trusyn_ai.Admin.Common.{Answer, answered, failed, error_text, spaced, tally}

-- `organizations` maps an id to a name; the entry that was set last comes first.
pub record ViewState : Type 0 where
  pub loading : Bool
  pub error : Option Value
  pub platform : Option AdminPlatformOverview
  pub dashboard : Option DashboardSummaryDto
  pub agents : List AgentDto
  pub organizations : List (Text × Text)

-- the four answers of `Promise.all`
pub record OverviewAnswers : Type 0 where
  pub platform : AdminPlatformOverview
  pub dashboard : DashboardSummaryDto
  pub agents_page : PaginatedResult AgentDto
  pub organizations_page : PaginatedResult AdminOrganizationItem

unfoldable pub load_overview_start : ViewState → ViewState
load_overview_start p = record p { loading = true; error = none }

unfoldable pub name_table : List AdminOrganizationItem → List (Text × Text) → List (Text × Text)
name_table [] acc = acc
name_table (item ∷ items) acc = name_table items ((item.id, item.name) ∷ acc)

unfoldable pub load_overview_finish : Answer OverviewAnswers → ViewState → ViewState
unfolding name_table
load_overview_finish (answered a) p = record {
  loading = false;
  error = none;
  platform = some a.platform;
  dashboard = some a.dashboard;
  agents = a.agents_page.items;
  organizations = name_table a.organizations_page.items [];
}
load_overview_finish (failed message) p = record p {
  loading = false;
  error = some (error_text (codes "Unable to load platform overview.") message);
}

-- `organizations[id] ?? id`
unfoldable pub organization_name : Text → List (Text × Text) → Text
organization_name id [] = id
organization_name id ((k, name) ∷ entries) =
    if text_eq k id then name else organization_name id entries

-- the four buckets of the risk distribution
pub record Buckets : Type 0 where
  pub low_count : ℕ
  pub medium_count : ℕ
  pub high_count : ℕ
  pub critical_count : ℕ

abbrev pub no_buckets : Buckets
no_buckets = record { low_count = 0; medium_count = 0; high_count = 0; critical_count = 0 }

abbrev pub add_threat : Severity → Buckets → Buckets
add_threat low b = record b { low_count = b.low_count + 1 }
add_threat medium b = record b { medium_count = b.medium_count + 1 }
add_threat high b = record b { high_count = b.high_count + 1 }
add_threat critical b = record b { critical_count = b.critical_count + 1 }

unfoldable pub distribute : List PlatformThreat → Buckets → Buckets
distribute [] b = b
distribute (t ∷ threats) b = distribute threats (add_threat t.severity b)

abbrev pub recent_of : Option AdminPlatformOverview → List PlatformThreat
recent_of none = []
recent_of (some overview) = overview.recent_threats

unfoldable pub risk_distribution : ViewState → Buckets
unfolding distribute
risk_distribution p = distribute (recent_of p.platform) no_buckets

unfoldable pub blocked_actions_data : ViewState → List (Text × ℕ)
blocked_actions_data p =
    tally (map (λ (t : PlatformThreat). spaced t.threat_type) (recent_of p.platform)) []

-- the days of the threats, with the labels that the browser writes, and the decisions
unfoldable pub threat_trend_data : (Text → Text) → Option DashboardSummaryDto → List (Text × ℕ)
threat_trend_data label none = []
threat_trend_data label (some summary) =
    map (λ (item : BucketCount). (label item.bucket, item.count)) summary.threat_count_by_day

unfoldable pub decision_distribution_data : Option DashboardSummaryDto → List (Decision × ℕ)
decision_distribution_data none = []
decision_distribution_data (some summary) =
    map (λ (item : DecisionCount). (item.decision, item.count)) summary.decision_distribution

-- `activeAgentsCount`, `threatsBlocked` and `requestsProcessed`
unfoldable pub overview_counts : Option AdminPlatformOverview → ℕ × ℕ × ℕ
overview_counts none = (0, 0, 0)
overview_counts (some platform) = (
  platform.kpis.active_agents, platform.kpis.threats_blocked_24h,
  platform.kpis.requests_processed_24h,
)
