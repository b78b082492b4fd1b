-- ===== src/Pages/Dashboard.antt =====
-- frontend/web-app/src/app/pages/DashboardPage.tsx and AnalyticsPage.tsx, which load the same way.
-- Of the analytics types, each of the four lists is its items.
pub mod Laws
pub mod Screen
use trusyn_ai.Prelude.{
  ℕ, Text, codes, Bool, true, false, Option, none, some, List, [], if◌then◌else◌, is_empty, map,
}
use trusyn_ai.Runtime.Value.{Value}
use trusyn_ai.Runtime.Monad.{Result, ok, throw}
use trusyn_ai.Types.Common.{Decision, Severity, Number}
use trusyn_ai.Types.Reports.{
  DashboardSummaryDto, DashboardKpis, DecisionCount, AnalyticsOverviewDto, RiskTrend, AgentTrust,
  PolicyImpact, BucketCount,
}
use trusyn_ai.Pages.Listing.{error_message}

-- `last_updated` is the time of the clock, as the page shows it
pub record DashboardPage : Type 0 where
  pub data_shown : Option DashboardSummaryDto
  pub loading : Bool
  pub refreshing : Bool
  pub error : Option Value
  pub last_updated : Option Text

unfoldable pub load_summary_start : Bool → DashboardPage → DashboardPage
load_summary_start refresh p =
    if refresh then record p { refreshing = true } else record p { loading = true }

unfoldable pub load_summary_finish :
    Text → Result DashboardSummaryDto → DashboardPage → DashboardPage
load_summary_finish now (ok summary) p = record p {
  data_shown = some summary;
  last_updated = some now;
  error = none;
  loading = false;
  refreshing = false;
}
load_summary_finish now (throw e) p = record p {
  error = some (error_message (codes "Unable to load dashboard data.") e);
  loading = false;
  refreshing = false;
}

-- `formatLastUpdated`
abbrev pub format_last_updated : Option Text → Text
format_last_updated none = codes "--"
format_last_updated (some time) = time

-- `kpis`, where `none` stands for the four zeros
abbrev pub kpis : DashboardPage → Option DashboardKpis
kpis p = kpis_of p.data_shown
  where
    kpis_of : Option DashboardSummaryDto → Option DashboardKpis
    kpis_of none = none
    kpis_of (some summary) = some summary.kpis

abbrev pub decision_distribution_chart : Option DashboardSummaryDto → List (Decision × ℕ)
decision_distribution_chart none = []
decision_distribution_chart (some summary) =
    map (λ (item : DecisionCount). (item.decision, item.count)) summary.decision_distribution

-- the days of the threats, with the labels that the browser writes
unfoldable pub threat_trend_chart : (Text → Text) → Option DashboardSummaryDto → List (Text × ℕ)
threat_trend_chart label none = []
threat_trend_chart label (some summary) =
    map (λ (item : BucketCount). (label item.bucket, item.count)) summary.threat_count_by_day

pub data Granularity : Type 0 where
  hour day week : Granularity

pub record AnalyticsPage : Type 0 where
  pub start_at : Text
  pub end_at : Text
  pub granularity : Granularity
  pub overview : Option AnalyticsOverviewDto
  pub risk_trends : Option (List RiskTrend)
  pub decision_distribution : Option (List DecisionCount)
  pub trust_trends : Option (List AgentTrust)
  pub policy_impact : Option (List PolicyImpact)
  pub loading : Bool
  pub refreshing : Bool
  pub error : Option Value

pub record AnalyticsQuery : Type 0 where
  pub start_at : Option Text
  pub end_at : Option Text
  pub granularity : Granularity

-- the five answers of `Promise.all`
pub record AnalyticsAnswers : Type 0 where
  pub overview_data : AnalyticsOverviewDto
  pub risk_data : List RiskTrend
  pub decision_data : List DecisionCount
  pub trust_data : List AgentTrust
  pub policy_data : List PolicyImpact

-- `startAt ? new Date(startAt).toISOString() : undefined`, of a date that the field lets through
abbrev date_or_undefined : (Text → Text) → Text → Option Text
date_or_undefined to_iso date = if is_empty date then none else some (to_iso date)

unfoldable pub analytics_query : (Text → Text) → AnalyticsPage → AnalyticsQuery
analytics_query to_iso p = record {
  start_at = date_or_undefined to_iso p.start_at;
  end_at = date_or_undefined to_iso p.end_at;
  granularity = p.granularity;
}

unfoldable pub load_analytics_start :
    (Text → Text) → Bool → AnalyticsPage → AnalyticsPage × AnalyticsQuery
unfolding analytics_query
load_analytics_start to_iso refresh p = (
  if refresh then record p { refreshing = true } else record p { loading = true },
  analytics_query to_iso p,
)

unfoldable pub load_analytics_finish : Result AnalyticsAnswers → AnalyticsPage → AnalyticsPage
load_analytics_finish (ok a) p = record p {
  overview = some a.overview_data;
  risk_trends = some a.risk_data;
  decision_distribution = some a.decision_data;
  trust_trends = some a.trust_data;
  policy_impact = some a.policy_data;
  error = none;
  loading = false;
  refreshing = false;
}
load_analytics_finish (throw e) p = record p {
  error = some (error_message (codes "Unable to load analytics data.") e);
  loading = false;
  refreshing = false;
}

-- the three fields of the filter, each of which has the effect load again
unfoldable pub set_start_at : (Text → Text) → Text → AnalyticsPage → AnalyticsPage × AnalyticsQuery
unfolding load_analytics_start
set_start_at to_iso date p = load_analytics_start to_iso false (record p { start_at = date })

unfoldable pub set_end_at : (Text → Text) → Text → AnalyticsPage → AnalyticsPage × AnalyticsQuery
unfolding load_analytics_start
set_end_at to_iso date p = load_analytics_start to_iso false (record p { end_at = date })

unfoldable pub set_granularity :
    (Text → Text) → Granularity → AnalyticsPage → AnalyticsPage × AnalyticsQuery
unfolding load_analytics_start
set_granularity to_iso g p = load_analytics_start to_iso false (record p { granularity = g })

abbrev pub decision_chart : AnalyticsPage → List (Decision × ℕ)
decision_chart p = chart_of p.decision_distribution
  where
    chart_of : Option (List DecisionCount) → List (Decision × ℕ)
    chart_of none = []
    chart_of (some items) = map (λ (item : DecisionCount). (item.decision, item.count)) items

unfoldable pub risk_chart : (Text → Text) → Option (List RiskTrend) → List (Text × Severity × ℕ)
risk_chart label none = []
risk_chart label (some items) =
    map (λ (item : RiskTrend). (label item.bucket, item.severity, item.count)) items

unfoldable pub trust_chart : Option (List AgentTrust) → List (Text × Number)
trust_chart none = []
trust_chart (some items) = map (λ (item : AgentTrust). (item.agent_name, item.trust_score)) items
