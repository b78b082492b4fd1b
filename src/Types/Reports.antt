-- ===== src/Types/Reports.antt =====
-- The figures of both applications: api/types/dashboard.ts and api/types/analytics.ts, and of the
-- admin panel's api/types/admin.ts what the web application has not.
use trusyn_ai.Prelude.{ℕ, Text, Bool, Option, List}
use trusyn_ai.Runtime.Value.{Fields}
use trusyn_ai.Types.Common.{Severity, Decision, PaginatedResult, Number}
use trusyn_ai.Types.Account.{UserDto, OrganizationDto, OrganizationStatus}

pub record DashboardKpis : Type 0 where
  pub active_agents : ℕ
  pub blocked_threats_24h : ℕ
  pub avg_risk_score_24h : Number
  pub policies_enabled : ℕ

pub record RecentThreat : Type 0 where
  pub id : Text
  pub threat_type : Text
  pub severity : Severity
  pub title : Text
  pub description : Option Text
  pub agent_id : Option Text
  pub detected_at : Text

pub record RecentDecision : Type 0 where
  pub id : Text
  pub threat_event_id : Text
  pub decision : Decision
  pub risk_score : Number
  pub confidence_score : Number
  pub reason : Option Text
  pub created_at : Text

pub record AgentActivity : Type 0 where
  pub agent_id : Text
  pub agent_name : Text
  pub events_count_24h : ℕ
  pub trust_score : Number

pub record BucketCount : Type 0 where
  pub bucket : Text
  pub count : ℕ

pub record DecisionCount : Type 0 where
  pub decision : Decision
  pub count : ℕ

pub record DashboardSummaryDto : Type 0 where
  pub kpis : DashboardKpis
  pub recent_threats : List RecentThreat
  pub recent_decisions : List RecentDecision
  pub agent_activity_snapshot : List AgentActivity
  pub threat_count_by_day : List BucketCount
  pub decision_distribution : List DecisionCount

pub record AnalyticsOverviewDto : Type 0 where
  pub total_threats : ℕ
  pub total_decisions : ℕ
  pub blocked_decisions : ℕ
  pub average_risk_score : Number
  pub active_agents : ℕ
  pub policy_count_enabled : ℕ

pub record RiskTrend : Type 0 where
  pub bucket : Text
  pub severity : Severity
  pub count : ℕ

pub record AgentTrust : Type 0 where
  pub agent_id : Text
  pub agent_name : Text
  pub trust_score : Number
  pub status : Text

pub record PolicyImpact : Type 0 where
  pub policy_id : Text
  pub policy_name : Text
  pub enforcement_action : Decision
  pub related_events : ℕ

pub record AdminOrganizationItem : Type 0 where
  pub id : Text
  pub name : Text
  pub slug : Text
  pub plan : Text
  pub status : OrganizationStatus
  pub website : Option Text
  pub created_at : Text
  pub users_count : ℕ
  pub active_agents_count : ℕ
  pub policies_enabled_count : ℕ
  pub threats_24h_count : ℕ
  pub avg_risk_24h : Number

pub record PlatformKpis : Type 0 where
  pub total_organizations : ℕ
  pub active_agents : ℕ
  pub threats_blocked_24h : ℕ
  pub requests_processed_24h : ℕ
  pub avg_risk_score_24h : Number

pub record PlatformThreat : Type 0 where
  pub id : Text
  pub organization_id : Text
  pub organization_name : Text
  pub threat_type : Text
  pub severity : Severity
  pub title : Text
  pub detected_at : Text

pub record RiskLeader : Type 0 where
  pub organization_id : Text
  pub organization_name : Text
  pub avg_risk_score : Number
  pub threats_count_24h : ℕ

pub record AdminPlatformOverview : Type 0 where
  pub kpis : PlatformKpis
  pub recent_threats : List PlatformThreat
  pub decision_distribution : List DecisionCount
  pub risk_leaderboard : List RiskLeader

pub record AdminApiMonitoringSummary : Type 0 where
  pub requests_per_second : Number
  pub avg_latency_ms : Number
  pub p95_latency_ms : Number
  pub success_count : ℕ
  pub blocked_count : ℕ
  pub failed_count : ℕ
  pub model_usage : List (Text × ℕ)
  pub requests_by_hour : List BucketCount

pub data RequestStatus : Type 0 where
  success blocked failed : RequestStatus

pub record AdminApiRequestItem : Type 0 where
  pub id : Text
  pub timestamp : Text
  pub organization_id : Text
  pub organization_name : Text
  pub agent_id : Option Text
  pub agent_name : Option Text
  pub endpoint : Text
  pub status : RequestStatus
  pub latency_ms : Number
  pub model : Text
  pub risk_score : Option Number

pub record ApiHealthResponse : Type 0 where
  pub status : Text
  pub service : Text
  pub version : Option Text
  pub environment : Option Text
  pub timestamp : Option Text

pub record DbHealthResponse : Type 0 where
  pub status : Text
  pub database : Text
  pub connected : Bool
  pub latency_ms : Option Number
  pub timestamp : Text

pub record ComponentHealthResponse : Type 0 where
  pub status : Text
  pub component : Text
  pub connected : Bool
  pub latency_ms : Option Number
  pub timestamp : Text
  pub details : Fields

abbrev pub AdminOrganizationsResponse : Type 0
AdminOrganizationsResponse = PaginatedResult AdminOrganizationItem

pub record ProfileBundle : Type 0 where
  pub user : UserDto
  pub organization : OrganizationDto
