-- ===== src/Api/Endpoints.antt =====
-- api/endpoints.ts of the two applications. The admin panel has every address of the web
-- application, and the ones of `AdminEndpoint` besides.
use trusyn_ai.Prelude.{Text, codes, ◌∷◌, ◌++◌}

pub data Collection : Type 0 where
  agents policies threats audit_logs integrations api_keys : Collection

-- `endpoints.<collection>.base`
unfoldable pub base : Collection → Text
base agents = codes "/api/v1/agents"
base policies = codes "/api/v1/policies"
base threats = codes "/api/v1/threats"
base audit_logs = codes "/api/v1/audit-logs"
base integrations = codes "/api/v1/integrations"
base api_keys = codes "/api/v1/api-keys"

-- `endpoints.<collection>.byId(id)`, which puts the id in as it is
unfoldable pub by_id : Collection → Text → Text
unfolding base
by_id c id = base c ++ (b'/' ∷ id)

-- `endpoints.threats.investigation(id)`
unfoldable pub investigation_path : Text → Text
unfolding by_id
investigation_path id = by_id threats id ++ codes "/investigation"

-- `endpoints.integrations.byKey(key)`, for the `encodeURIComponent` of the platform
unfoldable pub by_key : (Text → Text) → Text → Text
unfolding by_id
by_key encode_component key = by_id integrations (encode_component key)

abbrev pub summary_path : Text
summary_path = codes "/api/v1/dashboard/summary"

pub data AnalyticsEndpoint : Type 0 where
  overview risk_trends decision_distribution trust_trends policy_impact : AnalyticsEndpoint

unfoldable pub analytics_path : AnalyticsEndpoint → Text
analytics_path overview = codes "/api/v1/analytics/overview"
analytics_path risk_trends = codes "/api/v1/analytics/risk-trends"
analytics_path decision_distribution = codes "/api/v1/analytics/decision-distribution"
analytics_path trust_trends = codes "/api/v1/analytics/agent-trust-trends"
analytics_path policy_impact = codes "/api/v1/analytics/policy-impact"

abbrev pub current_user_path : Text
current_user_path = codes "/api/v1/users/me"

abbrev pub organization_path : Text
organization_path = codes "/api/v1/organizations/current"

pub data AdminEndpoint : Type 0 where
  organizations platform_overview api_monitoring_summary api_monitoring_requests : AdminEndpoint

unfoldable pub admin_path : AdminEndpoint → Text
admin_path organizations = codes "/api/v1/admin/organizations"
admin_path platform_overview = codes "/api/v1/admin/platform-overview"
admin_path api_monitoring_summary = codes "/api/v1/admin/api-monitoring/summary"
admin_path api_monitoring_requests = codes "/api/v1/admin/api-monitoring/requests"

pub data HealthEndpoint : Type 0 where
  api db cache ws governance metrics : HealthEndpoint

-- `endpoints.health`, and `endpoints.system.metrics`
unfoldable pub health_path : HealthEndpoint → Text
health_path api = codes "/api/v1/health"
health_path db = codes "/api/v1/health/db"
health_path cache = codes "/api/v1/health/cache"
health_path ws = codes "/api/v1/health/ws"
health_path governance = codes "/api/v1/health/governance"
health_path metrics = codes "/api/v1/system/metrics"

abbrev pub export_audit_path : Text
export_audit_path = codes "/api/v1/exports/audit"
