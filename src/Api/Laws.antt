-- ===== src/Api/Laws.antt =====
-- The routes of the services: what every one of them has in common.
use trusyn_ai.Prelude.{Text, codes, text_eq, ◌≡◌, refl, false, none, ◌∷◌, ◌++◌}
use trusyn_ai.Client.Auth.{refresh_path}
use trusyn_ai.Client.Request.{RequestOptions}
use trusyn_ai.Api.Endpoints.{
  Collection, base, by_id, by_key, investigation_path, AnalyticsEndpoint, analytics_path,
  admin_path, HealthEndpoint, health_path,
}
use trusyn_ai.Api.Services.{
  Query, dashboard_service, AgentCall, PolicyCall, ThreatCall, AuditCall, SettingsCall, AdminCall,
  ServiceCall, agent, policy, threat, audit, analytics, dashboard, settings, admin, health,
  agent_service, policy_service, threat_service, audit_service, analytics_service, settings_service,
  admin_service, health_service, route_of,
}

-- What holds of the route of every service.
pub record IsRoute (path : Text) (o : RequestOptions) : Type 0 where
  pub versioned : (rest : Text) × (path ≡ codes "/api/v1/" ++ rest)
  pub other_path : text_eq path refresh_path ≡ false
  pub auth : o.auth ≡ none
  pub retries : o.retry_on_unauthorized ≡ none

module _ {path : Text} {o : RequestOptions} (rest : Text) where
  -- the four laws of a route that is written out
  is_route :
      path ≡ codes "/api/v1/" ++ rest
      → text_eq path refresh_path ≡ false
      → o.auth ≡ none
      → o.retry_on_unauthorized ≡ none
      → IsRoute path o
  is_route e f g h = record { versioned = (rest, e); other_path = f; auth = g; retries = h }

base-IsRoute :
    (c : Collection) (o : RequestOptions)
    → o.auth ≡ none
    → o.retry_on_unauthorized ≡ none
    → IsRoute (base c) o
unfolding base text_eq
base-IsRoute Collection.agents o = is_route _ refl refl
base-IsRoute Collection.policies o = is_route _ refl refl
base-IsRoute Collection.threats o = is_route _ refl refl
base-IsRoute Collection.audit_logs o = is_route _ refl refl
base-IsRoute Collection.integrations o = is_route _ refl refl
base-IsRoute Collection.api_keys o = is_route _ refl refl

below_base-IsRoute :
    (c : Collection) (rest : Text) (o : RequestOptions)
    → o.auth ≡ none
    → o.retry_on_unauthorized ≡ none
    → IsRoute (base c ++ (b'/' ∷ rest)) o
unfolding base text_eq
below_base-IsRoute Collection.agents rest o = is_route _ refl refl
below_base-IsRoute Collection.policies rest o = is_route _ refl refl
below_base-IsRoute Collection.threats rest o = is_route _ refl refl
below_base-IsRoute Collection.audit_logs rest o = is_route _ refl refl
below_base-IsRoute Collection.integrations rest o = is_route _ refl refl
below_base-IsRoute Collection.api_keys rest o = is_route _ refl refl

agent_service-IsRoute : (c : AgentCall) → IsRoute (agent_service c).0 (agent_service c).1
unfolding agent_service by_id
agent_service-IsRoute (AgentCall.list params) = base-IsRoute Collection.agents _ refl refl
agent_service-IsRoute (AgentCall.get_by_id id) = below_base-IsRoute Collection.agents id _ refl refl
agent_service-IsRoute (AgentCall.update id payload) =
    below_base-IsRoute Collection.agents id _ refl refl
agent_service-IsRoute (AgentCall.remove id) = below_base-IsRoute Collection.agents id _ refl refl

policy_service-IsRoute : (c : PolicyCall) → IsRoute (policy_service c).0 (policy_service c).1
unfolding policy_service by_id
policy_service-IsRoute (PolicyCall.list params) = base-IsRoute Collection.policies _ refl refl
policy_service-IsRoute (PolicyCall.get_by_id id) =
    below_base-IsRoute Collection.policies id _ refl refl
policy_service-IsRoute (PolicyCall.create payload) = base-IsRoute Collection.policies _ refl refl
policy_service-IsRoute (PolicyCall.update id payload) =
    below_base-IsRoute Collection.policies id _ refl refl
policy_service-IsRoute (PolicyCall.remove id) =
    below_base-IsRoute Collection.policies id _ refl refl

threat_service-IsRoute : (c : ThreatCall) → IsRoute (threat_service c).0 (threat_service c).1
unfolding threat_service by_id investigation_path
threat_service-IsRoute (ThreatCall.list params) = base-IsRoute Collection.threats _ refl refl
threat_service-IsRoute (ThreatCall.get_by_id id) =
    below_base-IsRoute Collection.threats id _ refl refl
threat_service-IsRoute (ThreatCall.investigation id) =
    below_base-IsRoute Collection.threats (id ++ codes "/investigation") _ refl refl

audit_service-IsRoute : (c : AuditCall) → IsRoute (audit_service c).0 (audit_service c).1
unfolding audit_service by_id
audit_service-IsRoute (AuditCall.list params) = base-IsRoute Collection.audit_logs _ refl refl
audit_service-IsRoute (AuditCall.get_by_id id organization_id) =
    below_base-IsRoute Collection.audit_logs id _ refl refl

admin_service-IsRoute : (c : AdminCall) → IsRoute (admin_service c).0 (admin_service c).1
unfolding admin_service admin_path text_eq
admin_service-IsRoute (AdminCall.list_organizations params) = is_route _ refl refl refl refl
admin_service-IsRoute AdminCall.platform_overview = is_route _ refl refl refl refl
admin_service-IsRoute AdminCall.api_monitoring_summary = is_route _ refl refl refl refl
admin_service-IsRoute (AdminCall.api_monitoring_requests params) = is_route _ refl refl refl refl

health_service-IsRoute : (c : HealthEndpoint) → IsRoute (health_service c).0 (health_service c).1
unfolding health_service health_path text_eq
health_service-IsRoute HealthEndpoint.api = is_route _ refl refl refl refl
health_service-IsRoute HealthEndpoint.db = is_route _ refl refl refl refl
health_service-IsRoute HealthEndpoint.cache = is_route _ refl refl refl refl
health_service-IsRoute HealthEndpoint.ws = is_route _ refl refl refl refl
health_service-IsRoute HealthEndpoint.governance = is_route _ refl refl refl refl
health_service-IsRoute HealthEndpoint.metrics = is_route _ refl refl refl refl

analytics_service-IsRoute :
    (c : AnalyticsEndpoint) (params : Query)
    → IsRoute (analytics_service c params).0 (analytics_service c params).1
unfolding analytics_service analytics_path text_eq
analytics_service-IsRoute AnalyticsEndpoint.overview params = is_route _ refl refl refl refl
analytics_service-IsRoute AnalyticsEndpoint.risk_trends params = is_route _ refl refl refl refl
analytics_service-IsRoute AnalyticsEndpoint.decision_distribution params =
    is_route _ refl refl refl refl
analytics_service-IsRoute AnalyticsEndpoint.trust_trends params = is_route _ refl refl refl refl
analytics_service-IsRoute AnalyticsEndpoint.policy_impact params = is_route _ refl refl refl refl

settings_service-IsRoute :
    (encode : Text → Text) (c : SettingsCall)
    → IsRoute (settings_service encode c).0 (settings_service encode c).1
unfolding settings_service by_id by_key text_eq
settings_service-IsRoute encode SettingsCall.get_current_user = is_route _ refl refl refl refl
settings_service-IsRoute encode SettingsCall.get_current_organization =
    is_route _ refl refl refl refl
settings_service-IsRoute encode SettingsCall.list_integrations =
    base-IsRoute Collection.integrations _ refl refl
settings_service-IsRoute encode SettingsCall.list_api_keys =
    base-IsRoute Collection.api_keys _ refl refl
settings_service-IsRoute encode (SettingsCall.update_current_user payload) =
    is_route _ refl refl refl refl
settings_service-IsRoute encode (SettingsCall.update_current_organization payload) =
    is_route _ refl refl refl refl
settings_service-IsRoute encode (SettingsCall.create_api_key payload) =
    base-IsRoute Collection.api_keys _ refl refl
settings_service-IsRoute encode (SettingsCall.update_integration key payload) =
    below_base-IsRoute Collection.integrations (encode key) _ refl refl
settings_service-IsRoute encode (SettingsCall.delete_api_key id) =
    below_base-IsRoute Collection.api_keys id _ refl refl

dashboard_service-IsRoute : IsRoute dashboard_service.0 dashboard_service.1
unfolding text_eq
dashboard_service-IsRoute = is_route _ refl refl refl refl

-- Every call of a service, whatever its arguments are, goes to a path under `/api/v1/`, is made
-- with the session and with a retry, and is not the refresh itself.
pub route_of-IsRoute :
    (encode : Text → Text) (c : ServiceCall) → IsRoute (route_of encode c).0 (route_of encode c).1
unfolding route_of
route_of-IsRoute encode (agent c) = agent_service-IsRoute c
route_of-IsRoute encode (policy c) = policy_service-IsRoute c
route_of-IsRoute encode (threat c) = threat_service-IsRoute c
route_of-IsRoute encode (audit c) = audit_service-IsRoute c
route_of-IsRoute encode (analytics c params) = analytics_service-IsRoute c params
route_of-IsRoute encode dashboard = dashboard_service-IsRoute
route_of-IsRoute encode (settings c) = settings_service-IsRoute encode c
route_of-IsRoute encode (admin c) = admin_service-IsRoute c
route_of-IsRoute encode (health c) = health_service-IsRoute c
