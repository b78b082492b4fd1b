-- ===== src/Api/Services.antt =====
-- api/services/*.ts of the two applications, but authService.ts (Auth.Service) and the export of
-- auditService.ts (Api.Export). A method of a service is a constructor with the method's
-- arguments, and a service is the path and the options that each method hands to `apiRequest`.
use trusyn_ai.Prelude.{String, Text, false, Option, none, some, List, [], ◌∷◌}
use trusyn_ai.Runtime.Value.{Value, undefined, str}
use trusyn_ai.Runtime.Monad.{Call, Env, Method, get, post, patch, delete}
use trusyn_ai.Session.Storage.{Panel}
use trusyn_ai.Client.Request.{RequestOptions, api_request}
use trusyn_ai.Api.Endpoints.{
  agents, policies, threats, audit_logs, integrations, api_keys, base, by_id, by_key,
  investigation_path, summary_path, AnalyticsEndpoint, analytics_path, current_user_path,
  organization_path, AdminEndpoint, admin_path, HealthEndpoint, health_path,
}

-- The parameters of a list, as the caller writes them.
abbrev pub Query : Type 0
Query = Option (List (String × Value))

abbrev pub options : Method → Query → Value → RequestOptions
options method query body = record {
  method = some method;
  query = query;
  body = body;
  auth = none;
  retry_on_unauthorized = none;
  signal = false;
  request_id = none;
}

-- `{ method: 'GET', query }`, `{ method, body }` and `{ method: 'DELETE' }`
abbrev pub getting : Query → RequestOptions
getting query = options get query undefined

abbrev pub sending : Method → Value → RequestOptions
sending method body = options method none body

abbrev pub deleting : RequestOptions
deleting = options delete none undefined

abbrev pub Route : Type 0
Route = Text × RequestOptions

pub data AgentCall : Type 0 where
  list : Query → AgentCall
  get_by_id : Text → AgentCall
  update : Text → Value → AgentCall
  remove : Text → AgentCall

unfoldable pub agent_service : AgentCall → Route
unfolding by_id base
agent_service (list params) = (base agents, getting params)
agent_service (get_by_id agent_id) = (by_id agents agent_id, getting none)
agent_service (update agent_id payload) = (by_id agents agent_id, sending patch payload)
agent_service (remove agent_id) = (by_id agents agent_id, deleting)

pub data PolicyCall : Type 0 where
  list : Query → PolicyCall
  get_by_id : Text → PolicyCall
  create : Value → PolicyCall
  update : Text → Value → PolicyCall
  remove : Text → PolicyCall

unfoldable pub policy_service : PolicyCall → Route
unfolding by_id base
policy_service (list params) = (base policies, getting params)
policy_service (get_by_id policy_id) = (by_id policies policy_id, getting none)
policy_service (create payload) = (base policies, sending post payload)
policy_service (update policy_id payload) = (by_id policies policy_id, sending patch payload)
policy_service (remove policy_id) = (by_id policies policy_id, deleting)

pub data ThreatCall : Type 0 where
  list : Query → ThreatCall
  get_by_id : Text → ThreatCall
  investigation : Text → ThreatCall

unfoldable pub threat_service : ThreatCall → Route
unfolding by_id base investigation_path
threat_service (list params) = (base threats, getting params)
threat_service (get_by_id threat_id) = (by_id threats threat_id, getting none)
threat_service (investigation threat_id) = (investigation_path threat_id, getting none)

-- The admin panel's `getById` takes an organization; the other one has none.
pub data AuditCall : Type 0 where
  list : Query → AuditCall
  get_by_id : Text → Option Text → AuditCall

-- `organizationId ? { organization_id: organizationId } : undefined`
abbrev pub organization_query : Option Text → Query
organization_query none = none
organization_query (some []) = none
organization_query (some organization_id) = some (("organization_id", str organization_id) ∷ [])

unfoldable pub audit_service : AuditCall → Route
unfolding by_id base
audit_service (list params) = (base audit_logs, getting params)
audit_service (get_by_id log_id organization_id) =
    (by_id audit_logs log_id, getting (organization_query organization_id))

-- Each method has the name of its address, and takes the parameters of a query.
unfoldable pub analytics_service : AnalyticsEndpoint → Query → Route
unfolding analytics_path
analytics_service endpoint params = (analytics_path endpoint, getting params)

abbrev pub dashboard_service : Route
dashboard_service = (summary_path, getting none)

pub data SettingsCall : Type 0 where
  get_current_user get_current_organization list_integrations list_api_keys : SettingsCall
  update_current_user update_current_organization create_api_key : Value → SettingsCall
  update_integration : Text → Value → SettingsCall
  delete_api_key : Text → SettingsCall

unfoldable pub settings_service : (Text → Text) → SettingsCall → Route
unfolding by_id base by_key
settings_service encode get_current_user = (current_user_path, getting none)
settings_service encode get_current_organization = (organization_path, getting none)
settings_service encode list_integrations = (base integrations, getting none)
settings_service encode list_api_keys = (base api_keys, getting none)
settings_service encode (update_current_user payload) = (current_user_path, sending patch payload)
settings_service encode (update_current_organization payload) =
    (organization_path, sending patch payload)
settings_service encode (create_api_key payload) = (base api_keys, sending post payload)
settings_service encode (update_integration integration_key payload) =
    (by_key encode integration_key, sending patch payload)
settings_service encode (delete_api_key api_key_id) = (by_id api_keys api_key_id, deleting)

pub data AdminCall : Type 0 where
  list_organizations : Query → AdminCall
  platform_overview : AdminCall
  api_monitoring_summary : AdminCall
  api_monitoring_requests : Query → AdminCall

unfoldable pub admin_service : AdminCall → Route
unfolding admin_path
admin_service (list_organizations params) = (admin_path AdminEndpoint.organizations, getting params)
admin_service AdminCall.platform_overview =
    (admin_path AdminEndpoint.platform_overview, getting none)
admin_service AdminCall.api_monitoring_summary =
    (admin_path AdminEndpoint.api_monitoring_summary, getting none)
admin_service (AdminCall.api_monitoring_requests params) =
    (admin_path AdminEndpoint.api_monitoring_requests, getting params)

unfoldable pub health_service : HealthEndpoint → Route
unfolding health_path
health_service endpoint = (health_path endpoint, getting none)

-- A call of any of these services.
pub data ServiceCall : Type 0 where
  agent : AgentCall → ServiceCall
  policy : PolicyCall → ServiceCall
  threat : ThreatCall → ServiceCall
  audit : AuditCall → ServiceCall
  analytics : AnalyticsEndpoint → Query → ServiceCall
  dashboard : ServiceCall
  settings : SettingsCall → ServiceCall
  admin : AdminCall → ServiceCall
  health : HealthEndpoint → ServiceCall

unfoldable pub route_of : (Text → Text) → ServiceCall → Route
unfolding agent_service policy_service threat_service audit_service analytics_service
    settings_service admin_service health_service
route_of encode (agent c) = agent_service c
route_of encode (policy c) = policy_service c
route_of encode (threat c) = threat_service c
route_of encode (audit c) = audit_service c
route_of encode (analytics endpoint params) = analytics_service endpoint params
route_of encode dashboard = dashboard_service
route_of encode (settings c) = settings_service encode c
route_of encode (admin c) = admin_service c
route_of encode (health endpoint) = health_service endpoint

module _ (env : Env) (panel : Panel) (encode : Text → Text) where
  unfoldable pub call_service : ServiceCall → Call Value
  unfolding route_of
  call_service c = let (path, o) = route_of encode c in api_request env panel path o
