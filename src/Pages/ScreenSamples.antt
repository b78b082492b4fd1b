-- ===== src/Pages/ScreenSamples.antt =====
-- The theorems on the audit log, the dashboard and the layout, applied to small inputs.
use trusyn_ai.Prelude.{◌≡◌, refl, codes, true, false, none, some, List, [], ◌∷◌, arith}
use trusyn_ai.Runtime.Monad.{Env, failure, ok, throw, other}
use trusyn_ai.Types.Common.{critical, PaginatedResult}
use trusyn_ai.Types.Governance.{AuditLogDto}
use trusyn_ai.Types.Reports.{DashboardSummaryDto}
use trusyn_ai.Session.Storage.{web_app}
use trusyn_ai.Session.User.{get_session_user}
use trusyn_ai.Client.Sample.{env_with}
use trusyn_ai.Auth.Route.{login, dashboard, outlet, render, next_location}
use trusyn_ai.Pages.Listing.Laws.{IsAligned}
use trusyn_ai.Pages.AuditLogs.{
  AuditEvent, first_audit_page, audit_events, load_ended, next_pressed, severity_picked,
  limit_picked, audit_events-IsAligned,
}
use trusyn_ai.Pages.Dashboard.{DashboardPage}
use trusyn_ai.Pages.Dashboard.Laws.{Load, run_loads, Shows, last_answer, run_loads-Shows}
use trusyn_ai.Pages.Layout.{sign_out}
use trusyn_ai.Session.Tokens.{get_access_token, get_refresh_token}
use trusyn_ai.Pages.RunSamples.{expired}
use trusyn_ai.Pages.Layout.Laws.{sign_out-login}

abbrev sixty_logs : PaginatedResult AuditLogDto
sixty_logs = record { items = []; total = 60; limit = 25; offset = 0 }

-- the next page of 60 logs, then only the critical ones, ten on a page
abbrev audit_clicks : List AuditEvent
audit_clicks =
    load_ended first_audit_page (ok sixty_logs)
    ∷ next_pressed
    ∷ severity_picked (some critical)
    ∷ limit_picked 10
    ∷ next_pressed
    ∷ []

audit_events-IsAligned_example : IsAligned (audit_events audit_clicks first_audit_page).list
audit_events-IsAligned_example =
    audit_events-IsAligned audit_clicks first_audit_page (0, omega arith)

abbrev summary : DashboardSummaryDto
summary = record {
  kpis = record {
    active_agents = 2;
    blocked_threats_24h = 1;
    avg_risk_score_24h = record { mantissa = 5; decimals = 1 };
    policies_enabled = 3;
  };
  recent_threats = [];
  recent_decisions = [];
  agent_activity_snapshot = [];
  threat_count_by_day = [];
  decision_distribution = [];
}

abbrev first_dashboard : DashboardPage
first_dashboard = record {
  data_shown = none;
  loading = true;
  refreshing = false;
  error = none;
  last_updated = none;
}

-- a load that is answered, and a refresh after it that is not
abbrev loads : List Load
loads = (true, codes "12:01", throw other) ∷ (false, codes "12:00", ok summary) ∷ []

run_loads-Shows_example : Shows (last_answer loads) (run_loads loads first_dashboard)
run_loads-Shows_example = run_loads-Shows loads first_dashboard refl refl

abbrev offline : Env
offline = env_with (λ n. failure)

sign_out-login_example :
    let (target, s') = sign_out offline expired in
    let session_user = get_session_user offline web_app s'.storage in
    (target ≡ login)
    × (get_access_token web_app s'.storage ≡ none)
    × (get_refresh_token web_app s'.storage ≡ none)
    × (session_user ≡ none)
    × (render session_user target ≡ outlet)
    × (next_location session_user dashboard ≡ login)
sign_out-login_example = sign_out-login offline expired dashboard
