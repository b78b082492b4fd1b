-- ===== src/Admin/Layout.antt =====
-- frontend/admin_panel/src/app/components/TopNavbar.tsx and LeftSidebar.tsx
pub mod Laws
pub mod Screen
use trusyn_ai.Prelude.{
  ℕ, ◌/◌, ◌++◌, Text, text_eq, codes, Bool, true, false, not, Option, none, some, List, [], ◌∷◌,
  if◌then◌else◌, map, take, ltb,
}
use trusyn_ai.Runtime.Monad.{App, Env}
use trusyn_ai.Session.User.{SessionUser}
use trusyn_ai.Types.Common.{Severity, low, medium, high, critical}
use trusyn_ai.Types.Reports.{AdminPlatformOverview, PlatformThreat}
use trusyn_ai.Pages.Format.{Elapsed, past, ahead, Age, just_now, age_in_minutes}
use trusyn_ai.Admin.Common.{Answer, answered, failed, spaced}
use trusyn_ai.Auth.AdminFrame.{
  Frame, Page, platform_overview, organizations, threat_intelligence, ai_agents, api_monitoring,
  governance, audit_logs, system_health, settings, boot, follow_session, on_logout,
  on_login_success, on_page_change, on_open_settings,
}

-- `relativeTime`; "now" is `just_now`
unfoldable pub navbar_time : Elapsed → Age
navbar_time (ahead ms) = just_now
navbar_time (past ms) = if ltb (ms / 60000) 1 then just_now else age_in_minutes (ms / 60000)

pub data SeverityColor : Type 0 where
  red orange yellow purple : SeverityColor

abbrev pub severity_color : Severity → SeverityColor
severity_color critical = red
severity_color high = orange
severity_color medium = yellow
severity_color low = purple

pub record LiveNotification : Type 0 where
  pub id : Text
  pub title : Text
  pub description : Text
  pub time : Age
  pub color : SeverityColor

pub record TopNavbar : Type 0 where
  pub show_notifications : Bool
  pub show_profile_menu : Bool
  pub notifications : List LiveNotification

abbrev pub first_navbar : TopNavbar
first_navbar = record { show_notifications = false; show_profile_menu = false; notifications = [] }

-- `since` is how long ago the date of a threat is
module _ (since : Text → Elapsed) where
  unfoldable pub notification_of : PlatformThreat → LiveNotification
  unfolding navbar_time
  notification_of item = record {
    id = item.id;
    title = item.title;
    description = item.organization_name ++ codes " - " ++ spaced item.threat_type;
    time = navbar_time (since item.detected_at);
    color = severity_color item.severity;
  }

  -- the answer to the effect; `is_mounted` is false once the bar is gone
  unfoldable pub notifications_arrive : Bool → Answer AdminPlatformOverview → TopNavbar → TopNavbar
  unfolding notification_of
  notifications_arrive is_mounted (answered overview) bar =
      if is_mounted
      then record bar { notifications = map notification_of (take 5 overview.recent_threats) }
      else bar
  notifications_arrive is_mounted (failed message) bar =
      if is_mounted then record bar { notifications = [] } else bar

-- the bell and the profile
unfoldable pub toggle_notifications : TopNavbar → TopNavbar
toggle_notifications bar = record bar {
  show_notifications = not (bar.show_notifications);
  show_profile_menu = false;
}

unfoldable pub toggle_profile_menu : TopNavbar → TopNavbar
toggle_profile_menu bar = record bar {
  show_profile_menu = not (bar.show_profile_menu);
  show_notifications = false;
}

-- the id of the entry of a page, and `navItems` by their ids
abbrev pub nav_id : Page → Text
nav_id platform_overview = codes "overview"
nav_id organizations = codes "organizations"
nav_id threat_intelligence = codes "threats"
nav_id ai_agents = codes "agents"
nav_id api_monitoring = codes "api"
nav_id governance = codes "governance"
nav_id audit_logs = codes "audit"
nav_id system_health = codes "health"
nav_id settings = codes "settings"

unfoldable pub nav_items : List Text
nav_items =
    nav_id platform_overview
    ∷ nav_id organizations
    ∷ nav_id threat_intelligence
    ∷ nav_id ai_agents
    ∷ nav_id api_monitoring
    ∷ nav_id governance
    ∷ nav_id audit_logs
    ∷ nav_id system_health
    ∷ nav_id settings
    ∷ []

-- `activePage === item.id`
unfoldable pub is_active : Text → Text → Bool
is_active active_page id = text_eq active_page id

-- What happens to the frame: a click on an entry, the settings button, a logout, a login, the end
-- of the first effect, and a run of the second one.
pub data FrameEvent : Type 0 where
  entry_clicked : Page → FrameEvent
  settings_opened logged_in : FrameEvent
  logged_out booted_up : App → FrameEvent
  session_changed : Option SessionUser → App → FrameEvent

module _ (env : Env) where
  unfoldable pub run_event : FrameEvent → Frame → Frame
  unfolding boot follow_session on_logout
  run_event (entry_clicked page) f = on_page_change (nav_id page) f
  run_event settings_opened f = on_open_settings f
  run_event logged_in f = on_login_success f
  run_event (logged_out s) f = (on_logout env f s).0
  run_event (booted_up s) f = (boot env f s).0
  run_event (session_changed session_user s) f = follow_session session_user s f

  unfoldable pub run_events : List FrameEvent → Frame → Frame
  unfolding run_event
  run_events [] f = f
  run_events (event ∷ events) f = run_events events (run_event event f)
