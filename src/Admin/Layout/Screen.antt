-- ===== src/Admin/Layout/Screen.antt =====
-- frontend/admin_panel/src/app/components: the markup of TopNavbar.tsx and LeftSidebar.tsx. The
-- search field of the bar has no state; the status at its side and the foot of the sidebar are
-- texts that are written in the markup.
use trusyn_ai.Prelude.{
  ℕ, ◌≡◌, refl, Text, codes, Bool, Option, none, some, List, [], ◌∷◌, if◌then◌else◌, map, length,
}
use trusyn_ai.Runtime.Value.{Value, str, or_else}
use trusyn_ai.Session.User.{SessionUser}
use trusyn_ai.Auth.AdminFrame.{
  Page, platform_overview, organizations, threat_intelligence, ai_agents, api_monitoring,
  governance, audit_logs, system_health, settings,
}
use trusyn_ai.Pages.Format.{Age}
use trusyn_ai.Pages.Screen.{Body, filled_body}
use trusyn_ai.Admin.Layout.{
  TopNavbar, LiveNotification, SeverityColor, nav_id, nav_items, is_active,
}

abbrev pub page_label : Page → Text
page_label platform_overview = codes "Platform Overview"
page_label organizations = codes "Organizations"
page_label threat_intelligence = codes "Threat Intelligence"
page_label ai_agents = codes "AI Agents"
page_label api_monitoring = codes "API Monitoring"
page_label governance = codes "Governance Engine"
page_label audit_logs = codes "Audit Logs"
page_label system_health = codes "System Health"
page_label settings = codes "Settings"

-- an entry of the sidebar, whose press is `onPageChange(item.id)`
pub record PageEntry : Type 0 where
  pub id : Text
  pub label : Text
  pub highlighted : Bool

abbrev pub page_entry : Text → Page → PageEntry
page_entry active_page page = record {
  id = nav_id page;
  label = page_label page;
  highlighted = is_active active_page (nav_id page);
}

abbrev pub sidebar_pages : List Page
sidebar_pages =
    platform_overview ∷ organizations ∷ threat_intelligence ∷ ai_agents ∷ api_monitoring
    ∷ governance ∷ audit_logs ∷ system_health ∷ settings ∷ []

unfoldable pub left_sidebar : Text → List PageEntry
unfolding is_active
left_sidebar active_page = map (page_entry active_page) sidebar_pages

-- a row of the list of the bell
pub record NotificationRow : Type 0 where
  pub color : SeverityColor
  pub title : Text
  pub description : Text
  pub time : Age

abbrev pub notification_row : LiveNotification → NotificationRow
notification_row n = record {
  color = n.color;
  title = n.title;
  description = n.description;
  time = n.time;
}

-- `sessionUser?.field ?? text`
abbrev pub user_text : (SessionUser → Value) → Text → Option SessionUser → Value
user_text field text none = str text
user_text field text (some user) = or_else (field user) (str text)

pub record NavbarScreen : Type 0 where
  pub system_status : Text
  pub badge : ℕ
  pub list : Option (Body NotificationRow)
  pub name : Value
  pub role : Value
  pub initials : Value
  pub logout_entry : Bool

unfoldable pub navbar_screen : Option SessionUser → TopNavbar → NavbarScreen
navbar_screen session_user bar = record {
  system_status = codes "All Systems Operational";
  badge = length bar.notifications;
  list =
      if bar.show_notifications
      then some (filled_body (codes "No new notifications.") notification_row bar.notifications)
      else none;
  name = user_text (λ (u : SessionUser). u.name) (codes "Admin User") session_user;
  role = user_text (λ (u : SessionUser). u.role) (codes "Super Admin") session_user;
  initials = user_text (λ (u : SessionUser). u.initials) (codes "AU") session_user;
  logout_entry = bar.show_profile_menu;
}

-- The ids of the entries are those of the sidebar, whichever is active.
pub left_sidebar-ids :
    (active_page : Text)
    → map (λ (entry : PageEntry). entry.id) (left_sidebar active_page) ≡ nav_items
unfolding left_sidebar nav_items
left_sidebar-ids active_page = refl
