-- ===== src/Pages/Layout/Screen.antt =====
-- frontend/web-app/src/app/components/layout: the markup of Sidebar.tsx and TopBar.tsx. The search
-- field of the bar has no state.
use trusyn_ai.Prelude.{
  ℕ, ◌≡◌, refl, Text, codes, Bool, false, Option, none, some, List, [], ◌∷◌, if◌then◌else◌, map,
  ◌++◌,
}
use trusyn_ai.Runtime.Value.{Value, str, or_else}
use trusyn_ai.Session.User.{SessionUser}
use trusyn_ai.Auth.Route.{
  Location, root, login, dashboard, agents, threats, policies, audit_logs, analytics, settings,
}
use trusyn_ai.Pages.Layout.{TopBar, threat_sign, shown_user, web_nav_items, is_active_path}

-- the labels of `navItems` and `bottomItems`; no entry leads to the first two locations
abbrev pub nav_label : Location → Text
nav_label root = []
nav_label login = []
nav_label dashboard = codes "Dashboard"
nav_label agents = codes "Agents"
nav_label threats = codes "Threat Center"
nav_label policies = codes "Policies"
nav_label audit_logs = codes "Audit Logs"
nav_label analytics = codes "Analytics"
nav_label settings = codes "Settings"

-- an entry, which has a chevron in the upper part of the sidebar while it is active
pub record NavEntry : Type 0 where
  pub path : Location
  pub label : Text
  pub highlighted : Bool
  pub chevron : Bool

abbrev pub nav_entry : Location → Location → NavEntry
nav_entry here path = record {
  path = path;
  label = nav_label path;
  highlighted = is_active_path here path;
  chevron = is_active_path here path;
}

abbrev pub bottom_entry : Location → Location → NavEntry
bottom_entry here path = record (nav_entry here path) { chevron = false }

-- `sessionUser?.role ?? 'Member'`
abbrev pub shown_role : Option SessionUser → Value
shown_role none = str (codes "Member")
shown_role (some user) = or_else user.role (str (codes "Member"))

pub record SidebarScreen : Type 0 where
  pub entries : List NavEntry
  pub bottom : List NavEntry
  pub initials : Value
  pub name : Value
  pub role : Value

abbrev pub nav_locations : List Location
nav_locations = dashboard ∷ agents ∷ threats ∷ policies ∷ audit_logs ∷ analytics ∷ []

abbrev pub bottom_locations : List Location
bottom_locations = settings ∷ []

unfoldable pub sidebar_screen : Location → Option SessionUser → SidebarScreen
unfolding is_active_path shown_user
sidebar_screen here session_user = record {
  entries = map (nav_entry here) nav_locations;
  bottom = map (bottom_entry here) bottom_locations;
  initials = (shown_user session_user).0;
  name = (shown_user session_user).1;
  role = shown_role session_user;
}

-- an entry of the list of the bell, which is written in the markup
pub record FixedNotification : Type 0 where
  pub text : Text
  pub time : Text
  pub color : Text

abbrev pub fixed_notifications : List FixedNotification
fixed_notifications =
    record {
      text = codes "Finance Agent blocked - payroll export";
      time = codes "2m ago";
      color = codes "#EF4444";
    }
    ∷ record {
      text = codes "New policy violation detected";
      time = codes "5m ago";
      color = codes "#F59E0B";
    }
    ∷ record {
      text = codes "Operations Agent quarantined";
      time = codes "8m ago";
      color = codes "#EF4444";
    }
    ∷ []

-- the bar: the sign "n Active noun", the dot of the bell, and the two menus while they are open
pub record TopBarScreen : Type 0 where
  pub threat_count : ℕ
  pub threat_noun : Text
  pub alarm : Bool
  pub bell_dot : Bool
  pub notifications : Option (List FixedNotification)
  pub initials : Value
  pub name : Value
  pub logout_entry : Bool

unfoldable pub top_bar_screen : ℕ → Option SessionUser → TopBar → TopBarScreen
unfolding threat_sign shown_user
top_bar_screen active_threats session_user bar = record {
  threat_count = active_threats;
  threat_noun = if (threat_sign active_threats).1 then codes "Threat" else codes "Threats";
  alarm = (threat_sign active_threats).0;
  bell_dot = (threat_sign active_threats).0;
  notifications = if bar.show_notif then some fixed_notifications else none;
  initials = (shown_user session_user).0;
  name = (shown_user session_user).1;
  logout_entry = bar.show_profile_menu;
}

-- The paths of the entries, the upper part and then the lower one, are those of the sidebar,
-- wherever the router is and whoever is signed in.
pub sidebar_screen-paths :
    (here : Location) (session_user : Option SessionUser)
    → let screen = sidebar_screen here session_user in
      map (λ (entry : NavEntry). entry.path) (screen.entries ++ screen.bottom) ≡ web_nav_items
unfolding sidebar_screen web_nav_items
sidebar_screen-paths here session_user = refl
