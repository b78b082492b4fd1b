-- ===== src/Pages/Layout.antt =====
-- frontend/web-app/src/app/components/layout: MainLayout.tsx, TopBar.tsx and Sidebar.tsx
pub mod Laws
pub mod Screen
use trusyn_ai.Prelude.{
  ℕ, Text, codes, Bool, true, false, not, Option, none, some, List, [], ◌∷◌, length, ltb, ◌==◌,
  if◌then◌else◌,
}
use trusyn_ai.Runtime.Monad.{App, Env, Result, ok, throw}
use trusyn_ai.Runtime.Value.{Value, str, or_else}
use trusyn_ai.Session.Storage.{web_app}
use trusyn_ai.Session.User.{SessionUser}
use trusyn_ai.Types.Reports.{DashboardSummaryDto}
use trusyn_ai.Auth.Service.{logout}
use trusyn_ai.Auth.Route.{
  Location, root, login, dashboard, agents, threats, policies, audit_logs, analytics, settings,
}

-- The state of the layout. `cancelled` belongs to its effect, whose cleanup also clears the
-- interval.
pub record MainLayout : Type 0 where
  pub active_threats : ℕ
  pub cancelled : Bool

-- the answer to one of the loads, of which the interval begins another every 30 seconds
unfoldable pub load_layout_summary : Result DashboardSummaryDto → MainLayout → MainLayout
load_layout_summary (ok summary) l =
    if l.cancelled then l else record l { active_threats = length summary.recent_threats }
load_layout_summary (throw e) l = if l.cancelled then l else record l { active_threats = 0 }

unfoldable pub leave_layout : MainLayout → MainLayout
leave_layout l = record l { cancelled = true }

pub record TopBar : Type 0 where
  pub show_notif : Bool
  pub show_profile_menu : Bool

unfoldable pub toggle_notif : TopBar → TopBar
toggle_notif bar = record bar { show_notif = not (bar.show_notif) }

unfoldable pub toggle_web_profile_menu : TopBar → TopBar
toggle_web_profile_menu bar = record bar { show_profile_menu = not (bar.show_profile_menu) }

-- the sign with the number of threats: whether it is red, and whether it says "Threat"
unfoldable pub threat_sign : ℕ → Bool × Bool
threat_sign active_threats = (ltb 0 active_threats, active_threats == 1)

-- `sessionUser?.initials ?? 'NA'` and `sessionUser?.name ?? 'Unknown User'`
unfoldable pub shown_user : Option SessionUser → Value × Value
shown_user none = (str (codes "NA"), str (codes "Unknown User"))
shown_user (some user) =
    (or_else user.initials (str (codes "NA")), or_else user.name (str (codes "Unknown User")))

-- the entry Logout: the session is cleared, and the router goes to the login
unfoldable pub sign_out : Env → App → Location × App
unfolding logout
sign_out env s = (login, logout env web_app s)

-- `navItems`, and `bottomItems` after them, by the locations of their paths
unfoldable pub web_nav_items : List Location
web_nav_items = dashboard ∷ agents ∷ threats ∷ policies ∷ audit_logs ∷ analytics ∷ settings ∷ []

abbrev pub same_location : Location → Location → Bool
same_location root root = true
same_location login login = true
same_location dashboard dashboard = true
same_location agents agents = true
same_location threats threats = true
same_location policies policies = true
same_location audit_logs audit_logs = true
same_location analytics analytics = true
same_location settings settings = true
same_location _ _ = false

-- `location.pathname === path`
unfoldable pub is_active_path : Location → Location → Bool
is_active_path here path = same_location here path
