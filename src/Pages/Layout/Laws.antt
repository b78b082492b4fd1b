-- ===== src/Pages/Layout/Laws.antt =====
-- The sidebar and the routes, the logout, and the answers that come after the layout is left.
use trusyn_ai.Prelude.{◌≡◌, refl, true, none, some, List, [], ◌∷◌, any, keep}
use trusyn_ai.Runtime.Monad.{App, Env, Result, ok, throw}
use trusyn_ai.Session.Storage.{web_app}
use trusyn_ai.Session.Tokens.{get_access_token, get_refresh_token}
use trusyn_ai.Session.User.{SessionUser, get_session_user}
use trusyn_ai.Types.Reports.{DashboardSummaryDto}
use trusyn_ai.Client.Refresh.{clear_auth_state-clears}
use trusyn_ai.Auth.Service.{logout}
use trusyn_ai.Auth.Route.{
  Location, root, login, dashboard, agents, threats, policies, audit_logs, analytics, settings,
  next_location, render, protected_route, public_only_route, outlet,
}
use trusyn_ai.Auth.Route.Laws.{to_login}
use trusyn_ai.Pages.Layout.{
  MainLayout, load_layout_summary, leave_layout, sign_out, web_nav_items, is_active_path,
}

-- A logout ends at the login page, and stays there: no token and no user is stored, so the login
-- page is shown, and each other location goes back to it.
pub sign_out-login :
    (env : Env) (s : App) (location : Location)
    → let (target, s') = sign_out env s in
      let session_user = get_session_user env web_app s'.storage in
      (target ≡ login)
      × (get_access_token web_app s'.storage ≡ none)
      × (get_refresh_token web_app s'.storage ≡ none)
      × (session_user ≡ none)
      × (render session_user target ≡ outlet)
      × (next_location session_user location ≡ login)
unfolding sign_out logout render next_location protected_route public_only_route
sign_out-login env s location =
    let (access, refresh, gone, emitted) = clear_auth_state-clears env web_app s in
    (refl, access, refresh, gone, rw gone refl, rw gone (to_login location))

abbrev pub active_entries : Location → List Location
active_entries here = keep (is_active_path here) web_nav_items

-- Each entry of the sidebar leads to its own page: with a session user the router stays there, and
-- this entry alone is active.
pub web_nav_items-active :
    (user : SessionUser) (here : Location)
    → any (is_active_path here) web_nav_items ≡ true
    → (next_location (some user) here ≡ here) × (active_entries here ≡ here ∷ [])
unfolding next_location render protected_route web_nav_items is_active_path
web_nav_items-active user root h = cc
web_nav_items-active user login h = cc
web_nav_items-active user dashboard h = (refl, refl)
web_nav_items-active user agents h = (refl, refl)
web_nav_items-active user threats h = (refl, refl)
web_nav_items-active user policies h = (refl, refl)
web_nav_items-active user audit_logs h = (refl, refl)
web_nav_items-active user analytics h = (refl, refl)
web_nav_items-active user settings h = (refl, refl)

unfoldable pub load_all : List (Result DashboardSummaryDto) → MainLayout → MainLayout
unfolding load_layout_summary
load_all [] l = l
load_all (result ∷ results) l = load_all results (load_layout_summary result l)

-- Once the layout is left, no answer of a load that is still under way changes it.
pub leave_layout-ignores :
    (results : List (Result DashboardSummaryDto)) (l : MainLayout)
    → load_all results (leave_layout l) ≡ leave_layout l
unfolding load_all load_layout_summary leave_layout
leave_layout-ignores [] l = refl
leave_layout-ignores (ok summary ∷ results) l = leave_layout-ignores results l
leave_layout-ignores (throw e ∷ results) l = leave_layout-ignores results l
