-- ===== src/Auth/AdminFrame.antt =====
-- frontend/admin_panel/src/app/App.tsx
use trusyn_ai.Prelude.{
  Text, codes, text_eq, Bool, true, false, not, Option, none, some, if◌then◌else◌,
}
use trusyn_ai.Runtime.Value.{Value}
use trusyn_ai.Runtime.Monad.{App, Env, Result, ok, throw}
use trusyn_ai.Session.Storage.{admin_panel}
use trusyn_ai.Session.Tokens.{get_access_token}
use trusyn_ai.Session.User.{SessionUser}
use trusyn_ai.Auth.Service.{admin_me, logout}
use trusyn_ai.Auth.Route.{token_missing}

pub record Frame : Type 0 where
  pub active_page : Text
  pub is_authenticated : Bool
  pub is_initializing : Bool

abbrev pub first_frame : Frame
first_frame = record {
  active_page = codes "overview";
  is_authenticated = false;
  is_initializing = true;
}

pub data Page : Type 0 where
  platform_overview organizations threat_intelligence ai_agents api_monitoring : Page
  governance audit_logs system_health settings : Page

-- `renderPage`
unfoldable pub render_page : Text → Page
render_page page =
    if text_eq page (codes "organizations")
    then organizations
    else if text_eq page (codes "threats")
    then threat_intelligence
    else if text_eq page (codes "agents")
    then ai_agents
    else if text_eq page (codes "api")
    then api_monitoring
    else if text_eq page (codes "governance")
    then governance
    else if text_eq page (codes "audit")
    then audit_logs
    else if text_eq page (codes "health")
    then system_health
    else if text_eq page (codes "settings")
    then settings
    else platform_overview

pub data FrameView : Type 0 where
  initializing login_page : FrameView
  panel : Page → FrameView

unfoldable pub frame_view : Frame → FrameView
unfolding render_page
frame_view f =
    if f.is_initializing
    then initializing
    else if f.is_authenticated
    then panel (render_page f.active_page)
    else login_page

abbrev pub booted : Bool → Frame → Frame
booted authenticated f = record f { is_authenticated = authenticated; is_initializing = false }

module _ (env : Env) where
  abbrev pub after_me : Frame → Result Value × App → Frame × App
  after_me f (ok me, s) = (booted true f, s)
  after_me f (throw e, s) = (booted false f, logout env admin_panel s)

  -- The first effect, of a frame that stays mounted: it ends in a frame and a state.
  unfoldable pub boot : Frame → App → Frame × App
  unfolding get_access_token
  boot f s =
      if token_missing (get_access_token admin_panel s.storage)
      then (booted false f, s)
      else after_me f (admin_me env s)

-- The second effect, which runs when the session user changes.
abbrev pub is_signed_in : Option SessionUser → Option Text → Bool
is_signed_in none token = false
is_signed_in (some user) token = not (token_missing token)

unfoldable pub follow_session : Option SessionUser → App → Frame → Frame
unfolding get_access_token
follow_session session_user s f = record f {
  is_authenticated = is_signed_in session_user (get_access_token admin_panel s.storage);
}

-- `onLogout`
unfoldable pub on_logout : Env → Frame → App → Frame × App
on_logout env f s = (
  record f { is_authenticated = false; active_page = codes "overview" },
  logout env admin_panel s,
)

-- `onLoginSuccess`, and `onPageChange` of the sidebar; `onOpenSettings` goes to the settings
abbrev pub on_login_success : Frame → Frame
on_login_success f = record f { is_authenticated = true }

abbrev pub on_page_change : Text → Frame → Frame
on_page_change page f = record f { active_page = page }

abbrev pub on_open_settings : Frame → Frame
on_open_settings f = on_page_change (codes "settings") f
