-- ===== src/Pages/Login/Workspace.antt =====
-- From the form of pages/LoginPage.tsx to the workspace: handleLogin over authService.login, the
-- client, the session store and the routes.
use trusyn_ai.Prelude.{Text, codes, ◌≡◌, ap, refl, true, false, Option, none, some, trim}
use trusyn_ai.Runtime.Value.{Value, get_prop, is_nullish}
use trusyn_ai.Runtime.Monad.{App, Env, Response, ok}
use trusyn_ai.Session.Storage.{web_app}
use trusyn_ai.Session.User.{get_session_user}
use trusyn_ai.Session.Laws.{KeepsSession, HasTexts}
use trusyn_ai.Client.Error.{is_ok}
use trusyn_ai.Client.Refresh.{IsTokenResponse, HasSession, user_of}
use trusyn_ai.Client.Replies.{Replies}
use trusyn_ai.Client.Request.{make_request}
use trusyn_ai.Auth.Service.{login, login_path, login_options}
use trusyn_ai.Auth.Laws.{login-HasSession}
use trusyn_ai.Auth.Route.{Location, outlet, protected_route, next_location}
use trusyn_ai.Pages.Login.{LoginPage, is_incomplete, next_path, handle_login}

next_path-eq :
    (from : Option Text)
    → next_path from ≡ elim from [ none ↦ codes "/dashboard" | some there ↦ there ]
next_path-eq none = refl
next_path-eq (some there) = refl

module _ (env : Env) where
  handle_login-granted :
      (from : Option Text) (p : LoginPage) (s : App) (d : Value)
      → is_incomplete p ≡ false
      → (login env web_app (trim p.email) p.password s).0 ≡ ok d
      → handle_login env from p s ≡ (
        (record p { loading = false; error_message = none }, some (next_path from)),
        (login env web_app (trim p.email) p.password s).1,
      )
  unfolding handle_login
  handle_login-granted from p s d complete granted = rw (complete, granted) refl

  -- A form that is filled in, and that the backend grants: the page goes where the user came from,
  -- or to the dashboard, without an error and with its button free; the session of the answer is
  -- stored, every page of the workspace is shown, and the login page leads to the dashboard.
  pub handle_login-enters :
      (from : Option Text) (p : LoginPage) (name : Text) (s : App) (r : Response) (v d user : Value)
      → KeepsSession env
      → is_incomplete p ≡ false
      → Replies env web_app s
          (make_request env web_app login_path (login_options (trim p.email) p.password) s.storage)
          r
          v
      → is_ok r ≡ true
      → is_nullish v ≡ false
      → get_prop v "data" ≡ d
      → IsTokenResponse d user name
      → HasTexts (user_of env web_app user name)
      → let ((p', path), s') = handle_login env from p s in
        (path ≡ some (elim from [ none ↦ codes "/dashboard" | some there ↦ there ]))
        × (p'.loading ≡ false)
        × (p'.error_message ≡ none)
        × HasSession env web_app d user name s'
        × ((page : Location)
            → protected_route false (get_session_user env web_app s'.storage) page ≡ outlet)
        × (next_location (get_session_user env web_app s'.storage) Location.login
            ≡ Location.dashboard)
  unfolding next_location protected_route
  handle_login-enters from p name s r v d user laws complete h good object e t texts =
      let (granted, session) =
        login-HasSession env web_app (trim p.email) p.password name s r v d user laws h good object
          e t texts in
      rw (handle_login-granted from p s d complete granted) (
        ap some (next_path-eq from),
        refl,
        refl,
        session,
        λ page. rw session.session refl,
        rw session.session refl,
      )
