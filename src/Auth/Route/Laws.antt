-- ===== src/Auth/Route/Laws.antt =====
-- The routes: who sees what, and how a stored session is brought back.
use trusyn_ai.Prelude.{◌≡◌, ap, refl, Text, false, Option, none, some, arith, is_empty}
use trusyn_ai.Runtime.Monad.{App, Env, ApiError, api, ok, throw}
use trusyn_ai.Session.Storage.{web_app}
use trusyn_ai.Session.Tokens.{get_access_token, get_refresh_token}
use trusyn_ai.Session.User.{SessionUser, get_session_user}
use trusyn_ai.Client.Auth.{clear_auth_state}
use trusyn_ai.Client.Refresh.{clear_auth_state-clears}
use trusyn_ai.Auth.Service.{request_me, logout}
use trusyn_ai.Auth.Route.{
  Location, root, login, dashboard, agents, threats, policies, audit_logs, analytics, settings,
  outlet, protected_route, public_only_route, render, next_location, load_user, hydrate,
}

-- Redirections end: after two of them the location stays, and it is the login page without a
-- user, and a page of the workspace with one.
pub next_location-settles :
    (session_user : Option SessionUser) (location : Location)
    → let last = next_location session_user (next_location session_user location) in
      (next_location session_user last ≡ last) × (render session_user last ≡ outlet)
unfolding next_location render protected_route public_only_route
next_location-settles none root = (refl, refl)
next_location-settles none _ = (refl, refl)
next_location-settles (some u) root = (refl, refl)
next_location-settles (some u) _ = (refl, refl)

-- Without a user every location leads to the login.
pub to_login : (there : Location) → next_location none there ≡ login
unfolding next_location render protected_route public_only_route
to_login root = refl
to_login login = refl
to_login dashboard = refl
to_login agents = refl
to_login threats = refl
to_login policies = refl
to_login audit_logs = refl
to_login analytics = refl
to_login settings = refl

module _ (env : Env) where
  hydrate-unauthorized :
      (s s' : App) (access : Text) (e : ApiError)
      → get_access_token web_app s.storage ≡ some access
      → is_empty access ≡ false
      → request_me env web_app s ≡ (throw (api e), s')
      → e.status ≡ 401
      → hydrate env none s ≡ (ok tt, clear_auth_state env web_app s')
  unfolding hydrate load_user logout
  hydrate-unauthorized s s' access e stored full failed status =
      ground (arith, stored, full, failed, status)

  -- While a session is brought back, a 401 of the user, whatever the client and the other tasks
  -- left in the storage, removes the session: afterwards there is no token and no user, and every
  -- location leads to the login.
  pub hydrate-denied :
      (s : App) (access : Text) (e : ApiError)
      → get_access_token web_app s.storage ≡ some access
      → is_empty access ≡ false
      → (request_me env web_app s).0 ≡ throw (api e)
      → e.status ≡ 401
      → let (r, s') = hydrate env none s in
        (r ≡ ok tt)
        × (get_access_token web_app s'.storage ≡ none)
        × (get_refresh_token web_app s'.storage ≡ none)
        × (get_session_user env web_app s'.storage ≡ none)
        × ((page : Location) → next_location (get_session_user env web_app s'.storage) page ≡ login)
  hydrate-denied s access e stored full failed status =
      let s' = (request_me env web_app s).1 in
      let cleared = clear_auth_state-clears env web_app s' in
      rw (hydrate-unauthorized s s' access e stored full (ap (λ r. (r, s')) failed) status)
        (refl, cleared.0, cleared.1, cleared.2, λ page. rw cleared.2 (to_login page))
