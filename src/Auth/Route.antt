-- ===== src/Auth/Route.antt =====
-- frontend/web-app/src/app/components/auth/ProtectedRoute.tsx and routes.tsx.
pub mod Laws
use trusyn_ai.Prelude.{
  Text, codes, Bool, true, false, Option, none, some, ◌==◌, if◌then◌else◌, is_empty,
}
use trusyn_ai.Runtime.Value.{Value}
use trusyn_ai.Runtime.Monad.{App, Call, Env, Exn, api, pure, gets, modify, catch, ◌>>=◌, ◌>>◌}
use trusyn_ai.Session.Storage.{Panel, web_app}
use trusyn_ai.Session.Tokens.{get_access_token}
use trusyn_ai.Session.User.{SessionUser}
use trusyn_ai.Client.Error.{read_prop}
use trusyn_ai.Auth.Service.{request_me, store_user, logout}

-- The locations of `routes.tsx`; the last seven stand under `ProtectedRoute`.
pub data Location : Type 0 where
  root login dashboard agents threats policies audit_logs analytics settings : Location

-- What a route element renders.
pub data View : Type 0 where
  loading_workspace : View
  navigate : Location → Option Location → View
  outlet : View

-- the rendering of `ProtectedRoute`: a redirection remembers where it came from
unfoldable pub protected_route : Bool → Option SessionUser → Location → View
protected_route true session_user location = loading_workspace
protected_route false none location = navigate login (some location)
protected_route false (some user) location = outlet

unfoldable pub public_only_route : Option SessionUser → View
public_only_route none = outlet
public_only_route (some user) = navigate dashboard none

-- the element of each location, once `ProtectedRoute` is done with its loading
unfoldable pub render : Option SessionUser → Location → View
unfolding protected_route public_only_route
render session_user root = navigate login none
render session_user login = public_only_route session_user
render session_user location = protected_route false session_user location

-- where the router goes from there
abbrev pub go_to : View → Location → Location
go_to (navigate target from) location = target
go_to _ location = location

unfoldable pub next_location : Option SessionUser → Location → Location
unfolding render
next_location session_user location = go_to (render session_user location) location

-- the `catch` of `hydrate`: only a 401 signs out
abbrev pub on_hydrate_error : Env → Exn → Call (Unit {0})
on_hydrate_error env (api e) = if e.status == 401 then modify (logout env web_app) else pure tt
on_hydrate_error env _ = pure tt

abbrev pub token_missing : Option Text → Bool
token_missing none = true
token_missing (some token) = is_empty token

module _ (env : Env) where
  -- the `try` block of `hydrate`
  unfoldable pub load_user : Call (Unit {0})
  load_user = do
    me ← request_me env web_app
    user ← read_prop me "user"
    store_user env web_app user

  abbrev pub hydrate_user : Option SessionUser → Call (Unit {0})
  hydrate_user (some user) = pure tt
  hydrate_user none = catch load_user (on_hydrate_error env)

  -- `hydrate`, up to its `setHydrating(false)`, which every branch ends with
  unfoldable pub hydrate : Option SessionUser → Call (Unit {0})
  unfolding get_access_token
  hydrate session_user = do
    token ← gets (λ s. get_access_token web_app s.storage)
    if token_missing token then pure tt else hydrate_user session_user
