-- ===== src/Api/Session.antt =====
-- The services and the session: what their calls do where the client renews or gives up.
use trusyn_ai.Prelude.{◌+◌, length, Text, ◌≡◌, refl, true, false, none, some, arith, is_empty}
use trusyn_ai.Runtime.Value.{Value}
use trusyn_ai.Runtime.Monad.{App, Env, Response, api, ok, throw}
use trusyn_ai.Session.Storage.{Panel}
use trusyn_ai.Session.Tokens.{get_access_token, get_refresh_token}
use trusyn_ai.Session.User.{get_session_user}
use trusyn_ai.Client.Error.{to_api_error, is_ok}
use trusyn_ai.Client.Auth.{refresh_request}
use trusyn_ai.Client.Refresh.{IsQuiet, tokens_of, clear_auth_state-clears}
use trusyn_ai.Client.Request.{RequestOptions, make_request}
use trusyn_ai.Client.Replies.{Replies, Unauthorized, requested, refreshes}
use trusyn_ai.Client.Renewal.{api_request-clear_auth_state}
use trusyn_ai.Client.Repeat.{Recovers, api_request-Recovers, renewed-tokens}
use trusyn_ai.Api.Services.{ServiceCall, route_of, call_service}
use trusyn_ai.Api.Laws.{IsRoute, route_of-IsRoute}

module _ (env : Env) (panel : Panel) (encode : Text → Text) where
  pub IsRoute-Unauthorized :
      (path : Text) (o : RequestOptions) (s : App) (r : Response) (v : Value)
      → IsRoute path o
      → Replies env panel s (make_request env panel path o s.storage) r v
      → r.status ≡ 401
      → Unauthorized env panel path o s r v
  IsRoute-Unauthorized path o s r v h replies status = record {
    retries = ground (arith, h.retries);
    auth = ground (arith, h.auth);
    other_path = h.other_path;
    replies = replies;
    status = status;
  }

  -- A 401 of any service whose refresh is refused: the call throws the error of the 401, and
  -- neither a token nor a user is left.
  pub call_service-denied :
      (quiet : IsQuiet env) (c : ServiceCall) (s : App) (r r' : Response) (v v' : Value)
      (token : Text)
      → let (path, o) = route_of encode c in
        Replies env panel s (make_request env panel path o s.storage) r v
        → r.status ≡ 401
        → get_refresh_token panel s.storage ≡ some token
        → is_empty token ≡ false
        → s.refreshing ≡ false
        → Replies env panel
            (record (requested env panel path o s) { refreshing = true })
            (refresh_request env panel token)
            r'
            v'
        → is_ok r' ≡ false
        → let (res, s') = call_service env panel encode c s in
          (res ≡ throw (api (to_api_error env panel r v)))
          × (get_access_token panel s'.storage ≡ none)
          × (get_refresh_token panel s'.storage ≡ none)
          × (get_session_user env panel s'.storage ≡ none)
  unfolding call_service
  call_service-denied quiet c s r r' v v' token h status stored full idle h' bad =
      let (path, o) = route_of encode c in
      let unauthorized = IsRoute-Unauthorized path o s r v (route_of-IsRoute encode c) h status in
      let cleared =
        clear_auth_state-clears env panel
          (refreshes env panel token (requested env panel path o s)) in
      rw
        (api_request-clear_auth_state env panel quiet path o s r v unauthorized token r' v' stored
          full idle h' bad)
        (refl, cleared.0, cleared.1, cleared.2)

  -- A 401 of any service in a session that can be renewed: the call comes to the data of its
  -- second round, both new tokens are stored, and three requests were sent.
  pub call_service-Recovers :
      (quiet : IsQuiet env) (c : ServiceCall) (s : App) (r : Response) (v : Value) (token : Text)
      (d user : Value) (name : Text) (w : Value)
      → let (path, o) = route_of encode c in
        Replies env panel s (make_request env panel path o s.storage) r v
        → r.status ≡ 401
        → Recovers env panel path o token d user name w s
        → let (res, s') = call_service env panel encode c s in
          (res ≡ ok w)
          × (get_access_token panel s'.storage ≡ some (tokens_of env panel d).access_token)
          × (get_refresh_token panel s'.storage ≡ some (tokens_of env panel d).refresh_token)
          × (length s'.sent ≡ 3 + length s.sent)
  unfolding call_service
  call_service-Recovers quiet c s r v token d user name w h status recovers =
      let (path, o) = route_of encode c in
      let unauthorized = IsRoute-Unauthorized path o s r v (route_of-IsRoute encode c) h status in
      let (access, refresh, sent) = renewed-tokens env panel quiet path o s token d user name in
      rw
        (api_request-Recovers env panel quiet path o s r v token d user name w unauthorized
          recovers)
        (refl, access, refresh, sent)
