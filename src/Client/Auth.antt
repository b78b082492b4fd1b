-- ===== src/Client/Auth.antt =====
-- `applyAuthSession`, `clearAuthState` and `refreshAccessToken` of api/client.ts.
use trusyn_ai.Prelude.{
  Text, codes, true, false, Option, none, some, [], ◌∷◌, if◌then◌else◌, split_on, heads, take,
}
use trusyn_ai.Runtime.Value.{Value, null, str, obj, blank, field, get_prop}
use trusyn_ai.Runtime.Monad.{
  App, Call, Env, Request, post, Response, api, other, Result, ok, throw, pure, raise, modify,
  finally, resume, fetch, settled, ◌>>=◌, ◌>>◌,
}
use trusyn_ai.Session.Storage.{Panel, on_storage}
use trusyn_ai.Session.Tokens.{set_tokens, clear_tokens, get_refresh_token}
use trusyn_ai.Session.User.{set_session_user, clear_session_user}
use trusyn_ai.Client.Url.{build_url}
use trusyn_ai.Client.Error.{read_prop, is_ok, parse_response_body, to_api_error}

-- the two characters, before they are put in upper case
unfoldable pub initials_of : Text → Text
unfolding split_on
initials_of name = let (part, parts) = split_on b' ' name in take 2 (heads (part ∷ parts))

abbrev pub refresh_path : Text
refresh_path = codes "/api/v1/auth/refresh"

module _ (env : Env) (panel : Panel) where
  unfoldable pub initials_from_name : Text → Text
  unfolding initials_of
  initials_from_name name = env.to_upper_case (initials_of name)

  -- `full_name.split(...)` is a `TypeError` on anything but a text.
  abbrev pub initials_value : Value → Call Value
  initials_value (str name) = pure (str (initials_from_name name))
  initials_value _ = raise other

  unfoldable pub apply_auth_session : Value → Call (Unit {0})
  unfolding initials_from_name read_prop set_tokens set_session_user
  apply_auth_session response_data = do
    access ← read_prop response_data "access_token"
    refresh ← read_prop response_data "refresh_token"
    modify (
        on_storage (
          set_tokens panel
            (record { access_token = env.to_text access; refresh_token = env.to_text refresh })))
    let user = get_prop response_data "user"
    full_name ← read_prop user "full_name"
    initials ← initials_value full_name
    modify (
        set_session_user env panel (record {
          id = get_prop user "id";
          organization_id = get_prop user "organization_id";
          name = full_name;
          role = get_prop user "role";
          email = get_prop user "email";
          initials = initials;
        }))

  unfoldable pub clear_auth_state : App → App
  unfolding clear_tokens clear_session_user
  clear_auth_state s = clear_session_user env panel (on_storage (clear_tokens panel) s)

  unfoldable pub refresh_request : Text → Request
  unfolding build_url
  refresh_request refresh_token = record {
    method = post;
    url = build_url env refresh_path;
    headers = ("Content-Type", codes "application/json") ∷ [];
    body = some (env.json_stringify (obj (field "refresh_token" (str refresh_token) blank)));
    signal = none;
  }

  -- what the refresh does with the response
  unfoldable pub finish_refresh : Response → Value → Call Value
  finish_refresh response payload =
      if is_ok response
      then (do
        response_data ← read_prop payload "data"
        apply_auth_session response_data
        read_prop response_data "access_token")
      else (modify clear_auth_state >> raise (api (to_api_error env panel response payload)))

  -- the promise that is kept in `refreshPromise` while it is pending
  unfoldable pub run_refresh : Text → Call Value
  run_refresh refresh_token =
      finally
        (do
          modify (λ s. record s { refreshing = true })
          response ← fetch env (refresh_request refresh_token)
          payload ← parse_response_body env panel response
          finish_refresh response payload)
        (λ s. record s { refreshing = false })

  -- the promise that another task began
  abbrev pub join_refresh : Call Value
  join_refresh s = (settled (env.join s), s)

  abbrev pub value_or_null : Result Value → Value
  value_or_null (ok v) = v
  value_or_null (throw e) = null

  -- `try { return await refreshPromise; } catch { return null; }`
  abbrev pub await_refresh : Call Value → Call Value
  await_refresh promise s = let (r, s') = promise s in (ok (value_or_null r), resume env s')

  unfoldable pub refresh_with : Text → Call Value
  refresh_with refresh_token s =
      if s.refreshing
      then await_refresh join_refresh s
      else await_refresh (run_refresh refresh_token) s

  abbrev pub refresh_from : Option Text → Call Value
  refresh_from none = modify clear_auth_state >> pure null
  refresh_from (some []) = modify clear_auth_state >> pure null
  refresh_from (some refresh_token) = refresh_with refresh_token

  unfoldable pub refresh_access_token : Call Value
  refresh_access_token s = refresh_from (get_refresh_token panel s.storage) s
