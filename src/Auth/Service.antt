-- ===== src/Auth/Service.antt =====
-- frontend/web-app/src/app/api/services/authService.ts and that of the admin panel.
use trusyn_ai.Prelude.{Text, codes, false, none, some}
use trusyn_ai.Runtime.Value.{Value, undefined, str, obj, blank, field, get_prop}
use trusyn_ai.Runtime.Monad.{App, Call, Env, get, post, pure, modify, ◌>>=◌, ◌>>◌}
use trusyn_ai.Session.Storage.{Panel, admin_panel}
use trusyn_ai.Session.User.{set_session_user}
use trusyn_ai.Client.Error.{read_prop}
use trusyn_ai.Client.Auth.{apply_auth_session, clear_auth_state, initials_value}
use trusyn_ai.Client.Request.{RequestOptions, api_request}

abbrev pub login_path : Text
login_path = codes "/api/v1/auth/login"

abbrev pub me_path : Text
me_path = codes "/api/v1/auth/me"

-- the options of a call, where all that is not written is left out
abbrev pub login_options : Text → Text → RequestOptions
login_options email password = record {
  method = some post;
  query = none;
  body = obj (field "email" (str email) (field "password" (str password) blank));
  auth = some false;
  retry_on_unauthorized = none;
  signal = false;
  request_id = none;
}

abbrev pub get_options : RequestOptions
get_options = record {
  method = some get;
  query = none;
  body = undefined;
  auth = none;
  retry_on_unauthorized = none;
  signal = false;
  request_id = none;
}

module _ (env : Env) (panel : Panel) where
  unfoldable pub login : Text → Text → Call Value
  login email password = do
    response_data ← api_request env panel login_path (login_options email password)
    apply_auth_session env panel response_data
    pure response_data

  -- `setSessionUser` with the fields of a user of the backend
  unfoldable pub store_user : Value → Call (Unit {0})
  unfolding read_prop
  store_user user = do
    id ← read_prop user "id"
    initials ← initials_value env panel (get_prop user "full_name")
    modify (
        set_session_user env panel (record {
          id = id;
          organization_id = get_prop user "organization_id";
          name = get_prop user "full_name";
          role = get_prop user "role";
          email = get_prop user "email";
          initials = initials;
        }))

  unfoldable pub request_me : Call Value
  request_me = api_request env panel me_path get_options

  unfoldable pub logout : App → App
  unfolding clear_auth_state
  logout s = clear_auth_state env panel s

-- The admin panel stores the user in its `me`; the web application leaves that to its caller.
unfoldable pub admin_me : Env → Call Value
admin_me env = do
  response_data ← request_me env admin_panel
  user ← read_prop response_data "user"
  store_user env admin_panel user
  pure response_data
