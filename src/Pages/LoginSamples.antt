-- ===== src/Pages/LoginSamples.antt =====
-- The theorem on signing in, from the form to the workspace, applied to a login that is granted.
use trusyn_ai.Prelude.{codes, ◌≡◌, refl, false, none, some, [], ◌∷◌, trim}
use trusyn_ai.Runtime.Value.{Value, obj, blank, field}
use trusyn_ai.Runtime.Monad.{App, Env, Response, fulfilled}
use trusyn_ai.Session.Storage.{web_app}
use trusyn_ai.Session.User.{get_session_user}
use trusyn_ai.Session.Laws.{HasTexts}
use trusyn_ai.Client.Error.{safe_json_parse}
use trusyn_ai.Client.Refresh.{IsTokenResponse, HasSession, user_of}
use trusyn_ai.Client.Replies.{Replies}
use trusyn_ai.Client.Request.{make_request}
use trusyn_ai.Client.Sample.{
  legal_headers-env_with, env_with, env_with-KeepsSession, replies, account, ava,
}
use trusyn_ai.Auth.Service.{login_path, login_options}
use trusyn_ai.Auth.Route.{Location, outlet, protected_route, next_location}
use trusyn_ai.Pages.Login.{LoginPage, is_incomplete, handle_login}
use trusyn_ai.Pages.Login.Workspace.{handle_login-enters}

abbrev signed_out : App
signed_out = record { storage = λ k. none; refreshing = false; emitted = 0; sent = [] }

abbrev granting : Env
granting = env_with (replies 0)

abbrev granted : Response
granted = record { status = 200; text = fulfilled (2 ∷ []) }

abbrev body : Value
body = obj (field "data" account blank)

abbrev form : LoginPage
form = record {
  email = codes " a@t.ai";
  password = codes "secret";
  show_password = false;
  loading = false;
  selected_profile = [];
  forgot_open = false;
  error_message = none;
}

form_complete : is_incomplete form ≡ false
unfolding trim
form_complete = refl

account-IsTokenResponse : IsTokenResponse account ava (codes "Ava Sharma")
account-IsTokenResponse = record {
  fields = _;
  is_obj = refl;
  user_eq = refl;
  user_fields = _;
  user_obj = refl;
  name_eq = refl;
}

ava-HasTexts : HasTexts (user_of granting web_app ava (codes "Ava Sharma"))
ava-HasTexts = record {
  id = refl;
  organization_id = refl;
  name = refl;
  role = refl;
  email = refl;
  initials = refl;
}

form-Replies :
    Replies granting web_app signed_out
      (make_request granting web_app login_path
        (login_options (trim form.email) form.password)
        signed_out.storage)
      granted
      body
unfolding safe_json_parse
form-Replies = record {
  legal = search legal_headers-env_with;
  body = 2 ∷ [];
  settles = refl;
  reads = refl;
  parses = refl;
}

handle_login-enters_example :
    let ((p', path), s') = handle_login granting (some (codes "/agents")) form signed_out in
    (path ≡ some (codes "/agents"))
    × (p'.loading ≡ false)
    × (p'.error_message ≡ none)
    × HasSession granting web_app account ava (codes "Ava Sharma") s'
    × ((page : Location)
        → protected_route false (get_session_user granting web_app s'.storage) page ≡ outlet)
    × (next_location (get_session_user granting web_app s'.storage) Location.login
        ≡ Location.dashboard)
handle_login-enters_example =
    handle_login-enters granting (some (codes "/agents")) form (codes "Ava Sharma") signed_out
      granted body account ava (env_with-KeepsSession (replies 0)) form_complete form-Replies refl
      refl refl account-IsTokenResponse ava-HasTexts
