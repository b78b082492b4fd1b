-- ===== src/Auth/Witnesses.antt =====
-- The theorems on signing in and on the routes, applied where their assumptions hold.
use trusyn_ai.Prelude.{
  Text, codes, ◌≡◌, ◌≢◌, refl, true, false, none, [], ◌∷◌, text_eq, if◌then◌else◌, ◌==◌,
}
use trusyn_ai.Runtime.Value.{Value, str, obj, blank, field}
use trusyn_ai.Runtime.Monad.{App, Env, Response, fulfilled, failure, ok, throw, api}
use trusyn_ai.Session.Storage.{
  web_app, admin_panel, on_storage, get_item, set_item, refresh_key, access_key, session_key,
}
use trusyn_ai.Session.Tokens.{TokenBundle, set_tokens, get_access_token, get_refresh_token}
use trusyn_ai.Session.User.{get_session_user}
use trusyn_ai.Session.Laws.{HasTexts, get_tokens-set_tokens}
use trusyn_ai.Client.Error.{
  safe_json_parse, to_api_error, as_api_error, parse_response_body, read_prop,
}
use trusyn_ai.Client.Auth.{
  refresh_access_token, refresh_with, run_refresh, finish_refresh, apply_auth_session,
}
use trusyn_ai.Client.Refresh.{IsTokenResponse, HasSession, user_of}
use trusyn_ai.Client.Replies.{Replies}
use trusyn_ai.Client.Request.{
  make_request, api_request, api_rounds, begin_round, request_headers, attempt, try_request,
  handle_response, conclude,
}
use trusyn_ai.Client.Sample.{
  legal_headers-env_with, env_with, env_with-KeepsSession, replies, account, ava,
}
use trusyn_ai.Auth.Service.{login, login_path, login_options, request_me}
use trusyn_ai.Auth.Route.{Location, root, outlet, render, next_location, token_missing, hydrate}
use trusyn_ai.Auth.Route.Laws.{next_location-settles, hydrate-denied}
use trusyn_ai.Auth.AdminFrame.{first_frame, initializing, login_page, frame_view, boot}
use trusyn_ai.Auth.Laws.{login-HasSession, boot-ends}

abbrev signed_out : App
signed_out = record { storage = λ k. none; refreshing = false; emitted = 0; sent = [] }

abbrev old_tokens : TokenBundle
old_tokens = record { access_token = codes "old"; refresh_token = codes "again" }

abbrev expired : App
expired = on_storage (set_tokens web_app old_tokens) signed_out

-- Every request is granted, every request is refused, and no request reaches the backend.
abbrev granting : Env
granting = env_with (replies 0)

abbrev denying : Env
denying = env_with (λ n. fulfilled (record { status = 401; text = fulfilled (3 ∷ []) }))

abbrev offline : Env
offline = env_with (λ n. failure)

abbrev email : Text
email = codes "a@t.ai"

abbrev password : Text
password = codes "secret"

abbrev granted : Response
granted = record { status = 200; text = fulfilled (2 ∷ []) }

abbrev refused : Response
refused = record { status = 401; text = fulfilled (3 ∷ []) }

abbrev refused_body : Value
refused_body = obj (field "error" (obj (field "message" (str (codes "no")) blank)) blank)

account-IsTokenResponse : IsTokenResponse account ava (codes "Ava Sharma")
account-IsTokenResponse = record {
  fields = _;
  is_obj = refl;
  user_eq = refl;
  user_fields = _;
  user_obj = refl;
  name_eq = refl;
}

ava-HasTexts : HasTexts (user_of granting web_app ava (codes "Ava Sharma"))
ava-HasTexts = record {
  id = refl;
  organization_id = refl;
  name = refl;
  role = refl;
  email = refl;
  initials = refl;
}

login-Replies :
    Replies granting web_app signed_out
      (make_request granting web_app login_path (login_options email password) signed_out.storage)
      granted
      (obj (field "data" account blank))
unfolding safe_json_parse
login-Replies = record {
  legal = search legal_headers-env_with;
  body = 2 ∷ [];
  settles = refl;
  reads = refl;
  parses = refl;
}

login-HasSession_example :
    ((login granting web_app email password signed_out).0 ≡ ok account)
    × HasSession granting web_app account ava
        (codes "Ava Sharma")
        (login granting web_app email password signed_out).1
login-HasSession_example =
    login-HasSession granting web_app email password (codes "Ava Sharma") signed_out granted
      (obj (field "data" account blank)) account ava (env_with-KeepsSession (replies 0))
      login-Replies refl refl refl account-IsTokenResponse ava-HasTexts

boot-ends_example :
    (frame_view (boot offline first_frame expired).0 ≢ initializing)
    × (frame_view (boot offline first_frame expired).0 ≡ login_page
        → token_missing (get_access_token admin_panel (boot offline first_frame expired).1.storage)
          ≡ true)
boot-ends_example = boot-ends offline first_frame expired

next_location-settles_test :
    (next_location none (next_location none (next_location none root))
      ≡ next_location none (next_location none root))
    × (render none (next_location none (next_location none root)) ≡ outlet)
next_location-settles_test = next_location-settles none root

-- The user is refused, the refresh is granted, and the user is refused again.
abbrev wavering : Env
wavering = env_with (λ n. if n == 2 then fulfilled granted else fulfilled refused)

me-refused :
    (request_me wavering web_app expired).0
    ≡ throw (api (to_api_error wavering web_app refused refused_body))
unfolding request_me api_request api_rounds begin_round request_headers attempt try_request
    make_request handle_response refresh_access_token refresh_with run_refresh finish_refresh
    apply_auth_session parse_response_body safe_json_parse conclude read_prop text_eq get_item
    set_item refresh_key access_key session_key get_refresh_token to_api_error as_api_error
me-refused = refl

hydrate-denied_example :
    let (r, s') = hydrate wavering none expired in
    (r ≡ ok tt)
    × (get_access_token web_app s'.storage ≡ none)
    × (get_refresh_token web_app s'.storage ≡ none)
    × (get_session_user wavering web_app s'.storage ≡ none)
    × ((page : Location)
        → next_location (get_session_user wavering web_app s'.storage) page ≡ Location.login)
unfolding to_api_error
hydrate-denied_example =
    hydrate-denied wavering expired (codes "old")
      (to_api_error wavering web_app refused refused_body)
      (get_tokens-set_tokens web_app old_tokens signed_out.storage).0 refl me-refused refl
