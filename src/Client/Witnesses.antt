-- ===== src/Client/Witnesses.antt =====
-- The theorems on the request client, applied where their assumptions hold.
use trusyn_ai.Prelude.{
  ℕ, Text, codes, ◌≡◌, ◌≤◌, ◌+◌, refl, true, false, none, some, [], ◌∷◌, text_eq, length, inl,
  if◌then◌else◌,
}
use trusyn_ai.Runtime.Value.{Value, undefined, str, obj, blank, field}
use trusyn_ai.Runtime.Monad.{
  App, Env, Response, Settled, fulfilled, failure, api, other, throw, log_request, resume,
}
use trusyn_ai.Session.Storage.{web_app, on_storage, get_item}
use trusyn_ai.Session.Tokens.{TokenBundle, set_tokens, get_refresh_token, get_access_token}
use trusyn_ai.Session.User.{get_session_user}
use trusyn_ai.Session.Laws.{get_tokens-set_tokens}
use trusyn_ai.Client.Error.{to_api_error, safe_json_parse, network_error}
use trusyn_ai.Client.Auth.{clear_auth_state, refresh_request}
use trusyn_ai.Client.Refresh.{IsQuiet, IsTokenResponse, signed_in}
use trusyn_ai.Client.Request.{RequestOptions, make_request, legal_headers, api_rounds, api_request}
use trusyn_ai.Client.Rounds.{api_request-eq-api_rounds, api_request-Sends}
use trusyn_ai.Client.Replies.{Replies, Unauthorized, requested, refreshes}
use trusyn_ai.Client.Renewal.{api_request-renewed, api_request-denied, api_request-no_token}
use trusyn_ai.Client.Outcome.{api_request-NeverRenews}
use trusyn_ai.Client.Sample.{legal_headers-env_with, env_with, replies, account, ava}

abbrev plain : RequestOptions
plain = record {
  method = none;
  query = none;
  body = undefined;
  auth = none;
  retry_on_unauthorized = none;
  signal = false;
  request_id = none;
}

abbrev agents_path : Text
agents_path = codes "/api/v1/agents"

abbrev pub old_tokens : TokenBundle
old_tokens = record { access_token = codes "old"; refresh_token = codes "again" }

abbrev signed_out : App
signed_out = record { storage = λ k. none; refreshing = false; emitted = 0; sent = [] }

abbrev pub expired : App
expired = on_storage (set_tokens web_app old_tokens) signed_out

-- the first request is refused, the refresh is granted
abbrev pub granting : Env
granting = env_with (replies 1)

-- every request is refused
abbrev denying : Env
denying = env_with (λ n. fulfilled (record { status = 401; text = fulfilled (3 ∷ []) }))

quiet : (reply : ℕ → Settled Response) → IsQuiet (env_with reply)
quiet reply = record { storage = λ s. refl; refreshing = λ s. refl }

abbrev refused : Response
refused = record { status = 401; text = fulfilled (3 ∷ []) }

abbrev refused_body : Value
refused_body = obj (field "error" (obj (field "message" (str (codes "no")) blank)) blank)

granting-Unauthorized : Unauthorized granting web_app agents_path plain expired refused refused_body
unfolding safe_json_parse text_eq
granting-Unauthorized = record {
  retries = refl;
  auth = refl;
  other_path = refl;
  replies = record {
    legal = search legal_headers-env_with;
    body = 3 ∷ [];
    settles = refl;
    reads = refl;
    parses = refl;
  };
  status = refl;
}

denying-Unauthorized :
    (s : App) → Unauthorized denying web_app agents_path plain s refused refused_body
unfolding safe_json_parse text_eq
denying-Unauthorized s = record {
  retries = refl;
  auth = refl;
  other_path = refl;
  replies = record {
    legal = search legal_headers-env_with;
    body = 3 ∷ [];
    settles = refl;
    reads = refl;
    parses = refl;
  };
  status = refl;
}

pub account-IsTokenResponse : IsTokenResponse account ava (codes "Ava Sharma")
account-IsTokenResponse = record {
  fields = _;
  is_obj = refl;
  user_eq = refl;
  user_fields = _;
  user_obj = refl;
  name_eq = refl;
}

granted :
    Replies granting web_app
      (record (requested granting web_app agents_path plain expired) { refreshing = true })
      (refresh_request granting web_app (codes "again"))
      (record { status = 200; text = fulfilled (2 ∷ []) })
      (obj (field "data" account blank))
unfolding safe_json_parse
granted = record {
  legal = search legal_headers-env_with;
  body = 2 ∷ [];
  settles = refl;
  reads = refl;
  parses = refl;
}

denied :
    Replies denying web_app
      (record (requested denying web_app agents_path plain expired) { refreshing = true })
      (refresh_request denying web_app (codes "again"))
      refused
      refused_body
unfolding safe_json_parse
denied = record {
  legal = search legal_headers-env_with;
  body = 3 ∷ [];
  settles = refl;
  reads = refl;
  parses = refl;
}

-- The state after the renewal.
abbrev renewed : App
renewed =
    record (signed_in granting web_app account ava (codes "Ava Sharma") (
      refreshes granting web_app (codes "again")
        (requested granting web_app agents_path plain expired))) { refreshing = false }

api_request-renewed_example :
    (api_request granting web_app agents_path plain expired
      ≡ api_rounds granting web_app 1 false agents_path plain renewed)
    × (get_access_token web_app renewed.storage ≡ some (codes "new"))
api_request-renewed_example =
    api_request-renewed granting web_app (quiet (replies 1)) agents_path plain expired refused
      refused_body granting-Unauthorized (codes "again")
      (record { status = 200; text = fulfilled (2 ∷ []) }) (obj (field "data" account blank))
      account ava (codes "Ava Sharma")
      (get_tokens-set_tokens web_app old_tokens signed_out.storage).1 refl refl granted refl refl
      refl account-IsTokenResponse refl

api_request-denied_example :
    let (res, s') = api_request denying web_app agents_path plain expired in
    (res ≡ throw (api (to_api_error denying web_app refused refused_body)))
    × (get_access_token web_app s'.storage ≡ none)
    × (get_refresh_token web_app s'.storage ≡ none)
    × (get_session_user denying web_app s'.storage ≡ none)
    × (s'.refreshing ≡ false)
    × (length s'.sent ≡ 2 + length expired.sent)
api_request-denied_example =
    api_request-denied denying web_app (quiet (λ n. fulfilled refused)) agents_path plain expired
      refused refused_body (denying-Unauthorized expired) (codes "again") refused refused_body
      (get_tokens-set_tokens web_app old_tokens signed_out.storage).1 refl refl denied refl

api_request-no_token_test : api_request denying web_app agents_path plain signed_out ≡ (
  throw (api (to_api_error denying web_app refused refused_body)),
  clear_auth_state denying web_app (requested denying web_app agents_path plain signed_out),
)
unfolding get_refresh_token get_item
api_request-no_token_test =
    api_request-no_token denying web_app (quiet (λ n. fulfilled refused)) agents_path plain
      signed_out refused refused_body (denying-Unauthorized signed_out) refl

-- no server answers
abbrev offline : Env
offline = env_with (λ n. failure)

abbrev login : RequestOptions
login = record plain { auth = some false; body = str (codes "x") }

api_request-NeverRenews_example :
    let q = make_request offline web_app agents_path login expired.storage in
    api_request offline web_app agents_path login expired ≡ (
      if legal_headers offline q.headers
      then (throw (api (network_error offline web_app)), resume offline (log_request q expired))
      else (throw other, expired))
api_request-NeverRenews_example =
    api_request-NeverRenews offline web_app agents_path login expired (inl refl)

-- no header value is taken
abbrev picky : Env
picky = record offline { is_header_value = λ value. false }

api_request-Sends_example :
    length (api_request granting web_app agents_path plain expired).1.sent ≤ length expired.sent + 3
api_request-Sends_example = api_request-Sends granting web_app agents_path plain expired

api_request-eq-api_rounds_example :
    api_rounds granting web_app 9 true agents_path plain expired
    ≡ api_request granting web_app agents_path plain expired
api_request-eq-api_rounds_example =
    api_request-eq-api_rounds granting web_app 7 agents_path plain expired
