-- ===== src/Client/Request.antt =====
-- `apiRequest` of api/client.ts.
use trusyn_ai.Prelude.{
  ℕ, zero, suc, String, Text, codes, text_eq, Bool, true, false, ◌&&◌, not, Option, none, some,
  List, [], ◌∷◌, ◌++◌, if◌then◌else◌, ◌==◌,
}
use trusyn_ai.Runtime.Value.{Value, undefined, is_truthy}
use trusyn_ai.Runtime.Monad.{
  Call, Env, Method, get, caller, timer, Request, Response, api, other, Storage, pure, raise, throw,
  gets, catch, fetch, ◌>>=◌,
}
use trusyn_ai.Session.Storage.{Panel, web_app, admin_panel}
use trusyn_ai.Session.Tokens.{get_access_token}
use trusyn_ai.Client.Url.{build_url, build_query}
use trusyn_ai.Client.Error.{read_prop, is_ok, parse_response_body, to_api_error, as_api_error}
use trusyn_ai.Client.Auth.{refresh_path, refresh_access_token}

-- An option that is left out is `none`; the body is `undefined` when there is none. `signal` says
-- whether the caller gives one, and only the admin panel reads `request_id`.
pub record RequestOptions : Type 0 where
  pub method : Option Method
  pub query : Option (List (String × Value))
  pub body : Value
  pub auth : Option Bool
  pub retry_on_unauthorized : Option Bool
  pub signal : Bool
  pub request_id : Option Text

abbrev pub option_or {ℓ} : {A : Type ℓ} → Option A → A → A
option_or none d = d
option_or (some a) d = a

abbrev pub is_undefined : Value → Bool
is_undefined undefined = true
is_undefined _ = false

-- A header that is set only if there is a text for it, and that text is not empty.
abbrev pub header_if : String → Text → Option Text → List (String × Text)
header_if name prefix none = []
header_if name prefix (some []) = []
header_if name prefix (some value) = (name, prefix ++ value) ∷ []

abbrev pub request_id_header : Panel → RequestOptions → List (String × Text)
request_id_header web_app o = []
request_id_header admin_panel o = header_if "x-request-id" [] o.request_id

unfoldable pub request_headers : Panel → RequestOptions → Storage → List (String × Text)
unfolding get_access_token
request_headers panel o st =
    ("Accept", codes "application/json")
    ∷ ((if is_undefined o.body then [] else ("Content-Type", codes "application/json") ∷ [])
        ++ (request_id_header panel o
            ++ (if option_or o.auth true
                then header_if "Authorization" (codes "Bearer ") (get_access_token panel st)
                else [])))

-- whether `headers.set` takes each of them
abbrev pub legal_headers : Env → List (String × Text) → Bool
legal_headers env [] = true
legal_headers env ((name, value) ∷ headers) = env.is_header_value value && legal_headers env headers

-- the test that leads to a renewal
abbrev pub is_renewable : Bool → Text → RequestOptions → Response → Bool
is_renewable retry path o response =
    response.status == 401 && option_or o.auth true && retry && not (text_eq path refresh_path)

-- What one round of `apiRequest` comes to: a value, or the call of itself after a renewal.
pub data Round : Type 0 where
  done : Value → Round
  again : Round

module _ (env : Env) (panel : Panel) where
  unfoldable pub make_request : Text → RequestOptions → Storage → Request
  unfolding request_headers build_url build_query
  make_request path o st = record {
    method = option_or o.method get;
    url = build_url env path ++ build_query env o.query;
    headers = request_headers panel o st;
    body = if is_undefined o.body then none else some (env.json_stringify o.body);
    signal = some (if o.signal then caller else timer);
  }

  -- the end of the `try` block, once no renewal is to be made
  unfoldable pub conclude : Response → Value → Call Round
  conclude response payload =
      if is_ok response
      then (do result ← read_prop payload "data"; pure (done result))
      else raise (api (to_api_error env panel response payload))

  -- with the token that the refresh came to: another round, if there is one
  abbrev pub after_refresh : Response → Value → Value → Call Round
  after_refresh response payload renewed_token =
      if is_truthy renewed_token then pure again else conclude response payload

  unfoldable pub handle_response : Bool → Text → RequestOptions → Response → Value → Call Round
  handle_response retry path o response payload =
      if is_renewable retry path o response
      then refresh_access_token env panel >>= after_refresh response payload
      else conclude response payload

  -- the `try` block
  unfoldable pub try_request : Bool → Text → RequestOptions → Call Round
  try_request retry path o = do
    st ← gets (λ s. s.storage)
    response ← fetch env (make_request path o st)
    payload ← parse_response_body env panel response
    handle_response retry path o response payload

  -- and its `catch`
  unfoldable pub attempt : Bool → Text → RequestOptions → Call Round
  attempt retry path o =
      catch (try_request retry path o) (λ e. raise (api (as_api_error env panel e)))

  -- The headers are set before the `try`, so what `headers.set` throws is not caught.
  unfoldable pub begin_round : Bool → Text → RequestOptions → Call Round
  unfolding request_headers
  begin_round retry path o s =
      if legal_headers env (request_headers panel o s.storage)
      then attempt retry path o s
      else (throw other, s)

  -- `return apiRequest(path, { ...options, retryOnUnauthorized: false })` is the second round, and
  -- there is no third: two units of fuel are enough (Client.Rounds).
  unfoldable pub api_rounds : ℕ → Bool → Text → RequestOptions → Call Value
  api_rounds zero retry path o = raise other
  api_rounds (suc fuel) retry path o = do
    round ← begin_round retry path o
    elim round [ done v ↦ pure v | again ↦ api_rounds fuel false path o ]

  unfoldable pub api_request : Text → RequestOptions → Call Value
  api_request path o = api_rounds 2 (option_or o.retry_on_unauthorized true) path o
