-- ===== src/Client/Error.antt =====
-- api/errors.ts, and `safeJsonParse`, `parseResponseBody`, `toApiError` of api/client.ts.
use trusyn_ai.Prelude.{
  ℕ, String, Text, codes, Bool, Option, none, some, [], ◌++◌, if◌then◌else◌, leb, ◌&&◌,
}
use trusyn_ai.Runtime.Value.{
  Value, undefined, null, str, num, obj, blank, get_prop, or_else, is_nullish,
}
use trusyn_ai.Runtime.Monad.{
  Call, Env, Response, ApiError, Exn, api, aborted, other, pure, raise, await_settled, ◌>>=◌,
}
use trusyn_ai.Session.Storage.{Panel, web_app, admin_panel}

-- `v.k`, which throws a `TypeError` on undefined and on null
unfoldable pub read_prop : Value → String → Call Value
read_prop v k = if is_nullish v then raise other else pure (get_prop v k)

-- `response.ok`
abbrev pub is_ok : Response → Bool
is_ok response = leb 200 response.status && leb response.status 299

-- The code that the constructor of `ApiError` puts in for a missing one.
abbrev pub default_code : Panel → Text
default_code web_app = codes "api_error"
default_code admin_panel = codes "unknown_error"

-- the constructor of `ApiError`
unfoldable pub new_api_error : Panel → ℕ → Value → Value → Value → Value → ApiError
new_api_error panel status message code details request_id = record {
  status = status;
  message = message;
  code = or_else code (str (default_code panel));
  details = details;
  request_id = request_id;
}

module _ (env : Env) (panel : Panel) where
  -- `null` where `JSON.parse` throws
  abbrev pub parsed_or_null : Option Value → Value
  parsed_or_null none = null
  parsed_or_null (some v) = v

  unfoldable pub safe_json_parse : Text → Value
  safe_json_parse text = parsed_or_null (env.json_parse text)

  abbrev pub body_value : Text → Value
  body_value [] = null
  body_value text = safe_json_parse text

  unfoldable pub parse_response_body : Response → Call Value
  unfolding safe_json_parse
  parse_response_body response = do text ← await_settled response.text; pure (body_value text)

  unfoldable pub to_api_error : Response → Value → ApiError
  unfolding new_api_error
  to_api_error response payload =
      let parsed = or_else payload (obj blank) in
      let error = get_prop parsed "error" in
      new_api_error panel response.status
        (or_else (get_prop error "message")
          (str (codes "Request failed with status " ++ env.to_text (num response.status))))
        (or_else (get_prop error "code") (str (codes "http_error"))) (get_prop error "details")
        (get_prop parsed "request_id")

  -- the errors that `apiRequest` makes for an abort, and for anything else
  unfoldable pub timeout_error : ApiError
  unfolding new_api_error
  timeout_error =
      new_api_error panel 408 (str (codes "Request timed out. Please try again."))
        (str (codes "request_timeout")) undefined undefined

  unfoldable pub network_error : ApiError
  unfolding new_api_error
  network_error =
      new_api_error panel 0
        (str (codes "Unable to connect to backend. Check API URL and server status."))
        (str (codes "network_error")) undefined undefined

  -- the `catch` of `apiRequest`
  unfoldable pub as_api_error : Exn → ApiError
  unfolding timeout_error network_error
  as_api_error (api e) = e
  as_api_error aborted = timeout_error
  as_api_error other = network_error
