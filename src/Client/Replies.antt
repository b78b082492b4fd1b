-- ===== src/Client/Replies.antt =====
-- What `apiRequest` and `refreshAccessToken` do with a response, with no other task at work.
use trusyn_ai.Prelude.{◌≡◌, Text, text_eq, Bool, true, false, some, [], ◌∷◌, arith, is_empty}
use trusyn_ai.Runtime.Value.{Value, get_prop, is_nullish}
use trusyn_ai.Runtime.Monad.{
  App, Env, Request, Response, fulfilled, api, ok, throw, log_request, resume, fetch,
}
use trusyn_ai.Session.Storage.{Panel}
use trusyn_ai.Session.Tokens.{get_refresh_token}
use trusyn_ai.Client.Error.{read_prop, parse_response_body, to_api_error, is_ok, body_value}
use trusyn_ai.Client.Auth.{
  refresh_path, clear_auth_state, refresh_request, finish_refresh, run_refresh, refresh_with,
  refresh_access_token, value_or_null,
}
use trusyn_ai.Client.Refresh.{IsQuiet, IsTokenResponse, signed_in, apply_auth_session-signed_in}
use trusyn_ai.Client.Request.{
  RequestOptions, option_or, legal_headers, make_request, handle_response, try_request,
}

-- The headers of this request can be set, and its `fetch` resolves to this response, whose body is read as this value.
pub record Replies (env : Env) (panel : Panel) (s : App) (q : Request) (r : Response) (v : Value)
    : Type 0 where
  pub legal : legal_headers env q.headers ≡ true
  pub body : Text
  pub settles : env.settle (log_request q s) q ≡ fulfilled r
  pub reads : r.text ≡ fulfilled body
  pub parses : body_value env panel body ≡ v

-- A call that may be renewed is answered by a 401 whose body is read as this value.
pub record Unauthorized (env : Env) (panel : Panel) (path : Text) (o : RequestOptions) (s : App)
    (r : Response) (v : Value) : Type 0 where
  pub retries : option_or o.retry_on_unauthorized true ≡ true
  pub auth : option_or o.auth true ≡ true
  pub other_path : text_eq path refresh_path ≡ false
  pub replies : Replies env panel s (make_request env panel path o s.storage) r v
  pub status : r.status ≡ 401

-- The state in which the first request is under way, and that with the refresh under way too.
abbrev pub requested : Env → Panel → Text → RequestOptions → App → App
requested env panel path o s = log_request (make_request env panel path o s.storage) s

abbrev pub refreshes : Env → Panel → Text → App → App
refreshes env panel token s =
    log_request (refresh_request env panel token) (record s { refreshing = true })

module _ (env : Env) (panel : Panel) (quiet : IsQuiet env) where
  resume-eq : (s : App) → resume env s ≡ s
  resume-eq s = λ i. record s { storage = quiet.storage s i; refreshing = quiet.refreshing s i }

  fetch-Replies :
      (s : App) (q : Request) (r : Response) (v : Value)
      → Replies env panel s q r v
      → fetch env q s ≡ (ok r, log_request q s)
  fetch-Replies s q r v h = ground (arith, resume-eq (log_request q s))

  parse-Replies :
      (s s' : App) (q : Request) (r : Response) (v : Value)
      → Replies env panel s q r v
      → parse_response_body env panel r s' ≡ (ok v, s')
  unfolding parse_response_body
  parse-Replies s s' q r v h = ground arith

  -- A request in flight becomes what is done with its response.
  pub try_request-Replies :
      (retry : Bool) (path : Text) (o : RequestOptions) (s : App) (r : Response) (v : Value)
      → Replies env panel s (make_request env panel path o s.storage) r v
      → try_request env panel retry path o s
        ≡ handle_response env panel retry path o r v
            (log_request (make_request env panel path o s.storage) s)
  unfolding try_request
  try_request-Replies retry path o s r v h =
      let q = make_request env panel path o s.storage in
      ground (arith, fetch-Replies s q r v h, parse-Replies s (log_request q s) q r v h)

  run_refresh-Replies :
      (token : Text) (s : App) (r : Response) (v : Value)
      → Replies env panel (record s { refreshing = true }) (refresh_request env panel token) r v
      → run_refresh env panel token s ≡ (
          let (res, s') =
            finish_refresh env panel r v
              (log_request (refresh_request env panel token) (record s { refreshing = true })) in
          (res, record s' { refreshing = false }))
  unfolding run_refresh
  run_refresh-Replies token s r v h =
      let q = refresh_request env panel token in
      let s₁ = record s { refreshing = true } in
      ground (arith, fetch-Replies s₁ q r v h, parse-Replies s₁ (log_request q s₁) q r v h)

  -- what `refreshAccessToken` comes to, for a stored token and no refresh under way
  pub refresh_access_token-Replies :
      (token : Text) (s : App) (r : Response) (v : Value)
      → get_refresh_token panel s.storage ≡ some token
      → is_empty token ≡ false
      → s.refreshing ≡ false
      → Replies env panel (record s { refreshing = true }) (refresh_request env panel token) r v
      → refresh_access_token env panel s ≡ (
          let (res, s') = finish_refresh env panel r v (refreshes env panel token s) in
          (ok (value_or_null env panel res), record s' { refreshing = false }))
  unfolding refresh_access_token refresh_with
  refresh_access_token-Replies [] s r v e full idle h = cc
  refresh_access_token-Replies (c ∷ token) s r v e full idle h =
      let (res, s') = finish_refresh env panel r v (refreshes env panel (c ∷ token) s) in
      rw e (
        ground (
          arith,
          run_refresh-Replies (c ∷ token) s r v h,
          resume-eq (record s' { refreshing = false }),
        ))

  -- a refresh that gives new tokens
  pub finish_refresh-granted :
      (r : Response) (v d user : Value) (name : Text) (s : App)
      → is_ok r ≡ true
      → is_nullish v ≡ false
      → get_prop v "data" ≡ d
      → IsTokenResponse d user name
      → finish_refresh env panel r v s
        ≡ (ok (get_prop d "access_token"), signed_in env panel d user name s)
  unfolding finish_refresh read_prop
  finish_refresh-granted r v d user name s good object e h =
      ground (arith, apply_auth_session-signed_in env panel d user name s h)

  -- a refresh that the backend refuses
  pub finish_refresh-denied :
      (r : Response) (v : Value) (s : App)
      → is_ok r ≡ false
      → finish_refresh env panel r v s
        ≡ (throw (api (to_api_error env panel r v)), clear_auth_state env panel s)
  unfolding finish_refresh
  finish_refresh-denied r v s bad = ground arith
