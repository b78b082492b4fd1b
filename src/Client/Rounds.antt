-- ===== src/Client/Rounds.antt =====
-- `apiRequest` as a loop: how many rounds it takes, what it throws and how much it sends.
use trusyn_ai.Prelude.{
  ℕ, String, suc, ◌+◌, ◌≤◌, ◌≡◌, ◌≢◌, Text, Bool, true, false, Option, none, some, [], ◌∷◌, length,
  arith, if◌then◌else◌,
}
use trusyn_ai.Runtime.Value.{Value, get_prop}
use trusyn_ai.Runtime.Monad.{App, Call, Env, Response, Exn, api, ok}
use trusyn_ai.Session.Storage.{Panel}
use trusyn_ai.Session.Tokens.{get_refresh_token}
use trusyn_ai.Client.Error.{read_prop, parse_response_body}
use trusyn_ai.Client.Auth.{
  apply_auth_session, clear_auth_state, finish_refresh, run_refresh, refresh_with, refresh_from,
  refresh_access_token,
}
use trusyn_ai.Client.Request.{
  RequestOptions, option_or, again, conclude, handle_response, try_request, attempt, begin_round,
  legal_headers, request_headers, api_rounds, api_request,
}

-- The call sends at most `k` requests, whatever comes back.
abbrev pub Sends : {A : Type 0} → ℕ → Call A → Type 0
Sends k m = (s : App) → length (m s).1.sent ≤ length s.sent + k

abbrev pub IsApiError : Exn → Type 0
IsApiError (api a) = Unit {0}
IsApiError _ = ⊥

module _ (env : Env) (panel : Panel) where
  Sends-read_prop : (v : Value) (k : String) → Sends 0 (read_prop v k)
  unfolding read_prop
  Sends-read_prop v k s = ground arith

  Sends-apply_auth_session : (v : Value) → Sends 0 (apply_auth_session env panel v)
  unfolding apply_auth_session
  Sends-apply_auth_session v s = ground arith

  Sends-finish_refresh : (r : Response) (v : Value) → Sends 0 (finish_refresh env panel r v)
  unfolding finish_refresh clear_auth_state read_prop
  Sends-finish_refresh r v s = ground (arith, Sends-apply_auth_session (get_prop v "data") s)

  Sends-run_refresh : (token : Text) → Sends 1 (run_refresh env panel token)
  unfolding run_refresh parse_response_body
  Sends-run_refresh token s = grind (arith, Sends-finish_refresh)

  Sends-refresh_with : (token : Text) → Sends 1 (refresh_with env panel token)
  unfolding refresh_with
  Sends-refresh_with token s = ground (arith, Sends-run_refresh token s)

  Sends-refresh_from : (o : Option Text) → Sends 1 (refresh_from env panel o)
  unfolding clear_auth_state
  Sends-refresh_from none s = omega arith
  Sends-refresh_from (some []) s = omega arith
  Sends-refresh_from (some (c ∷ token)) s = Sends-refresh_with (c ∷ token) s

  Sends-refresh_access_token : Sends 1 (refresh_access_token env panel)
  unfolding refresh_access_token
  Sends-refresh_access_token s = Sends-refresh_from (get_refresh_token panel s.storage) s

  Sends-conclude : (r : Response) (v : Value) → Sends 0 (conclude env panel r v)
  unfolding conclude
  Sends-conclude r v s = ground (arith, Sends-read_prop v "data" s)

  Sends-handle_response :
      (retry : Bool) (path : Text) (o : RequestOptions) (r : Response) (v : Value)
      → Sends (if retry then 1 else 0) (handle_response env panel retry path o r v)
  unfolding handle_response
  Sends-handle_response retry path o r v s =
      grind (arith, Sends-refresh_access_token, Sends-conclude)

  Sends-attempt :
      (retry : Bool) (path : Text) (o : RequestOptions)
      → Sends (if retry then 2 else 1) (attempt env panel retry path o)
  unfolding attempt try_request parse_response_body
  Sends-attempt retry path o s = grind (arith, Sends-handle_response)

  -- A round with the retry switched off asks for no other round.
  attempt-ne-again :
      (path : Text) (o : RequestOptions) (s : App) → (attempt env panel false path o s).0 ≢ ok again
  unfolding attempt try_request parse_response_body handle_response conclude read_prop
  attempt-ne-again path o s = ground arith

  Sends-begin_round :
      (retry : Bool) (path : Text) (o : RequestOptions)
      → Sends (if retry then 2 else 1) (begin_round env panel retry path o)
  unfolding begin_round
  Sends-begin_round retry path o s = ground (arith, Sends-attempt retry path o s)

  begin_round-ne-again :
      (path : Text) (o : RequestOptions) (s : App)
      → (begin_round env panel false path o s).0 ≢ ok again
  unfolding begin_round
  begin_round-ne-again path o s = ground (arith, attempt-ne-again path o s)

  begin_round-false-ne-again :
      (retry : Bool) (path : Text) (o : RequestOptions) (s : App)
      → retry ≡ false
      → (begin_round env panel retry path o s).0 ≢ ok again
  begin_round-false-ne-again true path o s h = cc
  begin_round-false-ne-again false path o s h = begin_round-ne-again path o s

  -- Two units of fuel are enough: with any more the call does and returns the same.
  pub api_request-eq-api_rounds :
      (f : ℕ) (path : Text) (o : RequestOptions) (s : App)
      → api_rounds env panel (suc (suc f)) (option_or o.retry_on_unauthorized true) path o s
        ≡ api_request env panel path o s
  unfolding api_request api_rounds
  api_request-eq-api_rounds f path o s = ground (
    arith,
    begin_round-ne-again path o
        (begin_round env panel (option_or o.retry_on_unauthorized true) path o s).1,
  )

  -- The headers of a call cannot be set: the stored token, or the request id, is no header value.
  abbrev pub IsIllegal : RequestOptions → App → Type 0
  IsIllegal o s = legal_headers env (request_headers panel o s.storage) ≡ false

  -- A call sends at most three requests: its own, a refresh, and its own once more; and at most
  -- one if its `retryOnUnauthorized` is false.
  pub api_request-Sends :
      (path : Text) (o : RequestOptions)
      → Sends
          (if option_or o.retry_on_unauthorized true then 3 else 1)
          (api_request env panel path o)
  unfolding api_request api_rounds
  api_request-Sends path o s =
      let first = begin_round env panel (option_or o.retry_on_unauthorized true) path o s in
      ground (
        arith,
        Sends-begin_round (option_or o.retry_on_unauthorized true) path o s,
        Sends-begin_round false path o first.1,
        begin_round-false-ne-again (option_or o.retry_on_unauthorized true) path o s,
      )
