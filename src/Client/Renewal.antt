-- ===== src/Client/Renewal.antt =====
-- The renewal of a session in `apiRequest`: what a 401 leads to, with no other task at work.
use trusyn_ai.Prelude.{◌≡◌, ◌∙◌, ◌+◌, refl, length, Text, true, false, none, some, arith, is_empty}
use trusyn_ai.Runtime.Value.{Value, null, get_prop, is_truthy, is_nullish}
use trusyn_ai.Runtime.Monad.{App, Env, Response, Exn, api, ok, throw, ◌>>=◌}
use trusyn_ai.Session.Storage.{Panel}
use trusyn_ai.Session.Tokens.{get_access_token, get_refresh_token}
use trusyn_ai.Session.User.{get_session_user, clear_session_user}
use trusyn_ai.Client.Error.{to_api_error, is_ok, as_api_error}
use trusyn_ai.Client.Auth.{clear_auth_state, refresh_request, refresh_access_token}
use trusyn_ai.Client.Refresh.{
  IsQuiet, IsTokenResponse, signed_in, tokens_of, signed_in-tokens, clear_auth_state-clears,
}
use trusyn_ai.Client.Request.{
  RequestOptions, again, conclude, after_refresh, handle_response, try_request, attempt,
  begin_round, make_request, api_rounds, api_request,
}
use trusyn_ai.Client.Replies.{
  Replies, Unauthorized, requested, refreshes, refresh_access_token-Replies, finish_refresh-granted,
  finish_refresh-denied, try_request-Replies,
}

module _ (env : Env) (panel : Panel) (quiet : IsQuiet env) where
  handle_response-Unauthorized :
      (path : Text) (o : RequestOptions) (s s' : App) (r : Response) (v : Value)
      → Unauthorized env panel path o s r v
      → handle_response env panel true path o r v s'
        ≡ (refresh_access_token env panel >>= after_refresh env panel r v) s'
  unfolding handle_response
  handle_response-Unauthorized path o s s' r v h = ground (arith, h.auth, h.other_path, h.status)

  attempt-Unauthorized :
      (path : Text) (o : RequestOptions) (s : App) (r : Response) (v : Value)
      → Unauthorized env panel path o s r v
      → try_request env panel true path o s
        ≡ (refresh_access_token env panel >>= after_refresh env panel r v)
            (requested env panel path o s)
  attempt-Unauthorized path o s r v h =
      try_request-Replies env panel quiet true path o s r v h.replies
      ∙ handle_response-Unauthorized path o s (requested env panel path o s) r v h

  module _ (path : Text) (o : RequestOptions) (s : App) (r : Response) (v : Value)
      (unauthorized : Unauthorized env panel path o s r v) where
    attempt-token :
        (tok : Value) (s' : App)
        → refresh_access_token env panel (requested env panel path o s) ≡ (ok tok, s')
        → is_truthy tok ≡ true
        → attempt env panel true path o s ≡ (ok again, s')
    unfolding attempt
    attempt-token tok s' e truthy = ground (arith, attempt-Unauthorized path o s r v unauthorized)

    attempt-no_token :
        (s' : App)
        → refresh_access_token env panel (requested env panel path o s) ≡ (ok null, s')
        → attempt env panel true path o s ≡ (throw (api (to_api_error env panel r v)), s')
    unfolding attempt conclude as_api_error
    attempt-no_token s' e =
        ground (arith, attempt-Unauthorized path o s r v unauthorized, unauthorized.status)

    begin_round-eq-attempt : begin_round env panel true path o s ≡ attempt env panel true path o s
    unfolding begin_round make_request
    begin_round-eq-attempt = ground (arith, unauthorized.replies.legal)

    api_request-again :
        (s' : App)
        → attempt env panel true path o s ≡ (ok again, s')
        → api_request env panel path o s ≡ api_rounds env panel 1 false path o s'
    unfolding api_request api_rounds
    api_request-again s' e = ground (arith, unauthorized.retries, begin_round-eq-attempt)

    api_request-thrown :
        (s' : App) (x : Exn)
        → attempt env panel true path o s ≡ (throw x, s')
        → api_request env panel path o s ≡ (throw x, s')
    unfolding api_request api_rounds
    api_request-thrown s' x e = ground (arith, unauthorized.retries, begin_round-eq-attempt)

    -- A renewal: with a refresh token stored and no refresh under way, a 401 leads to one refresh;
    -- if it gives a token, both tokens and the user are stored, and the call goes on as the same
    -- call without a retry.
    pub api_request-renewed :
        (token : Text) (r' : Response) (v' d user : Value) (name : Text)
        → get_refresh_token panel s.storage ≡ some token
        → is_empty token ≡ false
        → s.refreshing ≡ false
        → Replies env panel
            (record (requested env panel path o s) { refreshing = true })
            (refresh_request env panel token)
            r'
            v'
        → is_ok r' ≡ true
        → is_nullish v' ≡ false
        → get_prop v' "data" ≡ d
        → IsTokenResponse d user name
        → is_truthy (get_prop d "access_token") ≡ true
        → let s₁ =
            signed_in env panel d user name
              (refreshes env panel token (requested env panel path o s)) in
          let s' = record s₁ { refreshing = false } in
          (api_request env panel path o s ≡ api_rounds env panel 1 false path o s')
          × (get_access_token panel s'.storage ≡ some (tokens_of env panel d).access_token)
    api_request-renewed token r' v' d user name e full idle h good object data_eq t truthy =
        let s₂ = refreshes env panel token (requested env panel path o s) in
        let refreshed =
          refresh_access_token-Replies env panel quiet token (requested env panel path o s) r' v' e
            full idle h in
        let granted =
          finish_refresh-granted env panel quiet r' v' d user name s₂ good object data_eq t in
        (
          api_request-again _
              (attempt-token (get_prop d "access_token") _ (rw granted at refreshed) truthy),
          (signed_in-tokens env panel d user name s₂).0,
        )

    pub api_request-clear_auth_state :
        (token : Text) (r' : Response) (v' : Value)
        → get_refresh_token panel s.storage ≡ some token
        → is_empty token ≡ false
        → s.refreshing ≡ false
        → Replies env panel
            (record (requested env panel path o s) { refreshing = true })
            (refresh_request env panel token)
            r'
            v'
        → is_ok r' ≡ false
        → let s₁ =
            clear_auth_state env panel (refreshes env panel token (requested env panel path o s)) in
          api_request env panel path o s
          ≡ (throw (api (to_api_error env panel r v)), record s₁ { refreshing = false })
    api_request-clear_auth_state token r' v' e full idle h bad =
        let s₂ = refreshes env panel token (requested env panel path o s) in
        let refreshed =
          refresh_access_token-Replies env panel quiet token (requested env panel path o s) r' v' e
            full idle h in
        api_request-thrown _ _ (
          attempt-no_token _ (rw (finish_refresh-denied env panel quiet r' v' s₂ bad) at refreshed))

    -- A refusal: if the backend refuses the refresh, the call throws the error of its own 401 after
    -- two requests, neither a token nor a user is left in the storage, and no refresh is under way.
    pub api_request-denied :
        (token : Text) (r' : Response) (v' : Value)
        → get_refresh_token panel s.storage ≡ some token
        → is_empty token ≡ false
        → s.refreshing ≡ false
        → Replies env panel
            (record (requested env panel path o s) { refreshing = true })
            (refresh_request env panel token)
            r'
            v'
        → is_ok r' ≡ false
        → let (res, s') = api_request env panel path o s in
          (res ≡ throw (api (to_api_error env panel r v)))
          × (get_access_token panel s'.storage ≡ none)
          × (get_refresh_token panel s'.storage ≡ none)
          × (get_session_user env panel s'.storage ≡ none)
          × (s'.refreshing ≡ false)
          × (length s'.sent ≡ 2 + length s.sent)
    unfolding clear_auth_state clear_session_user
    api_request-denied token r' v' e full idle h bad =
        let cleared =
          clear_auth_state-clears env panel
            (refreshes env panel token (requested env panel path o s)) in
        rw (api_request-clear_auth_state token r' v' e full idle h bad)
          (refl, cleared.0, cleared.1, cleared.2, refl, omega arith)

    -- Without a refresh token the session is cleared, and the call throws the error of its 401
    -- with no further request.
    pub api_request-no_token :
        get_refresh_token panel s.storage ≡ none
        → api_request env panel path o s ≡ (
          throw (api (to_api_error env panel r v)),
          clear_auth_state env panel (requested env panel path o s),
        )
    unfolding refresh_access_token
    api_request-no_token e =
        api_request-thrown _ _
          (attempt-no_token (clear_auth_state env panel (requested env panel path o s)) (rw e))
