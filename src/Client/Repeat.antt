-- ===== src/Client/Repeat.antt =====
-- The second round of `apiRequest`, after a renewal, and the two rounds together.
use trusyn_ai.Prelude.{◌+◌, ◌≡◌, ◌∙◌, Text, true, false, some, arith, is_empty, length}
use trusyn_ai.Runtime.Value.{Value, get_prop, is_truthy, is_nullish}
use trusyn_ai.Runtime.Monad.{App, Env, Response, ok}
use trusyn_ai.Session.Storage.{Panel}
use trusyn_ai.Session.Tokens.{get_access_token, get_refresh_token}
use trusyn_ai.Client.Error.{read_prop, is_ok}
use trusyn_ai.Client.Auth.{refresh_request}
use trusyn_ai.Client.Refresh.{
  IsQuiet, IsTokenResponse, signed_in, tokens_of, signed_in-tokens, signed_in-sent,
}
use trusyn_ai.Client.Request.{
  RequestOptions, make_request, conclude, handle_response, attempt, begin_round, api_rounds,
  api_request,
}
use trusyn_ai.Client.Replies.{Replies, Unauthorized, requested, refreshes, try_request-Replies}
use trusyn_ai.Client.Renewal.{api_request-renewed}

-- the state in which the second round begins
abbrev pub renewed : Env → Panel → Text → RequestOptions → Text → Value → Value → Text → App → App
renewed env panel path o token d user name s =
    record (signed_in env panel d user name
      (refreshes env panel token (requested env panel path o s))) { refreshing = false }

-- After the 401 of a call: a refresh token is stored, no refresh is under way, the refresh is
-- answered with new tokens, and the repeated call with some data.
pub record Recovers (env : Env) (panel : Panel) (path : Text) (o : RequestOptions) (token : Text)
    (d user : Value) (name : Text) (w : Value) (s : App) : Type 0 where
  pub stored : get_refresh_token panel s.storage ≡ some token
  pub full : is_empty token ≡ false
  pub idle : s.refreshing ≡ false
  pub granted : Response
  pub grant : Value
  pub refreshed :
      Replies env panel
        (record (requested env panel path o s) { refreshing = true })
        (refresh_request env panel token)
        granted
        grant
  pub good : is_ok granted ≡ true
  pub object : is_nullish grant ≡ false
  pub grant_data : get_prop grant "data" ≡ d
  pub tokens : IsTokenResponse d user name
  pub truthy : is_truthy (get_prop d "access_token") ≡ true
  pub second : Response
  pub body : Value
  pub repeated :
      let s' = renewed env panel path o token d user name s in
      Replies env panel s' (make_request env panel path o s'.storage) second body
  pub second_good : is_ok second ≡ true
  pub second_object : is_nullish body ≡ false
  pub body_data : get_prop body "data" ≡ w

module _ (env : Env) (panel : Panel) (quiet : IsQuiet env) where
  api_rounds-granted :
      (path : Text) (o : RequestOptions) (s : App) (r : Response) (v : Value)
      → Replies env panel s (make_request env panel path o s.storage) r v
      → is_ok r ≡ true
      → is_nullish v ≡ false
      → api_rounds env panel 1 false path o s
        ≡ (ok (get_prop v "data"), requested env panel path o s)
  unfolding api_rounds begin_round make_request attempt handle_response conclude read_prop
  api_rounds-granted path o s r v h good object =
      ground (arith, h.legal, try_request-Replies env panel quiet false path o s r v h)

  -- A session that has expired and can be renewed: the call comes to the data of its second
  -- round.
  pub api_request-Recovers :
      (path : Text) (o : RequestOptions) (s : App) (r : Response) (v : Value) (token : Text)
      (d user : Value) (name : Text) (w : Value)
      → Unauthorized env panel path o s r v
      → Recovers env panel path o token d user name w s
      → api_request env panel path o s
        ≡ (ok w, requested env panel path o (renewed env panel path o token d user name s))
  api_request-Recovers path o s r v token d user name w unauthorized h =
      let again =
        api_request-renewed env panel quiet path o s r v unauthorized token h.granted h.grant d user
          name h.stored h.full h.idle h.refreshed h.good h.object h.grant_data h.tokens h.truthy in
      let second =
        api_rounds-granted path o (renewed env panel path o token d user name s) h.second h.body
          h.repeated h.second_good h.second_object in
      rw (← h.body_data) (again.0 ∙ second)

  -- Both new tokens are stored then, and three requests were sent.
  pub renewed-tokens :
      (path : Text) (o : RequestOptions) (s : App) (token : Text) (d user : Value) (name : Text)
      → let s' = requested env panel path o (renewed env panel path o token d user name s) in
        (get_access_token panel s'.storage ≡ some (tokens_of env panel d).access_token)
        × (get_refresh_token panel s'.storage ≡ some (tokens_of env panel d).refresh_token)
        × (length s'.sent ≡ 3 + length s.sent)
  renewed-tokens path o s token d user name =
      let s₂ = refreshes env panel token (requested env panel path o s) in
      let (access, refresh) = signed_in-tokens env panel d user name s₂ in
      (access, refresh, ground (arith, signed_in-sent env panel d user name s₂))
