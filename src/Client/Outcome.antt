-- ===== src/Client/Outcome.antt =====
-- `apiRequest` where no renewal is tried, and the `refreshPromise` that it leaves.
use trusyn_ai.Prelude.{
  ◌≡◌, ◌⊎◌, refl, Text, text_eq, true, false, arith, Bool-cases, inl, inr, if◌then◌else◌,
}
use trusyn_ai.Runtime.Value.{Value, get_prop, is_nullish}
use trusyn_ai.Runtime.Monad.{
  App, Call, Env, Response, Settled, fulfilled, abort, failure, api, other, pure, proceed, ok,
  throw, Result, log_request, resume,
}
use trusyn_ai.Session.Storage.{Panel}
use trusyn_ai.Client.Error.{
  read_prop, parse_response_body, to_api_error, is_ok, body_value, as_api_error, timeout_error,
  network_error,
}
use trusyn_ai.Client.Auth.{refresh_path}
use trusyn_ai.Client.Request.{
  RequestOptions, option_or, make_request, conclude, handle_response, try_request, attempt,
  begin_round, legal_headers, api_rounds, api_request, is_renewable, Round, done, again,
}

-- A call that never renews: it is made without a session, without a retry, or it is the refresh.
abbrev pub NeverRenews : Text → RequestOptions → Type 0
NeverRenews path o =
    (option_or o.auth true ≡ false)
    ⊎ ((option_or o.retry_on_unauthorized true ≡ false) ⊎ (text_eq path refresh_path ≡ true))

module _ (env : Env) (panel : Panel) where
  -- What a body that was read means for the caller.
  abbrev pub answer : Response → Value → Result Value
  answer r v =
      if is_ok r
      then (if is_nullish v then throw (api (network_error env panel)) else ok (get_prop v "data"))
      else throw (api (to_api_error env panel r v))

  -- What the whole of a `fetch` and its body mean for the caller.
  abbrev pub body_answer : Response → Settled Text → Result Value
  body_answer r (fulfilled body) = answer r (body_value env panel body)
  body_answer r abort = throw (api (timeout_error env panel))
  body_answer r failure = throw (api (network_error env panel))

  abbrev pub fetch_answer : Settled Response → Result Value
  fetch_answer (fulfilled r) = body_answer r r.text
  fetch_answer abort = throw (api (timeout_error env panel))
  fetch_answer failure = throw (api (network_error env panel))

  never_renewable :
      (path : Text) (o : RequestOptions) (r : Response)
      → NeverRenews path o
      → is_renewable (option_or o.retry_on_unauthorized true) path o r ≡ false
  never_renewable path o r h = ground arith

  handle_response-NeverRenews :
      (path : Text) (o : RequestOptions) (r : Response) (v : Value)
      → NeverRenews path o
      → handle_response env panel (option_or o.retry_on_unauthorized true) path o r v
        ≡ conclude env panel r v
  unfolding handle_response
  handle_response-NeverRenews path o r v h = rw (never_renewable path o r h)

  abbrev round_of : Result Value → Result Round
  round_of (ok v) = ok (done v)
  round_of (throw e) = throw e

  attempt-NeverRenews :
      (path : Text) (o : RequestOptions) (s : App)
      → NeverRenews path o
      → let q = make_request env panel path o s.storage in
        attempt env panel (option_or o.retry_on_unauthorized true) path o s
        ≡ (round_of (fetch_answer (env.settle (log_request q s) q)), resume env (log_request q s))
  unfolding attempt try_request parse_response_body handle_response conclude read_prop as_api_error
  attempt-NeverRenews path o s h =
      ground (arith, λ (r : Response) (v : Value). handle_response-NeverRenews path o r v h)

  -- the first round is the last one
  finished :
      (result : Result Value) (first : Result Round × App) (next : Call Value) (s : App)
      → first ≡ (round_of result, s)
      → proceed (λ round. elim round [ done v ↦ pure v | again ↦ next ]) first ≡ (result, s)
  finished (ok v) first next s e = rw e refl
  finished (throw x) first next s e = rw e refl

  -- A call that never renews throws what `headers.set` throws, and does nothing else, if its headers
  -- cannot be set. Otherwise it sends one request and leaves the shared state to the other tasks;
  -- its result is told by how `fetch` and the body settle: data, the backend's error, 408 for an
  -- abort, and status 0 for anything else, a successful response with no body included.
  pub api_request-NeverRenews :
      (path : Text) (o : RequestOptions) (s : App)
      → NeverRenews path o
      → let q = make_request env panel path o s.storage in
        api_request env panel path o s ≡ (
          if legal_headers env q.headers
          then (fetch_answer (env.settle (log_request q s) q), resume env (log_request q s))
          else (throw other, s))
  unfolding api_request api_rounds begin_round make_request
  api_request-NeverRenews path o s h =
      let q = make_request env panel path o s.storage in
      elim (Bool-cases (legal_headers env q.headers)) [
        | inl legal ↦ rw legal (
            finished (fetch_answer (env.settle (log_request q s) q)) _ _
              (resume env (log_request q s)) (attempt-NeverRenews path o s h))
        | inr illegal ↦ rw illegal refl
      ]

  -- The flags that a call leaves, where no other task changes them while it waits.
  abbrev KeepsRefreshing : {A : Type 0} → Call A → Type 0
  KeepsRefreshing m = (s : App) → (m s).1.refreshing ≡ s.refreshing
