-- ===== src/Auth/Laws.antt =====
-- Signing in, and the frame of the admin panel.
use trusyn_ai.Prelude.{◌∙◌, ◌≡◌, ◌≢◌, refl, ap, Text, true, false, arith, Bool-cases, inl, inr}
use trusyn_ai.Runtime.Value.{Value, get_prop, is_nullish}
use trusyn_ai.Runtime.Monad.{App, Env, Result, ok, throw, log_request, resume, Response}
use trusyn_ai.Session.Storage.{Panel, admin_panel}
use trusyn_ai.Session.Tokens.{get_access_token}
use trusyn_ai.Session.Laws.{KeepsSession, HasTexts}
use trusyn_ai.Client.Error.{is_ok}
use trusyn_ai.Client.Auth.{apply_auth_session}
use trusyn_ai.Client.Refresh.{
  IsTokenResponse, HasSession, user_of, clear_auth_state-clears, apply_auth_session-HasSession,
}
use trusyn_ai.Client.Replies.{Replies}
use trusyn_ai.Client.Request.{api_request, legal_headers, make_request}
use trusyn_ai.Client.Outcome.{fetch_answer, api_request-NeverRenews}
use trusyn_ai.Auth.Service.{login, login_path, login_options, admin_me, logout}
use trusyn_ai.Auth.Route.{token_missing}
use trusyn_ai.Auth.AdminFrame.{Frame, initializing, login_page, frame_view, boot, after_me}

module _ (env : Env) (panel_of : Panel) where
  login_request-answer :
      (email password : Text) (s : App)
      → let q = make_request env panel_of login_path (login_options email password) s.storage in
        legal_headers env q.headers ≡ true
        → api_request env panel_of login_path (login_options email password) s ≡ (
          fetch_answer env panel_of (env.settle (log_request q s) q),
          resume env (log_request q s),
        )
  login_request-answer email password s legal = ground (
    arith,
    legal,
    api_request-NeverRenews env panel_of login_path (login_options email password) s (inl refl),
  )

  fetch_answer-Replies :
      (s : App) (email password : Text) (r : Response) (v d : Value)
      → Replies env panel_of s
          (make_request env panel_of login_path (login_options email password) s.storage)
          r
          v
      → is_ok r ≡ true
      → is_nullish v ≡ false
      → get_prop v "data" ≡ d
      → let q = make_request env panel_of login_path (login_options email password) s.storage in
        fetch_answer env panel_of (env.settle (log_request q s) q) ≡ ok d
  fetch_answer-Replies s email password r v d h good object e =
      ground (arith, h.settles, h.reads, h.parses)

  login-applied :
      (email password : Text) (s s' s'' : App) (d : Value)
      → api_request env panel_of login_path (login_options email password) s ≡ (ok d, s')
      → apply_auth_session env panel_of d s' ≡ (ok tt, s'')
      → login env panel_of email password s ≡ (ok d, s'')
  unfolding login
  login-applied email password s s' s'' d sent applied = ground (arith, sent, applied)

  -- A login that the backend grants gives its data, and leaves the session of the data in the
  -- storage, whatever was stored before and whatever the other tasks did meanwhile.
  pub login-HasSession :
      (email password name : Text) (s : App) (r : Response) (v d user : Value)
      → KeepsSession env
      → Replies env panel_of s
          (make_request env panel_of login_path (login_options email password) s.storage)
          r
          v
      → is_ok r ≡ true
      → is_nullish v ≡ false
      → get_prop v "data" ≡ d
      → IsTokenResponse d user name
      → HasTexts (user_of env panel_of user name)
      → let (res, s') = login env panel_of email password s in
        (res ≡ ok d) × HasSession env panel_of d user name s'
  login-HasSession email password name s r v d user laws h good object e t texts =
      let q = make_request env panel_of login_path (login_options email password) s.storage in
      let s' = resume env (log_request q s) in
      let answered = fetch_answer-Replies s email password r v d h good object e in
      let kept = apply_auth_session-HasSession env panel_of d user name s' laws t texts in
      rw
        (login-applied email password s s' (apply_auth_session env panel_of d s').1 d
          (login_request-answer email password s h.legal ∙ ap (λ x. (x, s')) answered)
          (ap (λ x. (x, (apply_auth_session env panel_of d s').1)) kept.0))
        (refl, kept.1)

module _ (env : Env) where
  after_me-ends :
      (f : Frame) (r : Result Value × App)
      → let (f', s') = after_me env f r in
        (frame_view f' ≢ initializing)
        × (frame_view f' ≡ login_page
            → token_missing (get_access_token admin_panel s'.storage) ≡ true)
  unfolding frame_view logout
  after_me-ends f (ok me, s) = (λ e. cc, λ e. cc)
  after_me-ends f (throw e, s) =
      (λ h. cc, λ h. ap token_missing (clear_auth_state-clears env admin_panel s).0)

  -- The admin panel leaves its initial screen however the check of the session ends; and where it
  -- shows the login page then, no access token is stored.
  pub boot-ends :
      (f : Frame) (s : App)
      → let (f', s') = boot env f s in
        (frame_view f' ≢ initializing)
        × (frame_view f' ≡ login_page
            → token_missing (get_access_token admin_panel s'.storage) ≡ true)
  unfolding boot frame_view
  boot-ends f s = elim (Bool-cases (token_missing (get_access_token admin_panel s.storage))) [
    | inl missing ↦ rw missing (λ e. cc, λ e. missing)
    | inr stored ↦ rw stored (after_me-ends f (admin_me env s))
  ]
