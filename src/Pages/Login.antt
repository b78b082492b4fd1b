-- ===== src/Pages/Login.antt =====
-- frontend/web-app/src/app/pages/LoginPage.tsx
pub mod Screen
pub mod Workspace
use trusyn_ai.Prelude.{
  Text, codes, ◌≡◌, ◌≢◌, refl, Bool, true, false, ◌||◌, Option, none, some, List, [], ◌∷◌,
  if◌then◌else◌, ◌==◌, trim, is_empty, Bool-cases, inl, inr,
}
use trusyn_ai.Runtime.Value.{Value, str}
use trusyn_ai.Runtime.Monad.{App, Env, Exn, api, Result, ok, throw}
use trusyn_ai.Session.Storage.{web_app}
use trusyn_ai.Auth.Service.{login}

pub record ProfileLogin : Type 0 where
  pub id : Text
  pub name : Text
  pub role : Text
  pub email : Text
  pub password : Text

abbrev pub quick_profiles : List ProfileLogin
quick_profiles =
    record {
      id = codes "security_analyst";
      name = codes "Ava Sharma";
      role = codes "Security Analyst";
      email = codes "ava.sharma@demo.trusyn.ai";
      password = codes "TrusynDemo@123";
    }
    ∷ record {
      id = codes "org_admin";
      name = codes "Rohan Mehta";
      role = codes "Org Admin";
      email = codes "rohan.mehta@demo.trusyn.ai";
      password = codes "Governance@456";
    }
    ∷ []

pub record LoginPage : Type 0 where
  pub email : Text
  pub password : Text
  pub show_password : Bool
  pub loading : Bool
  pub selected_profile : Text
  pub forgot_open : Bool
  pub error_message : Option Value

-- `parseLoginError`
unfoldable pub login_error : Exn → Value
login_error (api e) =
    if e.status == 401
    then str (codes "Invalid email or password.")
    else if e.status == 422
    then str (codes "Please check your email and password format.")
    else e.message
login_error _ = str (codes "Unable to sign in right now. Please try again.")

-- `state?.from ?? '/dashboard'`
abbrev pub next_path : Option Text → Text
next_path none = codes "/dashboard"
next_path (some from) = from

unfoldable pub handle_quick_fill : ProfileLogin → LoginPage → LoginPage
handle_quick_fill profile p = record p {
  selected_profile = profile.id;
  email = profile.email;
  password = profile.password;
  show_password = false;
  error_message = none;
}

-- the test that shows an error and calls nothing
abbrev pub is_incomplete : LoginPage → Bool
is_incomplete p = is_empty (trim p.email) || is_empty (trim p.password)

-- the result of the call: the page, and the path to go to
abbrev pub after_login : Option Text → Result Value → LoginPage → LoginPage × Option Text
after_login from (ok response_data) p = (record p { loading = false }, some (next_path from))
after_login from (throw e) p =
    (record p { loading = false; error_message = some (login_error e) }, none)

-- `handleLogin`, of a page that is not changed while it waits; the email is sent without the
-- spaces around it, the password as it is
unfoldable pub handle_login : Env → Option Text → LoginPage → App → (LoginPage × Option Text) × App
unfolding login login_error
handle_login env from p s =
    if is_incomplete p
    then (
      (record p { error_message = some (str (codes "Email and password are required.")) }, none),
      s,
    )
    else (let (result, s') = login env web_app (trim p.email) p.password s in
        (after_login from result (record p { loading = true; error_message = none }), s'))

after_login-error :
    (from : Option Text) (result : Result Value) (p : LoginPage)
    → p.error_message ≡ none
    → let (p', path) = after_login from result p in
      (p'.loading ≡ false)
      × (path ≡ none → p'.error_message ≢ none)
      × (path ≢ none → p'.error_message ≡ none)
after_login-error from (ok v) p h = (refl, λ e. cc, λ e. h)
after_login-error from (throw x) p h = (refl, λ e. cc, λ e. absurd (e refl))

-- A submitted form that is complete ends with the loading flag off, and either leaves the page
-- with no error or stays on it with one, however the network behaves; one that is not complete
-- stays with an error and sends nothing.
pub handle_login-settles :
    (env : Env) (from : Option Text) (p : LoginPage) (s : App)
    → p.loading ≡ false
    → let ((p', path), s') = handle_login env from p s in
      (p'.loading ≡ false)
      × (path ≡ none → p'.error_message ≢ none)
      × (path ≢ none → p'.error_message ≡ none)
      × (is_incomplete p ≡ true → s' ≡ s)
unfolding handle_login
handle_login-settles env from p s idle = elim (Bool-cases (is_incomplete p)) [
  | inl incomplete ↦ rw incomplete (idle, λ e. cc, λ e. absurd (e refl), λ e. refl)
  | inr complete ↦
      let (a, b, c) =
        after_login-error from (login env web_app (trim p.email) p.password s).0
          (record p { loading = true; error_message = none }) refl in
      rw complete (a, b, c, λ e. cc)
]
