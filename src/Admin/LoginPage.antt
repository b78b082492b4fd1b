-- ===== src/Admin/LoginPage.antt =====
-- frontend/admin_panel/src/app/pages/AdminLoginPage.tsx
pub mod Screen
use trusyn_ai.Prelude.{
  Text, codes, ◌≡◌, ◌≢◌, refl, Bool, true, false, not, Option, none, some, List, [], ◌∷◌, trim,
}
use trusyn_ai.Runtime.Value.{Value, str}
use trusyn_ai.Runtime.Monad.{App, Env, Exn, api, Result, ok, throw}
use trusyn_ai.Session.Storage.{admin_panel}
use trusyn_ai.Auth.Service.{login}

pub record DemoAdmin : Type 0 where
  pub id : Text
  pub name : Text
  pub role : Text
  pub email : Text
  pub password : Text

abbrev pub demo_admins : List DemoAdmin
demo_admins =
    record {
      id = codes "super_admin";
      name = codes "Nisha Rao";
      role = codes "Super Admin";
      email = codes "nisha.rao@demo.trusyn.ai";
      password = codes "SuperSecure@123";
    }
    ∷ record {
      id = codes "operations_admin";
      name = codes "Arjun Patel";
      role = codes "Operations Admin";
      email = codes "arjun.patel@demo.trusyn.ai";
      password = codes "OpsControl@456";
    }
    ∷ []

pub record AdminLoginPage : Type 0 where
  pub email : Text
  pub password : Text
  pub show_password : Bool
  pub loading : Bool
  pub error : Option Value
  pub selected_demo : Text

unfoldable pub apply_demo_user : DemoAdmin → AdminLoginPage → AdminLoginPage
apply_demo_user demo p = record p {
  selected_demo = demo.id;
  email = demo.email;
  password = demo.password;
  show_password = false;
}

abbrev pub toggle_password : AdminLoginPage → AdminLoginPage
toggle_password p = record p { show_password = not (p.show_password) }

-- what the `catch` shows
unfoldable pub admin_login_error : Exn → Value
admin_login_error (api e) = e.message
admin_login_error _ = str (codes "Unable to sign in. Please try again.")

-- the end of the login: the page, and whether `onLoginSuccess` is called
unfoldable pub after_admin_login : Result Value → AdminLoginPage → AdminLoginPage × Bool
unfolding admin_login_error
after_admin_login (ok response_data) p = (record p { loading = false }, true)
after_admin_login (throw e) p =
    (record p { loading = false; error = some (admin_login_error e) }, false)

module _ (env : Env) where
  unfoldable pub handle_admin_login : AdminLoginPage → App → (AdminLoginPage × Bool) × App
  unfolding after_admin_login
  handle_admin_login p s =
      let (result, s') = login env admin_panel (trim p.email) p.password s in
      (after_admin_login result (record p { error = none; loading = true }), s')

after_admin_login-error :
    (result : Result Value) (p : AdminLoginPage)
    → p.error ≡ none
    → let (p', enters) = after_admin_login result p in
      (p'.loading ≡ false) × (enters ≡ false → p'.error ≢ none) × (enters ≡ true → p'.error ≡ none)
unfolding after_admin_login
after_admin_login-error (ok response_data) p h = (refl, λ e. cc, λ e. h)
after_admin_login-error (throw x) p h = (refl, λ e. cc, λ e. cc)

-- A submitted login of the admin panel ends with the loading flag off, and either enters the panel
-- with no error or stays on the page with one, however the network behaves and whatever the fields
-- hold.
pub handle_admin_login-settles :
    (env : Env) (p : AdminLoginPage) (s : App)
    → let ((p', enters), s') = handle_admin_login env p s in
      (p'.loading ≡ false) × (enters ≡ false → p'.error ≢ none) × (enters ≡ true → p'.error ≡ none)
unfolding handle_admin_login
handle_admin_login-settles env p s =
    after_admin_login-error (login env admin_panel (trim p.email) p.password s).0
      (record p { error = none; loading = true }) refl
