-- ===== src/Pages/Login/Screen.antt =====
-- frontend/web-app/src/app/pages/LoginPage.tsx, its markup
use trusyn_ai.Prelude.{Text, text_eq, codes, Bool, false, Option, List, if◌then◌else◌, map}
use trusyn_ai.Runtime.Value.{Value}
use trusyn_ai.Pages.Screen.{Button, plain_button, shown_value}
use trusyn_ai.Pages.Login.{LoginPage, ProfileLogin, quick_profiles}

-- the password field, with the button that shows and hides what is typed
pub record PasswordField : Type 0 where
  pub value : Text
  pub readable : Bool
  pub toggle : Button

unfoldable pub password_field : LoginPage → PasswordField
password_field p = record {
  value = p.password;
  readable = p.show_password;
  toggle =
      plain_button (if p.show_password then codes "Hide password" else codes "Show password") false;
}

pub record ProfileCard : Type 0 where
  pub highlighted : Bool
  pub name : Text
  pub role : Text
  pub email : Text

abbrev pub profile_card : Text → ProfileLogin → ProfileCard
profile_card selected profile = record {
  highlighted = text_eq profile.id selected;
  name = profile.name;
  role = profile.role;
  email = profile.email;
}

pub record LoginScreen : Type 0 where
  pub email : Text
  pub password : PasswordField
  pub error : Option Value
  pub submit : Button
  pub profiles : List ProfileCard
  pub dialog : Bool

-- the button has paler colours while it is disabled
unfoldable pub login_screen : LoginPage → LoginScreen
unfolding password_field
login_screen p = record {
  email = p.email;
  password = password_field p;
  error = shown_value p.error_message;
  submit = record {
    label = if p.loading then codes "Signing in..." else codes "Sign In";
    disabled = p.loading;
    dimmed = p.loading;
  };
  profiles = map (profile_card p.selected_profile) quick_profiles;
  dialog = p.forgot_open;
}
