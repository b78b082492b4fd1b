-- ===== src/Admin/LoginPage/Screen.antt =====
-- frontend/admin_panel/src/app/pages/AdminLoginPage.tsx, its markup and its two text fields
use trusyn_ai.Prelude.{Text, text_eq, codes, Bool, false, Option, List, if◌then◌else◌, map}
use trusyn_ai.Runtime.Value.{Value}
use trusyn_ai.Pages.Screen.{Button, plain_button, shown_value}
use trusyn_ai.Pages.Login.Screen.{PasswordField}
use trusyn_ai.Admin.LoginPage.{AdminLoginPage, DemoAdmin, demo_admins}

abbrev pub type_admin_email : Text → AdminLoginPage → AdminLoginPage
type_admin_email text p = record p { email = text }

abbrev pub type_admin_password : Text → AdminLoginPage → AdminLoginPage
type_admin_password text p = record p { password = text }

-- a button that fills the form; the one that was pressed last has other colours
pub record AdminDemoCard : Type 0 where
  pub highlighted : Bool
  pub name : Text
  pub role : Text
  pub email : Text

abbrev pub admin_demo_card : Text → DemoAdmin → AdminDemoCard
admin_demo_card selected admin = record {
  highlighted = text_eq selected admin.id;
  name = admin.name;
  role = admin.role;
  email = admin.email;
}

pub record AdminLoginScreen : Type 0 where
  pub error : Option Value
  pub email : Text
  pub password : PasswordField
  pub submit : Button
  pub demos : List AdminDemoCard

unfoldable pub admin_login_screen : AdminLoginPage → AdminLoginScreen
admin_login_screen p = record {
  error = shown_value p.error;
  email = p.email;
  password = record {
    value = p.password;
    readable = p.show_password;
    toggle =
        plain_button (if p.show_password then codes "Hide password" else codes "Show password")
          false;
  };
  submit = record {
    label = if p.loading then codes "Signing in..." else codes "Sign In";
    disabled = p.loading;
    dimmed = p.loading;
  };
  demos = map (admin_demo_card p.selected_demo) demo_admins;
}
