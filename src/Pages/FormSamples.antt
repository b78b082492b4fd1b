-- ===== src/Pages/FormSamples.antt =====
-- The theorems on the settings page, the login page and the ages, applied to small inputs.
use trusyn_ai.Prelude.{
  ◌≡◌, ◌≢◌, refl, Text, codes, true, false, Option, none, some, [], is_empty, trim,
}
use trusyn_ai.Runtime.Value.{Value, blank, obj, str}
use trusyn_ai.Runtime.Monad.{App, Env, failure, ok}
use trusyn_ai.Session.Storage.{web_app}
use trusyn_ai.Session.Tokens.{get_access_token, get_refresh_token}
use trusyn_ai.Session.User.{get_session_user}
use trusyn_ai.Client.Sample.{env_with, env_with-KeepsSession}
use trusyn_ai.Types.Account.{analyst, org_admin, UserDto, IntegrationDto}
use trusyn_ai.Pages.Policies.{can_manage}
use trusyn_ai.Client.Auth.{initials_of}
use trusyn_ai.Pages.Settings.{
  SettingsPage, ApiKeyPayload, role_text, handle_save_profile_finish, handle_create_api_key_start,
}
use trusyn_ai.Pages.Settings.Laws.{handle_save_profile-session, handle_create_api_key-payload}
use trusyn_ai.Pages.Format.{past, to_relative_time, relative_time, IsProper, relative_time-agrees}
use trusyn_ai.Prelude.{arith}
use trusyn_ai.Pages.Login.{LoginPage, is_incomplete, handle_login, handle_login-settles}

abbrev offline : Env
offline = env_with (λ n. failure)

abbrev signed_out : App
signed_out = record { storage = λ k. none; refreshing = false; emitted = 0; sent = [] }

abbrev settings_page : SettingsPage
settings_page = record {
  loading = false;
  refreshing = false;
  error = none;
  success_message = none;
  user = none;
  organization = none;
  integrations = [];
  api_keys = [];
  profile_name = [];
  profile_avatar = [];
  profile_current_password = codes "old";
  profile_new_password = codes "new";
  org_name = [];
  org_description = [];
  org_website = [];
  new_key_name = codes "ci ";
  new_key_permissions_text = codes "{}";
  created_key = none;
  profile_saving = true;
  org_saving = false;
  integration_saving_key = none;
  api_key_creating = false;
  api_key_deleting = none;
}

abbrev renamed_user : UserDto
renamed_user = record {
  id = codes "u1";
  organization_id = codes "o1";
  email = codes "a@t.ai";
  full_name = codes "Ava Rao";
  role = analyst;
  is_active = true;
  avatar_url = none;
  preferences = none;
  last_login_at = none;
  created_at = [];
  updated_at = [];
}

handle_save_profile-session_example :
    let (p', s') = handle_save_profile_finish offline (ok renamed_user) settings_page signed_out in
    (get_session_user offline web_app s'.storage
      ≡ some (record {
        id = str renamed_user.id;
        organization_id = str renamed_user.organization_id;
        name = str renamed_user.full_name;
        role = str (role_text renamed_user.role);
        email = str renamed_user.email;
        initials = str (offline.to_upper_case (initials_of renamed_user.full_name));
      }))
    × (get_access_token web_app s'.storage ≡ get_access_token web_app signed_out.storage)
    × (get_refresh_token web_app s'.storage ≡ get_refresh_token web_app signed_out.storage)
    × (p'.profile_current_password ≡ [])
    × (p'.profile_new_password ≡ [])
handle_save_profile-session_example =
    handle_save_profile-session offline renamed_user settings_page signed_out
      (env_with-KeepsSession (λ n. failure))

-- Any text is read as the empty object.
abbrev parse_empty : Text → Option Value
parse_empty text = some (obj blank)

abbrev key_payload : ApiKeyPayload
key_payload = record { name = codes "ci"; permissions = blank }

key-sent :
    (handle_create_api_key_start parse_empty (some org_admin) settings_page).1 ≡ some key_payload
unfolding handle_create_api_key_start trim
key-sent = refl

handle_create_api_key-payload_test :
    (can_manage (some org_admin) ≡ true)
    × (key_payload.name ≡ trim settings_page.new_key_name)
    × (is_empty key_payload.name ≡ false)
    × (parse_empty settings_page.new_key_permissions_text ≡ some (obj key_payload.permissions))
handle_create_api_key-payload_test =
    handle_create_api_key-payload parse_empty (some org_admin) settings_page key_payload key-sent

abbrev slack : IntegrationDto
slack = record { key = codes "slack"; enabled = true; config = blank }

abbrev login_form : LoginPage
login_form = record {
  email = codes "a@t.ai";
  password = codes "secret";
  show_password = false;
  loading = false;
  selected_profile = [];
  forgot_open = false;
  error_message = none;
}

handle_login-settles_test :
    let ((p', path), s') = handle_login offline none login_form signed_out in
    (p'.loading ≡ false)
    × (path ≡ none → p'.error_message ≢ none)
    × (path ≢ none → p'.error_message ≡ none)
    × (is_incomplete login_form ≡ true → s' ≡ signed_out)
handle_login-settles_test = handle_login-settles offline none login_form signed_out refl

-- Two hours ago.
relative_time-agrees_test :
    (relative_time (past 7200000) ≡ to_relative_time (past 7200000))
    × IsProper (relative_time (past 7200000))
relative_time-agrees_test = relative_time-agrees 7200000 (omega arith)
