-- ===== src/Pages/Settings/Laws.antt =====
-- What the settings page sends, and what it leaves in the session.
use trusyn_ai.Prelude.{◌≡◌, refl, Text, true, false, Option, some, [], arith, is_empty, trim}
use trusyn_ai.Runtime.Value.{Value, obj, str}
use trusyn_ai.Runtime.Monad.{App, Env, ok}
use trusyn_ai.Session.Storage.{web_app}
use trusyn_ai.Session.Tokens.{get_access_token, get_refresh_token}
use trusyn_ai.Session.User.{get_session_user}
use trusyn_ai.Session.Laws.{
  KeepsSession, HasTexts, get_session_user-set_session_user, get_tokens-set_session_user,
}
use trusyn_ai.Client.Auth.{initials_of}
use trusyn_ai.Types.Account.{UserRole, UserDto}
use trusyn_ai.Pages.Policies.{can_manage}
use trusyn_ai.Pages.Settings.{
  SettingsPage, ApiKeyPayload, checked_permissions, session_of, make_initials, role_text,
  handle_save_profile_finish, handle_create_api_key_start,
}

session_of-HasTexts : (env : Env) (updated : UserDto) → HasTexts (session_of env updated)
session_of-HasTexts env updated = record {
  id = refl;
  organization_id = refl;
  name = refl;
  role = refl;
  email = refl;
  initials = refl;
}

-- Saving the profile puts the user that the backend answers with into the session: its id, its
-- organization, its name, its role, its email and the initials that the client makes of the name
-- are read back, both tokens are as they were, and the passwords are gone from the page.
pub handle_save_profile-session :
    (env : Env) (updated : UserDto) (p : SettingsPage) (s : App)
    → KeepsSession env
    → let (p', s') = handle_save_profile_finish env (ok updated) p s in
      (get_session_user env web_app s'.storage
        ≡ some (record {
          id = str updated.id;
          organization_id = str updated.organization_id;
          name = str updated.full_name;
          role = str (role_text updated.role);
          email = str updated.email;
          initials = str (env.to_upper_case (initials_of updated.full_name));
        }))
      × (get_access_token web_app s'.storage ≡ get_access_token web_app s.storage)
      × (get_refresh_token web_app s'.storage ≡ get_refresh_token web_app s.storage)
      × (p'.profile_current_password ≡ [])
      × (p'.profile_new_password ≡ [])
unfolding handle_save_profile_finish make_initials initials_of
handle_save_profile-session env updated p s laws =
    let u = session_of env updated in
    let stored =
      get_session_user-set_session_user env web_app u s laws (session_of-HasTexts env updated) in
    let kept = get_tokens-set_session_user env web_app u s in (stored.0, kept.0, kept.1, refl, refl)

checked_permissions-some :
    (o : Option Value) (p : SettingsPage) (payload : ApiKeyPayload)
    → (checked_permissions o p).1 ≡ some payload
    → (o ≡ some (obj payload.permissions)) × (payload.name ≡ trim p.new_key_name)
checked_permissions-some o p payload e = ground arith

-- A key is only asked for by an administrator, with a name, and with the permissions that the
-- text is parsed to, which are an object.
pub handle_create_api_key-payload :
    (parse : Text → Option Value) (role : Option UserRole) (p : SettingsPage)
    (payload : ApiKeyPayload)
    → (handle_create_api_key_start parse role p).1 ≡ some payload
    → (can_manage role ≡ true)
      × (payload.name ≡ trim p.new_key_name)
      × (is_empty payload.name ≡ false)
      × (parse p.new_key_permissions_text ≡ some (obj payload.permissions))
unfolding handle_create_api_key_start
handle_create_api_key-payload parse role p payload e =
    ground (arith, checked_permissions-some (parse p.new_key_permissions_text) p payload)
