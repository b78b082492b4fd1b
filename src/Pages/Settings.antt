-- ===== src/Pages/Settings.antt =====
-- frontend/web-app/src/app/pages/SettingsPage.tsx. What a handler needs of the session user is
-- its role; saving the profile stores a session user, so its end works on the shared state too.
pub mod Laws
pub mod Screen
pub mod Run
pub mod Single
pub mod Toggles
use trusyn_ai.Prelude.{
  Text, text_eq, codes, Bool, true, false, not, ◌||◌, Option, none, some, List, [], ◌∷◌, ◌++◌,
  if◌then◌else◌, keep, map, trim, is_empty, split_on, heads, take,
}
use trusyn_ai.Runtime.Value.{Value, Fields, str}
use trusyn_ai.Runtime.Monad.{App, Env, Exn, Result, ok, throw}
use trusyn_ai.Session.Storage.{web_app}
use trusyn_ai.Session.User.{SessionUser, set_session_user}
use trusyn_ai.Types.Account.{
  UserRole, super_admin, org_admin, analyst, developer, UserDto, OrganizationDto, IntegrationDto,
  ApiKeyItemDto, ApiKeyCreateResponseDto,
}
use trusyn_ai.Pages.Listing.{error_message}
use trusyn_ai.Pages.Policies.{can_manage, object_fields, or_empty, text_or_undefined}

pub record SettingsPage : Type 0 where
  pub loading : Bool
  pub refreshing : Bool
  pub error : Option Value
  pub success_message : Option Text
  pub user : Option UserDto
  pub organization : Option OrganizationDto
  pub integrations : List IntegrationDto
  pub api_keys : List ApiKeyItemDto
  pub profile_name : Text
  pub profile_avatar : Text
  pub profile_current_password : Text
  pub profile_new_password : Text
  pub org_name : Text
  pub org_description : Text
  pub org_website : Text
  pub new_key_name : Text
  pub new_key_permissions_text : Text
  pub created_key : Option ApiKeyCreateResponseDto
  pub profile_saving : Bool
  pub org_saving : Bool
  pub integration_saving_key : Option Text
  pub api_key_creating : Bool
  pub api_key_deleting : Option Text

-- The payloads; an option that is `none` is null in the first two fields that may be, and left
-- out of the body for the two passwords.
pub record ProfilePayload : Type 0 where
  pub full_name : Text
  pub avatar_url : Option Text
  pub passwords : Option (Text × Text)

pub record OrganizationPayload : Type 0 where
  pub name : Text
  pub description : Option Text
  pub website : Option Text

pub record IntegrationPayload : Type 0 where
  pub enabled : Bool
  pub config : Fields

pub record ApiKeyPayload : Type 0 where
  pub name : Text
  pub permissions : Fields

-- A handler until its first call: the page, and what it calls with if it calls.
abbrev pub Begun : Type 0 → Type 0
Begun P = SettingsPage × Option P

unfoldable pub make_initials : Env → Text → Text
unfolding split_on
make_initials env name =
    let (part, parts) = split_on b' ' name in env.to_upper_case (take 2 (heads (part ∷ parts)))

abbrev pub set_error : Text → SettingsPage → SettingsPage
set_error message p = record p { error = some (str message) }

abbrev pub fail_with : Exn → SettingsPage → SettingsPage
fail_with e p = record p { error = some (error_message (codes "Unable to update settings.") e) }

abbrev pub clear_messages : SettingsPage → SettingsPage
clear_messages p = record p { error = none; success_message = none }

abbrev pub succeed : Text → SettingsPage → SettingsPage
succeed message p = record p { success_message = some message }

unfoldable pub load_all_start : Bool → SettingsPage → SettingsPage
load_all_start refresh p =
    if refresh then record p { refreshing = true } else record p { loading = true }

-- what the four requests of `Promise.all` give
abbrev pub AllSettings : Type 0
AllSettings = UserDto × OrganizationDto × List IntegrationDto × List ApiKeyItemDto

abbrev pub show_settings : Result AllSettings → SettingsPage → SettingsPage
show_settings (throw e) p = fail_with e p
show_settings (ok (user, organization, integrations, api_keys)) p = record p {
  user = some user;
  organization = some organization;
  integrations = integrations;
  api_keys = api_keys;
  profile_name = user.full_name;
  profile_avatar = or_empty user.avatar_url;
  org_name = organization.name;
  org_description = or_empty organization.description;
  org_website = or_empty organization.website;
  error = none;
}

unfoldable pub load_all_finish : Result AllSettings → SettingsPage → SettingsPage
load_all_finish result p = record (show_settings result p) { loading = false; refreshing = false }

-- The passwords are sent as they are typed, if one of them is more than spaces.
abbrev pub profile_payload : SettingsPage → ProfilePayload
profile_payload p = record {
  full_name = trim p.profile_name;
  avatar_url = text_or_undefined (trim p.profile_avatar);
  passwords =
      if not (is_empty (trim p.profile_current_password))
        || not (is_empty (trim p.profile_new_password))
      then some (p.profile_current_password, p.profile_new_password)
      else none;
}

abbrev pub save_profile : Option UserDto → SettingsPage → Begun ProfilePayload
save_profile none p = (p, none)
save_profile (some user) p =
    (record (clear_messages p) { profile_saving = true }, some (profile_payload p))

unfoldable pub handle_save_profile_start : SettingsPage → Begun ProfilePayload
handle_save_profile_start p = save_profile p.user p

abbrev pub role_text : UserRole → Text
role_text super_admin = codes "SUPER_ADMIN"
role_text org_admin = codes "ORG_ADMIN"
role_text analyst = codes "ANALYST"
role_text developer = codes "DEVELOPER"

abbrev pub session_of : Env → UserDto → SessionUser
session_of env updated = record {
  id = str updated.id;
  organization_id = str updated.organization_id;
  name = str updated.full_name;
  role = str (role_text updated.role);
  email = str updated.email;
  initials = str (make_initials env updated.full_name);
}

unfoldable pub handle_save_profile_finish :
    Env → Result UserDto → SettingsPage → App → SettingsPage × App
unfolding make_initials set_session_user
handle_save_profile_finish env (ok updated) p s = (
  record p {
    user = some updated;
    profile_current_password = [];
    profile_new_password = [];
    success_message = some (codes "Profile settings saved successfully.");
    profile_saving = false;
  },
  set_session_user env web_app (session_of env updated) s,
)
handle_save_profile_finish env (throw e) p s =
    (record (fail_with e p) { profile_saving = false }, s)

unfoldable pub handle_save_organization_start :
    Option UserRole → SettingsPage → Begun OrganizationPayload
handle_save_organization_start role p =
    if can_manage role
    then (
      record (clear_messages p) { org_saving = true },
      some (record {
        name = trim p.org_name;
        description = text_or_undefined (trim p.org_description);
        website = text_or_undefined (trim p.org_website);
      }),
    )
    else (p, none)

unfoldable pub handle_save_organization_finish :
    Result OrganizationDto → SettingsPage → SettingsPage
handle_save_organization_finish (ok updated) p = record p {
  organization = some updated;
  success_message = some (codes "Organization settings saved successfully.");
  org_saving = false;
}
handle_save_organization_finish (throw e) p = record (fail_with e p) { org_saving = false }

unfoldable pub handle_toggle_integration_start :
    Option UserRole → IntegrationDto → SettingsPage → Begun (Text × IntegrationPayload)
handle_toggle_integration_start role item p =
    if can_manage role
    then (
      record (clear_messages p) { integration_saving_key = some item.key },
      some (item.key, record { enabled = not item.enabled; config = item.config }),
    )
    else (p, none)

abbrev pub replace_entry : Text → IntegrationDto → List IntegrationDto → List IntegrationDto
replace_entry key updated entries =
    map (λ (entry : IntegrationDto). if text_eq entry.key key then updated else entry) entries

unfoldable pub handle_toggle_integration_finish :
    IntegrationDto → Result IntegrationDto → SettingsPage → SettingsPage
handle_toggle_integration_finish item (ok updated) p = record p {
  integrations = replace_entry item.key updated p.integrations;
  success_message = some (item.key ++ codes " integration updated.");
  integration_saving_key = none;
}
handle_toggle_integration_finish item (throw e) p = record (fail_with e p) {
  integration_saving_key = none;
}

-- `JSON.parse` of the permissions: none where it throws
abbrev pub checked_permissions : Option Value → SettingsPage → Begun ApiKeyPayload
checked_permissions none p = (set_error (codes "API key permissions must be valid JSON.") p, none)
checked_permissions (some parsed) p = elim (object_fields (some parsed)) [
  | none ↦ (set_error (codes "API key permissions must be a JSON object.") p, none)
  | some permissions ↦ (
    record (clear_messages p) { api_key_creating = true },
    some (record { name = trim p.new_key_name; permissions = permissions }),
  )
]

unfoldable pub handle_create_api_key_start :
    (Text → Option Value) → Option UserRole → SettingsPage → Begun ApiKeyPayload
handle_create_api_key_start parse role p =
    if not (can_manage role) || is_empty (trim p.new_key_name)
    then (set_error (codes "API key name is required.") p, none)
    else checked_permissions (parse p.new_key_permissions_text) p

-- The key that was made is shown, and the page is loaded again before the handler ends.
unfoldable pub handle_create_api_key_finish :
    Result ApiKeyCreateResponseDto → Result AllSettings → SettingsPage → SettingsPage
unfolding load_all_start load_all_finish
handle_create_api_key_finish (ok created) all p =
    let shown =
      succeed (codes "API key created. Copy it now - it will not be shown again.")
        (record p { created_key = some created; new_key_name = [] }) in
    record (load_all_finish all (load_all_start true shown)) { api_key_creating = false }
handle_create_api_key_finish (throw e) all p = record (fail_with e p) { api_key_creating = false }

unfoldable pub handle_delete_api_key_start : Option UserRole → Text → SettingsPage → Begun Text
handle_delete_api_key_start role id p =
    if can_manage role
    then (record (clear_messages p) { api_key_deleting = some id }, some id)
    else (p, none)

unfoldable pub handle_delete_api_key_finish : Text → Result (Unit {0}) → SettingsPage → SettingsPage
handle_delete_api_key_finish id (ok _) p = record p {
  api_keys = keep (λ (item : ApiKeyItemDto). not (text_eq item.id id)) p.api_keys;
  success_message = some (codes "API key deleted successfully.");
  api_key_deleting = none;
}
handle_delete_api_key_finish id (throw e) p = record (fail_with e p) { api_key_deleting = none }
