-- ===== src/Admin/Settings/Changes.antt =====
-- The integrations, the API keys and the fields of
-- frontend/admin_panel/src/app/pages/Settings.tsx
use trusyn_ai.Prelude.{
  Text, text_eq, codes, Bool, true, false, not, Option, none, some, List, [], if◌then◌else◌, map,
  keep, trim, is_empty,
}
use trusyn_ai.Runtime.Value.{Value, Fields, blank, field, str}
use trusyn_ai.Types.Account.{IntegrationDto, ApiKeyItemDto, ApiKeyCreateResponseDto}
use trusyn_ai.Admin.Common.{Answer, answered, failed, error_text}
use trusyn_ai.Admin.Settings.{AdminSettings, ProfileDraft, OrganizationDraft}

-- the switch of an integration: its key, whether it is to be enabled, and its configuration
unfoldable pub toggle_integration_start :
    IntegrationDto → Bool → AdminSettings → AdminSettings × Text × Bool × Fields
toggle_integration_start integration enabled p =
    (record p { error = none }, integration.key, enabled, integration.config)

unfoldable pub replace_integration : IntegrationDto → List IntegrationDto → List IntegrationDto
replace_integration updated rows =
    map (λ (row : IntegrationDto). if text_eq row.key updated.key then updated else row) rows

unfoldable pub toggle_integration_finish : Answer IntegrationDto → AdminSettings → AdminSettings
unfolding replace_integration
toggle_integration_finish (answered updated) p = record p {
  integrations = replace_integration updated p.integrations;
}
toggle_integration_finish (failed message) p = record p {
  error = some (error_text (codes "Unable to update integration") message);
}

abbrev key_fails : Option Value → AdminSettings → AdminSettings
key_fails message p = record p {
  error = some (error_text (codes "Unable to create API key") message);
}

-- The name and the permissions that are sent, where there is a name; then the answer to the
-- creation, and that of the list that is loaded after it.
unfoldable pub create_api_key_start : AdminSettings → AdminSettings × Option (Text × Fields)
create_api_key_start p =
    if is_empty (trim p.new_api_key_name)
    then (record p { error = some (str (codes "API key name is required.")) }, none)
    else (
      record p { error = none },
      some (trim p.new_api_key_name, field "scope" (str (codes "platform:admin")) blank),
    )

-- the page, and whether the list is asked for
unfoldable pub create_api_key_created :
    Answer ApiKeyCreateResponseDto → AdminSettings → AdminSettings × Bool
create_api_key_created (answered created) p =
    (record p { created_key = some (created.key); new_api_key_name = [] }, true)
create_api_key_created (failed message) p = (key_fails message p, false)

unfoldable pub create_api_key_listed : Answer (List ApiKeyItemDto) → AdminSettings → AdminSettings
create_api_key_listed (answered keys) p = record p { api_keys = keys }
create_api_key_listed (failed message) p = key_fails message p

unfoldable pub remove_api_key_start : AdminSettings → AdminSettings
remove_api_key_start p = record p { error = none }

unfoldable pub remove_api_key_finish : Text → Answer Unit → AdminSettings → AdminSettings
remove_api_key_finish id (answered done) p = record p {
  api_keys = keep (λ (key : ApiKeyItemDto). not (text_eq key.id id)) p.api_keys;
}
remove_api_key_finish id (failed message) p = record p {
  error = some (error_text (codes "Unable to delete API key") message);
}

-- the fields of the forms
pub data DraftField : Type 0 where
  profile_full_name profile_avatar_url profile_preferences : DraftField
  org_name org_slug org_description org_website org_settings : DraftField
  key_name : DraftField

abbrev in_profile : (ProfileDraft → ProfileDraft) → AdminSettings → AdminSettings
in_profile change p = record p { profile_draft = change p.profile_draft }

abbrev in_organization : (OrganizationDraft → OrganizationDraft) → AdminSettings → AdminSettings
in_organization change p = record p { organization_draft = change p.organization_draft }

unfoldable pub fill_draft : DraftField → Text → AdminSettings → AdminSettings
fill_draft profile_full_name text p =
    in_profile (λ (d : ProfileDraft). record d { full_name = text }) p
fill_draft profile_avatar_url text p =
    in_profile (λ (d : ProfileDraft). record d { avatar_url = text }) p
fill_draft profile_preferences text p =
    in_profile (λ (d : ProfileDraft). record d { preferences = text }) p
fill_draft org_name text p = in_organization (λ (d : OrganizationDraft). record d { name = text }) p
fill_draft org_slug text p = in_organization (λ (d : OrganizationDraft). record d { slug = text }) p
fill_draft org_description text p =
    in_organization (λ (d : OrganizationDraft). record d { description = text }) p
fill_draft org_website text p =
    in_organization (λ (d : OrganizationDraft). record d { website = text }) p
fill_draft org_settings text p =
    in_organization (λ (d : OrganizationDraft). record d { settings = text }) p
fill_draft key_name text p = record p { new_api_key_name = text }
