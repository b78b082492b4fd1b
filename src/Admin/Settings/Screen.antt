-- ===== src/Admin/Settings/Screen.antt =====
-- frontend/admin_panel/src/app/pages/Settings.tsx, its markup. The texts that JSON.stringify and
-- the browser make of a configuration and of a date are parameters.
use trusyn_ai.Prelude.{◌≡◌, refl, String, Text, codes, Bool, true, false, Option, none, some}
use trusyn_ai.Runtime.Value.{Value, Fields, boolean, lookup, or_else, is_truthy}
use trusyn_ai.Types.Account.{UserDto, OrganizationDto, IntegrationDto, ApiKeyItemDto}
use trusyn_ai.Pages.Screen.{Button, plain_button, shown_value, shown_text, Body, filled_body}
use trusyn_ai.Admin.Screen.{refresh_button}
use trusyn_ai.Admin.Settings.{AdminSettings, ProfileDraft, OrganizationDraft, save_indicator}

-- the top of the page, with the error and the indicator of the saves
pub record AdminSettingsHead : Type 0 where
  pub refresh : Button
  pub error : Option Value
  pub indicator : Option Text

unfoldable pub admin_settings_head : AdminSettings → AdminSettingsHead
unfolding save_indicator
admin_settings_head p = record {
  refresh = refresh_button p.loading;
  error = shown_value p.error;
  indicator = save_indicator p.save_state;
}

-- The two forms. No state disables their buttons.
pub record DraftForms : Type 0 where
  pub profile : ProfileDraft
  pub save_profile : Button
  pub organization : OrganizationDraft
  pub save_organization : Button

unfoldable pub draft_forms : AdminSettings → DraftForms
draft_forms p = record {
  profile = p.profile_draft;
  save_profile = plain_button (codes "Save Profile") false;
  organization = p.organization_draft;
  save_organization = plain_button (codes "Save Organization") false;
}

-- an integration, with the switch whose press is `toggleIntegration`
pub record SwitchRow : Type 0 where
  pub key : Text
  pub config : Text
  pub checked : Bool

abbrev pub switch_row : (Fields → Text) → IntegrationDto → SwitchRow
switch_row print integration = record {
  key = integration.key;
  config = print integration.config;
  checked = integration.enabled;
}

-- an API key, with the button whose press is `removeApiKey`
pub record AdminKeyRow : Type 0 where
  pub id : Text
  pub name : Text
  pub created : Text

abbrev pub admin_key_row : (Text → Text) → ApiKeyItemDto → AdminKeyRow
admin_key_row local_date key = record {
  id = key.id;
  name = key.name;
  created = local_date key.created_at;
}

pub record ConnectionCards : Type 0 where
  pub integrations : Body SwitchRow
  pub new_key_name : Text
  pub create : Button
  pub created_key : Option Text
  pub keys : Body AdminKeyRow

module _ (print : Fields → Text) (local_date : Text → Text) where
  unfoldable pub connection_cards : AdminSettings → ConnectionCards
  connection_cards p = record {
    integrations =
        filled_body (codes "No integrations configured.") (switch_row print) p.integrations;
    new_key_name = p.new_api_key_name;
    create = plain_button (codes "Create Key") false;
    created_key = shown_text p.created_key;
    keys = filled_body (codes "No API keys found.") (admin_key_row local_date) p.api_keys;
  }

-- `Boolean(fields?.name ?? true)`
abbrev pub is_switched_on : Option Fields → String → Bool
is_switched_on none name = true
is_switched_on (some fields) name = is_truthy (or_else (lookup name fields) (boolean true))

-- the preferences of the user and the settings of the organization, where there are any
abbrev pub preferences_of : Option UserDto → Option Fields
preferences_of none = none
preferences_of (some user) = user.preferences

abbrev pub settings_of : Option OrganizationDto → Option Fields
settings_of none = none
settings_of (some organization) = organization.settings

-- two switches that cannot be pressed
pub record RuntimeToggles : Type 0 where
  pub push_notifications : Bool
  pub critical_alert_emails : Bool

unfoldable pub runtime_toggles : AdminSettings → RuntimeToggles
runtime_toggles p = record {
  push_notifications = is_switched_on (preferences_of p.user) "notifications";
  critical_alert_emails = is_switched_on (settings_of p.organization) "critical_alerts";
}

-- The switch "Push Notifications" is the same whatever the settings of the organization hold: it
-- is taken from the preferences of the user.
pub runtime_toggles-organization :
    (organization : Option OrganizationDto) (p : AdminSettings)
    → (runtime_toggles (record p { organization = organization })).push_notifications
      ≡ (runtime_toggles p).push_notifications
unfolding runtime_toggles
runtime_toggles-organization organization p = refl
