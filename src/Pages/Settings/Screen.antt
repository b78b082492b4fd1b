-- ===== src/Pages/Settings/Screen.antt =====
-- frontend/web-app/src/app/pages/SettingsPage.tsx, its markup. The texts that the browser makes of
-- dates are parameters.
use trusyn_ai.Prelude.{
  ℕ, Text, codes, Bool, not, ◌||◌, Option, none, some, List, if◌then◌else◌, length, keep,
}
use trusyn_ai.Types.Account.{
  UserRole, UserDto, IntegrationDto, ApiKeyItemDto, ApiKeyCreateResponseDto,
}
use trusyn_ai.Pages.Listing.{is_id}
use trusyn_ai.Pages.Policies.{can_manage}
use trusyn_ai.Pages.Policies.Screen.{action_button}
use trusyn_ai.Pages.Agents.Screen.{local_date_or}
use trusyn_ai.Pages.Screen.{
  Button, plain_button, Banner, banner, Body, filled_body, Refresh, refresh_control,
}
use trusyn_ai.Pages.Settings.{SettingsPage}

pub record SettingsHead : Type 0 where
  pub refresh : Refresh
  pub messages : Banner
  pub integrations : ℕ
  pub enabled_integrations : ℕ
  pub api_keys : ℕ

unfoldable pub enabled_integrations : List IntegrationDto → ℕ
enabled_integrations items = length (keep (λ (item : IntegrationDto). item.enabled) items)

unfoldable pub settings_head : SettingsPage → SettingsHead
unfolding enabled_integrations
settings_head p = record {
  refresh = refresh_control p.refreshing;
  messages = banner p.error p.success_message;
  integrations = length p.integrations;
  enabled_integrations = enabled_integrations p.integrations;
  api_keys = length p.api_keys;
}

-- `user?.email ?? 'N/A'`
abbrev pub profile_readonly_email : Option UserDto → Text
profile_readonly_email none = codes "N/A"
profile_readonly_email (some user) = user.email

-- the card of the profile; its email is in a field that is disabled
pub record ProfilePanel : Type 0 where
  pub full_name : Text
  pub email : Text
  pub avatar_url : Text
  pub current_password : Text
  pub new_password : Text
  pub submit : Button

unfoldable pub profile_panel : SettingsPage → ProfilePanel
profile_panel p = record {
  full_name = p.profile_name;
  email = profile_readonly_email p.user;
  avatar_url = p.profile_avatar;
  current_password = p.profile_current_password;
  new_password = p.profile_new_password;
  submit =
      plain_button (if p.profile_saving then codes "Saving..." else codes "Save Profile")
        p.profile_saving;
}

pub record OrganizationPanel : Type 0 where
  pub name : Text
  pub description : Text
  pub website : Text
  pub submit : Button

pub record IntegrationRow : Type 0 where
  pub key : Text
  pub state : Text
  pub enabled : Bool
  pub toggle : Button

-- a field that cannot be changed, with the key that was created, and the list of the keys
pub record KeyRow : Type 0 where
  pub id : Text
  pub name : Text
  pub created : Text
  pub last_used : Text
  pub remove : Button

pub record KeyPanel : Type 0 where
  pub name : Text
  pub permissions : Text
  pub create : Button
  pub created_key : Option Text
  pub keys : Body KeyRow

-- the cards of the page, once the settings are loaded
pub record SettingsCards : Type 0 where
  pub profile : ProfilePanel
  pub organization : OrganizationPanel
  pub integrations : Body IntegrationRow
  pub keys : KeyPanel

pub data SettingsBody : Type 0 where
  waiting : Text → SettingsBody
  cards : SettingsCards → SettingsBody

abbrev pub key_text : Option ApiKeyCreateResponseDto → Option Text
key_text none = none
key_text (some created) = some created.key

module _ (role : Option UserRole) where
  unfoldable pub organization_panel : SettingsPage → OrganizationPanel
  organization_panel p = record {
    name = p.org_name;
    description = p.org_description;
    website = p.org_website;
    submit = action_button (codes "Save Organization") (codes "Saving...") role p.org_saving;
  }

  abbrev pub toggle_label : Bool → Text
  toggle_label enabled = if enabled then codes "Disable" else codes "Enable"

  unfoldable pub toggle_button : Option Text → IntegrationDto → Button
  toggle_button saving_key item =
      action_button (toggle_label item.enabled) (codes "Saving...") role (is_id saving_key item.key)

  abbrev pub integration_row : Option Text → IntegrationDto → IntegrationRow
  integration_row saving_key item = record {
    key = item.key;
    state = if item.enabled then codes "Enabled" else codes "Disabled";
    enabled = item.enabled;
    toggle = toggle_button saving_key item;
  }

  unfoldable pub integration_list : SettingsPage → Body IntegrationRow
  unfolding toggle_button
  integration_list p =
      filled_body (codes "No integration records found.") (integration_row p.integration_saving_key)
        p.integrations

  unfoldable pub remove_button : Option Text → Text → Button
  remove_button deleting id = record {
    label = codes "";
    disabled = not (can_manage role) || is_id deleting id;
    dimmed = not (can_manage role);
  }

  module _ (local_date local_date_and_time : Text → Text) where
    abbrev pub key_row : Option Text → ApiKeyItemDto → KeyRow
    key_row deleting item = record {
      id = item.id;
      name = item.name;
      created = local_date item.created_at;
      last_used = local_date_or local_date_and_time (codes "never") item.last_used_at;
      remove = remove_button deleting item.id;
    }

    unfoldable pub key_panel : SettingsPage → KeyPanel
    unfolding remove_button
    key_panel p = record {
      name = p.new_key_name;
      permissions = p.new_key_permissions_text;
      create = action_button (codes "Create Key") (codes "Creating...") role p.api_key_creating;
      created_key = key_text p.created_key;
      keys = filled_body (codes "No API keys found.") (key_row p.api_key_deleting) p.api_keys;
    }

    unfoldable pub settings_body : SettingsPage → SettingsBody
    unfolding profile_panel organization_panel integration_list key_panel
    settings_body p =
        if p.loading
        then waiting (codes "Loading settings...")
        else cards (record {
          profile = profile_panel p;
          organization = organization_panel p;
          integrations = integration_list p;
          keys = key_panel p;
        })
