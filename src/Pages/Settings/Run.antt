-- ===== src/Pages/Settings/Run.antt =====
-- The settings page while it is used: what the user presses and types, and the answers of the
-- backend, in any order. A button does nothing while it is disabled, and none is there while the
-- page loads. The answer to the creation of a key is one event with that of the load it is
-- followed by.
use trusyn_ai.Prelude.{
  ℕ, Text, text_eq, Bool, true, false, Option, none, some, List, [], ◌∷◌, if◌then◌else◌, find, any,
  ◌||◌, not,
}
use trusyn_ai.Runtime.Value.{Value}
use trusyn_ai.Runtime.Monad.{App, Env, Result}
use trusyn_ai.Types.Account.{
  UserRole, UserDto, OrganizationDto, IntegrationDto, ApiKeyItemDto, ApiKeyCreateResponseDto,
}
use trusyn_ai.Pages.Screen.Calls.{take_call}
use trusyn_ai.Pages.Fields.{SettingsField, fill_settings, key_copied}
use trusyn_ai.Pages.Settings.Screen.{
  profile_panel, organization_panel, key_panel, toggle_button, remove_button,
}
use trusyn_ai.Pages.Settings.{
  SettingsPage, ProfilePayload, OrganizationPayload, IntegrationPayload, ApiKeyPayload, AllSettings,
  Begun, load_all_start, load_all_finish, handle_save_profile_start, handle_save_profile_finish,
  handle_save_organization_start, handle_save_organization_finish, handle_toggle_integration_start,
  handle_toggle_integration_finish, handle_create_api_key_start, handle_create_api_key_finish,
  handle_delete_api_key_start, handle_delete_api_key_finish,
}

-- the page, the shared state, and the calls; a switch keeps the integration it was made with
pub record SettingsRun : Type 0 where
  pub page : SettingsPage
  pub app : App
  pub profiles : List ProfilePayload
  pub organizations : List OrganizationPayload
  pub toggles : List (IntegrationDto × IntegrationPayload)
  pub creates : List ApiKeyPayload
  pub deletes : List Text
  pub loads : List (Unit {0})

pub data SettingsEvent : Type 0 where
  profile_pressed organization_pressed create_pressed refresh_pressed load_began : SettingsEvent
  toggle_pressed delete_pressed : Text → SettingsEvent
  profile_answered : ℕ → Result UserDto → SettingsEvent
  organization_answered : ℕ → Result OrganizationDto → SettingsEvent
  toggle_answered : ℕ → Result IntegrationDto → SettingsEvent
  create_answered : ℕ → Result ApiKeyCreateResponseDto → Result AllSettings → SettingsEvent
  delete_answered : ℕ → Result (Unit {0}) → SettingsEvent
  load_answered : ℕ → Result AllSettings → SettingsEvent
  filled : SettingsField → Text → SettingsEvent
  copied : SettingsEvent

-- the integration of a row
abbrev pub entry_of : Text → List IntegrationDto → Option IntegrationDto
entry_of key items = find (λ (item : IntegrationDto). text_eq item.key key) items

abbrev pub has_key : Text → List ApiKeyItemDto → Bool
has_key id items = any (λ (item : ApiKeyItemDto). text_eq item.id id) items

abbrev pub begin_profile : SettingsRun → Begun ProfilePayload → SettingsRun
begin_profile r (p, none) = record r { page = p }
begin_profile r (p, some x) = record r { page = p; profiles = x ∷ r.profiles }

abbrev pub begin_organization : SettingsRun → Begun OrganizationPayload → SettingsRun
begin_organization r (p, none) = record r { page = p }
begin_organization r (p, some x) = record r { page = p; organizations = x ∷ r.organizations }

abbrev pub begin_toggle :
    SettingsRun → IntegrationDto → Begun (Text × IntegrationPayload) → SettingsRun
begin_toggle r item (p, none) = record r { page = p }
begin_toggle r item (p, some (key, x)) = record r { page = p; toggles = (item, x) ∷ r.toggles }

abbrev pub begin_create : SettingsRun → Begun ApiKeyPayload → SettingsRun
begin_create r (p, none) = record r { page = p }
begin_create r (p, some x) = record r { page = p; creates = x ∷ r.creates }

abbrev pub begin_delete : SettingsRun → Begun Text → SettingsRun
begin_delete r (p, none) = record r { page = p }
begin_delete r (p, some id) = record r { page = p; deletes = id ∷ r.deletes }

unfoldable pub begin_load : Bool → SettingsRun → SettingsRun
unfolding load_all_start
begin_load refresh r = record r { page = load_all_start refresh r.page; loads = tt ∷ r.loads }

-- the answers, to a call that is under way
abbrev pub end_profile :
    Env → SettingsRun → Result UserDto → Option (ProfilePayload × List ProfilePayload) → SettingsRun
end_profile env r result none = r
end_profile env r result (some (x, rest)) = record r {
  page = (handle_save_profile_finish env result r.page r.app).0;
  app = (handle_save_profile_finish env result r.page r.app).1;
  profiles = rest;
}

abbrev pub end_organization :
    SettingsRun
    → Result OrganizationDto
    → Option (OrganizationPayload × List OrganizationPayload)
    → SettingsRun
end_organization r result none = r
end_organization r result (some (x, rest)) = record r {
  page = handle_save_organization_finish result r.page;
  organizations = rest;
}

abbrev pub end_toggle :
    SettingsRun
    → Result IntegrationDto
    → Option ((IntegrationDto × IntegrationPayload) × List (IntegrationDto × IntegrationPayload))
    → SettingsRun
end_toggle r result none = r
end_toggle r result (some ((item, x), rest)) = record r {
  page = handle_toggle_integration_finish item result r.page;
  toggles = rest;
}

abbrev pub end_create :
    SettingsRun
    → Result ApiKeyCreateResponseDto
    → Result AllSettings
    → Option (ApiKeyPayload × List ApiKeyPayload)
    → SettingsRun
end_create r result all none = r
end_create r result all (some (x, rest)) = record r {
  page = handle_create_api_key_finish result all r.page;
  creates = rest;
}

abbrev pub end_delete : SettingsRun → Result (Unit {0}) → Option (Text × List Text) → SettingsRun
end_delete r result none = r
end_delete r result (some (id, rest)) = record r {
  page = handle_delete_api_key_finish id result r.page;
  deletes = rest;
}

abbrev pub end_load :
    SettingsRun → Result AllSettings → Option (Unit {0} × List (Unit {0})) → SettingsRun
end_load r result none = r
end_load r result (some (_, rest)) = record r { page = load_all_finish result r.page; loads = rest }

module _ (role : Option UserRole) where
  unfoldable pub press_toggle : SettingsRun → Option IntegrationDto → SettingsRun
  unfolding toggle_button handle_toggle_integration_start
  press_toggle r none = r
  press_toggle r (some item) =
      if (toggle_button role r.page.integration_saving_key item).disabled
      then r
      else begin_toggle r item (handle_toggle_integration_start role item r.page)

module _ (parse : Text → Option Value) (role : Option UserRole) where
  -- what is pressed on the cards
  unfoldable pub card_event : SettingsEvent → SettingsRun → SettingsRun
  unfolding profile_panel organization_panel key_panel press_toggle remove_button
      handle_save_profile_start handle_save_organization_start handle_create_api_key_start
      handle_delete_api_key_start
  card_event profile_pressed r =
      if (profile_panel r.page).submit.disabled
      then r
      else begin_profile r (handle_save_profile_start r.page)
  card_event organization_pressed r =
      if (organization_panel role r.page).submit.disabled
      then r
      else begin_organization r (handle_save_organization_start role r.page)
  card_event (toggle_pressed key) r = press_toggle role r (entry_of key r.page.integrations)
  card_event create_pressed r =
      if (key_panel role (λ t. t) (λ t. t) r.page).create.disabled
      then r
      else begin_create r (handle_create_api_key_start parse role r.page)
  card_event (delete_pressed id) r =
      if not (has_key id r.page.api_keys)
        || (remove_button role r.page.api_key_deleting id).disabled
      then r
      else begin_delete r (handle_delete_api_key_start role id r.page)
  card_event (filled f text) r = record r { page = fill_settings f text r.page }
  card_event copied r = record r { page = key_copied r.page }
  card_event _ r = r

module _ (env : Env) (parse : Text → Option Value) (role : Option UserRole) where
  unfoldable pub settings_event : SettingsEvent → SettingsRun → SettingsRun
  unfolding card_event begin_load load_all_finish handle_save_profile_finish
      handle_save_organization_finish handle_toggle_integration_finish handle_create_api_key_finish
      handle_delete_api_key_finish
  settings_event refresh_pressed r = if r.page.refreshing then r else begin_load true r
  settings_event load_began r = begin_load false r
  settings_event (profile_answered n result) r = end_profile env r result (take_call n r.profiles)
  settings_event (organization_answered n result) r =
      end_organization r result (take_call n r.organizations)
  settings_event (toggle_answered n result) r = end_toggle r result (take_call n r.toggles)
  settings_event (create_answered n result all) r = end_create r result all (take_call n r.creates)
  settings_event (delete_answered n result) r = end_delete r result (take_call n r.deletes)
  settings_event (load_answered n result) r = end_load r result (take_call n r.loads)
  settings_event event r = if r.page.loading then r else card_event parse role event r

  unfoldable pub settings_events : List SettingsEvent → SettingsRun → SettingsRun
  unfolding settings_event
  settings_events [] r = r
  settings_events (event ∷ events) r = settings_events events (settings_event event r)
