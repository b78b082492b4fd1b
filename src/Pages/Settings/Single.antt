-- ===== src/Pages/Settings/Single.antt =====
-- What the buttons of the settings page send while it is used.
use trusyn_ai.Prelude.{refl, Text, Option, none, some, List, [], ◌∷◌, arith}
use trusyn_ai.Runtime.Value.{Value}
use trusyn_ai.Runtime.Monad.{Env, Result, ok, throw}
use trusyn_ai.Types.Account.{
  UserRole, UserDto, OrganizationDto, IntegrationDto, ApiKeyCreateResponseDto,
}
use trusyn_ai.Pages.Screen.Calls.{IsSingle, IsTaken, take_call, take_call-IsTaken}
use trusyn_ai.Pages.Fields.{fill_settings}
use trusyn_ai.Pages.Settings.Screen.{profile_panel, organization_panel, key_panel}
use trusyn_ai.Pages.Settings.{
  ProfilePayload, OrganizationPayload, IntegrationPayload, ApiKeyPayload, AllSettings,
  load_all_start, load_all_finish, handle_save_profile_start, handle_save_profile_finish,
  handle_save_organization_start, handle_save_organization_finish, handle_toggle_integration_start,
  handle_toggle_integration_finish, handle_create_api_key_start, handle_create_api_key_finish,
  handle_delete_api_key_start, handle_delete_api_key_finish,
}
use trusyn_ai.Pages.Settings.Run.{
  SettingsRun, SettingsEvent, settings_event, settings_events, card_event, press_toggle, begin_load,
  entry_of, end_profile, end_organization, end_toggle, end_create, end_delete, end_load,
  refresh_pressed, load_began, toggle_pressed, profile_answered, organization_answered,
  toggle_answered, create_answered, delete_answered, load_answered,
}

-- each of the three actions is under way once while its flag is set, and not at all otherwise
pub record IsCalm (r : SettingsRun) : Type 0 where
  pub profile : IsSingle r.page.profile_saving r.profiles
  pub organization : IsSingle r.page.org_saving r.organizations
  pub creating : IsSingle r.page.api_key_creating r.creates

end_profile-IsCalm :
    (env : Env) (r : SettingsRun) (result : Result UserDto)
    (o : Option (ProfilePayload × List ProfilePayload))
    → IsTaken r.profiles o
    → IsCalm r
    → IsCalm (end_profile env r result o)
unfolding handle_save_profile_finish
end_profile-IsCalm env r result none t h = h
end_profile-IsCalm env r (ok updated) (some (x, rest)) t h = ground (arith, t x rest refl)
end_profile-IsCalm env r (throw e) (some (x, rest)) t h = ground (arith, t x rest refl)

end_organization-IsCalm :
    (r : SettingsRun) (result : Result OrganizationDto)
    (o : Option (OrganizationPayload × List OrganizationPayload))
    → IsTaken r.organizations o
    → IsCalm r
    → IsCalm (end_organization r result o)
unfolding handle_save_organization_finish
end_organization-IsCalm r result none t h = h
end_organization-IsCalm r (ok updated) (some (x, rest)) t h = ground (arith, t x rest refl)
end_organization-IsCalm r (throw e) (some (x, rest)) t h = ground (arith, t x rest refl)

end_create-IsCalm :
    (r : SettingsRun) (result : Result ApiKeyCreateResponseDto) (all : Result AllSettings)
    (o : Option (ApiKeyPayload × List ApiKeyPayload))
    → IsTaken r.creates o
    → IsCalm r
    → IsCalm (end_create r result all o)
unfolding handle_create_api_key_finish load_all_finish load_all_start
end_create-IsCalm r result all none t h = h
end_create-IsCalm r (ok created) all (some (x, rest)) t h = ground (arith, t x rest refl)
end_create-IsCalm r (throw e) all (some (x, rest)) t h = ground (arith, t x rest refl)

end_toggle-IsCalm :
    (r : SettingsRun) (result : Result IntegrationDto)
    (o : Option
      ((IntegrationDto × IntegrationPayload) × List (IntegrationDto × IntegrationPayload)))
    → IsCalm r
    → IsCalm (end_toggle r result o)
unfolding handle_toggle_integration_finish
end_toggle-IsCalm r result none h = h
end_toggle-IsCalm r (ok updated) (some (x, rest)) h = ground arith
end_toggle-IsCalm r (throw e) (some (x, rest)) h = ground arith

end_delete-IsCalm :
    (r : SettingsRun) (result : Result (Unit {0})) (o : Option (Text × List Text))
    → IsCalm r
    → IsCalm (end_delete r result o)
unfolding handle_delete_api_key_finish
end_delete-IsCalm r result none h = h
end_delete-IsCalm r (ok _) (some (id, rest)) h = ground arith
end_delete-IsCalm r (throw e) (some (id, rest)) h = ground arith

end_load-IsCalm :
    (r : SettingsRun) (result : Result AllSettings) (o : Option (Unit {0} × List (Unit {0})))
    → IsCalm r
    → IsCalm (end_load r result o)
unfolding load_all_finish
end_load-IsCalm r result none h = h
end_load-IsCalm r (ok all) (some (_, rest)) h = ground arith
end_load-IsCalm r (throw e) (some (_, rest)) h = ground arith

module _ (env : Env) (parse : Text → Option Value) (role : Option UserRole) where
  press_toggle-IsCalm :
      (r : SettingsRun) (o : Option IntegrationDto) → IsCalm r → IsCalm (press_toggle role r o)
  unfolding press_toggle handle_toggle_integration_start
  press_toggle-IsCalm r none h = h
  press_toggle-IsCalm r (some item) h = ground arith

  card_event-IsCalm :
      (event : SettingsEvent) (r : SettingsRun) → IsCalm r → IsCalm (card_event parse role event r)
  unfolding card_event profile_panel organization_panel key_panel handle_save_profile_start
      handle_save_organization_start handle_create_api_key_start handle_delete_api_key_start
      fill_settings
  card_event-IsCalm (toggle_pressed key) r h =
      press_toggle-IsCalm r (entry_of key r.page.integrations) h
  card_event-IsCalm event r h = ground arith

  settings_event-IsCalm :
      (event : SettingsEvent) (r : SettingsRun)
      → IsCalm r
      → IsCalm (settings_event env parse role event r)
  unfolding settings_event begin_load load_all_start load_all_finish handle_delete_api_key_finish
  settings_event-IsCalm (profile_answered n result) r h =
      end_profile-IsCalm env r result (take_call n r.profiles) (take_call-IsTaken n r.profiles) h
  settings_event-IsCalm (organization_answered n result) r h =
      end_organization-IsCalm r result (take_call n r.organizations)
        (take_call-IsTaken n r.organizations) h
  settings_event-IsCalm (toggle_answered n result) r h =
      end_toggle-IsCalm r result (take_call n r.toggles) h
  settings_event-IsCalm (create_answered n result all) r h =
      end_create-IsCalm r result all (take_call n r.creates) (take_call-IsTaken n r.creates) h
  settings_event-IsCalm refresh_pressed r h = ground arith
  settings_event-IsCalm load_began r h = ground arith
  settings_event-IsCalm (delete_answered n result) r h =
      end_delete-IsCalm r result (take_call n r.deletes) h
  settings_event-IsCalm (load_answered n result) r h =
      end_load-IsCalm r result (take_call n r.loads) h
  settings_event-IsCalm event r h = ground (arith, card_event-IsCalm event r h)

  -- From a page whose flags tell its calls, whatever the user presses and types, and whatever the
  -- backend answers, in any order: saving the profile, saving the organization and creating a key
  -- are each under way at most once, exactly while their flag is set.
  pub settings_events-IsCalm :
      (events : List SettingsEvent) (r : SettingsRun)
      → IsCalm r
      → IsCalm (settings_events env parse role events r)
  unfolding settings_events
  settings_events-IsCalm [] r h = h
  settings_events-IsCalm (event ∷ events) r h =
      settings_events-IsCalm events (settings_event env parse role event r)
        (settings_event-IsCalm event r h)
