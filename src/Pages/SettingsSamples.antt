-- ===== src/Pages/SettingsSamples.antt =====
-- The theorems on the settings page in use, applied to short runs.
use trusyn_ai.Prelude.{
  Text, codes, text_eq, ne_of_text_eq, ◌≡◌, refl, false, none, some, List, [], ◌∷◌, map,
}
use trusyn_ai.Runtime.Value.{blank}
use trusyn_ai.Runtime.Monad.{other, throw, ok}
use trusyn_ai.Types.Account.{org_admin, IntegrationDto}
use trusyn_ai.Pages.Settings.{SettingsPage}
use trusyn_ai.Pages.Settings.Screen.{toggle_button}
use trusyn_ai.Pages.Settings.Run.{
  SettingsRun, SettingsEvent, settings_events, organization_pressed, organization_answered,
  toggle_pressed, toggle_answered,
}
use trusyn_ai.Pages.Settings.Single.{settings_events-IsCalm}
use trusyn_ai.Pages.Settings.Single.{IsCalm as IsCalmSettings}
use trusyn_ai.Pages.Settings.Toggles.{switched, settings_events-toggles}
use trusyn_ai.Pages.RunSamples.{parse, signed_out, denying}

abbrev integration : Text → IntegrationDto
integration key = record { key = key; enabled = false; config = blank }

abbrev slack : IntegrationDto
slack = integration (codes "slack")

abbrev jira : IntegrationDto
jira = integration (codes "jira")

abbrev settings_page : SettingsPage
settings_page = record {
  loading = false;
  refreshing = false;
  error = none;
  success_message = none;
  user = none;
  organization = none;
  integrations = slack ∷ jira ∷ [];
  api_keys = [];
  profile_name = [];
  profile_avatar = [];
  profile_current_password = [];
  profile_new_password = [];
  org_name = codes "Acme ";
  org_description = [];
  org_website = [];
  new_key_name = [];
  new_key_permissions_text = codes "{}";
  created_key = none;
  profile_saving = false;
  org_saving = false;
  integration_saving_key = none;
  api_key_creating = false;
  api_key_deleting = none;
}

abbrev settings_run : SettingsRun
settings_run = record {
  page = settings_page;
  app = signed_out;
  profiles = [];
  organizations = [];
  toggles = [];
  creates = [];
  deletes = [];
  loads = [];
}

abbrev settings_presses : List SettingsEvent
settings_presses =
    organization_pressed
    ∷ organization_pressed
    ∷ organization_answered 0 (throw other)
    ∷ organization_pressed
    ∷ []

settings_run-IsCalm : IsCalmSettings settings_run
settings_run-IsCalm = record { profile = refl; organization = refl; creating = refl }

settings_events-IsCalm_example :
    IsCalmSettings (settings_events denying parse (some org_admin) settings_presses settings_run)
settings_events-IsCalm_example =
    settings_events-IsCalm denying parse (some org_admin) settings_presses settings_run
      settings_run-IsCalm

slack-ne : text_eq (codes "slack") (codes "jira") ≡ false
unfolding text_eq
slack-ne = refl

settings_events-toggles_test :
    let r' =
      settings_events denying parse
        (some org_admin)
        (toggle_pressed (codes "slack")
          ∷ toggle_pressed (codes "jira")
          ∷ toggle_answered 1 (ok slack)
          ∷ [])
        settings_run in
    (map switched r'.toggles ≡ jira ∷ [])
    × ((toggle_button (some org_admin) r'.page.integration_saving_key jira).disabled ≡ false)
unfolding text_eq
settings_events-toggles_test =
    settings_events-toggles denying parse (some org_admin) slack jira (ok slack) settings_run refl
      refl refl refl refl refl (ne_of_text_eq (codes "slack") (codes "jira") slack-ne)
