-- ===== src/Admin/Settings.antt =====
-- frontend/admin_panel/src/app/pages/Settings.tsx. A handler that waits is a function before its
-- call, which says what it sends, and one after it.
pub mod Changes
pub mod Timers
pub mod Laws
pub mod Screen
use trusyn_ai.Prelude.{
  ℕ, ◌+◌, ◌-◌, Text, text_eq, codes, Bool, true, false, not, Option, none, some, List, [], ◌∷◌,
  if◌then◌else◌, map, keep, trim, is_empty,
}
use trusyn_ai.Runtime.Value.{Value, Fields, blank, field, str}
use trusyn_ai.Types.Account.{
  UserDto, OrganizationDto, IntegrationDto, ApiKeyItemDto, ApiKeyCreateResponseDto,
}
use trusyn_ai.Admin.Common.{Answer, answered, failed, error_text}
use trusyn_ai.Admin.Organizations.{or_undefined}

pub data SaveState : Type 0 where
  idle saving saved save_error : SaveState

pub record ProfileDraft : Type 0 where
  pub full_name : Text
  pub avatar_url : Text
  pub preferences : Text

pub record OrganizationDraft : Type 0 where
  pub name : Text
  pub slug : Text
  pub description : Text
  pub website : Text
  pub settings : Text

-- `timers` counts the calls of `resetSaveState` whose timeout has not come yet.
pub record AdminSettings : Type 0 where
  pub user : Option UserDto
  pub organization : Option OrganizationDto
  pub integrations : List IntegrationDto
  pub api_keys : List ApiKeyItemDto
  pub new_api_key_name : Text
  pub created_key : Option Text
  pub loading : Bool
  pub error : Option Value
  pub save_state : SaveState
  pub timers : ℕ
  pub profile_draft : ProfileDraft
  pub organization_draft : OrganizationDraft

-- the four answers of `Promise.all`
pub record SettingsAnswers : Type 0 where
  pub current_user : UserDto
  pub current_org : OrganizationDto
  pub integration_rows : List IntegrationDto
  pub api_key_rows : List ApiKeyItemDto

-- `avatar_url` is null or a text in the body
pub record UserUpdate : Type 0 where
  pub full_name : Text
  pub avatar_url : Option Text
  pub preferences : Value

pub record OrganizationUpdate : Type 0 where
  pub name : Text
  pub slug : Text
  pub description : Option Text
  pub website : Option Text
  pub settings : Value

unfoldable pub load_settings_start : AdminSettings → AdminSettings
load_settings_start p = record p { loading = true; error = none }

-- `draft || '{}'`, `text ?? ''` and `fields ?? {}`
abbrev pub or_braces : Text → Text
or_braces draft = if is_empty draft then codes "{}" else draft

abbrev pub or_blank : Option Text → Text
or_blank none = []
or_blank (some t) = t

abbrev pub or_no_fields : Option Fields → Fields
or_no_fields none = blank
or_no_fields (some fields) = fields

-- `pretty` is `JSON.stringify` with an indentation of two
module _ (pretty : Fields → Text) where
  unfoldable pub load_settings_finish : Answer SettingsAnswers → AdminSettings → AdminSettings
  load_settings_finish (answered a) p = record p {
    user = some (a.current_user);
    organization = some (a.current_org);
    integrations = a.integration_rows;
    api_keys = a.api_key_rows;
    profile_draft = record {
      full_name = a.current_user.full_name;
      avatar_url = or_blank a.current_user.avatar_url;
      preferences = pretty (or_no_fields a.current_user.preferences);
    };
    organization_draft = record {
      name = a.current_org.name;
      slug = a.current_org.slug;
      description = or_blank a.current_org.description;
      website = or_blank a.current_org.website;
      settings = pretty (or_no_fields a.current_org.settings);
    };
    loading = false;
  }
  load_settings_finish (failed message) p = record p {
    error = some (error_text (codes "Unable to load settings") message);
    loading = false;
  }

abbrev start_save : AdminSettings → AdminSettings
start_save p = record p { save_state = saving; error = none }

-- the end of a save that throws, with a new timer
unfoldable pub save_fails : Text → Option Value → AdminSettings → AdminSettings
save_fails fallback message p = record p {
  save_state = save_error;
  error = some (error_text fallback message);
  timers = p.timers + 1;
}

-- The two saves once their draft is parsed: what is sent, or what was thrown.
unfoldable pub profile_parsed : Answer Value → AdminSettings → AdminSettings × Option UserUpdate
unfolding save_fails
profile_parsed (answered preferences) p = (
  start_save p,
  some (record {
    full_name = p.profile_draft.full_name;
    avatar_url = or_undefined p.profile_draft.avatar_url;
    preferences = preferences;
  }),
)
profile_parsed (failed message) p =
    (save_fails (codes "Unable to save profile changes") message (start_save p), none)

unfoldable pub organization_parsed :
    Answer Value → AdminSettings → AdminSettings × Option OrganizationUpdate
unfolding save_fails
organization_parsed (answered settings) p = (
  start_save p,
  some (record {
    name = p.organization_draft.name;
    slug = p.organization_draft.slug;
    description = or_undefined p.organization_draft.description;
    website = or_undefined p.organization_draft.website;
    settings = settings;
  }),
)
organization_parsed (failed message) p =
    (save_fails (codes "Unable to save organization settings") message (start_save p), none)

-- What a save does until its call; `parse` is `JSON.parse`, which fails with a message.
module _ (parse : Text → Answer Value) where
  unfoldable pub save_profile_start : AdminSettings → AdminSettings × Option UserUpdate
  unfolding profile_parsed
  save_profile_start p = profile_parsed (parse (or_braces p.profile_draft.preferences)) p

  unfoldable pub save_organization_start : AdminSettings → AdminSettings × Option OrganizationUpdate
  unfolding organization_parsed
  save_organization_start p =
      organization_parsed (parse (or_braces p.organization_draft.settings)) p

unfoldable pub save_profile_finish : Answer UserDto → AdminSettings → AdminSettings
unfolding save_fails
save_profile_finish (answered updated) p = record p {
  user = some updated;
  save_state = saved;
  timers = p.timers + 1;
}
save_profile_finish (failed message) p =
    save_fails (codes "Unable to save profile changes") message p

unfoldable pub save_organization_finish : Answer OrganizationDto → AdminSettings → AdminSettings
unfolding save_fails
save_organization_finish (answered updated) p = record p {
  organization = some updated;
  save_state = saved;
  timers = p.timers + 1;
}
save_organization_finish (failed message) p =
    save_fails (codes "Unable to save organization settings") message p

-- a timeout of `resetSaveState` comes: no call clears one
unfoldable pub reset_save_state : AdminSettings → AdminSettings
reset_save_state p = record p { save_state = idle; timers = p.timers - 1 }

unfoldable pub save_indicator : SaveState → Option Text
save_indicator saving = some (codes "Saving...")
save_indicator saved = some (codes "Saved")
save_indicator save_error = some (codes "Save failed")
save_indicator idle = none
