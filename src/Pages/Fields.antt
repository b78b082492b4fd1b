-- ===== src/Pages/Fields.antt =====
-- The fields and filters of the pages of frontend/web-app/src/app/pages: what the controls of
-- ThreatCenterPage.tsx, AgentsPage.tsx, PolicyEnginePage.tsx, SettingsPage.tsx and LoginPage.tsx
-- set. A new filter goes back to the first page.
use trusyn_ai.Prelude.{Text, codes, Bool, not, Option, some}
use trusyn_ai.Types.Common.{Severity, Decision}
use trusyn_ai.Types.Governance.{AgentStatus}
use trusyn_ai.Pages.Threats.{ThreatPage}
use trusyn_ai.Pages.Agents.{AgentPage}
use trusyn_ai.Pages.Policies.{PolicyPage, PolicyForm}
use trusyn_ai.Pages.Settings.{SettingsPage}
use trusyn_ai.Pages.Login.{LoginPage}

unfoldable pub pick_severity : Option Severity → ThreatPage → ThreatPage
pick_severity severity p = record p {
  list = record (p.list) { offset = 0 };
  severity_filter = severity;
}

module _ {N : Type 0} where
  unfoldable pub pick_status : Option AgentStatus → AgentPage N → AgentPage N
  pick_status status p = record p { list = record (p.list) { offset = 0 }; status_filter = status }

  abbrev pub choose_agent : Text → AgentPage N → AgentPage N
  choose_agent id p = record p { list = record (p.list) { selected_id = some id } }

  abbrev pub type_agent_name : Text → AgentPage N → AgentPage N
  type_agent_name name p = record p { edit = record (p.edit) { name = name } }

  abbrev pub pick_agent_status : AgentStatus → AgentPage N → AgentPage N
  pick_agent_status status p = record p { edit = record (p.edit) { status = status } }

  abbrev pub type_agent_description : Text → AgentPage N → AgentPage N
  type_agent_description text p = record p { edit = record (p.edit) { description = text } }

  -- `score` is what `Number` makes of the text of the field, which may be no number
  abbrev pub type_trust_score : N → AgentPage N → AgentPage N
  type_trust_score score p = record p { edit = record (p.edit) { trust_score = score } }

abbrev pub choose_policy : Text → PolicyPage → PolicyPage
choose_policy id p = record p { list = record (p.list) { selected_id = some id } }

-- the controls of the two forms, which are the same
pub data FormInput : Type 0 where
  form_name form_description form_rule : Text → FormInput
  form_action : Decision → FormInput
  form_enabled : Bool → FormInput

unfoldable pub fill_form : FormInput → PolicyForm → PolicyForm
fill_form (form_name text) form = record form { name = text }
fill_form (form_description text) form = record form { description = text }
fill_form (form_rule text) form = record form { rule_definition_text = text }
fill_form (form_action action) form = record form { action = action }
fill_form (form_enabled enabled) form = record form { enabled = enabled }

abbrev pub fill_create : FormInput → PolicyPage → PolicyPage
fill_create input p = record p { create = fill_form input p.create }

abbrev pub fill_edit : FormInput → PolicyPage → PolicyPage
fill_edit input p = record p { edit = fill_form input p.edit }

pub data SettingsField : Type 0 where
  profile_name profile_avatar profile_current_password profile_new_password : SettingsField
  org_name org_description org_website : SettingsField
  new_key_name new_key_permissions_text : SettingsField

unfoldable pub fill_settings : SettingsField → Text → SettingsPage → SettingsPage
fill_settings profile_name text p = record p { profile_name = text }
fill_settings profile_avatar text p = record p { profile_avatar = text }
fill_settings profile_current_password text p = record p { profile_current_password = text }
fill_settings profile_new_password text p = record p { profile_new_password = text }
fill_settings org_name text p = record p { org_name = text }
fill_settings org_description text p = record p { org_description = text }
fill_settings org_website text p = record p { org_website = text }
fill_settings new_key_name text p = record p { new_key_name = text }
fill_settings new_key_permissions_text text p = record p { new_key_permissions_text = text }

-- once the clipboard has the key
abbrev pub key_copied : SettingsPage → SettingsPage
key_copied p = record p { success_message = some (codes "API key copied to clipboard.") }

abbrev pub type_email : Text → LoginPage → LoginPage
type_email text p = record p { email = text }

abbrev pub type_password : Text → LoginPage → LoginPage
type_password text p = record p { password = text }

abbrev pub toggle_show_password : LoginPage → LoginPage
toggle_show_password p = record p { show_password = not (p.show_password) }

abbrev pub set_forgot_open : Bool → LoginPage → LoginPage
set_forgot_open opened p = record p { forgot_open = opened }
