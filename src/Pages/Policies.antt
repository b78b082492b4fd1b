-- ===== src/Pages/Policies.antt =====
-- frontend/web-app/src/app/pages/PolicyEnginePage.tsx
pub mod Laws
pub mod Screen
pub mod Run
pub mod Single
pub mod Readers
pub mod Removal
pub mod Renewed
use trusyn_ai.Prelude.{
  ℕ, ◌+◌, ◌-◌, Text, text_eq, codes, Bool, true, false, not, ◌||◌, Option, none, some, List, [],
  ◌∷◌, if◌then◌else◌, keep, map, trim, is_empty,
}
use trusyn_ai.Runtime.Value.{Value, Fields, obj, str}
use trusyn_ai.Runtime.Monad.{Exn, Result, ok, throw}
use trusyn_ai.Types.Common.{Decision, review, PaginatedResult}
use trusyn_ai.Types.Account.{UserRole, super_admin, org_admin}
use trusyn_ai.Types.Governance.{PolicyDto}
use trusyn_ai.Pages.Listing.{
  Listing, find_id, first_id, replace_item, without_item, error_message, load_start, load_finish,
}

pub data EnabledFilter : Type 0 where
  all enabled disabled : EnabledFilter

-- the fields of the create form, and of the edit form
pub record PolicyForm : Type 0 where
  pub name : Text
  pub description : Text
  pub action : Decision
  pub enabled : Bool
  pub rule_definition_text : Text

pub record PolicyPage : Type 0 where
  pub list : Listing PolicyDto
  pub enabled_filter : EnabledFilter
  pub saving : Bool
  pub creating : Bool
  pub deleting : Bool
  pub success_message : Option Text
  pub edit : PolicyForm
  pub create : PolicyForm

-- `PolicyCreatePayload`; a description that is `undefined` is left out of the body
pub record PolicyCreatePayload : Type 0 where
  pub name : Text
  pub description : Option Text
  pub rule_definition : Fields
  pub enforcement_action : Decision
  pub enabled : Bool

-- What a handler does until its first `await`: it returns, or it waits for a call.
pub data Started (P : Type 0) : Type 0 where
  returned : PolicyPage → Started P
  waits : PolicyPage → P → Started P

abbrev pub fallback_error : Text
fallback_error = codes "Unable to complete this policy action."

abbrev pub empty_rule_text : Text
empty_rule_text = codes "{\n  \"match\": \"all\",\n  \"conditions\": []\n}"

abbrev pub empty_form : PolicyForm
empty_form = record {
  name = [];
  description = [];
  action = review;
  enabled = true;
  rule_definition_text = empty_rule_text;
}

-- `parseJsonObject`: the fields of an object that is neither null nor an array
abbrev pub object_fields : Option Value → Option Fields
object_fields (some (obj fields)) = some fields
object_fields _ = none

abbrev pub set_error : Text → PolicyPage → PolicyPage
set_error message p = record p { list = record (p.list) { error = some (str message) } }

abbrev pub clear_messages : PolicyPage → PolicyPage
clear_messages p = record p { list = record (p.list) { error = none }; success_message = none }

abbrev pub fail_with : Exn → PolicyPage → PolicyPage
fail_with e p = record p {
  list = record (p.list) { error = some (error_message fallback_error e) };
}

unfoldable pub policy_id : PolicyDto → Text
policy_id policy = policy.id

-- `description.trim() || undefined`
abbrev pub text_or_undefined : Text → Option Text
text_or_undefined [] = none
text_or_undefined (c ∷ s) = some (c ∷ s)

abbrev pub can_manage : Option UserRole → Bool
can_manage none = false
can_manage (some super_admin) = true
can_manage (some org_admin) = true
can_manage (some _) = false

unfoldable pub load_policies_start : Bool → PolicyPage → PolicyPage
load_policies_start refresh p = record p { list = load_start refresh p.list }

unfoldable pub load_policies_finish :
    PolicyPage → Result (PaginatedResult PolicyDto) → PolicyPage → PolicyPage
unfolding policy_id
load_policies_finish closure result p = record p {
  list = load_finish policy_id closure.list.selected_id result fallback_error p.list;
}

unfoldable pub selected_policy : PolicyPage → Option PolicyDto
unfolding policy_id
selected_policy p = find_id policy_id p.list.selected_id p.list.items

-- `env.json_parse` is `parse`. A form that is complete gives the payload of the call.
abbrev pub payload_of : Fields → PolicyForm → PolicyCreatePayload
payload_of rule form = record {
  name = trim form.name;
  description = text_or_undefined (trim form.description);
  rule_definition = rule;
  enforcement_action = form.action;
  enabled = form.enabled;
}

-- the checks of a form, which the create and the save handler share
abbrev pub check_form :
    {P : Type 0} → Option Fields → PolicyForm → PolicyPage → (Fields → Started P) → Started P
check_form none form p k =
    if is_empty (trim form.name)
    then returned (set_error (codes "Policy name is required.") p)
    else returned (set_error (codes "Rule definition must be valid JSON object.") p)
check_form (some rule) form p k =
    if is_empty (trim form.name)
    then returned (set_error (codes "Policy name is required.") p)
    else k rule

module _ (parse : Text → Option Value) where
  unfoldable pub handle_create_policy_start :
      Option UserRole → PolicyPage → Started PolicyCreatePayload
  handle_create_policy_start role p =
      if can_manage role
      then check_form (object_fields (parse p.create.rule_definition_text)) p.create p
          (λ rule. waits (record (clear_messages p) { creating = true }) (payload_of rule p.create))
      else returned p

  unfoldable pub handle_save_policy_start :
      Option UserRole → PolicyPage → Started (Text × PolicyCreatePayload)
  unfolding selected_policy
  handle_save_policy_start role p = elim (selected_policy p) [
    | none ↦ returned p
    | some policy ↦
        if can_manage role
        then check_form (object_fields (parse p.edit.rule_definition_text)) p.edit p (λ rule.
          waits (record (clear_messages p) { saving = true }) (policy.id, payload_of rule p.edit))
        else returned p
  ]

unfoldable pub handle_delete_policy_start : Option UserRole → PolicyPage → Started Text
unfolding selected_policy
handle_delete_policy_start role p = elim (selected_policy p) [
  | none ↦ returned p
  | some policy ↦
      if can_manage role
      then waits (record (clear_messages p) { deleting = true }) policy.id
      else returned p
]

abbrev pub created_in : PolicyDto → PolicyPage → PolicyPage
created_in policy p = record p {
  list = record (p.list) {
    items = policy ∷ p.list.items;
    selected_id = some policy.id;
    total = p.list.total + 1;
  };
  create = empty_form;
  success_message = some (codes "Policy created successfully.");
}

unfoldable pub handle_create_policy_finish : Result PolicyDto → PolicyPage → PolicyPage
handle_create_policy_finish (ok policy) p = record (created_in policy p) { creating = false }
handle_create_policy_finish (throw e) p = record (fail_with e p) { creating = false }

unfoldable pub replace_policy : PolicyDto → List PolicyDto → List PolicyDto
unfolding policy_id
replace_policy updated items = replace_item policy_id updated items

unfoldable pub handle_save_policy_finish : Result PolicyDto → PolicyPage → PolicyPage
unfolding replace_policy
handle_save_policy_finish (ok updated) p = record p {
  list = record (p.list) { items = replace_policy updated p.list.items };
  success_message = some (codes "Policy updated successfully.");
  saving = false;
}
handle_save_policy_finish (throw e) p = record (fail_with e p) { saving = false }

unfoldable pub without_policy : Text → List PolicyDto → List PolicyDto
unfolding policy_id
without_policy id items = without_item policy_id id items

-- The new list is made of the list in the closure, not of that of the state.
unfoldable pub handle_delete_policy_finish :
    PolicyPage → Text → Result (Unit {0}) → PolicyPage → PolicyPage
unfolding without_policy policy_id
handle_delete_policy_finish closure id (ok _) p =
    let next_list = without_policy id closure.list.items in
    record p {
      list = record (p.list) {
        items = next_list;
        selected_id = first_id policy_id next_list;
        total = p.list.total - 1;
      };
      success_message = some (codes "Policy deleted successfully.");
      deleting = false;
    }
handle_delete_policy_finish closure id (throw e) p = record (fail_with e p) { deleting = false }

-- The effect that runs when the selected policy changes.
abbrev pub or_empty : Option Text → Text
or_empty none = []
or_empty (some t) = t

unfoldable pub show_selected : (Fields → Text) → PolicyPage → PolicyPage
unfolding selected_policy
show_selected pretty_json p = elim (selected_policy p) [
  | none ↦ p
  | some policy ↦ record p {
    edit = record {
      name = policy.name;
      description = or_empty policy.description;
      action = policy.enforcement_action;
      enabled = policy.enabled;
      rule_definition_text = pretty_json policy.rule_definition;
    };
  }
]

-- the filter above the list
unfoldable pub change_filter : EnabledFilter → PolicyPage → PolicyPage
change_filter filter p = record p { list = record (p.list) { offset = 0 }; enabled_filter = filter }
