-- ===== src/Admin/Governance.antt =====
-- frontend/admin_panel/src/app/pages/Governance.tsx
pub mod Laws
pub mod Screen
use trusyn_ai.Prelude.{
  ℕ, ◌+◌, Text, codes, Bool, true, false, not, Option, none, some, List, [], ◌∷◌, ◌++◌,
  if◌then◌else◌, map, find, length, take, trim, is_empty, ltb,
}
use trusyn_ai.Runtime.Value.{Value, Fields, str, arr, obj, blank, field, bare, element}
use trusyn_ai.Types.Common.{Decision, allow, block, review, quarantine, rate_limit, PaginatedResult}
use trusyn_ai.Types.Governance.{PolicyDto}
use trusyn_ai.Types.Reports.{DecisionCount}
use trusyn_ai.Pages.Policies.{PolicyCreatePayload, text_or_undefined}
use trusyn_ai.Admin.Common.{Answer, answered, failed, error_text, count_if, sum}

-- `DEFAULT_RULE`
abbrev pub default_rule : Fields
default_rule =
    field "conditions"
      (arr (
        element
          (obj (
            field "field" (str (codes "target"))
              (field "op" (str (codes "eq")) (field "value" (str (codes "external")) blank))))
          bare))
      (field "match" (str (codes "all")) blank)

pub record PolicyDraft : Type 0 where
  pub name : Text
  pub description : Text
  pub enforcement_action : Decision

abbrev pub empty_draft : PolicyDraft
empty_draft = record { name = []; description = []; enforcement_action = block }

pub record Governance : Type 0 where
  pub policies : List PolicyDto
  pub decision_stats : List DecisionCount
  pub loading : Bool
  pub error : Option Value
  pub show_create : Bool
  pub saving : Bool
  pub create_draft : PolicyDraft

-- what both requests of `load` give: a page of policies, and the items of the distribution
abbrev pub Loaded : Type 0
Loaded = PaginatedResult PolicyDto × List DecisionCount

unfoldable pub load_start : Governance → Governance
load_start p = record p { loading = true; error = none }

unfoldable pub load_finish : Answer Loaded → Governance → Governance
load_finish (answered (page, stats)) p = record p {
  policies = page.items;
  decision_stats = stats;
  loading = false;
}
load_finish (failed message) p = record p {
  error = some (error_text (codes "Unable to load governance data") message);
  loading = false;
}

-- the id and the body that `togglePolicy` sends
unfoldable pub toggle_policy_start : PolicyDto → Text × Bool
toggle_policy_start policy = (policy.id, not policy.enabled)

-- the rest of `togglePolicy`, where nothing happens while it waits: it loads again, or it fails
unfoldable pub toggle_policy_finish : Answer (Unit {0}) → Answer Loaded → Governance → Governance
unfolding load_start load_finish
toggle_policy_finish (answered _) loaded p = load_finish loaded (load_start p)
toggle_policy_finish (failed message) loaded p = record p {
  error = some (error_text (codes "Unable to update policy") message);
}

unfoldable pub create_policy_start : Governance → Governance × Option PolicyCreatePayload
create_policy_start p =
    if is_empty (trim p.create_draft.name)
    then (record p { error = some (str (codes "Policy name is required.")) }, none)
    else (
      record p { saving = true; error = none },
      some (record {
        name = trim p.create_draft.name;
        description = text_or_undefined (trim p.create_draft.description);
        rule_definition = default_rule;
        enforcement_action = p.create_draft.enforcement_action;
        enabled = true;
      }),
    )

-- the rest of `createPolicy`, where nothing else happens while it waits
unfoldable pub create_policy_finish : Answer PolicyDto → Answer Loaded → Governance → Governance
unfolding load_start load_finish
create_policy_finish (answered policy) loaded p =
    let closed = record p { create_draft = empty_draft; show_create = false } in
    record (load_finish loaded (load_start closed)) { saving = false }
create_policy_finish (failed message) loaded p = record p {
  error = some (error_text (codes "Unable to create policy") message);
  saving = false;
}

unfoldable pub active_policies : Governance → ℕ
active_policies p = count_if (λ (policy : PolicyDto). policy.enabled) p.policies

abbrev pub is_block : Decision → Bool
is_block block = true
is_block _ = false

abbrev pub count_or_zero : Option DecisionCount → ℕ
count_or_zero none = 0
count_or_zero (some item) = item.count

unfoldable pub blocked_today : Governance → ℕ
blocked_today p =
    count_or_zero (find (λ (item : DecisionCount). is_block item.decision) p.decision_stats)

unfoldable pub total_enforcements : Governance → ℕ
total_enforcements p = sum (map (λ (item : DecisionCount). item.count) p.decision_stats)

-- a bar of `policyEffectivenessData`: a long name is cut
abbrev pub effectiveness_bar : PolicyDto → Text × ℕ
effectiveness_bar policy = (
  if ltb 18 (length policy.name) then take 18 policy.name ++ codes "..." else policy.name,
  if policy.enabled then 95 else 20,
)

unfoldable pub policy_effectiveness_data : Governance → List (Text × ℕ)
policy_effectiveness_data p = map effectiveness_bar (take 8 p.policies)

-- the button that opens and closes the form, and its three fields
abbrev pub toggle_create : Governance → Governance
toggle_create p = record p { show_create = not p.show_create }

abbrev pub change_draft : PolicyDraft → Governance → Governance
change_draft draft p = record p { create_draft = draft }
