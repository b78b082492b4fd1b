-- ===== src/Admin/Governance/Screen.antt =====
-- frontend/admin_panel/src/app/pages/Governance.tsx, its markup. The texts that the browser makes
-- of dates are a parameter.
use trusyn_ai.Prelude.{
  ℕ, Text, codes, Bool, true, false, Option, none, some, List, [], ◌∷◌, if◌then◌else◌, ◌==◌, map,
  length,
}
use trusyn_ai.Runtime.Value.{Value}
use trusyn_ai.Types.Common.{Decision, allow, block, review, quarantine, rate_limit}
use trusyn_ai.Types.Governance.{PolicyDto}
use trusyn_ai.Types.Reports.{DecisionCount}
use trusyn_ai.Pages.Screen.{Button, plain_button, shown_value}
use trusyn_ai.Pages.Agents.Screen.{or_no_description}
use trusyn_ai.Admin.Screen.{BarColor, green, yellow, red, refresh_button}
use trusyn_ai.Admin.Governance.{
  Governance, PolicyDraft, active_policies, blocked_today, total_enforcements,
  policy_effectiveness_data,
}

-- `===` on the words of the actions
abbrev pub same_action : Decision → Decision → Bool
same_action allow allow = true
same_action block block = true
same_action review review = true
same_action quarantine quarantine = true
same_action rate_limit rate_limit = true
same_action _ _ = false

-- the form, while it is open: its fields, its five buttons of which one is filled, and the last one
pub record DraftPanel : Type 0 where
  pub draft : PolicyDraft
  pub actions : List (Decision × Bool)
  pub submit : Button

abbrev pub action_choice : Decision → Decision → Decision × Bool
action_choice chosen action = (action, same_action chosen action)

unfoldable pub draft_panel : Governance → Option DraftPanel
draft_panel p =
    if p.show_create
    then some (record {
      draft = p.create_draft;
      actions =
          map (action_choice p.create_draft.enforcement_action)
            (allow ∷ block ∷ review ∷ quarantine ∷ rate_limit ∷ []);
      submit =
          plain_button (if p.saving then codes "Creating..." else codes "Create Policy") p.saving;
    })
    else none

pub record GovernanceHead : Type 0 where
  pub refresh : Button
  pub toggle_create : Button
  pub error : Option Value
  pub active_policies : ℕ
  pub policies : ℕ
  pub actions_blocked : ℕ
  pub total_enforcements : ℕ

unfoldable pub governance_head : Governance → GovernanceHead
unfolding active_policies blocked_today total_enforcements
governance_head p = record {
  refresh = refresh_button p.loading;
  toggle_create =
      plain_button (if p.show_create then codes "Close" else codes "Create Policy") false;
  error = shown_value p.error;
  active_policies = active_policies p;
  policies = length p.policies;
  actions_blocked = blocked_today p;
  total_enforcements = total_enforcements p;
}

pub record GovernanceCard : Type 0 where
  pub name : Text
  pub badge : Text
  pub description : Text
  pub toggle : Button
  pub action : Decision
  pub updated : Text

module _ (local_date : Text → Text) where
  abbrev pub governance_card : PolicyDto → GovernanceCard
  governance_card policy = record {
    name = policy.name;
    badge = if policy.enabled then codes "active" else codes "disabled";
    description = or_no_description policy.description;
    toggle = plain_button (if policy.enabled then codes "Disable" else codes "Enable") false;
    action = policy.enforcement_action;
    updated = local_date policy.updated_at;
  }

  unfoldable pub governance_cards : Governance → List GovernanceCard
  governance_cards p = map governance_card p.policies

-- a bar of the statistics: its width is a share, a count and the total, which is 0 of no total
pub record DecisionBar : Type 0 where
  pub label : Decision
  pub count : ℕ
  pub color : BarColor
  pub share : ℕ × ℕ

abbrev pub decision_color : Decision → BarColor
decision_color allow = green
decision_color block = red
decision_color _ = yellow

abbrev pub decision_bar : ℕ → DecisionCount → DecisionBar
decision_bar total item = record {
  label = item.decision;
  count = item.count;
  color = decision_color item.decision;
  share = if total == 0 then (0, 1) else (item.count, total);
}

-- the bars, and the chart of the effectiveness
unfoldable pub enforcement_statistics : Governance → List DecisionBar × List (Text × ℕ)
unfolding total_enforcements policy_effectiveness_data
enforcement_statistics p =
    (map (decision_bar (total_enforcements p)) p.decision_stats, policy_effectiveness_data p)
