-- ===== src/Pages/Policies/Screen.antt =====
-- frontend/web-app/src/app/pages/PolicyEnginePage.tsx, its markup
use trusyn_ai.Prelude.{
  ℕ, Text, codes, Bool, not, ◌||◌, Option, none, some, List, [], ◌∷◌, if◌then◌else◌, length, keep,
}
use trusyn_ai.Types.Common.{Decision, allow, block, review, quarantine, rate_limit}
use trusyn_ai.Types.Account.{UserRole}
use trusyn_ai.Types.Governance.{PolicyDto}
use trusyn_ai.Pages.Listing.{is_id}
use trusyn_ai.Pages.Screen.{
  Button, Banner, banner, Body, list_body, Pager, pager, Refresh, refresh_control,
}
use trusyn_ai.Pages.Policies.{PolicyPage, PolicyForm, EnabledFilter, can_manage, selected_policy}

-- the top of the page: the button, the messages and the three figures
pub record PolicyHead : Type 0 where
  pub refresh : Refresh
  pub messages : Banner
  pub total_policies : ℕ
  pub enabled_policies : ℕ
  pub page_size : ℕ

unfoldable pub enabled_count : List PolicyDto → ℕ
enabled_count policies = length (keep (λ (policy : PolicyDto). policy.enabled) policies)

unfoldable pub policy_head : PolicyPage → PolicyHead
unfolding enabled_count
policy_head p = record {
  refresh = refresh_control p.list.refreshing;
  messages = banner p.list.error p.success_message;
  total_policies = p.list.total;
  enabled_policies = enabled_count p.list.items;
  page_size = length p.list.items;
}

pub record PolicyRow : Type 0 where
  pub id : Text
  pub highlighted : Bool
  pub name : Text
  pub badge : Text
  pub action : Decision

abbrev pub enabled_badge : Bool → Text
enabled_badge enabled = if enabled then codes "ENABLED" else codes "DISABLED"

abbrev pub policy_row : Option Text → PolicyDto → PolicyRow
policy_row selected_id policy = record {
  id = policy.id;
  highlighted = is_id selected_id policy.id;
  name = policy.name;
  badge = enabled_badge policy.enabled;
  action = policy.enforcement_action;
}

-- the list, with the filter above it and the pager below
pub record PolicyList : Type 0 where
  pub filter : EnabledFilter
  pub body : Body PolicyRow
  pub paging : Pager

unfoldable pub policy_list : PolicyPage → PolicyList
unfolding list_body pager
policy_list p = record {
  filter = p.enabled_filter;
  body =
      list_body (codes "Loading policies...") (codes "No policies found.")
        (policy_row p.list.selected_id) p.list.loading p.list.items;
  paging = pager p.list;
}

-- a button that only a manager may press, while its action is not under way
abbrev pub action_button : Text → Text → Option UserRole → Bool → Button
action_button label busy_label role busy = record {
  label = if busy then busy_label else label;
  disabled = not (can_manage role) || busy;
  dimmed = not (can_manage role);
}

-- the form of a new policy: its fields and its button
pub record CreatePanel : Type 0 where
  pub fields : PolicyForm
  pub submit : Button

unfoldable pub create_panel : Option UserRole → PolicyPage → CreatePanel
create_panel role p = record {
  fields = p.create;
  submit = action_button (codes "Create Policy") (codes "Creating...") role p.creating;
}

-- the panel of the selected policy: a hint, or its form with two buttons
pub data EditPanel : Type 0 where
  hint : Text → EditPanel
  editor : PolicyForm → Button → Button → EditPanel

abbrev pub save_button : Option UserRole → PolicyPage → Button
save_button role p = action_button (codes "Save Changes") (codes "Saving...") role p.saving

abbrev pub delete_button : Option UserRole → PolicyPage → Button
delete_button role p = action_button (codes "Delete Policy") (codes "Deleting...") role p.deleting

abbrev pub edit_panel_of : Option UserRole → PolicyPage → Option PolicyDto → EditPanel
edit_panel_of role p none = hint (codes "Select a policy to edit.")
edit_panel_of role p (some policy) = editor p.edit (save_button role p) (delete_button role p)

unfoldable pub edit_panel : Option UserRole → PolicyPage → EditPanel
unfolding selected_policy
edit_panel role p = edit_panel_of role p (selected_policy p)

-- the actions `enforcementOptions`, in the two selects
abbrev pub enforcement_options : List Decision
enforcement_options = allow ∷ block ∷ review ∷ quarantine ∷ rate_limit ∷ []
