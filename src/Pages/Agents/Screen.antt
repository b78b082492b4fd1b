-- ===== src/Pages/Agents/Screen.antt =====
-- frontend/web-app/src/app/pages/AgentsPage.tsx, its markup. The texts that the browser makes of
-- dates are a parameter, as is JSON.stringify.
use trusyn_ai.Prelude.{
  ℕ, Text, codes, Bool, true, false, not, ◌||◌, Option, none, some, List, [], ◌∷◌, if◌then◌else◌,
  ◌+◌, ◌≡◌, arith, length, keep,
}
use trusyn_ai.Runtime.Value.{Fields}
use trusyn_ai.Types.Account.{UserRole}
use trusyn_ai.Types.Governance.{AgentDto, AgentStatus, warning, quarantined, blocked}
use trusyn_ai.Pages.Listing.{is_id}
use trusyn_ai.Pages.Policies.{can_manage}
use trusyn_ai.Pages.Screen.{
  Button, plain_button, Banner, banner, Body, list_body, Pager, pager, Refresh, refresh_control,
}
use trusyn_ai.Pages.Agents.{
  AgentPage, AgentForm, Numbers, is_operational, selected_agent, active_agents_count,
  clamp_trust_score,
}

-- the top of the page: the button, the messages and the four figures
pub record AgentHead : Type 0 where
  pub refresh : Refresh
  pub messages : Banner
  pub total_agents : ℕ
  pub operational : ℕ
  pub warnings : ℕ
  pub held_back : ℕ

abbrev pub is_warning : AgentStatus → Bool
is_warning warning = true
is_warning _ = false

abbrev pub is_held_back : AgentStatus → Bool
is_held_back quarantined = true
is_held_back blocked = true
is_held_back _ = false

abbrev pub count_agents : (AgentStatus → Bool) → List AgentDto → ℕ
count_agents test agents = length (keep (λ (agent : AgentDto). test agent.status) agents)

pub record AgentRow : Type 0 where
  pub id : Text
  pub highlighted : Bool
  pub name : Text
  pub status : AgentStatus
  pub healthy : Bool
  pub description : Text
  pub trust_bar : ℕ

-- `agent.description || 'No description'`
abbrev pub or_no_description : Option Text → Text
or_no_description (some (c ∷ s)) = c ∷ s
or_no_description _ = codes "No description"

abbrev pub agent_row : Option Text → AgentDto → AgentRow
agent_row selected_id agent = record {
  id = agent.id;
  highlighted = is_id selected_id agent.id;
  name = agent.name;
  status = agent.status;
  healthy = is_operational agent.status;
  description = or_no_description agent.description;
  trust_bar = agent.trust_score;
}

pub record AgentList : Type 0 where
  pub filter : Option AgentStatus
  pub body : Body AgentRow
  pub paging : Pager

-- the selected agent with its form; `trust_score` is both the label and the place of the slider
pub record AgentDetail (N : Type 0) : Type 0 where
  pub name : Text
  pub id : Text
  pub last_active : Text
  pub fields : AgentForm N
  pub trust_score : N
  pub permissions : Text
  pub metadata : Text
  pub save : Button
  pub delete : Button

pub data AgentPanel (N : Type 0) : Type 0 where
  hint : Text → AgentPanel N
  detail : AgentDetail N → AgentPanel N

-- `date ? toLocaleString(date) : otherwise`; the empty text is no date
abbrev pub local_date_or : (Text → Text) → Text → Option Text → Text
local_date_or local_date otherwise (some (c ∷ s)) = local_date (c ∷ s)
local_date_or local_date otherwise _ = otherwise

module _ {N : Type 0} where
  unfoldable pub agent_head : AgentPage N → AgentHead
  unfolding active_agents_count
  agent_head p = record {
    refresh = refresh_control p.list.refreshing;
    messages = banner p.list.error p.success_message;
    total_agents = p.list.total;
    operational = active_agents_count p;
    warnings = count_agents is_warning p.list.items;
    held_back = count_agents is_held_back p.list.items;
  }

  unfoldable pub agent_list : AgentPage N → AgentList
  unfolding list_body pager
  agent_list p = record {
    filter = p.status_filter;
    body =
        list_body (codes "Loading agents...") (codes "No agents found for current filter.")
          (agent_row p.list.selected_id) p.list.loading p.list.items;
    paging = pager p.list;
  }

  abbrev pub save_button : AgentPage N → Button
  save_button p =
      plain_button (if p.saving then codes "Saving..." else codes "Save Changes") p.saving

  abbrev pub delete_button : Option UserRole → AgentPage N → Button
  delete_button role p = record {
    label = if p.deleting then codes "Deleting..." else codes "Delete Agent";
    disabled = not (can_manage role) || p.deleting;
    dimmed = not (can_manage role);
  }

  module _ (numbers : Numbers N) (pretty_json : Fields → Text) (local_date : Text → Text) where
    abbrev pub agent_panel_of : Option UserRole → AgentPage N → Option AgentDto → AgentPanel N
    agent_panel_of role p none = hint (codes "Select an agent to view details.")
    agent_panel_of role p (some agent) = detail (record {
      name = agent.name;
      id = agent.id;
      last_active = local_date_or local_date (codes "N/A") agent.last_active_at;
      fields = p.edit;
      trust_score = clamp_trust_score numbers p.edit.trust_score;
      permissions = pretty_json agent.permissions;
      metadata = pretty_json agent.metadata;
      save = save_button p;
      delete = delete_button role p;
    })

    unfoldable pub agent_panel : Option UserRole → AgentPage N → AgentPanel N
    unfolding selected_agent clamp_trust_score
    agent_panel role p = agent_panel_of role p (selected_agent p)

-- The counts of the statuses of some agents: every agent is counted once.
count_agents-add :
    (agents : List AgentDto)
    → count_agents is_operational agents
        + count_agents is_warning agents
        + count_agents is_held_back agents
      ≡ length agents
count_agents-add [] = omega arith
count_agents-add (agent ∷ agents) = ground (arith, count_agents-add agents)

-- The figures of the agents page: the operational, the warned and the held back agents are together
-- the agents that are listed.
pub agent_head-counts :
    {N : Type 0} (p : AgentPage N)
    → (agent_head p).operational + (agent_head p).warnings + (agent_head p).held_back
      ≡ length p.list.items
unfolding agent_head active_agents_count
agent_head-counts p = count_agents-add p.list.items
