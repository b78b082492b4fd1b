-- ===== src/Admin/AiAgents/Screen.antt =====
-- frontend/admin_panel/src/app/pages/AIAgents.tsx, its markup. The time since a date is a
-- parameter.
use trusyn_ai.Prelude.{ℕ, Text, codes, Option, none, some, List, ◌∷◌, map}
use trusyn_ai.Runtime.Value.{Value}
use trusyn_ai.Types.Governance.{AgentDto, AgentStatus, operational, warning, quarantined, blocked}
use trusyn_ai.Pages.Format.{Age, Elapsed, normalize_agent_status}
use trusyn_ai.Pages.Screen.{Button, shown_value}
use trusyn_ai.Admin.Screen.{BarColor, refresh_button, trust_color, last_active}
use trusyn_ai.Admin.AiAgents.{
  AiAgents, TimelinePoint, status_count, avg_trust_score, filtered_agents, build_timeline,
}

pub record AgentsHead : Type 0 where
  pub refresh : Button
  pub error : Option Value
  pub operational : ℕ
  pub warning : ℕ
  pub quarantined : ℕ
  pub blocked : ℕ
  pub avg_trust_score : ℕ
  pub search_term : Text
  pub status_filter : Option AgentStatus

unfoldable pub agents_head : AiAgents → AgentsHead
unfolding status_count avg_trust_score
agents_head p = record {
  refresh = refresh_button p.loading;
  error = shown_value p.error;
  operational = status_count operational p;
  warning = status_count warning p;
  quarantined = status_count quarantined p;
  blocked = status_count blocked p;
  avg_trust_score = avg_trust_score p;
  search_term = p.search_term;
  status_filter = p.status_filter;
}

-- a row of the table; `last_active` is none for "No recent activity"
pub record AgentTableRow : Type 0 where
  pub name : Text
  pub id : Text
  pub organization_id : Text
  pub status : Text
  pub trust_score : ℕ
  pub trust_color : BarColor
  pub last_active : Option Age

pub record AgentProfile : Type 0 where
  pub name : Text
  pub organization_id : Text
  pub trust_score : ℕ
  pub status : Text
  pub description : Text
  pub curve : List TimelinePoint

-- `description || 'No description provided.'`
abbrev pub or_none_provided : Option Text → Text
or_none_provided (some (c ∷ s)) = c ∷ s
or_none_provided _ = codes "No description provided."

-- the dialog of the agent that is selected
abbrev pub profile_of : Option AgentDto → Option AgentProfile
profile_of none = none
profile_of (some agent) = some (record {
  name = agent.name;
  organization_id = agent.organization_id;
  trust_score = agent.trust_score;
  status = normalize_agent_status agent.status;
  description = or_none_provided agent.description;
  curve = build_timeline agent.trust_score;
})

unfoldable pub agent_profile : AiAgents → Option AgentProfile
unfolding normalize_agent_status build_timeline
agent_profile p = profile_of p.selected_agent

module _ (to_lower_case : Text → Text) (since : Text → Elapsed) where
  abbrev pub agent_table_row : AgentDto → AgentTableRow
  agent_table_row agent = record {
    name = agent.name;
    id = agent.id;
    organization_id = agent.organization_id;
    status = normalize_agent_status agent.status;
    trust_score = agent.trust_score;
    trust_color = trust_color agent.trust_score;
    last_active = last_active since agent.last_active_at;
  }

  unfoldable pub agent_table : AiAgents → List AgentTableRow
  unfolding filtered_agents normalize_agent_status trust_color last_active
  agent_table p = map agent_table_row (filtered_agents to_lower_case p)
