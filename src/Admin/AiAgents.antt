-- ===== src/Admin/AiAgents.antt =====
-- frontend/admin_panel/src/app/pages/AIAgents.tsx
pub mod Laws
pub mod Screen
use trusyn_ai.Prelude.{
  ℕ, ◌+◌, ◌-◌, ◌/◌, Text, codes, String, Bool, true, false, ◌||◌, Option, none, some, List, [], ◌∷◌,
  max, if◌then◌else◌, ◌==◌, trim, is_empty, keep, map, length,
}
use trusyn_ai.Runtime.Value.{Value}
use trusyn_ai.Types.Common.{PaginatedResult}
use trusyn_ai.Types.Governance.{AgentDto, AgentStatus, operational, warning, quarantined, blocked}
use trusyn_ai.Admin.Common.{
  Answer, answered, failed, error_text, includes, count_if, sum, round_ratio,
}

pub record AiAgents : Type 0 where
  pub search_term : Text
  pub status_filter : Option AgentStatus
  pub selected_agent : Option AgentDto
  pub agents : List AgentDto
  pub loading : Bool
  pub error : Option Value

pub record TimelinePoint : Type 0 where
  pub time : String
  pub actions : ℕ
  pub risks : ℕ

-- `buildTimeline`, of a whole score: where the score is above 100 the differences are negative,
-- and `Math.max` makes them 0 as the subtraction here does.
unfoldable pub build_timeline : ℕ → List TimelinePoint
build_timeline score =
    let start = max 5 (score / 5) in
    record { time = "T-5"; actions = start - 1; risks = (100 - score) / 25 }
    ∷ record { time = "T-4"; actions = start + 1; risks = (100 - score) / 20 }
    ∷ record { time = "T-3"; actions = start + 2; risks = (100 - score) / 18 }
    ∷ record { time = "T-2"; actions = start + 3; risks = (100 - score) / 16 }
    ∷ record { time = "T-1"; actions = start + 1; risks = (100 - score) / 14 }
    ∷ []

-- the page, and the status that is asked for
unfoldable pub load_agents_start : AiAgents → AiAgents × Option AgentStatus
load_agents_start p = (record p { loading = true; error = none }, p.status_filter)

unfoldable pub load_agents_finish : Answer (PaginatedResult AgentDto) → AiAgents → AiAgents
load_agents_finish (answered page) p = record p { agents = page.items; loading = false }
load_agents_finish (failed message) p = record p {
  error = some (error_text (codes "Unable to load agents") message);
  loading = false;
}

-- the filter, with the effect that loads again
unfoldable pub change_status_filter : Option AgentStatus → AiAgents → AiAgents × Option AgentStatus
unfolding load_agents_start
change_status_filter status p = load_agents_start (record p { status_filter = status })

abbrev pub change_search_term : Text → AiAgents → AiAgents
change_search_term text p = record p { search_term = text }

abbrev pub select_agent : Option AgentDto → AiAgents → AiAgents
select_agent agent p = record p { selected_agent = agent }

module _ (to_lower_case : Text → Text) where
  abbrev pub matches : Text → AgentDto → Bool
  matches needle agent =
      includes needle (to_lower_case agent.name)
      || includes needle (to_lower_case agent.organization_id)

  unfoldable pub filtered_agents : AiAgents → List AgentDto
  filtered_agents p =
      let needle = to_lower_case (trim p.search_term) in
      if is_empty needle then p.agents else keep (matches needle) p.agents

abbrev pub is_status : AgentStatus → AgentStatus → Bool
is_status operational operational = true
is_status warning warning = true
is_status quarantined quarantined = true
is_status blocked blocked = true
is_status _ _ = false

-- `operationalCount` and its three fellows
unfoldable pub status_count : AgentStatus → AiAgents → ℕ
status_count status p = count_if (λ (a : AgentDto). is_status status a.status) p.agents

unfoldable pub avg_trust_score : AiAgents → ℕ
avg_trust_score p =
    if length p.agents == 0
    then 0
    else round_ratio (sum (map (λ (a : AgentDto). a.trust_score) p.agents)) (length p.agents)
