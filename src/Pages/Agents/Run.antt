-- ===== src/Pages/Agents/Run.antt =====
-- The agents page of frontend/web-app/src/app/pages/AgentsPage.tsx while it is used: what the user
-- presses, types and picks, the loads of its effect, and the answers of the backend, in any order.
-- A button does nothing while it is disabled. A call that is under way is kept with what its
-- handler goes on with.
use trusyn_ai.Prelude.{ℕ, Text, Bool, true, false, Option, none, some, List, [], ◌∷◌, if◌then◌else◌}
use trusyn_ai.Runtime.Monad.{Result}
use trusyn_ai.Types.Common.{PaginatedResult}
use trusyn_ai.Types.Account.{UserRole}
use trusyn_ai.Types.Governance.{AgentDto, AgentStatus}
use trusyn_ai.Pages.Listing.{prev_page, next_page}
use trusyn_ai.Pages.Screen.Calls.{take_call}
use trusyn_ai.Pages.Fields.{
  pick_status, choose_agent, type_agent_name, pick_agent_status, type_agent_description,
  type_trust_score,
}
use trusyn_ai.Pages.Agents.{
  Numbers, AgentPage, AgentUpdate, handle_save_start, handle_save_finish, handle_delete_start,
  handle_delete_finish, load_agents_start, load_agents_finish, show_agent,
}
use trusyn_ai.Pages.Agents.Screen.{save_button, delete_button}

-- the page and its calls; a deletion and a load keep the page that their handler was made with
pub record AgentRun (N : Type 0) : Type 0 where
  pub page : AgentPage N
  pub saves : List (Text × AgentUpdate N)
  pub deletes : List (AgentPage N × Text)
  pub loads : List (AgentPage N)

pub data AgentEvent (N : Type 0) : Type 0 where
  save_pressed delete_pressed refresh_pressed prev_pressed next_pressed : AgentEvent N
  load_began agent_shown : AgentEvent N
  save_answered : ℕ → Result AgentDto → AgentEvent N
  delete_answered : ℕ → Result (Unit {0}) → AgentEvent N
  load_answered : ℕ → Result (PaginatedResult AgentDto) → AgentEvent N
  agent_chosen name_typed description_typed : Text → AgentEvent N
  status_filtered : Option AgentStatus → AgentEvent N
  status_picked : AgentStatus → AgentEvent N
  trust_score_typed : N → AgentEvent N

module _ {N : Type 0} where
  abbrev pub set_page : AgentRun N → AgentPage N → AgentRun N
  set_page r p = record r { page = p }

  abbrev pub begin_save : AgentRun N → AgentPage N × Option (Text × AgentUpdate N) → AgentRun N
  begin_save r (p, none) = set_page r p
  begin_save r (p, some x) = record r { page = p; saves = x ∷ r.saves }

  -- the closure of a deletion is the page whose button was pressed
  abbrev pub begin_delete : AgentRun N → AgentPage N × Option Text → AgentRun N
  begin_delete r (p, none) = set_page r p
  begin_delete r (p, some id) = record r { page = p; deletes = (r.page, id) ∷ r.deletes }

  unfoldable pub begin_load : Bool → AgentRun N → AgentRun N
  unfolding load_agents_start
  begin_load refresh r = record r {
    page = load_agents_start refresh r.page;
    loads = r.page ∷ r.loads;
  }

  -- the answers, to a call that is under way
  abbrev pub end_save :
      AgentRun N
      → Result AgentDto
      → Option ((Text × AgentUpdate N) × List (Text × AgentUpdate N))
      → AgentRun N
  end_save r result none = r
  end_save r result (some (x, rest)) = record r {
    page = handle_save_finish result r.page;
    saves = rest;
  }

  abbrev pub end_delete :
      AgentRun N
      → Result (Unit {0})
      → Option ((AgentPage N × Text) × List (AgentPage N × Text))
      → AgentRun N
  end_delete r result none = r
  end_delete r result (some ((closure, id), rest)) = record r {
    page = handle_delete_finish closure id result r.page;
    deletes = rest;
  }

  abbrev pub end_load :
      AgentRun N
      → Result (PaginatedResult AgentDto)
      → Option (AgentPage N × List (AgentPage N))
      → AgentRun N
  end_load r result none = r
  end_load r result (some (closure, rest)) = record r {
    page = load_agents_finish closure result r.page;
    loads = rest;
  }

module _ {N : Type 0} (numbers : Numbers N) (role : Option UserRole) where
  unfoldable pub agent_event : AgentEvent N → AgentRun N → AgentRun N
  unfolding handle_save_start handle_save_finish handle_delete_start handle_delete_finish begin_load
      load_agents_finish show_agent pick_status prev_page next_page
  agent_event save_pressed r =
      if (save_button r.page).disabled then r else begin_save r (handle_save_start numbers r.page)
  agent_event delete_pressed r =
      if (delete_button role r.page).disabled
      then r
      else begin_delete r (handle_delete_start role r.page)
  agent_event refresh_pressed r = if r.page.list.refreshing then r else begin_load true r
  agent_event prev_pressed r = set_page r (record (r.page) { list = prev_page r.page.list })
  agent_event next_pressed r = set_page r (record (r.page) { list = next_page r.page.list })
  agent_event load_began r = begin_load false r
  agent_event agent_shown r = set_page r (show_agent numbers r.page)
  agent_event (save_answered n result) r = end_save r result (take_call n r.saves)
  agent_event (delete_answered n result) r = end_delete r result (take_call n r.deletes)
  agent_event (load_answered n result) r = end_load r result (take_call n r.loads)
  agent_event (agent_chosen id) r = set_page r (choose_agent id r.page)
  agent_event (name_typed text) r = set_page r (type_agent_name text r.page)
  agent_event (description_typed text) r = set_page r (type_agent_description text r.page)
  agent_event (status_filtered status) r = set_page r (pick_status status r.page)
  agent_event (status_picked status) r = set_page r (pick_agent_status status r.page)
  agent_event (trust_score_typed score) r = set_page r (type_trust_score score r.page)

  unfoldable pub agent_events : List (AgentEvent N) → AgentRun N → AgentRun N
  unfolding agent_event
  agent_events [] r = r
  agent_events (event ∷ events) r = agent_events events (agent_event event r)
