-- ===== src/Pages/Agents/Single.antt =====
-- The calls of the agents page of frontend/web-app/src/app/pages/AgentsPage.tsx that are under way
-- while it is used.
use trusyn_ai.Prelude.{
  ◌≡◌, refl, Text, Bool, true, false, Option, none, some, List, [], ◌∷◌, if◌then◌else◌, arith,
}
use trusyn_ai.Runtime.Monad.{Result, ok, throw}
use trusyn_ai.Types.Account.{UserRole}
use trusyn_ai.Types.Governance.{AgentDto}
use trusyn_ai.Pages.Screen.Calls.{
  IsSingle, IsTaken, take_call, take_call-IsTaken, Holds, HoldsLeft, take_call-HoldsLeft,
}
use trusyn_ai.Pages.Fields.{pick_status}
use trusyn_ai.Pages.Agents.{
  Numbers, AgentPage, AgentUpdate, save_selected, handle_save_start, handle_save_finish,
  handle_delete_start, handle_delete_finish, load_agents_start, load_agents_finish, show_agent,
  selected_agent,
}
use trusyn_ai.Pages.Agents.Laws.{IsScore, clamp_trust_score-IsScore}
use trusyn_ai.Pages.Agents.Run.{
  AgentRun, AgentEvent, agent_event, agent_events, save_pressed, delete_pressed, refresh_pressed,
  prev_pressed, next_pressed, load_began, agent_shown, save_answered, delete_answered,
  load_answered, agent_chosen, name_typed, description_typed, status_filtered, status_picked,
  trust_score_typed, begin_save, begin_load, end_save, end_delete,
}

module _ {N : Type 0} (numbers : Numbers N) where
  -- the trust score of an update that is sent is a number from 0 to 100
  abbrev pub IsScored : Text × AgentUpdate N → Type 0
  IsScored (id, body) = IsScore numbers body.trust_score

  -- saving and deleting are under way once while their flag is set, and not at all otherwise
  pub record IsCalm (r : AgentRun N) : Type 0 where
    pub saving : IsSingle r.page.saving r.saves
    pub deleting : IsSingle r.page.deleting r.deletes
    pub scored : Holds IsScored r.saves

  begin_save-IsCalm :
      (r : AgentRun N) (o : Option AgentDto)
      → r.page.saving ≡ false
      → IsCalm r
      → IsCalm (begin_save r (save_selected numbers r.page o))
  begin_save-IsCalm r none off h = h
  begin_save-IsCalm r (some agent) off h = record {
    saving = ground arith;
    deleting = h.deleting;
    scored = (clamp_trust_score-IsScore numbers r.page.edit.trust_score, h.scored);
  }

  -- a button that may be disabled
  pressed-IsCalm :
      (r r' : AgentRun N) (disabled : Bool)
      → IsCalm r
      → (disabled ≡ false → IsCalm r')
      → IsCalm (if disabled then r else r')
  pressed-IsCalm r r' true h next = h
  pressed-IsCalm r r' false h next = next refl

  end_save-IsCalm :
      (r : AgentRun N) (result : Result AgentDto)
      (o : Option ((Text × AgentUpdate N) × List (Text × AgentUpdate N)))
      → IsTaken r.saves o
      → HoldsLeft IsScored o
      → IsCalm r
      → IsCalm (end_save r result o)
  unfolding handle_save_finish
  end_save-IsCalm r result none t left h = h
  end_save-IsCalm r (ok agent) (some (x, rest)) t left h = ground (arith, t x rest refl)
  end_save-IsCalm r (throw e) (some (x, rest)) t left h = ground (arith, t x rest refl)

  end_delete-IsCalm :
      (r : AgentRun N) (result : Result (Unit {0}))
      (o : Option ((AgentPage N × Text) × List (AgentPage N × Text)))
      → IsTaken r.deletes o
      → IsCalm r
      → IsCalm (end_delete r result o)
  unfolding handle_delete_finish
  end_delete-IsCalm r result none t h = h
  end_delete-IsCalm r (ok _) (some (x, rest)) t h = ground (arith, t x rest refl)
  end_delete-IsCalm r (throw e) (some (x, rest)) t h = ground (arith, t x rest refl)

module _ {N : Type 0} (numbers : Numbers N) (role : Option UserRole) where
  agent_event-IsCalm :
      (event : AgentEvent N) (r : AgentRun N)
      → IsCalm numbers r
      → IsCalm numbers (agent_event numbers role event r)
  unfolding agent_event handle_save_start handle_delete_start begin_load load_agents_start
      show_agent pick_status load_agents_finish
  agent_event-IsCalm save_pressed r h =
      pressed-IsCalm numbers r (begin_save r (handle_save_start numbers r.page)) r.page.saving h
        (λ off. begin_save-IsCalm numbers r (selected_agent r.page) off h)
  agent_event-IsCalm delete_pressed r h = ground arith
  agent_event-IsCalm refresh_pressed r h = ground arith
  agent_event-IsCalm prev_pressed r h = ground arith
  agent_event-IsCalm next_pressed r h = ground arith
  agent_event-IsCalm load_began r h = ground arith
  agent_event-IsCalm agent_shown r h = ground arith
  agent_event-IsCalm (save_answered n result) r h =
      end_save-IsCalm numbers r result (take_call n r.saves) (take_call-IsTaken n r.saves)
        (take_call-HoldsLeft (IsScored numbers) n r.saves h.scored) h
  agent_event-IsCalm (delete_answered n result) r h =
      end_delete-IsCalm numbers r result (take_call n r.deletes) (take_call-IsTaken n r.deletes) h
  agent_event-IsCalm (load_answered n result) r h = ground arith
  agent_event-IsCalm (agent_chosen id) r h = ground arith
  agent_event-IsCalm (name_typed text) r h = ground arith
  agent_event-IsCalm (description_typed text) r h = ground arith
  agent_event-IsCalm (status_filtered status) r h = ground arith
  agent_event-IsCalm (status_picked status) r h = ground arith
  agent_event-IsCalm (trust_score_typed score) r h = ground arith

  -- From a page whose flags tell its calls, with a trust score from 0 to 100 in each update that is
  -- under way: whatever the user presses, types and picks, and whatever the backend answers, in any
  -- order, saving and deleting an agent are each under way at most once, exactly while their flag
  -- is set, and every update that is under way carries a trust score that is a number from 0 to
  -- 100, whatever was typed.
  pub agent_events-IsCalm :
      (events : List (AgentEvent N)) (r : AgentRun N)
      → IsCalm numbers r
      → IsCalm numbers (agent_events numbers role events r)
  unfolding agent_events
  agent_events-IsCalm [] r h = h
  agent_events-IsCalm (event ∷ events) r h =
      agent_events-IsCalm events (agent_event numbers role event r) (agent_event-IsCalm event r h)
