-- ===== src/Pages/AgentSamples.antt =====
-- The theorems on the agents page, applied to a small page.
use trusyn_ai.Prelude.{
  ℕ, ◌-◌, ◌≡◌, ◌≢◌, refl, Text, text_eq, ne_of_text_eq, codes, Bool, true, false, Option, none,
  some, List, [], ◌∷◌, length, arith, if◌then◌else◌, leb, trim,
}
use trusyn_ai.Runtime.Value.{blank}
use trusyn_ai.Runtime.Monad.{ok, throw, other}
use trusyn_ai.Types.Governance.{AgentDto, operational}
use trusyn_ai.Pages.Listing.{Listing, has_id, find_id}
use trusyn_ai.Pages.Listing.Laws.{IsSelection}
use trusyn_ai.Pages.Agents.{
  Numbers, AgentPage, AgentUpdate, agent_id, selected_agent, clamp_trust_score, handle_save_start,
  handle_save_finish, handle_delete_start, handle_delete_finish, show_agent,
}
use trusyn_ai.Pages.Agents.Laws.{IsScore, handle_save-IsScore, handle_delete-after_save}
use trusyn_ai.Pages.Agents.Run.{
  AgentRun, AgentEvent, agent_events, save_pressed, delete_pressed, save_answered, delete_answered,
  agent_chosen, agent_shown, name_typed, trust_score_typed,
}
use trusyn_ai.Pages.Agents.Single.{IsCalm, agent_events-IsCalm}
use trusyn_ai.Types.Account.{org_admin}

abbrev pub empty_list : {A : Type 0} → Listing A
empty_list = record {
  items = [];
  total = 0;
  limit = 25;
  offset = 0;
  selected_id = none;
  loading = false;
  refreshing = false;
  error = none;
}

abbrev agent : Text → Text → AgentDto
agent id name = record {
  id = id;
  organization_id = codes "o1";
  name = name;
  description = none;
  status = operational;
  trust_score = 70;
  permissions = blank;
  metadata = blank;
  last_active_at = none;
  created_at = [];
  updated_at = [];
}

-- Numbers from 0 on, and NaN.
abbrev le_number : Option ℕ → Option ℕ → Bool
le_number none b = false
le_number (some a) none = false
le_number (some a) (some b) = leb a b

abbrev is_nan : Option ℕ → Bool
is_nan none = true
is_nan (some a) = false

naturals : Numbers (Option ℕ)
naturals = record {
  is_nan = is_nan;
  of_nat = some;
  le = le_number;
  min = λ a b. if le_number a b then a else b;
  max = λ a b. if le_number a b then b else a;
  of_nat-IsNumber = λ n. refl;
  le-refl = λ a h. ground arith;
  le-total = λ a b h h' e. ground arith;
  le-0-100 = refl;
  min-eq = λ a b h h'. refl;
  max-eq = λ a b h h'. refl;
}

abbrev agents_page : AgentPage (Option ℕ)
agents_page = record {
  list = record empty_list {
    items = agent (codes "a") (codes "scout") ∷ agent (codes "b") (codes "writer") ∷ [];
    total = 2;
    selected_id = some (codes "a");
  };
  status_filter = none;
  saving = false;
  deleting = false;
  success_message = none;
  edit = record {
    name = codes " scout ";
    description = [];
    status = operational;
    trust_score = some 170;
  };
}

abbrev scout_update : AgentUpdate (Option ℕ)
unfolding naturals
scout_update = record {
  name = codes "scout";
  description = none;
  status = operational;
  trust_score = some 100;
}

scout-sent : (handle_save_start naturals agents_page).1 ≡ some (codes "a", scout_update)
unfolding handle_save_start selected_agent agent_id clamp_trust_score naturals text_eq trim
scout-sent = refl

handle_save-IsScore_test :
    IsScore naturals scout_update.trust_score
    × ((handle_save_start naturals agents_page).0.saving ≡ true)
handle_save-IsScore_test =
    handle_save-IsScore naturals agents_page (codes "a") scout_update scout-sent

abbrev agent_run : AgentRun (Option ℕ)
agent_run = record { page = agents_page; saves = []; deletes = []; loads = [] }

-- a save that is pressed twice, a deletion before the answers, and a score that is no number
abbrev agent_presses : List (AgentEvent (Option ℕ))
agent_presses =
    save_pressed
    ∷ save_pressed
    ∷ delete_pressed
    ∷ save_answered 0 (throw other)
    ∷ trust_score_typed none
    ∷ save_pressed
    ∷ []

agent_run-IsCalm : IsCalm naturals agent_run
agent_run-IsCalm = record { saving = refl; deleting = refl; scored = tt }

agent_events-IsCalm_example :
    IsCalm naturals (agent_events naturals (some org_admin) agent_presses agent_run)
agent_events-IsCalm_example =
    agent_events-IsCalm naturals (some org_admin) agent_presses agent_run agent_run-IsCalm

-- One save and one deletion are under way after the six events.
agent_presses-sends :
    let r' = agent_events naturals (some org_admin) agent_presses agent_run in
    (length r'.saves ≡ 1) × (length r'.deletes ≡ 1)
unfolding agent_events handle_save_start handle_delete_start selected_agent agent_id
    clamp_trust_score naturals text_eq trim handle_save_finish
agent_presses-sends = (refl, refl)

-- A deletion of the first agent waits while the second one is saved: the answer to the deletion
-- brings back the name that the second had before.
overtaken_save :
    let r' =
      agent_events naturals
        (some org_admin)
        (delete_pressed
          ∷ agent_chosen (codes "b")
          ∷ agent_shown
          ∷ name_typed (codes "editor")
          ∷ save_pressed
          ∷ save_answered 0 (ok (agent (codes "b") (codes "editor")))
          ∷ delete_answered 0 (ok tt)
          ∷ [])
        agent_run in
    r'.page.list.items ≡ agent (codes "b") (codes "writer") ∷ []
unfolding agent_events handle_save_start handle_delete_start selected_agent agent_id show_agent
    clamp_trust_score naturals text_eq trim handle_save_finish handle_delete_finish
overtaken_save = refl

pub a_ne_b : ◌≢◌ {A = Text} (codes "a") (codes "b")
unfolding text_eq
a_ne_b = ne_of_text_eq (codes "a") (codes "b") refl

handle_delete-after_save_test :
    let u = agent (codes "b") (codes "renamed") in
    let saved = handle_save_finish (ok u) agents_page in
    let p' = handle_delete_finish saved (codes "a") (ok tt) saved in
    (has_id agent_id (some (codes "a")) p'.list.items ≡ false)
    × (find_id agent_id (some (codes "b")) p'.list.items ≡ (
        if text_eq (agent_id u) (codes "b")
        then (if has_id agent_id (some (codes "b")) agents_page.list.items then some u else none)
        else find_id agent_id (some (codes "b")) agents_page.list.items))
    × IsSelection agent_id p'.list.selected_id p'.list.items
    × (p'.list.total ≡ agents_page.list.total - 1)
handle_delete-after_save_test =
    handle_delete-after_save (agent (codes "b") (codes "renamed")) agents_page (codes "a")
      (codes "b") a_ne_b
