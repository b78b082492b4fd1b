-- ===== src/Pages/Agents.antt =====
-- frontend/web-app/src/app/pages/AgentsPage.tsx
pub mod Laws
pub mod Screen
pub mod Run
pub mod Single
use trusyn_ai.Prelude.{
  ℕ, ◌-◌, ◌≡◌, Text, codes, Bool, true, false, Option, none, some, List, [], ◌∷◌, if◌then◌else◌,
  trim, length, keep,
}
use trusyn_ai.Runtime.Value.{str}
use trusyn_ai.Runtime.Monad.{Exn, Result, ok, throw}
use trusyn_ai.Types.Common.{PaginatedResult}
use trusyn_ai.Types.Account.{UserRole}
use trusyn_ai.Types.Governance.{AgentDto, AgentStatus, operational, warning, quarantined, blocked}
use trusyn_ai.Pages.Listing.{
  Listing, find_id, first_id, replace_item, without_item, error_message, load_start, load_finish,
}
use trusyn_ai.Pages.Policies.{can_manage, or_empty, text_or_undefined}

-- What the page uses of the numbers of the platform: the test for NaN, the order, `Math.min` and
-- `Math.max`, with their laws on numbers that are no NaN.
pub record Numbers (N : Type 0) : Type 0 where
  pub is_nan : N → Bool
  pub of_nat : ℕ → N
  pub le : N → N → Bool
  pub min : N → N → N
  pub max : N → N → N
  pub of_nat-IsNumber : (n : ℕ) → is_nan (of_nat n) ≡ false
  pub le-refl : (a : N) → is_nan a ≡ false → le a a ≡ true
  pub le-total : (a b : N) → is_nan a ≡ false → is_nan b ≡ false → le a b ≡ false → le b a ≡ true
  pub le-0-100 : le (of_nat 0) (of_nat 100) ≡ true
  pub min-eq : (a b : N) → is_nan a ≡ false → is_nan b ≡ false → min a b ≡ (if le a b then a else b)
  pub max-eq : (a b : N) → is_nan a ≡ false → is_nan b ≡ false → max a b ≡ (if le a b then b else a)

abbrev pub status_options : List AgentStatus
status_options = operational ∷ warning ∷ quarantined ∷ blocked ∷ []

module _ {N : Type 0} (numbers : Numbers N) where
  unfoldable pub clamp_trust_score : N → N
  clamp_trust_score value =
      if numbers.is_nan value
      then numbers.of_nat 0
      else numbers.min (numbers.max value (numbers.of_nat 0)) (numbers.of_nat 100)

-- the fields of the edit form
pub record AgentForm (N : Type 0) : Type 0 where
  pub name : Text
  pub description : Text
  pub status : AgentStatus
  pub trust_score : N

pub record AgentPage (N : Type 0) : Type 0 where
  pub list : Listing AgentDto
  pub status_filter : Option AgentStatus
  pub saving : Bool
  pub deleting : Bool
  pub success_message : Option Text
  pub edit : AgentForm N

-- the body of an update; a description that is null clears the one of the agent
pub record AgentUpdate (N : Type 0) : Type 0 where
  pub name : Text
  pub description : Option Text
  pub status : AgentStatus
  pub trust_score : N

abbrev pub agent_error : Text
agent_error = codes "Something went wrong. Please try again."

unfoldable pub agent_id : AgentDto → Text
agent_id agent = agent.id

abbrev pub is_operational : AgentStatus → Bool
is_operational operational = true
is_operational _ = false

module _ {N : Type 0} where
  abbrev pub clear_messages : AgentPage N → AgentPage N
  clear_messages p = record p { list = record (p.list) { error = none }; success_message = none }

  abbrev pub fail_with : Exn → AgentPage N → AgentPage N
  fail_with e p = record p { list = record (p.list) { error = some (error_message agent_error e) } }

  unfoldable pub load_agents_start : Bool → AgentPage N → AgentPage N
  load_agents_start refresh p = record p { list = load_start refresh p.list }

  unfoldable pub load_agents_finish :
      AgentPage N → Result (PaginatedResult AgentDto) → AgentPage N → AgentPage N
  unfolding agent_id
  load_agents_finish closure result p = record p {
    list = load_finish agent_id closure.list.selected_id result agent_error p.list;
  }

  unfoldable pub selected_agent : AgentPage N → Option AgentDto
  unfolding agent_id
  selected_agent p = find_id agent_id p.list.selected_id p.list.items

  -- the effect that runs when the selected agent changes
  unfoldable pub show_agent : Numbers N → AgentPage N → AgentPage N
  unfolding selected_agent
  show_agent numbers p = elim (selected_agent p) [
    | none ↦ p
    | some agent ↦ record p {
      edit = record {
        name = agent.name;
        description = or_empty agent.description;
        status = agent.status;
        trust_score = numbers.of_nat agent.trust_score;
      };
    }
  ]

  -- `handleSave` until its call: the page, and the id and the body if there is a call
  abbrev pub save_selected :
      Numbers N → AgentPage N → Option AgentDto → AgentPage N × Option (Text × AgentUpdate N)
  save_selected numbers p none = (p, none)
  save_selected numbers p (some agent) = (
    record (clear_messages p) { saving = true },
    some (
      agent.id,
      record {
        name = trim p.edit.name;
        description = text_or_undefined (trim p.edit.description);
        status = p.edit.status;
        trust_score = clamp_trust_score numbers p.edit.trust_score;
      },
    ),
  )

  unfoldable pub handle_save_start :
      Numbers N → AgentPage N → AgentPage N × Option (Text × AgentUpdate N)
  unfolding selected_agent clamp_trust_score
  handle_save_start numbers p = save_selected numbers p (selected_agent p)

  unfoldable pub handle_save_finish : Result AgentDto → AgentPage N → AgentPage N
  unfolding agent_id
  handle_save_finish (ok updated) p = record p {
    list = record (p.list) { items = replace_item agent_id updated p.list.items };
    success_message = some (codes "Agent updated successfully.");
    saving = false;
  }
  handle_save_finish (throw e) p = record (fail_with e p) { saving = false }

  unfoldable pub handle_delete_start : Option UserRole → AgentPage N → AgentPage N × Option Text
  unfolding selected_agent
  handle_delete_start role p = elim (selected_agent p) [
    | none ↦ (p, none)
    | some agent ↦
        if can_manage role
        then (record (clear_messages p) { deleting = true }, some agent.id)
        else (p, none)
  ]

  -- The new list is made of the list in the closure of the handler.
  unfoldable pub handle_delete_finish :
      AgentPage N → Text → Result (Unit {0}) → AgentPage N → AgentPage N
  unfolding agent_id
  handle_delete_finish closure id (ok _) p =
      let next_items = without_item agent_id id closure.list.items in
      record p {
        list = record (p.list) {
          items = next_items;
          selected_id = first_id agent_id next_items;
          total = p.list.total - 1;
        };
        success_message = some (codes "Agent deleted successfully.");
        deleting = false;
      }
  handle_delete_finish closure id (throw e) p = record (fail_with e p) { deleting = false }

  unfoldable pub active_agents_count : AgentPage N → ℕ
  active_agents_count p =
      length (keep (λ (agent : AgentDto). is_operational agent.status) p.list.items)
