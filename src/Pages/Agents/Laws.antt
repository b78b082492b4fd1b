-- ===== src/Pages/Agents/Laws.antt =====
-- The trust score that is sent, and what the handlers of the agents page do to the list.
use trusyn_ai.Prelude.{
  ◌≡◌, ◌≢◌, ◌-◌, ◌∙◌, ap, refl, Text, text_eq, true, false, Option, none, some, if◌then◌else◌,
  Bool-cases, inl, inr,
}
use trusyn_ai.Runtime.Monad.{ok}
use trusyn_ai.Types.Governance.{AgentDto}
use trusyn_ai.Pages.Listing.{has_id, find_id, without_item, replace_item}
use trusyn_ai.Pages.Listing.Laws.{IsSelection}
use trusyn_ai.Pages.Listing.Edits.{
  find-replace_item, has-without_item, find-without_item, first_id-IsSelection,
}
use trusyn_ai.Pages.Agents.{
  Numbers, clamp_trust_score, AgentPage, AgentUpdate, agent_id, save_selected, selected_agent,
  handle_save_start, handle_save_finish, handle_delete_finish,
}

module _ {N : Type 0} (numbers : Numbers N) where
  -- A score that is a number from 0 to 100.
  pub record IsScore (a : N) : Type 0 where
    pub number : numbers.is_nan a ≡ false
    pub lower : numbers.le (numbers.of_nat 0) a ≡ true
    pub upper : numbers.le a (numbers.of_nat 100) ≡ true

  raised :
      (value : N)
      → numbers.is_nan value ≡ false
      → let m = numbers.max value (numbers.of_nat 0) in
        (numbers.is_nan m ≡ false) × (numbers.le (numbers.of_nat 0) m ≡ true)
  raised value h =
      let zero_number = numbers.of_nat-IsNumber 0 in
      rw (numbers.max-eq value (numbers.of_nat 0) h zero_number)
        (elim (Bool-cases (numbers.le value (numbers.of_nat 0))) [
          | inl below ↦ rw below (zero_number, numbers.le-refl (numbers.of_nat 0) zero_number)
          | inr above ↦ rw above (h, numbers.le-total value (numbers.of_nat 0) h zero_number above)
        ])

  lowered :
      (m : N)
      → numbers.is_nan m ≡ false
      → numbers.le (numbers.of_nat 0) m ≡ true
      → IsScore (numbers.min m (numbers.of_nat 100))
  lowered m h positive =
      let hundred = numbers.of_nat-IsNumber 100 in
      rw (numbers.min-eq m (numbers.of_nat 100) h hundred)
        (elim (Bool-cases (numbers.le m (numbers.of_nat 100))) [
          | inl below ↦ rw below (record { number = h; lower = positive; upper = below })
          | inr above ↦ rw above (record {
            number = hundred;
            lower = numbers.le-0-100;
            upper = numbers.le-refl (numbers.of_nat 100) hundred;
          })
        ])

  pub clamp_trust_score-IsScore : (value : N) → IsScore (clamp_trust_score numbers value)
  unfolding clamp_trust_score
  clamp_trust_score-IsScore value = elim (Bool-cases (numbers.is_nan value)) [
    | inl nan ↦ rw nan (record {
      number = numbers.of_nat-IsNumber 0;
      lower = numbers.le-refl (numbers.of_nat 0) (numbers.of_nat-IsNumber 0);
      upper = numbers.le-0-100;
    })
    | inr number ↦
        let (h, positive) = raised value number in
        rw number (lowered (numbers.max value (numbers.of_nat 0)) h positive)
  ]

  -- the score of a call, if there is one
  abbrev score_of : N → Option (Text × AgentUpdate N) → N
  score_of other none = other
  score_of other (some (id, body)) = body.trust_score

  saved-IsScore :
      (o : Option AgentDto) (p : AgentPage N) (id : Text) (body : AgentUpdate N)
      → (save_selected numbers p o).1 ≡ some (id, body)
      → IsScore body.trust_score × ((save_selected numbers p o).0.saving ≡ true)
  saved-IsScore none p id body e = cc
  saved-IsScore (some agent) p id body e =
      let sent = ap (score_of p.edit.trust_score) e in
      (rw sent at (clamp_trust_score-IsScore p.edit.trust_score), refl)

  -- Saving an agent sends its id with a trust score that is a number from 0 to 100, whatever was
  -- typed, and with the flag set.
  pub handle_save-IsScore :
      (p : AgentPage N) (id : Text) (body : AgentUpdate N)
      → (handle_save_start numbers p).1 ≡ some (id, body)
      → IsScore body.trust_score × ((handle_save_start numbers p).0.saving ≡ true)
  unfolding handle_save_start
  handle_save-IsScore p id body e = saved-IsScore (selected_agent p) p id body e

module _ {N : Type 0} where
  -- A save that succeeds and then a deletion that was begun after it: the deleted agent is gone,
  -- every other id finds the saved agent or what it found before, and the selection is on the
  -- first agent that is left, or on none.
  pub handle_delete-after_save :
      (u : AgentDto) (p : AgentPage N) (id other : Text)
      → id ≢ other
      → let saved = handle_save_finish (ok u) p in
        let p' = handle_delete_finish saved id (ok tt) saved in
        (has_id agent_id (some id) p'.list.items ≡ false)
        × (find_id agent_id (some other) p'.list.items ≡ (
            if text_eq (agent_id u) other
            then (if has_id agent_id (some other) p.list.items then some u else none)
            else find_id agent_id (some other) p.list.items))
        × IsSelection agent_id p'.list.selected_id p'.list.items
        × (p'.list.total ≡ p.list.total - 1)
  unfolding handle_save_finish handle_delete_finish
  handle_delete-after_save u p id other h = (
    has-without_item agent_id id (replace_item agent_id u p.list.items),
    find-without_item agent_id id other (replace_item agent_id u p.list.items) h
        ∙ find-replace_item agent_id u other p.list.items,
    first_id-IsSelection agent_id (without_item agent_id id (replace_item agent_id u p.list.items)),
    refl,
  )
