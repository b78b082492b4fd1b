-- ===== src/Admin/Governance/Laws.antt =====
-- What the governance page sends and shows.
use trusyn_ai.Prelude.{
  ◌≤◌, ◌≡◌, refl, true, false, Option, none, some, List, [], ◌∷◌, arith, length, map, find,
  is_empty, trim,
}
use trusyn_ai.Types.Governance.{PolicyDto}
use trusyn_ai.Types.Reports.{DecisionCount}
use trusyn_ai.Pages.Policies.{PolicyCreatePayload}
use trusyn_ai.Admin.Common.{Answer, answered, failed, sum}
use trusyn_ai.Admin.Counting.{count_if_le}
use trusyn_ai.Admin.Governance.{
  Governance, Loaded, empty_draft, load_start, load_finish, create_policy_start,
  create_policy_finish, active_policies, is_block, count_or_zero, blocked_today, total_enforcements,
}

-- A draft is sent exactly if its name is more than spaces; then under its trimmed name, and the
-- page shows no error while it waits.
pub create_policy_start-sends :
    (p : Governance)
    → let (p', sent) = create_policy_start p in
      (is_empty (trim p.create_draft.name) ≡ true → (sent ≡ none) × (p'.saving ≡ p.saving))
      × ((payload : PolicyCreatePayload)
          → sent ≡ some payload
          → (payload.name ≡ trim p.create_draft.name)
            × (is_empty payload.name ≡ false)
            × (p'.saving ≡ true)
            × (p'.error ≡ none))
unfolding create_policy_start
create_policy_start-sends p =
    (λ h. ground (arith, h), λ (payload : PolicyCreatePayload) e. ground (arith, e))

-- A creation ends with both flags off where the page was not loading before; a created policy
-- closes and empties the form, even if the reload fails; a refused one keeps the form.
pub create_policy_finish-form :
    (created : Answer PolicyDto) (loaded : Answer Loaded) (p : Governance)
    → p.loading ≡ false
    → let p' = create_policy_finish created loaded p in
      (p'.saving ≡ false)
      × (p'.loading ≡ false)
      × ((policy : PolicyDto)
          → created ≡ answered policy
          → (p'.create_draft ≡ empty_draft) × (p'.show_create ≡ false))
      × ((message : Option _)
          → created ≡ failed message
          → (p'.create_draft ≡ p.create_draft) × (p'.policies ≡ p.policies))
unfolding create_policy_finish load_start load_finish
create_policy_finish-form (answered policy) (answered (page, stats)) p idle =
    (refl, refl, λ policy' e. (refl, refl), λ message e. cc)
create_policy_finish-form (answered policy) (failed m) p idle =
    (refl, refl, λ policy' e. (refl, refl), λ message e. cc)
create_policy_finish-form (failed m) loaded p idle =
    (refl, idle, λ policy e. cc, λ message e. (refl, refl))

find-sum_le :
    (items : List DecisionCount)
    → count_or_zero (find (λ (item : DecisionCount). is_block item.decision) items)
      ≤ sum (map (λ (item : DecisionCount). item.count) items)
find-sum_le [] = omega arith
find-sum_le (item ∷ items) = ground (arith, find-sum_le items)

-- The blocked decisions are at most the enforcements, and the active policies at most the
-- policies.
pub blocked_today_le :
    (p : Governance)
    → (blocked_today p ≤ total_enforcements p) × (active_policies p ≤ length p.policies)
unfolding blocked_today total_enforcements active_policies
blocked_today_le p = (find-sum_le p.decision_stats, count_if_le _ p.policies)
