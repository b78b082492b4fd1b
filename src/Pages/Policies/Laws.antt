-- ===== src/Pages/Policies/Laws.antt =====
-- What the handlers of the policy page do to the list, the selection and the flags.
use trusyn_ai.Prelude.{
  ◌-◌, ◌≡◌, ◌≢◌, refl, Text, text_eq, true, false, Option, none, some, List, if◌then◌else◌, map,
  arith, inl, inr, Bool-cases, is_empty, trim,
}
use trusyn_ai.Runtime.Value.{Value, Fields, obj}
use trusyn_ai.Runtime.Monad.{ok}
use trusyn_ai.Types.Account.{UserRole}
use trusyn_ai.Types.Governance.{PolicyDto}
use trusyn_ai.Pages.Listing.{has_id, find_id}
use trusyn_ai.Pages.Listing.Laws.{IsSelection}
use trusyn_ai.Pages.Listing.Edits.{
  find-replace_item, ids-replace_item, has-without_item, has-without_item_of_new, find-without_item,
  first_id-IsSelection, IsFirst, first_id-IsFirst,
}
use trusyn_ai.Pages.Policies.{
  PolicyPage, PolicyForm, PolicyCreatePayload, Started, returned, waits, policy_id, can_manage,
  object_fields, check_form, handle_create_policy_start, handle_save_policy_start,
  handle_delete_policy_start, handle_create_policy_finish, handle_save_policy_finish,
  handle_delete_policy_finish, without_policy,
}

-- the policy of the list with this id
abbrev pub find_policy : Text → List PolicyDto → Option PolicyDto
find_policy id items = find_id policy_id (some id) items

-- Saving puts the answer of the backend in the place of the policy with its id: that id finds the
-- answer if it was listed, every other id finds what it found, and the order, the ids and the
-- selection stay.
pub handle_save_policy-find :
    (u : PolicyDto) (id : Text) (p : PolicyPage)
    → let p' = handle_save_policy_finish (ok u) p in
      (find_policy id p'.list.items ≡ (
        if text_eq (policy_id u) id
        then (if has_id policy_id (some id) p.list.items then some u else none)
        else find_policy id p.list.items))
      × (map policy_id p'.list.items ≡ map policy_id p.list.items)
      × (p'.list.selected_id ≡ p.list.selected_id)
unfolding handle_save_policy_finish
handle_save_policy-find u id p =
    (find-replace_item policy_id u id p.list.items, ids-replace_item policy_id u p.list.items, refl)

-- Deleting, with the list that the handler was made with: the id is gone, every other id finds
-- what it found there, the selection is on the first policy that is left, or on none, and the
-- total is one less, but never below 0.
pub handle_delete_policy-find :
    (closure p : PolicyPage) (id other : Text)
    → id ≢ other
    → let p' = handle_delete_policy_finish closure id (ok tt) p in
      (has_id policy_id (some id) p'.list.items ≡ false)
      × (find_policy other p'.list.items ≡ find_policy other closure.list.items)
      × IsSelection policy_id p'.list.selected_id p'.list.items
      × IsFirst policy_id p'.list.selected_id p'.list.items
      × (p'.list.total ≡ p.list.total - 1)
unfolding handle_delete_policy_finish
handle_delete_policy-find closure p id other h = (
  has-without_item policy_id id closure.list.items,
  find-without_item policy_id id other closure.list.items h,
  first_id-IsSelection policy_id (without_policy id closure.list.items),
  first_id-IsFirst policy_id (without_policy id closure.list.items),
  refl,
)

-- A policy that is created while a deletion waits is lost from the list: the list is that of the
-- closure of the deletion, while the total counts the new policy.
pub handle_delete_policy-loses_created :
    (policy : PolicyDto) (p : PolicyPage) (id : Text)
    → has_id policy_id (some (policy_id policy)) p.list.items ≡ false
    → id ≢ policy_id policy
    → let p' =
        handle_delete_policy_finish p id (ok tt) (handle_create_policy_finish (ok policy) p) in
      (has_id policy_id (some (policy_id policy)) p'.list.items ≡ false)
      × (p'.list.total ≡ p.list.total)
unfolding handle_delete_policy_finish handle_create_policy_finish
handle_delete_policy-loses_created policy p id fresh h =
    (has-without_item_of_new policy_id id (policy_id policy) p.list.items fresh, omega arith)

-- A user who is no administrator starts no call: each of the three handlers returns, and leaves
-- the page as it is.
pub handlers-need-can_manage :
    (parse : Text → Option Value) (role : Option UserRole) (p : PolicyPage)
    → can_manage role ≡ false
    → (handle_create_policy_start parse role p ≡ returned p)
      × (handle_save_policy_start parse role p ≡ returned p)
      × (handle_delete_policy_start role p ≡ returned p)
unfolding handle_create_policy_start handle_save_policy_start handle_delete_policy_start
handlers-need-can_manage parse role p h = ground arith

-- What a handler waits for, if it waits, has this property.
abbrev pub OnCall : {P : Type 0} → (PolicyPage → P → Type 0) → Started P → Type 0
OnCall Q (returned p) = Unit
OnCall Q (waits p x) = Q p x

-- A payload is complete: it has a name, and its rule is the object that the text of the form is
-- parsed to.
abbrev pub IsComplete : (Text → Option Value) → PolicyForm → PolicyCreatePayload → Type 0
IsComplete parse form payload =
    (payload.name ≡ trim form.name)
    × (is_empty payload.name ≡ false)
    × (parse form.rule_definition_text ≡ some (obj payload.rule_definition))

check_form-OnCall :
    {P : Type 0} (Q : PolicyPage → P → Type 0) (o : Option Fields) (form : PolicyForm)
    (p : PolicyPage) (k : Fields → Started P)
    → ((rule : Fields) → o ≡ some rule → is_empty (trim form.name) ≡ false → OnCall Q (k rule))
    → OnCall Q (check_form o form p k)
check_form-OnCall Q none form p k h = elim (Bool-cases (is_empty (trim form.name))) [
  | inl blank ↦ rw blank tt
  | inr named ↦ rw named tt
]
check_form-OnCall Q (some rule) form p k h = elim (Bool-cases (is_empty (trim form.name))) [
  | inl blank ↦ rw blank tt
  | inr named ↦ rw named (h rule refl named)
]

object_fields-some :
    (o : Option Value) (fields : Fields) → object_fields o ≡ some fields → o ≡ some (obj fields)
object_fields-some o fields e = ground arith

abbrev pub IsCreateCall :
    (Text → Option Value) → PolicyPage → PolicyPage → PolicyCreatePayload → Type 0
IsCreateCall parse p p' payload =
    IsComplete parse p.create payload × (p'.creating ≡ true) × (p'.list.error ≡ none)

-- The create handler calls the backend only with a complete payload, with its flag set and the
-- error cleared.
pub handle_create_policy-IsComplete :
    (parse : Text → Option Value) (role : Option UserRole) (p : PolicyPage)
    → OnCall (IsCreateCall parse p) (handle_create_policy_start parse role p)
unfolding handle_create_policy_start
handle_create_policy-IsComplete parse role p = elim (Bool-cases (can_manage role)) [
  | inr other ↦ rw other tt
  | inl manager ↦ rw manager (
      check_form-OnCall (IsCreateCall parse p) (object_fields (parse p.create.rule_definition_text))
        p.create p _ (λ rule e named. ((refl, named, object_fields-some _ rule e), refl, refl)))
]
