-- ===== src/Pages/Policies/Readers.antt =====
-- The policy page of frontend/web-app/src/app/pages/PolicyEnginePage.tsx, used by someone without
-- the role to manage policies.
use trusyn_ai.Prelude.{◌≡◌, Text, true, false, Option, List, [], ◌∷◌, arith}
use trusyn_ai.Runtime.Value.{Value, Fields}
use trusyn_ai.Types.Account.{UserRole}
use trusyn_ai.Pages.Policies.{
  PolicyPage, can_manage, load_policies_start, show_selected, change_filter,
}
use trusyn_ai.Pages.Policies.Screen.{create_panel, edit_panel}
use trusyn_ai.Pages.Policies.Run.{
  PolicyRun, PolicyEvent, policy_event, policy_events, create_pressed, save_pressed, delete_pressed,
  refresh_pressed, prev_pressed, next_pressed, load_began, selection_shown, create_answered,
  save_answered, delete_answered, load_answered, policy_chosen, filter_changed, create_filled,
  edit_filled, begin_load, save_disabled, delete_disabled,
}

-- no change of a policy is under way
pub record IsIdle (r : PolicyRun) : Type 0 where
  pub creates : r.creates ≡ []
  pub saves : r.saves ≡ []
  pub deletes : r.deletes ≡ []
  pub creating : r.page.creating ≡ false
  pub saving : r.page.saving ≡ false
  pub deleting : r.page.deleting ≡ false

module _ (parse : Text → Option Value) (pretty_json : Fields → Text) (role : Option UserRole) where
  policy_event-IsIdle :
      (event : PolicyEvent) (r : PolicyRun)
      → can_manage role ≡ false
      → IsIdle r
      → IsIdle (policy_event parse pretty_json role event r)
  unfolding policy_event create_panel edit_panel begin_load load_policies_start show_selected
      change_filter
  policy_event-IsIdle create_pressed r m h = ground arith
  policy_event-IsIdle save_pressed r m h = ground arith
  policy_event-IsIdle delete_pressed r m h = ground arith
  policy_event-IsIdle refresh_pressed r m h = ground arith
  policy_event-IsIdle prev_pressed r m h = ground arith
  policy_event-IsIdle next_pressed r m h = ground arith
  policy_event-IsIdle load_began r m h = ground arith
  policy_event-IsIdle selection_shown r m h = ground arith
  policy_event-IsIdle (create_answered n result) r m h = ground (arith, h)
  policy_event-IsIdle (save_answered n result) r m h = ground (arith, h)
  policy_event-IsIdle (delete_answered n result) r m h = ground (arith, h)
  policy_event-IsIdle (load_answered n result) r m h = ground arith
  policy_event-IsIdle (policy_chosen id) r m h = ground arith
  policy_event-IsIdle (filter_changed filter) r m h = ground arith
  policy_event-IsIdle (create_filled input) r m h = ground arith
  policy_event-IsIdle (edit_filled input) r m h = ground arith

  policy_events_keep :
      (events : List PolicyEvent) (r : PolicyRun)
      → can_manage role ≡ false
      → IsIdle r
      → IsIdle (policy_events parse pretty_json role events r)
  unfolding policy_events
  policy_events_keep [] r m h = h
  policy_events_keep (event ∷ events) r m h =
      policy_events_keep events (policy_event parse pretty_json role event r) m
        (policy_event-IsIdle event r m h)

  buttons-disabled :
      (p : PolicyPage)
      → can_manage role ≡ false
      → ((create_panel role p).submit.disabled ≡ true)
        × (save_disabled (edit_panel role p) ≡ true)
        × (delete_disabled (edit_panel role p) ≡ true)
  unfolding create_panel edit_panel
  buttons-disabled p m = ground arith

  -- Someone without the role, on a page with no change under way: whatever is pressed, typed and
  -- picked, and whatever the backend answers, in any order, no creation, update or deletion of a
  -- policy is ever sent, no button shows one as under way, and the three buttons stay disabled.
  pub policy_events-IsIdle :
      (events : List PolicyEvent) (r : PolicyRun)
      → can_manage role ≡ false
      → IsIdle r
      → let r' = policy_events parse pretty_json role events r in
        IsIdle r'
        × ((create_panel role r'.page).submit.disabled ≡ true)
        × (save_disabled (edit_panel role r'.page) ≡ true)
        × (delete_disabled (edit_panel role r'.page) ≡ true)
  policy_events-IsIdle events r m h =
      let (submit, save, delete) =
        buttons-disabled (policy_events parse pretty_json role events r).page m in
      (policy_events_keep events r m h, submit, save, delete)
