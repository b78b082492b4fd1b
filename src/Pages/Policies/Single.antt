-- ===== src/Pages/Policies/Single.antt =====
-- The actions of the policy page that are under way while it is used.
use trusyn_ai.Prelude.{refl, Text, Option, none, some, List, [], ◌∷◌, arith}
use trusyn_ai.Runtime.Value.{Value, Fields}
use trusyn_ai.Runtime.Monad.{Result, ok, throw}
use trusyn_ai.Types.Governance.{PolicyDto}
use trusyn_ai.Types.Account.{UserRole}
use trusyn_ai.Pages.Screen.Calls.{IsSingle, IsTaken, take_call, take_call-IsTaken}
use trusyn_ai.Pages.Policies.{
  PolicyPage, PolicyCreatePayload, handle_create_policy_start, handle_save_policy_start,
  handle_delete_policy_start, handle_create_policy_finish, handle_save_policy_finish,
  handle_delete_policy_finish, load_policies_start, load_policies_finish, show_selected,
  change_filter,
}
use trusyn_ai.Pages.Policies.Screen.{create_panel, edit_panel}
use trusyn_ai.Pages.Policies.Run.{
  PolicyRun, PolicyEvent, policy_event, policy_events, create_pressed, save_pressed, delete_pressed,
  refresh_pressed, prev_pressed, next_pressed, load_began, selection_shown, create_answered,
  save_answered, delete_answered, load_answered, policy_chosen, filter_changed, create_filled,
  edit_filled, begin_load, end_create, end_save, end_delete,
}

-- each of the three actions is under way once while its flag is set, and not at all otherwise
pub record IsCalm (r : PolicyRun) : Type 0 where
  pub creating : IsSingle r.page.creating r.creates
  pub saving : IsSingle r.page.saving r.saves
  pub deleting : IsSingle r.page.deleting r.deletes

end_create-IsCalm :
    (r : PolicyRun) (result : Result PolicyDto)
    (o : Option (PolicyCreatePayload × List PolicyCreatePayload))
    → IsTaken r.creates o
    → IsCalm r
    → IsCalm (end_create r result o)
unfolding handle_create_policy_finish
end_create-IsCalm r result none t h = h
end_create-IsCalm r (ok policy) (some (x, rest)) t h = ground (arith, t x rest refl)
end_create-IsCalm r (throw e) (some (x, rest)) t h = ground (arith, t x rest refl)

end_save-IsCalm :
    (r : PolicyRun) (result : Result PolicyDto)
    (o : Option ((Text × PolicyCreatePayload) × List (Text × PolicyCreatePayload)))
    → IsTaken r.saves o
    → IsCalm r
    → IsCalm (end_save r result o)
unfolding handle_save_policy_finish
end_save-IsCalm r result none t h = h
end_save-IsCalm r (ok policy) (some (x, rest)) t h = ground (arith, t x rest refl)
end_save-IsCalm r (throw e) (some (x, rest)) t h = ground (arith, t x rest refl)

end_delete-IsCalm :
    (r : PolicyRun) (result : Result (Unit {0}))
    (o : Option ((PolicyPage × Text) × List (PolicyPage × Text)))
    → IsTaken r.deletes o
    → IsCalm r
    → IsCalm (end_delete r result o)
unfolding handle_delete_policy_finish
end_delete-IsCalm r result none t h = h
end_delete-IsCalm r (ok _) (some (x, rest)) t h = ground (arith, t x rest refl)
end_delete-IsCalm r (throw e) (some (x, rest)) t h = ground (arith, t x rest refl)

module _ (parse : Text → Option Value) (pretty_json : Fields → Text) (role : Option UserRole) where
  policy_event-IsCalm :
      (event : PolicyEvent) (r : PolicyRun)
      → IsCalm r
      → IsCalm (policy_event parse pretty_json role event r)
  unfolding policy_event create_panel edit_panel handle_create_policy_start handle_save_policy_start
      handle_delete_policy_start handle_create_policy_finish handle_save_policy_finish
      handle_delete_policy_finish begin_load load_policies_start load_policies_finish show_selected
      change_filter
  policy_event-IsCalm create_pressed r h = ground arith
  policy_event-IsCalm save_pressed r h = ground arith
  policy_event-IsCalm delete_pressed r h = ground arith
  policy_event-IsCalm refresh_pressed r h = ground arith
  policy_event-IsCalm prev_pressed r h = ground arith
  policy_event-IsCalm next_pressed r h = ground arith
  policy_event-IsCalm load_began r h = ground arith
  policy_event-IsCalm selection_shown r h = ground arith
  policy_event-IsCalm (create_answered n result) r h =
      end_create-IsCalm r result (take_call n r.creates) (take_call-IsTaken n r.creates) h
  policy_event-IsCalm (save_answered n result) r h =
      end_save-IsCalm r result (take_call n r.saves) (take_call-IsTaken n r.saves) h
  policy_event-IsCalm (delete_answered n result) r h =
      end_delete-IsCalm r result (take_call n r.deletes) (take_call-IsTaken n r.deletes) h
  policy_event-IsCalm (load_answered n result) r h = ground arith
  policy_event-IsCalm (policy_chosen id) r h = ground arith
  policy_event-IsCalm (filter_changed filter) r h = ground arith
  policy_event-IsCalm (create_filled input) r h = ground arith
  policy_event-IsCalm (edit_filled input) r h = ground arith

  -- From a page whose flags tell its calls, whatever the user presses, types and picks, and
  -- whatever the backend answers, in any order: creating, saving and deleting are each under way at
  -- most once, exactly while their flag is set, so no button sends its call twice.
  pub policy_events-IsCalm :
      (events : List PolicyEvent) (r : PolicyRun)
      → IsCalm r
      → IsCalm (policy_events parse pretty_json role events r)
  unfolding policy_events
  policy_events-IsCalm [] r h = h
  policy_events-IsCalm (event ∷ events) r h =
      policy_events-IsCalm events (policy_event parse pretty_json role event r)
        (policy_event-IsCalm event r h)
