-- ===== src/Pages/Policies/Run.antt =====
-- The policy page while it is used: what the user presses and types, the loads of its effect, and
-- the answers of the backend, in any order. A button does nothing while it is disabled. A call
-- that is under way is kept with what its handler goes on with.
use trusyn_ai.Prelude.{ℕ, Text, Bool, true, false, Option, none, some, List, [], ◌∷◌, if◌then◌else◌}
use trusyn_ai.Runtime.Value.{Value, Fields}
use trusyn_ai.Runtime.Monad.{Result}
use trusyn_ai.Types.Common.{PaginatedResult}
use trusyn_ai.Types.Account.{UserRole}
use trusyn_ai.Types.Governance.{PolicyDto}
use trusyn_ai.Pages.Listing.{prev_page, next_page}
use trusyn_ai.Pages.Screen.Calls.{take_call}
use trusyn_ai.Pages.Fields.{FormInput, choose_policy, fill_create, fill_edit}
use trusyn_ai.Pages.Policies.{
  PolicyPage, PolicyCreatePayload, EnabledFilter, Started, returned, waits,
  handle_create_policy_start, handle_save_policy_start, handle_delete_policy_start,
  handle_create_policy_finish, handle_save_policy_finish, handle_delete_policy_finish,
  load_policies_start, load_policies_finish, show_selected, change_filter,
}
use trusyn_ai.Pages.Policies.Screen.{create_panel, edit_panel, EditPanel, hint, editor}

-- the page and its calls; a deletion and a load keep the page that their handler was made with
pub record PolicyRun : Type 0 where
  pub page : PolicyPage
  pub creates : List PolicyCreatePayload
  pub saves : List (Text × PolicyCreatePayload)
  pub deletes : List (PolicyPage × Text)
  pub loads : List PolicyPage

pub data PolicyEvent : Type 0 where
  create_pressed save_pressed delete_pressed refresh_pressed : PolicyEvent
  prev_pressed next_pressed : PolicyEvent
  load_began selection_shown : PolicyEvent
  create_answered save_answered : ℕ → Result PolicyDto → PolicyEvent
  delete_answered : ℕ → Result (Unit {0}) → PolicyEvent
  load_answered : ℕ → Result (PaginatedResult PolicyDto) → PolicyEvent
  policy_chosen : Text → PolicyEvent
  filter_changed : EnabledFilter → PolicyEvent
  create_filled edit_filled : FormInput → PolicyEvent

abbrev pub set_page : PolicyRun → PolicyPage → PolicyRun
set_page r p = record r { page = p }

abbrev pub begin_create : PolicyRun → Started PolicyCreatePayload → PolicyRun
begin_create r (returned p) = set_page r p
begin_create r (waits p x) = record r { page = p; creates = x ∷ r.creates }

abbrev pub begin_save : PolicyRun → Started (Text × PolicyCreatePayload) → PolicyRun
begin_save r (returned p) = set_page r p
begin_save r (waits p x) = record r { page = p; saves = x ∷ r.saves }

-- the closure of a deletion is the page whose button was pressed
abbrev pub begin_delete : PolicyRun → Started Text → PolicyRun
begin_delete r (returned p) = set_page r p
begin_delete r (waits p id) = record r { page = p; deletes = (r.page, id) ∷ r.deletes }

unfoldable pub begin_load : Bool → PolicyRun → PolicyRun
unfolding load_policies_start
begin_load refresh r = record r {
  page = load_policies_start refresh r.page;
  loads = r.page ∷ r.loads;
}

-- the answers, to a call that is under way
abbrev pub end_create :
    PolicyRun
    → Result PolicyDto
    → Option (PolicyCreatePayload × List PolicyCreatePayload)
    → PolicyRun
end_create r result none = r
end_create r result (some (x, rest)) = record r {
  page = handle_create_policy_finish result r.page;
  creates = rest;
}

abbrev pub end_save :
    PolicyRun
    → Result PolicyDto
    → Option ((Text × PolicyCreatePayload) × List (Text × PolicyCreatePayload))
    → PolicyRun
end_save r result none = r
end_save r result (some (x, rest)) = record r {
  page = handle_save_policy_finish result r.page;
  saves = rest;
}

abbrev pub end_delete :
    PolicyRun
    → Result (Unit {0})
    → Option ((PolicyPage × Text) × List (PolicyPage × Text))
    → PolicyRun
end_delete r result none = r
end_delete r result (some ((closure, id), rest)) = record r {
  page = handle_delete_policy_finish closure id result r.page;
  deletes = rest;
}

abbrev pub end_load :
    PolicyRun
    → Result (PaginatedResult PolicyDto)
    → Option (PolicyPage × List PolicyPage)
    → PolicyRun
end_load r result none = r
end_load r result (some (closure, rest)) = record r {
  page = load_policies_finish closure result r.page;
  loads = rest;
}

-- the two buttons of the edit panel, which are there if a policy is selected
abbrev pub save_disabled : EditPanel → Bool
save_disabled (hint text) = true
save_disabled (editor form save delete) = save.disabled

abbrev pub delete_disabled : EditPanel → Bool
delete_disabled (hint text) = true
delete_disabled (editor form save delete) = delete.disabled

module _ (parse : Text → Option Value) (pretty_json : Fields → Text) (role : Option UserRole) where
  unfoldable pub policy_event : PolicyEvent → PolicyRun → PolicyRun
  unfolding create_panel edit_panel handle_create_policy_start handle_save_policy_start
      handle_delete_policy_start handle_create_policy_finish handle_save_policy_finish
      handle_delete_policy_finish begin_load load_policies_finish show_selected change_filter
      prev_page next_page
  policy_event create_pressed r =
      if (create_panel role r.page).submit.disabled
      then r
      else begin_create r (handle_create_policy_start parse role r.page)
  policy_event save_pressed r =
      if save_disabled (edit_panel role r.page)
      then r
      else begin_save r (handle_save_policy_start parse role r.page)
  policy_event delete_pressed r =
      if delete_disabled (edit_panel role r.page)
      then r
      else begin_delete r (handle_delete_policy_start role r.page)
  policy_event refresh_pressed r = if r.page.list.refreshing then r else begin_load true r
  policy_event prev_pressed r = set_page r (record (r.page) { list = prev_page r.page.list })
  policy_event next_pressed r = set_page r (record (r.page) { list = next_page r.page.list })
  policy_event load_began r = begin_load false r
  policy_event selection_shown r = set_page r (show_selected pretty_json r.page)
  policy_event (create_answered n result) r = end_create r result (take_call n r.creates)
  policy_event (save_answered n result) r = end_save r result (take_call n r.saves)
  policy_event (delete_answered n result) r = end_delete r result (take_call n r.deletes)
  policy_event (load_answered n result) r = end_load r result (take_call n r.loads)
  policy_event (policy_chosen id) r = set_page r (choose_policy id r.page)
  policy_event (filter_changed filter) r = set_page r (change_filter filter r.page)
  policy_event (create_filled input) r = set_page r (fill_create input r.page)
  policy_event (edit_filled input) r = set_page r (fill_edit input r.page)

  unfoldable pub policy_events : List PolicyEvent → PolicyRun → PolicyRun
  unfolding policy_event
  policy_events [] r = r
  policy_events (event ∷ events) r = policy_events events (policy_event event r)
