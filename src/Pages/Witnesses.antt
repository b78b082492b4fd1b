-- ===== src/Pages/Witnesses.antt =====
-- The theorems on the list pages, applied to a small list of policies.
use trusyn_ai.Prelude.{
  ◌<◌, ◌≡◌, ◌≢◌, refl, Text, text_eq, ne_of_text_eq, codes, true, false, Option, none, some, [],
  ◌∷◌, arith, map, if◌then◌else◌,
}
use trusyn_ai.Runtime.Value.{Value, blank, obj}
use trusyn_ai.Runtime.Monad.{ok}
use trusyn_ai.Types.Common.{PaginatedResult, block}
use trusyn_ai.Types.Account.{analyst, org_admin}
use trusyn_ai.Types.Governance.{PolicyDto}
use trusyn_ai.Pages.Listing.{Listing, has_id, load_finish, next_page, prev_page}
use trusyn_ai.Pages.Listing.Laws.{
  IsSelection, IsAligned, load_finish-IsSelection, prev_page-next_page, paging-IsAligned,
}
use trusyn_ai.Pages.Policies.{
  PolicyPage, all, empty_form, policy_id, returned, handle_create_policy_start,
  handle_save_policy_start, handle_delete_policy_start, handle_create_policy_finish,
  handle_save_policy_finish, handle_delete_policy_finish,
}
use trusyn_ai.Pages.Listing.Edits.{IsFirst}
use trusyn_ai.Pages.Policies.Laws.{
  find_policy, OnCall, IsCreateCall, handle_save_policy-find, handle_delete_policy-find,
  handle_delete_policy-loses_created, handlers-need-can_manage, handle_create_policy-IsComplete,
}

abbrev policy : Text → Text → PolicyDto
policy id name = record {
  id = id;
  organization_id = codes "o1";
  name = name;
  description = none;
  rule_definition = blank;
  enforcement_action = block;
  enabled = true;
  created_at = [];
  updated_at = [];
}

abbrev policy_a : PolicyDto
policy_a = policy (codes "a") (codes "no export")

abbrev policy_b : PolicyDto
policy_b = policy (codes "b") (codes "no prompts")

abbrev two_policies : Listing PolicyDto
two_policies = record {
  items = policy_a ∷ policy_b ∷ [];
  total = 60;
  limit = 25;
  offset = 25;
  selected_id = some (codes "b");
  loading = true;
  refreshing = false;
  error = none;
}

abbrev page : PolicyPage
page = record {
  list = two_policies;
  enabled_filter = all;
  saving = false;
  creating = false;
  deleting = false;
  success_message = none;
  edit = empty_form;
  create = record empty_form { name = codes " new " };
}

abbrev one_policy : PaginatedResult PolicyDto
one_policy = record { items = policy_a ∷ []; total = 1; limit = 25; offset = 0 }

load_finish-IsSelection_example :
    let l' =
      load_finish policy_id two_policies.selected_id (ok one_policy) (codes "x") two_policies in
    IsSelection policy_id l'.selected_id l'.items
    × (has_id policy_id two_policies.selected_id one_policy.items ≡ true
        → false ≡ false
        → l'.selected_id ≡ two_policies.selected_id)
load_finish-IsSelection_example =
    load_finish-IsSelection policy_id one_policy (codes "x") two_policies

prev_page-next_page_test :
    ((next_page two_policies).offset < 60) × (prev_page (next_page two_policies) ≡ two_policies)
prev_page-next_page_test = prev_page-next_page two_policies (omega arith) (omega arith)

paging-IsAligned_test : IsAligned (next_page two_policies) × IsAligned (prev_page two_policies)
paging-IsAligned_test = paging-IsAligned two_policies (1, omega arith)

handle_save_policy-find_test :
    let u = policy (codes "b") (codes "renamed") in
    let p' = handle_save_policy_finish (ok u) page in
    (find_policy (codes "b") p'.list.items ≡ (
      if text_eq (policy_id u) (codes "b")
      then (if has_id policy_id (some (codes "b")) page.list.items then some u else none)
      else find_policy (codes "b") page.list.items))
    × (map policy_id p'.list.items ≡ map policy_id page.list.items)
    × (p'.list.selected_id ≡ page.list.selected_id)
handle_save_policy-find_test =
    handle_save_policy-find (policy (codes "b") (codes "renamed")) (codes "b") page

b_ne_a : ◌≢◌ {A = Text} (codes "b") (codes "a")
unfolding text_eq
b_ne_a = ne_of_text_eq (codes "b") (codes "a") refl

handle_delete_policy-find_example :
    let p' = handle_delete_policy_finish page (codes "b") (ok tt) page in
    (has_id policy_id (some (codes "b")) p'.list.items ≡ false)
    × (find_policy (codes "a") p'.list.items ≡ find_policy (codes "a") page.list.items)
    × IsSelection policy_id p'.list.selected_id p'.list.items
    × IsFirst policy_id p'.list.selected_id p'.list.items
    × (p'.list.total ≡ 59)
handle_delete_policy-find_example =
    handle_delete_policy-find page page (codes "b") (codes "a") b_ne_a

b_ne_c : codes "b" ≢ policy_id (policy (codes "c") [])
unfolding policy_id text_eq
b_ne_c = ne_of_text_eq (codes "b") (codes "c") refl

handle_delete_policy-loses_created_test :
    let p' =
      handle_delete_policy_finish page
        (codes "b")
        (ok tt)
        (handle_create_policy_finish (ok (policy (codes "c") [])) page) in
    (has_id policy_id (some (policy_id (policy (codes "c") []))) p'.list.items ≡ false)
    × (p'.list.total ≡ 60)
unfolding policy_id text_eq
handle_delete_policy-loses_created_test =
    handle_delete_policy-loses_created (policy (codes "c") []) page (codes "b") refl b_ne_c

-- Any text is read as the empty object.
abbrev parse_empty : Text → Option Value
parse_empty text = some (obj blank)

handlers-need-can_manage_test :
    (handle_create_policy_start parse_empty (some analyst) page ≡ returned page)
    × (handle_save_policy_start parse_empty (some analyst) page ≡ returned page)
    × (handle_delete_policy_start (some analyst) page ≡ returned page)
handlers-need-can_manage_test = handlers-need-can_manage parse_empty (some analyst) page refl

handle_create_policy-IsComplete_example :
    OnCall
      (IsCreateCall parse_empty page)
      (handle_create_policy_start parse_empty (some org_admin) page)
handle_create_policy-IsComplete_example =
    handle_create_policy-IsComplete parse_empty (some org_admin) page
