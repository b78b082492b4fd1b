-- ===== src/Pages/RunSamples.antt =====
-- The theorems on the policy page in use, applied to short runs.
use trusyn_ai.Prelude.{
  Text, codes, text_eq, ◌≡◌, refl, true, false, Option, none, some, List, [], ◌∷◌, length, trim,
}
use trusyn_ai.Runtime.Value.{Value, Fields, str, obj, blank, field}
use trusyn_ai.Runtime.Monad.{App, Env, Response, fulfilled, other, throw}
use trusyn_ai.Session.Storage.{web_app, on_storage}
use trusyn_ai.Session.Tokens.{TokenBundle, set_tokens, get_access_token, get_refresh_token}
use trusyn_ai.Session.User.{get_session_user}
use trusyn_ai.Session.Laws.{get_tokens-set_tokens}
use trusyn_ai.Client.Error.{safe_json_parse, to_api_error}
use trusyn_ai.Client.Auth.{refresh_request}
use trusyn_ai.Client.Refresh.{IsQuiet}
use trusyn_ai.Client.Request.{make_request}
use trusyn_ai.Client.Replies.{Replies, requested}
use trusyn_ai.Client.Sample.{env_with, legal_headers-env_with}
use trusyn_ai.Api.Services.{route_of}
use trusyn_ai.Auth.Route.{Location, next_location}
use trusyn_ai.Types.Common.{block}
use trusyn_ai.Types.Account.{org_admin, analyst}
use trusyn_ai.Types.Governance.{PolicyDto}
use trusyn_ai.Pages.Policies.{PolicyPage, all, empty_form, policy_id, selected_policy}
use trusyn_ai.Pages.Policies.Run.{
  PolicyRun, PolicyEvent, policy_event, policy_events, create_pressed, create_answered,
  delete_pressed, save_disabled, delete_disabled,
}
use trusyn_ai.Pages.Policies.Single.{IsCalm, policy_events-IsCalm}
use trusyn_ai.Pages.Policies.Screen.{create_panel, edit_panel}
use trusyn_ai.Pages.Policies.Readers.{IsIdle, policy_events-IsIdle}
use trusyn_ai.Pages.Policies.Removal.{removal, handle_delete_policy, handle_delete_policy-denied}

abbrev pub policy : PolicyDto
policy = record {
  id = codes "a";
  organization_id = codes "o1";
  name = codes "no export";
  description = none;
  rule_definition = blank;
  enforcement_action = block;
  enabled = true;
  created_at = [];
  updated_at = [];
}

abbrev pub page : PolicyPage
page = record {
  list = record {
    items = policy ∷ [];
    total = 1;
    limit = 25;
    offset = 0;
    selected_id = some (codes "a");
    loading = false;
    refreshing = false;
    error = none;
  };
  enabled_filter = all;
  saving = false;
  creating = false;
  deleting = false;
  success_message = none;
  edit = empty_form;
  create = record empty_form { name = codes " new " };
}

abbrev run : PolicyRun
run = record { page = page; creates = []; saves = []; deletes = []; loads = [] }

abbrev pub parse : Text → Option Value
parse t = some (obj blank)

abbrev print : Fields → Text
print fields = codes "{}"

-- a button that is pressed twice, and a deletion before the answer
abbrev double_press : List PolicyEvent
double_press =
    create_pressed
    ∷ create_pressed
    ∷ delete_pressed
    ∷ create_answered 0 (throw other)
    ∷ create_pressed
    ∷ []

run-IsCalm : IsCalm run
run-IsCalm = record { creating = refl; saving = refl; deleting = refl }

policy_events-IsCalm_example : IsCalm (policy_events parse print (some org_admin) double_press run)
policy_events-IsCalm_example =
    policy_events-IsCalm parse print (some org_admin) double_press run run-IsCalm

run-IsIdle : IsIdle run
run-IsIdle = record {
  creates = refl;
  saves = refl;
  deletes = refl;
  creating = refl;
  saving = refl;
  deleting = refl;
}

policy_events-IsIdle_example :
    let r' = policy_events parse print (some analyst) double_press run in
    IsIdle r'
    × ((create_panel (some analyst) r'.page).submit.disabled ≡ true)
    × (save_disabled (edit_panel (some analyst) r'.page) ≡ true)
    × (delete_disabled (edit_panel (some analyst) r'.page) ≡ true)
policy_events-IsIdle_example =
    policy_events-IsIdle parse print (some analyst) double_press run refl run-IsIdle

-- the second press sends nothing
double_press-sends :
    let r' =
      policy_event parse print
        (some org_admin)
        create_pressed
        (policy_event parse print (some org_admin) create_pressed run) in
    length r'.creates ≡ 1
unfolding policy_event trim
double_press-sends = refl

abbrev pub old_tokens : TokenBundle
old_tokens = record { access_token = codes "old"; refresh_token = codes "again" }

abbrev pub signed_out : App
signed_out = record { storage = λ k. none; refreshing = false; emitted = 0; sent = [] }

abbrev pub expired : App
expired = on_storage (set_tokens web_app old_tokens) signed_out

abbrev pub refused : Response
refused = record { status = 401; text = fulfilled (3 ∷ []) }

abbrev pub denying : Env
denying = env_with (λ n. fulfilled refused)

abbrev pub refused_body : Value
refused_body = obj (field "error" (obj (field "message" (str (codes "no")) blank)) blank)

abbrev pub encode : Text → Text
encode t = t

quiet : IsQuiet denying
quiet = record { storage = λ s. refl; refreshing = λ s. refl }

removal-Replies :
    Replies denying web_app expired
      (make_request denying web_app
        (route_of encode (removal policy)).0
        (route_of encode (removal policy)).1
        expired.storage)
      refused
      refused_body
unfolding safe_json_parse
removal-Replies = record {
  legal = search legal_headers-env_with;
  body = 3 ∷ [];
  settles = refl;
  reads = refl;
  parses = refl;
}

refresh-Replies :
    Replies denying web_app
      (record (requested denying web_app
        (route_of encode (removal policy)).0
        (route_of encode (removal policy)).1
        expired) { refreshing = true })
      (refresh_request denying web_app (codes "again"))
      refused
      refused_body
unfolding safe_json_parse
refresh-Replies = record {
  legal = search legal_headers-env_with;
  body = 3 ∷ [];
  settles = refl;
  reads = refl;
  parses = refl;
}

pub page-selected : selected_policy page ≡ some policy
unfolding selected_policy policy_id text_eq
page-selected = refl

handle_delete_policy-denied_example :
    let (p', s') = handle_delete_policy denying encode (some org_admin) page expired in
    (p'.list ≡ record (page.list) {
      error = some (to_api_error denying web_app refused refused_body).message;
    })
    × (p'.deleting ≡ false)
    × (get_access_token web_app s'.storage ≡ none)
    × (get_refresh_token web_app s'.storage ≡ none)
    × (get_session_user denying web_app s'.storage ≡ none)
    × (next_location (get_session_user denying web_app s'.storage) Location.policies
        ≡ Location.login)
handle_delete_policy-denied_example =
    handle_delete_policy-denied denying encode quiet (some org_admin) page policy expired refused
      refused refused_body refused_body (codes "again") refl page-selected removal-Replies refl
      (get_tokens-set_tokens web_app old_tokens signed_out.storage).1 refl refl refresh-Replies refl
