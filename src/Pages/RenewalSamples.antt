-- ===== src/Pages/RenewalSamples.antt =====
-- The deletion of a policy in an expired session, where the backend grants the refresh.
use trusyn_ai.Prelude.{
  Text, codes, ◌≡◌, ◌≢◌, text_eq, ne_of_text_eq, false, ◌+◌, ◌-◌, refl, false, none, some, [], ◌∷◌,
  length,
}
use trusyn_ai.Runtime.Value.{Value, obj, blank, field}
use trusyn_ai.Runtime.Monad.{Env, Response, fulfilled}
use trusyn_ai.Session.Storage.{web_app}
use trusyn_ai.Session.Tokens.{get_access_token, get_refresh_token}
use trusyn_ai.Session.User.{set_session_user}
use trusyn_ai.Session.Laws.{get_tokens-set_tokens}
use trusyn_ai.Client.Error.{safe_json_parse}
use trusyn_ai.Client.Refresh.{IsQuiet, tokens_of}
use trusyn_ai.Client.Request.{RequestOptions, make_request}
use trusyn_ai.Client.Replies.{Replies}
use trusyn_ai.Client.Repeat.{Recovers}
use trusyn_ai.Client.Sample.{legal_headers-env_with, env_with, replies, account, ava}
use trusyn_ai.Api.Services.{route_of}
use trusyn_ai.Types.Account.{org_admin}
use trusyn_ai.Pages.Listing.{has_id}
use trusyn_ai.Pages.Listing.Edits.{IsFirst}
use trusyn_ai.Pages.Policies.Laws.{find_policy}
use trusyn_ai.Pages.Policies.{policy_id}
use trusyn_ai.Pages.Policies.Removal.{removal, handle_delete_policy}
use trusyn_ai.Pages.Policies.Renewed.{handle_delete_policy-renewed}
use trusyn_ai.Pages.RunSamples.{
  policy, page, page-selected, signed_out, expired, old_tokens, refused, refused_body, encode,
}

-- the first request is refused, the others are answered with an account
abbrev granting : Env
granting = env_with (replies 1)

granting-IsQuiet : IsQuiet granting
granting-IsQuiet = record { storage = λ s. refl; refreshing = λ s. refl }

abbrev granted : Response
granted = record { status = 200; text = fulfilled (2 ∷ []) }

abbrev granted_body : Value
granted_body = obj (field "data" account blank)

abbrev removal_path : Text
removal_path = (route_of encode (removal policy)).0

abbrev removal_options : RequestOptions
removal_options = (route_of encode (removal policy)).1

removal-Replies :
    Replies granting web_app expired
      (make_request granting web_app removal_path removal_options expired.storage)
      refused
      refused_body
unfolding safe_json_parse
removal-Replies = record {
  legal = search legal_headers-env_with;
  body = 3 ∷ [];
  settles = refl;
  reads = refl;
  parses = refl;
}

expired-Recovers :
    Recovers granting web_app removal_path removal_options
      (codes "again")
      account
      ava
      (codes "Ava Sharma")
      account
      expired
unfolding safe_json_parse set_session_user
expired-Recovers = record {
  stored = (get_tokens-set_tokens web_app old_tokens signed_out.storage).1;
  full = refl;
  idle = refl;
  granted = granted;
  grant = granted_body;
  refreshed = record {
    legal = search legal_headers-env_with;
    body = 2 ∷ [];
    settles = refl;
    reads = refl;
    parses = refl;
  };
  good = refl;
  object = refl;
  grant_data = refl;
  tokens = record {
    fields = _;
    is_obj = refl;
    user_eq = refl;
    user_fields = _;
    user_obj = refl;
    name_eq = refl;
  };
  truthy = refl;
  second = granted;
  body = granted_body;
  repeated = record {
    legal = search legal_headers-env_with;
    body = 2 ∷ [];
    settles = refl;
    reads = refl;
    parses = refl;
  };
  second_good = refl;
  second_object = refl;
  body_data = refl;
}

a_ne_z : policy.id ≢ codes "z"
unfolding text_eq
a_ne_z = ne_of_text_eq (codes "a") (codes "z") refl

handle_delete_policy-renewed_example :
    let (p', s') = handle_delete_policy granting encode (some org_admin) page expired in
    (has_id policy_id (some policy.id) p'.list.items ≡ false)
    × (find_policy (codes "z") p'.list.items ≡ find_policy (codes "z") page.list.items)
    × (p'.list.total ≡ page.list.total - 1)
    × IsFirst policy_id p'.list.selected_id p'.list.items
    × (p'.list.error ≡ none)
    × (p'.deleting ≡ false)
    × (get_access_token web_app s'.storage ≡ some (tokens_of granting web_app account).access_token)
    × (get_refresh_token web_app s'.storage
        ≡ some (tokens_of granting web_app account).refresh_token)
    × (length s'.sent ≡ 3 + length expired.sent)
handle_delete_policy-renewed_example =
    handle_delete_policy-renewed granting encode granting-IsQuiet (some org_admin) page policy
      (codes "z") expired refused refused_body (codes "again") account ava (codes "Ava Sharma")
      account a_ne_z refl page-selected removal-Replies refl expired-Recovers
