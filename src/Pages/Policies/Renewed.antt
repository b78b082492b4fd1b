-- ===== src/Pages/Policies/Renewed.antt =====
-- The deletion of a policy from the button to the backend, in a session that is renewed on the way:
-- handleDeletePolicy of pages/PolicyEnginePage.tsx over policyService.remove and the client.
use trusyn_ai.Prelude.{
  ◌+◌, ◌-◌, length, Text, ◌≡◌, ◌≢◌, ◌∙◌, ap, refl, true, false, Option, none, some,
}
use trusyn_ai.Runtime.Value.{Value}
use trusyn_ai.Runtime.Monad.{App, Env, Response, ok}
use trusyn_ai.Session.Storage.{web_app}
use trusyn_ai.Session.Tokens.{get_access_token, get_refresh_token}
use trusyn_ai.Client.Refresh.{IsQuiet, tokens_of}
use trusyn_ai.Client.Request.{make_request}
use trusyn_ai.Client.Replies.{Replies}
use trusyn_ai.Client.Repeat.{Recovers}
use trusyn_ai.Api.Services.{PolicyCall, ServiceCall, route_of, call_service}
use trusyn_ai.Api.Session.{call_service-Recovers}
use trusyn_ai.Types.Account.{UserRole}
use trusyn_ai.Types.Governance.{PolicyDto}
use trusyn_ai.Pages.Listing.{has_id}
use trusyn_ai.Pages.Listing.Edits.{IsFirst}
use trusyn_ai.Pages.Policies.Laws.{find_policy, handle_delete_policy-find}
use trusyn_ai.Pages.Policies.{
  PolicyPage, waits, can_manage, policy_id, selected_policy, handle_delete_policy_finish,
  clear_messages,
}
use trusyn_ai.Pages.Policies.Removal.{
  removal, answer_deletion, handle_delete_policy, handle_delete_policy_start-waits,
}

module _ (env : Env) (encode : Text → Text) where
  answer_deletion-done :
      (closure p : PolicyPage) (id : Text) (s : App) (w : Value)
      → (call_service env web_app encode (ServiceCall.policy (PolicyCall.remove id)) s).0 ≡ ok w
      → answer_deletion env encode closure (waits p id) s ≡ (
        handle_delete_policy_finish closure id (ok tt) p,
        (call_service env web_app encode (ServiceCall.policy (PolicyCall.remove id)) s).1,
      )
  answer_deletion-done closure p id s w done = rw done refl

  handle_delete_policy-done :
      (role : Option UserRole) (p : PolicyPage) (policy : PolicyDto) (s : App) (w : Value)
      → can_manage role ≡ true
      → selected_policy p ≡ some policy
      → (call_service env web_app encode (removal policy) s).0 ≡ ok w
      → handle_delete_policy env encode role p s ≡ (
        handle_delete_policy_finish p policy.id
            (ok tt)
            (record (clear_messages p) { deleting = true }),
        (call_service env web_app encode (removal policy) s).1,
      )
  unfolding handle_delete_policy
  handle_delete_policy-done role p policy s w m sel done =
      ap (λ st. answer_deletion env encode p st s)
        (handle_delete_policy_start-waits role p policy m sel)
      ∙ answer_deletion-done p _ policy.id s w done

  -- A manager deletes the selected policy with an access token that has expired, while the session
  -- can be renewed and no other task is at work: after three requests its id finds no policy in the
  -- list, every other id finds what it found, the total is one less, the selection is on the first
  -- policy that is left, or on none, the page shows no error and its button is free again, and both
  -- new tokens are stored.
  pub handle_delete_policy-renewed :
      (quiet : IsQuiet env) (role : Option UserRole) (p : PolicyPage) (policy : PolicyDto)
      (other : Text) (s : App) (r : Response) (v : Value) (token : Text) (d user : Value)
      (name : Text) (w : Value)
      → policy.id ≢ other
      → can_manage role ≡ true
      → selected_policy p ≡ some policy
      → let (path, o) = route_of encode (removal policy) in
        Replies env web_app s (make_request env web_app path o s.storage) r v
        → r.status ≡ 401
        → Recovers env web_app path o token d user name w s
        → let (p', s') = handle_delete_policy env encode role p s in
          (has_id policy_id (some policy.id) p'.list.items ≡ false)
          × (find_policy other p'.list.items ≡ find_policy other p.list.items)
          × (p'.list.total ≡ p.list.total - 1)
          × IsFirst policy_id p'.list.selected_id p'.list.items
          × (p'.list.error ≡ none)
          × (p'.deleting ≡ false)
          × (get_access_token web_app s'.storage ≡ some (tokens_of env web_app d).access_token)
          × (get_refresh_token web_app s'.storage ≡ some (tokens_of env web_app d).refresh_token)
          × (length s'.sent ≡ 3 + length s.sent)
  unfolding handle_delete_policy_finish
  handle_delete_policy-renewed quiet role p policy other s r v token d user name w ne m sel h status
        recovers =
      let (done, access, refresh, sent) =
        call_service-Recovers env web_app encode quiet (removal policy) s r v token d user name w h
          status recovers in
      let (gone, kept, selection, first, total) =
        handle_delete_policy-find p (record (clear_messages p) { deleting = true }) policy.id other
          ne in
      rw (handle_delete_policy-done role p policy s w m sel done)
        (gone, kept, total, first, refl, refl, access, refresh, sent)
