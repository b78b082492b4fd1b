-- ===== src/Pages/Policies/Removal.antt =====
-- The deletion of a policy from the button to the backend: handleDeletePolicy of
-- pages/PolicyEnginePage.tsx over policyService.remove and the client.
use trusyn_ai.Prelude.{Text, ◌≡◌, ◌∙◌, ap, refl, true, false, Option, none, some, arith, is_empty}
use trusyn_ai.Runtime.Value.{Value}
use trusyn_ai.Runtime.Monad.{App, Env, Response, Result, ok, throw, Exn}
use trusyn_ai.Session.Storage.{web_app}
use trusyn_ai.Session.Tokens.{get_access_token, get_refresh_token}
use trusyn_ai.Session.User.{get_session_user}
use trusyn_ai.Client.Error.{to_api_error, is_ok}
use trusyn_ai.Client.Auth.{refresh_request}
use trusyn_ai.Client.Refresh.{IsQuiet}
use trusyn_ai.Client.Request.{make_request}
use trusyn_ai.Client.Replies.{Replies, requested}
use trusyn_ai.Api.Services.{PolicyCall, ServiceCall, route_of, call_service}
use trusyn_ai.Api.Session.{call_service-denied}
use trusyn_ai.Auth.Route.{next_location, policies, login}
use trusyn_ai.Types.Account.{UserRole}
use trusyn_ai.Types.Governance.{PolicyDto}
use trusyn_ai.Pages.Policies.{
  PolicyPage, Started, returned, waits, can_manage, selected_policy, handle_delete_policy_start,
  handle_delete_policy_finish, fail_with, clear_messages,
}

-- the answer `{ status }`, which the handler drops
abbrev pub no_value : Result Value → Result (Unit {0})
no_value (ok v) = ok tt
no_value (throw e) = throw e

abbrev pub removal : PolicyDto → ServiceCall
removal policy = ServiceCall.policy (PolicyCall.remove policy.id)

pub handle_delete_policy_start-waits :
    (role : Option UserRole) (p : PolicyPage) (policy : PolicyDto)
    → can_manage role ≡ true
    → selected_policy p ≡ some policy
    → handle_delete_policy_start role p
      ≡ waits (record (clear_messages p) { deleting = true }) policy.id
unfolding handle_delete_policy_start
handle_delete_policy_start-waits role p policy m sel = ground (arith, m, sel)

module _ (env : Env) (encode : Text → Text) where
  -- the handler from its first call on, where no other handler of the page runs before the answer
  abbrev pub answer_deletion : PolicyPage → Started Text → App → PolicyPage × App
  answer_deletion closure (returned p) s = (p, s)
  answer_deletion closure (waits p id) s =
      let (res, s') =
        call_service env web_app encode (ServiceCall.policy (PolicyCall.remove id)) s in
      (handle_delete_policy_finish closure id (no_value res) p, s')

  unfoldable pub handle_delete_policy : Option UserRole → PolicyPage → App → PolicyPage × App
  unfolding handle_delete_policy_start handle_delete_policy_finish call_service
  handle_delete_policy role p s = answer_deletion p (handle_delete_policy_start role p) s

  answer_deletion-thrown :
      (closure p : PolicyPage) (id : Text) (s : App) (e : Exn)
      → (call_service env web_app encode (ServiceCall.policy (PolicyCall.remove id)) s).0 ≡ throw e
      → answer_deletion closure (waits p id) s ≡ (
        record (fail_with e p) { deleting = false },
        (call_service env web_app encode (ServiceCall.policy (PolicyCall.remove id)) s).1,
      )
  unfolding handle_delete_policy_finish
  answer_deletion-thrown closure p id s e failed = rw failed refl

  handle_delete_policy-thrown :
      (role : Option UserRole) (p : PolicyPage) (policy : PolicyDto) (s : App) (e : Exn)
      → can_manage role ≡ true
      → selected_policy p ≡ some policy
      → (call_service env web_app encode (removal policy) s).0 ≡ throw e
      → handle_delete_policy role p s ≡ (
        record (fail_with e (record (clear_messages p) { deleting = true })) { deleting = false },
        (call_service env web_app encode (removal policy) s).1,
      )
  unfolding handle_delete_policy
  handle_delete_policy-thrown role p policy s e m sel failed =
      ap (λ st. answer_deletion p st s) (handle_delete_policy_start-waits role p policy m sel)
      ∙ answer_deletion-thrown p _ policy.id s e failed

  -- A manager deletes the selected policy in a session that has expired: where the backend answers
  -- with a 401 and refuses the refresh, the policies, the selection and the total stay, the message
  -- of the 401 is the error of the page, the button is free again, no token and no user is left,
  -- and the page leads to the login.
  pub handle_delete_policy-denied :
      (quiet : IsQuiet env) (role : Option UserRole) (p : PolicyPage) (policy : PolicyDto) (s : App)
      (r r' : Response) (v v' : Value) (token : Text)
      → can_manage role ≡ true
      → selected_policy p ≡ some policy
      → let (path, o) = route_of encode (removal policy) in
        Replies env web_app s (make_request env web_app path o s.storage) r v
        → r.status ≡ 401
        → get_refresh_token web_app s.storage ≡ some token
        → is_empty token ≡ false
        → s.refreshing ≡ false
        → Replies env web_app
            (record (requested env web_app path o s) { refreshing = true })
            (refresh_request env web_app token)
            r'
            v'
        → is_ok r' ≡ false
        → let (p', s') = handle_delete_policy role p s in
          (p'.list ≡ record (p.list) { error = some (to_api_error env web_app r v).message })
          × (p'.deleting ≡ false)
          × (get_access_token web_app s'.storage ≡ none)
          × (get_refresh_token web_app s'.storage ≡ none)
          × (get_session_user env web_app s'.storage ≡ none)
          × (next_location (get_session_user env web_app s'.storage) policies ≡ login)
  unfolding next_location
  handle_delete_policy-denied quiet role p policy s r r' v v' token m sel h status stored full idle
        h' bad =
      let (failed, access, refresh, user) =
        call_service-denied env web_app encode quiet (removal policy) s r r' v v' token h status
          stored full idle h' bad in
      let eq = handle_delete_policy-thrown role p policy s _ m sel failed in
      rw eq (refl, refl, access, refresh, user, rw user refl)
