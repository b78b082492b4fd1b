-- ===== src/Client/SessionWitnesses.antt =====
-- The theorems on what the request client stores and sends, applied where their assumptions hold.
use trusyn_ai.Prelude.{codes, ◌≡◌, ◌≢◌, ◌↔◌, refl, none, some, [], ◌∷◌}
use trusyn_ai.Runtime.Value.{Value, undefined, str, null, obj, blank, field}
use trusyn_ai.Runtime.Monad.{Exn, ok, throw}
use trusyn_ai.Session.Storage.{web_app, admin_panel, on_storage}
use trusyn_ai.Session.Tokens.{set_tokens, get_refresh_token, get_access_token}
use trusyn_ai.Session.User.{SessionUser, get_session_user, set_session_user}
use trusyn_ai.Session.Laws.{
  HasTexts, SameSession, get_session_user-set_session_user, get_session_user-HasTexts,
  set_tokens-SameSession,
}
use trusyn_ai.Client.Auth.{apply_auth_session, clear_auth_state, initials_from_name}
use trusyn_ai.Client.Refresh.{
  HasSession, tokens_of, user_of, apply_auth_session-HasSession, apply_auth_session-partial,
  clear_auth_state-clears,
}
use trusyn_ai.Client.Url.{build_url, build_query}
use trusyn_ai.Client.UrlLaws.{build_query-nil_iff, AllSkipped, EncodesPairs}
use trusyn_ai.Client.Sample.{env_with-KeepsSession, replies, account, ava}
use trusyn_ai.Client.Witnesses.{old_tokens, expired, granting, account-IsTokenResponse}

ava-HasTexts : HasTexts (user_of granting web_app ava (codes "Ava Sharma"))
ava-HasTexts = record {
  id = refl;
  organization_id = refl;
  name = refl;
  role = refl;
  email = refl;
  initials = refl;
}

apply_auth_session-HasSession_test :
    let (r, s') = apply_auth_session granting web_app account expired in
    (r ≡ ok tt)
    × HasSession granting web_app account ava (codes "Ava Sharma") s'
    × (s'.emitted ≡ 1)
    × (s'.sent ≡ [])
apply_auth_session-HasSession_test =
    apply_auth_session-HasSession granting web_app account ava (codes "Ava Sharma") expired
      (env_with-KeepsSession (replies 1)) account-IsTokenResponse ava-HasTexts

-- an account whose user has no name
abbrev nameless : Value
nameless = obj (
    field "access_token" (str (codes "new"))
      (field "user" (obj (field "full_name" null blank)) blank))

apply_auth_session-partial_test : apply_auth_session granting web_app nameless expired ≡ (
  throw Exn.other,
  on_storage (set_tokens web_app (tokens_of granting web_app nameless)) expired,
)
apply_auth_session-partial_test =
    apply_auth_session-partial granting web_app nameless
      (field "access_token" (str (codes "new"))
        (field "user" (obj (field "full_name" null blank)) blank))
      (field "full_name" null blank) expired refl refl refl

clear_auth_state-clears_test :
    let s' = clear_auth_state granting web_app expired in
    (get_access_token web_app s'.storage ≡ none)
    × (get_refresh_token web_app s'.storage ≡ none)
    × (get_session_user granting web_app s'.storage ≡ none)
    × (s'.emitted ≡ 1)
clear_auth_state-clears_test = clear_auth_state-clears granting web_app expired

initials_test : initials_from_name granting web_app (codes "ava sharma rao") ≡ codes "AS"
unfolding initials_from_name
initials_test = refl

abbrev ava_user : SessionUser
ava_user = user_of granting web_app ava (codes "Ava Sharma")

get_session_user-set_session_user_example :
    (get_session_user granting web_app (set_session_user granting web_app ava_user expired).storage
      ≡ some ava_user)
    × ((set_session_user granting web_app ava_user expired).emitted ≡ 1)
get_session_user-set_session_user_example =
    get_session_user-set_session_user granting web_app ava_user expired
      (env_with-KeepsSession (replies 1)) ava-HasTexts

ava_stored :
    get_session_user granting web_app (set_session_user granting web_app ava_user expired).storage
    ≡ some ava_user
ava_stored =
    (get_session_user-set_session_user granting web_app ava_user expired
      (env_with-KeepsSession (replies 1)) ava-HasTexts).0

get_session_user-HasTexts_example : HasTexts ava_user
get_session_user-HasTexts_example =
    get_session_user-HasTexts granting web_app
      (set_session_user granting web_app ava_user expired).storage ava_user ava_stored

panels_differ : web_app ≢ admin_panel
panels_differ = λ e. cc

set_tokens-SameSession_test :
    SameSession admin_panel expired.storage (set_tokens web_app old_tokens expired.storage)
set_tokens-SameSession_test =
    set_tokens-SameSession web_app admin_panel old_tokens expired.storage panels_differ

build_url_test : build_url granting (codes "agents") ≡ codes "http://localhost:8000/agents"
unfolding build_url
build_url_test = refl

granting-EncodesPairs : EncodesPairs granting
granting-EncodesPairs = record { empty = refl; nonempty = λ p ps. (b'&', _, refl) }

build_query-nil_iff_test :
    (build_query granting (some (("status", undefined) ∷ ("search", str []) ∷ [])) ≡ [])
    ↔ AllSkipped (("status", undefined) ∷ ("search", str []) ∷ [])
build_query-nil_iff_test =
    build_query-nil_iff granting (("status", undefined) ∷ ("search", str []) ∷ [])
      granting-EncodesPairs
