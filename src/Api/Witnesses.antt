-- ===== src/Api/Witnesses.antt =====
-- The theorems on the services, applied to calls of both applications.
use trusyn_ai.Prelude.{ℕ, Text, codes, ◌≡◌, refl, true, false, none, some, [], ◌∷◌, ◌++◌, trim}
use trusyn_ai.Runtime.Value.{Value, str, obj, blank, field}
use trusyn_ai.Runtime.Monad.{App, Env, Response, Settled, fulfilled, api, other, throw, log_request}
use trusyn_ai.Session.Storage.{admin_panel, on_storage}
use trusyn_ai.Session.Tokens.{TokenBundle, set_tokens, get_access_token, get_refresh_token}
use trusyn_ai.Session.User.{get_session_user}
use trusyn_ai.Session.Laws.{get_tokens-set_tokens}
use trusyn_ai.Client.Url.{build_url, build_query}
use trusyn_ai.Client.UrlLaws.{EncodesPairs}
use trusyn_ai.Client.Error.{safe_json_parse, to_api_error, is_ok}
use trusyn_ai.Client.Auth.{refresh_request}
use trusyn_ai.Client.Refresh.{IsQuiet}
use trusyn_ai.Client.Request.{make_request}
use trusyn_ai.Client.Replies.{Replies, requested}
use trusyn_ai.Client.Sample.{env_with, legal_headers-env_with}
use trusyn_ai.Api.Endpoints.{export_audit_path}
use trusyn_ai.Api.Services.{
  AgentCall, ThreatCall, ServiceCall, agent, threat, route_of, call_service,
}
use trusyn_ai.Api.Laws.{IsRoute, route_of-IsRoute}
use trusyn_ai.Api.Session.{call_service-denied}
use trusyn_ai.Api.Export.{
  export_request, export_audit_csv, export_url, export_params, export_audit_csv-once,
  export_url-build_url,
}

abbrev old_tokens : TokenBundle
old_tokens = record { access_token = codes "old"; refresh_token = codes "again" }

abbrev signed_out : App
signed_out = record { storage = λ k. none; refreshing = false; emitted = 0; sent = [] }

abbrev expired : App
expired = on_storage (set_tokens admin_panel old_tokens) signed_out

abbrev refuse : ℕ → Settled Response
refuse n = fulfilled (record { status = 401; text = fulfilled (3 ∷ []) })

abbrev denying : Env
denying = env_with refuse

abbrev refused : Response
refused = record { status = 401; text = fulfilled (3 ∷ []) }

abbrev refused_body : Value
refused_body = obj (field "error" (obj (field "message" (str (codes "no")) blank)) blank)

abbrev encode : Text → Text
encode t = t

-- An investigation of a threat, and the removal of an agent.
abbrev investigation : ServiceCall
investigation = threat (ThreatCall.investigation (codes "t7"))

abbrev agent_removal : ServiceCall
agent_removal = agent (AgentCall.remove (codes "a1"))

route_of-IsRoute_test : IsRoute (route_of encode investigation).0 (route_of encode investigation).1
route_of-IsRoute_test = route_of-IsRoute encode investigation

quiet : IsQuiet denying
quiet = record { storage = λ s. refl; refreshing = λ s. refl }

agent_removal-Replies :
    Replies denying admin_panel expired
      (make_request denying admin_panel
        (route_of encode agent_removal).0
        (route_of encode agent_removal).1
        expired.storage)
      refused
      refused_body
unfolding safe_json_parse
agent_removal-Replies = record {
  legal = search legal_headers-env_with;
  body = 3 ∷ [];
  settles = refl;
  reads = refl;
  parses = refl;
}

refresh-Replies :
    Replies denying admin_panel
      (record (requested denying admin_panel
        (route_of encode agent_removal).0
        (route_of encode agent_removal).1
        expired) { refreshing = true })
      (refresh_request denying admin_panel (codes "again"))
      refused
      refused_body
unfolding safe_json_parse
refresh-Replies = record {
  legal = search legal_headers-env_with;
  body = 3 ∷ [];
  settles = refl;
  reads = refl;
  parses = refl;
}

call_service-denied_example :
    let (res, s') = call_service denying admin_panel encode agent_removal expired in
    (res ≡ throw (api (to_api_error denying admin_panel refused refused_body)))
    × (get_access_token admin_panel s'.storage ≡ none)
    × (get_refresh_token admin_panel s'.storage ≡ none)
    × (get_session_user denying admin_panel s'.storage ≡ none)
call_service-denied_example =
    call_service-denied denying admin_panel encode quiet agent_removal expired refused refused
      refused_body refused_body (codes "again") agent_removal-Replies refl
      (get_tokens-set_tokens admin_panel old_tokens signed_out.storage).1 refl refl refresh-Replies
      refl

abbrev org : Text
org = codes "o1"

export_audit_csv-once_test :
    let (res, s') = export_audit_csv denying (some org) expired in
    let q = export_request denying (some org) expired.storage in
    (s'.storage ≡ expired.storage)
    × (s'.sent ≡ q ∷ expired.sent)
    × ((r : Response)
        → denying.settle (log_request q expired) q ≡ fulfilled r
        → is_ok r ≡ false
        → res ≡ throw other)
export_audit_csv-once_test = export_audit_csv-once denying (some org) expired quiet

denying-EncodesPairs : EncodesPairs denying
denying-EncodesPairs = record { empty = refl; nonempty = λ p ps. (b'&', _, refl) }

no_setting : (raw : Text) → denying.base_url ≡ some raw → trim raw ≡ raw
no_setting raw e = cc

export_url-build_url_example :
    export_url denying (some org)
    ≡ build_url denying export_audit_path
      ++ build_query denying (some (export_params denying (some org)))
export_url-build_url_example =
    export_url-build_url denying (some org) no_setting (λ t. refl) denying-EncodesPairs
