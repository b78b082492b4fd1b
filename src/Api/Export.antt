-- ===== src/Api/Export.antt =====
-- `exportAuditCsv` of frontend/admin_panel/src/app/api/services/auditService.ts, which calls
-- `fetch` itself, and what it has in common with `apiRequest`.
use trusyn_ai.Prelude.{
  String, Text, codes, ◌≡◌, refl, false, Option, none, some, List, [], ◌∷◌, ◌++◌, arith,
  if◌then◌else◌, trim, drop_last_unit,
}
use trusyn_ai.Runtime.Value.{Value, str}
use trusyn_ai.Runtime.Monad.{
  App, Call, Env, Request, get, Response, fulfilled, other, throw, pure, raise, Storage, fetch,
  log_request, ◌>>=◌,
}
use trusyn_ai.Session.Storage.{admin_panel}
use trusyn_ai.Session.Tokens.{get_access_token}
use trusyn_ai.Client.Url.{api_base_url, build_url, query_pairs, build_query, question}
use trusyn_ai.Client.UrlLaws.{EncodesPairs}
use trusyn_ai.Prelude.{sym, append_assoc}
use trusyn_ai.Client.Error.{is_ok}
use trusyn_ai.Client.Refresh.{IsQuiet}
use trusyn_ai.Api.Endpoints.{export_audit_path}

-- `import.meta.env.VITE_API_BASE_URL || 'http://localhost:8000'`
abbrev pub export_base_url : Option Text → Text
export_base_url none = codes "http://localhost:8000"
export_base_url (some []) = codes "http://localhost:8000"
export_base_url (some (c ∷ raw)) = c ∷ raw

-- the query, and the organization that is set in it
abbrev pub export_pairs : Option Text → List (String × Text)
export_pairs none = ("format", codes "csv") ∷ []
export_pairs (some []) = ("format", codes "csv") ∷ []
export_pairs (some (c ∷ organization_id)) =
    ("format", codes "csv") ∷ ("organization_id", c ∷ organization_id) ∷ []

-- `getItem(...) ?? ''`
abbrev pub token_or_empty : Option Text → Text
token_or_empty none = []
token_or_empty (some token) = token

module _ (env : Env) where
  unfoldable pub export_url : Option Text → Text
  export_url organization_id =
      drop_last_unit b'/' (export_base_url env.base_url)
      ++ (export_audit_path ++ (b'?' ∷ env.form_encode (export_pairs organization_id)))

  unfoldable pub export_request : Option Text → Storage → Request
  unfolding export_url get_access_token
  export_request organization_id st = record {
    method = get;
    url = export_url organization_id;
    headers =
        ("Authorization", codes "Bearer " ++ token_or_empty (get_access_token admin_panel st)) ∷ [];
    body = none;
    signal = none;
  }

  -- The blob of the response is left to the caller: the call returns the response.
  unfoldable pub export_audit_csv : Option Text → Call Response
  unfolding export_request
  export_audit_csv organization_id s =
      (fetch env (export_request organization_id s.storage) >>= λ (response : Response).
      if is_ok response then pure response else raise other)
        s

  -- The export sends one request and renews nothing: with no other task at work the storage stays,
  -- and every response that is not a success, a 401 included, is thrown as a plain error.
  pub export_audit_csv-once :
      (organization_id : Option Text) (s : App)
      → IsQuiet env
      → let (res, s') = export_audit_csv organization_id s in
        let q = export_request organization_id s.storage in
        (s'.storage ≡ s.storage)
        × (s'.sent ≡ q ∷ s.sent)
        × ((r : Response)
            → env.settle (log_request q s) q ≡ fulfilled r
            → is_ok r ≡ false
            → res ≡ throw other)
  unfolding export_audit_csv
  export_audit_csv-once organization_id s quiet = (
    ground (arith, quiet.storage (log_request (export_request organization_id s.storage) s)),
    ground arith,
    λ (r : Response) e bad. ground (arith, e, bad),
  )

  -- The parameters of the export, as `apiRequest` would take them.
  abbrev pub export_params : Option Text → List (String × Value)
  export_params none = ("format", str (codes "csv")) ∷ []
  export_params (some []) = ("format", str (codes "csv")) ∷ []
  export_params (some (c ∷ organization_id)) =
      ("format", str (codes "csv")) ∷ ("organization_id", str (c ∷ organization_id)) ∷ []

  abbrev pub KeepsTexts : Type 0
  KeepsTexts = (t : Text) → env.to_text (str t) ≡ t

  query_pairs-export_params :
      (organization_id : Option Text)
      → KeepsTexts
      → query_pairs env (export_params organization_id) ≡ export_pairs organization_id
  unfolding query_pairs
  query_pairs-export_params none h = rw (h (codes "csv"))
  query_pairs-export_params (some []) h = rw (h (codes "csv"))
  query_pairs-export_params (some (c ∷ organization_id)) h =
      rw (h (codes "csv"), h (c ∷ organization_id))

  question-encode :
      (ps : List (String × Text)) (p : String × Text)
      → EncodesPairs env
      → question (env.form_encode (p ∷ ps)) ≡ b'?' ∷ env.form_encode (p ∷ ps)
  question-encode ps p h = let (c, t, e) = h.nonempty p ps in rw e refl

  question-export_pairs :
      (organization_id : Option Text)
      → EncodesPairs env
      → question (env.form_encode (export_pairs organization_id))
        ≡ b'?' ∷ env.form_encode (export_pairs organization_id)
  question-export_pairs none h = question-encode _ _ h
  question-export_pairs (some []) h = question-encode _ _ h
  question-export_pairs (some (c ∷ organization_id)) h = question-encode _ _ h

  export_base_url-api_base_url :
      (setting : Option Text)
      → ((raw : Text) → setting ≡ some raw → trim raw ≡ raw)
      → export_base_url setting ≡ api_base_url setting
  unfolding api_base_url
  export_base_url-api_base_url none h = refl
  export_base_url-api_base_url (some []) h = refl
  export_base_url-api_base_url (some (c ∷ raw)) h = rw (h (c ∷ raw) refl) refl

  -- The address that the export writes by hand is the one that the client would build for the
  -- same path and parameters, where the setting of the base address has no space around it.
  pub export_url-build_url :
      (organization_id : Option Text)
      → ((raw : Text) → env.base_url ≡ some raw → trim raw ≡ raw)
      → KeepsTexts
      → EncodesPairs env
      → export_url organization_id
        ≡ build_url env export_audit_path ++ build_query env (some (export_params organization_id))
  unfolding export_url build_url build_query
  export_url-build_url organization_id trimmed texts h =
      rw
        (
          export_base_url-api_base_url env.base_url trimmed,
          query_pairs-export_params organization_id texts,
          question-export_pairs organization_id h,
        )
        (sym (
          append_assoc (drop_last_unit b'/' (api_base_url env.base_url)) export_audit_path
            (b'?' ∷ env.form_encode (export_pairs organization_id))))
