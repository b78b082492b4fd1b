-- ===== src/Client/Url.antt =====
-- `buildUrl` and `buildQuery` of frontend/*/src/app/api/client.ts.
use trusyn_ai.Prelude.{
  String, Text, codes, Bool, true, false, Option, none, some, List, [], ◌∷◌, ◌++◌, if◌then◌else◌,
  trim, starts_with_unit, drop_last_unit, is_empty,
}
use trusyn_ai.Runtime.Value.{Value, undefined, null, str}
use trusyn_ai.Runtime.Monad.{Env}

-- `setting?.trim() || default`
unfoldable pub api_base_url : Option Text → Text
unfolding trim
api_base_url none = codes "http://localhost:8000"
api_base_url (some raw) = if is_empty (trim raw) then codes "http://localhost:8000" else trim raw

unfoldable pub build_url : Env → Text → Text
unfolding api_base_url
build_url env path =
    drop_last_unit b'/' (api_base_url env.base_url)
    ++ (if starts_with_unit b'/' path then path else b'/' ∷ path)

-- A parameter that `buildQuery` skips: undefined, null or the empty text.
abbrev pub is_skipped : Value → Bool
is_skipped undefined = true
is_skipped null = true
is_skipped (str []) = true
is_skipped _ = false

-- the loop of `buildQuery`: the pairs that are appended
unfoldable pub query_pairs : Env → List (String × Value) → List (String × Text)
query_pairs env [] = []
query_pairs env ((key, value) ∷ entries) =
    if is_skipped value
    then query_pairs env entries
    else (key, env.to_text value) ∷ query_pairs env entries

abbrev pub question : Text → Text
question [] = []
question (c ∷ s) = b'?' ∷ c ∷ s

unfoldable pub build_query : Env → Option (List (String × Value)) → Text
unfolding query_pairs
build_query env none = []
build_query env (some params) = question (env.form_encode (query_pairs env params))
