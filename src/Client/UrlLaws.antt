-- ===== src/Client/UrlLaws.antt =====
-- The addresses that `buildUrl` and `buildQuery` make (frontend/*/src/app/api/client.ts).
use trusyn_ai.Prelude.{String, Text, ◌≡◌, ◌↔◌, refl, true, some, List, [], ◌∷◌, arith}
use trusyn_ai.Runtime.Value.{Value}
use trusyn_ai.Runtime.Monad.{Env}
use trusyn_ai.Client.Url.{is_skipped, question, query_pairs, build_query}

-- Every parameter is one that is skipped.
abbrev pub AllSkipped : List (String × Value) → Type 0
AllSkipped [] = Unit
AllSkipped ((key, value) ∷ entries) = (is_skipped value ≡ true) × AllSkipped entries

-- The encoder of the platform gives the empty text for no pair, and only then.
pub record EncodesPairs (env : Env) : Type 0 where
  pub empty : env.form_encode [] ≡ []
  pub nonempty :
      (p : String × Text) (ps : List (String × Text))
      → (c : _) × (t : Text) × (env.form_encode (p ∷ ps) ≡ c ∷ t)

query_pairs-nil_iff :
    (env : Env) (params : List (String × Value)) → (query_pairs env params ≡ []) ↔ AllSkipped params
unfolding query_pairs
query_pairs-nil_iff env [] = (λ h. tt, λ h. refl)
query_pairs-nil_iff env ((key, value) ∷ entries) = ground (arith, query_pairs-nil_iff env entries)

question-encode :
    (env : Env) (ps : List (String × Text))
    → EncodesPairs env
    → (question (env.form_encode ps) ≡ []) ↔ (ps ≡ [])
question-encode env [] h = (λ e. refl, λ e. rw h.empty)
question-encode env (p ∷ ps) h =
    let (c, t, e) = h.nonempty p ps in (λ x. absurd (cc (e, x)), λ x. absurd (cc))

-- The query is empty exactly when every parameter is undefined, null or the empty text: no other
-- parameter is lost, and no `?` stands without one.
pub build_query-nil_iff :
    (env : Env) (params : List (String × Value))
    → EncodesPairs env
    → (build_query env (some params) ≡ []) ↔ AllSkipped params
unfolding build_query
build_query-nil_iff env params h =
    let a = question-encode env (query_pairs env params) h in
    let b = query_pairs-nil_iff env params in (λ e. b.0 (a.0 e), λ e. a.1 (b.1 e))
