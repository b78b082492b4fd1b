-- ===== src/Session/View.antt =====
-- What the session store promises, without keys and JSON: each application has two tokens and a
-- user, and four operations on them. The storage and its texts implement it.
use trusyn_ai.Prelude.{
  Text, ◌≡◌, refl, ◌∙◌, ap, Bool, true, false, Option, none, some, List, [], ◌∷◌, if◌then◌else◌,
}
use trusyn_ai.Runtime.Monad.{App, Storage, Env}
use trusyn_ai.Session.Storage.{
  Panel, web_app, admin_panel, on_storage, get_item, set_item, remove_item, access_key, refresh_key,
  session_key,
}
use trusyn_ai.Session.Tokens.{
  TokenBundle, get_access_token, get_refresh_token, set_tokens, clear_tokens,
}
use trusyn_ai.Session.User.{SessionUser, get_session_user, set_session_user, clear_session_user}
use trusyn_ai.Session.Laws.{KeepsSession, HasTexts, get_session_user-set_session_user}

-- The abstract session of an application.
pub record Session : Type 0 where
  pub access : Option Text
  pub refresh : Option Text
  pub user : Option SessionUser

-- A user that may be stored has six texts.
pub record TextUser : Type 0 where
  pub user : SessionUser
  pub texts : HasTexts user

pub data Operation : Type 0 where
  store_tokens : TokenBundle → Operation
  drop_tokens : Operation
  store_user : TextUser → Operation
  drop_user : Operation

-- what an operation means for the abstract session
abbrev pub meaning : Operation → Session → Session
meaning (store_tokens tokens) a = record a {
  access = some tokens.access_token;
  refresh = some tokens.refresh_token;
}
meaning drop_tokens a = record a { access = none; refresh = none }
meaning (store_user u) a = record a { user = some u.user }
meaning drop_user a = record a { user = none }

abbrev pub same_panel : Panel → Panel → Bool
same_panel web_app web_app = true
same_panel admin_panel admin_panel = true
same_panel _ _ = false

module _ (env : Env) where
  -- what an application reads
  abbrev pub session_view : Panel → Storage → Session
  session_view p st = record {
    access = get_access_token p st;
    refresh = get_refresh_token p st;
    user = get_session_user env p st;
  }

  -- the operation of the source
  abbrev pub run_operation : Panel → Operation → App → App
  run_operation p (store_tokens tokens) s = on_storage (set_tokens p tokens) s
  run_operation p drop_tokens s = on_storage (clear_tokens p) s
  run_operation p (store_user u) s = set_session_user env p u.user s
  run_operation p drop_user s = clear_session_user env p s

  abbrev pub run_all : List (Panel × Operation) → App → App
  run_all [] s = s
  run_all ((p, op) ∷ ops) s = run_all ops (run_operation p op s)

  -- the operations of one application alone, in the abstract
  abbrev pub meaning_for : Panel → List (Panel × Operation) → Session → Session
  meaning_for q [] a = a
  meaning_for q ((p, op) ∷ ops) a = meaning_for q ops (if same_panel p q then meaning op a else a)

  run_operation-view :
      (laws : KeepsSession env) (p q : Panel) (op : Operation) (s : App)
      → session_view q (run_operation p op s).storage ≡ (
          if same_panel p q
          then meaning op (session_view q s.storage)
          else session_view q s.storage)
  unfolding get_access_token get_refresh_token get_session_user set_tokens clear_tokens
      set_session_user clear_session_user get_item set_item remove_item access_key refresh_key
      session_key
  run_operation-view laws web_app web_app (store_tokens tokens) s = refl
  run_operation-view laws web_app web_app drop_tokens s = refl
  run_operation-view laws web_app web_app (store_user u) s =
      ap (λ (o : Option SessionUser). record (session_view web_app s.storage) { user = o })
        (get_session_user-set_session_user env web_app u.user s laws u.texts).0
  run_operation-view laws web_app web_app drop_user s = refl
  run_operation-view laws web_app admin_panel (store_tokens tokens) s = refl
  run_operation-view laws web_app admin_panel drop_tokens s = refl
  run_operation-view laws web_app admin_panel (store_user u) s = refl
  run_operation-view laws web_app admin_panel drop_user s = refl
  run_operation-view laws admin_panel admin_panel (store_tokens tokens) s = refl
  run_operation-view laws admin_panel admin_panel drop_tokens s = refl
  run_operation-view laws admin_panel admin_panel (store_user u) s =
      ap (λ (o : Option SessionUser). record (session_view admin_panel s.storage) { user = o })
        (get_session_user-set_session_user env admin_panel u.user s laws u.texts).0
  run_operation-view laws admin_panel admin_panel drop_user s = refl
  run_operation-view laws admin_panel web_app (store_tokens tokens) s = refl
  run_operation-view laws admin_panel web_app drop_tokens s = refl
  run_operation-view laws admin_panel web_app (store_user u) s = refl
  run_operation-view laws admin_panel web_app drop_user s = refl

  -- The storage implements the abstract sessions: where JSON gives back a user that was stored,
  -- whatever operations the two applications run on one origin, in whatever order, each of them
  -- reads exactly what its own operations mean, from what it read at first.
  pub run_all-refines :
      (q : Panel) (ops : List (Panel × Operation)) (s : App)
      → KeepsSession env
      → session_view q (run_all ops s).storage ≡ meaning_for q ops (session_view q s.storage)
  run_all-refines q [] s laws = refl
  run_all-refines q ((p, op) ∷ ops) s laws =
      run_all-refines q ops (run_operation p op s) laws
      ∙ ap (meaning_for q ops) (run_operation-view laws p q op s)
