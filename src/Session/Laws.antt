-- ===== src/Session/Laws.antt =====
-- The storage laws of frontend/*/src/app/api/auth.ts and utils/sessionUser.ts: round trips, what
-- is read back, and that the two applications do not disturb each other.
use trusyn_ai.Prelude.{◌+◌, ◌≡◌, refl, ◌≢◌, Text, true, Option, none, some, [], ◌∷◌, arith, ◌∙◌}
use trusyn_ai.Runtime.Value.{Value, is_string}
use trusyn_ai.Runtime.Monad.{App, Storage, Env}
use trusyn_ai.Session.Storage.{
  Panel, web_app, admin_panel, access_key, refresh_key, session_key, get_item, set_item,
  remove_item,
}
use trusyn_ai.Session.Tokens.{
  TokenBundle, get_access_token, get_refresh_token, set_tokens, clear_tokens,
}
use trusyn_ai.Session.User.{
  SessionUser, session_value, is_valid_session_user, parsed_user, read_user, get_session_user,
  set_session_user, clear_session_user,
}

-- The six fields are texts.
pub record HasTexts (u : SessionUser) : Type 0 where
  pub id : is_string u.id ≡ true
  pub organization_id : is_string u.organization_id ≡ true
  pub name : is_string u.name ≡ true
  pub role : is_string u.role ≡ true
  pub email : is_string u.email ≡ true
  pub initials : is_string u.initials ≡ true

-- What the code relies on of `JSON`: an object of six texts is read back as it was written, and
-- the empty text is a syntax error.
pub record KeepsSession (env : Env) : Type 0 where
  pub parse-stringify :
      (u : SessionUser)
      → HasTexts u
      → env.json_parse (env.json_stringify (session_value u)) ≡ some (session_value u)
  pub parse-empty : env.json_parse [] ≡ none

-- Everything that a panel reads from the storage.
pub record SameSession (panel : Panel) (st st' : Storage) : Type 0 where
  pub access : get_access_token panel st' ≡ get_access_token panel st
  pub refresh : get_refresh_token panel st' ≡ get_refresh_token panel st
  pub user : get_item (session_key panel) st' ≡ get_item (session_key panel) st

-- Tokens that are stored are read back, each under its own name.
pub get_tokens-set_tokens :
    (panel : Panel) (tokens : TokenBundle) (st : Storage)
    → (get_access_token panel (set_tokens panel tokens st) ≡ some tokens.access_token)
      × (get_refresh_token panel (set_tokens panel tokens st) ≡ some tokens.refresh_token)
unfolding get_access_token get_refresh_token set_tokens get_item set_item access_key refresh_key
get_tokens-set_tokens web_app tokens st = (refl, refl)
get_tokens-set_tokens admin_panel tokens st = (refl, refl)

pub get_tokens-clear_tokens :
    (panel : Panel) (st : Storage)
    → (get_access_token panel (clear_tokens panel st) ≡ none)
      × (get_refresh_token panel (clear_tokens panel st) ≡ none)
unfolding get_access_token get_refresh_token clear_tokens get_item remove_item access_key
    refresh_key
get_tokens-clear_tokens web_app st = (refl, refl)
get_tokens-clear_tokens admin_panel st = (refl, refl)

module _ (env : Env) (panel : Panel) where
  read_user-some :
      (raw : Text) (v : Value)
      → env.json_parse raw ≡ some v
      → env.json_parse [] ≡ none
      → read_user env panel (some raw) ≡ parsed_user (some v)
  read_user-some [] v e empty = cc
  read_user-some (c ∷ raw) v e empty = rw e

  parsed_user-session_value :
      (u : SessionUser) → HasTexts u → parsed_user (some (session_value u)) ≡ some u
  unfolding is_valid_session_user
  parsed_user-session_value u h = rw (h.id, h.organization_id, h.name, h.role, h.email, h.initials)

  read_user-stringify :
      (u : SessionUser)
      → KeepsSession env
      → HasTexts u
      → read_user env panel (some (env.json_stringify (session_value u))) ≡ some u
  read_user-stringify u laws h =
      read_user-some (env.json_stringify (session_value u)) (session_value u)
        (laws.parse-stringify u h) laws.parse-empty
      ∙ parsed_user-session_value u h

parsed_user-HasTexts : (o : Option Value) (u : SessionUser) → parsed_user o ≡ some u → HasTexts u
unfolding is_valid_session_user
parsed_user-HasTexts none u e = cc
parsed_user-HasTexts (some v) u e = ground arith

read_user-HasTexts :
    (env : Env) (panel : Panel) (o : Option Text) (u : SessionUser)
    → read_user env panel o ≡ some u
    → HasTexts u
read_user-HasTexts env panel none u e = cc
read_user-HasTexts env panel (some []) u e = cc
read_user-HasTexts env panel (some (c ∷ raw)) u e =
    parsed_user-HasTexts (env.json_parse (c ∷ raw)) u e

-- The stored user is read back, if its fields are texts; the event is dispatched once.
pub get_session_user-set_session_user :
    (env : Env) (panel : Panel) (u : SessionUser) (s : App)
    → KeepsSession env
    → HasTexts u
    → (get_session_user env panel (set_session_user env panel u s).storage ≡ some u)
      × ((set_session_user env panel u s).emitted ≡ s.emitted + 1)
unfolding get_session_user set_session_user get_item set_item session_key
get_session_user-set_session_user env web_app u s laws h =
    (read_user-stringify env web_app u laws h, omega arith)
get_session_user-set_session_user env admin_panel u s laws h =
    (read_user-stringify env admin_panel u laws h, omega arith)

-- Whatever the storage holds, a user that is read back has six texts.
pub get_session_user-HasTexts :
    (env : Env) (panel : Panel) (st : Storage) (u : SessionUser)
    → get_session_user env panel st ≡ some u
    → HasTexts u
unfolding get_session_user
get_session_user-HasTexts env panel st u e =
    read_user-HasTexts env panel (get_item (session_key panel) st) u e

-- After `clearSessionUser` no user is read back, and the tokens are as they were.
pub get_session_user-clear_session_user :
    (env : Env) (panel : Panel) (s : App)
    → (get_session_user env panel (clear_session_user env panel s).storage ≡ none)
      × (get_access_token panel (clear_session_user env panel s).storage
          ≡ get_access_token panel s.storage)
      × (get_refresh_token panel (clear_session_user env panel s).storage
          ≡ get_refresh_token panel s.storage)
unfolding get_session_user clear_session_user get_item remove_item session_key get_access_token
    get_refresh_token access_key refresh_key
get_session_user-clear_session_user env web_app s = (refl, refl, refl)
get_session_user-clear_session_user env admin_panel s = (refl, refl, refl)

-- Signing in or out of one application leaves all that the other one reads from the storage.
pub set_tokens-SameSession :
    (p q : Panel) (tokens : TokenBundle) (st : Storage)
    → p ≢ q
    → SameSession q st (set_tokens p tokens st)
unfolding set_tokens get_item set_item access_key refresh_key session_key get_access_token
    get_refresh_token
set_tokens-SameSession web_app web_app tokens st h = absurd (h refl)
set_tokens-SameSession web_app admin_panel tokens st h = record {
  access = refl;
  refresh = refl;
  user = refl;
}
set_tokens-SameSession admin_panel web_app tokens st h = record {
  access = refl;
  refresh = refl;
  user = refl;
}
set_tokens-SameSession admin_panel admin_panel tokens st h = absurd (h refl)

-- Storing a user leaves both tokens.
pub get_tokens-set_session_user :
    (env : Env) (panel : Panel) (u : SessionUser) (s : App)
    → (get_access_token panel (set_session_user env panel u s).storage
        ≡ get_access_token panel s.storage)
      × (get_refresh_token panel (set_session_user env panel u s).storage
          ≡ get_refresh_token panel s.storage)
unfolding set_session_user get_item set_item session_key get_access_token get_refresh_token
    access_key refresh_key
get_tokens-set_session_user env web_app u s = (refl, refl)
get_tokens-set_session_user env admin_panel u s = (refl, refl)
