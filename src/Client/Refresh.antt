-- ===== src/Client/Refresh.antt =====
-- What `applyAuthSession`, `clearAuthState` and `refreshAccessToken` leave behind.
use trusyn_ai.Prelude.{◌∙◌, ◌+◌, ◌≡◌, refl, Text, none, some, arith}
use trusyn_ai.Runtime.Value.{Value, Fields, obj, str, null, lookup, get_prop}
use trusyn_ai.Runtime.Monad.{App, Env, Exn, ok, throw}
use trusyn_ai.Session.Storage.{Panel, on_storage}
use trusyn_ai.Session.Tokens.{
  TokenBundle, get_access_token, get_refresh_token, set_tokens, clear_tokens,
}
use trusyn_ai.Session.User.{SessionUser, get_session_user, set_session_user, clear_session_user}
use trusyn_ai.Session.Laws.{
  KeepsSession, HasTexts, get_session_user-set_session_user, get_tokens-set_tokens,
  get_tokens-clear_tokens, get_session_user-clear_session_user, get_tokens-set_session_user,
}
use trusyn_ai.Client.Auth.{initials_from_name, apply_auth_session, clear_auth_state}

-- No other task touches the shared state while a call waits.
pub record IsQuiet (env : Env) : Type 0 where
  pub storage : (s : App) → env.storage_after s ≡ s.storage
  pub refreshing : (s : App) → env.refreshing_after s ≡ s.refreshing

-- The data of a login or a refresh, as the backend sends it: two tokens, and a user with a name.
pub record IsTokenResponse (d : Value) (user : Value) (name : Text) : Type 0 where
  pub fields : Fields
  pub is_obj : d ≡ obj fields
  pub user_eq : lookup "user" fields ≡ user
  pub user_fields : Fields
  pub user_obj : user ≡ obj user_fields
  pub name_eq : lookup "full_name" user_fields ≡ str name

module _ (env : Env) (panel : Panel) where
  -- the tokens that are stored for such data
  abbrev pub tokens_of : Value → TokenBundle
  tokens_of d = record {
    access_token = env.to_text (get_prop d "access_token");
    refresh_token = env.to_text (get_prop d "refresh_token");
  }

  -- and the user
  abbrev pub user_of : Value → Text → SessionUser
  user_of user name = record {
    id = get_prop user "id";
    organization_id = get_prop user "organization_id";
    name = str name;
    role = get_prop user "role";
    email = get_prop user "email";
    initials = str (initials_from_name env panel name);
  }

  abbrev pub signed_in : Value → Value → Text → App → App
  signed_in d user name s =
      set_session_user env panel (user_of user name) (on_storage (set_tokens panel (tokens_of d)) s)

  pub apply_auth_session-signed_in :
      (d user : Value) (name : Text) (s : App)
      → IsTokenResponse d user name
      → apply_auth_session env panel d s ≡ (ok tt, signed_in d user name s)
  unfolding apply_auth_session
  apply_auth_session-signed_in d user name s h = ground arith

  -- The tokens and the user that a panel has stored are the ones of this data.
  pub record HasSession (d user : Value) (name : Text) (s : App) : Type 0 where
    pub access : get_access_token panel s.storage ≡ some (tokens_of d).access_token
    pub refresh : get_refresh_token panel s.storage ≡ some (tokens_of d).refresh_token
    pub session : get_session_user env panel s.storage ≡ some (user_of user name)

  pub signed_in-sent :
      (d user : Value) (name : Text) (s : App) → (signed_in d user name s).sent ≡ s.sent
  unfolding set_session_user
  signed_in-sent d user name s = refl

  pub signed_in-tokens :
      (d user : Value) (name : Text) (s : App)
      → (get_access_token panel (signed_in d user name s).storage ≡ some (tokens_of d).access_token)
        × (get_refresh_token panel (signed_in d user name s).storage
            ≡ some (tokens_of d).refresh_token)
  signed_in-tokens d user name s =
      let kept =
        get_tokens-set_session_user env panel (user_of user name)
          (on_storage (set_tokens panel (tokens_of d)) s) in
      let stored = get_tokens-set_tokens panel (tokens_of d) s.storage in
      (kept.0 ∙ stored.0, kept.1 ∙ stored.1)

  -- `applyAuthSession` stores both tokens and the user, and announces the user once; it needs the
  -- data to be as the backend sends it, with texts in the fields of the user.
  pub apply_auth_session-HasSession :
      (d user : Value) (name : Text) (s : App)
      → KeepsSession env
      → IsTokenResponse d user name
      → HasTexts (user_of user name)
      → let (r, s') = apply_auth_session env panel d s in
        (r ≡ ok tt) × HasSession d user name s' × (s'.emitted ≡ s.emitted + 1) × (s'.sent ≡ s.sent)
  apply_auth_session-HasSession d user name s laws h t =
      let tokens = signed_in-tokens d user name s in
      let stored =
        get_session_user-set_session_user env panel (user_of user name)
          (on_storage (set_tokens panel (tokens_of d)) s) laws t in
      rw (apply_auth_session-signed_in d user name s h) (
        refl,
        record { access = tokens.0; refresh = tokens.1; session = stored.0 },
        stored.1,
        signed_in-sent d user name s,
      )

  -- Where the user has no name the call throws, when the new tokens are already stored and the
  -- user of the session is still the old one.
  pub apply_auth_session-partial :
      (d : Value) (fields user_fields : Fields) (s : App)
      → d ≡ obj fields
      → lookup "user" fields ≡ obj user_fields
      → lookup "full_name" user_fields ≡ null
      → apply_auth_session env panel d s
        ≡ (throw Exn.other, on_storage (set_tokens panel (tokens_of d)) s)
  unfolding apply_auth_session
  apply_auth_session-partial d fields user_fields s e f g = ground arith

  clear_auth_state-emitted : (s : App) → (clear_auth_state env panel s).emitted ≡ s.emitted + 1
  unfolding clear_auth_state clear_session_user
  clear_auth_state-emitted s = omega arith

  -- After `clearAuthState` the panel has neither token and no user, and the event is dispatched.
  pub clear_auth_state-clears :
      (s : App)
      → let s' = clear_auth_state env panel s in
        (get_access_token panel s'.storage ≡ none)
        × (get_refresh_token panel s'.storage ≡ none)
        × (get_session_user env panel s'.storage ≡ none)
        × (s'.emitted ≡ s.emitted + 1)
  unfolding clear_auth_state
  clear_auth_state-clears s =
      let cleared =
        get_session_user-clear_session_user env panel (on_storage (clear_tokens panel) s) in
      let tokens = get_tokens-clear_tokens panel s.storage in
      (cleared.1 ∙ tokens.0, cleared.2 ∙ tokens.1, cleared.0, clear_auth_state-emitted s)
