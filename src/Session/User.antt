-- ===== src/Session/User.antt =====
-- frontend/web-app/src/app/utils/sessionUser.ts, and its copy in the admin panel: the user of the
-- session as it is stored, read back and announced.
use trusyn_ai.Prelude.{suc, Bool, ◌&&◌, Option, none, some, if◌then◌else◌, [], Text}
use trusyn_ai.Runtime.Value.{Value, obj, blank, field, get_prop, is_string, is_object}
use trusyn_ai.Runtime.Monad.{App, Storage, Env}
use trusyn_ai.Session.Storage.{Panel, session_key, get_item, set_item, remove_item, on_storage}

-- The fields hold what a response body held: nothing checks them before they are stored.
pub record SessionUser : Type 0 where
  pub id : Value
  pub organization_id : Value
  pub name : Value
  pub role : Value
  pub email : Value
  pub initials : Value

-- the object literal that `JSON.stringify` is given
abbrev pub session_value : SessionUser → Value
session_value u = obj (
    field "id" u.id (
      field "organizationId" u.organization_id (
        field "name" u.name
          (field "role" u.role (field "email" u.email (field "initials" u.initials blank))))))

unfoldable pub is_valid_session_user : Value → Bool
is_valid_session_user v =
    is_object v
    && is_string (get_prop v "id")
    && is_string (get_prop v "organizationId")
    && is_string (get_prop v "name")
    && is_string (get_prop v "role")
    && is_string (get_prop v "email")
    && is_string (get_prop v "initials")

-- a parsed value read as a `SessionUser`
abbrev pub as_session_user : Value → SessionUser
as_session_user v = record {
  id = get_prop v "id";
  organization_id = get_prop v "organizationId";
  name = get_prop v "name";
  role = get_prop v "role";
  email = get_prop v "email";
  initials = get_prop v "initials";
}

-- The parsed text, or `none` where `getSessionUser` returns null: the parse threw or the value
-- is not a session user.
abbrev pub parsed_user : Option Value → Option SessionUser
parsed_user none = none
parsed_user (some v) = if is_valid_session_user v then some (as_session_user v) else none

module _ (env : Env) (panel : Panel) where
  -- on the text found; `!raw` holds of a missing text and of the empty one
  abbrev pub read_user : Option Text → Option SessionUser
  read_user none = none
  read_user (some []) = none
  read_user (some raw) = parsed_user (env.json_parse raw)

  unfoldable pub get_session_user : Storage → Option SessionUser
  unfolding is_valid_session_user
  get_session_user st = read_user (get_item (session_key panel) st)

  -- The event is dispatched once; `window` is defined in a browser.
  abbrev pub emit_session_change : App → App
  emit_session_change s = record s { emitted = suc s.emitted }

  unfoldable pub set_session_user : SessionUser → App → App
  set_session_user u s =
      emit_session_change
        (on_storage (set_item (session_key panel) (env.json_stringify (session_value u))) s)

  unfoldable pub clear_session_user : App → App
  clear_session_user s = emit_session_change (on_storage (remove_item (session_key panel)) s)
