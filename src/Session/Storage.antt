-- ===== src/Session/Storage.antt =====
-- `localStorage`, and the keys of each application (frontend/*/src/app/api/auth.ts and
-- frontend/*/src/app/utils/sessionUser.ts).
use text.Mathlib.Text.{◌==◌ as str_eq}
use trusyn_ai.Prelude.{String, Text, Option, none, some, if◌then◌else◌}
use trusyn_ai.Runtime.Monad.{App, Storage}

pub data Panel : Type 0 where
  web_app admin_panel : Panel

unfoldable pub access_key : Panel → String
access_key web_app = "trusyn_access_token"
access_key admin_panel = "trusyn_admin_access_token"

unfoldable pub refresh_key : Panel → String
refresh_key web_app = "trusyn_refresh_token"
refresh_key admin_panel = "trusyn_admin_refresh_token"

unfoldable pub session_key : Panel → String
session_key web_app = "trusyn_session_user"
session_key admin_panel = "trusyn_admin_session_user"

unfoldable pub get_item : String → Storage → Option Text
get_item k st = st k

unfoldable pub set_item : String → Text → Storage → Storage
set_item k v st j = if str_eq k j then some v else st j

unfoldable pub remove_item : String → Storage → Storage
remove_item k st j = if str_eq k j then none else st j

-- A change of the storage of a page.
abbrev pub on_storage : (Storage → Storage) → App → App
on_storage f s = record s { storage = f s.storage }
