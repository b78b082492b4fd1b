-- ===== src/Session/Tokens.antt =====
-- frontend/web-app/src/app/api/auth.ts, and its copy in the admin panel.
use trusyn_ai.Prelude.{Text, Option}
use trusyn_ai.Runtime.Monad.{Storage}
use trusyn_ai.Session.Storage.{Panel, access_key, refresh_key, get_item, set_item, remove_item}

pub record TokenBundle : Type 0 where
  pub access_token : Text
  pub refresh_token : Text

unfoldable pub get_access_token : Panel → Storage → Option Text
get_access_token panel st = get_item (access_key panel) st

unfoldable pub get_refresh_token : Panel → Storage → Option Text
get_refresh_token panel st = get_item (refresh_key panel) st

unfoldable pub set_tokens : Panel → TokenBundle → Storage → Storage
set_tokens panel tokens st =
    set_item (refresh_key panel) tokens.refresh_token
      (set_item (access_key panel) tokens.access_token st)

unfoldable pub clear_tokens : Panel → Storage → Storage
clear_tokens panel st = remove_item (refresh_key panel) (remove_item (access_key panel) st)
