-- ===== src/Session/Subscription.antt =====
-- `subscribeSessionUser` of utils/sessionUser.ts and the hook of state/session.ts, of both
-- applications: which components hear of a change, and what they show. React is not modelled but
-- for what the documentation of `useSyncExternalStore` says: a component reads a snapshot when it
-- mounts and whenever its listener is called.
pub mod Laws
use text.Mathlib.Text.{◌==◌ as str_eq}
use trusyn_ai.Prelude.{
  String, Text, Bool, true, false, ◌&&◌, Option, none, some, List, [], ◌∷◌, ltb, if◌then◌else◌,
}
use trusyn_ai.Runtime.Monad.{App, Storage, Env}
use trusyn_ai.Session.Storage.{Panel, session_key, on_storage}
use trusyn_ai.Session.User.{SessionUser, get_session_user}
use trusyn_ai.Session.View.{
  Operation, store_tokens, drop_tokens, store_user, drop_user, run_operation,
}

-- A mounted component: whether its listeners are added, and the user it shows.
pub record Watcher : Type 0 where
  pub listening : Bool
  pub shown : Option SessionUser

-- What may happen: an operation of this page, a write or a removal in another tab (or by the
-- other application), and `localStorage.clear()` in another tab.
pub data Event : Type 0 where
  here : Operation → Event
  elsewhere : String → Option Text → Event
  cleared_elsewhere : Event

abbrev pub write_item : String → Option Text → Storage → Storage
write_item key value st k = if str_eq key k then value else st k

abbrev pub empty_storage : Storage
empty_storage k = none

module _ (env : Env) (panel : Panel) where
  abbrev pub happens : Event → App → App
  happens (here op) s = run_operation env panel op s
  happens (elsewhere key value) s = on_storage (write_item key value) s
  happens cleared_elsewhere s = record s { storage = empty_storage }

  -- The listeners that are added: one for the change event, which an operation of this page
  -- dispatches or not, and `storageHandler`, which passes on a storage event whose key is the one
  -- of the user; the event of a `clear()` has no key.
  unfoldable pub listener_called : Event → App → Bool
  listener_called (here op) s = ltb s.emitted (run_operation env panel op s).emitted
  listener_called (elsewhere key value) s = str_eq key (session_key panel)
  listener_called cleared_elsewhere s = false

  -- the component mounts: it reads the snapshot and subscribes
  unfoldable pub subscribe_session_user : App → Watcher
  subscribe_session_user s = record {
    listening = true;
    shown = get_session_user env panel s.storage;
  }

  -- the function that `subscribeSessionUser` returns
  abbrev pub unsubscribe : Watcher → Watcher
  unsubscribe w = record w { listening = false }

  unfoldable pub watch : Event → App → Watcher → Watcher
  unfolding listener_called
  watch e s w =
      if w.listening && listener_called e s
      then record w { shown = get_session_user env panel (happens e s).storage }
      else w

  abbrev pub watch_all : List Event → App → Watcher → App × Watcher
  watch_all [] s w = (s, w)
  watch_all (e ∷ es) s w = watch_all es (happens e s) (watch e s w)
