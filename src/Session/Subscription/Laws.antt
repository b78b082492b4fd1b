-- ===== src/Session/Subscription/Laws.antt =====
-- What a subscribed component shows.
use text.Mathlib.Text.{◌==◌ as str_eq}
use trusyn_ai.Prelude.{
  String, Text, ◌≡◌, refl, sym, ◌∙◌, true, false, Option, none, some, List, [], ◌∷◌, arith,
  Bool-cases, inl, inr,
}
use trusyn_ai.Runtime.Monad.{App, Storage, Env}
use trusyn_ai.Session.Storage.{
  Panel, web_app, admin_panel, session_key, get_item, set_item, remove_item, access_key,
  refresh_key,
}
use trusyn_ai.Session.Tokens.{TokenBundle, set_tokens, clear_tokens}
use trusyn_ai.Session.User.{SessionUser, get_session_user, set_session_user, clear_session_user}
use trusyn_ai.Session.View.{store_tokens, drop_tokens, store_user, drop_user}
use trusyn_ai.Session.Subscription.{
  Watcher, Event, here, elsewhere, cleared_elsewhere, write_item, happens, listener_called,
  subscribe_session_user, watch, watch_all,
}

-- An event that is not a `clear()`.
abbrev pub IsWrite : Event → Type 0
IsWrite cleared_elsewhere = ⊥
IsWrite (here op) = Unit
IsWrite (elsewhere key value) = Unit

abbrev pub AllWrites : List Event → Type 0
AllWrites [] = Unit
AllWrites (e ∷ es) = IsWrite e × AllWrites es

get_session_user-store_tokens :
    (env : Env) (panel : Panel) (tokens : TokenBundle) (st : Storage)
    → get_session_user env panel (set_tokens panel tokens st) ≡ get_session_user env panel st
unfolding get_session_user set_tokens get_item set_item access_key refresh_key session_key
get_session_user-store_tokens env web_app tokens st = refl
get_session_user-store_tokens env admin_panel tokens st = refl

get_session_user-clear_tokens :
    (env : Env) (panel : Panel) (st : Storage)
    → get_session_user env panel (clear_tokens panel st) ≡ get_session_user env panel st
unfolding get_session_user clear_tokens get_item remove_item access_key refresh_key session_key
get_session_user-clear_tokens env web_app st = refl
get_session_user-clear_tokens env admin_panel st = refl

get_session_user-write_item :
    (env : Env) (panel : Panel) (key : String) (value : Option Text) (st : Storage)
    → str_eq key (session_key panel) ≡ false
    → get_session_user env panel (write_item key value st) ≡ get_session_user env panel st
unfolding get_session_user get_item
get_session_user-write_item env panel key value st other = rw other refl

module _ (env : Env) (panel : Panel) where
  -- A component that listens shows the stored user.
  abbrev pub IsCurrent : App → Watcher → Type 0
  IsCurrent s w = (w.listening ≡ true) × (w.shown ≡ get_session_user env panel s.storage)

  -- an event that calls no listener leaves the stored user
  happens-unheard :
      (e : Event) (s : App)
      → IsWrite e
      → listener_called env panel e s ≡ false
      → get_session_user env panel (happens env panel e s).storage
        ≡ get_session_user env panel s.storage
  unfolding listener_called set_session_user clear_session_user
  happens-unheard (here (store_tokens tokens)) s h unheard =
      get_session_user-store_tokens env panel tokens s.storage
  happens-unheard (here drop_tokens) s h unheard = get_session_user-clear_tokens env panel s.storage
  happens-unheard (here (store_user u)) s h unheard = ground (arith, unheard)
  happens-unheard (here drop_user) s h unheard = ground (arith, unheard)
  happens-unheard (elsewhere key value) s h unheard =
      get_session_user-write_item env panel key value s.storage unheard
  happens-unheard cleared_elsewhere s h unheard = absurd h

  watch-IsCurrent :
      (e : Event) (s : App) (w : Watcher)
      → IsWrite e
      → IsCurrent s w
      → IsCurrent (happens env panel e s) (watch env panel e s w)
  unfolding watch
  watch-IsCurrent e s w h current = elim (Bool-cases (listener_called env panel e s)) [
    | inl heard ↦ rw (current.0, heard) (refl, refl)
    | inr unheard ↦ rw (current.0, unheard) (refl, current.1 ∙ sym (happens-unheard e s h unheard))
  ]

  watch_all-IsCurrent :
      (es : List Event) (s : App) (w : Watcher)
      → AllWrites es
      → IsCurrent s w
      → let (s', w') = watch_all env panel es s w in IsCurrent s' w'
  watch_all-IsCurrent [] s w h current = current
  watch_all-IsCurrent (e ∷ es) s w h current =
      watch_all-IsCurrent es (happens env panel e s) (watch env panel e s w) h.1
        (watch-IsCurrent e s w h.0 current)

  -- From the time it subscribes a component shows the stored user, through any operations of this
  -- page on the session and any writes and removals of single items in other tabs.
  pub subscribe_session_user-IsCurrent :
      (es : List Event) (s : App)
      → AllWrites es
      → let (s', w') = watch_all env panel es s (subscribe_session_user env panel s) in
        w'.shown ≡ get_session_user env panel s'.storage
  unfolding subscribe_session_user
  subscribe_session_user-IsCurrent es s h =
      (watch_all-IsCurrent es s (subscribe_session_user env panel s) h (refl, refl)).1

  -- After a `clear()` in another tab a component still shows the user, though none is stored.
  pub cleared_elsewhere-stale :
      (s : App) (u : SessionUser)
      → get_session_user env panel s.storage ≡ some u
      → let w = watch env panel cleared_elsewhere s (subscribe_session_user env panel s) in
        (w.shown ≡ some u)
        × (get_session_user env panel (happens env panel cleared_elsewhere s).storage ≡ none)
  unfolding watch subscribe_session_user listener_called get_session_user get_item
  cleared_elsewhere-stale s u e = (e, refl)
