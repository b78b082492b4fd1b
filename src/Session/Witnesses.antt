-- ===== src/Session/Witnesses.antt =====
-- The theorems on the session store, applied to a session of Ava.
use trusyn_ai.Prelude.{codes, ◌≡◌, refl, false, none, List, [], ◌∷◌}
use trusyn_ai.Runtime.Value.{str}
use trusyn_ai.Runtime.Monad.{App, Env, failure}
use trusyn_ai.Session.Storage.{Panel, web_app, admin_panel}
use trusyn_ai.Session.Tokens.{TokenBundle}
use trusyn_ai.Session.User.{SessionUser, get_session_user}
use trusyn_ai.Session.View.{
  TextUser, Operation, store_tokens, drop_tokens, store_user, drop_user, session_view, run_all,
  meaning_for, run_all-refines,
}
use trusyn_ai.Session.Subscription.{Event, here, elsewhere, subscribe_session_user, watch_all}
use trusyn_ai.Session.Subscription.Laws.{subscribe_session_user-IsCurrent}
use trusyn_ai.Client.Sample.{env_with, env_with-KeepsSession}

abbrev offline : Env
offline = env_with (λ n. failure)

abbrev signed_out : App
signed_out = record { storage = λ k. none; refreshing = false; emitted = 0; sent = [] }

abbrev ava_user : SessionUser
ava_user = record {
  id = str (codes "u1");
  organization_id = str (codes "o1");
  name = str (codes "Ava Sharma");
  role = str (codes "ANALYST");
  email = str (codes "a@t.ai");
  initials = str (codes "AS");
}

abbrev ava_texts : TextUser
ava_texts = record {
  user = ava_user;
  texts = record {
    id = refl;
    organization_id = refl;
    name = refl;
    role = refl;
    email = refl;
    initials = refl;
  };
}

abbrev some_tokens : TokenBundle
some_tokens = record { access_token = codes "one"; refresh_token = codes "two" }

-- a login in each application, and a logout in one of them
abbrev sessions : List (Panel × Operation)
sessions =
    (web_app, store_tokens some_tokens)
    ∷ (admin_panel, store_tokens some_tokens)
    ∷ (web_app, store_user ava_texts)
    ∷ (admin_panel, store_user ava_texts)
    ∷ (admin_panel, drop_tokens)
    ∷ (admin_panel, drop_user)
    ∷ []

run_all-refines_example :
    session_view offline web_app (run_all offline sessions signed_out).storage
    ≡ meaning_for offline web_app sessions (session_view offline web_app signed_out.storage)
run_all-refines_example =
    run_all-refines offline web_app sessions signed_out (env_with-KeepsSession (λ n. failure))

abbrev events : List Event
events =
    here (store_user ava_texts)
    ∷ elsewhere "trusyn_session_user" none
    ∷ here (store_tokens some_tokens)
    ∷ []

subscribe_session_user-IsCurrent_example :
    let (s', w') =
      watch_all offline web_app events signed_out
        (subscribe_session_user offline web_app signed_out) in
    w'.shown ≡ get_session_user offline web_app s'.storage
subscribe_session_user-IsCurrent_example =
    subscribe_session_user-IsCurrent offline web_app events signed_out (tt, (tt, (tt, tt)))
