-- ===== src/Client/Pool.antt =====
-- Many calls of `refreshAccessToken` at once (api/client.ts): they share the promise that is kept
-- in `refreshPromise`. A task is a number; the tasks and the backend take steps in any order.
pub mod Laws
mod Witnesses
use trusyn_ai.Prelude.{
  ℕ, ◌+◌, ◌≡◌, Text, Bool, true, false, Option, none, some, List, [], ◌∷◌, ◌++◌, map, if◌then◌else◌,
}

-- `pending` is whether `refreshPromise` is set, `waiting` are the tasks that await it, and
-- `answers` is what the call of each task came to. `calls`, `started` and `settled` count.
pub record Pool : Type 0 where
  pub pending : Bool
  pub waiting : List ℕ
  pub answers : List (ℕ × Option Text)
  pub calls : ℕ
  pub started : ℕ
  pub settled : ℕ

abbrev pub idle : Pool
idle = record { pending = false; waiting = []; answers = []; calls = 0; started = 0; settled = 0 }

-- A task calls `refreshAccessToken`; `has_token` is whether a refresh token is stored.
unfoldable pub call_refresh : Bool → ℕ → Pool → Pool
call_refresh has_token task p =
    if has_token
    then (if p.pending
        then record p { waiting = task ∷ p.waiting; calls = p.calls + 1 }
        else record p {
          pending = true;
          waiting = task ∷ [];
          calls = p.calls + 1;
          started = p.started + 1;
        })
    else record p { answers = (task, none) ∷ p.answers; calls = p.calls + 1 }

-- The pending refresh settles: `refreshPromise` is null again, and every task that awaited the
-- promise gets its value, or null where it was rejected.
unfoldable pub settle_refresh : Option Text → Pool → Pool
settle_refresh token p = record p {
  pending = false;
  waiting = [];
  answers = map (λ task. (task, token)) p.waiting ++ p.answers;
  settled = p.settled + 1;
}

pub data Step (p q : Pool) : Type 0 where
  calls : (has_token : Bool) (task : ℕ) → q ≡ call_refresh has_token task p → Step p q
  settles : (token : Option Text) → p.pending ≡ true → q ≡ settle_refresh token p → Step p q

pub data Reach (p : Pool) : Pool → Type 0 where
  start : Reach p p
  then_step : {q r : Pool} → Reach p q → Step q r → Reach p r
