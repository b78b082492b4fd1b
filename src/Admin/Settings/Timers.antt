-- ===== src/Admin/Settings/Timers.antt =====
-- The state of the saves under the timers that reset it, as a step relation: saves that overlap,
-- and timers that no later save clears.
use trusyn_ai.Prelude.{ℕ, suc, ◌+◌, ◌<◌, ◌≡◌, refl, Text, codes, Option, none, some, arith}
use trusyn_ai.Runtime.Value.{Value}
use trusyn_ai.Types.Account.{UserDto, OrganizationDto}
use trusyn_ai.Admin.Common.{Answer, answered, failed}
use trusyn_ai.Admin.Settings.{
  AdminSettings, SaveState, idle, saving, saved, save_error, save_profile_start,
  save_profile_finish, save_organization_start, save_organization_finish, reset_save_state,
  save_fails, save_indicator, profile_parsed, organization_parsed,
}

-- how many calls a start makes
abbrev pub sent : {P : Type 0} → Option P → ℕ
sent none = 0
sent (some payload) = 1

-- A step of the page and of the number of saves that wait for their answer.
pub data Step (parse : Text → Answer Value) : AdminSettings → ℕ → AdminSettings → ℕ → Type 0 where
  profile_started :
      (p : AdminSettings) (n : ℕ)
      → Step parse p n (save_profile_start parse p).0 (n + sent (save_profile_start parse p).1)
  organization_started :
      (p : AdminSettings) (n : ℕ)
      → Step parse p n
          (save_organization_start parse p).0
          (n + sent (save_organization_start parse p).1)
  profile_ended :
      (a : Answer UserDto) (p : AdminSettings) (n : ℕ)
      → Step parse p (suc n) (save_profile_finish a p) n
  organization_ended :
      (a : Answer OrganizationDto) (p : AdminSettings) (n : ℕ)
      → Step parse p (suc n) (save_organization_finish a p) n
  timed_out : (p : AdminSettings) (n : ℕ) → 0 < p.timers → Step parse p n (reset_save_state p) n

pub data Run (parse : Text → Answer Value) : AdminSettings → ℕ → AdminSettings → ℕ → Type 0 where
  stays : (p : AdminSettings) (n : ℕ) → Run parse p n p n
  goes :
      {p q r : AdminSettings} {k m n : ℕ}
      → Run parse p k q m
      → Step parse q m r n
      → Run parse p k r n

-- Something is still to come that changes what is shown.
abbrev pub IsPending : SaveState → ℕ → ℕ → Type 0
IsPending idle timers n = Unit
IsPending saving timers n = 0 < n
IsPending saved timers n = 0 < timers
IsPending save_error timers n = 0 < timers

profile_parsed-IsPending :
    (parsed : Answer Value) (p : AdminSettings) (n : ℕ)
    → let (p', payload) = profile_parsed parsed p in
      IsPending p'.save_state p'.timers (n + sent payload)
unfolding profile_parsed save_fails
profile_parsed-IsPending (answered preferences) p n = omega arith
profile_parsed-IsPending (failed message) p n = omega arith

organization_parsed-IsPending :
    (parsed : Answer Value) (p : AdminSettings) (n : ℕ)
    → let (p', payload) = organization_parsed parsed p in
      IsPending p'.save_state p'.timers (n + sent payload)
unfolding organization_parsed save_fails
organization_parsed-IsPending (answered settings) p n = omega arith
organization_parsed-IsPending (failed message) p n = omega arith

Step-IsPending :
    {parse : Text → Answer Value} {p q : AdminSettings} {m n : ℕ}
    → Step parse p m q n
    → IsPending q.save_state q.timers n
unfolding save_profile_start save_organization_start save_profile_finish save_organization_finish
    reset_save_state save_fails
Step-IsPending {parse} (profile_started p n) = profile_parsed-IsPending _ p n
Step-IsPending {parse} (organization_started p n) = organization_parsed-IsPending _ p n
Step-IsPending (profile_ended (answered u) p n) = omega arith
Step-IsPending (profile_ended (failed message) p n) = omega arith
Step-IsPending (organization_ended (answered o) p n) = omega arith
Step-IsPending (organization_ended (failed message) p n) = omega arith
Step-IsPending (timed_out p n some_left) = tt

idle_at_rest :
    (state : SaveState) (timers n : ℕ)
    → timers ≡ 0
    → n ≡ 0
    → IsPending state timers n
    → state ≡ idle
idle_at_rest idle timers n no_timer no_save h = refl
idle_at_rest saving timers n no_timer no_save h = ground (arith, h, no_save)
idle_at_rest saved timers n no_timer no_save h = ground (arith, h, no_timer)
idle_at_rest save_error timers n no_timer no_save h = ground (arith, h, no_timer)

Run-IsPending :
    {parse : Text → Answer Value} {p q : AdminSettings} {k n : ℕ}
    → Run parse p k q n
    → p.save_state ≡ idle
    → IsPending q.save_state q.timers n
Run-IsPending (stays p n) begins = rw begins tt
Run-IsPending (goes run step) begins = Step-IsPending step

-- However saves and timers interleave, what is shown of a save does not stay: from a page whose
-- state is idle, once no save waits and no timer is left, the state is idle again and there is no
-- indicator.
pub Run-rests :
    {parse : Text → Answer Value} (p q : AdminSettings) (k n : ℕ)
    → Run parse p k q n
    → p.save_state ≡ idle
    → q.timers ≡ 0
    → n ≡ 0
    → (q.save_state ≡ idle) × (save_indicator q.save_state ≡ none)
unfolding save_indicator
Run-rests p q k n run begins no_timer no_save =
    let at_rest =
      idle_at_rest q.save_state q.timers n no_timer no_save (Run-IsPending run begins) in
    (at_rest, rw at_rest refl)

parsed-early :
    (parsed : Answer Value) (p : AdminSettings)
    → let (waiting, payload) = profile_parsed parsed p in
      sent payload ≡ 1
      → (save_indicator waiting.save_state ≡ some (codes "Saving...")) × (waiting.timers ≡ p.timers)
unfolding profile_parsed save_indicator
parsed-early (answered preferences) p h = (refl, refl)
parsed-early (failed message) p h = ground (arith, h)

timers-save_profile_finish :
    (a : Answer UserDto) (p : AdminSettings) → 0 < (save_profile_finish a p).timers
unfolding save_profile_finish save_fails
timers-save_profile_finish (answered u) p = omega arith
timers-save_profile_finish (failed message) p = omega arith

-- A timer of an earlier save hides a later one: where the second save is sent before the timeout
-- of the first has come, that timeout takes the indicator away while the answer is awaited.
pub reset_save_state-early :
    (parse : Text → Answer Value) (first : Answer UserDto) (p : AdminSettings)
    → let p' = save_profile_finish first p in
      let (waiting, payload) = save_profile_start parse p' in
      sent payload ≡ 1
      → (save_indicator waiting.save_state ≡ some (codes "Saving..."))
        × (0 < waiting.timers)
        × (save_indicator (reset_save_state waiting).save_state ≡ none)
unfolding save_profile_start reset_save_state save_indicator
reset_save_state-early parse first p h =
    let (shown, kept) = parsed-early _ (save_profile_finish first p) h in
    (shown, omega (arith, kept, timers-save_profile_finish first p), refl)
