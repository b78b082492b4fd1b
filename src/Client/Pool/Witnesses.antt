-- ===== src/Client/Pool/Witnesses.antt =====
-- The theorems on concurrent refreshes, applied to two calls that share one.
use trusyn_ai.Prelude.{◌+◌, ◌≤◌, ◌≡◌, refl, codes, true, false, some, length}
use trusyn_ai.Client.Pool.{
  Pool, idle, call_refresh, settle_refresh, calls, settles, Reach, start, then_step,
}
use trusyn_ai.Client.Pool.Laws.{one_refresh}

abbrev two_calls : Pool
unfolding call_refresh
two_calls = call_refresh true 2 (call_refresh true 1 idle)

abbrev answered : Pool
unfolding settle_refresh
answered = settle_refresh (some (codes "new")) two_calls

two_calls-pending : two_calls.pending ≡ true
unfolding call_refresh
two_calls-pending = refl

answered-Reach : Reach idle answered
unfolding call_refresh two_calls settle_refresh answered
answered-Reach =
    then_step (then_step (then_step start (calls true 1 refl)) (calls true 2 refl))
      (settles (some (codes "new")) two_calls-pending refl)

one_refresh_example :
    (answered.started ≤ answered.settled + 1)
    × (length answered.answers + length answered.waiting ≡ answered.calls)
    × (answered.pending ≡ false → length answered.answers ≡ answered.calls)
one_refresh_example = one_refresh answered answered-Reach
