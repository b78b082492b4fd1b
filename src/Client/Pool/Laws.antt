-- ===== src/Client/Pool/Laws.antt =====
-- At most one refresh is under way, and no call is left without an answer.
use trusyn_ai.Prelude.{
  ℕ, ◌+◌, ◌≤◌, ◌≡◌, refl, Text, Bool, true, false, Option, [], map, length, length-append,
  length-map, arith, if◌then◌else◌, Bool-cases, inl, inr,
}
use trusyn_ai.Client.Pool.{
  Pool, idle, call_refresh, settle_refresh, Step, calls, settles, Reach, start, then_step,
}

-- A refresh is under way exactly while `refreshPromise` is set; no task waits without one; and
-- each call has its answer or waits for it.
pub record IsSound (p : Pool) : Type 0 where
  pub one : p.started ≡ p.settled + (if p.pending then 1 else 0)
  pub none_waits : p.pending ≡ false → p.waiting ≡ []
  pub answered : length p.answers + length p.waiting ≡ p.calls

idle-IsSound : IsSound idle
idle-IsSound = record { one = omega arith; none_waits = λ h. refl; answered = omega arith }

call_refresh-IsSound :
    (has_token : Bool) (task : ℕ) (p : Pool) → IsSound p → IsSound (call_refresh has_token task p)
unfolding call_refresh
call_refresh-IsSound has_token task p h = elim (Bool-cases p.pending) [
  | inl pending ↦ ground (arith, h.one, h.answered, pending)
  | inr free ↦ ground (arith, h.one, h.answered, h.none_waits free)
]

settle_refresh-IsSound :
    (token : Option Text) (p : Pool)
    → p.pending ≡ true
    → IsSound p
    → IsSound (settle_refresh token p)
unfolding settle_refresh
settle_refresh-IsSound token p pending h = record {
  one = ground (arith, h.one);
  none_waits = λ e. refl;
  answered = omega (
    arith,
    length-append {0} (map (λ (task : ℕ). (task, token)) p.waiting) p.answers,
    length-map {0, 0} {B = ℕ × Option Text} p.waiting (λ (task : ℕ). (task, token)),
    h.answered,
  );
}

Step-IsSound : {p q : Pool} → Step p q → IsSound p → IsSound q
Step-IsSound (calls has_token task e) h = rw e (call_refresh-IsSound has_token task _ h)
Step-IsSound (settles token pending e) h = rw e (settle_refresh-IsSound token _ pending h)

Reach-IsSound : {p q : Pool} → IsSound p → Reach p q → IsSound q
Reach-IsSound h start = h
Reach-IsSound h (then_step r s) = Step-IsSound s (Reach-IsSound h r)

Reach-one_refresh :
    (p : Pool)
    → IsSound p
    → (p.started ≤ p.settled + 1)
      × (length p.answers + length p.waiting ≡ p.calls)
      × (p.pending ≡ false → length p.answers ≡ p.calls)
Reach-one_refresh p h =
    (ground (arith, h.one), h.answered, λ free. ground (arith, h.none_waits free, h.answered))

-- In every order of calls and answers at most one refresh is under way, and each call has its
-- answer or waits for the refresh that is under way: once none is, every call is answered.
pub one_refresh :
    (p : Pool)
    → Reach idle p
    → (p.started ≤ p.settled + 1)
      × (length p.answers + length p.waiting ≡ p.calls)
      × (p.pending ≡ false → length p.answers ≡ p.calls)
one_refresh p r = Reach-one_refresh p (Reach-IsSound idle-IsSound r)
