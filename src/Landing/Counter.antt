-- ===== src/Landing/Counter.antt =====
-- `Counter` of frontend/landing-page/src/app/components/SocialProofSection.tsx, in exact
-- arithmetic: `start` and `step` are multiplied by the duration.
use trusyn_ai.Prelude.{
  ℕ, zero, suc, ◌+◌, ◌*◌, ◌/◌, ◌≤◌, ◌<◌, ◌≡◌, refl, Bool, true, false, min, if◌then◌else◌, leb,
  arith, Bool-cases, inl, inr,
}
use native.Mathlib.Nat.{zero-mul, suc-mul, mul_comm, mul_assoc, div-le_of_le-mul, mul-le-mul_left}

pub record Counter : Type 0 where
  pub start : ℕ
  pub count : ℕ
  pub running : Bool

abbrev pub begin_counting : Counter
begin_counting = record { start = 0; count = 0; running = true }

module _ (end duration : ℕ) where
  -- the callback of the interval of 16 milliseconds
  unfoldable pub count_tick : Counter → Counter
  count_tick c =
      if c.running
      then (let start = min (c.start + end * 16) (end * duration) in
          if leb (end * duration) start
          then record { start = start; count = end; running = false }
          else record { start = start; count = start / duration; running = true })
      else c

  unfoldable pub count_ticks : ℕ → Counter → Counter
  unfolding count_tick
  count_ticks zero c = c
  count_ticks (suc n) c = count_tick (count_ticks n c)

  -- What holds after a number of ticks: while the interval is set, each tick has added a step and
  -- the goal is not reached; once it is not, the end is shown.
  abbrev Counted : ℕ → Counter → Type 0
  Counted n c =
      (c.running ≡ true → (c.start ≡ n * (end * 16)) × (0 < n → c.start < end * duration))
      × (c.running ≡ false → c.count ≡ end)
      × (c.count ≤ end)

  count_tick-Counted : (n : ℕ) (c : Counter) → Counted n c → Counted (suc n) (count_tick c)
  unfolding count_tick
  count_tick-Counted n c h = elim (Bool-cases c.running) [
    | inr stopped ↦ rw stopped (λ e. cc, λ e. h.1 stopped, h.2)
    | inl runs ↦
        elim (Bool-cases (leb (end * duration) (min (c.start + end * 16) (end * duration)))) [
          | inl reached ↦ rw (runs, reached) (λ e. cc, λ e. refl, omega arith)
          | inr not_yet ↦
              rw (runs, not_yet)
                (
                  λ e. (
                    ground (arith, not_yet, suc-mul n (end * 16), (h.0 runs).0),
                    ground (arith, not_yet),
                  ),
                  λ e. cc,
                  div-le_of_le-mul duration (omega (arith, mul_comm end duration)),
                )
        ]
  ]

  count_ticks-Counted : (n : ℕ) → Counted n (count_ticks n begin_counting)
  unfolding count_ticks
  count_ticks-Counted zero = (
    λ e. (omega (arith, zero-mul (end * 16)), λ some_ticks. omega (arith, some_ticks)),
    λ e. cc,
    omega arith,
  )
  count_ticks-Counted (suc n) =
      count_tick-Counted n (count_ticks n begin_counting) (count_ticks-Counted n)

  -- after the duration the goal is reached
  past_goal : (n : ℕ) → duration ≤ 16 * n → end * duration ≤ n * (end * 16)
  past_goal n h = omega (arith, mul-le-mul_left end h, mul_comm n (end * 16), mul_assoc end 16 n)

  not_running :
      (n : ℕ)
      → 0 < n
      → duration ≤ 16 * n
      → ((count_ticks n begin_counting).start ≡ n * (end * 16))
        × (0 < n → (count_ticks n begin_counting).start < end * duration)
      → ⊥
  not_running n some_ticks long_enough (e, below) =
      omega (arith, e, below some_ticks, past_goal n long_enough)

  -- The counter never shows more than its end, and shows the end, with its interval cleared, once
  -- at least one tick is over and the ticks have taken the duration.
  pub count_ticks-ends :
      (m n : ℕ)
      → 0 < n
      → duration ≤ 16 * n
      → ((count_ticks m begin_counting).count ≤ end)
        × ((count_ticks n begin_counting).running ≡ false)
        × ((count_ticks n begin_counting).count ≡ end)
  count_ticks-ends m n some_ticks long_enough =
      let (runs, stopped, shown) = count_ticks-Counted n in
      elim (Bool-cases (count_ticks n begin_counting).running) [
        | inr stops ↦ ((count_ticks-Counted m).2, stops, stopped stops)
        | inl still ↦ absurd (not_running n some_ticks long_enough (runs still))
      ]
