-- ===== src/Landing/Blink.antt =====
-- ArchitectureSection.tsx and FeaturesSection.tsx of frontend/landing-page/src/app/components: the
-- demonstrations that an interval starts and a timeout ends. A timer is the number of milliseconds
-- until it is called; `timeouts` holds those that are set and not yet called, and `ended` counts
-- those that were called.
use trusyn_ai.Prelude.{
  ◌==◌, Text, codes, ℕ, zero, suc, ◌+◌, ◌-◌, ◌%◌, ◌≡◌, ◌≤◌, ◌<◌, refl, Bool, true, false, not, List,
  [], ◌∷◌, if◌then◌else◌, arith,
}

pub record Blink : Type 0 where
  pub active : Bool
  pub next : ℕ
  pub timeouts : List ℕ
  pub ended : ℕ

-- the callback of the interval: it sets the flag, and a timeout that takes it back
abbrev pub cycle : ℕ → ℕ → Blink → Blink
cycle period delay b = record b { active = true; next = period; timeouts = delay ∷ b.timeouts }

-- the timeouts that come due, counted, and those that come nearer
abbrev pub one_timeout : ℕ → ℕ × List ℕ → ℕ × List ℕ
one_timeout zero (fired, rest) = (suc fired, rest)
one_timeout (suc zero) (fired, rest) = (suc fired, rest)
one_timeout (suc (suc t)) (fired, rest) = (fired, suc t ∷ rest)

abbrev pub run_timeouts : List ℕ → ℕ × List ℕ
run_timeouts [] = (0, [])
run_timeouts (t ∷ ts) = one_timeout t (run_timeouts ts)

-- a timeout takes the flag back
abbrev pub after_timeouts : Blink → ℕ × List ℕ → Blink
after_timeouts b (zero, rest) = record b { timeouts = rest }
after_timeouts b (suc fired, rest) = record b {
  active = false;
  timeouts = rest;
  ended = b.ended + suc fired;
}

abbrev pub run_interval : ℕ → ℕ → Blink → ℕ → Blink
run_interval period delay b zero = cycle period delay b
run_interval period delay b (suc zero) = cycle period delay b
run_interval period delay b (suc (suc next)) = record b { next = suc next }

-- one millisecond passes
unfoldable pub pass : ℕ → ℕ → Blink → Blink
pass period delay b =
    let b' = after_timeouts b (run_timeouts b.timeouts) in run_interval period delay b' b'.next

unfoldable pub passes : ℕ → ℕ → ℕ → Blink → Blink
unfolding pass
passes zero period delay b = b
passes (suc n) period delay b = passes n period delay (pass period delay b)

-- as it is mounted
abbrev pub mounted : ℕ → Blink
mounted period = record { active = false; next = period; timeouts = []; ended = 0 }

-- after so many milliseconds: `blocked` of ArchitectureSection, and `scanning` of GovernanceDemo
unfoldable pub architecture_demo : ℕ → Blink
unfolding passes
architecture_demo n = passes n 5500 2800 (mounted 5500)

unfoldable pub governance_demo : ℕ → Blink
unfolding passes
governance_demo n = passes n 2800 900 (mounted 2800)

-- `decision`, which each timeout turns over: whether it is 'blocked'
abbrev pub is_denied : Blink → Bool
is_denied b = b.ended % 2 == 1

-- the texts of GovernanceDemo
unfoldable pub governance_texts : Blink → Text × Text
governance_texts b = (
  if is_denied b then codes "BLOCKED" else codes "ALLOWED",
  if b.active
      then codes "Analyzing intent & risk..."
      else if is_denied b
      then codes "Last decision: BLOCKED"
      else codes "Last decision: ALLOWED",
)

-- the intervals of PolicyDemo, AuditDemo and ObservabilityDemo; `random` is below 3
abbrev pub next_highlight : ℕ → ℕ
next_highlight h = (h + 1) % 4

abbrev pub toggle_expanded : Bool → Bool
toggle_expanded expanded = not expanded

abbrev pub count_live : ℕ → ℕ → ℕ
count_live random n = n + random + 1

-- the flag is set while one timeout is set, which comes before the interval, and otherwise not
abbrev pub IsPaced : ℕ → ℕ → Bool → ℕ → List ℕ → Type 0
IsPaced period delay active next [] = (active ≡ false) × (1 ≤ next)
IsPaced period delay active next (t ∷ []) =
    (active ≡ true) × (1 ≤ t) × (t + (period - delay) ≡ next)
IsPaced period delay active next (t ∷ u ∷ ts) = ⊥

-- one millisecond, of each way the timers may stand
pass-IsPaced :
    (period delay : ℕ) (active : Bool) (next ended : ℕ) (timeouts : List ℕ)
    → 1 ≤ delay
    → delay < period
    → IsPaced period delay active next timeouts
    → let b =
        pass period delay
          (record { active = active; next = next; timeouts = timeouts; ended = ended }) in
      IsPaced period delay b.active b.next b.timeouts
unfolding pass
pass-IsPaced period delay active zero ended [] one less h = ground (arith, h.1)
pass-IsPaced period delay active (suc zero) ended [] one less h = (refl, one, omega (arith, less))
pass-IsPaced period delay active (suc (suc next)) ended [] one less h = (h.0, omega arith)
pass-IsPaced period delay active next ended (zero ∷ []) one less h = ground (arith, h.1)
pass-IsPaced period delay active zero ended (suc t ∷ []) one less h = ground (arith, h.2)
pass-IsPaced period delay active (suc zero) ended (suc t ∷ []) one less h =
    ground (arith, h.2, less)
pass-IsPaced period delay active (suc (suc next)) ended (suc zero ∷ []) one less h =
    (refl, omega arith)
pass-IsPaced period delay active (suc (suc next)) ended (suc (suc t) ∷ []) one less h =
    (h.0, omega arith, omega (arith, h.2))
pass-IsPaced period delay active next ended (t ∷ u ∷ ts) one less h = absurd h

passes-IsPaced :
    (n period delay : ℕ) (b : Blink)
    → 1 ≤ delay
    → delay < period
    → IsPaced period delay b.active b.next b.timeouts
    → let b' = passes n period delay b in IsPaced period delay b'.active b'.next b'.timeouts
unfolding passes
passes-IsPaced zero period delay b one less h = h
passes-IsPaced (suc n) period delay b one less h =
    passes-IsPaced n period delay (pass period delay b) one less
      (pass-IsPaced period delay b.active b.next b.ended b.timeouts one less h)

-- At every millisecond of the two demonstrations at most one timeout is set, the flag is on exactly
-- while one is, and that timeout comes before the interval: every cycle ends before the next
-- begins.
pub demos-IsPaced :
    (n : ℕ)
    → let a = architecture_demo n in
      let g = governance_demo n in
      IsPaced 5500 2800 a.active a.next a.timeouts × IsPaced 2800 900 g.active g.next g.timeouts
unfolding architecture_demo governance_demo
demos-IsPaced n = (
  passes-IsPaced n 5500 2800 (mounted 5500) (omega arith) (omega arith) (refl, omega arith),
  passes-IsPaced n 2800 900 (mounted 2800) (omega arith) (omega arith) (refl, omega arith),
)
