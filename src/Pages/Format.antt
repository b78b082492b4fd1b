-- ===== src/Pages/Format.antt =====
-- How long ago: `toRelativeTime` of frontend/admin_panel/src/app/utils/formatters.ts, with the rest
-- of that file, and `relativeTime` of frontend/web-app/src/app/pages/ThreatCenterPage.tsx.
use trusyn_ai.Prelude.{
  ℕ, ◌+◌, ◌/◌, ◌≤◌, ◌<◌, ◌≡◌, refl, false, arith, if◌then◌else◌, ltb, leb, ◌&&◌, Text, codes, map,
  Bool-cases, inl, inr,
}
use trusyn_ai.Types.Governance.{
  AgentStatus, operational, warning, quarantined, blocked as agent_blocked,
}
use trusyn_ai.Types.Common.{
  Severity, low, medium, high, critical, Decision, allow, block, review, quarantine, rate_limit,
}

-- The milliseconds from a valid date until now, or from now until a date that is yet to come.
pub data Elapsed : Type 0 where
  past : ℕ → Elapsed
  ahead : ℕ → Elapsed

-- The texts: "just now", "5s ago", "-5s ago", "5m ago", "5h ago" and "5d ago".
pub data Age : Type 0 where
  just_now : Age
  seconds minus_seconds minutes hours days : ℕ → Age

-- the tests on the minutes, which both functions end with
abbrev pub age_in_minutes : ℕ → Age
age_in_minutes m =
    if ltb m 60 then minutes m else if ltb (m / 60) 24 then hours (m / 60) else days (m / 60 / 24)

-- `Math.floor` goes away from 0 where the difference is negative, and a negative number of
-- seconds is below 60.
unfoldable pub to_relative_time : Elapsed → Age
to_relative_time (ahead ms) = minus_seconds ((ms + 999) / 1000)
to_relative_time (past ms) =
    if ltb (ms / 1000) 60 then seconds (ms / 1000) else age_in_minutes (ms / 1000 / 60)

unfoldable pub relative_time : Elapsed → Age
relative_time (ahead ms) = just_now
relative_time (past ms) = if ltb (ms / 60000) 1 then just_now else age_in_minutes (ms / 60000)

-- What `normalizeDecision` gives.
pub data DecisionLabel : Type 0 where
  allowed blocked in_review : DecisionLabel

unfoldable pub normalize_decision : Decision → DecisionLabel
normalize_decision allow = allowed
normalize_decision review = in_review
normalize_decision block = blocked
normalize_decision quarantine = blocked
normalize_decision rate_limit = blocked

-- `toLowerCase`, of the letters that the backend's words are made of
abbrev pub lower_case : Text → Text
lower_case word = map (λ c. if leb 65 c && leb c 90 then c + 32 else c) word

-- the words of the backend
abbrev pub severity_word : Severity → Text
severity_word low = codes "LOW"
severity_word medium = codes "MEDIUM"
severity_word high = codes "HIGH"
severity_word critical = codes "CRITICAL"

abbrev pub status_word : AgentStatus → Text
status_word operational = codes "OPERATIONAL"
status_word warning = codes "WARNING"
status_word quarantined = codes "QUARANTINED"
status_word agent_blocked = codes "BLOCKED"

unfoldable pub normalize_severity : Severity → Text
normalize_severity severity = lower_case (severity_word severity)

unfoldable pub normalize_agent_status : AgentStatus → Text
normalize_agent_status status = lower_case (status_word status)

-- An age whose number fits its unit: below 60 seconds, minutes from 1 to 59, hours from 1 to 23,
-- days from 1.
abbrev pub IsProper : Age → Type 0
IsProper just_now = Unit
IsProper (seconds n) = n < 60
IsProper (minus_seconds n) = Unit
IsProper (minutes n) = (1 ≤ n) × (n < 60)
IsProper (hours n) = (1 ≤ n) × (n < 24)
IsProper (days n) = 1 ≤ n

age_in_minutes-IsProper : (m : ℕ) → 1 ≤ m → IsProper (age_in_minutes m)
age_in_minutes-IsProper m h = elim (Bool-cases (ltb m 60)) [
  | inl few ↦ rw few (h, ground (arith, few))
  | inr many ↦ elim (Bool-cases (ltb (m / 60) 24)) [
    | inl day ↦ rw (many, day) (ground (arith, many), ground (arith, day))
    | inr longer ↦ rw (many, longer) (ground (arith, longer))
  ]
]

-- the two ways to count the minutes
minutes-eq : (ms : ℕ) → ms / 1000 / 60 ≡ ms / 60000
minutes-eq ms = omega arith

not_recent : (ms : ℕ) → 60000 ≤ ms → (ltb (ms / 60000) 1 ≡ false) × (ltb (ms / 1000) 60 ≡ false)
not_recent ms h = (ground arith, ground arith)

-- From one minute on both applications show the same age, with a number that fits its unit.
pub relative_time-agrees :
    (ms : ℕ)
    → 60000 ≤ ms
    → (relative_time (past ms) ≡ to_relative_time (past ms)) × IsProper (relative_time (past ms))
unfolding relative_time to_relative_time
relative_time-agrees ms h =
    let (a, b) = not_recent ms h in
    rw (a, b, minutes-eq ms) (refl, age_in_minutes-IsProper (ms / 60000) (omega arith))
