-- ===== src/Pages/Threats/Laws.antt =====
-- The race of the investigations: which answers reach the page.
use trusyn_ai.Prelude.{
  ℕ, ◌≡◌, ◌≢◌, refl, sym, ◌∙◌, Text, true, Option, none, some, [], ◌∷◌, arith, Bool-cases, inl, inr,
}
use trusyn_ai.Runtime.Monad.{Result, ok, throw}
use trusyn_ai.Types.Common.{PaginatedResult}
use trusyn_ai.Types.Governance.{ThreatDto, ThreatInvestigationDto}
use trusyn_ai.Pages.Threats.{
  ThreatPage, same_selection, investigate, load_threats_finish, loads, select_threat,
  settle_investigation, is_current, asked, Step, selects, settles, Reach, start, then_step,
  show_investigation,
}

-- The run that is not cancelled asked for the threat that is selected.
abbrev pub IsTracked : ThreatPage → Type 0
IsTracked p = (run : ℕ) → is_current p.current run ≡ true → asked run p.runs ≡ p.list.selected_id

investigate-IsTracked :
    (selected : Option Text) (p : ThreatPage)
    → p.current ≡ none
    → p.list.selected_id ≡ selected
    → IsTracked (investigate selected p)
investigate-IsTracked none p idle e = λ run now. ground (arith, idle, now)
investigate-IsTracked (some []) p idle e = λ run now. ground (arith, idle, now)
investigate-IsTracked (some (c ∷ id)) p idle e = λ (run : ℕ) now. ground (arith, e, now)

select_threat-IsTracked :
    (selected : Option Text) (p : ThreatPage) → IsTracked p → IsTracked (select_threat selected p)
unfolding select_threat
select_threat-IsTracked selected p h =
    elim (Bool-cases (same_selection p.list.selected_id selected)) [
      | inl same ↦ rw same h
      | inr changed ↦ rw changed (investigate-IsTracked selected _ refl refl)
    ]

load_threats_finish-IsTracked :
    (closure : ThreatPage) (result : Result (PaginatedResult ThreatDto)) (p : ThreatPage)
    → IsTracked p
    → IsTracked (load_threats_finish closure result p)
unfolding load_threats_finish
load_threats_finish-IsTracked closure result p h = select_threat-IsTracked _ _ h

show_investigation-IsTracked :
    (result : Result ThreatInvestigationDto) (p : ThreatPage)
    → IsTracked p
    → IsTracked (show_investigation result p)
show_investigation-IsTracked (ok found) p h = h
show_investigation-IsTracked (throw e) p h = h

settle_investigation-IsTracked :
    (run : ℕ) (result : Result ThreatInvestigationDto) (p : ThreatPage)
    → IsTracked p
    → IsTracked (settle_investigation run result p)
unfolding settle_investigation
settle_investigation-IsTracked run result p h = elim (Bool-cases (is_current p.current run)) [
  | inl now ↦ rw now (show_investigation-IsTracked result p h)
  | inr late ↦ rw late h
]

Step-IsTracked : {p q : ThreatPage} → Step p q → IsTracked p → IsTracked q
Step-IsTracked (selects selected e) h = rw e (select_threat-IsTracked selected _ h)
Step-IsTracked (loads closure result e) h = rw e (load_threats_finish-IsTracked closure result _ h)
Step-IsTracked (settles run result e) h = rw e (settle_investigation-IsTracked run result _ h)

Reach-IsTracked : {p q : ThreatPage} → IsTracked p → Reach p q → IsTracked q
Reach-IsTracked h start = h
Reach-IsTracked h (then_step r s) = Step-IsTracked s (Reach-IsTracked h r)

-- An answer that comes late is dropped: in every order of selections and answers, the answer to a
-- run for a threat that is no longer selected leaves the page as it is.
pub settle_investigation-stale :
    (p₀ p : ThreatPage) (run : ℕ) (id : Text) (result : Result ThreatInvestigationDto)
    → p₀.current ≡ none
    → Reach p₀ p
    → asked run p.runs ≡ some id
    → p.list.selected_id ≢ some id
    → settle_investigation run result p ≡ p
unfolding settle_investigation
settle_investigation-stale p₀ p run id result first r e other =
    elim (Bool-cases (is_current p.current run)) [
      | inl now ↦
          absurd
            (other (sym (Reach-IsTracked (λ run₀ now₀. ground (arith, first, now₀)) r run now) ∙ e))
      | inr late ↦ rw late refl
    ]

-- Where the selection is removed while an investigation loads, the flag of the loading stays
-- on: the run is cancelled, and no answer that may still come changes the page.
pub select_threat-stuck :
    (p : ThreatPage) (id : Text) (run : ℕ) (result : Result ThreatInvestigationDto)
    → p.list.selected_id ≡ some id
    → p.detail_loading ≡ true
    → let p' = select_threat none p in
      (p'.detail_loading ≡ true)
      × (p'.list.selected_id ≡ none)
      × (settle_investigation run result p' ≡ p')
unfolding select_threat settle_investigation
select_threat-stuck p id run result e h = rw e (h, refl, refl)
