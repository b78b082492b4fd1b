-- ===== src/Pages/Threats.antt =====
-- frontend/web-app/src/app/pages/ThreatCenterPage.tsx: the list and the investigation of the
-- threat that is selected. Every run of the second effect has a number; `current` is the run
-- whose `cancelled` is still false, and `runs` holds the threat that each run asked for.
pub mod Laws
pub mod Screen
use trusyn_ai.Prelude.{
  ℕ, ◌+◌, ◌≡◌, Text, text_eq, codes, Bool, true, false, Option, none, some, List, [], ◌∷◌,
  if◌then◌else◌, ◌==◌, length, keep,
}
use trusyn_ai.Runtime.Value.{Value}
use trusyn_ai.Runtime.Monad.{Result, ok, throw}
use trusyn_ai.Types.Common.{Severity, low, medium, high, critical, PaginatedResult}
use trusyn_ai.Types.Governance.{ThreatDto, ThreatInvestigationDto}
use trusyn_ai.Pages.Listing.{Listing, load_start, load_finish, error_message}

pub record ThreatPage : Type 0 where
  pub list : Listing ThreatDto
  pub severity_filter : Option Severity
  pub investigation : Option ThreatInvestigationDto
  pub detail_loading : Bool
  pub current : Option ℕ
  pub runs : List (ℕ × Text)
  pub next_run : ℕ

abbrev pub threat_error : Text
threat_error = codes "Unable to load threat intelligence."

unfoldable pub threat_id : ThreatDto → Text
threat_id threat = threat.id

unfoldable pub load_threats_start : Bool → ThreatPage → ThreatPage
load_threats_start refresh p = record p { list = load_start refresh p.list }

abbrev pub same_selection : Option Text → Option Text → Bool
same_selection none none = true
same_selection (some id) (some other) = text_eq id other
same_selection _ _ = false

-- the effect of `selectedId`, once the cleanup has cancelled the run before it
abbrev pub investigate : Option Text → ThreatPage → ThreatPage
investigate none p = record p { investigation = none }
investigate (some []) p = record p { investigation = none }
investigate (some (c ∷ id)) p = record p {
  detail_loading = true;
  current = some p.next_run;
  runs = (p.next_run, c ∷ id) ∷ p.runs;
  next_run = p.next_run + 1;
}

-- `setSelectedId`, and where the selection changes the cleanup and the effect
unfoldable pub select_threat : Option Text → ThreatPage → ThreatPage
select_threat selected p =
    if same_selection p.list.selected_id selected
    then p
    else investigate selected
        (record p { list = record (p.list) { selected_id = selected }; current = none })

-- The end of a load, whose closure is the page that it was made with: the list is shown, and the
-- selection is the one that the load chooses.
unfoldable pub load_threats_finish :
    ThreatPage → Result (PaginatedResult ThreatDto) → ThreatPage → ThreatPage
unfolding threat_id select_threat
load_threats_finish closure result p =
    let l = load_finish threat_id closure.list.selected_id result threat_error p.list in
    select_threat l.selected_id (record p { list = record l { selected_id = p.list.selected_id } })

abbrev pub is_current : Option ℕ → ℕ → Bool
is_current none run = false
is_current (some latest) run = latest == run

abbrev pub show_investigation : Result ThreatInvestigationDto → ThreatPage → ThreatPage
show_investigation (ok found) p = record p { investigation = some found; detail_loading = false }
show_investigation (throw e) p = record p {
  list = record (p.list) { error = some (error_message threat_error e) };
  detail_loading = false;
}

-- the answer to a run, which does nothing once the run is cancelled
unfoldable pub settle_investigation : ℕ → Result ThreatInvestigationDto → ThreatPage → ThreatPage
settle_investigation run result p =
    if is_current p.current run then show_investigation result p else p

abbrev pub is_critical : Severity → Bool
is_critical critical = true
is_critical _ = false

unfoldable pub critical_count : ThreatPage → ℕ
critical_count p = length (keep (λ (threat : ThreatDto). is_critical threat.severity) p.list.items)

-- the threat that a run asked for
abbrev pub asked : ℕ → List (ℕ × Text) → Option Text
asked run [] = none
asked run ((n, id) ∷ runs) = if n == run then some id else asked run runs

pub data Step (p q : ThreatPage) : Type 0 where
  selects : (selected : Option Text) → q ≡ select_threat selected p → Step p q
  loads :
      (closure : ThreatPage) (result : Result (PaginatedResult ThreatDto))
      → q ≡ load_threats_finish closure result p
      → Step p q
  settles :
      (run : ℕ) (result : Result ThreatInvestigationDto)
      → q ≡ settle_investigation run result p
      → Step p q

pub data Reach (p : ThreatPage) : ThreatPage → Type 0 where
  start : Reach p p
  then_step : {q r : ThreatPage} → Reach p q → Step q r → Reach p r
