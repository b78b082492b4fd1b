-- ===== src/Pages/Dashboard/Laws.antt =====
-- What the dashboard shows after its first load, its refreshes by the clock and by hand.
use trusyn_ai.Prelude.{◌≡◌, refl, Text, Bool, true, false, Option, none, some, List, [], ◌∷◌}
use trusyn_ai.Runtime.Monad.{Exn, Result, ok, throw}
use trusyn_ai.Types.Reports.{DashboardSummaryDto}
use trusyn_ai.Pages.Dashboard.{
  DashboardPage, AnalyticsPage, AnalyticsAnswers, Granularity, load_summary_start,
  load_summary_finish, set_granularity, load_analytics_start, load_analytics_finish,
}

-- A load that began as a refresh or not, and ended at a time with a result.
abbrev pub Load : Type 0
Load = Bool × Text × Result DashboardSummaryDto

-- the loads one after the other, the last of them first
unfoldable pub run_loads : List Load → DashboardPage → DashboardPage
unfolding load_summary_start load_summary_finish
run_loads [] p = p
run_loads ((refresh, now, result) ∷ loads) p =
    load_summary_finish now result (load_summary_start refresh (run_loads loads p))

-- the summary and the time of the last load that was answered
abbrev pub last_answer : List Load → Option (Text × DashboardSummaryDto)
last_answer [] = none
last_answer ((refresh, now, ok summary) ∷ loads) = some (now, summary)
last_answer ((refresh, now, throw e) ∷ loads) = last_answer loads

abbrev pub Shows : Option (Text × DashboardSummaryDto) → DashboardPage → Type 0
Shows none p = (p.data_shown ≡ none) × (p.last_updated ≡ none)
Shows (some (now, summary)) p = (p.data_shown ≡ some summary) × (p.last_updated ≡ some now)

failed-Shows :
    (shown : Option (Text × DashboardSummaryDto)) (refresh : Bool) (now : Text) (e : Exn)
    (p : DashboardPage)
    → Shows shown p
    → Shows shown (load_summary_finish now (throw e) (load_summary_start refresh p))
unfolding load_summary_start load_summary_finish
failed-Shows none true now e p h = h
failed-Shows none false now e p h = h
failed-Shows (some answer) true now e p h = h
failed-Shows (some answer) false now e p h = h

-- From a dashboard that shows nothing yet, after any loads it shows the summary of the last load
-- that was answered, with its time, however many loads have failed since then.
pub run_loads-Shows :
    (loads : List Load) (p : DashboardPage)
    → p.data_shown ≡ none
    → p.last_updated ≡ none
    → Shows (last_answer loads) (run_loads loads p)
unfolding run_loads load_summary_start load_summary_finish
run_loads-Shows [] p a b = (a, b)
run_loads-Shows ((refresh, now, ok summary) ∷ loads) p a b = (refl, refl)
run_loads-Shows ((refresh, now, throw e) ∷ loads) p a b =
    failed-Shows (last_answer loads) refresh now e (run_loads loads p) (run_loads-Shows loads p a b)

-- The filters of the analytics do not cancel a load: where the answers for an earlier granularity
-- come after those for a later one, the page shows the earlier ones under the later granularity.
pub set_granularity-late :
    (to_iso : Text → Text) (first second : Granularity) (early late : AnalyticsAnswers)
    (p : AnalyticsPage)
    → let asked = (set_granularity to_iso second (set_granularity to_iso first p).0).0 in
      let p' = load_analytics_finish (ok early) (load_analytics_finish (ok late) asked) in
      (p'.granularity ≡ second) × (p'.risk_trends ≡ some early.risk_data) × (p'.loading ≡ false)
unfolding set_granularity load_analytics_finish load_analytics_start
set_granularity-late to_iso first second early late p = (refl, refl, refl)
