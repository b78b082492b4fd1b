-- ===== src/Landing/Tour.antt =====
-- HowItWorksSection.tsx of frontend/landing-page/src/app/components: what the tour shows of its
-- steps.
use trusyn_ai.Prelude.{
  ℕ, zero, suc, ◌+◌, ◌≡◌, ◌<◌, Text, codes, Bool, List, [], ◌∷◌, ◌==◌, ltb, length, arith, keep,
}
use trusyn_ai.Landing.Sections.{Tour}

-- `STEPS`: the titles, with those of the window
abbrev pub steps : List (Text × Text)
steps =
    (codes "Employee Submits Request", codes "AI Agent Workspace")
    ∷ (codes "AI Agent Activates", codes "AI Agent · Processing")
    ∷ (codes "Trusyn Intercepts", codes "Trusyn AI · Governance Engine")
    ∷ (codes "Threat Analysis Runs", codes "Governance Analysis · Results")
    ∷ (codes "Decision Enforced", codes "Policy Enforcement · Decision")
    ∷ (codes "Audit Trail Created", codes "Audit Trail · Entry Logged")
    ∷ []

-- a step of the list: whether it is active, and whether the line below it is filled
pub record StepRow : Type 0 where
  pub title : Text
  pub is_active : Bool
  pub line : Bool
  pub filled : Bool

abbrev pub step_row : ℕ → ℕ → Text × Text → StepRow
step_row active_step i (title, window_title) = record {
  title = title;
  is_active = active_step == i;
  line = ltb i 5;
  filled = ltb i active_step;
}

abbrev pub step_rows_from : ℕ → ℕ → List (Text × Text) → List StepRow
step_rows_from active_step i [] = []
step_rows_from active_step i (step ∷ rest) =
    step_row active_step i step ∷ step_rows_from active_step (suc i) rest

unfoldable pub step_rows : Tour → List StepRow
step_rows t = step_rows_from t.active_step 0 steps

-- `STEPS[activeStep]`, where an index past the end has no step
abbrev pub step_at : ℕ → List (Text × Text) → Text × Text
step_at n [] = ([], [])
step_at zero (step ∷ rest) = step
step_at (suc n) (step ∷ rest) = step_at n rest

-- the window, with the counter below it
pub record TourWindow : Type 0 where
  pub window_title : Text
  pub counter : ℕ
  pub title : Text

unfoldable pub tour_window : Tour → TourWindow
tour_window t = record {
  window_title = (step_at t.active_step steps).1;
  counter = t.active_step + 1;
  title = (step_at t.active_step steps).0;
}

-- The tour at one of its steps: one row is active.
pub step_rows-active :
    (t : Tour) → t.active_step < 6 → length (keep (λ row. row.is_active) (step_rows t)) ≡ 1
unfolding step_rows
step_rows-active t h = ground (arith, h)
