-- ===== src/Landing/Sections.antt =====
-- HeroSection.tsx (the phases), HowItWorksSection.tsx (the steps), FeaturesSection.tsx and
-- DashboardSection.tsx (the charts that slide), CTASection.tsx and Navbar.tsx of
-- frontend/landing-page/src/app/components
pub mod Laws
use trusyn_ai.Prelude.{
  ℕ, zero, suc, ◌+◌, ◌-◌, ◌%◌, Text, Bool, true, false, not, List, [], ◌∷◌, ◌++◌, if◌then◌else◌,
  trim, is_empty, ltb, drop, length,
}

pub data Phase : Type 0 where
  normal analyzing blocked cleared : Phase

-- `PHASE_SEQUENCE[i]`, for an index below 4: the phase and its milliseconds
unfoldable pub phase_sequence : ℕ → Phase × ℕ
phase_sequence zero = (normal, 4200)
phase_sequence (suc zero) = (analyzing, 2200)
phase_sequence (suc (suc zero)) = (blocked, 2800)
phase_sequence _ = (cleared, 1200)

-- the timeout of `useFlowPhase`
unfoldable pub next_phase : ℕ → ℕ
next_phase idx = (idx + 1) % 4

-- `INIT_OBS` and `INIT_RISK`, whose points have ids
abbrev pub init_obs : List ℕ
init_obs = 4 ∷ 9 ∷ 6 ∷ 13 ∷ 7 ∷ 11 ∷ 5 ∷ 8 ∷ []

abbrev pub init_risk : List (ℕ × ℕ)
init_risk = (0, 3) ∷ (1, 7) ∷ (2, 4) ∷ (3, 11) ∷ (4, 5) ∷ (5, 9) ∷ (6, 14) ∷ (7, 8) ∷ []

-- `[...prev.slice(-7), x]`
unfoldable pub slide : {A : Type 0} → A → List A → List A
slide x prev = drop (length prev - 7) prev ++ (x ∷ [])

-- The two charts; `random` is what `Math.floor` leaves of a random number, below 14 or below 12.
unfoldable pub observe : ℕ → List ℕ → List ℕ
unfolding slide
observe random data_shown = slide (random + 2) data_shown

unfoldable pub add_risk : ℕ → List (ℕ × ℕ) × ℕ → List (ℕ × ℕ) × ℕ
unfolding slide
add_risk random (points, next_id) = (slide (next_id, random + 4) points, next_id + 1)

-- The steps of the product tour: `timer_set` is whether `timerRef` holds an interval, and
-- `intervals` counts those that run.
pub record Tour : Type 0 where
  pub active_step : ℕ
  pub timer_set : Bool
  pub intervals : ℕ

abbrev pub first_tour : Tour
first_tour = record { active_step = 0; timer_set = false; intervals = 0 }

unfoldable pub start_auto_play : Tour → Tour
start_auto_play t = record t {
  timer_set = true;
  intervals = (if t.timer_set then t.intervals - 1 else t.intervals) + 1;
}

-- the callback of the interval, the click on a step, and the cleanup
unfoldable pub advance : Tour → Tour
advance t = record t { active_step = (t.active_step + 1) % 6 }

unfoldable pub handle_step_click : ℕ → Tour → Tour
unfolding start_auto_play
handle_step_click i t = start_auto_play (record t { active_step = i })

unfoldable pub leave_tour : Tour → Tour
leave_tour t = if t.timer_set then record t { intervals = t.intervals - 1 } else t

-- The form of the last section, which is there until it is submitted.
pub record CtaForm : Type 0 where
  pub email : Text
  pub submitted : Bool

unfoldable pub type_cta_email : Text → CtaForm → CtaForm
type_cta_email text c = if c.submitted then c else record c { email = text }

unfoldable pub handle_submit : CtaForm → CtaForm
handle_submit c = if is_empty (trim c.email) then c else record c { submitted = true }

-- The navigation bar; the button of the menu is there on a narrow screen.
pub record Navbar : Type 0 where
  pub menu_open : Bool
  pub is_mobile : Bool

unfoldable pub on_resize : ℕ → Navbar → Navbar
on_resize width n =
    let is_mobile = ltb width 768 in
    if is_mobile
    then record n { is_mobile = true }
    else record { menu_open = false; is_mobile = false }

unfoldable pub toggle_menu : Navbar → Navbar
toggle_menu n = if n.is_mobile then record n { menu_open = not (n.menu_open) } else n

abbrev pub close_menu : Navbar → Navbar
close_menu n = record n { menu_open = false }
