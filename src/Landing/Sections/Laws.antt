-- ===== src/Landing/Sections/Laws.antt =====
-- The phases go round, the charts keep their length, and one interval moves the tour.
use trusyn_ai.Prelude.{
  ℕ, ◌-◌, ◌≤◌, ◌<◌, ◌≡◌, refl, Text, true, false, List, [], ◌∷◌, trim, is_empty, arith, length,
  length-append, length-drop, drop,
}
use trusyn_ai.Landing.Sections.{
  next_phase, slide, Tour, first_tour, start_auto_play, advance, handle_step_click, leave_tour,
  CtaForm, type_cta_email, handle_submit, Navbar, on_resize, toggle_menu, close_menu,
}

-- The phases come round after four timeouts, from each of them.
pub next_phase-cycles :
    (idx : ℕ) → idx < 4 → next_phase (next_phase (next_phase (next_phase idx))) ≡ idx
unfolding next_phase
next_phase-cycles idx h = omega (arith, h)

-- A chart that slides keeps eight points from the first one on.
pub length-slide : {A : Type 0} (x : A) (xs : List A) → 7 ≤ length xs → length (slide x xs) ≡ 8
unfolding slide
length-slide x xs h =
    omega
      (arith, h, length-append (drop (length xs - 7) xs) (x ∷ []), length-drop (length xs - 7) xs)

-- What happens to the tour while it is mounted.
pub data TourEvent : Type 0 where
  ticked : TourEvent
  clicked : (i : ℕ) → i < 6 → TourEvent

unfoldable pub tour_events : List TourEvent → Tour → Tour
unfolding advance handle_step_click
tour_events [] t = t
tour_events (ticked ∷ events) t = tour_events events (advance t)
tour_events (clicked i h ∷ events) t = tour_events events (handle_step_click i t)

-- one interval runs, and a step is active
abbrev pub IsPlaying : Tour → Type 0
IsPlaying t = (t.timer_set ≡ true) × (t.intervals ≡ 1) × (t.active_step < 6)

tour_events-IsPlaying :
    (events : List TourEvent) (t : Tour) → IsPlaying t → IsPlaying (tour_events events t)
unfolding tour_events advance handle_step_click start_auto_play
tour_events-IsPlaying [] t h = h
tour_events-IsPlaying (ticked ∷ events) t h =
    tour_events-IsPlaying events (advance t) (h.0, h.1, omega arith)
tour_events-IsPlaying (clicked i below ∷ events) t h =
    tour_events-IsPlaying events (handle_step_click i t) (refl, ground (arith, h.0, h.1), below)

-- Whatever is clicked while the tour plays, exactly one interval runs and one of the six steps is
-- active, and none runs once the section is left.
pub tour_events-leave_tour :
    (events : List TourEvent)
    → let t = tour_events events (start_auto_play first_tour) in
      IsPlaying t × ((leave_tour t).intervals ≡ 0)
unfolding start_auto_play leave_tour
tour_events-leave_tour events =
    let playing =
      tour_events-IsPlaying events (start_auto_play first_tour) (refl, omega arith, omega arith) in
    (playing, ground (arith, playing.0, playing.1))

-- What happens to the form.
pub data CtaEvent : Type 0 where
  typed : Text → CtaEvent
  pressed : CtaEvent

unfoldable pub cta_events : List CtaEvent → CtaForm → CtaForm
unfolding type_cta_email handle_submit
cta_events [] c = c
cta_events (typed text ∷ events) c = cta_events events (type_cta_email text c)
cta_events (pressed ∷ events) c = cta_events events (handle_submit c)

abbrev pub IsFilled : CtaForm → Type 0
IsFilled c = c.submitted ≡ true → is_empty (trim c.email) ≡ false

-- A form that is submitted has an email that is not blank, however it was filled in.
pub cta_events-IsFilled :
    (events : List CtaEvent) (c : CtaForm) → IsFilled c → IsFilled (cta_events events c)
unfolding cta_events type_cta_email handle_submit
cta_events-IsFilled [] c h = h
cta_events-IsFilled (typed text ∷ events) c h =
    cta_events-IsFilled events (type_cta_email text c) (ground (arith, h))
cta_events-IsFilled (pressed ∷ events) c h =
    cta_events-IsFilled events (handle_submit c) (ground (arith, h))

-- What happens to the navigation bar.
pub data BarEvent : Type 0 where
  resized : ℕ → BarEvent
  button_pressed entry_pressed : BarEvent

unfoldable pub bar_events : List BarEvent → Navbar → Navbar
unfolding on_resize toggle_menu
bar_events [] n = n
bar_events (resized width ∷ events) n = bar_events events (on_resize width n)
bar_events (button_pressed ∷ events) n = bar_events events (toggle_menu n)
bar_events (entry_pressed ∷ events) n = bar_events events (close_menu n)

abbrev pub IsNarrow : Navbar → Type 0
IsNarrow n = n.is_mobile ≡ false → n.menu_open ≡ false

-- The menu is open on a narrow screen only, through any resizing and pressing.
pub bar_events-IsNarrow :
    (events : List BarEvent) (n : Navbar) → IsNarrow n → IsNarrow (bar_events events n)
unfolding bar_events on_resize toggle_menu
bar_events-IsNarrow [] n h = h
bar_events-IsNarrow (resized width ∷ events) n h =
    bar_events-IsNarrow events (on_resize width n) (ground arith)
bar_events-IsNarrow (button_pressed ∷ events) n h =
    bar_events-IsNarrow events (toggle_menu n) (ground (arith, h))
bar_events-IsNarrow (entry_pressed ∷ events) n h =
    bar_events-IsNarrow events (close_menu n) (λ e. refl)
