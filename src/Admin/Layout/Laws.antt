-- ===== src/Admin/Layout/Laws.antt =====
-- The menus of the top bar, and the entry of the sidebar that is active.
use trusyn_ai.Prelude.{
  ◌≤◌, ◌≡◌, refl, Text, text_eq, Bool, true, false, ◌&&◌, List, [], ◌∷◌, take, length, arith,
  length-take, length-map, Bool-cases, inl, inr, ◌∙◌,
}
use trusyn_ai.Runtime.Monad.{App, Env, Result, ok, throw}
use trusyn_ai.Runtime.Value.{Value}
use trusyn_ai.Session.Tokens.{get_access_token}
use trusyn_ai.Session.Storage.{admin_panel}
use trusyn_ai.Types.Reports.{AdminPlatformOverview}
use trusyn_ai.Pages.Format.{Elapsed}
use trusyn_ai.Admin.Common.{Answer, answered, failed, count_if}
use trusyn_ai.Auth.Route.{token_missing}
use trusyn_ai.Auth.Service.{admin_me}
use trusyn_ai.Auth.AdminFrame.{
  Frame, Page, platform_overview, organizations, threat_intelligence, ai_agents, api_monitoring,
  governance, audit_logs, system_health, settings, first_frame, render_page, boot, follow_session,
  on_logout, after_me,
}
use trusyn_ai.Admin.Layout.{
  TopNavbar, notifications_arrive, toggle_notifications, toggle_profile_menu, notification_of,
  nav_id, nav_items, is_active, FrameEvent, entry_clicked, settings_opened, logged_in, logged_out,
  booted_up, session_changed, run_event, run_events,
}

-- What happens to the bar.
pub data BarEvent : Type 0 where
  bell_pressed profile_pressed : BarEvent
  overview_came : Bool → Answer AdminPlatformOverview → BarEvent

module _ (since : Text → Elapsed) where
  unfoldable pub bar_event : BarEvent → TopNavbar → TopNavbar
  unfolding toggle_notifications toggle_profile_menu notifications_arrive
  bar_event bell_pressed bar = toggle_notifications bar
  bar_event profile_pressed bar = toggle_profile_menu bar
  bar_event (overview_came is_mounted answer) bar = notifications_arrive since is_mounted answer bar

  unfoldable pub bar_events : List BarEvent → TopNavbar → TopNavbar
  unfolding bar_event
  bar_events [] bar = bar
  bar_events (event ∷ events) bar = bar_events events (bar_event event bar)

  -- at most one menu is open, and the badge shows at most five
  abbrev pub IsTidy : TopNavbar → Type 0
  IsTidy bar =
      (bar.show_notifications && bar.show_profile_menu ≡ false) × (length bar.notifications ≤ 5)

  bar_event-IsTidy :
      (event : BarEvent) (bar : TopNavbar) → IsTidy bar → IsTidy (bar_event event bar)
  unfolding bar_event toggle_notifications toggle_profile_menu notifications_arrive
  bar_event-IsTidy bell_pressed bar h = (ground arith, h.1)
  bar_event-IsTidy profile_pressed bar h = (ground arith, h.1)
  bar_event-IsTidy (overview_came true (answered overview)) bar h = (
    h.0,
    omega (
      arith,
      length-map (take 5 overview.recent_threats) (notification_of since),
      length-take 5 overview.recent_threats,
    ),
  )
  bar_event-IsTidy (overview_came true (failed message)) bar h = (h.0, omega arith)
  bar_event-IsTidy (overview_came false (answered overview)) bar h = h
  bar_event-IsTidy (overview_came false (failed message)) bar h = h

  -- Whatever is pressed and answered, in any order, the two menus of the top bar are never open
  -- together, and there are at most five notifications.
  pub bar_events-IsTidy :
      (events : List BarEvent) (bar : TopNavbar) → IsTidy bar → IsTidy (bar_events events bar)
  unfolding bar_events
  bar_events-IsTidy [] bar h = h
  bar_events-IsTidy (event ∷ events) bar h =
      bar_events-IsTidy events (bar_event event bar) (bar_event-IsTidy event bar h)

-- The frame is at an entry of the sidebar: it shows the page of it, and this entry alone is active.
abbrev pub IsAt : Frame → Page → Type 0
IsAt f page =
    (f.active_page ≡ nav_id page)
    × (render_page f.active_page ≡ page)
    × (count_if (is_active f.active_page) nav_items ≡ 1)

nav_id-IsAt : (f : Frame) (page : Page) → f.active_page ≡ nav_id page → IsAt f page
unfolding render_page nav_items is_active text_eq
nav_id-IsAt f platform_overview e = rw e (refl, refl, refl)
nav_id-IsAt f organizations e = rw e (refl, refl, refl)
nav_id-IsAt f threat_intelligence e = rw e (refl, refl, refl)
nav_id-IsAt f ai_agents e = rw e (refl, refl, refl)
nav_id-IsAt f api_monitoring e = rw e (refl, refl, refl)
nav_id-IsAt f governance e = rw e (refl, refl, refl)
nav_id-IsAt f audit_logs e = rw e (refl, refl, refl)
nav_id-IsAt f system_health e = rw e (refl, refl, refl)
nav_id-IsAt f settings e = rw e (refl, refl, refl)

module _ (env : Env) where
  active_page-after_me :
      (f : Frame) (settled : Result Value × App)
      → (after_me env f settled).0.active_page ≡ f.active_page
  active_page-after_me f (ok me, s) = refl
  active_page-after_me f (throw e, s) = refl

  active_page-boot : (f : Frame) (s : App) → (boot env f s).0.active_page ≡ f.active_page
  unfolding boot
  active_page-boot f s =
      elim (Bool-cases (token_missing (get_access_token admin_panel s.storage))) [
        | inl missing ↦ rw missing refl
        | inr there ↦ rw there (active_page-after_me f (admin_me env s))
      ]

  -- the entry after an event at an entry
  page_after : FrameEvent → Page → Page
  page_after (entry_clicked page) here = page
  page_after settings_opened here = settings
  page_after logged_in here = here
  page_after (logged_out s) here = platform_overview
  page_after (booted_up s) here = here
  page_after (session_changed session_user s) here = here

  run_event-page :
      (event : FrameEvent) (f : Frame) (here : Page)
      → f.active_page ≡ nav_id here
      → (run_event env event f).active_page ≡ nav_id (page_after event here)
  unfolding run_event follow_session on_logout page_after
  run_event-page (entry_clicked page) f here e = refl
  run_event-page settings_opened f here e = refl
  run_event-page logged_in f here e = e
  run_event-page (logged_out s) f here e = refl
  run_event-page (booted_up s) f here e = active_page-boot f s ∙ e
  run_event-page (session_changed session_user s) f here e = e

  run_events-page :
      (events : List FrameEvent) (f : Frame) (here : Page)
      → f.active_page ≡ nav_id here
      → (page : Page) × IsAt (run_events env events f) page
  unfolding run_events
  run_events-page [] f here e = (here, nav_id-IsAt f here e)
  run_events-page (event ∷ events) f here e =
      run_events-page events (run_event env event f) (page_after event here)
        (run_event-page event f here e)

  -- However the user clicks, logs in and out, and the effects run, from the first frame on: the
  -- frame is at an entry of the sidebar, it shows the page of that entry, and this entry alone is
  -- active.
  pub run_events-IsAt :
      (events : List FrameEvent) → (page : Page) × IsAt (run_events env events first_frame) page
  run_events-IsAt events = run_events-page events first_frame platform_overview refl
