-- ===== src/Pages/Settings/Toggles.antt =====
-- The switches of the integrations on the settings page, which share one flag.
use trusyn_ai.Prelude.{
  ◌≡◌, ◌≢◌, ◌∙◌, sym, ap, if◌then◌else◌, refl, not, Text, text_eq, text_eq_iff, Bool, true, false,
  Option, none, some, [], ◌∷◌, arith, map,
}
use mathlib.Core.Path.{subst}
use trusyn_ai.Runtime.Value.{Value}
use trusyn_ai.Runtime.Monad.{Env, Result, ok, throw}
use trusyn_ai.Types.Account.{UserRole, IntegrationDto}
use trusyn_ai.Pages.Listing.{is_id}
use trusyn_ai.Pages.Policies.{can_manage}
use trusyn_ai.Pages.Settings.Screen.{toggle_button}
use trusyn_ai.Pages.Settings.{
  IntegrationPayload, handle_toggle_integration_start, handle_toggle_integration_finish,
}
use trusyn_ai.Pages.Settings.Run.{
  SettingsRun, settings_event, settings_events, card_event, press_toggle, entry_of, toggle_pressed,
  toggle_answered,
}

text_ne : (s t : Text) → s ≢ t → text_eq s t ≡ false
text_ne s t h = ground (arith, text_eq_iff s t)

-- the integration that a call switches
abbrev pub switched : IntegrationDto × IntegrationPayload → IntegrationDto
switched call = call.0

if_false : {A : Type 0} (b : Bool) (x y : A) → b ≡ false → (if b then x else y) ≡ y
if_false b x y e = rw e refl

-- a switch that is pressed and not disabled
abbrev toggled : IntegrationDto → SettingsRun → SettingsRun
toggled item r = record r {
  page = record (r.page) {
    error = none;
    success_message = none;
    integration_saving_key = some item.key;
  };
  toggles = (item, record { enabled = not item.enabled; config = item.config }) ∷ r.toggles;
}

press_toggle-eq :
    (role : Option UserRole) (item : IntegrationDto) (r : SettingsRun) (o : Option IntegrationDto)
    → can_manage role ≡ true
    → is_id r.page.integration_saving_key item.key ≡ false
    → o ≡ some item
    → press_toggle role r o ≡ toggled item r
unfolding press_toggle handle_toggle_integration_start toggle_button
press_toggle-eq role item r o m free e = simp (e, m, free) refl

module _ (env : Env) (parse : Text → Option Value) (role : Option UserRole) where
  toggle_pressed-eq :
      (item : IntegrationDto) (r : SettingsRun)
      → can_manage role ≡ true
      → r.page.loading ≡ false
      → is_id r.page.integration_saving_key item.key ≡ false
      → entry_of item.key r.page.integrations ≡ some item
      → settings_event env parse role (toggle_pressed item.key) r ≡ toggled item r
  unfolding settings_event card_event
  toggle_pressed-eq item r m idle free e =
      if_false r.page.loading _ _ idle
      ∙ (press_toggle-eq role item r (entry_of item.key r.page.integrations) m free e)

  -- once the call at place 1 is answered, the call for `b` is under way and its button enabled
  abbrev IsLoose : IntegrationDto → Result IntegrationDto → SettingsRun → Type 0
  IsLoose b result q =
      let r' = settings_event env parse role (toggle_answered 1 result) q in
      (map switched r'.toggles ≡ b ∷ [])
      × ((toggle_button role r'.page.integration_saving_key b).disabled ≡ false)

  toggled-IsLoose :
      (a b : IntegrationDto) (result : Result IntegrationDto) (r : SettingsRun)
      → can_manage role ≡ true
      → r.toggles ≡ []
      → IsLoose b result (toggled b (toggled a r))
  unfolding settings_event handle_toggle_integration_finish toggle_button
  toggled-IsLoose a b (ok u) r m e = (ap (λ calls. b ∷ map switched calls) e, rw m refl)
  toggled-IsLoose a b (throw x) r m e = (ap (λ calls. b ∷ map switched calls) e, rw m refl)

  -- The integrations share one `integrationSavingKey`: where a manager switches one and then
  -- another one, with nothing under way before, the answer to the first call enables the button of
  -- the second one although its call is still under way.
  pub settings_events-toggles :
      (a b : IntegrationDto) (result : Result IntegrationDto) (r : SettingsRun)
      → can_manage role ≡ true
      → r.page.loading ≡ false
      → r.page.integration_saving_key ≡ none
      → r.toggles ≡ []
      → entry_of a.key r.page.integrations ≡ some a
      → entry_of b.key r.page.integrations ≡ some b
      → a.key ≢ b.key
      → let r' =
          settings_events env parse role
            (toggle_pressed a.key ∷ toggle_pressed b.key ∷ toggle_answered 1 result ∷ [])
            r in
        (map switched r'.toggles ≡ b ∷ [])
        × ((toggle_button role r'.page.integration_saving_key b).disabled ≡ false)
  unfolding settings_events
  settings_events-toggles a b result r m idle unset none_waits ea eb ne =
      let first = toggle_pressed-eq a r m idle (rw unset refl) ea in
      let second =
        toggle_pressed-eq b (toggled a r) m idle (text_ne b.key a.key (λ e. ne (sym e))) eb in
      subst (λ q. IsLoose b result q)
        (sym (ap (settings_event env parse role (toggle_pressed b.key)) first ∙ second))
        (toggled-IsLoose a b result r m none_waits)
