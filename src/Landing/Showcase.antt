-- ===== src/Landing/Showcase.antt =====
-- App.tsx and pages/DemoShowcasePage.tsx of frontend/landing-page/src/app, and the buttons that
-- lead to the demos. The addresses of the demos come from the environment of the build.
use trusyn_ai.Prelude.{Text, text_eq, codes, Option, none, some, List, [], ◌∷◌, if◌then◌else◌}

pub data Screen : Type 0 where
  demo_showcase landing_page : Screen

unfoldable pub app_screen : Text → Screen
unfolding text_eq
app_screen pathname = if text_eq pathname (codes "/demos") then demo_showcase else landing_page

-- `navigateToDemoHub`: where it leads
abbrev pub demo_hub : Text
demo_hub = codes "/demos"

pub record DemoCard : Type 0 where
  pub title : Text
  pub description : Text
  pub points : List Text
  pub button_label : Text
  pub href : Text
  pub accent : Text

-- `import.meta.env.… ?? '/'`
abbrev pub or_home : Option Text → Text
or_home none = codes "/"
or_home (some url) = url

unfoldable pub demo_cards : Option Text → Option Text → List DemoCard
demo_cards user_app_url admin_panel_url =
    record {
      title = codes "Trusyn AI Website";
      description =
          codes
            "Explore the public product narrative, trust positioning, and platform architecture overview.";
      points =
          codes "Product narrative and positioning"
          ∷ codes "Enterprise trust messaging"
          ∷ codes "Architecture overview"
          ∷ [];
      button_label = codes "View";
      href = codes "/";
      accent = codes "#8B3CF7";
    }
    ∷ record {
      title = codes "Trusyn AI User APP";
      description =
          codes
            "Experience the organization user dashboard for runtime monitoring and governance workflows.";
      points =
          codes "Organization-level visibility"
          ∷ codes "Agent and threat operations"
          ∷ codes "Policy and governance actions"
          ∷ [];
      button_label = codes "View Demo";
      href = or_home user_app_url;
      accent = codes "#38BDF8";
    }
    ∷ record {
      title = codes "Trusyn AI Admin Panel";
      description =
          codes
            "See the platform-wide control center for global operations, analytics, and platform health.";
      points =
          codes "Global organization oversight"
          ∷ codes "Platform threat intelligence"
          ∷ codes "Operational health telemetry"
          ∷ [];
      button_label = codes "View Demo";
      href = or_home admin_panel_url;
      accent = codes "#7C3AED";
    }
    ∷ []

-- The effect of the page: the `overflow` of the body while it is shown, with what it was before,
-- and what the cleanup leaves.
abbrev pub hide_overflow : Text → Text × Text
hide_overflow original = (codes "hidden", original)

abbrev pub restore_overflow : Text × Text → Text
restore_overflow (shown, original) = original
