-- ===== src/Admin/Samples.antt =====
-- The theorems on the health page, the settings and the frame of the admin panel, applied to small
-- inputs.
use trusyn_ai.Prelude.{◌*◌, ◌≤◌, ◌≡◌, refl, Text, codes, true, false, none, List, [], ◌∷◌, arith}
use trusyn_ai.Runtime.Value.{Value, blank, obj}
use trusyn_ai.Runtime.Monad.{App, Env, failure}
use trusyn_ai.Types.Reports.{ComponentHealthResponse}
use trusyn_ai.Client.Sample.{env_with}
use trusyn_ai.Auth.AdminFrame.{Page, governance, first_frame}
use trusyn_ai.Admin.Common.{Answer, answered, failed}
use trusyn_ai.Admin.SystemHealth.{
  HealthAnswers, first_health, load_health_finish, all_operational, avg_uptime,
}
use trusyn_ai.Admin.SystemHealth.Laws.{AllOk, load_health_finish-operational}
use trusyn_ai.Admin.Settings.{
  AdminSettings, idle, save_profile_start, save_profile_finish, reset_save_state, save_indicator,
}
use trusyn_ai.Admin.Settings.Timers.{
  Run, stays, goes, profile_started, profile_ended, timed_out, Run-rests,
}
use trusyn_ai.Admin.Layout.{
  FrameEvent, entry_clicked, settings_opened, logged_in, logged_out, run_events,
}
use trusyn_ai.Admin.Layout.Laws.{IsAt, run_events-IsAt}

abbrev component : Text → ComponentHealthResponse
component status = record {
  status = status;
  component = codes "part";
  connected = true;
  latency_ms = none;
  timestamp = codes "now";
  details = blank;
}

-- a cache that is down
abbrev answers : HealthAnswers
answers = record {
  api = record {
    status = codes "ok";
    service = codes "api";
    version = none;
    environment = none;
    timestamp = none;
  };
  db = record {
    status = codes "ok";
    database = codes "db";
    connected = true;
    latency_ms = none;
    timestamp = codes "now";
  };
  cache = component (codes "error");
  ws = component (codes "ok");
  governance = component (codes "ok");
  summary = record {
    requests_per_second = record { mantissa = 12; decimals = 1 };
    avg_latency_ms = record { mantissa = 90; decimals = 0 };
    p95_latency_ms = record { mantissa = 200; decimals = 0 };
    success_count = 8;
    blocked_count = 1;
    failed_count = 1;
    model_usage = [];
    requests_by_hour = [];
  };
}

load_health_finish-operational_example :
    let p' = load_health_finish (codes "now") (answered answers) first_health in
    (all_operational p' ≡ true → AllOk answers)
    × (AllOk answers → all_operational p' ≡ true)
    × (9750 * (avg_uptime p').1 ≤ (avg_uptime p').0)
    × ((avg_uptime p').0 ≤ 9999 * (avg_uptime p').1)
load_health_finish-operational_example =
    load_health_finish-operational (codes "now") answers first_health

abbrev settings_page : AdminSettings
settings_page = record {
  user = none;
  organization = none;
  integrations = [];
  api_keys = [];
  new_api_key_name = [];
  created_key = none;
  loading = false;
  error = none;
  save_state = idle;
  timers = 0;
  profile_draft = record { full_name = codes "Nisha"; avatar_url = []; preferences = [] };
  organization_draft = record {
    name = [];
    slug = [];
    description = [];
    website = [];
    settings = [];
  };
}

-- Any text is read as the empty object.
abbrev parse_empty : Text → Answer Value
parse_empty text = answered (obj blank)

-- a save that is sent, refused, and whose timer comes
abbrev waiting : AdminSettings
waiting = (save_profile_start parse_empty settings_page).0

abbrev refused : AdminSettings
refused = save_profile_finish (failed none) waiting

saved_once : Run parse_empty settings_page 0 (reset_save_state refused) 0
unfolding save_profile_start save_profile_finish
saved_once =
    goes
      (goes (goes (stays settings_page 0) (profile_started settings_page 0))
        (profile_ended (failed none) waiting 0))
      (timed_out refused 0 (omega arith))

no_timer_left : (reset_save_state refused).timers ≡ 0
unfolding save_profile_start save_profile_finish reset_save_state
no_timer_left = refl

Run-rests_example :
    ((reset_save_state refused).save_state ≡ idle)
    × (save_indicator (reset_save_state refused).save_state ≡ none)
Run-rests_example =
    Run-rests settings_page (reset_save_state refused) 0 0 saved_once refl no_timer_left refl

abbrev offline : Env
offline = env_with (λ n. failure)

abbrev signed_out : App
signed_out = record { storage = λ k. none; refreshing = false; emitted = 0; sent = [] }

abbrev clicks : List FrameEvent
clicks = logged_in ∷ settings_opened ∷ logged_out signed_out ∷ entry_clicked governance ∷ []

run_events-IsAt_example : (page : Page) × IsAt (run_events offline clicks first_frame) page
run_events-IsAt_example = run_events-IsAt offline clicks
