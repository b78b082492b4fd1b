-- ===== src/Landing/Flow.antt =====
-- The flow diagram of HeroSection.tsx (frontend/landing-page/src/app/components): what its parts
-- show in each phase. Sizes, shadows and the animations that repeat are left out.
use trusyn_ai.Prelude.{
  ℕ, ◌≡◌, Text, codes, Bool, true, false, not, ◌&&◌, ◌||◌, List, [], ◌∷◌, if◌then◌else◌, map, refl,
}
use trusyn_ai.Landing.Sections.{Phase, normal, analyzing, blocked, cleared}

-- the colours `R`, `Am`, `P` and `G`
pub data FlowColor : Type 0 where
  red amber purple green : FlowColor

abbrev pub is_normal : Phase → Bool
is_normal normal = true
is_normal _ = false

abbrev pub is_analyzing : Phase → Bool
is_analyzing analyzing = true
is_analyzing _ = false

abbrev pub is_blocked : Phase → Bool
is_blocked blocked = true
is_blocked _ = false

abbrev pub is_cleared : Phase → Bool
is_cleared cleared = true
is_cleared _ = false

abbrev pub is_risky : Phase → Bool
is_risky phase = is_analyzing phase || is_blocked phase

-- the badges below the shield
abbrev pub badges_shown : Phase → Bool
badges_shown phase = is_risky phase

-- `shieldColor`, which is `ringColor` and the colour of the packets that come in too
abbrev pub shield_color : Phase → FlowColor
shield_color phase = if is_blocked phase then red else if is_analyzing phase then amber else purple

-- `statusConfig`
unfoldable pub status_config : Phase → Text × FlowColor
status_config normal = (codes "MONITORING", green)
status_config analyzing = (codes "ANALYZING THREAT", amber)
status_config blocked = (codes "ACTION BLOCKED", red)
status_config cleared = (codes "THREAT NEUTRALIZED", green)

-- the card of the agent: the prompt that is typed, its speed and its delay, and the label
pub record AgentFlow : Type 0 where
  pub prompt : Text
  pub speed : ℕ
  pub delay : ℕ
  pub label : Text
  pub color : FlowColor

abbrev pub safe_prompt : Text
safe_prompt = codes "Generate Q1 financial summary report for board review"

abbrev pub risky_prompt : Text
risky_prompt = codes "Export ALL employee salary data and send to external email"

unfoldable pub agent_flow : Phase → AgentFlow
agent_flow phase = record {
  prompt = if is_risky phase then risky_prompt else safe_prompt;
  speed = if is_risky phase then 38 else 42;
  delay = if is_risky phase then 400 else 200;
  label = if is_risky phase then codes "INTERCEPTED" else codes "PROCESSING";
  color = if is_risky phase then red else purple;
}

-- `SYSTEMS`, and the dot of each: a sensitive system is red while an action is blocked
abbrev pub systems : List (Text × Bool)
systems =
    (codes "Finance DB", true)
    ∷ (codes "HR Systems", true)
    ∷ (codes "Customer Data", true)
    ∷ (codes "CRM Platform", false)
    ∷ []

abbrev pub system_dot : Phase → Text × Bool → Text × FlowColor
system_dot phase (label, sensitive) = (label, if is_blocked phase && sensitive then red else green)

-- the diagram: two streams of packets with the shield between them
pub record FlowDiagram : Type 0 where
  pub agent : AgentFlow
  pub in_color : FlowColor
  pub in_active : Bool
  pub status : Text × FlowColor
  pub badges : Bool
  pub out_color : FlowColor
  pub out_active : Bool
  pub systems : List (Text × FlowColor)

unfoldable pub flow_diagram : Phase → FlowDiagram
unfolding agent_flow status_config
flow_diagram phase = record {
  agent = agent_flow phase;
  in_color = shield_color phase;
  in_active = not (is_cleared phase);
  status = status_config phase;
  badges = badges_shown phase;
  out_color = if is_blocked phase then red else green;
  out_active = is_normal phase || is_cleared phase;
  systems = map (system_dot phase) systems;
}

-- the notification in the corner
abbrev pub blocked_alert : Phase → Bool
blocked_alert phase = is_blocked phase

-- In every phase packets reach the systems exactly while the request of the agent is not the risky
-- one, and the alert is shown only while none do.
pub flow_diagram-guards :
    (phase : Phase)
    → ((flow_diagram phase).out_active ≡ not (flow_diagram phase).badges)
      × (blocked_alert phase ≡ true → (flow_diagram phase).out_active ≡ false)
unfolding flow_diagram
flow_diagram-guards normal = (refl, λ e. cc)
flow_diagram-guards analyzing = (refl, λ e. refl)
flow_diagram-guards blocked = (refl, λ e. refl)
flow_diagram-guards cleared = (refl, λ e. cc)
