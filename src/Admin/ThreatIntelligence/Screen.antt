-- ===== src/Admin/ThreatIntelligence/Screen.antt =====
-- frontend/admin_panel/src/app/pages/ThreatIntelligence.tsx, its markup. The time since a date, the
-- test whether a date is today, and JSON.stringify are parameters.
use trusyn_ai.Prelude.{ℕ, Text, codes, Bool, Option, none, some, List, take, map}
use trusyn_ai.Runtime.Value.{Value, Fields}
use trusyn_ai.Types.Common.{Severity, low, medium, high, critical, Decision}
use trusyn_ai.Types.Governance.{ThreatDto, ThreatInvestigationDto, InvestigationDecision}
use trusyn_ai.Pages.Format.{Age, Elapsed, to_relative_time, normalize_severity}
use trusyn_ai.Pages.Screen.{Button, shown_value, Body, filled_body}
use trusyn_ai.Pages.Threats.Screen.{PolicyCard, policy_card}
use trusyn_ai.Admin.Common.{spaced}
use trusyn_ai.Admin.Screen.{refresh_button}
use trusyn_ai.Admin.ThreatIntelligence.{
  ThreatIntelligence, is_critical, today_threats, critical_count, avg_response_time, block_rate,
  threat_type_data,
}

pub record IntelligenceHead : Type 0 where
  pub refresh : Button
  pub error : Option Value
  pub threats_today : ℕ
  pub critical_threats : ℕ
  pub avg_response_time : ℕ
  pub block_rate : ℕ
  pub threat_types : List (Text × ℕ)

unfoldable pub intelligence_head : (Text → Bool) → ThreatIntelligence → IntelligenceHead
unfolding today_threats critical_count avg_response_time block_rate threat_type_data
intelligence_head is_today p = record {
  refresh = refresh_button p.loading;
  error = shown_value p.error;
  threats_today = today_threats is_today p;
  critical_threats = critical_count p;
  avg_response_time = avg_response_time p;
  block_rate = block_rate p;
  threat_types = threat_type_data p;
}

pub data SeverityIcon : Type 0 where
  x_circle alert_triangle shield_alert info : SeverityIcon

unfoldable pub get_severity_icon : Severity → SeverityIcon
get_severity_icon critical = x_circle
get_severity_icon high = alert_triangle
get_severity_icon medium = shield_alert
get_severity_icon low = info

pub record FeedCard : Type 0 where
  pub glows : Bool
  pub icon : SeverityIcon
  pub severity : Text
  pub threat_type : Text
  pub title : Text
  pub description : Option Text
  pub age : Age
  pub agent : Text
  pub organization : Text

-- `agent_id?.slice(0, 8) ?? 'N/A'`
abbrev pub short_agent : Option Text → Text
short_agent none = codes "N/A"
short_agent (some id) = take 8 id

pub record DecisionEntry : Type 0 where
  pub decision : Decision
  pub risk_score : ℕ
  pub confidence_score : ℕ
  pub age : Age

-- the part of the sheet that waits for the investigation
pub record InvestigationPart : Type 0 where
  pub summary : Text
  pub decisions : List DecisionEntry
  pub policies : Body PolicyCard

pub record ThreatSheet : Type 0 where
  pub alarming : Bool
  pub severity : Text
  pub threat_type : Text
  pub title : Text
  pub detected : Age
  pub payload : Text
  pub investigation : Option InvestigationPart

module _ (since : Text → Elapsed) where
  abbrev pub feed_card : ThreatDto → FeedCard
  feed_card threat = record {
    glows = is_critical threat.severity;
    icon = get_severity_icon threat.severity;
    severity = normalize_severity threat.severity;
    threat_type = spaced threat.threat_type;
    title = threat.title;
    description = threat.description;
    age = to_relative_time (since threat.detected_at);
    agent = short_agent threat.agent_id;
    organization = take 8 threat.organization_id;
  }

  unfoldable pub threat_feed : ThreatIntelligence → List FeedCard
  unfolding get_severity_icon normalize_severity to_relative_time
  threat_feed p = map feed_card p.threats

  abbrev pub decision_entry : InvestigationDecision → DecisionEntry
  decision_entry item = record {
    decision = item.decision;
    risk_score = item.risk_score;
    confidence_score = item.confidence_score;
    age = to_relative_time (since item.created_at);
  }

  abbrev pub investigation_part : Option ThreatInvestigationDto → Option InvestigationPart
  investigation_part none = none
  investigation_part (some found) = some (record {
    summary = found.risk_reasoning_summary;
    decisions = map decision_entry found.decisions;
    policies =
        filled_body (codes "No explicit policy matches for this threat.") policy_card
          found.matched_policies;
  })

  module _ (pretty_json : Fields → Text) where
    abbrev pub sheet_of : Option ThreatInvestigationDto → Option ThreatDto → Option ThreatSheet
    sheet_of investigation none = none
    sheet_of investigation (some threat) = some (record {
      alarming = is_critical threat.severity;
      severity = normalize_severity threat.severity;
      threat_type = spaced threat.threat_type;
      title = threat.title;
      detected = to_relative_time (since threat.detected_at);
      payload = pretty_json threat.raw_payload;
      investigation = investigation_part investigation;
    })

    unfoldable pub threat_sheet : ThreatIntelligence → Option ThreatSheet
    unfolding normalize_severity to_relative_time
    threat_sheet p = sheet_of p.investigation p.selected_threat
