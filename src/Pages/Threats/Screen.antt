-- ===== src/Pages/Threats/Screen.antt =====
-- frontend/web-app/src/app/pages/ThreatCenterPage.tsx, its markup. The texts that the browser makes
-- of dates, and the time since a date, are parameters.
use trusyn_ai.Prelude.{ℕ, Text, codes, Bool, Option, none, some, if◌then◌else◌, length}
use trusyn_ai.Runtime.Value.{Value}
use trusyn_ai.Types.Common.{Severity, Decision}
use trusyn_ai.Types.Governance.{
  ThreatDto, ThreatInvestigationDto, InvestigationDecision, MatchedPolicy, TimelineEntry,
}
use trusyn_ai.Pages.Listing.{is_id}
use trusyn_ai.Pages.Format.{Age, Elapsed, relative_time}
use trusyn_ai.Pages.Screen.{
  severity_color, shown_value, or_na, Body, filled_body, list_body, Pager, pager, Refresh,
  refresh_control,
}
use trusyn_ai.Pages.Threats.{ThreatPage, critical_count}

pub record ThreatHead : Type 0 where
  pub refresh : Refresh
  pub error : Option Value
  pub in_view : ℕ
  pub critical : ℕ
  pub total_records : ℕ
  pub selected : Text

unfoldable pub threat_head : ThreatPage → ThreatHead
unfolding critical_count
threat_head p = record {
  refresh = refresh_control p.list.refreshing;
  error = shown_value p.list.error;
  in_view = length p.list.items;
  critical = critical_count p;
  total_records = p.list.total;
  selected = or_na p.list.selected_id;
}

pub record ThreatRow : Type 0 where
  pub id : Text
  pub highlighted : Bool
  pub title : Text
  pub severity : Severity
  pub color : Text
  pub threat_type : Text
  pub age : Age

pub record ThreatList : Type 0 where
  pub filter : Option Severity
  pub body : Body ThreatRow
  pub paging : Pager

module _ (since : Text → Elapsed) where
  abbrev pub threat_row : Option Text → ThreatDto → ThreatRow
  threat_row selected_id item = record {
    id = item.id;
    highlighted = is_id selected_id item.id;
    title = item.title;
    severity = item.severity;
    color = severity_color item.severity;
    threat_type = item.threat_type;
    age = relative_time (since item.detected_at);
  }

  unfoldable pub threat_list : ThreatPage → ThreatList
  unfolding relative_time list_body pager
  threat_list p = record {
    filter = p.severity_filter;
    body =
        list_body (codes "Loading threats...") (codes "No threat events found.")
          (threat_row p.list.selected_id) p.list.loading p.list.items;
    paging = pager p.list;
  }

pub record DecisionCard : Type 0 where
  pub decision : Decision
  pub risk_score : ℕ
  pub confidence_score : ℕ

pub record PolicyCard : Type 0 where
  pub name : Text
  pub enforcement_action : Decision

pub record TimelineCard : Type 0 where
  pub event_type : Text
  pub message : Text
  pub time : Text

abbrev pub decision_card : InvestigationDecision → DecisionCard
decision_card item = record {
  decision = item.decision;
  risk_score = item.risk_score;
  confidence_score = item.confidence_score;
}

abbrev pub policy_card : MatchedPolicy → PolicyCard
policy_card policy = record { name = policy.name; enforcement_action = policy.enforcement_action }

pub record InvestigationDetail : Type 0 where
  pub title : Text
  pub threat_type : Text
  pub threat_id : Text
  pub severity : Severity
  pub color : Text
  pub detected : Text
  pub source_ip : Text
  pub risk_reasoning_summary : Text
  pub decisions : Body DecisionCard
  pub matched_policies : Body PolicyCard
  pub timeline : Body TimelineCard

-- the panel beside the list
pub data InvestigationPanel : Type 0 where
  hint : Text → InvestigationPanel
  detail : InvestigationDetail → InvestigationPanel

module _ (local_date : Text → Text) where
  abbrev pub timeline_card : TimelineEntry → TimelineCard
  timeline_card item = record {
    event_type = item.event_type;
    message = item.message;
    time = local_date item.timestamp;
  }

  abbrev pub investigation_detail : ThreatInvestigationDto → InvestigationDetail
  investigation_detail found = record {
    title = found.title;
    threat_type = found.threat_type;
    threat_id = found.threat_id;
    severity = found.severity;
    color = severity_color found.severity;
    detected = local_date found.detected_at;
    source_ip = or_na found.source_ip;
    risk_reasoning_summary = found.risk_reasoning_summary;
    decisions = filled_body (codes "No decisions linked.") decision_card found.decisions;
    matched_policies =
        filled_body (codes "No policy links available.") policy_card found.matched_policies;
    timeline = filled_body (codes "No timeline events.") timeline_card found.timeline;
  }

  abbrev pub shown_investigation : Option ThreatInvestigationDto → InvestigationPanel
  shown_investigation none = hint (codes "Select a threat to inspect investigation details.")
  shown_investigation (some found) = detail (investigation_detail found)

  unfoldable pub investigation_panel : ThreatPage → InvestigationPanel
  investigation_panel p =
      if p.detail_loading
      then hint (codes "Loading investigation...")
      else shown_investigation p.investigation
