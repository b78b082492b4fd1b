-- ===== src/Types/Governance.antt =====
-- The agents, policies, threats and audit logs of api/types/auth.ts, and the investigation of
-- api/types/domain.ts.
use trusyn_ai.Prelude.{ℕ, Text, Bool, Option, List}
use trusyn_ai.Runtime.Value.{Fields}
use trusyn_ai.Types.Common.{Severity, Decision}

pub record AuditLogDto : Type 0 where
  pub id : Text
  pub organization_id : Text
  pub user_id : Option Text
  pub event_type : Text
  pub severity : Severity
  pub message : Text
  pub metadata : Fields
  pub timestamp : Text
  pub created_at : Text
  pub updated_at : Text

pub data AgentStatus : Type 0 where
  operational warning quarantined blocked : AgentStatus

-- The trust score is a natural number: the backend keeps it so.
pub record AgentDto : Type 0 where
  pub id : Text
  pub organization_id : Text
  pub name : Text
  pub description : Option Text
  pub status : AgentStatus
  pub trust_score : ℕ
  pub permissions : Fields
  pub metadata : Fields
  pub last_active_at : Option Text
  pub created_at : Text
  pub updated_at : Text

pub record PolicyDto : Type 0 where
  pub id : Text
  pub organization_id : Text
  pub name : Text
  pub description : Option Text
  pub rule_definition : Fields
  pub enforcement_action : Decision
  pub enabled : Bool
  pub created_at : Text
  pub updated_at : Text

pub record ThreatDto : Type 0 where
  pub id : Text
  pub organization_id : Text
  pub agent_id : Option Text
  pub threat_type : Text
  pub severity : Severity
  pub title : Text
  pub description : Option Text
  pub raw_payload : Fields
  pub source_ip : Option Text
  pub detected_at : Text
  pub created_at : Text
  pub updated_at : Text

pub record InvestigationDecision : Type 0 where
  pub governance_decision_id : Text
  pub decision : Decision
  pub risk_score : ℕ
  pub confidence_score : ℕ
  pub reason : Option Text
  pub created_at : Text

pub record MatchedPolicy : Type 0 where
  pub policy_id : Text
  pub name : Text
  pub enforcement_action : Decision

pub record TimelineEntry : Type 0 where
  pub event_type : Text
  pub timestamp : Text
  pub severity : Severity
  pub message : Text

pub record RelatedThreat : Type 0 where
  pub threat_id : Text
  pub threat_type : Text
  pub severity : Severity
  pub title : Text
  pub detected_at : Text

pub record ThreatInvestigationDto : Type 0 where
  pub threat_id : Text
  pub organization_id : Text
  pub agent_id : Option Text
  pub threat_type : Text
  pub severity : Severity
  pub title : Text
  pub description : Option Text
  pub detected_at : Text
  pub source_ip : Option Text
  pub raw_payload : Fields
  pub decisions : List InvestigationDecision
  pub matched_policies : List MatchedPolicy
  pub risk_reasoning_summary : Text
  pub timeline : List TimelineEntry
  pub related_threats : List RelatedThreat
  pub explainability_summary : Option Text
