-- ===== src/Admin/ThreatIntelligence.antt =====
-- frontend/admin_panel/src/app/pages/ThreatIntelligence.tsx
pub mod Laws
pub mod Screen
use trusyn_ai.Prelude.{
  ℕ, ◌-◌, Text, text_eq, codes, Bool, true, false, not, ◌&&◌, Option, none, some, List, [], ◌∷◌,
  max, if◌then◌else◌, ◌==◌, map, length,
}
use trusyn_ai.Runtime.Value.{Value, str, lookup, is_truthy}
use trusyn_ai.Types.Common.{PaginatedResult, Severity, critical}
use trusyn_ai.Types.Governance.{ThreatDto, ThreatInvestigationDto, InvestigationDecision}
use trusyn_ai.Admin.Common.{Answer, answered, failed, error_text, count_if, percent, spaced, tally}

-- `filter` is 'all' or a severity
pub record ThreatIntelligence : Type 0 where
  pub threats : List ThreatDto
  pub selected_threat : Option ThreatDto
  pub investigation : Option ThreatInvestigationDto
  pub filter : Option Severity
  pub loading : Bool
  pub error : Option Value

-- the parameters of the list, beside the offset 0
pub record ThreatListQuery : Type 0 where
  pub limit : ℕ
  pub severity : Option Severity

unfoldable pub load_threats_start : ThreatIntelligence → ThreatIntelligence × ThreatListQuery
load_threats_start p =
    (record p { loading = true; error = none }, record { limit = 60; severity = p.filter })

unfoldable pub load_threats_finish :
    Answer (PaginatedResult ThreatDto) → ThreatIntelligence → ThreatIntelligence
load_threats_finish (answered page) p = record p { threats = page.items; loading = false }
load_threats_finish (failed message) p = record p {
  error = some (error_text (codes "Unable to load threats") message);
  loading = false;
}

-- the three buttons of the feed, with the effect that loads again
unfoldable pub pick_filter :
    Option Severity → ThreatIntelligence → ThreatIntelligence × ThreatListQuery
unfolding load_threats_start
pick_filter severity p = load_threats_start (record p { filter = severity })

-- The sheet of a threat: it opens without an investigation, the investigation comes, and it is
-- closed.
unfoldable pub open_investigation_start : ThreatDto → ThreatIntelligence → ThreatIntelligence
open_investigation_start threat p = record p { selected_threat = some threat; investigation = none }

unfoldable pub open_investigation_finish :
    Answer ThreatInvestigationDto → ThreatIntelligence → ThreatIntelligence
open_investigation_finish (answered found) p = record p { investigation = some found }
open_investigation_finish (failed message) p = record p { investigation = none }

abbrev pub close_sheet : ThreatIntelligence → ThreatIntelligence
close_sheet p = record p { selected_threat = none }

-- the bars of the chart: a type and its count
unfoldable pub threat_type_data : ThreatIntelligence → List (Text × ℕ)
threat_type_data p = tally (map (λ (t : ThreatDto). spaced t.threat_type) p.threats) []

abbrev pub is_critical : Severity → Bool
is_critical critical = true
is_critical _ = false

unfoldable pub critical_count : ThreatIntelligence → ℕ
critical_count p = count_if (λ (t : ThreatDto). is_critical t.severity) p.threats

-- `is_today` compares the day of a date with that of the clock
unfoldable pub today_threats : (Text → Bool) → ThreatIntelligence → ℕ
today_threats is_today p = count_if (λ (t : ThreatDto). is_today t.detected_at) p.threats

-- `investigation?.decisions?.[0]?.confidence_score`, where there is one
abbrev first_confidence : List InvestigationDecision → ℕ
first_confidence [] = 0
first_confidence (d ∷ decisions) = d.confidence_score

abbrev investigated_confidence : Option ThreatInvestigationDto → ℕ
investigated_confidence none = 0
investigated_confidence (some found) = first_confidence found.decisions

-- A score of 0 is taken for a missing one; above 200 the difference, here 0, is below 65 too.
unfoldable pub avg_response_time : ThreatIntelligence → ℕ
avg_response_time p =
    let score = investigated_confidence p.investigation in
    if score == 0 then 145 else max 65 (200 - score)

-- `decision === text`
abbrev pub is_text : Text → Value → Bool
is_text wanted (str t) = text_eq t wanted
is_text wanted _ = false

-- `normalizeDecision(decision) === 'blocked'`, of what the payload holds, whatever it is
unfoldable pub inferred_block : ThreatDto → Bool
inferred_block t =
    let decision = lookup "decision" t.raw_payload in
    is_truthy decision
    && not (is_text (codes "ALLOW") decision)
    && not (is_text (codes "REVIEW") decision)

unfoldable pub block_rate : ThreatIntelligence → ℕ
unfolding inferred_block
block_rate p = percent (count_if inferred_block p.threats) (length p.threats)
