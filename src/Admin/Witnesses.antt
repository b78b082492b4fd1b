-- ===== src/Admin/Witnesses.antt =====
-- The theorems on the organizations, the agents and the threats of the admin panel, applied to
-- small pages.
use trusyn_ai.Prelude.{
  ℕ, if◌then◌else◌, ◌==◌, ◌+◌, ◌≤◌, ◌*◌, ◌≡◌, refl, Text, codes, false, none, some, [], ◌∷◌, length,
  arith,
}
use trusyn_ai.Runtime.Value.{blank, field, str}
use trusyn_ai.Types.Common.{PaginatedResult, high}
use trusyn_ai.Types.Governance.{
  ThreatDto, AgentDto, AgentStatus, operational, warning, quarantined, blocked,
}
use trusyn_ai.Types.Reports.{AdminOrganizationItem}
use trusyn_ai.Types.Account.{active}
use trusyn_ai.Admin.Common.{answered}
use trusyn_ai.Admin.Counting.{occurrences, bars_of}
use trusyn_ai.Admin.Organizations.{
  Organizations, load_organizations_finish, next_offset_of, current_page, total_pages,
}
use trusyn_ai.Admin.Organizations.Laws.{next_offset_of-page}
use trusyn_ai.Admin.AiAgents.{AiAgents, status_count, avg_trust_score}
use trusyn_ai.Admin.AiAgents.Laws.{status_count-avg_trust_score}
use trusyn_ai.Admin.ThreatIntelligence.{
  ThreatIntelligence, block_rate, avg_response_time, threat_type_data,
}
use trusyn_ai.Admin.ThreatIntelligence.Laws.{types_of, blocked_of, block_rate-bounds}

abbrev acme : AdminOrganizationItem
acme = record {
  id = codes "o1";
  name = codes "Acme";
  slug = codes "acme";
  plan = codes "pro";
  status = active;
  website = none;
  created_at = [];
  users_count = 3;
  active_agents_count = 2;
  policies_enabled_count = 1;
  threats_24h_count = 0;
  avg_risk_24h = record { mantissa = 5; decimals = 1 };
}

-- 60 organizations, of which the second 25 are shown
abbrev organizations_page : Organizations
organizations_page = record {
  search_term = [];
  selected_org = none;
  status_filter = none;
  loading = false;
  error = none;
  organizations = acme ∷ [];
  total = 60;
  offset = 25;
  org_requests = [];
}

abbrev third_page : PaginatedResult AdminOrganizationItem
third_page = record { items = acme ∷ []; total = 60; limit = 25; offset = 50 }

next_is_50 : next_offset_of organizations_page ≡ some 50
unfolding next_offset_of
next_is_50 = refl

next_offset_of-page_test :
    let p' = load_organizations_finish 50 (answered third_page) organizations_page in
    (current_page p' ≡ current_page organizations_page + 1) × (current_page p' ≤ total_pages p')
next_offset_of-page_test = next_offset_of-page organizations_page 50 third_page next_is_50 refl

abbrev agent : AgentStatus → ℕ → AgentDto
agent status score = record {
  id = codes "a";
  organization_id = codes "o1";
  name = codes "scout";
  description = none;
  status = status;
  trust_score = score;
  permissions = blank;
  metadata = blank;
  last_active_at = none;
  created_at = [];
  updated_at = [];
}

abbrev agents_page : AiAgents
agents_page = record {
  search_term = [];
  status_filter = none;
  selected_agent = none;
  agents = agent operational 90 ∷ agent blocked 25 ∷ [];
  loading = false;
  error = none;
}

status_count-avg_trust_score_test :
    (status_count operational agents_page
        + status_count warning agents_page
        + status_count quarantined agents_page
        + status_count blocked agents_page
      ≡ length agents_page.agents)
    × (avg_trust_score agents_page ≤ 100)
status_count-avg_trust_score_test =
    status_count-avg_trust_score agents_page (omega arith, (omega arith, tt))

abbrev threat : Text → ThreatDto
threat decision = record {
  id = codes "t";
  organization_id = codes "o1";
  agent_id = none;
  threat_type = codes "prompt_injection";
  severity = high;
  title = codes "injection";
  description = none;
  raw_payload = field "decision" (str decision) blank;
  source_ip = none;
  detected_at = [];
  created_at = [];
  updated_at = [];
}

abbrev threats_page : ThreatIntelligence
threats_page = record {
  threats = threat (codes "BLOCK") ∷ threat (codes "ALLOW") ∷ threat (codes "QUARANTINE") ∷ [];
  selected_threat = none;
  investigation = none;
  filter = none;
  loading = false;
  error = none;
}

block_rate-bounds_example :
    (block_rate threats_page ≤ 100)
    × (2 * 3 * block_rate threats_page ≤ 200 * blocked_of threats_page + 3)
    × (200 * blocked_of threats_page ≤ 2 * 3 * block_rate threats_page + 3)
    × (65 ≤ avg_response_time threats_page)
    × (avg_response_time threats_page ≤ 199)
    × (bars_of (codes "prompt injection") (threat_type_data threats_page) ≡ (
        if occurrences (codes "prompt injection") (types_of threats_page) == 0
        then []
        else occurrences (codes "prompt injection") (types_of threats_page) ∷ []))
block_rate-bounds_example = block_rate-bounds (codes "prompt injection") threats_page
