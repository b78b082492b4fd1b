-- ===== src/Admin/Organizations/Screen.antt =====
-- frontend/admin_panel/src/app/pages/Organizations.tsx, its markup. The time since a date is a
-- parameter; a score is shown with one decimal.
use trusyn_ai.Prelude.{
  ℕ, Text, codes, Bool, true, false, not, ◌&&◌, Option, none, some, List, ◌==◌, leb, ◌+◌, map,
  length,
}
use trusyn_ai.Runtime.Value.{Value}
use trusyn_ai.Types.Common.{Number}
use trusyn_ai.Types.Account.{OrganizationStatus}
use trusyn_ai.Types.Reports.{AdminOrganizationItem, AdminApiRequestItem, RequestStatus, success}
use trusyn_ai.Pages.Format.{Age, Elapsed, to_relative_time}
use trusyn_ai.Pages.Screen.{Button, plain_button, shown_value, Body, filled_body}
use trusyn_ai.Admin.Screen.{refresh_button, whole_part}
use trusyn_ai.Admin.Organizations.{
  Organizations, HealthColor, page_size, get_health_color, get_risk_color, current_page,
  total_pages,
}

pub record OrganizationRow : Type 0 where
  pub name : Text
  pub slug : Text
  pub active_agents : ℕ
  pub risk : Number
  pub risk_color : HealthColor
  pub plan : Text
  pub threats : ℕ
  pub status : OrganizationStatus
  pub status_color : HealthColor

unfoldable pub organization_row : AdminOrganizationItem → OrganizationRow
unfolding get_risk_color get_health_color
organization_row org = record {
  name = org.name;
  slug = org.slug;
  active_agents = org.active_agents_count;
  risk = org.avg_risk_24h;
  risk_color = get_risk_color (whole_part org.avg_risk_24h);
  plan = org.plan;
  threats = org.threats_24h_count;
  status = org.status;
  status_color = get_health_color org.status;
}

-- the table with its notice and its pager: "Page current of pages (total organizations)"
pub record OrganizationTable : Type 0 where
  pub refresh : Button
  pub error : Option Value
  pub rows : List OrganizationRow
  pub none_found : Bool
  pub current : ℕ
  pub pages : ℕ
  pub total : ℕ
  pub previous : Button
  pub next : Button

unfoldable pub organization_table : Organizations → OrganizationTable
unfolding organization_row current_page total_pages
organization_table p = record {
  refresh = refresh_button p.loading;
  error = shown_value p.error;
  rows = map organization_row p.organizations;
  none_found = length p.organizations == 0 && not p.loading;
  current = current_page p;
  pages = total_pages p;
  total = p.total;
  previous = plain_button (codes "Previous") (p.offset == 0);
  next = plain_button (codes "Next") (leb p.total (p.offset + page_size));
}

pub record RequestRow : Type 0 where
  pub agent : Text
  pub endpoint : Text
  pub age : Age
  pub status : RequestStatus
  pub plain : Bool
  pub latency : Number

-- `request.agent_name ?? 'Unknown agent'`
abbrev pub or_unknown_agent : Option Text → Text
or_unknown_agent none = codes "Unknown agent"
or_unknown_agent (some name) = name

abbrev pub is_success : RequestStatus → Bool
is_success success = true
is_success _ = false

-- the dialog of an organization
pub record OrganizationDialog : Type 0 where
  pub title : Text
  pub users : ℕ
  pub active_agents : ℕ
  pub active_policies : ℕ
  pub risk : Number
  pub risk_color : HealthColor
  pub requests : Body RequestRow

module _ (since : Text → Elapsed) where
  unfoldable pub request_row : AdminApiRequestItem → RequestRow
  unfolding to_relative_time
  request_row request = record {
    agent = or_unknown_agent request.agent_name;
    endpoint = request.endpoint;
    age = to_relative_time (since request.timestamp);
    status = request.status;
    plain = is_success request.status;
    latency = request.latency_ms;
  }

  abbrev pub dialog_of :
      List AdminApiRequestItem → Option AdminOrganizationItem → Option OrganizationDialog
  dialog_of requests none = none
  dialog_of requests (some org) = some (record {
    title = org.name;
    users = org.users_count;
    active_agents = org.active_agents_count;
    active_policies = org.policies_enabled_count;
    risk = org.avg_risk_24h;
    risk_color = get_risk_color (whole_part org.avg_risk_24h);
    requests =
        filled_body (codes "No recent request telemetry for this organization.") request_row
          requests;
  })

  unfoldable pub organization_dialog : Organizations → Option OrganizationDialog
  unfolding get_risk_color request_row
  organization_dialog p = dialog_of p.org_requests p.selected_org
