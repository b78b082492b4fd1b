-- ===== src/Admin/Organizations.antt =====
-- frontend/admin_panel/src/app/pages/Organizations.tsx
pub mod Laws
pub mod Screen
use trusyn_ai.Prelude.{
  ℕ, ◌+◌, ◌-◌, ◌*◌, ◌/◌, Text, codes, Bool, true, false, Option, none, some, List, [], ◌∷◌, max,
  if◌then◌else◌, ◌==◌, leb,
}
use trusyn_ai.Runtime.Value.{Value}
use trusyn_ai.Types.Common.{PaginatedResult}
use trusyn_ai.Types.Account.{OrganizationStatus, active, trial}
use trusyn_ai.Types.Reports.{AdminOrganizationItem, AdminApiRequestItem}
use trusyn_ai.Admin.Common.{Answer, answered, failed, error_text}

-- `PAGE_SIZE`
abbrev pub page_size : ℕ
page_size = 25

-- `statusFilter` is 'all' or a status
pub record Organizations : Type 0 where
  pub search_term : Text
  pub selected_org : Option AdminOrganizationItem
  pub status_filter : Option OrganizationStatus
  pub loading : Bool
  pub error : Option Value
  pub organizations : List AdminOrganizationItem
  pub total : ℕ
  pub offset : ℕ
  pub org_requests : List AdminApiRequestItem

-- the parameters of `listOrganizations`; what is `undefined` is left out
pub record ListQuery : Type 0 where
  pub limit : ℕ
  pub offset : ℕ
  pub search : Option Text
  pub status : Option OrganizationStatus

-- `searchTerm || undefined`
abbrev pub or_undefined : Text → Option Text
or_undefined [] = none
or_undefined (c ∷ t) = some (c ∷ t)

unfoldable pub load_organizations_start : ℕ → Organizations → Organizations × ListQuery
load_organizations_start next_offset p = (
  record p { loading = true; error = none },
  record {
    limit = page_size;
    offset = next_offset;
    search = or_undefined p.search_term;
    status = p.status_filter;
  },
)

-- `next_offset` is the argument of the call that is answered
unfoldable pub load_organizations_finish :
    ℕ → Answer (PaginatedResult AdminOrganizationItem) → Organizations → Organizations
load_organizations_finish next_offset (answered page) p = record p {
  organizations = page.items;
  total = page.total;
  offset = next_offset;
  loading = false;
}
load_organizations_finish next_offset (failed message) p = record p {
  error = some (error_text (codes "Unable to load organizations") message);
  loading = false;
}

-- The filter by status, with the effect that loads again; the search loads by the key Enter and
-- by the button that applies the filters, both from 0.
unfoldable pub change_status : Option OrganizationStatus → Organizations → Organizations × ListQuery
unfolding load_organizations_start
change_status status p = load_organizations_start 0 (record p { status_filter = status })

abbrev pub change_search : Text → Organizations → Organizations
change_search text p = record p { search_term = text }

-- the offsets that the buttons Previous and Next load, if they are not disabled
unfoldable pub previous_offset : Organizations → Option ℕ
previous_offset p = if p.offset == 0 then none else some (p.offset - page_size)

unfoldable pub next_offset_of : Organizations → Option ℕ
next_offset_of p = if leb p.total (p.offset + page_size) then none else some (p.offset + page_size)

-- `Math.max(1, Math.ceil(total / PAGE_SIZE))` and `Math.floor(offset / PAGE_SIZE) + 1`
unfoldable pub total_pages : Organizations → ℕ
total_pages p = max 1 ((p.total + 24) / 25)

unfoldable pub current_page : Organizations → ℕ
current_page p = p.offset / 25 + 1

-- The dialog of an organization: it opens, its requests come, and it is closed.
unfoldable pub open_organization_start : AdminOrganizationItem → Organizations → Organizations
open_organization_start org p = record p { selected_org = some org }

unfoldable pub open_organization_finish :
    Answer (PaginatedResult AdminApiRequestItem) → Organizations → Organizations
open_organization_finish (answered page) p = record p { org_requests = page.items }
open_organization_finish (failed message) p = record p { org_requests = [] }

abbrev pub close_organization : Organizations → Organizations
close_organization p = record p { selected_org = none }

pub data HealthColor : Type 0 where
  green yellow orange red : HealthColor

unfoldable pub get_health_color : OrganizationStatus → HealthColor
get_health_color active = green
get_health_color trial = yellow
get_health_color _ = red

-- `getRiskColor`, of a whole score
unfoldable pub get_risk_color : ℕ → HealthColor
get_risk_color score =
    if leb 30 score
    then (if leb 60 score then (if leb 80 score then red else orange) else yellow)
    else green
