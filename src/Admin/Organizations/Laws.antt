-- ===== src/Admin/Organizations/Laws.antt =====
-- The paging of the organizations, and the dialog of one of them.
use trusyn_ai.Prelude.{ℕ, ◌+◌, ◌*◌, ◌≤◌, ◌<◌, ◌≡◌, refl, some, arith}
use trusyn_ai.Types.Common.{PaginatedResult}
use trusyn_ai.Types.Reports.{AdminOrganizationItem, AdminApiRequestItem}
use trusyn_ai.Admin.Common.{answered}
use trusyn_ai.Admin.Organizations.{
  Organizations, load_organizations_finish, next_offset_of, total_pages, current_page,
  open_organization_start, open_organization_finish,
}

-- The pages: there is at least one, they have room for all the organizations, and no page less
-- would have, where there is an organization.
pub total_pages-fit :
    (p : Organizations)
    → (1 ≤ total_pages p)
      × (p.total ≤ total_pages p * 25)
      × (0 < p.total → total_pages p * 25 < p.total + 25)
unfolding total_pages
total_pages-fit p = (omega arith, omega arith, λ h. omega arith)

-- The button Next, where it is not disabled and the total has not changed when the answer comes,
-- leads from a page to the following one, and never past the last one.
pub next_offset_of-page :
    (p : Organizations) (next : ℕ) (page : PaginatedResult AdminOrganizationItem)
    → next_offset_of p ≡ some next
    → page.total ≡ p.total
    → let p' = load_organizations_finish next (answered page) p in
      (current_page p' ≡ current_page p + 1) × (current_page p' ≤ total_pages p')
unfolding next_offset_of load_organizations_finish current_page total_pages
next_offset_of-page p next page e same = ground (arith, e, same)

-- Requests that come late are shown for the wrong organization: where a second dialog is opened
-- before the requests of the first one are there, and these come last, the dialog of the second
-- organization shows the requests of the first one.
pub open_organization-race :
    (a b : AdminOrganizationItem) (for_a for_b : PaginatedResult AdminApiRequestItem)
    (p : Organizations)
    → let opened = open_organization_start b (open_organization_start a p) in
      let p' =
        open_organization_finish
          (answered for_a)
          (open_organization_finish (answered for_b) opened) in
      (p'.selected_org ≡ some b) × (p'.org_requests ≡ for_a.items)
unfolding open_organization_start open_organization_finish
open_organization-race a b for_a for_b p = (refl, refl)
