-- ===== src/Pages/AuditLogs.antt =====
-- frontend/web-app/src/app/pages/AuditLogsPage.tsx
pub mod Screen
use trusyn_ai.Prelude.{
  ℕ, Text, codes, Bool, true, false, Option, none, some, List, [], ◌∷◌, trim, arith,
}
use trusyn_ai.Runtime.Monad.{Result, ok, throw}
use trusyn_ai.Types.Common.{Severity, PaginatedResult}
use trusyn_ai.Types.Governance.{AuditLogDto}
use trusyn_ai.Pages.Listing.{Listing, find_id, load_start, load_finish, prev_page, next_page}
use trusyn_ai.Pages.Listing.Laws.{IsAligned, paging-IsAligned}
use trusyn_ai.Pages.Policies.{text_or_undefined}

-- `severity` is 'ALL' or a severity
pub record AuditLogsPage : Type 0 where
  pub list : Listing AuditLogDto
  pub severity : Option Severity
  pub search : Text

abbrev pub first_audit_page : AuditLogsPage
first_audit_page = record {
  list = record {
    items = [];
    total = 0;
    limit = 25;
    offset = 0;
    selected_id = none;
    loading = true;
    refreshing = false;
    error = none;
  };
  severity = none;
  search = [];
}

-- the parameters of a load, beside the order
pub record AuditQuery : Type 0 where
  pub limit : ℕ
  pub offset : ℕ
  pub severity : Option Severity
  pub search : Option Text

unfoldable pub log_id : AuditLogDto → Text
log_id log = log.id

unfoldable pub load_audit_start : Bool → AuditLogsPage → AuditLogsPage × AuditQuery
load_audit_start refresh p = (
  record p { list = load_start refresh p.list },
  record {
    limit = p.list.limit;
    offset = p.list.offset;
    severity = p.severity;
    search = text_or_undefined (trim p.search);
  },
)

-- `closure` is the page that the load was made with
unfoldable pub load_audit_finish :
    AuditLogsPage → Result (PaginatedResult AuditLogDto) → AuditLogsPage → AuditLogsPage
unfolding log_id
load_audit_finish closure result p = record p {
  list =
      load_finish log_id closure.list.selected_id result (codes "Unable to load audit logs.")
        p.list;
}

unfoldable pub chosen_log : AuditLogsPage → Option AuditLogDto
unfolding log_id
chosen_log p = find_id log_id p.list.selected_id p.list.items

-- the search, the severity and the size of a page, which go back to the first page
unfoldable pub type_log_search : Text → AuditLogsPage → AuditLogsPage
type_log_search text p = record p { list = record (p.list) { offset = 0 }; search = text }

unfoldable pub pick_log_severity : Option Severity → AuditLogsPage → AuditLogsPage
pick_log_severity severity p = record p {
  list = record (p.list) { offset = 0 };
  severity = severity;
}

unfoldable pub pick_log_limit : ℕ → AuditLogsPage → AuditLogsPage
pick_log_limit limit p = record p { list = record (p.list) { offset = 0; limit = limit } }

abbrev pub choose_log : Text → AuditLogsPage → AuditLogsPage
choose_log id p = record p { list = record (p.list) { selected_id = some id } }

-- What happens to the page, in whatever order.
pub data AuditEvent : Type 0 where
  load_began : Bool → AuditEvent
  load_ended : AuditLogsPage → Result (PaginatedResult AuditLogDto) → AuditEvent
  search_typed : Text → AuditEvent
  severity_picked : Option Severity → AuditEvent
  limit_picked : ℕ → AuditEvent
  log_chosen : Text → AuditEvent
  prev_pressed next_pressed : AuditEvent

unfoldable pub audit_event : AuditEvent → AuditLogsPage → AuditLogsPage
unfolding load_audit_start load_audit_finish type_log_search pick_log_severity pick_log_limit
    prev_page next_page
audit_event (load_began refresh) p = (load_audit_start refresh p).0
audit_event (load_ended closure result) p = load_audit_finish closure result p
audit_event (search_typed text) p = type_log_search text p
audit_event (severity_picked severity) p = pick_log_severity severity p
audit_event (limit_picked limit) p = pick_log_limit limit p
audit_event (log_chosen id) p = choose_log id p
audit_event prev_pressed p = record p { list = prev_page p.list }
audit_event next_pressed p = record p { list = next_page p.list }

unfoldable pub audit_events : List AuditEvent → AuditLogsPage → AuditLogsPage
unfolding audit_event
audit_events [] p = p
audit_events (event ∷ events) p = audit_events events (audit_event event p)

audit_event-IsAligned :
    (event : AuditEvent) (p : AuditLogsPage)
    → IsAligned p.list
    → IsAligned (audit_event event p).list
unfolding audit_event load_audit_start load_audit_finish type_log_search pick_log_severity
    pick_log_limit load_start load_finish
audit_event-IsAligned (load_began refresh) p (k, e) = (k, ground (arith, e))
audit_event-IsAligned (load_ended closure (ok result)) p (k, e) = (k, e)
audit_event-IsAligned (load_ended closure (throw x)) p (k, e) = (k, e)
audit_event-IsAligned (search_typed text) p h = (0, omega arith)
audit_event-IsAligned (severity_picked severity) p h = (0, omega arith)
audit_event-IsAligned (limit_picked limit) p h = (0, omega arith)
audit_event-IsAligned (log_chosen id) p h = h
audit_event-IsAligned prev_pressed p h = (paging-IsAligned p.list h).1
audit_event-IsAligned next_pressed p h = (paging-IsAligned p.list h).0

-- From the beginning of a page, whatever the user picks and types, whatever the backend answers, in
-- any order: the audit log is at the beginning of a page, with the page size that is picked then.
pub audit_events-IsAligned :
    (events : List AuditEvent) (p : AuditLogsPage)
    → IsAligned p.list
    → IsAligned (audit_events events p).list
unfolding audit_events
audit_events-IsAligned [] p h = h
audit_events-IsAligned (event ∷ events) p h =
    audit_events-IsAligned events (audit_event event p) (audit_event-IsAligned event p h)
