-- ===== src/Admin/AuditLogs.antt =====
-- frontend/admin_panel/src/app/pages/AuditLogs.tsx
pub mod Laws
pub mod Screen
use trusyn_ai.Prelude.{
  ℕ, ◌+◌, ◌-◌, ◌*◌, Text, codes, Bool, true, false, Option, none, some, List, [], ◌∷◌, min,
  if◌then◌else◌, ◌==◌, leb, length,
}
use trusyn_ai.Runtime.Value.{Value}
use trusyn_ai.Types.Common.{PaginatedResult, Severity}
use trusyn_ai.Types.Governance.{AuditLogDto}
use trusyn_ai.Admin.Common.{Answer, answered, failed, error_text, includes, count_if}
use trusyn_ai.Admin.Organizations.{or_undefined}

-- `PAGE_SIZE`
abbrev pub log_page_size : ℕ
log_page_size = 30

-- '24h', '7d', '30d' and 'all'
pub data TimeRange : Type 0 where
  day week month all : TimeRange

-- `toIsoFromRange`: how many milliseconds before now the logs begin, if they are limited
unfoldable pub to_iso_from_range : TimeRange → Option ℕ
to_iso_from_range all = none
to_iso_from_range day = some (24 * 60 * 60 * 1000)
to_iso_from_range week = some (24 * 7 * 60 * 60 * 1000)
to_iso_from_range month = some (24 * 30 * 60 * 60 * 1000)

-- `severityFilter` is 'all' or a severity
pub record AuditLogs : Type 0 where
  pub search_term : Text
  pub severity_filter : Option Severity
  pub time_range_filter : TimeRange
  pub loading : Bool
  pub error : Option Value
  pub logs : List AuditLogDto
  pub total : ℕ
  pub offset : ℕ
  pub selected_log : Option AuditLogDto
  pub exporting : Bool

-- the parameters of the list, beside the order; `start_before` is the age of the first log
pub record LogQuery : Type 0 where
  pub limit : ℕ
  pub offset : ℕ
  pub severity : Option Severity
  pub search : Option Text
  pub start_before : Option ℕ

unfoldable pub load_logs_start : ℕ → AuditLogs → AuditLogs × LogQuery
unfolding to_iso_from_range
load_logs_start next_offset p = (
  record p { loading = true; error = none },
  record {
    limit = log_page_size;
    offset = next_offset;
    severity = p.severity_filter;
    search = or_undefined p.search_term;
    start_before = to_iso_from_range p.time_range_filter;
  },
)

-- `next_offset` is the argument of the call that is answered
unfoldable pub load_logs_finish : ℕ → Answer (PaginatedResult AuditLogDto) → AuditLogs → AuditLogs
load_logs_finish next_offset (answered page) p = record p {
  logs = page.items;
  total = page.total;
  offset = next_offset;
  loading = false;
}
load_logs_finish next_offset (failed message) p = record p {
  error = some (error_text (codes "Unable to load audit logs") message);
  loading = false;
}

-- the two filters that an effect follows, and the button of the time range
unfoldable pub change_severity_filter : Option Severity → AuditLogs → AuditLogs × LogQuery
unfolding load_logs_start
change_severity_filter severity p = load_logs_start 0 (record p { severity_filter = severity })

unfoldable pub next_range : TimeRange → TimeRange
next_range day = week
next_range week = month
next_range month = all
next_range all = day

unfoldable pub cycle_time_range : AuditLogs → AuditLogs × LogQuery
unfolding load_logs_start next_range
cycle_time_range p =
    load_logs_start 0 (record p { time_range_filter = next_range p.time_range_filter })

abbrev pub change_log_search : Text → AuditLogs → AuditLogs
change_log_search text p = record p { search_term = text }

abbrev pub select_log : Option AuditLogDto → AuditLogs → AuditLogs
select_log log p = record p { selected_log = log }

-- the offsets that the buttons Previous and Next load, if they are not disabled
unfoldable pub previous_logs : AuditLogs → Option ℕ
previous_logs p = if p.offset == 0 then none else some (p.offset - log_page_size)

unfoldable pub next_logs : AuditLogs → Option ℕ
next_logs p =
    if leb p.total (p.offset + log_page_size) then none else some (p.offset + log_page_size)

-- "Showing first-last of total logs"
unfoldable pub shown_logs : AuditLogs → ℕ × ℕ
shown_logs p = (p.offset + 1, min (p.offset + length p.logs) p.total)

module _ (to_lower_case : Text → Text) where
  -- `blockedCount` and `reviewCount`
  unfoldable pub event_count : Text → AuditLogs → ℕ
  event_count word p =
      count_if (λ (log : AuditLogDto). includes word (to_lower_case log.event_type)) p.logs

-- the export, without the download that the browser makes
unfoldable pub handle_export_csv_start : AuditLogs → AuditLogs
handle_export_csv_start p = record p { exporting = true; error = none }

unfoldable pub handle_export_csv_finish : Answer Unit → AuditLogs → AuditLogs
handle_export_csv_finish (answered blob) p = record p { exporting = false }
handle_export_csv_finish (failed message) p = record p {
  error = some (error_text (codes "Audit log export failed") message);
  exporting = false;
}
