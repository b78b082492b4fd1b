-- ===== src/Admin/AuditLogs/Laws.antt =====
-- The paging of the logs, their time ranges, and loads that overtake each other.
use trusyn_ai.Prelude.{ℕ, ◌≤◌, ◌<◌, ◌≡◌, refl, some, arith, length}
use trusyn_ai.Types.Common.{PaginatedResult}
use trusyn_ai.Types.Governance.{AuditLogDto}
use trusyn_ai.Admin.Common.{answered}
use trusyn_ai.Admin.AuditLogs.{
  AuditLogs, TimeRange, day, week, month, all, to_iso_from_range, next_range, log_page_size,
  load_logs_start, load_logs_finish, cycle_time_range, next_logs, shown_logs,
}

next_range-four : (r : TimeRange) → next_range (next_range (next_range (next_range r))) ≡ r
unfolding next_range
next_range-four day = refl
next_range-four week = refl
next_range-four month = refl
next_range-four all = refl

-- The button of the time range goes through all four ranges and comes back after four presses,
-- and each press asks for the first page of its own range.
pub cycle_time_range-cycles :
    (p : AuditLogs)
    → let second = cycle_time_range (cycle_time_range p).0 in
      let fourth = cycle_time_range (cycle_time_range second.0).0 in
      (fourth.0.time_range_filter ≡ p.time_range_filter)
      × (second.1.offset ≡ 0)
      × (second.1.start_before ≡ to_iso_from_range (next_range (next_range p.time_range_filter)))
unfolding cycle_time_range load_logs_start next_range to_iso_from_range
cycle_time_range-cycles p = (next_range-four p.time_range_filter, refl, refl)

-- Next shows logs that follow those of the page before, at least one of them within the total,
-- where the backend answers with the logs of the page that is asked for.
pub next_logs-shown :
    (p : AuditLogs) (next : ℕ) (page : PaginatedResult AuditLogDto)
    → next_logs p ≡ some next
    → page.total ≡ p.total
    → 0 < length page.items
    → length page.items ≤ log_page_size
    → length p.logs ≤ log_page_size
    → let p' = load_logs_finish next (answered page) p in
      ((shown_logs p).1 < (shown_logs p').0)
      × ((shown_logs p').0 ≤ (shown_logs p').1)
      × ((shown_logs p').1 ≤ page.total)
unfolding next_logs load_logs_finish shown_logs
next_logs-shown p next page e same some_there few few_before =
    ground (arith, e, same, some_there, few, few_before)
