-- ===== src/Admin/AuditLogs/Screen.antt =====
-- frontend/admin_panel/src/app/pages/AuditLogs.tsx, its markup. The texts that the browser makes of
-- dates are parameters, as is JSON.stringify.
use trusyn_ai.Prelude.{
  ℕ, ◌+◌, ◌-◌, Text, codes, Bool, not, ◌&&◌, Option, none, some, List, if◌then◌else◌, ◌==◌, leb,
  map, length,
}
use trusyn_ai.Runtime.Value.{Value, Fields}
use trusyn_ai.Types.Governance.{AuditLogDto}
use trusyn_ai.Pages.Format.{normalize_severity}
use trusyn_ai.Pages.Screen.{Button, plain_button, shown_value}
use trusyn_ai.Admin.AuditLogs.{
  AuditLogs, TimeRange, day, week, month, all, log_page_size, event_count, shown_logs,
}

unfoldable pub range_label : TimeRange → Text
range_label day = codes "Last 24 Hours"
range_label week = codes "Last 7 Days"
range_label month = codes "Last 30 Days"
range_label all = codes "All Time"

-- the buttons, the messages and the figures above the table
pub record LogsHead : Type 0 where
  pub export : Button
  pub error : Option Value
  pub range : Text
  pub apply : Button
  pub total : ℕ
  pub blocked : ℕ
  pub other : ℕ
  pub pending : ℕ

module _ (to_lower_case : Text → Text) where
  unfoldable pub logs_head : AuditLogs → LogsHead
  unfolding range_label event_count
  logs_head p =
      let blocked = event_count to_lower_case (codes "block") p in
      let pending = event_count to_lower_case (codes "review") p in
      record {
        export =
            plain_button (if p.exporting then codes "Exporting..." else codes "Export Logs")
              p.exporting;
        error = shown_value p.error;
        range = range_label p.time_range_filter;
        apply = plain_button (if p.loading then codes "Loading..." else codes "Apply") p.loading;
        total = p.total;
        blocked = blocked;
        other = length p.logs - blocked - pending;
        pending = pending;
      }

pub record LogLine : Type 0 where
  pub time : Text
  pub day : Text
  pub event_type : Text
  pub message : Text
  pub severity : Text

-- the table: "Showing first-last of total logs"
pub record LogsTable : Type 0 where
  pub lines : List LogLine
  pub none_found : Bool
  pub first : ℕ
  pub last : ℕ
  pub total : ℕ
  pub previous : Button
  pub next : Button

module _ (local_time local_day : Text → Text) where
  abbrev pub log_line : AuditLogDto → LogLine
  log_line log = record {
    time = local_time log.timestamp;
    day = local_day log.timestamp;
    event_type = log.event_type;
    message = log.message;
    severity = normalize_severity log.severity;
  }

  unfoldable pub logs_table : AuditLogs → LogsTable
  unfolding normalize_severity shown_logs
  logs_table p = record {
    lines = map log_line p.logs;
    none_found = length p.logs == 0 && not p.loading;
    first = (shown_logs p).0;
    last = (shown_logs p).1;
    total = p.total;
    previous = plain_button (codes "Previous") (p.offset == 0);
    next = plain_button (codes "Next") (leb p.total (p.offset + log_page_size));
  }

pub record LogDialog : Type 0 where
  pub event_type : Text
  pub time : Text
  pub message : Text
  pub metadata : Text

module _ (local_date : Text → Text) (pretty_json : Fields → Text) where
  abbrev pub dialog_of_log : Option AuditLogDto → Option LogDialog
  dialog_of_log none = none
  dialog_of_log (some log) = some (record {
    event_type = log.event_type;
    time = local_date log.timestamp;
    message = log.message;
    metadata = pretty_json log.metadata;
  })

  unfoldable pub log_dialog : AuditLogs → Option LogDialog
  log_dialog p = dialog_of_log p.selected_log
