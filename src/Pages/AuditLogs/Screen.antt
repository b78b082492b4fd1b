-- ===== src/Pages/AuditLogs/Screen.antt =====
-- frontend/web-app/src/app/pages/AuditLogsPage.tsx, its markup. The texts that the browser makes of
-- dates are a parameter, as is JSON.stringify.
use trusyn_ai.Prelude.{ℕ, Text, codes, Bool, Option, none, some}
use trusyn_ai.Runtime.Value.{Value, Fields}
use trusyn_ai.Types.Common.{Severity}
use trusyn_ai.Types.Governance.{AuditLogDto}
use trusyn_ai.Pages.Listing.{is_id}
use trusyn_ai.Pages.Screen.{
  severity_color, shown_value, or_na, Body, list_body, Pager, pager, Refresh, refresh_control,
}
use trusyn_ai.Pages.AuditLogs.{AuditLogsPage, chosen_log}

-- the top of the page with the three filters
pub record AuditHead : Type 0 where
  pub refresh : Refresh
  pub error : Option Value
  pub search : Text
  pub severity : Option Severity
  pub limit : ℕ

unfoldable pub audit_head : AuditLogsPage → AuditHead
audit_head p = record {
  refresh = refresh_control p.list.refreshing;
  error = shown_value p.list.error;
  search = p.search;
  severity = p.severity;
  limit = p.list.limit;
}

pub record LogRow : Type 0 where
  pub id : Text
  pub highlighted : Bool
  pub severity : Severity
  pub color : Text
  pub event_type : Text
  pub message : Text
  pub time : Text

pub record LogTable : Type 0 where
  pub paging : Pager
  pub body : Body LogRow

pub record LogDetail : Type 0 where
  pub id : Text
  pub user_id : Text
  pub message : Text
  pub metadata : Text

pub data LogPanel : Type 0 where
  hint : Text → LogPanel
  detail : LogDetail → LogPanel

module _ (local_date : Text → Text) where
  abbrev pub log_row : Option Text → AuditLogDto → LogRow
  log_row selected_id log = record {
    id = log.id;
    highlighted = is_id selected_id log.id;
    severity = log.severity;
    color = severity_color log.severity;
    event_type = log.event_type;
    message = log.message;
    time = local_date log.timestamp;
  }

  unfoldable pub log_table : AuditLogsPage → LogTable
  unfolding list_body pager
  log_table p = record {
    paging = pager p.list;
    body =
        list_body (codes "Loading audit logs...") (codes "No logs found for applied filters.")
          (log_row p.list.selected_id) p.list.loading p.list.items;
  }

module _ (pretty_json : Fields → Text) where
  abbrev pub log_panel_of : Option AuditLogDto → LogPanel
  log_panel_of none = hint (codes "Select a log row to inspect details.")
  log_panel_of (some log) = detail (record {
    id = log.id;
    user_id = or_na log.user_id;
    message = log.message;
    metadata = pretty_json log.metadata;
  })

  unfoldable pub log_panel : AuditLogsPage → LogPanel
  unfolding chosen_log
  log_panel p = log_panel_of (chosen_log p)
