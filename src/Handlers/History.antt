-- ===== src/Handlers/History.antt =====
-- History of backend/internal/api/handlers/notification.go, and PaginationParams of common.go. A query that Bind refuses is `none`.
pub mod Paging
pub mod Shown
use notifyx.Prelude.{
  ℕ, String, Bool, true, false, ◌&&◌, ◌||◌, Option, none, some, List, not, if◌then◌else◌, ok, err,
  ℤ, pos, is_positive, is_below, to_nat, minus_one, ◌*ℤ◌,
}
use notifyx.Domain.{Uuid, Time, Tenant}
use notifyx.Postgres.{Env, Io}
use notifyx.Postgres.Pages.{Querying, NotificationFilter, get_by_tenant_id}
use notifyx.Handlers.Response.{
  ErrorText, unknown_channel, unknown_status, invalid_query, from_format, to_format,
  list_notifications_failed, history_body, health_body, CheckResult, check_ok, check_disabled,
  check_configured, check_down, Response, err_response, status_ok, status_bad_request,
  status_service_unavailable, Handler, respond, goes, goes_on, trying, unless, require, failing,
  ◌>>=◌, ◌>>◌,
}
use notifyx.Handlers.Requests.{is_blank, is_valid_channel, is_valid_status}
use notifyx.Handlers.Notifications.{tenant_id}

pub record PaginationParams : Type 0 where
  pub page : ℤ
  pub limit : ℤ

-- Normalize
unfoldable pub normalize : PaginationParams → PaginationParams
normalize p = record {
  page = if is_below p.page 1 then pos 1 else p.page;
  limit = if is_below p.limit 1 || not (is_below p.limit 101) then pos 20 else p.limit;
}

-- Offset, in 64-bit arithmetic.
unfoldable pub offset : PaginationParams → ℤ
offset p = minus_one p.page *ℤ p.limit

pub record HistoryQueryParams : Type 0 where
  pub pagination : PaginationParams
  pub channel : String
  pub status : String
  pub from : String
  pub to : String
  pub recipient : String

-- A time of the query: nil where it is empty.
unfoldable pub optional_time :
    {R : Type 0} → (String → Option Time) → String → ErrorText → Handler R (Option Time)
optional_time parse_time text bad =
    if is_blank text
    then goes none
    else (require (parse_time text) (err_response status_bad_request bad) >>= λ t. goes (some t))

-- What History asks the repository for.
unfoldable pub filter_of :
    HistoryQueryParams → PaginationParams → Option Time → Option Time → NotificationFilter
unfolding offset
filter_of q p from to = record {
  channel = q.channel;
  status = q.status;
  from = from;
  to = to;
  limit = to_nat p.limit;
  offset = offset p;
  recipient = q.recipient;
}

unfoldable pub history :
    {R : Type 0}
    → Env
    → Querying
    → (String → Option Time)
    → Option Tenant
    → Option HistoryQueryParams
    → Handler R Response
unfolding normalize optional_time filter_of
history env sql parse_time tenant query = do
  q ← require query (err_response status_bad_request invalid_query)
  unless (is_blank q.channel || is_valid_channel q.channel)
      (err_response status_bad_request (unknown_channel q.channel))
  unless (is_blank q.status || is_valid_status q.status)
      (err_response status_bad_request (unknown_status q.status))
  from ← optional_time parse_time q.from from_format
  to ← optional_time parse_time q.to to_format
  owner ← tenant_id tenant
  found ←
      trying (get_by_tenant_id env sql owner (filter_of q (normalize q.pagination) from to))
        (failing list_notifications_failed)
  respond (record {
    status = status_ok;
    body =
        history_body (found.0) (found.1) (to_nat (normalize q.pagination).page)
          (to_nat (normalize q.pagination).limit);
  })
