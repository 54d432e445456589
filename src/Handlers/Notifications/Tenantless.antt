-- ===== src/Handlers/Notifications/Tenantless.antt =====
-- The handlers on a route without the auth middleware, where RequireTenant gives no tenant.
use notifyx.Prelude.{String, ◌≡◌, refl, Option, none, some, arith, find}
use notifyx.Domain.{Uuid, Time, Notification}
use notifyx.Postgres.{Env, World}
use notifyx.Postgres.Notifications
use notifyx.Postgres.Notifications.{has_id}
use notifyx.Handlers.Response.{panics, missing_tenant, err_response, status_internal_server_error}
use notifyx.Handlers.Requests.{
  SendNotificationRequest, BatchSendRequest, validate_send, validate_batch,
}
use notifyx.Handlers.Pipeline.{NotificationService}
use notifyx.Handlers.Notifications.{require_tenant, tenant_id, send, batch, get}

module _ {R : Type 0} (env : Env) (svc : NotificationService R) (parse_uuid : String → Option Uuid)
    (parse_time : String → Option Time) where
  -- Without a tenant in the context, RequireTenant writes the response with status 500 and returns
  -- neither a tenant nor an error, so Send and Batch go on and panic on every request that is valid,
  -- and Get panics on every id that has a notification, where the query for it does not fail.
  pub panics_without_tenant :
      (r : SendNotificationRequest) (q : BatchSendRequest) (param : String) (i : Uuid)
      (n : Notification) (w : World R)
      → validate_send r ≡ none
      → validate_batch q ≡ none
      → parse_uuid param ≡ some i
      → env.fault w.calls ≡ none
      → find (has_id i) w.tables.notifications ≡ some n
      → ((require_tenant none).tenant ≡ none)
        × ((require_tenant none).error ≡ none)
        × ((require_tenant none).written
            ≡ some (err_response status_internal_server_error missing_tenant))
        × ((send env svc parse_uuid parse_time none (some r) w).0 ≡ panics)
        × ((batch env svc parse_uuid parse_time none (some q) w).0 ≡ panics)
        × ((get env svc parse_uuid parse_time none param w).0 ≡ panics)
  unfolding send batch get tenant_id Notifications.get_by_id
  panics_without_tenant r q param i n w v u p f h =
      let s : (send env svc parse_uuid parse_time none (some r) w).0 ≡ panics = ground arith in
      let b : (batch env svc parse_uuid parse_time none (some q) w).0 ≡ panics = ground arith in
      let g : (get env svc parse_uuid parse_time none param w).0 ≡ panics = ground arith in
      (refl, refl, refl, s, b, g)
