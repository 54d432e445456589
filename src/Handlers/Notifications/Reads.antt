-- ===== src/Handlers/Notifications/Reads.antt =====
-- What Get shows of the tenants' notifications.
use notifyx.Prelude.{
  String, ◌≡◌, ◌≢◌, Option, none, some, List, arith, find, find_test, All, suc, ok,
  is_not_found-not_found, subst, Option-cases, inl, inr, ==_iff,
}
use notifyx.Domain.{Uuid, Time, Tenant, Notification, NotificationDelivery}
use notifyx.Postgres.{Env, World}
use notifyx.Postgres.Notifications
use notifyx.Postgres.Notifications.{has_id}
use notifyx.Postgres.Deliveries
use notifyx.Postgres.Writes.{get_by_notification_id-All}
use notifyx.Handlers.Response.{
  detail_body, responds, err_response, status_ok, status_not_found, notification_not_found,
}
use notifyx.Handlers.Pipeline.{NotificationService}
use notifyx.Handlers.Notifications.{get, tenant_id}

module _ {R : Type 0} (env : Env) (svc : NotificationService R) (parse_uuid : String → Option Uuid)
    (parse_time : String → Option Time) where
  -- Get answers 404 to a tenant for an id of which the tenant has no notification, whether another
  -- tenant has it or nobody, where the query for it does not fail.
  pub get_isolated :
      (t : Tenant) (param : String) (i : Uuid) (w : World R)
      → parse_uuid param ≡ some i
      → env.fault w.calls ≡ none
      → ((n : Notification) → find (has_id i) w.tables.notifications ≡ some n → n.tenant_id ≢ t.id)
      → (get env svc parse_uuid parse_time (some t) param w).0
        ≡ responds (err_response status_not_found notification_not_found)
  unfolding get tenant_id Notifications.get_by_id
  get_isolated t param i w p f h = elim (Option-cases (find (has_id i) w.tables.notifications)) [
    | inl e ↦ ground (arith, is_not_found-not_found)
    | inr (n, e) ↦ ground (arith, h n e)
  ]

  -- What Get shows with status 200: a notification of the tenant with the id that was asked for,
  -- and rows of its deliveries only.
  pub get_shows :
      (t : Tenant) (param : String) (w : World R) {n : Notification}
      {rows : List NotificationDelivery}
      → (get env svc parse_uuid parse_time (some t) param w).0
        ≡ responds (record { status = status_ok; body = detail_body n rows })
      → (n.tenant_id ≡ t.id)
        × (parse_uuid param ≡ some n.id)
        × (find (has_id n.id) w.tables.notifications ≡ some n)
        × All (λ d. d.notification_id ≡ n.id) rows
  unfolding get tenant_id Notifications.get_by_id has_id
  get_shows t param w {n} {rows} h = elim (Option-cases (parse_uuid param)) [
    | inl e ↦ absurd (ground arith)
    | inr (i, e) ↦ elim (Option-cases (find (has_id i) w.tables.notifications)) [
      | inl f ↦ absurd (ground arith)
      | inr (m, f) ↦
          let p : (m ≡ n)
              × (m.tenant_id ≡ t.id)
              × ((Deliveries.get_by_notification_id env i asked).0 ≡ ok rows) =
            ground arith in
          let same : m.id ≡ i = (==_iff m.id i).0 (find_test (has_id i) w.tables.notifications f) in
          (
            ground arith,
            ground arith,
            ground arith,
            get_by_notification_id-All env asked n.id (
                subst (λ k. (Deliveries.get_by_notification_id env k asked).0 ≡ ok rows)
                  (ground arith) (p.2)),
          )
    ]
  ]
    where
      asked : World R
      asked = record w { calls = suc w.calls }
