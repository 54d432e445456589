-- ===== src/Postgres/Deliveries.antt =====
-- backend/internal/repository/postgres/notification_delivery_repo.go.
use notifyx.Prelude.{
  ◌+◌, String, Bool, Option, none, some, List, [], ◌∷◌, ◌++◌, ◌==◌, if◌then◌else◌, any, select,
  update_where, order_by, not_found, pg_error, ok, err,
}
use notifyx.Domain.{Uuid, Time, Channel, Status, queued, delivered, NotificationDelivery, status_eq}
use notifyx.Postgres.{Env, Io, call, gets, wrapping, ◌>>=◌, ◌>>◌}

or_queued : Option Status → Status
or_queued none = queued
or_queued (some s) = s

unfoldable pub has_id : Uuid → NotificationDelivery → Bool
has_id i d = d.id == i

new_row : Uuid → Uuid → Channel → Option Status → Time → NotificationDelivery
unfolding or_queued
new_row i notification_id channel status now = record {
  id = i;
  notification_id = notification_id;
  channel = channel;
  status = or_queued status;
  attempts = 0;
  error_message = "";
  delivered_at = none;
  created_at = now;
}

unfoldable pub insert_row : {R : Type 0} → Env → NotificationDelivery → Io R NotificationDelivery
insert_row env d w =
    let t = w.tables in
    if any (λ n. n.id == d.notification_id) t.notifications
    then (ok d, record w { tables = record t { deliveries = t.deliveries ++ d ∷ [] } })
    else (err (pg_error "23503" (env.violation "23503")), w)

-- The outcome of one attempt: the SET list of UpdateStatus.
unfoldable pub record_attempt : Status → String → Time → NotificationDelivery → NotificationDelivery
record_attempt s text now d = record d {
  status = s;
  error_message = text;
  attempts = d.attempts + 1;
  delivered_at = if status_eq s delivered then some now else d.delivered_at;
}

-- UPDATE … WHERE id = i, and ErrNotFound if no row is affected.
unfoldable pub update_row :
    {R : Type 0} → Uuid → (NotificationDelivery → NotificationDelivery) → Io R (Unit {0})
unfolding has_id
update_row i f w =
    let t = w.tables in
    if any (has_id i) t.deliveries
    then (
      ok tt,
      record w { tables = record t { deliveries = update_where (has_id i) f t.deliveries } },
    )
    else (err not_found, w)

module _ {R : Type 0} (env : Env) where
  unfoldable pub create : Uuid → Channel → Option Status → Io R NotificationDelivery
  unfolding call new_row insert_row
  create notification_id channel status = wrapping "create notification delivery" do
    n ← gets (λ w. w.calls)
    call env
    insert_row env (new_row (env.fresh n) notification_id channel status (env.clock n))

  unfoldable pub set_status : Uuid → Status → Io R (Unit {0})
  unfolding call update_row
  set_status i s = do
    wrapping "set delivery status" (call env)
    update_row i (λ d. record d { status = s })

  unfoldable pub update_status : Uuid → Status → String → Io R (Unit {0})
  unfolding call update_row record_attempt
  update_status i s text = do
    now ← gets (λ w. env.clock w.calls)
    wrapping "update delivery status" (call env)
    update_row i (record_attempt s text now)

  unfoldable pub get_by_notification_id : Uuid → Io R (List NotificationDelivery)
  unfolding call
  get_by_notification_id i = do
    wrapping "get deliveries by notification id" (call env)
    gets
        λ w. order_by (λ d. d.created_at) (select (λ d. d.notification_id == i) w.tables.deliveries)
