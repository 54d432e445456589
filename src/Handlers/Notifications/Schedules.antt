-- ===== src/Handlers/Notifications/Schedules.antt =====
-- The two writes of Schedule in backend/internal/api/handlers/notification.go.
use notifyx.Prelude.{suc, String, ◌≡◌, refl, false, Option, some, [], ◌∷◌, ◌++◌, arith, ok, Result}
use notifyx.Domain.{Uuid, Time, Notification, NotificationDelivery, ScheduledNotification, pending}
use notifyx.Postgres.{Env, World}
use notifyx.Postgres.Notifications.{CreateNotificationParams, new_row}
use notifyx.Postgres.Scheduled
use notifyx.Handlers.Response.{
  responds, err_response, schedule_failed, status_created, status_internal_server_error, Response,
}
use notifyx.Handlers.Requests.{SendNotificationRequest}
use notifyx.Handlers.Pipeline.{NotificationService, create_and_queue}
use notifyx.Handlers.Pipeline.Persisting.{create_and_queue-Queued}
use notifyx.Handlers.Notifications.{answer_schedule, new_uuid, send_params}

module _ {R : Type 0} (env : Env) (svc : NotificationService R) (parse_uuid : String → Option Uuid)
    (parse_time : String → Option Time) where
  -- The params that Schedule persists, with a new id.
  abbrev pub schedule_params :
      Uuid
      → SendNotificationRequest
      → Time
      → (Option Uuid × String × String)
      → World R
      → CreateNotificationParams
  schedule_params owner r at x w =
      record (send_params env svc parse_uuid parse_time (env.fresh w.calls) owner r x) {
        status = some pending;
        idempotency_key = r.idempotency_key;
        scheduled_at = some at;
      }

  -- createAndQueue as Schedule calls it.
  abbrev pub persisted :
      Uuid
      → SendNotificationRequest
      → Time
      → (Option Uuid × String × String)
      → World R
      → Result (Notification × NotificationDelivery) × World R
  persisted owner r at x w =
      create_and_queue env svc (schedule_params owner r at x w) false
        (record w { calls = suc w.calls })

  -- The end of Schedule with status 201 has published nothing and has added exactly a pending
  -- notification, its delivery row, and a schedule row for it that is not fired and is due at `at`.
  pub answer_schedule_created :
      (owner : Uuid) (r : SendNotificationRequest) (at : Time) (x : Option Uuid × String × String)
      (w : World R) {n : Notification} {d : NotificationDelivery} {res : Response}
      → (persisted owner r at x w).0 ≡ ok (n, d)
      → (answer_schedule env svc parse_uuid parse_time owner r at x w).0 ≡ responds res
      → res.status ≡ status_created
      → (s : ScheduledNotification) × ((answer_schedule env svc parse_uuid parse_time owner r at x
            w).1.tables
          ≡ record w.tables {
            notifications = w.tables.notifications ++ n ∷ [];
            deliveries = w.tables.deliveries ++ d ∷ [];
            scheduled = w.tables.scheduled ++ s ∷ [];
          })
        × (s.notification_id ≡ n.id)
        × (s.scheduled_at ≡ at)
        × (s.fired ≡ false)
        × (n.tenant_id ≡ owner)
        × (n.status ≡ pending)
        × ((answer_schedule env svc parse_uuid parse_time owner r at x w).1.published ≡ w.published)
  unfolding answer_schedule new_uuid Scheduled.create new_row
  answer_schedule_created owner r at x w {n} {d} {res} p h c =
      let after = (persisted owner r at x w).1 in
      let q =
        create_and_queue-Queued env svc (schedule_params owner r at x w) false pending
          (record w { calls = suc w.calls }) {n = n} {d = d} refl p in
      (
        record {
          id = env.fresh after.calls;
          notification_id = n.id;
          scheduled_at = at;
          fired = false;
          created_at = env.clock after.calls;
        },
        ground (arith, q.tables),
        refl,
        refl,
        refl,
        unfold send_params in ground (arith, q.row),
        ground (arith, q.row),
        ground (arith, q.published),
      )

  -- Where only the insert of the schedule row fails, Schedule answers 500, and a pending
  -- notification is left that has no schedule row and was not published.
  pub answer_schedule_half :
      (owner : Uuid) (r : SendNotificationRequest) (at : Time) (x : Option Uuid × String × String)
      (text : String) (w : World R) {n : Notification} {d : NotificationDelivery}
      → (persisted owner r at x w).0 ≡ ok (n, d)
      → env.fault (persisted owner r at x w).1.calls ≡ some text
      → ((answer_schedule env svc parse_uuid parse_time owner r at x w).0
          ≡ responds (err_response status_internal_server_error schedule_failed))
        × ((answer_schedule env svc parse_uuid parse_time owner r at x w).1.tables
            ≡ record w.tables {
              notifications = w.tables.notifications ++ n ∷ [];
              deliveries = w.tables.deliveries ++ d ∷ [];
            })
        × (n.status ≡ pending)
        × ((answer_schedule env svc parse_uuid parse_time owner r at x w).1.published ≡ w.published)
  unfolding answer_schedule new_uuid Scheduled.create new_row
  answer_schedule_half owner r at x text w {n} {d} p f =
      let q =
        create_and_queue-Queued env svc (schedule_params owner r at x w) false pending
          (record w { calls = suc w.calls }) {n = n} {d = d} refl p in
      (ground arith, ground (arith, q.tables), ground (arith, q.row), ground (arith, q.published))
