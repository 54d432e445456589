-- ===== src/Handlers/Pipeline/Persisting.antt =====
-- createAndQueue: what is persisted and what is published.
use notifyx.Prelude.{
  suc, String, ◌≡◌, Bool, true, ◌&&◌, none, some, [], ◌∷◌, ◌++◌, arith, Error, message, ok, err,
  if◌then◌else◌,
}
use notifyx.Domain.{Status, Notification, NotificationDelivery, topic_for_channel}
use notifyx.Postgres.{Env, World, with_tx, with_tx-tables_of_err}
use notifyx.Postgres.Notifications
use notifyx.Postgres.Notifications.{CreateNotificationParams, new_row, row_violation}
use notifyx.Postgres.Writes.{
  create-published, create_of_ok, create_delivery-published, create_delivery_of_ok,
}
use notifyx.Handlers.Pipeline.{NotificationService, sent_message, queue_body, create_and_queue}

module _ {R : Type 0} (env : Env) (svc : NotificationService R) where
  -- A failed createAndQueue leaves every table as it was.
  pub create_and_queue_atomic :
      (p : CreateNotificationParams) (publishes : Bool) (w : World R) {e : Error}
      → (create_and_queue env svc p publishes w).0 ≡ err e
      → (create_and_queue env svc p publishes w).1.tables ≡ w.tables
  unfolding create_and_queue
  create_and_queue_atomic p publishes w h =
      with_tx-tables_of_err env (queue_body env svc p publishes) w h

  -- The body, where it succeeds.
  pub record Queued (p : CreateNotificationParams) (publishes : Bool) (s : Status) (w w' : World R)
      (n : Notification) (d : NotificationDelivery) : Type 0 where
    pub tables : w'.tables ≡ record w.tables {
      notifications = w.tables.notifications ++ n ∷ [];
      deliveries = w.tables.deliveries ++ d ∷ [];
    }
    pub published : w'.published ≡ (
        if publishes && svc.producer
        then (topic_for_channel p.channel, sent_message p n d) ∷ w.published
        else w.published)
    pub row : n ≡ new_row p n.created_at
    pub delivery :
        (d.notification_id ≡ n.id) × (d.status ≡ s) × (d.attempts ≡ 0) × (d.channel ≡ p.channel)

  queue_body-Queued :
      (p : CreateNotificationParams) (publishes : Bool) (s : Status) (w : World R)
      {n : Notification} {d : NotificationDelivery}
      → p.status ≡ some s
      → (queue_body env svc p publishes w).0 ≡ ok (n, d)
      → Queued p publishes s w (queue_body env svc p publishes w).1 n d
  unfolding queue_body new_row
  queue_body-Queued p publishes s w {n} {d} e h =
      let created = Notifications.create env p w in
      ground (
        arith,
        create_of_ok env w p {n = n},
        create-published env w p,
        create_delivery_of_ok env created.1 n.id p.channel p.status s {d = d} e,
        create_delivery-published env created.1 n.id p.channel p.status,
      )

  -- A successful createAndQueue adds one notification and its one delivery, and publishes exactly
  -- when asked to and Kafka is configured.
  pub create_and_queue-Queued :
      (p : CreateNotificationParams) (publishes : Bool) (s : Status) (w : World R)
      {n : Notification} {d : NotificationDelivery}
      → p.status ≡ some s
      → (create_and_queue env svc p publishes w).0 ≡ ok (n, d)
      → Queued p publishes s w (create_and_queue env svc p publishes w).1 n d
  unfolding create_and_queue with_tx
  create_and_queue-Queued p publishes s w {n} {d} e h =
      ground (
        arith,
        queue_body-Queued p publishes s (record w { calls = suc w.calls }) {n = n} {d = d} e,
      )

  -- The publish is not taken back: where only the commit fails, createAndQueue fails and no row
  -- is left, and the message is in Kafka nevertheless.
  pub create_and_queue-commit_fails :
      (p : CreateNotificationParams) (s : Status) (w : World R) (text : String) {n : Notification}
      {d : NotificationDelivery}
      → p.status ≡ some s
      → svc.producer ≡ true
      → env.fault w.calls ≡ none
      → (queue_body env svc p true (record w { calls = suc w.calls })).0 ≡ ok (n, d)
      → env.fault (queue_body env svc p true (record w { calls = suc w.calls })).1.calls ≡ some text
      → ((create_and_queue env svc p true w).0 ≡ err (message text))
        × ((create_and_queue env svc p true w).1.tables ≡ w.tables)
        × ((create_and_queue env svc p true w).1.published
            ≡ (topic_for_channel p.channel, sent_message p n d) ∷ w.published)
  unfolding create_and_queue with_tx
  create_and_queue-commit_fails p s w text {n} {d} e k b h c =
      ground
        (arith, queue_body-Queued p true s (record w { calls = suc w.calls }) {n = n} {d = d} e h)
