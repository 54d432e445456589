-- ===== src/Scheduler.antt =====
-- backend/internal/scheduler/scheduler.go. The goroutines of one tick work on different rows; they
-- are run one after the other here.
pub mod Firing
use notifyx.Prelude.{
  ℕ, String, ◌≡◌, Bool, true, false, Option, none, some, List, [], ◌∷◌, Error, Result, ok, err,
  if◌then◌else◌,
}
use notifyx.Domain.{
  queued, Notification, NotificationDelivery, ScheduledNotification, topic_for_channel,
}
use notifyx.Postgres.{Env, World, Io, logged, ◌>>=◌, ◌>>◌}
use notifyx.Postgres.Notifications
use notifyx.Postgres.Deliveries
use notifyx.Postgres.Scheduled
use notifyx.Kafka.{publish, message_for}

abbrev pub batch_size : ℕ
batch_size = 100

-- deliveries[0], where the query succeeded and gave a row.
unfoldable pub first_delivery : Result (List NotificationDelivery) → Option NotificationDelivery
first_delivery (err e) = none
first_delivery (ok []) = none
first_delivery (ok (d ∷ ds)) = some d

module _ {R : Type 0} (env : Env) where
  -- The three updates after the publish; an error of one does not stop the others.
  unfoldable pub mark_published :
      ScheduledNotification → Notification → NotificationDelivery → Io R (Unit {0})
  mark_published sn n d = do
    logged (Notifications.update_status env n.id queued)
    logged (Deliveries.set_status env d.id queued)
    logged (Scheduled.mark_fired env sn.id)

  unfoldable pub publish_and_mark :
      ScheduledNotification → Notification → NotificationDelivery → World R → World R
  publish_and_mark sn n d w =
      let (r, w') = publish env (topic_for_channel n.channel) (message_for n d) w in
      elim r [ err e ↦ w' | ok _ ↦ (mark_published sn n d w').1 ]

  -- fireOne; `producer` tells whether Kafka is configured.
  unfoldable pub fire_one : Bool → ScheduledNotification → World R → World R
  unfolding first_delivery
  fire_one producer sn w =
      let (r, w1) = Notifications.get_by_id env sn.notification_id w in
      elim r [
        | err e ↦ w1
        | ok n ↦
            let (rows, w2) = Deliveries.get_by_notification_id env n.id w1 in
            elim (first_delivery rows) [
              | none ↦ w2
              | some d ↦ if producer then publish_and_mark sn n d w2 else w2
            ]
      ]

  unfoldable pub fire_all : Bool → List ScheduledNotification → World R → World R
  fire_all producer [] w = w
  fire_all producer (sn ∷ rows) w = fire_all producer rows (fire_one producer sn w)

  unfoldable pub tick_once : Bool → World R → World R
  unfolding fire_all
  tick_once producer w =
      let (r, w') = Scheduled.get_due_unfired env (env.clock w.calls) batch_size w in
      elim r [ err e ↦ w' | ok due ↦ fire_all producer due w' ]
