-- ===== src/Ratelimit/Replayer.antt =====
-- backend/internal/ratelimit/replayer.go. The goroutines of one tick work on different rows; they
-- are run one after the other here.
pub mod Replaying
use notifyx.Prelude.{
  ℕ, String, ◌≡◌, Bool, true, false, Option, none, some, List, [], ◌∷◌, Error, Result, ok, err,
  if◌then◌else◌,
}
use notifyx.Domain.{
  Uuid, Channel, queued, queued_rate_limited, Notification, NotificationDelivery, topic_for_channel,
}
use notifyx.Postgres.{Env, World, Io, logged, ◌>>=◌, ◌>>◌}
use notifyx.Postgres.Notifications
use notifyx.Postgres.Deliveries
use notifyx.Kafka.{publish, message_for}
use notifyx.Scheduler.{first_delivery}

abbrev pub batch_size : ℕ
batch_size = 100

module _ {R : Type 0} (env : Env) where
  unfoldable pub mark_requeued : Notification → NotificationDelivery → Io R (Unit {0})
  mark_requeued n d = do
    logged (Notifications.update_status env n.id queued)
    logged (Deliveries.set_status env d.id queued)

  -- Without Kafka the statuses change all the same.
  unfoldable pub requeue : Bool → Notification → NotificationDelivery → World R → World R
  requeue false n d w = (mark_requeued n d w).1
  requeue true n d w =
      let (r, w') = publish env (topic_for_channel n.channel) (message_for n d) w in
      elim r [ err e ↦ w' | ok _ ↦ (mark_requeued n d w').1 ]

  -- replayOne; `allow` is the limiter's.
  unfoldable pub replay_one : (Uuid → Channel → Io R Bool) → Bool → Notification → World R → World R
  replay_one allow producer n w =
      let (r, w1) = allow n.tenant_id n.channel w in
      elim r [
        | err e ↦ w1
        | ok false ↦ w1
        | ok true ↦
            let (rows, w2) = Deliveries.get_by_notification_id env n.id w1 in
            elim (first_delivery rows) [ none ↦ w2 | some d ↦ requeue producer n d w2 ]
      ]

  unfoldable pub replay_all :
      (Uuid → Channel → Io R Bool) → Bool → List Notification → World R → World R
  replay_all allow producer [] w = w
  replay_all allow producer (n ∷ ns) w =
      replay_all allow producer ns (replay_one allow producer n w)

  unfoldable pub replay_once : (Uuid → Channel → Io R Bool) → Bool → World R → World R
  replay_once allow producer w =
      let (r, w') = Notifications.get_by_status env queued_rate_limited batch_size w in
      elim r [ err e ↦ w' | ok candidates ↦ replay_all allow producer candidates w' ]
