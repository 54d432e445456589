-- ===== src/Server/Unconfigured.antt =====
-- What the server of backend/cmd/server/main.go does without Kafka or without Redis.
use notifyx.Prelude.{true, false, not, ◌≡◌, Option, none, some, arith, ok, Result-cases, str_eq}
use notifyx.Domain.{ScheduledNotification, Notification, NotificationDelivery}
use notifyx.Postgres.{Env, World}
use notifyx.Postgres.Notifications
use notifyx.Postgres.Deliveries
use notifyx.Scheduler.{first_delivery, fire_one}
use notifyx.Config.{Config}
use notifyx.Server.{
  is_nil, callee, nil_dereference, when_set, nil_safe, wire, publish_through, fire_through,
  limiting, crashes,
}

-- Without Kafka and Redis, main gives the notification handler and the scheduler interfaces that
-- are not nil but hold a nil pointer, so that the handler's test for nil does not find them and the
-- call of the limiter dereferences nil; only the replayer, which is not started then, would get a
-- true nil.
wire_typed_nil :
    {P L D Q : Type 0} (cfg : Config) (p : P) (l : L) (d : D) (q : Q)
    → str_eq cfg.kafka_bootstrap_servers "" ≡ true
    → str_eq cfg.redis_url "" ≡ true
    → (is_nil (wire cfg p l d q).handler_producer ≡ false)
      × (callee (wire cfg p l d q).handler_producer ≡ nil_dereference)
      × (limiting (wire cfg p l d q).handler_rate_limiter ≡ crashes)
      × (is_nil (wire cfg p l d q).handler_dedup ≡ false)
      × (callee (wire cfg p l d q).handler_dedup ≡ nil_dereference)
      × ((wire cfg p l d q).replayer_producer ≡ none)
unfolding wire when_set is_nil callee limiting
wire_typed_nil cfg p l d q k r = ground arith

module _ {R : Type 0} {P : Type 0} (env : Env) where
  -- With an interface that is nil or holds a real producer the scheduler does what `fire_one` does.
  fire_through-agrees :
      (o : Option P) (sn : ScheduledNotification) (w : World R)
      → fire_through env (nil_safe o) sn w ≡ some (fire_one env (not (is_nil (nil_safe o))) sn w)
  unfolding fire_through fire_one publish_through nil_safe is_nil callee
  fire_through-agrees none sn w =
      ground (arith, Result-cases (Notifications.get_by_id env sn.notification_id w).0)
  fire_through-agrees (some p) sn w =
      ground (arith, Result-cases (Notifications.get_by_id env sn.notification_id w).0)

  -- Without Kafka, the scheduler that main starts ends the process at the first due row whose
  -- notification and delivery can be read, where it means to leave the row for later.
  pub fire_through-wire :
      {L D Q : Type 0} (cfg : Config) (p : P) (l : L) (d : D) (q : Q) (sn : ScheduledNotification)
      (w : World R) {n : Notification} {row : NotificationDelivery}
      → str_eq cfg.kafka_bootstrap_servers "" ≡ true
      → (Notifications.get_by_id env sn.notification_id w).0 ≡ ok n
      → first_delivery
          (Deliveries.get_by_notification_id env n.id
            (Notifications.get_by_id env sn.notification_id w).1).0
        ≡ some row
      → fire_through env (wire cfg p l d q).scheduler_producer sn w ≡ none
  unfolding fire_through wire when_set publish_through is_nil callee
  fire_through-wire cfg p l d q sn w k h f = ground arith
