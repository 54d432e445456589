-- ===== src/Tests/Crons.antt =====
-- The scheduler and the replayer on a due row and a held notification.
use notifyx.Prelude.{
  ◌≡◌, refl, Bool, true, false, ◌&&◌, [], ◌∷◌, ok, All, find, select, order_by, insert_by,
}
use notifyx.Domain.{
  Uuid, Channel, email, pending, queued_rate_limited, status_eq, topic_for_channel,
}
use notifyx.Postgres.{World, Io}
use notifyx.Postgres.Notifications
use notifyx.Postgres.Deliveries
use notifyx.Postgres.Scheduled
use notifyx.Kafka.{message_for}
use notifyx.Scheduler.{first_delivery, fire_one}
use notifyx.Scheduler.Firing.{fire_one_settles}
use notifyx.Ratelimit.Replayer.{replay_one}
use notifyx.Ratelimit.Replayer.Replaying.{Sparing, replay_one_requeues}
use notifyx.Tests.{calm, due_row, held, held_delivery, tables_with, world_of}

abbrev due : World (Unit {0})
due = world_of (tables_with pending) tt

fire_one_settles_example :
    All
      (λ s. (Scheduled.has_id 42 s && Scheduled.is_due 5000 s) ≡ false)
      (fire_one calm true due_row due).tables.scheduled
unfolding Notifications.get_by_id Deliveries.get_by_notification_id first_delivery find select
    order_by insert_by
fire_one_settles_example =
    fire_one_settles calm due_row (held pending) (held_delivery pending) 5000 due refl refl refl
      refl

abbrev waiting : World (Unit {0})
waiting = world_of (tables_with queued_rate_limited) tt

-- A limiter that answers the same each time.
abbrev answering : Bool → Uuid → Channel → Io (Unit {0}) Bool
answering b t c w = (ok b, w)

abbrev answering-Sparing : (b : Bool) → Sparing (answering b)
answering-Sparing b t c w = (refl, refl)

replay_one_requeues_example :
    ((replay_one calm (answering true) true (held queued_rate_limited) waiting).published
      ≡ (
        topic_for_channel email,
        message_for (held queued_rate_limited) (held_delivery queued_rate_limited),
      )
        ∷ [])
    × All
        (λ x. (Notifications.has_id 40 x && status_eq x.status queued_rate_limited) ≡ false)
        (replay_one calm
          (answering true)
          true
          (held queued_rate_limited)
          waiting).tables.notifications
unfolding Deliveries.get_by_notification_id first_delivery select order_by insert_by
replay_one_requeues_example =
    replay_one_requeues calm (answering true) (answering-Sparing true) (held queued_rate_limited)
      (held_delivery queued_rate_limited) waiting waiting refl refl refl refl
