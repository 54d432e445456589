-- ===== src/System/Background.antt =====
-- The scheduler and the replayer as runs of repository writes.
use notifyx.Prelude.{
  Bool, true, false, ◌≡◌, List, [], ◌∷◌, arith, Result-cases, inl, inr, Option-cases,
}
use notifyx.Domain.{
  Uuid, Channel, Notification, NotificationDelivery, ScheduledNotification, queued,
  queued_rate_limited, topic_for_channel,
}
use notifyx.Postgres.{Env, World, Io}
use notifyx.Postgres.Notifications
use notifyx.Postgres.Deliveries
use notifyx.Postgres.Scheduled
use notifyx.Postgres.References.Runs.{Run, done, then_write, update_status, set_status, mark_fired}
use notifyx.Kafka.{publish, message_for}
use notifyx.Scheduler.{
  batch_size, first_delivery, fire_one, fire_all, tick_once, publish_and_mark, mark_published,
}
use notifyx.Ratelimit.Replayer
use notifyx.Ratelimit.Replayer.{replay_one, replay_all, replay_once, requeue, mark_requeued}
use notifyx.Ratelimit.Replayer.Replaying.{Sparing}
use notifyx.System.Upkeep.{reading, joined, either}

module _ {R : Type 0} (env : Env) where
  -- The updates of statuses that follow a publish.
  settled : (i j : Uuid) → World R → World R
  settled i j w =
      (Deliveries.set_status env j queued (Notifications.update_status env i queued w).1).1

  settled-Run : (i j : Uuid) (w : World R) → Run env w (settled i j w)
  unfolding settled
  settled-Run i j w = then_write (then_write done (update_status i queued)) (set_status j queued)

  published_to : Notification → NotificationDelivery → World R → World R
  published_to n d w = (publish env (topic_for_channel n.channel) (message_for n d) w).1

  published_to-tables :
      (n : Notification) (d : NotificationDelivery) (w : World R)
      → (published_to n d w).tables ≡ w.tables
  unfolding published_to publish
  published_to-tables n d w = ground arith

  publish_and_mark-Run :
      (sn : ScheduledNotification) (n : Notification) (d : NotificationDelivery) (w : World R)
      → Run env w (publish_and_mark env sn n d w)
  unfolding publish_and_mark mark_published published_to settled
  publish_and_mark-Run sn n d w =
      let sent : World R = published_to n d w in
      let start : Run env w sent = reading env done (published_to-tables n d w) in
      elim (Result-cases (publish env (topic_for_channel n.channel) (message_for n d) w).0) [
        | inr (x, e) ↦ reading env start (ground arith)
        | inl (u, e) ↦
            reading env
              (then_write (joined env start (settled-Run n.id d.id sent)) (mark_fired sn.id))
              (ground arith)
      ]

  fire_one-Run :
      (producer : Bool) (sn : ScheduledNotification) (w : World R)
      → Run env w (fire_one env producer sn w)
  unfolding fire_one
  fire_one-Run producer sn w =
      elim (Result-cases (Notifications.get_by_id env sn.notification_id w).0) [
        | inr (x, e) ↦ reading env done (unfold Notifications.get_by_id in ground arith)
        | inl (n, e) ↦
            let read : World R = (Notifications.get_by_id env sn.notification_id w).1 in
            let seen : World R = (Deliveries.get_by_notification_id env n.id read).1 in
            let same : seen.tables ≡ w.tables =
              unfold Deliveries.get_by_notification_id Notifications.get_by_id in ground arith in
            elim (Option-cases
              (first_delivery (Deliveries.get_by_notification_id env n.id read).0)) [
                | inl f ↦ reading env done (ground (arith, same))
                | inr (d, f) ↦
                    either env
                      (joined env (reading env done same) (publish_and_mark-Run sn n d seen))
                      (ground (arith, same))
              ]
      ]

  fire_all-Run :
      (producer : Bool) (rows : List ScheduledNotification) (w : World R)
      → Run env w (fire_all env producer rows w)
  unfolding fire_all
  fire_all-Run producer [] w = done
  fire_all-Run producer (sn ∷ rows) w =
      joined env (fire_one-Run producer sn w)
        (fire_all-Run producer rows (fire_one env producer sn w))

  pub tick_once-Run : (producer : Bool) (w : World R) → Run env w (tick_once env producer w)
  unfolding tick_once
  tick_once-Run producer w =
      let due : World R = (Scheduled.get_due_unfired env (env.clock w.calls) batch_size w).1 in
      let same : due.tables ≡ w.tables = unfold Scheduled.get_due_unfired in ground arith in
      elim (Result-cases (Scheduled.get_due_unfired env (env.clock w.calls) batch_size w).0) [
        | inr (x, e) ↦ reading env done (ground (arith, same))
        | inl (rows, e) ↦
            reading env (joined env (reading env done same) (fire_all-Run producer rows due))
              (ground arith)
      ]

  requeue-Run :
      (producer : Bool) (n : Notification) (d : NotificationDelivery) (w : World R)
      → Run env w (requeue env producer n d w)
  unfolding requeue mark_requeued published_to settled
  requeue-Run false n d w = reading env (settled-Run n.id d.id w) (ground arith)
  requeue-Run true n d w =
      let sent : World R = published_to n d w in
      let start : Run env w sent = reading env done (published_to-tables n d w) in
      elim (Result-cases (publish env (topic_for_channel n.channel) (message_for n d) w).0) [
        | inr (x, e) ↦ reading env start (ground arith)
        | inl (u, e) ↦ reading env (joined env start (settled-Run n.id d.id sent)) (ground arith)
      ]

  module _ (allow : Uuid → Channel → Io R Bool) (sparing : Sparing allow) where
    replay_one-Run :
        (producer : Bool) (n : Notification) (w : World R)
        → Run env w (replay_one env allow producer n w)
    unfolding replay_one
    replay_one-Run producer n w =
        let asked : World R = (allow n.tenant_id n.channel w).1 in
        let seen : World R = (Deliveries.get_by_notification_id env n.id asked).1 in
        let spared : asked.tables ≡ w.tables = (sparing n.tenant_id n.channel w).0 in
        let same : seen.tables ≡ w.tables =
          unfold Deliveries.get_by_notification_id in ground (arith, spared) in
        elim (Option-cases (first_delivery (Deliveries.get_by_notification_id env n.id asked).0)) [
          | inl f ↦ reading env done (ground (arith, spared, same))
          | inr (d, f) ↦
              either env (joined env (reading env done same) (requeue-Run producer n d seen))
                (ground (arith, spared, same))
        ]

    replay_all-Run :
        (producer : Bool) (rows : List Notification) (w : World R)
        → Run env w (replay_all env allow producer rows w)
    unfolding replay_all
    replay_all-Run producer [] w = done
    replay_all-Run producer (n ∷ rows) w =
        joined env (replay_one-Run producer n w)
          (replay_all-Run producer rows (replay_one env allow producer n w))

    pub replay_once-Run :
        (producer : Bool) (w : World R) → Run env w (replay_once env allow producer w)
    unfolding replay_once
    replay_once-Run producer w =
        let held : World R =
          (Notifications.get_by_status env queued_rate_limited Replayer.batch_size w).1 in
        let same : held.tables ≡ w.tables = unfold Notifications.get_by_status in ground arith in
        elim (Result-cases
          (Notifications.get_by_status env queued_rate_limited Replayer.batch_size w).0) [
            | inr (x, e) ↦ reading env done (ground (arith, same))
            | inl (rows, e) ↦
                reading env (joined env (reading env done same) (replay_all-Run producer rows held))
                  (ground arith)
          ]
