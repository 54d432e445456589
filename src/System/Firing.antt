-- ===== src/System/Firing.antt =====
-- The scheduler, the replayer and the consumers, and the status `delivered`.
use notifyx.Prelude.{
  Option, none, some, String, ◌≡◌, ◌⊎◌, refl, sym, subst, Bool, true, false, List, [], ◌∷◌, arith,
  Result, All, All-update_where, update_where, Result-cases, inl, inr,
}
use notifyx.Domain.{
  Uuid, Channel, Notification, ScheduledNotification, Message, queued, queued_rate_limited, failed,
  status_eq,
}
use notifyx.Postgres.{World, Env, Io}
use notifyx.Postgres.Notifications
use notifyx.Postgres.Deliveries
use notifyx.Postgres.Scheduled
use notifyx.Postgres.Reports
use notifyx.Kafka.{publish}
use notifyx.Kafka.Consumers.Channels.{
  Notifier, Pusher, inapp_payload, handle_inapp, offline, mark_delivered, handle_dlq, handle_email,
  handle_sms, handle_push,
}
use notifyx.Kafka.Consumers.Channels.Outcomes.{Provider, resend, fast2sms, fcm, handle_by}
use notifyx.Scheduler.{batch_size, fire_one, fire_all, tick_once, publish_and_mark, mark_published}
use notifyx.Ratelimit.Replayer
use notifyx.Ratelimit.Replayer.{mark_requeued, requeue, replay_one, replay_all, replay_once}
use notifyx.Ratelimit.Replayer.Replaying.{Sparing}
use notifyx.System.Keeping.{NotDelivered, NoneDelivered, Keeps}

module _ {R : Type 0} (env : Env) where
  -- An operation that leaves the rows, or queues those with one id.
  queueing :
      (i : Uuid) (w w' : World R)
      → (w'.tables.notifications ≡ w.tables.notifications)
        ⊎ (w'.tables.notifications
            ≡ update_where
                (Notifications.has_id i)
                (λ n. record n { status = queued })
                w.tables.notifications)
      → NoneDelivered w
      → NoneDelivered w'
  unfolding status_eq
  queueing i w w' (inl e) h = subst (All NotDelivered) (sym e) h
  queueing i w w' (inr e) h = subst (All NotDelivered) (sym e) (
      All-update_where NotDelivered (Notifications.has_id i) (λ n. record n { status = queued })
        (λ n p. refl) w.tables.notifications h)

  pub fire_one-NoneDelivered :
      (producer : Bool) (sn : ScheduledNotification) (w : World R)
      → NoneDelivered w
      → NoneDelivered (fire_one env producer sn w)
  unfolding fire_one publish_and_mark mark_published publish Notifications.get_by_id
      Notifications.update_status Deliveries.set_status Scheduled.mark_fired
      Deliveries.get_by_notification_id
  fire_one-NoneDelivered producer sn w h =
      elim (Result-cases (Notifications.get_by_id env sn.notification_id w).0) [
        | inr (x, e) ↦ queueing 0 w (fire_one env producer sn w) (inl (ground arith)) h
        | inl (n, e) ↦ queueing n.id w (fire_one env producer sn w) (ground arith) h
      ]

  fire_all-NoneDelivered :
      (producer : Bool) (rows : List ScheduledNotification) (w : World R)
      → NoneDelivered w
      → NoneDelivered (fire_all env producer rows w)
  unfolding fire_all
  fire_all-NoneDelivered producer [] w h = h
  fire_all-NoneDelivered producer (sn ∷ rows) w h =
      fire_all-NoneDelivered producer rows (fire_one env producer sn w)
        (fire_one-NoneDelivered producer sn w h)

  pub tick_once-NoneDelivered :
      (producer : Bool) (w : World R) → NoneDelivered w → NoneDelivered (tick_once env producer w)
  tick_once-NoneDelivered producer w h = elim (Result-cases due.0) [
    | inr (x, e) ↦
        let step : tick_once env producer w ≡ due.1 = unfold tick_once in ground arith in
        subst NoneDelivered (sym step) read
    | inl (rows, e) ↦
        let step : tick_once env producer w ≡ fire_all env producer rows due.1 =
          unfold tick_once in ground arith in
        subst NoneDelivered (sym step) (fire_all-NoneDelivered producer rows due.1 read)
  ]
    where
      due : Result (List ScheduledNotification) × World R
      due = Scheduled.get_due_unfired env (env.clock w.calls) batch_size w

      same : due.1.tables ≡ w.tables
      same = unfold Scheduled.get_due_unfired in ground arith

      read : NoneDelivered due.1
      read = subst (λ t. All NotDelivered t.notifications) (sym same) h

  module _ (allow : Uuid → Channel → Io R Bool) (sparing : Sparing allow) where
    pub replay_one-NoneDelivered :
        (producer : Bool) (n : Notification) (w : World R)
        → NoneDelivered w
        → NoneDelivered (replay_one env allow producer n w)
    unfolding replay_one requeue mark_requeued publish Notifications.update_status
        Deliveries.set_status Deliveries.get_by_notification_id
    replay_one-NoneDelivered true n w h =
        queueing n.id w (replay_one env allow true n w)
          (ground (arith, sparing n.tenant_id n.channel w)) h
    replay_one-NoneDelivered false n w h =
        queueing n.id w (replay_one env allow false n w)
          (ground (arith, sparing n.tenant_id n.channel w)) h

    replay_all-NoneDelivered :
        (producer : Bool) (rows : List Notification) (w : World R)
        → NoneDelivered w
        → NoneDelivered (replay_all env allow producer rows w)
    unfolding replay_all
    replay_all-NoneDelivered producer [] w h = h
    replay_all-NoneDelivered producer (n ∷ rows) w h =
        replay_all-NoneDelivered producer rows (replay_one env allow producer n w)
          (replay_one-NoneDelivered producer n w h)

    pub replay_once-NoneDelivered :
        (producer : Bool) (w : World R)
        → NoneDelivered w
        → NoneDelivered (replay_once env allow producer w)
    replay_once-NoneDelivered producer w h = elim (Result-cases held.0) [
      | inr (x, e) ↦
          let step : replay_once env allow producer w ≡ held.1 =
            unfold replay_once in ground arith in
          subst NoneDelivered (sym step) read
      | inl (rows, e) ↦
          let step : replay_once env allow producer w ≡ replay_all env allow producer rows held.1 =
            unfold replay_once in ground arith in
          subst NoneDelivered (sym step) (replay_all-NoneDelivered producer rows held.1 read)
    ]
      where
        held : Result (List Notification) × World R
        held = Notifications.get_by_status env queued_rate_limited Replayer.batch_size w

        same : held.1.tables ≡ w.tables
        same = unfold Notifications.get_by_status in ground arith

        read : NoneDelivered held.1
        read = subst (λ t. All NotDelivered t.notifications) (sym same) h

  pub handle_by-Keeps : (c : Provider) (msg : Message) → Keeps (handle_by {R = R} env c msg)
  unfolding handle_by handle_email handle_sms handle_push Deliveries.update_status
  handle_by-Keeps resend msg w h =
      queueing 0 w (handle_by env resend msg w).1 (inl (ground arith)) h
  handle_by-Keeps fast2sms msg w h =
      queueing 0 w (handle_by env fast2sms msg w).1 (inl (ground arith)) h
  handle_by-Keeps fcm msg w h = queueing 0 w (handle_by env fcm msg w).1 (inl (ground arith)) h

  pub handle_dlq-Keeps : (msg : Message) → Keeps (handle_dlq {R = R} env msg)
  handle_dlq-Keeps msg w h = elim rows [
    | inl e ↦ subst (All NotDelivered) (sym e) h
    | inr e ↦ subst (All NotDelivered) (sym e) (
        All-update_where NotDelivered (Notifications.has_id msg.notification_id)
          (λ n. record n { status = failed }) (λ n p. unfold status_eq in refl)
          w.tables.notifications h)
  ]
    where
      rows :
          ((handle_dlq env msg w).1.tables.notifications ≡ w.tables.notifications)
          ⊎ ((handle_dlq env msg w).1.tables.notifications
              ≡ update_where
                  (Notifications.has_id msg.notification_id)
                  (λ n. record n { status = failed })
                  w.tables.notifications)
      rows =
          unfold handle_dlq Reports.create_dlq Deliveries.update_status
            Notifications.update_status in
          ground arith

  pub handle_inapp-Keeps :
      (uuid_text : Uuid → String) (hub : Notifier R) (queue : Option (Pusher R)) (msg : Message)
      → Keeps (handle_inapp env uuid_text hub queue msg)
  unfolding handle_inapp offline mark_delivered Deliveries.update_status Deliveries.set_status
  handle_inapp-Keeps uuid_text hub none msg w h =
      let payload = inapp_payload env uuid_text msg w in
      queueing 0 w (handle_inapp env uuid_text hub none msg w).1
        (inl (ground (arith, hub.send-tables (uuid_text msg.tenant_id) msg.recipient_id payload w)))
        h
  handle_inapp-Keeps uuid_text hub (some q) msg w h =
      let payload = inapp_payload env uuid_text msg w in
      let asked = (hub.send_to_user (uuid_text msg.tenant_id) msg.recipient_id payload w).1 in
      queueing 0 w (handle_inapp env uuid_text hub (some q) msg w).1
        (inl (
          ground (
            arith,
            hub.send-tables (uuid_text msg.tenant_id) msg.recipient_id payload w,
            q.push-tables (uuid_text msg.tenant_id) msg.recipient_id payload asked,
          )))
        h
