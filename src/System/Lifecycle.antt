-- ===== src/System/Lifecycle.antt =====
-- Runs of the backend: requests, ticks, consumed messages and cleanups in any order, with any
-- faults, and what the analytics count after them.
use notifyx.Prelude.{
  String, ◌≡◌, refl, Bool, Option, some, List, [], ◌∷◌, arith, ok, All, All-select, select,
}
use notifyx.Domain.{
  Uuid, Time, Channel, Tenant, Notification, Message, AnalyticsSummary, delivered, status_eq,
}
use notifyx.Postgres.{World, Env, Io}
use notifyx.Postgres.Notifications
use notifyx.Postgres.Reports
use notifyx.Postgres.Reports.{count_where, in_period, summary_of}
use notifyx.Scheduler.{tick_once}
use notifyx.Ratelimit.Replayer.{replay_once}
use notifyx.Ratelimit.Replayer.Replaying.{Sparing}
use notifyx.Kafka.Consumers.Channels.{Notifier, Pusher, handle_inapp, handle_dlq}
use notifyx.Kafka.Consumers.Channels.Outcomes.{Provider, handle_by}
use notifyx.Handlers.Requests.{
  SendNotificationRequest, BatchSendRequest, ScheduleNotificationRequest,
}
use notifyx.Handlers.Pipeline.{NotificationService}
use notifyx.Handlers.Notifications.{send, batch, schedule}
use notifyx.System.Keeping.{NotDelivered, NoneDelivered, delete_expired-Keeps}
use notifyx.System.Sending.{send-Keeps}
use notifyx.System.Batching.{batch-Keeps, schedule-Keeps}
use notifyx.System.Firing.{
  tick_once-NoneDelivered, replay_once-NoneDelivered, handle_by-Keeps, handle_dlq-Keeps,
  handle_inapp-Keeps,
}

module _ {R : Type 0} (env : Env) (svc : NotificationService R) (parse_uuid : String → Option Uuid)
    (parse_time : String → Option Time) where
  -- What may happen next: a request, a tick of the scheduler or of the replayer, one attempt at a
  -- message of a channel topic or of the dead letter queue, or the cleanup of expired rows.
  pub data Step (w : World R) : World R → Type 0 where
    sends :
        (t : Tenant) (r : SendNotificationRequest)
        → Step w (send env svc parse_uuid parse_time (some t) (some r) w).1
    schedules :
        (t : Option Tenant) (o : Option ScheduleNotificationRequest)
        → Step w (schedule env svc parse_uuid parse_time t o w).1
    batches :
        (t : Option Tenant) (o : Option BatchSendRequest)
        → Step w (batch env svc parse_uuid parse_time t o w).1
    ticks : (producer : Bool) → Step w (tick_once env producer w)
    replays :
        (allow : Uuid → Channel → Io R Bool)
        → Sparing allow
        → (producer : Bool) → Step w (replay_once env allow producer w)
    delivers : (c : Provider) (msg : Message) → Step w (handle_by env c msg w).1
    delivers_inapp :
        (uuid_text : Uuid → String) (hub : Notifier R) (queue : Option (Pusher R)) (msg : Message)
        → Step w (handle_inapp env uuid_text hub queue msg w).1
    dead_letters : (msg : Message) → Step w (handle_dlq env msg w).1
    expires : (now : Time) → Step w (Notifications.delete_expired env now w).1

  -- Any number of steps.
  pub data Reach (w : World R) : World R → Type 0 where
    start : Reach w w
    next : {w1 w2 : World R} → Reach w w1 → Step w1 w2 → Reach w w2

  Step-NoneDelivered : {w w' : World R} → Step w w' → NoneDelivered w → NoneDelivered w'
  Step-NoneDelivered (sends t r) h = send-Keeps env svc parse_uuid parse_time t r _ h
  Step-NoneDelivered (schedules t o) h = schedule-Keeps env svc parse_uuid parse_time t o _ h
  Step-NoneDelivered (batches t o) h = batch-Keeps env svc parse_uuid parse_time t o _ h
  Step-NoneDelivered (ticks producer) h = tick_once-NoneDelivered env producer _ h
  Step-NoneDelivered (replays allow sparing producer) h =
      replay_once-NoneDelivered env allow sparing producer _ h
  Step-NoneDelivered (delivers c msg) h = handle_by-Keeps env c msg _ h
  Step-NoneDelivered (delivers_inapp uuid_text hub queue msg) h =
      handle_inapp-Keeps env uuid_text hub queue msg _ h
  Step-NoneDelivered (dead_letters msg) h = handle_dlq-Keeps env msg _ h
  Step-NoneDelivered (expires now) h = delete_expired-Keeps env now _ h

  Reach-NoneDelivered : {w w' : World R} → Reach w w' → NoneDelivered w → NoneDelivered w'
  Reach-NoneDelivered start h = h
  Reach-NoneDelivered (next r s) h = Step-NoneDelivered s (Reach-NoneDelivered r h)

count_where-eq-zero :
    (rows : List Notification)
    → All NotDelivered rows
    → count_where (λ n. status_eq n.status delivered) rows ≡ 0
unfolding count_where
count_where-eq-zero [] h = refl
count_where-eq-zero (n ∷ rows) h = ground (arith, h.0, count_where-eq-zero rows h.1)

module _ {R : Type 0} (env : Env) (svc : NotificationService R) (parse_uuid : String → Option Uuid)
    (parse_time : String → Option Time) where
  -- Start where no notification has the status `delivered`, and let requests, ticks, consumed
  -- messages and cleanups happen in any number and order, with any faults. Then each summary that
  -- the analytics report counts no delivered notification: a success of a consumer is written to the
  -- delivery row alone.
  pub summary-delivers_none :
      (w w' : World R) (tenant_id : Uuid) (from to : Time) {s : AnalyticsSummary}
      → NoneDelivered w
      → Reach env svc parse_uuid parse_time w w'
      → (Reports.summary env tenant_id from to w').0 ≡ ok s
      → s.total_delivered ≡ 0
  unfolding Reports.summary summary_of
  summary-delivers_none w w' tenant_id from to {s} h r e =
      let rows = w'.tables.notifications in
      let none_left = count_where-eq-zero (select (in_period tenant_id from to) rows) (
        All-select NotDelivered (in_period tenant_id from to) rows
          (Reach-NoneDelivered env svc parse_uuid parse_time r h)) in
      ground (arith, none_left)
