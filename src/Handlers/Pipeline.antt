-- ===== src/Handlers/Pipeline.antt =====
-- processSend and createAndQueue of backend/internal/api/handlers/notification.go: dedup, rate
-- limit, persist and publish.
pub mod Persisting
pub mod Sending
pub mod Sent
pub mod Reserved
pub mod Foreign
use notifyx.Prelude.{
  ℕ, zero, suc, String, ◌≡◌, Bool, true, false, ◌&&◌, not, Option, none, some, Error, is_not_found,
  message, wrap, Result, ok, err, if◌then◌else◌, str_eq,
}
use notifyx.Domain.{
  Uuid, Time, Channel, Status, pending, queued_rate_limited, Notification, NotificationDelivery,
  Message, topic_for_channel,
}
use notifyx.Dedup.{Reservation, claimed, existing}
use notifyx.Kafka.{publish}
use notifyx.Postgres.{Env, World, Io, call, pure, fail, wrapping, logged, with_tx, ◌>>=◌, ◌>>◌}
use notifyx.Postgres.Notifications
use notifyx.Postgres.Notifications.{CreateNotificationParams}
use notifyx.Postgres.Deliveries
use notifyx.Handlers.Response.{ErrorText, process_failed, send_failed}

-- RateLimiterInterface. What the handler relies on: it writes neither the tables nor Kafka.
pub record RateLimiterInterface (R : Type 0) : Type 0 where
  pub allow : Uuid → Channel → Io R Bool
  pub allow-tables : (t : Uuid) (c : Channel) (w : World R) → (allow t c w).1.tables ≡ w.tables
  pub allow-published :
      (t : Uuid) (c : Channel) (w : World R) → (allow t c w).1.published ≡ w.published

-- DedupInterface, likewise.
pub record DedupInterface (R : Type 0) : Type 0 where
  pub reserve : String → Uuid → Io R Reservation
  pub release : String → Io R (Unit {0})
  pub reserve-tables : (k : String) (i : Uuid) (w : World R) → (reserve k i w).1.tables ≡ w.tables
  pub reserve-published :
      (k : String) (i : Uuid) (w : World R) → (reserve k i w).1.published ≡ w.published
  pub release-tables : (k : String) (w : World R) → (release k w).1.tables ≡ w.tables
  pub release-published : (k : String) (w : World R) → (release k w).1.published ≡ w.published

-- The fields of NotificationService that may be nil; `producer` tells whether Kafka is configured.
pub record NotificationService (R : Type 0) : Type 0 where
  pub producer : Bool
  pub rate_limiter : Option (RateLimiterInterface R)
  pub dedup : Option (DedupInterface R)

unfoldable pub sent_message :
    CreateNotificationParams → Notification → NotificationDelivery → Message
sent_message p n d = record {
  notification_id = n.id;
  delivery_id = d.id;
  tenant_id = p.tenant_id;
  channel = p.channel;
  priority = p.priority;
  recipient_id = p.recipient_id;
  recipient_email = p.recipient_email;
  recipient_phone = p.recipient_phone;
  recipient_token = p.recipient_token;
  subject = p.subject;
  body = p.body;
  metadata = p.metadata;
  last_error = "";
}

-- What processSend returns: the id, the status and whether it is a duplicate, or errMsg.
pub data Outcome : Type 0 where
  sent : Uuid → Status → Bool → Outcome
  refused : ErrorText → Outcome

module _ {R : Type 0} (env : Env) (svc : NotificationService R) where
  -- The end of the transaction's body: nothing is published for a held notification, or without
  -- Kafka.
  publish_if :
      Bool → CreateNotificationParams → Notification → NotificationDelivery → Io R (Unit {0})
  unfolding publish sent_message
  publish_if false p n d w = (ok tt, w)
  publish_if true p n d w =
      if svc.producer
      then wrapping "publish to kafka"
          (publish env (topic_for_channel p.channel) (sent_message p n d)) w
      else (ok tt, w)

  -- The function that createAndQueue hands to WithTx.
  unfoldable pub queue_body :
      CreateNotificationParams → Bool → Io R (Notification × NotificationDelivery)
  unfolding publish_if
  queue_body p publishes = do
    n ← wrapping "create notification" (Notifications.create env p)
    d ← wrapping "create delivery" (Deliveries.create env n.id p.channel p.status)
    publish_if publishes p n d
    pure (n, d)

  unfoldable pub create_and_queue :
      CreateNotificationParams → Bool → Io R (Notification × NotificationDelivery)
  create_and_queue p publishes = with_tx env (queue_body p publishes)

  -- The loop that fetches the original notification: `more` further attempts after this one.
  unfoldable pub fetch_existing : ℕ → Uuid → Io R Notification
  fetch_existing zero i w = Notifications.get_by_id env i w
  fetch_existing (suc more) i w =
      let (r, w') = Notifications.get_by_id env i w in
      let again = fetch_existing more i w' in
      elim r [ ok n ↦ (ok n, w') | err e ↦ if is_not_found e then again else (err e, w') ]

  -- releaseDedup: the error goes to the log.
  unfoldable pub release_dedup : String → World R → World R
  release_dedup key w = elim svc.dedup [
    | none ↦ w
    | some d ↦ if str_eq key "" then w else (d.release key w).1
  ]

  -- A second request with a claimed key: the notification of the first.
  unfoldable pub answer_duplicate : Uuid → World R → Outcome × World R
  answer_duplicate i w =
      let (r, w') = fetch_existing 2 i w in
      elim r [ ok n ↦ (sent n.id n.status true, w') | err e ↦ (refused process_failed, w') ]

  -- The last step: persist, and give the key back if that fails.
  unfoldable pub finish_send :
      String → CreateNotificationParams → Bool → World R → Outcome × World R
  finish_send key p publishes w =
      let (r, w') = create_and_queue (record p { idempotency_key = key }) publishes w in
      elim r [
        | ok x ↦ (sent x.0.id x.0.status false, w')
        | err e ↦ (refused send_failed, release_dedup key w')
      ]

  -- The rate limit: a request over the limit is persisted as queued_rate_limited, unpublished.
  unfoldable pub limit_and_finish : String → CreateNotificationParams → World R → Outcome × World R
  limit_and_finish key p w = elim svc.rate_limiter [
    | none ↦ finish_send key (record p { status = some pending }) true w
    | some l ↦
        let (r, w') = l.allow p.tenant_id p.channel w in
        elim r [
          | err e ↦ (refused process_failed, release_dedup key w')
          | ok true ↦ finish_send key (record p { status = some pending }) true w'
          | ok false ↦ finish_send key (record p { status = some queued_rate_limited }) false w'
        ]
  ]

  unfoldable pub process_send : String → CreateNotificationParams → World R → Outcome × World R
  process_send key p w = elim svc.dedup [
    | none ↦ limit_and_finish key p w
    | some d ↦
        if str_eq key ""
        then limit_and_finish key p w
        else let (r, w') = d.reserve key p.id w in
          elim r [
            | err e ↦ (refused process_failed, w')
            | ok claimed ↦ limit_and_finish key p w'
            | ok (existing i) ↦ answer_duplicate i w'
          ]
  ]
