-- ===== src/Kafka/Consumers/Channels.antt =====
-- The channel consumers' handlers: backend/internal/kafka/consumers/email.go, sms.go, push.go,
-- inapp.go and dlq.go. An error of a status update goes to the log only.
pub mod Outcomes
use notifyx.Prelude.{
  ℕ, String, ◌≡◌, Bool, true, false, Option, none, some, List, [], ◌∷◌, Error, message, wrap,
  Result, ok, err, if◌then◌else◌, str_eq,
}
use notifyx.Domain.{Uuid, Time, Metadata, email, push, sms, queued, delivered, failed, Message}
use notifyx.Postgres.{Env, World, Sent, Io, call, pure, fail, gets, wrapping, logged, ◌>>=◌, ◌>>◌}
use notifyx.Postgres.Notifications
use notifyx.Postgres.Deliveries
use notifyx.Postgres.Reports
use notifyx.Kafka.Consumers.{HandlerFunc}

pub record InAppPayload : Type 0 where
  pub notification_id : String
  pub subject : String
  pub body : String
  pub metadata : Metadata
  pub sent_at : Time

-- ws.Notifier: whether the payload was put in the buffer of a live connection.
pub record Notifier (R : Type 0) : Type 0 where
  pub send_to_user : String → String → InAppPayload → World R → Bool × World R
  pub send-tables :
      (t u : String) (p : InAppPayload) (w : World R) → (send_to_user t u p w).1.tables ≡ w.tables

-- offlinequeue.Pusher
pub record Pusher (R : Type 0) : Type 0 where
  pub push_to : String → String → InAppPayload → Io R (Unit {0})
  pub push-tables :
      (t u : String) (p : InAppPayload) (w : World R) → (push_to t u p w).1.tables ≡ w.tables

-- The reason that the DLQ consumer records.
unfoldable pub dlq_reason : Message → String
dlq_reason msg =
    if str_eq msg.last_error ""
    then "exhausted delivery retries (no error recorded)"
    else msg.last_error

module _ {R : Type 0} (env : Env) where
  -- client.Send of a provider: it accepts the message, or the call fails.
  unfoldable pub provide : Sent → Io R (Unit {0})
  unfolding call
  provide s = do call env; λ w. (ok tt, record w { provided = s ∷ w.provided })

  unfoldable pub mark_delivered : Message → Io R (Unit {0})
  mark_delivered msg = logged (Deliveries.update_status env msg.delivery_id delivered "")

  -- email.go
  unfoldable pub handle_email : HandlerFunc R
  unfolding provide mark_delivered
  handle_email msg =
      if str_eq msg.recipient_email ""
      then fail (message "email handler: missing recipient_email")
      else do
        wrapping "resend send failed" (
            provide (record {
              channel = email;
              to = msg.recipient_email;
              subject = msg.subject;
              body = msg.body;
            }))
        mark_delivered msg

  -- sms.go
  unfoldable pub handle_sms : HandlerFunc R
  unfolding provide mark_delivered
  handle_sms msg =
      if str_eq msg.recipient_phone ""
      then fail (message "sms handler: missing recipient_phone")
      else do
        wrapping "fast2sms send failed" (
            provide
              (record { channel = sms; to = msg.recipient_phone; subject = ""; body = msg.body }))
        mark_delivered msg

  -- push.go
  unfoldable pub handle_push : HandlerFunc R
  unfolding provide mark_delivered
  handle_push msg =
      if str_eq msg.recipient_token ""
      then fail (message "push handler: missing recipient_token")
      else do
        wrapping "fcm send failed" (
            provide (record {
              channel = push;
              to = msg.recipient_token;
              subject = msg.subject;
              body = msg.body;
            }))
        mark_delivered msg

  -- The payload of inapp.go, at the time of the call.
  abbrev pub inapp_payload : (Uuid → String) → Message → World R → InAppPayload
  inapp_payload uuid_text msg w = record {
    notification_id = uuid_text msg.notification_id;
    subject = msg.subject;
    body = msg.body;
    metadata = msg.metadata;
    sent_at = env.clock w.calls;
  }

  -- inapp.go; `uuid_text` is UUID.String().
  unfoldable pub offline : (Uuid → String) → Option (Pusher R) → InAppPayload → HandlerFunc R
  offline uuid_text none payload msg =
      fail (message "inapp handler: recipient offline and no offline queue configured")
  offline uuid_text (some queue) payload msg = do
    wrapping "inapp handler: offline queue push failed"
        (queue.push_to (uuid_text msg.tenant_id) msg.recipient_id payload)
    logged (Deliveries.set_status env msg.delivery_id queued)

  unfoldable pub handle_inapp : (Uuid → String) → Notifier R → Option (Pusher R) → HandlerFunc R
  unfolding offline mark_delivered
  handle_inapp uuid_text hub queue msg w =
      let payload = inapp_payload uuid_text msg w in
      let (sent, w') = hub.send_to_user (uuid_text msg.tenant_id) msg.recipient_id payload w in
      if str_eq msg.recipient_id ""
      then (err (message "inapp handler: missing recipient_id"), w)
      else if sent
      then mark_delivered msg w'
      else offline uuid_text queue payload msg w'

  -- dlq.go
  unfoldable pub handle_dlq : HandlerFunc R
  unfolding dlq_reason
  handle_dlq msg = do
    wrapping "persist to dlq_messages" (Reports.create_dlq env msg (dlq_reason msg))
    logged (Deliveries.update_status env msg.delivery_id failed (dlq_reason msg))
    logged (Notifications.update_status env msg.notification_id failed)
