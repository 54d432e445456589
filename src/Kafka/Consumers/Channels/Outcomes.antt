-- ===== src/Kafka/Consumers/Channels/Outcomes.antt =====
-- What a handler has done when it succeeds, and when it fails.
use notifyx.Prelude.{
  ◌≡◌, ◌⊎◌, inl, inr, Bool-cases, refl, true, false, none, [], ◌∷◌, ◌++◌, arith, Error, ok, err,
  any, update_where, str_eq, ◌==◌,
}
use notifyx.Domain.{email, push, sms, delivered, Message, NotificationDelivery, DlqMessage}
use notifyx.Postgres.{Env, World, Sent}
use notifyx.Postgres.Deliveries
use notifyx.Postgres.Deliveries.{record_attempt, update_row}
use notifyx.Postgres.Notifications
use notifyx.Postgres.Reports
use notifyx.Kafka.Consumers.{HandlerFunc}
use notifyx.Kafka.Consumers.Channels.{
  handle_email, handle_sms, handle_push, handle_dlq, dlq_reason, mark_delivered,
}

-- The handlers that call a provider.
pub data Provider : Type 0 where
  resend fast2sms fcm : Provider

unfoldable pub handle_by : {R : Type 0} → Env → Provider → HandlerFunc R
handle_by env resend = handle_email env
handle_by env fast2sms = handle_sms env
handle_by env fcm = handle_push env

-- What the provider is asked to deliver.
unfoldable pub request_of : Provider → Message → Sent
request_of resend m = record {
  channel = email;
  to = m.recipient_email;
  subject = m.subject;
  body = m.body;
}
request_of fast2sms m = record {
  channel = sms;
  to = m.recipient_phone;
  subject = "";
  body = m.body;
}
request_of fcm m = record {
  channel = push;
  to = m.recipient_token;
  subject = m.subject;
  body = m.body;
}

dlq_reason_nonempty : (msg : Message) → str_eq (dlq_reason msg) "" ≡ false
unfolding dlq_reason
dlq_reason_nonempty msg = elim (Bool-cases (str_eq msg.last_error "")) [
  | inl e ↦ rw e refl
  | inr e ↦ rw e e
]

dlq_reason_last :
    (msg : Message) → (str_eq msg.last_error "" ≡ true) ⊎ (dlq_reason msg ≡ msg.last_error)
unfolding dlq_reason
dlq_reason_last msg = elim (Bool-cases (str_eq msg.last_error "")) [
  | inl e ↦ inl e
  | inr e ↦ inr (rw e refl)
]

module _ {R : Type 0} (env : Env) where
  -- The update of the delivery's row meets no fault.
  pub mark_delivered_row :
      (msg : Message) (w : World R)
      → env.fault w.calls ≡ none
      → any (λ (d : NotificationDelivery). d.id == msg.delivery_id) w.tables.deliveries ≡ true
      → (mark_delivered env msg w).1.tables.deliveries
        ≡ update_where
            (λ (d : NotificationDelivery). d.id == msg.delivery_id)
            (record_attempt delivered "" (env.clock w.calls))
            w.tables.deliveries
  unfolding mark_delivered Deliveries.update_status
  mark_delivered_row msg w f h = ground arith

  -- A channel handler that returns nil has handed exactly one request to its provider, to a
  -- recipient that is not empty, and has published nothing.
  handle_by_ok :
      (c : Provider) (msg : Message) (w : World R)
      → (handle_by env c msg w).0 ≡ ok tt
      → ((handle_by env c msg w).1.provided ≡ request_of c msg ∷ w.provided)
        × (str_eq (request_of c msg).to "" ≡ false)
        × ((handle_by env c msg w).1.published ≡ w.published)
  unfolding handle_by request_of handle_email handle_sms handle_push Deliveries.update_status
  handle_by_ok resend msg w h = ground arith
  handle_by_ok fast2sms msg w h = ground arith
  handle_by_ok fcm msg w h = ground arith

  -- A channel handler that returns an error has handed nothing to its provider, has changed no
  -- table and has published nothing, so that the retry starts from the same state.
  handle_by_err :
      (c : Provider) (msg : Message) (w : World R) {e : Error}
      → (handle_by env c msg w).0 ≡ err e
      → ((handle_by env c msg w).1.provided ≡ w.provided)
        × ((handle_by env c msg w).1.tables ≡ w.tables)
        × ((handle_by env c msg w).1.published ≡ w.published)
  unfolding handle_by request_of handle_email handle_sms handle_push Deliveries.update_status
  handle_by_err resend msg w h = ground arith
  handle_by_err fast2sms msg w h = ground arith
  handle_by_err fcm msg w h = ground arith

  -- A DLQ handler that returns nil has added exactly one DLQ row for the notification, whose
  -- error text is not empty and is the message's last error where that is not empty.
  handle_dlq_ok :
      (msg : Message) (w : World R)
      → (handle_dlq env msg w).0 ≡ ok tt
      → (row : DlqMessage) × ((handle_dlq env msg w).1.tables.dlq_messages
          ≡ w.tables.dlq_messages ++ row ∷ [])
        × (row.notification_id ≡ msg.notification_id)
        × (str_eq row.error "" ≡ false)
        × ((str_eq msg.last_error "" ≡ true) ⊎ (row.error ≡ msg.last_error))
  unfolding handle_dlq Reports.create_dlq Deliveries.update_status Notifications.update_status
  handle_dlq_ok msg w h = (
    record {
      id = env.fresh w.calls;
      notification_id = msg.notification_id;
      channel = msg.channel;
      error = dlq_reason msg;
      attempts = 3;
      last_tried_at = env.clock w.calls;
      created_at = env.clock w.calls;
    },
    ground arith,
    refl,
    dlq_reason_nonempty msg,
    dlq_reason_last msg,
  )
