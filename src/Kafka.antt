-- ===== src/Kafka.antt =====
-- backend/internal/kafka/producer/producer.go. Kafka is not part of the repository: a write that
-- it acknowledges adds the message to the world's `published`, the newest first. The JSON form
-- of a message always exists, since its metadata came from JSON.

pub mod Consumers
use notifyx.Prelude.{String, ◌<>◌, ◌∷◌, ok}
use notifyx.Domain.{
  Topic, topic_email, topic_push, topic_sms, topic_inapp, topic_dlq, Message, Notification,
  NotificationDelivery,
}
use notifyx.Postgres.{Env, Io, call, wrapping, ◌>>◌}

topic_text : Topic → String
topic_text topic_email = "notifyx.email"
topic_text topic_push = "notifyx.push"
topic_text topic_sms = "notifyx.sms"
topic_text topic_inapp = "notifyx.inapp"
topic_text topic_dlq = "notifyx.dlq"

unfoldable pub publish : {R : Type 0} → Env → Topic → Message → Io R (Unit {0})
unfolding call topic_text
publish env topic msg = do
  wrapping ("write kafka message to " <> topic_text topic) (call env)
  λ w. (ok tt, record w { published = (topic, msg) ∷ w.published })

-- The message of a notification and its delivery row, as the replayer and the scheduler build it.
unfoldable pub message_for : Notification → NotificationDelivery → Message
message_for n d = record {
  notification_id = n.id;
  delivery_id = d.id;
  tenant_id = n.tenant_id;
  channel = n.channel;
  priority = n.priority;
  recipient_id = n.recipient_id;
  recipient_email = n.recipient_email;
  recipient_phone = n.recipient_phone;
  recipient_token = n.recipient_token;
  subject = n.subject;
  body = n.body;
  metadata = n.metadata;
  last_error = "";
}
