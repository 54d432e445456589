-- ===== src/System/Deliverable.antt =====
-- From a validated request to the consumer of its channel.
use notifyx.Prelude.{
  String, Option, ◌≡◌, ap, sym, ◌&&◌, some, none, ◌∷◌, arith, ok, length, Bool-cases, inl, inr,
}
use notifyx.Handlers.Response.{responds, sent_body, status_created}
use notifyx.Kafka.{message_for}
use notifyx.Handlers.Pipeline.{NotificationService}
use notifyx.Handlers.Notifications.{send}
use notifyx.Handlers.Notifications.Sends.{send_created}
use notifyx.Domain.{
  Uuid, Time, Tenant, Status, Topic, topic_for_channel, Channel, email, sms, push, to_channel,
  Message,
}
use notifyx.Postgres.{World, Env}
use notifyx.Postgres.Deliveries
use notifyx.Kafka.Consumers.Channels.{handle_email, handle_sms, handle_push}
use notifyx.Kafka.Consumers.Channels.Outcomes.{Provider, resend, fast2sms, fcm, handle_by}
use notifyx.Handlers.Requests.{SendNotificationRequest, validate_send, validate_recipient_fields}

-- The channel whose consumer calls the provider.
abbrev pub channel_of : Provider → Channel
channel_of resend = email
channel_of fast2sms = sms
channel_of fcm = push

-- The message is addressed as the request is.
record Addressed (r : SendNotificationRequest) (m : Message) : Type 0 where
  pub address : m.recipient_email ≡ r.recipient_email
  pub phone : m.recipient_phone ≡ r.recipient_phone
  pub token : m.recipient_token ≡ r.recipient_token

module _ {R : Type 0} (env : Env) where
  -- A message that is addressed as a valid request for the channel is handled without an error, where
  -- the provider's call does not fail.
  handle_by_validated :
      (c : Provider) (r : SendNotificationRequest) (m : Message) (w : World R)
      → validate_send r ≡ none
      → to_channel r.channel ≡ channel_of c
      → Addressed r m
      → env.fault w.calls ≡ none
      → (handle_by env c m w).0 ≡ ok tt
  unfolding handle_by handle_email handle_sms handle_push Deliveries.update_status validate_send
      validate_recipient_fields
  handle_by_validated resend r m w v e a f = ground (arith, a.address)
  handle_by_validated fast2sms r m w v e a f = ground (arith, a.phone)
  handle_by_validated fcm r m w v e a f = ground (arith, a.token)

  -- A Send of an email, SMS or push request with status 201, and the message that it published:
  -- the message goes to the topic of the request's channel, and whenever the channel's consumer takes
  -- it, it handles it without an error, where the provider's call does not fail.
  pub handle_by-send :
      (svc : NotificationService R) (parse_uuid : String → Option Uuid)
      (parse_time : String → Option Time) (c : Provider) (t : Tenant) (r : SendNotificationRequest)
      (w : World R) {i : Uuid} {s : Status} (topic : Topic) (m : Message) (w' : World R)
      → (send env svc parse_uuid parse_time (some t) (some r) w).0
        ≡ responds (record { status = status_created; body = sent_body i s })
      → to_channel r.channel ≡ channel_of c
      → (send env svc parse_uuid parse_time (some t) (some r) w).1.published
        ≡ (topic, m) ∷ w.published
      → env.fault w'.calls ≡ none
      → (topic ≡ topic_for_channel (channel_of c)) × ((handle_by env c m w').0 ≡ ok tt)
  handle_by-send svc parse_uuid parse_time c t r w {i} {s} topic m w' h e p f =
      let (valid, enabled, z) =
        send_created env svc parse_uuid parse_time t r w {i = i} {s = s} h in
      elim (Bool-cases (z.publishes && svc.producer)) [
        | inr b ↦ absurd (
            let same : (topic, m) ∷ w.published ≡ w.published =
              ground (arith, sym p, z.published) in
            let long = ap length same in omega (arith, long))
        | inl b ↦
            let both : (topic, m) ∷ w.published
                ≡ (
                  topic_for_channel (to_channel r.channel),
                  record (message_for z.n z.d) { metadata = r.metadata },
                )
                  ∷ w.published =
              ground (arith, p, z.published) in
            let head : m ≡ record (message_for z.n z.d) { metadata = r.metadata } =
              ground (arith, both) in
            let addressed : Addressed r m = record {
              address = unfold message_for in ground (arith, head, z.of_request);
              phone = unfold message_for in ground (arith, head, z.of_request);
              token = unfold message_for in ground (arith, head, z.of_request);
            } in
            (ground (arith, both, e), handle_by_validated c r m w' valid e addressed f)
      ]
