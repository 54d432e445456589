-- ===== src/System/Consumption.antt =====
-- The consumers of backend/internal/kafka/consumers as runs of repository writes.
use notifyx.Prelude.{
  String, ◌≡◌, ◌∙◌, Option, none, some, arith, Result-cases, inl, inr, ◌⊎◌, Bool-cases,
}
use notifyx.Domain.{Uuid, email, sms, push, Message, queued, delivered, failed}
use notifyx.Postgres.{Env, World, Sent}
use notifyx.Postgres.Deliveries
use notifyx.Postgres.Reports
use notifyx.Postgres.References.Runs.{
  Run, done, then_write, update_status, set_status, update_delivery, create_dlq,
}
use notifyx.Kafka.Consumers.Channels.{
  Notifier, Pusher, inapp_payload, handle_inapp, offline, mark_delivered, handle_dlq, dlq_reason,
  handle_email, handle_sms, handle_push, provide,
}
use notifyx.Kafka.Consumers.Channels.Outcomes.{Provider, resend, fast2sms, fcm, handle_by}
use notifyx.System.Upkeep.{Runs, reading, either}

module _ {R : Type 0} (env : Env) where
  marked : Message → World R → World R
  marked msg w = (mark_delivered env msg w).1

  -- A handler that leaves the tables, or marks the delivery where they are the same.
  marking :
      (msg : Message) (w1 : World R) {w w2 : World R}
      → w1.tables ≡ w.tables
      → (w2.tables ≡ w.tables) ⊎ (w2.tables ≡ (marked msg w1).tables)
      → Run env w w2
  unfolding marked mark_delivered
  marking msg w1 same o =
      either env (then_write (reading env done same) (update_delivery msg.delivery_id delivered ""))
        o

  after : Sent → World R → World R
  after s w = (provide env s w).1

  after-tables : (s : Sent) (w : World R) → (after s w).tables ≡ w.tables
  unfolding after provide
  after-tables s w = ground arith

  pub handle_by-Runs : (c : Provider) (msg : Message) → Runs {R = R} env (handle_by env c msg)
  unfolding handle_by handle_email handle_sms handle_push marked after
  handle_by-Runs resend msg w =
      let s : Sent = record {
        channel = email;
        to = msg.recipient_email;
        subject = msg.subject;
        body = msg.body;
      } in
      marking msg (after s w) (after-tables s w) (ground (arith, after-tables s w))
  handle_by-Runs fast2sms msg w =
      let s : Sent = record {
        channel = sms;
        to = msg.recipient_phone;
        subject = "";
        body = msg.body;
      } in
      marking msg (after s w) (after-tables s w) (ground (arith, after-tables s w))
  handle_by-Runs fcm msg w =
      let s : Sent = record {
        channel = push;
        to = msg.recipient_token;
        subject = msg.subject;
        body = msg.body;
      } in
      marking msg (after s w) (after-tables s w) (ground (arith, after-tables s w))

  pub handle_dlq-Runs : (msg : Message) → Runs {R = R} env (handle_dlq env msg)
  unfolding handle_dlq
  handle_dlq-Runs msg w = elim (Result-cases (Reports.create_dlq env msg (dlq_reason msg) w).0) [
    | inr (x, e) ↦ reading env (then_write done (create_dlq msg (dlq_reason msg))) (ground arith)
    | inl (u, e) ↦
        reading env
          (then_write
            (then_write (then_write done (create_dlq msg (dlq_reason msg)))
              (update_delivery msg.delivery_id failed (dlq_reason msg)))
            (update_status msg.notification_id failed))
          (ground arith)
  ]

  pub handle_inapp-Runs :
      (uuid_text : Uuid → String) (hub : Notifier R) (queue : Option (Pusher R)) (msg : Message)
      → Runs env (handle_inapp env uuid_text hub queue msg)
  unfolding handle_inapp offline marked
  handle_inapp-Runs uuid_text hub none msg w =
      let payload = inapp_payload env uuid_text msg w in
      let told : World R =
        (hub.send_to_user (uuid_text msg.tenant_id) msg.recipient_id payload w).1 in
      let same : told.tables ≡ w.tables =
        hub.send-tables (uuid_text msg.tenant_id) msg.recipient_id payload w in
      marking msg told same (ground (arith, same))
  handle_inapp-Runs uuid_text hub (some q) msg w =
      let payload = inapp_payload env uuid_text msg w in
      let told : World R =
        (hub.send_to_user (uuid_text msg.tenant_id) msg.recipient_id payload w).1 in
      let same : told.tables ≡ w.tables =
        hub.send-tables (uuid_text msg.tenant_id) msg.recipient_id payload w in
      let pushed : World R =
        (q.push_to (uuid_text msg.tenant_id) msg.recipient_id payload told).1 in
      let kept : pushed.tables ≡ told.tables =
        q.push-tables (uuid_text msg.tenant_id) msg.recipient_id payload told in
      elim (Bool-cases (hub.send_to_user (uuid_text msg.tenant_id) msg.recipient_id payload w).0) [
        | inl e ↦ marking msg told same (ground (arith, same))
        | inr e ↦
            let told_later : Run env w (Deliveries.set_status env msg.delivery_id queued pushed).1 =
              then_write (reading env done (kept ∙ same)) (set_status msg.delivery_id queued) in
            either env told_later (ground (arith, same, kept))
      ]
