-- ===== src/Tests/Systems.antt =====
-- The whole backend on a concrete run.
use notifyx.Prelude.{
  String, ◌≡◌, refl, true, Option, none, find, select, update_where, order_by, insert_by, ok, any,
}
use notifyx.Domain.{
  Uuid, Time, AnalyticsSummary, Message, topic_email, email, to_channel, channel_eq,
  topic_for_channel, pending, status_eq,
}
use notifyx.Postgres.{World}
use notifyx.Postgres.Reports
use notifyx.Postgres.Reports.{summary_of, in_period, count_where}
use notifyx.Postgres.Notifications
use notifyx.Postgres.Deliveries
use notifyx.Postgres.Scheduled
use notifyx.Kafka.{publish, message_for}
use notifyx.Kafka.Consumers.Channels.{handle_email, mark_delivered}
use notifyx.Kafka.Consumers.Channels.Outcomes.{resend, handle_by}
use notifyx.Handlers.Requests.{validate_send}
use notifyx.Handlers.Requests.{priority_or_normal}
use notifyx.Postgres.{with_tx}
use notifyx.Postgres.Notifications.{new_row}
use notifyx.Postgres.Settings
use notifyx.Handlers.Pipeline.{
  NotificationService, process_send, create_and_queue, queue_body, limit_and_finish, finish_send,
}
use notifyx.Handlers.Notifications.{
  send, tenant_id, require_enabled, content, new_uuid, send_params, answer_send,
}
use notifyx.Scheduler.{
  first_delivery, fire_one, fire_all, publish_and_mark, mark_published, tick_once,
}
use notifyx.System.Lifecycle.{Reach, start, next, ticks, delivers, summary-delivers_none}
use notifyx.System.Deliverable.{handle_by-send}
use notifyx.Tests.{calm, acme, mail, request, tables_with, world_of}

abbrev service : NotificationService (Unit {0})
service = record { producer = true; rate_limiter = none; dedup = none }

abbrev no_uuid : String → Option Uuid
no_uuid s = none

abbrev no_time : String → Option Time
no_time s = none

abbrev before : World (Unit {0})
before = world_of (tables_with pending) tt

-- The scheduler publishes the notification, and the email consumer delivers it.
abbrev after : World (Unit {0})
after = (handle_by calm resend mail (tick_once calm true before)).1

abbrev run : Reach calm service no_uuid no_time before after
run = next (next start (ticks true)) (delivers resend mail)

abbrev report : AnalyticsSummary
report = record { total_sent = 1; total_delivered = 0; total_failed = 0 }

summary-delivers_none_example : report.total_delivered ≡ 0
unfolding status_eq tick_once fire_all fire_one publish_and_mark mark_published first_delivery
    publish handle_by handle_email mark_delivered Scheduled.get_due_unfired Scheduled.mark_fired
    Notifications.get_by_id Notifications.update_status Deliveries.get_by_notification_id
    Deliveries.set_status Deliveries.update_status Reports.summary summary_of in_period count_where
    find select update_where order_by insert_by any
summary-delivers_none_example =
    summary-delivers_none calm service no_uuid no_time before after 7 0 5000 {s = report} (refl, tt)
      run refl

-- What the request is published as.
abbrev published_mail : Message
published_mail = record mail { notification_id = 51; delivery_id = 54; metadata = none }

handle_by-send_example :
    (topic_email ≡ topic_for_channel email)
    × ((handle_by calm resend published_mail before).0 ≡ ok tt)
unfolding send validate_send tenant_id require_enabled content new_uuid send_params answer_send
    process_send limit_and_finish finish_send create_and_queue with_tx queue_body
    Notifications.create Deliveries.create Settings.is_enabled channel_eq priority_or_normal
    to_channel new_row any find publish message_for topic_for_channel
handle_by-send_example =
    handle_by-send calm service no_uuid no_time resend acme request before {i = 51} {s = pending}
      topic_email published_mail before refl refl refl refl
