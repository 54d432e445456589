-- ===== src/Tests/Schedules.antt =====
-- A scheduled notification, with and without a fault of its last insert.
use notifyx.Prelude.{
  String, ◌≡◌, refl, true, Option, none, some, [], ◌∷◌, any, find, str_eq, if◌then◌else◌,
}
use notifyx.Domain.{
  Uuid, Time, email, normal, pending, Notification, NotificationDelivery, to_channel, channel_eq,
}
use notifyx.Postgres.{World, with_tx}
use notifyx.Postgres.Notifications
use notifyx.Postgres.Notifications.{new_row}
use notifyx.Postgres.Deliveries
use notifyx.Postgres.Scheduled
use notifyx.Handlers.Requests.{
  ScheduleNotificationRequest, priority_or_normal, validate_send, validate_schedule,
}
use notifyx.Handlers.Response.{
  responds, err_response, scheduled_body, schedule_failed, status_created,
  status_internal_server_error,
}
use notifyx.Handlers.Pipeline.{NotificationService, create_and_queue, queue_body}
use notifyx.Handlers.Notifications.{
  answer_schedule, new_uuid, send_params, schedule, tenant_id, require_enabled, content,
}
use notifyx.Handlers.Notifications.Schedules.{answer_schedule_half}
use notifyx.Handlers.Notifications.Scheduling.{ScheduledFor, schedule_created}
use notifyx.Postgres.Settings
use notifyx.Postgres.Settings.{enabled_in}
use notifyx.Tests.{calm, acme, failing_at, request, tenant_tables, world_of}

abbrev service : NotificationService (Unit {0})
service = record { producer = true; rate_limiter = none; dedup = none }

abbrev no_uuid : String → Option Uuid
no_uuid s = none

abbrev no_time : String → Option Time
no_time s = none

abbrev begin : World (Unit {0})
begin = world_of tenant_tables tt

abbrev own_content : Option Uuid × String × String
own_content = (none, "hi", "text")

abbrev later_notification : Notification
later_notification = record {
  id = 50;
  tenant_id = 7;
  channel = email;
  priority = normal;
  status = pending;
  recipient_id = "";
  recipient_email = "a@b.c";
  recipient_phone = "";
  recipient_token = "";
  template_id = none;
  subject = "hi";
  body = "text";
  metadata = some "{}";
  idempotency_key = "order-1";
  scheduled_at = some 9000;
  created_at = 1002;
  expires_at = 7776000000001002;
}

abbrev later_delivery : NotificationDelivery
later_delivery = record {
  id = 53;
  notification_id = 50;
  channel = email;
  status = pending;
  attempts = 0;
  error_message = "";
  delivered_at = none;
  created_at = 1003;
}

-- The one text that is a time.
abbrev clock_text : String → Option Time
clock_text s = if str_eq s "t" then some 9000 else none

abbrev later_request : ScheduleNotificationRequest
later_request = record { send = request; scheduled_at = "t" }

schedule_created_example :
    (validate_schedule clock_text (calm.clock begin.calls) later_request ≡ none)
    × (enabled_in begin.tables.tenant_channels 7 (to_channel "email") ≡ true)
    × ScheduledFor calm service no_uuid clock_text acme later_request begin
        (schedule calm service no_uuid clock_text (some acme) (some later_request) begin).1
unfolding schedule validate_schedule validate_send tenant_id require_enabled content
    Settings.is_enabled channel_eq answer_schedule new_uuid send_params priority_or_normal
    to_channel create_and_queue with_tx queue_body Notifications.create Deliveries.create
    Scheduled.create new_row any find
schedule_created_example =
    schedule_created calm service no_uuid clock_text acme later_request begin
      {res = record { status = status_created; body = scheduled_body 51 pending 9000 }} refl refl

answer_schedule_half_example :
    ((answer_schedule (failing_at 5) service no_uuid no_time 7 request 9000 own_content begin).0
      ≡ responds (err_response status_internal_server_error schedule_failed))
    × ((answer_schedule
          (failing_at 5)
          service
          no_uuid
          no_time
          7
          request
          9000
          own_content
          begin).1.tables
        ≡ record tenant_tables {
          notifications = later_notification ∷ [];
          deliveries = later_delivery ∷ [];
        })
    × (later_notification.status ≡ pending)
    × ((answer_schedule
          (failing_at 5)
          service
          no_uuid
          no_time
          7
          request
          9000
          own_content
          begin).1.published
        ≡ [])
unfolding send_params priority_or_normal to_channel create_and_queue with_tx queue_body
    Notifications.create Deliveries.create new_row any
answer_schedule_half_example =
    answer_schedule_half (failing_at 5) service no_uuid no_time 7 request 9000 own_content "down"
      begin {n = later_notification} {d = later_delivery} refl refl
