-- ===== src/Tests/Sends.antt =====
-- The send pipeline and the handlers on concrete requests.
use notifyx.Prelude.{
  String, ◌≡◌, refl, true, Option, none, some, [], ◌∷◌, err, message, All, any, select, order_by,
  insert_by, arith, find, ◌≢◌,
}
use notifyx.Domain.{
  Uuid, Time, Tenant, topic_for_channel, to_channel, channel_eq, email, pending, normal,
  Notification, NotificationDelivery,
}
use notifyx.Redis.MemoryStrings.{MemoryStrings, memory_strings, empty_strings}
use notifyx.Dedup.{Deduplicator}
use notifyx.Dedup
use notifyx.Postgres.{Env, World, with_tx}
use notifyx.Postgres.Notifications
use notifyx.Postgres.Notifications.{CreateNotificationParams, has_id, new_row}
use notifyx.Postgres.Deliveries
use notifyx.Postgres.Settings
use notifyx.Postgres.Settings.{enabled_in}
use notifyx.Kafka.{publish}
use notifyx.Handlers.Response.{
  panics, responds, err_response, status_not_found, notification_not_found, missing_tenant,
  status_internal_server_error,
}
use notifyx.Handlers.Requests.{BatchSendRequest, validate_send, validate_batch}
use notifyx.Handlers.Pipeline.{
  sent, sent_message, NotificationService, create_and_queue, queue_body, process_send,
  limit_and_finish, finish_send,
}
use notifyx.Handlers.Pipeline.Persisting.{create_and_queue-commit_fails}
use notifyx.Handlers.Pipeline.Sent.{SentRight, process_send-SentRight}
use notifyx.Handlers.Notifications.Sends.{SentFor, send_created}
use notifyx.Handlers.Notifications.Reads.{get_isolated, get_shows}
use notifyx.Handlers.Notifications.Tenantless.{panics_without_tenant}
use notifyx.Handlers.Pipeline.Foreign.{process_send_foreign}
use notifyx.Handlers.Wiring.{deduplicated_by}
use notifyx.Tests.Uuids.{count_of, counted}
use notifyx.Handlers.Notifications.{
  send, batch, get, require_tenant, tenant_id, require_enabled, content, new_uuid, send_params,
  answer_send,
}
use notifyx.Tests.{
  request, calm, failing_at, acme, tenant_tables, tables_with, held, held_delivery, world_of,
}

abbrev keys : Deduplicator MemoryStrings
keys = record { strings = memory_strings; uuids = counted; digest = λ s. s; ttl = 86400000000000 }

-- Kafka and dedup are configured, in an environment.
abbrev service : Env → NotificationService MemoryStrings
service env = record {
  producer = true;
  rate_limiter = none;
  dedup = some (deduplicated_by env keys);
}

abbrev start : World MemoryStrings
start = world_of tenant_tables empty_strings

abbrev params : CreateNotificationParams
params = record {
  id = 9;
  tenant_id = 7;
  channel = email;
  priority = normal;
  status = none;
  recipient_id = "";
  recipient_email = "a@b.c";
  recipient_phone = "";
  recipient_token = "";
  template_id = none;
  subject = "hi";
  body = "text";
  metadata = none;
  idempotency_key = "";
  scheduled_at = none;
}

process_send-SentRight_example :
    SentRight calm
      (service calm)
      "order-1"
      params
      start
      (process_send calm (service calm) "order-1" params start)
process_send-SentRight_example = process_send-SentRight calm (service calm) "order-1" params start

abbrev pending_params : CreateNotificationParams
pending_params = record params { status = some pending }

abbrev new_notification : Notification
new_notification = record {
  id = 9;
  tenant_id = 7;
  channel = email;
  priority = normal;
  status = pending;
  recipient_id = "";
  recipient_email = "a@b.c";
  recipient_phone = "";
  recipient_token = "";
  template_id = none;
  subject = "hi";
  body = "text";
  metadata = some "{}";
  idempotency_key = "";
  scheduled_at = none;
  created_at = 1001;
  expires_at = 7776000000001001;
}

abbrev new_delivery : NotificationDelivery
new_delivery = record {
  id = 52;
  notification_id = 9;
  channel = email;
  status = pending;
  attempts = 0;
  error_message = "";
  delivered_at = none;
  created_at = 1002;
}

-- The commit is the call after begin, two inserts and the publish.
create_and_queue-commit_fails_example :
    ((create_and_queue (failing_at 4) (service (failing_at 4)) pending_params true start).0
      ≡ err (message "down"))
    × ((create_and_queue (failing_at 4) (service (failing_at 4)) pending_params true start).1.tables
        ≡ tenant_tables)
    × ((create_and_queue
          (failing_at 4)
          (service (failing_at 4))
          pending_params
          true
          start).1.published
        ≡ (topic_for_channel email, sent_message pending_params new_notification new_delivery) ∷ [])
unfolding queue_body Notifications.create Deliveries.create new_row any find publish
create_and_queue-commit_fails_example =
    create_and_queue-commit_fails (failing_at 4) (service (failing_at 4)) pending_params pending
      start "down" {n = new_notification} {d = new_delivery} refl refl refl refl refl

abbrev parse_uuid : String → Option Uuid
parse_uuid s = some (count_of s)

abbrev parse_40 : String → Option Uuid
parse_40 s = some 40

abbrev no_time : String → Option Time
no_time s = none

send_created_example :
    (validate_send request ≡ none)
    × (enabled_in start.tables.tenant_channels 7 (to_channel "email") ≡ true)
    × SentFor calm
        (service calm)
        parse_uuid
        acme
        request
        start
        (send calm (service calm) parse_uuid no_time (some acme) (some request) start).1
        51
        pending
unfolding send validate_send tenant_id require_enabled content new_uuid send_params answer_send
    process_send limit_and_finish finish_send create_and_queue Dedup.reserve with_tx queue_body
    Notifications.create Deliveries.create new_row any find publish Settings.is_enabled channel_eq
send_created_example =
    send_created calm (service calm) parse_uuid no_time acme request start {i = 51} {s = pending}
      refl

abbrev stored : World MemoryStrings
stored = world_of (tables_with pending) empty_strings

abbrev globex : Tenant
globex = record { id = 8; name = "globex"; global_rate_cap = 100; created_at = 0 }

get_isolated_example :
    (get calm (service calm) parse_40 no_time (some globex) "40" stored).0
    ≡ responds (err_response status_not_found notification_not_found)
unfolding find has_id
get_isolated_example =
    get_isolated calm (service calm) parse_40 no_time globex "40" 40 stored refl refl other_owner
  where
    other_owner :
        (n : Notification)
        → find (has_id 40) stored.tables.notifications ≡ some n
        → n.tenant_id ≢ globex.id
    other_owner n e f = ground arith

get_shows_example :
    ((held pending).tenant_id ≡ acme.id)
    × (parse_40 "40" ≡ some 40)
    × (find (has_id 40) stored.tables.notifications ≡ some (held pending))
    × All (λ d. d.notification_id ≡ 40) (held_delivery pending ∷ [])
unfolding get tenant_id Notifications.get_by_id Deliveries.get_by_notification_id has_id find select
    order_by insert_by
get_shows_example =
    get_shows calm (service calm) parse_40 no_time acme "40" stored {n = held pending}
      {rows = held_delivery pending ∷ []} refl

abbrev many : BatchSendRequest
many = record {
  channel = "email";
  priority = "high";
  template_id = "";
  variables = [];
  subject = "hi";
  body = "text";
  metadata = none;
  recipients =
      record {
        recipient_id = "";
        recipient_email = "a@b.c";
        recipient_phone = "";
        recipient_token = "";
      }
      ∷ [];
  idempotency_key = "";
}

panics_without_tenant_example :
    ((require_tenant none).tenant ≡ none)
    × ((require_tenant none).error ≡ none)
    × ((require_tenant none).written
        ≡ some (err_response status_internal_server_error missing_tenant))
    × ((send calm (service calm) parse_40 no_time none (some request) stored).0 ≡ panics)
    × ((batch calm (service calm) parse_40 no_time none (some many) stored).0 ≡ panics)
    × ((get calm (service calm) parse_40 no_time none "40" stored).0 ≡ panics)
unfolding validate_send validate_batch find has_id
panics_without_tenant_example =
    panics_without_tenant calm (service calm) parse_40 no_time request many "40" 40 (held pending)
      stored refl refl refl refl refl

-- globex sends with the key that acme has just used.
abbrev after_first : World MemoryStrings
after_first = (process_send calm (service calm) "order-1" params start).1

process_send_foreign_example :
    (n : Notification) × (find (has_id 9) after_first.tables.notifications ≡ some n)
    × (n.tenant_id ≢ 8)
    × ((process_send calm
          (service calm)
          "order-1"
          (record params { id = 10; tenant_id = 8 })
          after_first).0
        ≡ sent n.id n.status true)
    × ((process_send calm
          (service calm)
          "order-1"
          (record params { id = 10; tenant_id = 8 })
          after_first).1.tables
        ≡ after_first.tables)
    × ((process_send calm
          (service calm)
          "order-1"
          (record params { id = 10; tenant_id = 8 })
          after_first).1.published
        ≡ after_first.published)
unfolding process_send limit_and_finish finish_send create_and_queue Dedup.reserve with_tx
    queue_body Notifications.create Deliveries.create new_row any find publish has_id
process_send_foreign_example =
    process_send_foreign calm (service calm) keys "order-1" params
      (record params { id = 10; tenant_id = 8 }) start {i = 9} {s = pending} refl tt refl
      (omega arith) refl refl refl refl (λ e. ground (arith, e))
