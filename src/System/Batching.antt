-- ===== src/System/Batching.antt =====
-- Schedule and Batch and the status `delivered`: their steps, put together.
use notifyx.Prelude.{String, Option}
use notifyx.Domain.{Uuid, Time, to_channel, Tenant}
use notifyx.Postgres.{World, Env}
use notifyx.Handlers.Response.{◌>>=◌ as ◌then◌}
use notifyx.Handlers.Response.{
  Handler, err_response, status_bad_request, invalid_body, Response, require, accept,
}
use notifyx.Handlers.Requests.{
  validate_batch, validate_schedule, BatchSendRequest, ScheduleNotificationRequest,
}
use notifyx.Handlers.Pipeline.{NotificationService}
use notifyx.Handlers.Notifications.{
  require_enabled, content, answer_batch, answer_schedule, tenant_id, batch, schedule,
}
use notifyx.System.Keeping.{Keeps, then-Keeps}
use notifyx.System.Sending.{
  require-Keeps, accept-Keeps, tenant_id-Keeps, require_enabled-Keeps, content-Keeps,
  answer_batch-Keeps, answer_schedule-Keeps, validated-Keeps,
}

module _ {R : Type 0} (env : Env) (svc : NotificationService R) (parse_uuid : String → Option Uuid)
    (parse_time : String → Option Time) where
  abbrev schedule_content :
      ScheduleNotificationRequest → Time → Uuid → Unit {0} → Handler R Response
  schedule_content q at owner u =
      content env svc parse_uuid parse_time owner q.send.template_id (to_channel q.send.channel)
        q.send.variables q.send.subject q.send.body
      then answer_schedule env svc parse_uuid parse_time owner q.send at

  schedule_content-Keeps :
      (q : ScheduleNotificationRequest) (at : Time) (owner : Uuid) (u : Unit {0})
      → Keeps (schedule_content q at owner u)
  schedule_content-Keeps q at owner u =
      then-Keeps {B = Response}
        (content env svc parse_uuid parse_time owner q.send.template_id (to_channel q.send.channel)
          q.send.variables q.send.subject q.send.body)
        (answer_schedule env svc parse_uuid parse_time owner q.send at)
        (content-Keeps env svc parse_uuid parse_time owner q.send.template_id
          (to_channel q.send.channel) q.send.variables q.send.subject q.send.body)
        (answer_schedule-Keeps env svc parse_uuid parse_time owner q.send at)

  abbrev schedule_for : ScheduleNotificationRequest → Time → Uuid → Handler R Response
  schedule_for q at owner =
      require_enabled env svc parse_uuid parse_time owner q.send.channel
      then schedule_content q at owner

  schedule_for-Keeps :
      (q : ScheduleNotificationRequest) (at : Time) (owner : Uuid) → Keeps (schedule_for q at owner)
  schedule_for-Keeps q at owner =
      then-Keeps {B = Response} (require_enabled env svc parse_uuid parse_time owner q.send.channel)
        (schedule_content q at owner)
        (require_enabled-Keeps env svc parse_uuid parse_time owner q.send.channel)
        (schedule_content-Keeps q at owner)

  abbrev schedule_at : Option Tenant → ScheduleNotificationRequest → Time → Handler R Response
  schedule_at t q at = tenant_id t then schedule_for q at

  schedule_at-Keeps :
      (t : Option Tenant) (q : ScheduleNotificationRequest) (at : Time) → Keeps (schedule_at t q at)
  schedule_at-Keeps t q at =
      then-Keeps {B = Response} (tenant_id t) (schedule_for q at)
        (tenant_id-Keeps env svc parse_uuid parse_time t) (schedule_for-Keeps q at)

  abbrev schedule_checked :
      Option Tenant → ScheduleNotificationRequest → Unit {0} → Handler R Response
  schedule_checked t q u =
      require (parse_time q.scheduled_at) (err_response status_bad_request invalid_body)
      then schedule_at t q

  schedule_checked-Keeps :
      (t : Option Tenant) (q : ScheduleNotificationRequest) (u : Unit {0})
      → Keeps (schedule_checked t q u)
  schedule_checked-Keeps t q u =
      then-Keeps {B = Response}
        (require (parse_time q.scheduled_at) (err_response status_bad_request invalid_body))
        (schedule_at t q)
        (require-Keeps env svc parse_uuid parse_time (parse_time q.scheduled_at) _)
        (schedule_at-Keeps t q)

  abbrev schedule_bound : Option Tenant → ScheduleNotificationRequest → Handler R Response
  schedule_bound t q =
      (λ w. accept (validate_schedule parse_time (env.clock w.calls) q) w) then schedule_checked t q

  schedule_bound-Keeps :
      (t : Option Tenant) (q : ScheduleNotificationRequest) → Keeps (schedule_bound t q)
  schedule_bound-Keeps t q =
      then-Keeps {B = Response}
        (λ (w : World R). accept (validate_schedule parse_time (env.clock w.calls) q) w)
        (schedule_checked t q) (validated-Keeps env svc parse_uuid parse_time q)
        (schedule_checked-Keeps t q)

  pub schedule-Keeps :
      (t : Option Tenant) (o : Option ScheduleNotificationRequest)
      → Keeps (schedule env svc parse_uuid parse_time t o)
  unfolding schedule
  schedule-Keeps t o =
      then-Keeps {B = Response} (require o (err_response status_bad_request invalid_body))
        (schedule_bound t) (require-Keeps env svc parse_uuid parse_time o _)
        (schedule_bound-Keeps t)

  abbrev batch_content : BatchSendRequest → Uuid → Unit {0} → Handler R Response
  batch_content q owner u =
      content env svc parse_uuid parse_time owner q.template_id (to_channel q.channel) q.variables
        q.subject q.body
      then answer_batch env svc parse_uuid parse_time owner q

  batch_content-Keeps :
      (q : BatchSendRequest) (owner : Uuid) (u : Unit {0}) → Keeps (batch_content q owner u)
  batch_content-Keeps q owner u =
      then-Keeps {B = Response}
        (content env svc parse_uuid parse_time owner q.template_id (to_channel q.channel)
          q.variables q.subject q.body)
        (answer_batch env svc parse_uuid parse_time owner q)
        (content-Keeps env svc parse_uuid parse_time owner q.template_id (to_channel q.channel)
          q.variables q.subject q.body)
        (answer_batch-Keeps env svc parse_uuid parse_time owner q)

  abbrev batch_for : BatchSendRequest → Uuid → Handler R Response
  batch_for q owner =
      require_enabled env svc parse_uuid parse_time owner q.channel then batch_content q owner

  batch_for-Keeps : (q : BatchSendRequest) (owner : Uuid) → Keeps (batch_for q owner)
  batch_for-Keeps q owner =
      then-Keeps {B = Response} (require_enabled env svc parse_uuid parse_time owner q.channel)
        (batch_content q owner)
        (require_enabled-Keeps env svc parse_uuid parse_time owner q.channel)
        (batch_content-Keeps q owner)

  abbrev batch_checked : Option Tenant → BatchSendRequest → Unit {0} → Handler R Response
  batch_checked t q u = tenant_id t then batch_for q

  abbrev batch_bound : Option Tenant → BatchSendRequest → Handler R Response
  batch_bound t q = accept (validate_batch q) then batch_checked t q

  batch_bound-Keeps : (t : Option Tenant) (q : BatchSendRequest) → Keeps (batch_bound t q)
  batch_bound-Keeps t q =
      then-Keeps {B = Response} (accept (validate_batch q)) (batch_checked t q)
        (accept-Keeps env svc parse_uuid parse_time (validate_batch q))
        (λ u.
          then-Keeps {B = Response} (tenant_id t) (batch_for q)
            (tenant_id-Keeps env svc parse_uuid parse_time t) (batch_for-Keeps q))

  pub batch-Keeps :
      (t : Option Tenant) (o : Option BatchSendRequest)
      → Keeps (batch env svc parse_uuid parse_time t o)
  unfolding batch
  batch-Keeps t o =
      then-Keeps {B = Response} (require o (err_response status_bad_request invalid_body))
        (batch_bound t) (require-Keeps env svc parse_uuid parse_time o _) (batch_bound-Keeps t)
