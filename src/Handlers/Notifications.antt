-- ===== src/Handlers/Notifications.antt =====
-- The handlers Send, Schedule, Batch and Get of backend/internal/api/handlers/notification.go, and
-- RequireTenant of common.go. The recipients of a batch run in goroutines; here one after the other.
pub mod Access
pub mod Courses
pub mod Sends
pub mod Reads
pub mod Tenantless
pub mod Schedules
pub mod Scheduling
use notifyx.Prelude.{
  ℕ, zero, suc, ◌/◌, ◌%◌, String, ◌<>◌, Bool, true, false, not, Option, none, some, List, [], ◌∷◌,
  ltb, ◌==◌, Error, is_not_found, ok, err, if◌then◌else◌, str_eq,
}
use notifyx.Domain.{
  Uuid, Time, Channel, to_channel, channel_eq, pending, Priority, Tenant, Metadata,
  NotificationTemplate,
}
use notifyx.Postgres.{Env, World}
use notifyx.Postgres.Notifications
use notifyx.Postgres.Notifications.{CreateNotificationParams}
use notifyx.Postgres.Deliveries
use notifyx.Postgres.Scheduled
use notifyx.Postgres.Settings
use notifyx.Postgres.Templates
use notifyx.Template.{Vars, render}
use notifyx.Handlers.Response.{
  ErrorText, missing_tenant, internal_error, invalid_body, schedule_failed, verify_channel_failed,
  channel_disabled, invalid_template_id, template_not_found, resolve_template_failed,
  template_channel_mismatch, invalid_notification_id, notification_not_found,
  get_notification_failed, get_deliveries_failed, BatchResult, sent_body, scheduled_body,
  batch_body, detail_body, Response, err_response, status_ok, status_created, status_bad_request,
  status_forbidden, status_not_found, status_unprocessable_entity, status_internal_server_error,
  Flow, goes_on, responds, panics, Handler, respond, trying, unless, require, accept, ◌>>=◌, ◌>>◌,
}
use notifyx.Handlers.Requests.{
  SendNotificationRequest, ScheduleNotificationRequest, BatchRecipient, BatchSendRequest, is_blank,
  priority_or_normal, validate_send, validate_schedule, validate_batch,
}
use notifyx.Handlers.Pipeline.{
  NotificationService, Outcome, sent, refused, create_and_queue, process_send,
}

-- What RequireTenant returns, a tenant that may be nil and an error that may be nil, and the response
-- that it has written, if any.
pub record Required : Type 0 where
  pub tenant : Option Tenant
  pub error : Option Error
  pub written : Option Response

-- errResponse: the response is written, and the result of the write, nil, is returned.
abbrev pub written_error : Response → Option Error
written_error r = none

-- RequireTenant, on the tenant of the context.
abbrev pub require_tenant : Option Tenant → Required
require_tenant none =
    let r = err_response status_internal_server_error missing_tenant in
    record { tenant = none; error = written_error r; written = some r }
require_tenant (some t) = record { tenant = some t; error = none; written = none }

-- tenant.ID, which dereferences the pointer.
abbrev pub id_of : {R : Type 0} → Option Tenant → Handler R Uuid
id_of none w = (panics, w)
id_of (some t) w = (goes_on t.id, w)

-- `tenant, err := RequireTenant(c); if err != nil { return err }` and the first read of tenant.ID. An
-- error that the handler returns becomes echo's response with status 500. A handler calls
-- RequireTenant first of all; here it is called where the ID is read, which makes a difference only to
-- the answer to a request without a tenant that is refused before that.
unfoldable pub tenant_id : {R : Type 0} → Option Tenant → Handler R Uuid
tenant_id context w = elim (require_tenant context).error [
  | some e ↦ (responds (err_response status_internal_server_error internal_error), w)
  | none ↦ id_of (require_tenant context).tenant w
]

digit : ℕ → String
digit n =
    if n == 0
    then "0"
    else if n == 1
    then "1"
    else if n == 2
    then "2"
    else if n == 3
    then "3"
    else if n == 4
    then "4"
    else if n == 5
    then "5"
    else if n == 6
    then "6"
    else if n == 7
    then "7"
    else if n == 8
    then "8"
    else "9"

digits : ℕ → ℕ → String
unfolding digit
digits zero n = ""
digits (suc more) n =
    let rest = digits more (n / 10) in if ltb n 10 then digit n else rest <> digit (n % 10)

-- fmt.Sprintf("%d", n) of an int, which has at most 20 digits.
unfoldable pub decimal : ℕ → String
unfolding digits
decimal n = digits 20 n

-- The idempotency key of the recipient at position i of a batch.
unfoldable pub recipient_key : String → ℕ → String
unfolding decimal
recipient_key key i = if is_blank key then "" else key <> (":" <> decimal i)

module _ {R : Type 0} (env : Env) (svc : NotificationService R) (parse_uuid : String → Option Uuid)
    (parse_time : String → Option Time) where
  -- uuid.New()
  unfoldable pub new_uuid : Handler R Uuid
  new_uuid w = (goes_on (env.fresh w.calls), record w { calls = suc w.calls })

  -- The check of the channel: 500 if it fails and 403 if the channel is not enabled.
  unfoldable pub require_enabled : Uuid → String → Handler R (Unit {0})
  require_enabled tenant channel = do
    enabled ←
        trying (Settings.is_enabled env tenant (to_channel channel))
          (λ e. err_response status_internal_server_error verify_channel_failed)
    unless enabled (err_response status_forbidden (channel_disabled channel))

  -- resolveTemplate: the id, the subject and the body.
  unfoldable pub resolve_template :
      Uuid → String → Channel → Vars → Handler R (Uuid × String × String)
  resolve_template tenant text channel vars = do
    i ← require (parse_uuid text) (err_response status_bad_request invalid_template_id)
    t ← trying (Templates.get_by_id env tenant i) λ e.
        if is_not_found e
        then err_response status_not_found template_not_found
        else err_response status_internal_server_error resolve_template_failed
    unless (channel_eq t.channel channel)
        (err_response status_unprocessable_entity (template_channel_mismatch t.channel channel))
    λ w. (goes_on (t.id, render t.subject vars, render t.body vars), w)

  -- `if req.TemplateID != ""`: the template's id, subject and body, or the request's own.
  unfoldable pub content :
      Uuid → String → Channel → Vars → String → String → Handler R (Option Uuid × String × String)
  content tenant text channel vars subject body w =
      if is_blank text
      then (goes_on (none, subject, body), w)
      else (resolve_template tenant text channel vars >>= λ x w'.
            (goes_on (some x.0, x.1, x.2), w'))
          w

  -- The status of the answer to Send: 201, or 200 for a duplicate.
  unfoldable pub answer_send : Outcome × World R → Flow Response × World R
  answer_send (sent i s true, w) =
      (responds (record { status = status_ok; body = sent_body i s }), w)
  answer_send (sent i s false, w) =
      (responds (record { status = status_created; body = sent_body i s }), w)
  answer_send (refused text, w) = (responds (err_response status_internal_server_error text), w)

  -- The params that Send gives to processSend, from the new id, the tenant's and the content.
  unfoldable pub send_params :
      Uuid
      → Uuid
      → SendNotificationRequest
      → (Option Uuid × String × String)
      → CreateNotificationParams
  send_params i owner r x = record {
    id = i;
    tenant_id = owner;
    channel = to_channel r.channel;
    priority = priority_or_normal r.priority;
    status = none;
    recipient_id = r.recipient_id;
    recipient_email = r.recipient_email;
    recipient_phone = r.recipient_phone;
    recipient_token = r.recipient_token;
    template_id = x.0;
    subject = x.1;
    body = x.2;
    metadata = r.metadata;
    idempotency_key = "";
    scheduled_at = none;
  }

  unfoldable pub send : Option Tenant → Option SendNotificationRequest → Handler R Response
  send tenant body = do
    r ← require body (err_response status_bad_request invalid_body)
    accept (validate_send r)
    owner ← tenant_id tenant
    require_enabled owner r.channel
    x ← content owner r.template_id (to_channel r.channel) r.variables r.subject r.body
    i ← new_uuid
    λ w. answer_send (process_send env svc r.idempotency_key (send_params i owner r x) w)

  -- The end of Schedule: the notification and its delivery row in one transaction, unpublished,
  -- and then the schedule row.
  unfoldable pub answer_schedule :
      Uuid → SendNotificationRequest → Time → (Option Uuid × String × String) → Handler R Response
  answer_schedule owner r at x = do
    i ← new_uuid
    created ←
        trying
          (create_and_queue env svc
            (record (send_params i owner r x) {
              status = some pending;
              idempotency_key = r.idempotency_key;
              scheduled_at = some at;
            })
            false)
          (λ e. err_response status_internal_server_error schedule_failed)
    trying (Scheduled.create env created.0.id at)
        (λ e. err_response status_internal_server_error schedule_failed)
    respond
        (record { status = status_created; body = scheduled_body created.0.id created.0.status at })

  -- `at` is time.Parse of the validated text, whose error is ignored.
  unfoldable pub schedule : Option Tenant → Option ScheduleNotificationRequest → Handler R Response
  schedule tenant body = do
    q ← require body (err_response status_bad_request invalid_body)
    λ w. accept (validate_schedule parse_time (env.clock w.calls) q) w
    let r = q.send
    at ← require (parse_time q.scheduled_at) (err_response status_bad_request invalid_body)
    owner ← tenant_id tenant
    require_enabled owner r.channel
    x ← content owner r.template_id (to_channel r.channel) r.variables r.subject r.body
    answer_schedule owner r at x

  -- The entry of results for the recipient at position i.
  unfoldable pub batch_result : ℕ → Outcome → BatchResult
  batch_result i (sent u s d) = record { index = i; notification_id = some u; error = none }
  batch_result i (refused text) = record { index = i; notification_id = none; error = some text }

  -- The recipients from position i.
  unfoldable pub send_recipients :
      Uuid
      → BatchSendRequest
      → (Option Uuid × String × String)
      → ℕ
      → List BatchRecipient
      → World R
      → List BatchResult × World R
  unfolding recipient_key batch_result new_uuid
  send_recipients owner q x i [] w = ([], w)
  send_recipients owner q x i (rec ∷ recs) w =
      let p : CreateNotificationParams = record {
        id = env.fresh w.calls;
        tenant_id = owner;
        channel = to_channel q.channel;
        priority = priority_or_normal q.priority;
        status = none;
        recipient_id = rec.recipient_id;
        recipient_email = rec.recipient_email;
        recipient_phone = rec.recipient_phone;
        recipient_token = rec.recipient_token;
        template_id = x.0;
        subject = x.1;
        body = x.2;
        metadata = q.metadata;
        idempotency_key = "";
        scheduled_at = none;
      } in
      let (outcome, w1) =
        process_send env svc (recipient_key q.idempotency_key i) p
          (record w { calls = suc w.calls }) in
      let (rest, w2) = send_recipients owner q x (suc i) recs w1 in
      (batch_result i outcome ∷ rest, w2)

  unfoldable pub answer_batch :
      Uuid → BatchSendRequest → (Option Uuid × String × String) → Handler R Response
  answer_batch owner q x = λ w.
      let (results, w') = send_recipients owner q x 0 q.recipients w in
      (responds (record { status = status_created; body = batch_body results }), w')

  unfoldable pub batch : Option Tenant → Option BatchSendRequest → Handler R Response
  batch tenant body = do
    q ← require body (err_response status_bad_request invalid_body)
    accept (validate_batch q)
    owner ← tenant_id tenant
    require_enabled owner q.channel
    x ← content owner q.template_id (to_channel q.channel) q.variables q.subject q.body
    answer_batch owner q x

  -- A notification of another tenant looks like one that does not exist.
  unfoldable pub get : Option Tenant → String → Handler R Response
  get tenant param = do
    i ← require (parse_uuid param) (err_response status_bad_request invalid_notification_id)
    n ← trying (Notifications.get_by_id env i) λ e.
        if is_not_found e
        then err_response status_not_found notification_not_found
        else err_response status_internal_server_error get_notification_failed
    owner ← tenant_id tenant
    unless (n.tenant_id == owner) (err_response status_not_found notification_not_found)
    deliveries ←
        trying (Deliveries.get_by_notification_id env i)
          (λ e. err_response status_internal_server_error get_deliveries_failed)
    respond (record { status = status_ok; body = detail_body n deliveries })
