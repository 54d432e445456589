-- ===== src/Handlers/Requests.antt =====
-- The requests of backend/internal/api/handlers/notification.go and their Validate methods, which
-- give the error text or `none`. `parse_time` is time.Parse with time.RFC3339.
use notifyx.Prelude.{
  ℕ, suc, String, Bool, true, false, ◌&&◌, Option, none, some, List, [], ◌∷◌, ltb, if◌then◌else◌,
  str_eq, not,
}
use notifyx.Domain.{
  Time, Metadata, Channel, email, push, sms, inapp, other, to_channel, Priority, critical, high,
  normal, low,
}
use notifyx.Handlers.Response.{
  ErrorText, invalid_channel, invalid_priority, body_required, recipients_empty,
  scheduled_at_required, scheduled_at_format, scheduled_at_past, recipient_email_required,
  subject_required, recipient_token_required, recipient_phone_required, recipient_id_required,
  at_recipient,
}

pub record SendNotificationRequest : Type 0 where
  pub channel : String
  pub priority : String
  pub recipient_id : String
  pub recipient_email : String
  pub recipient_phone : String
  pub recipient_token : String
  pub template_id : String
  pub variables : List (String × String)
  pub subject : String
  pub body : String
  pub metadata : Metadata
  pub idempotency_key : String

pub record ScheduleNotificationRequest : Type 0 where
  pub send : SendNotificationRequest
  pub scheduled_at : String

pub record BatchRecipient : Type 0 where
  pub recipient_id : String
  pub recipient_email : String
  pub recipient_phone : String
  pub recipient_token : String

pub record BatchSendRequest : Type 0 where
  pub channel : String
  pub priority : String
  pub template_id : String
  pub variables : List (String × String)
  pub subject : String
  pub body : String
  pub metadata : Metadata
  pub recipients : List BatchRecipient
  pub idempotency_key : String

abbrev pub is_blank : String → Bool
is_blank s = str_eq s ""

known : Channel → Bool
known (other s) = false
known _ = true

-- tenant.go: isValidChannel
unfoldable pub is_valid_channel : String → Bool
unfolding known to_channel
is_valid_channel s = known (to_channel s)

-- domain.Priority(s), where it is one of the four constants
unfoldable pub to_priority : String → Option Priority
to_priority s =
    if str_eq s "critical"
    then some critical
    else if str_eq s "high"
    then some high
    else if str_eq s "normal"
    then some normal
    else if str_eq s "low"
    then some low
    else none

present : {A : Type 0} → Option A → Bool
present none = false
present (some a) = true

unfoldable pub is_valid_priority : String → Bool
unfolding present to_priority
is_valid_priority s = present (to_priority s)

-- `if priority == "" { priority = PriorityNormal }`, on a priority that Validate accepted.
unfoldable pub priority_or_normal : String → Priority
unfolding to_priority
priority_or_normal s = elim (to_priority s) [ none ↦ normal | some p ↦ p ]

needs : Bool → ErrorText → Option ErrorText
needs true text = none
needs false text = some text

unfoldable pub validate_recipient_fields :
    Channel → String → String → String → String → String → Option ErrorText
unfolding needs
validate_recipient_fields email address phone token recipient_id subject =
    if is_blank address
    then some recipient_email_required
    else needs (not (is_blank subject)) subject_required
validate_recipient_fields push address phone token recipient_id subject =
    needs (not (is_blank token)) recipient_token_required
validate_recipient_fields sms address phone token recipient_id subject =
    needs (not (is_blank phone)) recipient_phone_required
validate_recipient_fields inapp address phone token recipient_id subject =
    needs (not (is_blank recipient_id)) recipient_id_required
validate_recipient_fields (other s) address phone token recipient_id subject = none

abbrev pub ignored_by_template : String
ignored_by_template = "ignored-by-template"

-- sendNotificationRequest.Validate
unfoldable pub validate_send : SendNotificationRequest → Option ErrorText
unfolding is_valid_channel is_valid_priority validate_recipient_fields
validate_send r =
    if not (is_valid_channel r.channel)
    then some (invalid_channel r.channel)
    else if not (is_blank r.priority) && not (is_valid_priority r.priority)
    then some (invalid_priority r.priority)
    else if not (is_blank r.template_id)
    then validate_recipient_fields (to_channel r.channel) r.recipient_email r.recipient_phone
        r.recipient_token r.recipient_id ignored_by_template
    else if is_blank r.body
    then some body_required
    else validate_recipient_fields (to_channel r.channel) r.recipient_email r.recipient_phone
        r.recipient_token r.recipient_id r.subject

-- scheduleNotificationRequest.Validate, at the time `now`
unfoldable pub validate_schedule :
    (String → Option Time) → Time → ScheduleNotificationRequest → Option ErrorText
unfolding validate_send
validate_schedule parse_time now r =
    if is_blank r.scheduled_at
    then some scheduled_at_required
    else elim (parse_time r.scheduled_at) [
      | none ↦ some scheduled_at_format
      | some t ↦ if ltb now t then validate_send r.send else some scheduled_at_past
    ]

-- The loop over the recipients, from position i.
unfoldable pub validate_recipients : Channel → String → ℕ → List BatchRecipient → Option ErrorText
unfolding validate_recipient_fields
validate_recipients channel subject i [] = none
validate_recipients channel subject i (rec ∷ recs) =
    let rest = validate_recipients channel subject (suc i) recs in
    elim (validate_recipient_fields channel rec.recipient_email rec.recipient_phone
      rec.recipient_token rec.recipient_id subject) [
        | none ↦ rest
        | some text ↦ some (at_recipient i text)
      ]

abbrev is_empty : List BatchRecipient → Bool
is_empty [] = true
is_empty (r ∷ rs) = false

-- batchSendRequest.Validate
unfoldable pub validate_batch : BatchSendRequest → Option ErrorText
unfolding is_valid_channel is_valid_priority validate_recipients
validate_batch r =
    if not (is_valid_channel r.channel)
    then some (invalid_channel r.channel)
    else if not (is_blank r.priority) && not (is_valid_priority r.priority)
    then some (invalid_priority r.priority)
    else if is_blank r.template_id && is_blank r.body
    then some body_required
    else if is_empty r.recipients
    then some recipients_empty
    else validate_recipients (to_channel r.channel)
        (if is_blank r.template_id then r.subject else ignored_by_template) 0 r.recipients

-- isValidStatus
unfoldable pub is_valid_status : String → Bool
is_valid_status s =
    if str_eq s "pending"
    then true
    else if str_eq s "queued"
    then true
    else if str_eq s "queued_rate_limited"
    then true
    else if str_eq s "delivered"
    then true
    else str_eq s "failed"
