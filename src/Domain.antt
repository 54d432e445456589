-- ===== src/Domain.antt =====
-- backend/internal/domain: the entities, one record for each table's row, and
-- backend/internal/kafka/message.go: the topics and the message of every channel topic.
-- A UUID is its 128-bit value; a time is a number of nanoseconds; `Metadata` is the JSON text of
-- the map, which no code looks into (`none` is the nil map).
use notifyx.Prelude.{
  ℕ, String, Bool, true, false, Option, ◌≡◌, ◌↔◌, refl, arith, if◌then◌else◌, str_eq, str_eq_iff,
}

abbrev pub Uuid : Type 0
Uuid = ℕ

abbrev pub Time : Type 0
Time = ℕ

abbrev pub Metadata : Type 0
Metadata = Option String

-- Go's `Channel` is any string: `other` is one that is none of the four constants.
pub data Channel : Type 0 where
  email push sms inapp : Channel
  other : String → Channel

-- domain.Channel(s)
unfoldable pub to_channel : String → Channel
to_channel s =
    if str_eq s "email"
    then email
    else if str_eq s "push"
    then push
    else if str_eq s "sms"
    then sms
    else if str_eq s "inapp"
    then inapp
    else other s

-- string(ch)
unfoldable pub channel_text : Channel → String
channel_text email = "email"
channel_text push = "push"
channel_text sms = "sms"
channel_text inapp = "inapp"
channel_text (other s) = s

unfoldable pub channel_eq : Channel → Channel → Bool
channel_eq email email = true
channel_eq push push = true
channel_eq sms sms = true
channel_eq inapp inapp = true
channel_eq (other s) (other t) = str_eq s t
channel_eq _ _ = false

pub data Status : Type 0 where
  pending queued queued_rate_limited delivered failed : Status

unfoldable pub status_eq : Status → Status → Bool
status_eq pending pending = true
status_eq queued queued = true
status_eq queued_rate_limited queued_rate_limited = true
status_eq delivered delivered = true
status_eq failed failed = true
status_eq _ _ = false

pub data Priority : Type 0 where
  critical high normal low : Priority

pub record Notification : Type 0 where
  pub id : Uuid
  pub tenant_id : Uuid
  pub channel : Channel
  pub priority : Priority
  pub status : Status
  pub recipient_id : String
  pub recipient_email : String
  pub recipient_phone : String
  pub recipient_token : String
  pub template_id : Option Uuid
  pub subject : String
  pub body : String
  pub metadata : Metadata
  pub idempotency_key : String
  pub scheduled_at : Option Time
  pub created_at : Time
  pub expires_at : Time

pub record NotificationDelivery : Type 0 where
  pub id : Uuid
  pub notification_id : Uuid
  pub channel : Channel
  pub status : Status
  pub attempts : ℕ
  pub error_message : String
  pub delivered_at : Option Time
  pub created_at : Time

pub record ScheduledNotification : Type 0 where
  pub id : Uuid
  pub notification_id : Uuid
  pub scheduled_at : Time
  pub fired : Bool
  pub created_at : Time

pub record AnalyticsSummary : Type 0 where
  pub total_sent : ℕ
  pub total_delivered : ℕ
  pub total_failed : ℕ

-- The delivery rate is the quotient of `delivered` and `sent`, `none` for the 0 where nothing was
-- sent: a float64 is written as the pair of the numbers that are divided.
pub record ChannelBreakdown : Type 0 where
  pub channel : Channel
  pub sent : ℕ
  pub delivered : ℕ
  pub failed : ℕ
  pub delivery_rate : Option (ℕ × ℕ)

-- A day is the number of days since the epoch.
pub record DlqTrendPoint : Type 0 where
  pub date : ℕ
  pub count : ℕ

pub record DlqMessage : Type 0 where
  pub id : Uuid
  pub notification_id : Uuid
  pub channel : Channel
  pub error : String
  pub attempts : ℕ
  pub last_tried_at : Time
  pub created_at : Time

pub record Tenant : Type 0 where
  pub id : Uuid
  pub name : String
  pub global_rate_cap : ℕ
  pub created_at : Time

pub record TenantChannel : Type 0 where
  pub id : Uuid
  pub tenant_id : Uuid
  pub channel : Channel
  pub enabled : Bool
  pub created_at : Time

pub record TenantRateLimit : Type 0 where
  pub id : Uuid
  pub tenant_id : Uuid
  pub channel : Channel
  pub max_per_min : ℕ
  pub created_at : Time

pub record ApiKey : Type 0 where
  pub id : Uuid
  pub tenant_id : Uuid
  pub key_hash : String
  pub created_at : Time

pub record NotificationTemplate : Type 0 where
  pub id : Uuid
  pub tenant_id : Uuid
  pub name : String
  pub channel : Channel
  pub subject : String
  pub body : String
  pub created_at : Time
  pub updated_at : Time

pub data Topic : Type 0 where
  topic_email topic_push topic_sms topic_inapp topic_dlq : Topic

unfoldable pub topic_for_channel : Channel → Topic
topic_for_channel email = topic_email
topic_for_channel sms = topic_sms
topic_for_channel push = topic_push
topic_for_channel inapp = topic_inapp
topic_for_channel (other s) = topic_dlq

pub record Message : Type 0 where
  pub notification_id : Uuid
  pub delivery_id : Uuid
  pub tenant_id : Uuid
  pub channel : Channel
  pub priority : Priority
  pub recipient_id : String
  pub recipient_email : String
  pub recipient_phone : String
  pub recipient_token : String
  pub subject : String
  pub body : String
  pub metadata : Metadata
  pub last_error : String

pub channel_eq_iff : (a b : Channel) → (channel_eq a b ≡ true) ↔ (a ≡ b)
unfolding channel_eq
channel_eq_iff (other s) (other t) = ground (arith, str_eq_iff s t)
channel_eq_iff email b = ground arith
channel_eq_iff push b = ground arith
channel_eq_iff sms b = ground arith
channel_eq_iff inapp b = ground arith
channel_eq_iff (other s) b = ground arith

pub channel_eq_refl : (a : Channel) → channel_eq a a ≡ true
channel_eq_refl a = (channel_eq_iff a a).1 refl

pub status_eq_iff : (a b : Status) → (status_eq a b ≡ true) ↔ (a ≡ b)
unfolding status_eq
status_eq_iff a b = ground arith
