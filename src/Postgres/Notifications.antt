-- ===== src/Postgres/Notifications.antt =====
-- backend/internal/repository/postgres/notification_repo.go and the constraints of the table.
use notifyx.Prelude.{
  ℕ, ◌+◌, ◌*◌, String, Bool, true, ◌&&◌, ◌||◌, Option, none, some, List, [], ◌∷◌, ◌++◌, ltb, ◌==◌,
  if◌then◌else◌, str_eq, find, any, select, update_where, order_by, take, not_found, pg_error, ok,
  err, not, length,
}
use notifyx.Domain.{
  Uuid, Time, Metadata, Channel, Status, pending, Priority, Notification, status_eq,
}
use notifyx.Postgres.{Tables, Env, Io, call, pure, fail, gets, wrapping, ◌>>=◌, ◌>>◌}

pub record CreateNotificationParams : Type 0 where
  pub id : Uuid
  pub tenant_id : Uuid
  pub channel : Channel
  pub priority : Priority
  pub status : Option Status
  pub recipient_id : String
  pub recipient_email : String
  pub recipient_phone : String
  pub recipient_token : String
  pub template_id : Option Uuid
  pub subject : String
  pub body : String
  pub metadata : Metadata
  pub idempotency_key : String
  pub scheduled_at : Option Time

-- 90 days in nanoseconds: the default of `expires_at`.
abbrev retention : ℕ
retention = 90 * 86400 * 1000000000

or_pending : Option Status → Status
or_pending none = pending
or_pending (some s) = s

-- A nil metadata is stored as an empty object.
abbrev pub or_empty : Metadata → Metadata
or_empty none = some "{}"
or_empty (some m) = some m

-- The row that the INSERT writes: "" as the idempotency key stores NULL, and reads back as "".
unfoldable pub new_row : CreateNotificationParams → Time → Notification
unfolding or_pending
new_row p now = record {
  id = p.id;
  tenant_id = p.tenant_id;
  channel = p.channel;
  priority = p.priority;
  status = or_pending p.status;
  recipient_id = p.recipient_id;
  recipient_email = p.recipient_email;
  recipient_phone = p.recipient_phone;
  recipient_token = p.recipient_token;
  template_id = p.template_id;
  subject = p.subject;
  body = p.body;
  metadata = or_empty p.metadata;
  idempotency_key = p.idempotency_key;
  scheduled_at = p.scheduled_at;
  created_at = now;
  expires_at = now + retention;
}

unfoldable pub has_id : Uuid → Notification → Bool
has_id i n = n.id == i

-- UNIQUE (tenant_id, idempotency_key), where NULLs are distinct.
same_key : Notification → Notification → Bool
same_key a b =
    not (str_eq a.idempotency_key "")
    && (a.tenant_id == b.tenant_id)
    && str_eq a.idempotency_key b.idempotency_key

unfoldable pub references_template : Tables → Option Uuid → Bool
references_template t none = true
references_template t (some i) = any (λ x. x.id == i) t.templates

-- The code of the constraint that the row would violate, if any: the primary key and the unique
-- key (23505), then the two foreign keys (23503).
unfoldable pub row_violation : Tables → Notification → Option String
unfolding has_id same_key references_template
row_violation t n =
    if any (has_id n.id) t.notifications || any (same_key n) t.notifications
    then some "23505"
    else if any (λ x. x.id == n.tenant_id) t.tenants && references_template t n.template_id
    then none
    else some "23503"

unfoldable pub insert_row : {R : Type 0} → Env → Notification → Io R Notification
unfolding row_violation
insert_row env n w = elim (row_violation w.tables n) [
  | some code ↦ (err (pg_error code (env.violation code)), w)
  | none ↦ (
    ok n,
    record w { tables = record w.tables { notifications = w.tables.notifications ++ n ∷ [] } },
  )
]

-- The tables without some notifications: the rows that go take their deliveries, schedule rows and
-- DLQ rows with them, ON DELETE CASCADE.
unfoldable pub without_notifications : (Notification → Bool) → Tables → Tables
unfolding has_id
without_notifications goes t =
    let gone = select goes t.notifications in
    record t {
      notifications = select (λ n. not (goes n)) t.notifications;
      deliveries = select (λ d. not (any (has_id d.notification_id) gone)) t.deliveries;
      scheduled = select (λ d. not (any (has_id d.notification_id) gone)) t.scheduled;
      dlq_messages = select (λ d. not (any (has_id d.notification_id) gone)) t.dlq_messages;
    }

module _ {R : Type 0} (env : Env) where
  unfoldable pub create : CreateNotificationParams → Io R Notification
  unfolding call new_row insert_row
  create p =
      wrapping "create notification"
        do now ← gets (λ w. env.clock w.calls); call env; insert_row env (new_row p now)

  found : Option Notification → Io R Notification
  found none = fail not_found
  found (some n) = pure n

  unfoldable pub get_by_id : Uuid → Io R Notification
  unfolding call found has_id
  get_by_id i = do
    wrapping "get notification by id" (call env)
    n ← gets (λ w. find (has_id i) w.tables.notifications)
    found n

  -- Up to `limit` rows with the status, oldest first.
  unfoldable pub get_by_status : Status → ℕ → Io R (List Notification)
  unfolding call
  get_by_status s limit = do
    wrapping "get notifications by status" (call env)
    gets λ w.
        take limit
          (order_by (λ n. n.created_at) (select (λ n. status_eq n.status s) w.tables.notifications))

  unfoldable pub update_status : Uuid → Status → Io R (Unit {0})
  unfolding call has_id
  update_status i s = do
    wrapping "update notification status" (call env)
    λ w.
        if any (has_id i) w.tables.notifications
        then (
          ok tt,
          record w {
            tables = record w.tables {
              notifications =
                  update_where (has_id i) (λ n. record n { status = s }) w.tables.notifications;
            };
          },
        )
        else (err not_found, w)

  unfoldable pub delete_expired : Time → Io R ℕ
  unfolding call without_notifications
  delete_expired now = do
    wrapping "delete expired notifications" (call env)
    λ w. (
      ok (length (select (λ n. ltb n.expires_at now) w.tables.notifications)),
      record w { tables = without_notifications (λ n. ltb n.expires_at now) w.tables },
    )
