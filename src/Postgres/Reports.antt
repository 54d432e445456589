-- ===== src/Postgres/Reports.antt =====
-- backend/internal/repository/postgres/dlq_repo.go and analytics_repo.go.
pub mod Totals
use notifyx.Prelude.{
  ℕ, zero, suc, ◌+◌, ◌-◌, ◌*◌, ◌/◌, true, false, Option, none, some, ltb, map, String, Bool, ◌&&◌,
  List, [], ◌∷◌, ◌++◌, leb, ◌==◌, if◌then◌else◌, any, select, pg_error, ok, err, length,
}
use notifyx.Domain.{
  Uuid, Time, Channel, email, inapp, push, sms, other, channel_eq, Status, delivered, failed,
  Notification, AnalyticsSummary, ChannelBreakdown, DlqTrendPoint, DlqMessage, Message, status_eq,
}
use notifyx.Postgres.{Tables, Env, Io, call, gets, wrapping, ◌>>=◌, ◌>>◌}

unfoldable pub in_period : Uuid → Time → Time → Notification → Bool
in_period tenant_id from to n =
    n.tenant_id == tenant_id && leb from n.created_at && leb n.created_at to

-- COUNT(*) FILTER (WHERE …)
unfoldable pub count_where : {A : Type 0} → (A → Bool) → List A → ℕ
count_where p [] = 0
count_where p (x ∷ xs) = let rest = count_where p xs in if p x then suc rest else rest

unfoldable pub summary_of : List Notification → Uuid → Time → Time → AnalyticsSummary
unfolding in_period count_where
summary_of rows tenant_id from to =
    let chosen = select (in_period tenant_id from to) rows in
    record {
      total_sent = length chosen;
      total_delivered = count_where (λ n. status_eq n.status delivered) chosen;
      total_failed = count_where (λ n. status_eq n.status failed) chosen;
    }

-- ORDER BY channel: the four channels by their texts, then any other.
unfoldable pub channel_rank : Channel → ℕ
channel_rank email = 0
channel_rank inapp = 1
channel_rank push = 2
channel_rank sms = 3
channel_rank (other s) = 4

abbrev pub one_if : Bool → ℕ
one_if true = 1
one_if false = 0

abbrev is_status : Status → Notification → ℕ
is_status s n = one_if (status_eq n.status s)

-- The counts of a channel with one notification more.
unfoldable pub counted_in : Notification → ChannelBreakdown → ChannelBreakdown
counted_in n b = record b {
  sent = suc b.sent;
  delivered = b.delivered + is_status delivered n;
  failed = b.failed + is_status failed n;
}

-- GROUP BY channel: the notification goes into its channel's group, or makes a new one in its place.
unfoldable pub add_to_groups : Notification → List ChannelBreakdown → List ChannelBreakdown
unfolding counted_in channel_rank
add_to_groups n [] =
    counted_in n
      (record { channel = n.channel; sent = 0; delivered = 0; failed = 0; delivery_rate = none })
    ∷ []
add_to_groups n (b ∷ bs) =
    let rest = add_to_groups n bs in
    if channel_eq b.channel n.channel
    then counted_in n b ∷ bs
    else if ltb (channel_rank n.channel) (channel_rank b.channel)
    then counted_in n
        (record { channel = n.channel; sent = 0; delivered = 0; failed = 0; delivery_rate = none })
      ∷ b
      ∷ bs
    else b ∷ rest

unfoldable pub groups_of : List Notification → List ChannelBreakdown
unfolding add_to_groups
groups_of [] = []
groups_of (n ∷ ns) = add_to_groups n (groups_of ns)

-- `if b.Sent > 0`
abbrev pub with_rate : ChannelBreakdown → ChannelBreakdown
with_rate b = record b { delivery_rate = if ltb 0 b.sent then some (b.delivered, b.sent) else none }

unfoldable pub breakdown_of : List Notification → Uuid → Time → Time → List ChannelBreakdown
unfolding in_period groups_of
breakdown_of rows tenant_id from to =
    map with_rate (groups_of (select (in_period tenant_id from to) rows))

-- date_trunc('day', t) in UTC.
abbrev pub day_length : ℕ
day_length = 24 * 3600 * 1000000000

unfoldable pub day_of : Time → ℕ
day_of t = t / day_length

-- The rows of dlq_messages that the report counts: of a notification of the tenant, in the period.
unfoldable pub dlq_in_period : List Notification → Uuid → Time → Time → DlqMessage → Bool
dlq_in_period rows tenant_id from to d =
    any (λ n. n.id == d.notification_id && n.tenant_id == tenant_id) rows
    && (leb from d.created_at && leb d.created_at to)

-- generate_series(day, …) with so many days, LEFT JOIN the counts by day.
unfoldable pub days_from : ℕ → ℕ → List DlqMessage → List DlqTrendPoint
unfolding count_where day_of
days_from zero day ds = []
days_from (suc more) day ds =
    record { date = day; count = count_where (λ d. day_of d.created_at == day) ds }
    ∷ days_from more (suc day) ds

unfoldable pub trend_of : Tables → Uuid → Time → Time → List DlqTrendPoint
unfolding days_from dlq_in_period day_of
trend_of t tenant_id from to =
    days_from (suc (day_of to) - day_of from) (day_of from)
      (select (dlq_in_period t.notifications tenant_id from to) t.dlq_messages)

module _ {R : Type 0} (env : Env) where
  -- DLQRepository.Create: `attempts` is the literal 3.
  unfoldable pub create_dlq : Message → String → Io R (Unit {0})
  unfolding call
  create_dlq msg text = wrapping "insert dlq message" do
    n ← gets (λ w. w.calls)
    call env
    λ w.
        let t = w.tables in
        let row : DlqMessage = record {
          id = env.fresh n;
          notification_id = msg.notification_id;
          channel = msg.channel;
          error = text;
          attempts = 3;
          last_tried_at = env.clock n;
          created_at = env.clock n;
        } in
        if any (λ x. x.id == msg.notification_id) t.notifications
        then (ok tt, record w { tables = record t { dlq_messages = t.dlq_messages ++ row ∷ [] } })
        else (err (pg_error "23503" (env.violation "23503")), w)

  -- AnalyticsRepository.Summary
  unfoldable pub summary : Uuid → Time → Time → Io R AnalyticsSummary
  unfolding call summary_of
  summary tenant_id from to = do
    wrapping "analytics summary" (call env)
    gets (λ w. summary_of w.tables.notifications tenant_id from to)

  -- AnalyticsRepository.ChannelBreakdown
  unfoldable pub channel_breakdown : Uuid → Time → Time → Io R (List ChannelBreakdown)
  unfolding call breakdown_of
  channel_breakdown tenant_id from to = do
    wrapping "analytics channel breakdown" (call env)
    gets (λ w. breakdown_of w.tables.notifications tenant_id from to)

  -- AnalyticsRepository.DLQTrend
  unfoldable pub dlq_trend : Uuid → Time → Time → Io R (List DlqTrendPoint)
  unfolding call trend_of
  dlq_trend tenant_id from to = do
    wrapping "analytics dlq trend" (call env)
    gets (λ w. trend_of w.tables tenant_id from to)
