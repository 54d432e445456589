-- ===== src/Postgres/Pages.antt =====
-- GetByTenantID of backend/internal/repository/postgres/notification_repo.go. `Querying` is what the
-- query leaves to Postgres: ILIKE, and the order of the rows. ORDER BY created_at DESC fixes it but for
-- rows with the same created_at, which may come in another order in every query.
pub mod Newest
use notifyx.Prelude.{
  ℕ, String, ◌<>◌, Bool, true, ◌&&◌, ◌||◌, Option, none, some, List, [], ◌∷◌, ◌==◌, leb, str_eq,
  select, order_by, take, drop, length, pg_error, ok, err, ℤ, pos, negsuc,
}
use notifyx.Domain.{
  Uuid, Time, Status, pending, queued, queued_rate_limited, delivered, failed, channel_text,
  Notification,
}
use notifyx.Postgres.{Env, Io, call, wrapping, ◌>>◌}

-- What the query leaves to Postgres.
pub record Querying : Type 0 where
  -- Whether a text is ILIKE a pattern.
  pub ilike : String → String → Bool
  -- The order in which the query that ends call c gives its rows.
  pub arrange : ℕ → List Notification → List Notification

-- NotificationFilter; an empty text and a nil time are no filter.
pub record NotificationFilter : Type 0 where
  pub channel : String
  pub status : String
  pub from : Option Time
  pub to : Option Time
  pub limit : ℕ
  pub offset : ℤ
  pub recipient : String

-- string(status)
unfoldable pub status_text : Status → String
status_text pending = "pending"
status_text queued = "queued"
status_text queued_rate_limited = "queued_rate_limited"
status_text delivered = "delivered"
status_text failed = "failed"

-- $n = '' OR column = $n
unfoldable pub unset_or : String → String → Bool
unset_or wanted text = str_eq wanted "" || str_eq text wanted

-- $n IS NULL OR …
unfoldable pub null_or : Option Time → (Time → Bool) → Bool
null_or none p = true
null_or (some t) p = p t

-- The WHERE clause.
unfoldable pub matches : (String → String → Bool) → Uuid → NotificationFilter → Notification → Bool
unfolding status_text unset_or null_or
matches ilike tenant_id f n =
    let pattern = "%" <> (f.recipient <> "%") in
    n.tenant_id == tenant_id
    && unset_or f.channel (channel_text n.channel)
    && unset_or f.status (status_text n.status)
    && null_or f.from (λ t. leb t n.created_at)
    && null_or f.to (λ t. leb n.created_at t)
    && (str_eq f.recipient ""
        || ilike n.recipient_id pattern
        || ilike n.recipient_email pattern
        || ilike n.recipient_phone pattern
        || ilike n.recipient_token pattern)

-- The rows of the WHERE clause, in the order in which the query gives them.
unfoldable pub matching :
    Querying → ℕ → List Notification → Uuid → NotificationFilter → List Notification
unfolding matches
matching sql c rows tenant_id f = sql.arrange c (select (matches sql.ilike tenant_id f) rows)

-- COUNT(*) OVER() is read from a row of the page: an empty page has the total 0.
unfoldable pub total_of : List Notification → ℕ → ℕ
total_of [] count = 0
total_of (n ∷ ns) count = count

-- LIMIT and OFFSET; Postgres refuses a negative offset.
unfoldable pub get_by_tenant_id :
    {R : Type 0} → Env → Querying → Uuid → NotificationFilter → Io R (List Notification × ℕ)
unfolding call matching total_of
get_by_tenant_id env sql tenant_id f = wrapping "list notifications" do
  call env
  λ w. elim f.offset [
    | negsuc n ↦ (err (pg_error "2201X" (env.violation "2201X")), w)
    | pos n ↦
        let rows = matching sql w.calls w.tables.notifications tenant_id f in
        let page = take f.limit (drop n rows) in (ok (page, total_of page (length rows)), w)
  ]
