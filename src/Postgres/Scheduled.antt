-- ===== src/Postgres/Scheduled.antt =====
-- backend/internal/repository/postgres/scheduled_notification_repo.go.
use notifyx.Prelude.{
  ℕ, Bool, true, false, ◌&&◌, List, [], ◌∷◌, ◌++◌, leb, ◌==◌, if◌then◌else◌, any, select,
  update_where, order_by, take, not_found, pg_error, ok, err, not,
}
use notifyx.Domain.{Uuid, Time, ScheduledNotification}
use notifyx.Postgres.{Env, Io, call, gets, wrapping, ◌>>=◌, ◌>>◌}

unfoldable pub has_id : Uuid → ScheduledNotification → Bool
has_id i s = s.id == i

unfoldable pub is_due : Time → ScheduledNotification → Bool
is_due now s = not s.fired && leb s.scheduled_at now

unfoldable pub insert_row : {R : Type 0} → Env → ScheduledNotification → Io R ScheduledNotification
insert_row env s w =
    let t = w.tables in
    if any (λ n. n.id == s.notification_id) t.notifications
    then (ok s, record w { tables = record t { scheduled = t.scheduled ++ s ∷ [] } })
    else (err (pg_error "23503" (env.violation "23503")), w)

module _ {R : Type 0} (env : Env) where
  unfoldable pub create : Uuid → Time → Io R ScheduledNotification
  unfolding call insert_row
  create notification_id scheduled_at = wrapping "create scheduled notification" do
    n ← gets (λ w. w.calls)
    call env
    insert_row env (record {
      id = env.fresh n;
      notification_id = notification_id;
      scheduled_at = scheduled_at;
      fired = false;
      created_at = env.clock n;
    })

  -- Up to `limit` due rows that are not fired, the oldest due first.
  unfoldable pub get_due_unfired : Time → ℕ → Io R (List ScheduledNotification)
  unfolding call is_due
  get_due_unfired now limit = do
    wrapping "get due scheduled notifications" (call env)
    gets λ w. take limit (order_by (λ s. s.scheduled_at) (select (is_due now) w.tables.scheduled))

  unfoldable pub mark_fired : Uuid → Io R (Unit {0})
  unfolding call has_id
  mark_fired i = do
    wrapping "mark scheduled notification fired" (call env)
    λ w.
        let t = w.tables in
        if any (has_id i) t.scheduled
        then (
          ok tt,
          record w {
            tables = record t {
              scheduled = update_where (has_id i) (λ s. record s { fired = true }) t.scheduled;
            };
          },
        )
        else (err not_found, w)
