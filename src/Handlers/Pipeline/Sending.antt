-- ===== src/Handlers/Pipeline/Sending.antt =====
-- processSend of backend/internal/api/handlers/notification.go, where it fails or finds a duplicate.
use notifyx.Prelude.{
  ℕ, zero, suc, String, ◌≡◌, Bool, true, false, some, arith, Result-cases, Option-cases, inl, inr,
}
use notifyx.Domain.{Uuid, Status, pending, queued_rate_limited}
use notifyx.Dedup.{claimed, existing}
use notifyx.Postgres.{Env, World}
use notifyx.Postgres.Notifications
use notifyx.Postgres.Notifications.{CreateNotificationParams, new_row}
use notifyx.Handlers.Response.{ErrorText}
use notifyx.Handlers.Pipeline.{
  NotificationService, refused, create_and_queue, fetch_existing, release_dedup, answer_duplicate,
  finish_send, limit_and_finish, process_send,
}
use notifyx.Handlers.Pipeline.Persisting.{create_and_queue_atomic}

-- The status of a new notification, by whether it is published now.
abbrev pub initial : Bool → Status
initial true = pending
initial false = queued_rate_limited

-- Nothing was written and nothing was published.
pub record Untouched {R : Type 0} (w w' : World R) : Type 0 where
  pub tables : w'.tables ≡ w.tables
  pub published : w'.published ≡ w.published

module _ {R : Type 0} (env : Env) (svc : NotificationService R) where
  pub get_by_id-Untouched :
      (i : Uuid) (w : World R) → Untouched w (Notifications.get_by_id env i w).1
  unfolding Notifications.get_by_id
  get_by_id-Untouched i w = ground arith

  pub fetch_existing-Untouched :
      (more : ℕ) (i : Uuid) (w : World R) → Untouched w (fetch_existing env svc more i w).1
  unfolding fetch_existing
  fetch_existing-Untouched zero i w = get_by_id-Untouched i w
  fetch_existing-Untouched (suc more) i w = ground (
    arith,
    get_by_id-Untouched i w,
    fetch_existing-Untouched more i (Notifications.get_by_id env i w).1,
  )

  pub answer_duplicate-Untouched :
      (i : Uuid) (w : World R) → Untouched w (answer_duplicate env svc i w).1
  unfolding answer_duplicate
  answer_duplicate-Untouched i w = ground (arith, fetch_existing-Untouched 2 i w)

  pub release_dedup-Untouched :
      (key : String) (w : World R) → Untouched w (release_dedup env svc key w)
  unfolding release_dedup
  release_dedup-Untouched key w = elim (Option-cases svc.dedup) [
    | inl e ↦ ground arith
    | inr (d, e) ↦ ground (arith, d.release-tables key w, d.release-published key w)
  ]

  finish_send_refused :
      (key : String) (p : CreateNotificationParams) (publishes : Bool) (w : World R)
      {text : ErrorText}
      → (finish_send env svc key p publishes w).0 ≡ refused text
      → (finish_send env svc key p publishes w).1.tables ≡ w.tables
  unfolding finish_send
  finish_send_refused key p publishes w {text} h =
      let q = record p { idempotency_key = key } in
      elim (Result-cases (create_and_queue env svc q publishes w).0) [
        | inl (x, e) ↦ ground arith
        | inr (x, e) ↦ ground (
          arith,
          create_and_queue_atomic env svc q publishes w {e = x} e,
          release_dedup-Untouched key (create_and_queue env svc q publishes w).1,
        )
      ]

  limit_and_finish_refused :
      (key : String) (p : CreateNotificationParams) (w : World R) {text : ErrorText}
      → (limit_and_finish env svc key p w).0 ≡ refused text
      → (limit_and_finish env svc key p w).1.tables ≡ w.tables
  unfolding limit_and_finish
  limit_and_finish_refused key p w {text} h = elim (Option-cases svc.rate_limiter) [
    | inl e ↦
        ground
          (arith, finish_send_refused key (record p { status = some pending }) true w {text = text})
    | inr (l, e) ↦
        let asked = (l.allow p.tenant_id p.channel w).1 in
        ground (
          arith,
          l.allow-tables p.tenant_id p.channel w,
          release_dedup-Untouched key asked,
          finish_send_refused key (record p { status = some pending }) true asked {text = text},
          finish_send_refused key (record p { status = some queued_rate_limited }) false asked
              {text = text},
        )
  ]

  -- A send that ends in an error message has written no table row.
  pub process_send_refused :
      (key : String) (p : CreateNotificationParams) (w : World R) {text : ErrorText}
      → (process_send env svc key p w).0 ≡ refused text
      → (process_send env svc key p w).1.tables ≡ w.tables
  unfolding process_send
  process_send_refused key p w {text} h = elim (Option-cases svc.dedup) [
    | inl e ↦ ground (arith, limit_and_finish_refused key p w {text = text})
    | inr (d, e) ↦
        let asked = (d.reserve key p.id w).1 in
        elim (Result-cases (d.reserve key p.id w).0) [
          | inl (claimed, f) ↦ ground (
            arith,
            d.reserve-tables key p.id w,
            limit_and_finish_refused key p w {text = text},
            limit_and_finish_refused key p asked {text = text},
          )
          | inl (existing i, f) ↦ ground (
            arith,
            d.reserve-tables key p.id w,
            limit_and_finish_refused key p w {text = text},
            answer_duplicate-Untouched i asked,
          )
          | inr (x, f) ↦
              ground
                (arith, d.reserve-tables key p.id w, limit_and_finish_refused key p w {text = text})
        ]
  ]
