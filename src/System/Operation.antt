-- ===== src/System/Operation.antt =====
-- The send pipeline of backend/internal/api/handlers/notification.go as runs of repository writes.
use notifyx.Prelude.{
  ℕ, suc, String, Bool, true, false, ◌≡◌, ◌∙◌, Option, none, some, List, [], ◌∷◌, arith,
  Result-cases, inl, inr, Bool-cases, str_eq, Option-cases, refl, ap, Result,
}
use notifyx.Domain.{
  Uuid, Time, Tenant, Notification, NotificationDelivery, pending, queued_rate_limited, to_channel,
}
use notifyx.Postgres.{Env, World}
use notifyx.Postgres.Notifications
use notifyx.Postgres.Notifications.{CreateNotificationParams}
use notifyx.Postgres.Deliveries
use notifyx.Postgres.References.Runs.{
  Run, done, then_write, create_notification, create_delivery, create_scheduled,
}
use notifyx.Kafka.{publish}
use notifyx.Handlers.Requests.{
  ScheduleNotificationRequest, validate_batch, SendNotificationRequest, BatchSendRequest,
  BatchRecipient,
}
use notifyx.Handlers.Pipeline.{
  NotificationService, queue_body, create_and_queue, finish_send, limit_and_finish, process_send,
}
use notifyx.Dedup.{claimed, existing}
use notifyx.Handlers.Pipeline.Sending.{answer_duplicate-Untouched, release_dedup-Untouched}
use notifyx.Handlers.Notifications.{
  answer_schedule, new_uuid, answer_batch, send_recipients, send, send_params, batch, schedule,
  tenant_id, require_enabled, content,
}
use notifyx.Handlers.Notifications.Access.{require_enabled-Untouched, content-Untouched}
use notifyx.Handlers.Response.{Flow-cases}
use notifyx.Handlers.Notifications.Courses.{stops, reaches, send-Course}
use notifyx.System.Sending.{answer_send-world}
use notifyx.System.Upkeep.{Runs, reading, joined, either, with_tx-Runs}

module _ {R : Type 0} (env : Env) (svc : NotificationService R) where
  queue_body-Runs : (p : CreateNotificationParams) (b : Bool) → Runs env (queue_body env svc p b)
  unfolding queue_body publish
  queue_body-Runs p b w = elim (Result-cases (Notifications.create env p w).0) [
    | inr (x, e) ↦ reading env made (ground arith)
    | inl (n, e) ↦ reading env (then_write made (create_delivery n.id p.channel p.status)) (
        ground (
          arith,
          Result-cases
              (Deliveries.create env n.id p.channel p.status (Notifications.create env p w).1).0,
        ))
  ]
    where
      made : Run env w (Notifications.create env p w).1
      made = then_write done (create_notification p)

  create_and_queue-Runs :
      (p : CreateNotificationParams) (b : Bool) → Runs env (create_and_queue env svc p b)
  unfolding create_and_queue
  create_and_queue-Runs p b = with_tx-Runs env (queue_body env svc p b) (queue_body-Runs p b)

  finish_send-Runs :
      (key : String) (p : CreateNotificationParams) (b : Bool)
      → Runs env (finish_send env svc key p b)
  unfolding finish_send
  finish_send-Runs key p b w =
      let q : CreateNotificationParams = record p { idempotency_key = key } in
      let w' : World R = (create_and_queue env svc q b w).1 in
      reading env (create_and_queue-Runs q b w)
        (ground (arith, release_dedup-Untouched env svc key w'))

  limit_and_finish-Runs :
      (key : String) (p : CreateNotificationParams) → Runs env (limit_and_finish env svc key p)
  unfolding limit_and_finish
  limit_and_finish-Runs key p w = elim (Option-cases svc.rate_limiter) [
    | inl e ↦
        reading env (finish_send-Runs key (record p { status = some pending }) true w)
          (ground arith)
    | inr (l, e) ↦
        let asked : World R = (l.allow p.tenant_id p.channel w).1 in
        let same : asked.tables ≡ w.tables = l.allow-tables p.tenant_id p.channel w in
        elim (Result-cases (l.allow p.tenant_id p.channel w).0) [
          | inr (x, f) ↦
              reading env done (ground (arith, same, release_dedup-Untouched env svc key asked))
          | inl (true, f) ↦
              reading env
                (joined env (reading env done same)
                  (finish_send-Runs key (record p { status = some pending }) true asked))
                (ground arith)
          | inl (false, f) ↦
              reading env
                (joined env (reading env done same) (
                  finish_send-Runs key (record p { status = some queued_rate_limited }) false
                    asked))
                (ground arith)
        ]
  ]

  process_send-Runs :
      (key : String) (p : CreateNotificationParams) → Runs env (process_send env svc key p)
  unfolding process_send
  process_send-Runs key p w = elim (Option-cases svc.dedup) [
    | inl e ↦ reading env (limit_and_finish-Runs key p w) (ground arith)
    | inr (d, e) ↦
        let asked : World R = (d.reserve key p.id w).1 in
        let same : asked.tables ≡ w.tables = d.reserve-tables key p.id w in
        let later : Run env w (limit_and_finish env svc key p asked).1 =
          joined env (reading env done same) (limit_and_finish-Runs key p asked) in
        elim (Bool-cases (str_eq key "")) [
          | inl k ↦ reading env (limit_and_finish-Runs key p w) (ground arith)
          | inr k ↦ elim (Result-cases (d.reserve key p.id w).0) [
            | inr (x, f) ↦ reading env done (ground (arith, same))
            | inl (claimed, f) ↦ reading env later (ground arith)
            | inl (existing i, f) ↦
                reading env done (ground (arith, same, answer_duplicate-Untouched env svc i asked))
          ]
        ]
  ]

module _ {R : Type 0} (env : Env) (svc : NotificationService R) (parse_uuid : String → Option Uuid)
    (parse_time : String → Option Time) where
  pub send-Runs :
      (t : Tenant) (r : SendNotificationRequest)
      → Runs env (send env svc parse_uuid parse_time (some t) (some r))
  send-Runs t r w = elim (send-Course env svc parse_uuid parse_time t r w) [
    | stops x e f u ↦ reading env done u.tables
    | reaches p w' e f same u step ↦
        let x = process_send env svc r.idempotency_key p w' in
        reading env
          (joined env (reading env done u.tables)
            (process_send-Runs env svc r.idempotency_key p w'))
          (ap (λ y. y.1.tables) step
            ∙ ap (λ v. v.tables) (answer_send-world env svc parse_uuid parse_time x))
  ]

  send_recipients-Runs :
      (owner : Uuid) (q : BatchSendRequest) (x : Option Uuid × String × String) (i : ℕ)
      (recs : List BatchRecipient)
      → Runs env (send_recipients env svc parse_uuid parse_time owner q x i recs)
  unfolding send_recipients
  send_recipients-Runs owner q x i [] = λ w. done
  send_recipients-Runs owner q x i (rec ∷ recs) = λ w.
      joined env
        (joined env (reading env done refl)
          (process_send-Runs env svc _ _ (record w { calls = suc w.calls })))
        (send_recipients-Runs owner q x (suc i) recs _)

  pub answer_batch-Runs :
      (owner : Uuid) (q : BatchSendRequest) (x : Option Uuid × String × String)
      → Runs env (answer_batch env svc parse_uuid parse_time owner q x)
  unfolding answer_batch
  answer_batch-Runs owner q x w = send_recipients-Runs owner q x 0 q.recipients w

  pub answer_schedule-Runs :
      (owner : Uuid) (r : SendNotificationRequest) (at : Time) (x : Option Uuid × String × String)
      → Runs env (answer_schedule env svc parse_uuid parse_time owner r at x)
  unfolding answer_schedule new_uuid
  answer_schedule-Runs owner r at x w = elim (Result-cases made.0) [
    | inr (y, e) ↦ reading env stored (ground arith)
    | inl ((n, d), e) ↦ reading env (then_write stored (create_scheduled n.id at)) (ground arith)
  ]
    where
      params : CreateNotificationParams
      params = record (send_params env svc parse_uuid parse_time (env.fresh w.calls) owner r x) {
        status = some pending;
        idempotency_key = r.idempotency_key;
        scheduled_at = some at;
      }

      made : Result (Notification × NotificationDelivery) × World R
      made = create_and_queue env svc params false (record w { calls = suc w.calls })

      stored : Run env w made.1
      stored =
          joined env (reading env done refl)
            (create_and_queue-Runs env svc params false (record w { calls = suc w.calls }))

  pub batch-Runs :
      (t : Option Tenant) (o : Option BatchSendRequest)
      → Runs env (batch env svc parse_uuid parse_time t o)
  unfolding batch tenant_id
  batch-Runs t none w = reading env done (ground arith)
  batch-Runs none (some q) w = reading env done (ground arith)
  batch-Runs (some t) (some q) w =
      let asked = require_enabled env svc parse_uuid parse_time t.id q.channel w in
      let same = require_enabled-Untouched env svc parse_uuid parse_time t.id q.channel w in
      let made =
        content env svc parse_uuid parse_time t.id q.template_id (to_channel q.channel) q.variables
          q.subject q.body (asked.1) in
      let kept =
        content-Untouched env svc parse_uuid parse_time t.id q.template_id (to_channel q.channel)
          q.variables q.subject q.body (asked.1) in
      elim (Flow-cases made.0) [
        | inl (x, e) ↦
            either env
              (joined env (reading env done (kept.tables ∙ same.tables))
                (answer_batch-Runs t.id q x (made.1)))
              (ground (arith, same.tables, kept.tables, Option-cases (validate_batch q)))
        | inr (inl (x, e)) ↦
            reading env done
              (ground (arith, same.tables, kept.tables, Option-cases (validate_batch q)))
        | inr (inr e) ↦
            reading env done
              (ground (arith, same.tables, kept.tables, Option-cases (validate_batch q)))
      ]

  pub schedule-Runs :
      (t : Option Tenant) (o : Option ScheduleNotificationRequest)
      → Runs env (schedule env svc parse_uuid parse_time t o)
  unfolding schedule tenant_id
  schedule-Runs t none w = reading env done (ground arith)
  schedule-Runs none (some q) w = reading env done (ground arith)
  schedule-Runs (some t) (some q) w = elim (Option-cases (parse_time q.scheduled_at)) [
    | inl p ↦ reading env done (ground arith)
    | inr (at, p) ↦
        let r = q.send in
        let asked = require_enabled env svc parse_uuid parse_time t.id r.channel w in
        let same = require_enabled-Untouched env svc parse_uuid parse_time t.id r.channel w in
        let made =
          content env svc parse_uuid parse_time t.id r.template_id (to_channel r.channel)
            r.variables r.subject r.body (asked.1) in
        let kept =
          content-Untouched env svc parse_uuid parse_time t.id r.template_id (to_channel r.channel)
            r.variables r.subject r.body (asked.1) in
        elim (Flow-cases made.0) [
          | inl (x, e) ↦
              either env
                (joined env (reading env done (kept.tables ∙ same.tables))
                  (answer_schedule-Runs t.id r at x (made.1)))
                (ground (arith, same.tables, kept.tables))
          | inr (inl (x, e)) ↦ reading env done (ground (arith, same.tables, kept.tables))
          | inr (inr e) ↦ reading env done (ground (arith, same.tables, kept.tables))
        ]
  ]
