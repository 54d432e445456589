-- ===== src/System/Sending.antt =====
-- The notification handlers and the status `delivered`.
use notifyx.Prelude.{
  ℕ, suc, String, ◌≡◌, refl, sym, ap, ◌∙◌, subst, Bool, true, false, Option, none, some, List, [],
  ◌∷◌, arith, Error, Result, All, All-append, Result-cases, inl, inr,
}
use notifyx.Domain.{
  Uuid, Time, Channel, Status, Tenant, Notification, NotificationDelivery, pending, delivered,
  status_eq,
}
use notifyx.Postgres.{World, Env, Io}
use notifyx.Postgres.Notifications.{CreateNotificationParams, new_row}
use notifyx.Postgres.Scheduled
use notifyx.Handlers.Response.{ErrorText, Response, trying, require, accept}
use notifyx.Template.{Vars}
use notifyx.Handlers.Notifications.Access.{require_enabled-Untouched, content-Untouched}
use notifyx.Handlers.Requests.{
  validate_schedule, SendNotificationRequest, BatchSendRequest, BatchRecipient,
  ScheduleNotificationRequest,
}
use notifyx.Handlers.Pipeline.{
  NotificationService, Outcome, sent, refused, create_and_queue, process_send,
}
use notifyx.Handlers.Pipeline.Persisting.{create_and_queue_atomic, create_and_queue-Queued}
use notifyx.Handlers.Pipeline.Sending.{initial}
use notifyx.Handlers.Pipeline.Sent.{Fresh, SentRight, process_send-SentRight}
use notifyx.Handlers.Notifications.{
  require_enabled, content, answer_batch, answer_schedule, new_uuid, send_params, tenant_id,
  answer_send, send, send_recipients,
}
use notifyx.Handlers.Notifications.Courses.{stops, reaches, send-Course}
use notifyx.System.Keeping.{NotDelivered, NoneDelivered, Keeps}

module _ {R : Type 0} (env : Env) (svc : NotificationService R) where
  initial-ne-delivered : (b : Bool) → status_eq (initial b) delivered ≡ false
  unfolding status_eq
  initial-ne-delivered true = refl
  initial-ne-delivered false = refl

  Fresh-NoneDelivered :
      (key : String) (p : CreateNotificationParams) (w w' : World R) (i : Uuid) (s : Status)
      → Fresh env svc key p w w' i s
      → NoneDelivered w
      → NoneDelivered w'
  Fresh-NoneDelivered key p w w' i s f h =
      subst (λ t. All NotDelivered t.notifications) (sym f.queued.tables)
        (All-append NotDelivered w.tables.notifications (f.n ∷ []) h (new, tt))
    where
      new : NotDelivered f.n
      new = unfold new_row in ground (arith, f.queued.row, initial-ne-delivered f.publishes)

  outcome-NoneDelivered :
      (key : String) (p : CreateNotificationParams) (w : World R) (x : Outcome × World R)
      → SentRight env svc key p w x
      → NoneDelivered w
      → NoneDelivered x.1
  outcome-NoneDelivered key p w (sent i s true, w') r h =
      subst (λ t. All NotDelivered t.notifications) (sym r.tables) h
  outcome-NoneDelivered key p w (sent i s false, w') r h = Fresh-NoneDelivered key p w w' i s r h
  outcome-NoneDelivered key p w (refused text, w') r h =
      subst (λ t. All NotDelivered t.notifications) (sym r) h

  process_send-Keeps :
      (key : String) (p : CreateNotificationParams) → Keeps (process_send env svc key p)
  process_send-Keeps key p w h =
      outcome-NoneDelivered key p w (process_send env svc key p w)
        (process_send-SentRight env svc key p w) h

module _ {R : Type 0} (env : Env) (svc : NotificationService R) (parse_uuid : String → Option Uuid)
    (parse_time : String → Option Time) where
  pub answer_send-world :
      (x : Outcome × World R) → (answer_send env svc parse_uuid parse_time x).1 ≡ x.1
  unfolding answer_send
  answer_send-world (sent i s true, w) = refl
  answer_send-world (sent i s false, w) = refl
  answer_send-world (refused text, w) = refl

  pub send-Keeps :
      (t : Tenant) (r : SendNotificationRequest)
      → Keeps (send env svc parse_uuid parse_time (some t) (some r))
  send-Keeps t r w h = elim (send-Course env svc parse_uuid parse_time t r w) [
    | stops x e f u ↦ subst (λ t. All NotDelivered t.notifications) (sym u.tables) h
    | reaches p w' e f same u step ↦
        let x = process_send env svc r.idempotency_key p w' in
        subst NoneDelivered (sym (ap (λ y. y.1) step ∙ answer_send-world x)) (
          process_send-Keeps env svc r.idempotency_key p w'
            (subst (λ t. All NotDelivered t.notifications) (sym u.tables) h))
  ]

  send_recipients-NoneDelivered :
      (owner : Uuid) (q : BatchSendRequest) (x : Option Uuid × String × String) (i : ℕ)
      (recs : List BatchRecipient) (w : World R)
      → NoneDelivered w
      → NoneDelivered (send_recipients env svc parse_uuid parse_time owner q x i recs w).1
  unfolding send_recipients
  send_recipients-NoneDelivered owner q x i [] w h = h
  send_recipients-NoneDelivered owner q x i (rec ∷ recs) w h =
      send_recipients-NoneDelivered owner q x (suc i) recs _
        (process_send-Keeps env svc _ _ (record w { calls = suc w.calls }) h)

  pub require-Keeps : {A : Type 0} (o : Option A) (r : Response) → Keeps {R = R} (require o r)
  require-Keeps none r w h = h
  require-Keeps (some a) r w h = h

  pub accept-Keeps : (o : Option ErrorText) → Keeps {R = R} (accept o)
  accept-Keeps none w h = h
  accept-Keeps (some text) w h = h

  pub tenant_id-Keeps : (t : Option Tenant) → Keeps {R = R} (tenant_id t)
  unfolding tenant_id
  tenant_id-Keeps none w h = h
  tenant_id-Keeps (some t) w h = h

  pub require_enabled-Keeps :
      (t : Uuid) (channel : String)
      → Keeps (require_enabled env svc parse_uuid parse_time t channel)
  require_enabled-Keeps t channel w h =
      let u = require_enabled-Untouched env svc parse_uuid parse_time t channel w in
      subst (λ t. All NotDelivered t.notifications) (sym u.tables) h

  pub content-Keeps :
      (t : Uuid) (text : String) (c : Channel) (vars : Vars) (subject body : String)
      → Keeps (content env svc parse_uuid parse_time t text c vars subject body)
  content-Keeps t text c vars subject body w h =
      let u = content-Untouched env svc parse_uuid parse_time t text c vars subject body w in
      subst (λ t. All NotDelivered t.notifications) (sym u.tables) h

  pub answer_batch-Keeps :
      (owner : Uuid) (q : BatchSendRequest) (x : Option Uuid × String × String)
      → Keeps (answer_batch env svc parse_uuid parse_time owner q x)
  unfolding answer_batch
  answer_batch-Keeps owner q x w h = send_recipients-NoneDelivered owner q x 0 q.recipients w h

  trying-Keeps : {A : Type 0} (m : Io R A) (f : Error → Response) → Keeps m → Keeps (trying m f)
  trying-Keeps m f k w h = elim (Result-cases (m w).0) [
    | inl (a, e) ↦
        let step : (trying m f w).1 ≡ (m w).1 = ground arith in
        subst NoneDelivered (sym step) (k w h)
    | inr (x, e) ↦
        let step : (trying m f w).1 ≡ (m w).1 = ground arith in
        subst NoneDelivered (sym step) (k w h)
  ]

  create_and_queue-Keeps :
      (p : CreateNotificationParams) (publishes : Bool) (s : Status)
      → p.status ≡ some s
      → status_eq s delivered ≡ false
      → Keeps (create_and_queue env svc p publishes)
  create_and_queue-Keeps p publishes s e f w h =
      elim (Result-cases (create_and_queue env svc p publishes w).0) [
        | inr (x, g) ↦
            subst (λ t. All NotDelivered t.notifications)
              (sym (create_and_queue_atomic env svc p publishes w g)) h
        | inl ((n, d), g) ↦
            let made = create_and_queue-Queued env svc p publishes s w {n = n} {d = d} e g in
            subst (λ t. All NotDelivered t.notifications) (sym made.tables)
              (All-append NotDelivered w.tables.notifications (n ∷ []) h (new n made.row, tt))
      ]
    where
      new : (n : Notification) → n ≡ new_row p n.created_at → NotDelivered n
      new n g = unfold new_row in ground arith

  pub answer_schedule-Keeps :
      (owner : Uuid) (r : SendNotificationRequest) (at : Time) (x : Option Uuid × String × String)
      → Keeps (answer_schedule env svc parse_uuid parse_time owner r at x)
  unfolding answer_schedule
  answer_schedule-Keeps owner r at x w h = subst (All NotDelivered) (sym same) (
      create_and_queue-Keeps params false pending refl (unfold status_eq in refl)
        (record w { calls = suc w.calls }) h)
    where
      params : CreateNotificationParams
      params = record (send_params env svc parse_uuid parse_time (env.fresh w.calls) owner r x) {
        status = some pending;
        idempotency_key = r.idempotency_key;
        scheduled_at = some at;
      }

      made : Result (Notification × NotificationDelivery) × World R
      made = create_and_queue env svc params false (record w { calls = suc w.calls })

      same :
          (answer_schedule env svc parse_uuid parse_time owner r at x w).1.tables.notifications
          ≡ made.1.tables.notifications
      same = elim (Result-cases made.0) [
        | inl (c, e) ↦ unfold new_uuid send_params Scheduled.create in ground arith
        | inr (y, e) ↦ unfold new_uuid send_params in ground arith
      ]

  pub validated-Keeps :
      (q : ScheduleNotificationRequest)
      → Keeps (λ (w : World R). accept (validate_schedule parse_time (env.clock w.calls) q) w)
  validated-Keeps q w h = accept-Keeps (validate_schedule parse_time (env.clock w.calls) q) w h
