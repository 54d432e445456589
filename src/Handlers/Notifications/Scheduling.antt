-- ===== src/Handlers/Notifications/Scheduling.antt =====
-- How Schedule answers, and what it has done then.
use notifyx.Prelude.{
  suc, String, ◌≡◌, ◌≢◌, true, refl, false, Option, some, [], ◌∷◌, ◌++◌, arith, Result-cases, inl,
  inr, none, Option-cases, ap, sym, subst, ◌∙◌,
}
use notifyx.Template.{Vars}
use notifyx.Postgres.Settings
use notifyx.Postgres.Templates
use notifyx.Domain.{
  Channel, to_channel, Tenant, Uuid, Time, Notification, NotificationDelivery,
  ScheduledNotification, pending,
}
use notifyx.Postgres.{Env, World, Tables}
use notifyx.Postgres.Notifications.{new_row, or_empty}
use notifyx.Handlers.Response.{responds, Flow, Flow-cases, status_created, Response}
use notifyx.Handlers.Requests.{ScheduleNotificationRequest, validate_schedule, priority_or_normal}
use notifyx.Handlers.Pipeline.{NotificationService}
use notifyx.Handlers.Pipeline.Persisting.{create_and_queue-Queued}
use notifyx.Handlers.Pipeline.Sending.{Untouched}
use notifyx.Handlers.Notifications.Courses.{
  Content, PriorityOf, content_of_goes_on, PriorityOf-valid,
}
use notifyx.Handlers.Notifications.{
  answer_schedule, new_uuid, send_params, schedule, resolve_template, tenant_id, require_enabled,
  content,
}
use notifyx.Handlers.Notifications.Access.{
  require_enabled-Untouched, require_enabled_passes, content-Untouched, require_enabled_calm,
  content_calm,
}
use notifyx.Handlers.Notifications.Sends.{made_of_params}
use notifyx.Handlers.Notifications.Schedules.{schedule_params, persisted, answer_schedule_created}
use notifyx.Postgres.Settings.{enabled_in}

module _ {R : Type 0} (env : Env) (svc : NotificationService R) (parse_uuid : String → Option Uuid)
    (parse_time : String → Option Time) where
  -- What Schedule leaves: a pending notification of the tenant's that is made of the request, its
  -- delivery row, and a schedule row for it that is not fired and is due at the request's time.
  pub record ScheduledFor (t : Tenant) (q : ScheduleNotificationRequest) (w w' : World R)
      : Type 0 where
    pub n : Notification
    pub d : NotificationDelivery
    pub s : ScheduledNotification
    pub tables : w'.tables ≡ record w.tables {
      notifications = w.tables.notifications ++ n ∷ [];
      deliveries = w.tables.deliveries ++ d ∷ [];
      scheduled = w.tables.scheduled ++ s ∷ [];
    }
    pub published : w'.published ≡ w.published
    pub at_is : parse_time q.scheduled_at ≡ some s.scheduled_at
    pub row : (s.notification_id ≡ n.id) × (s.fired ≡ false)
    pub delivery : (d.notification_id ≡ n.id) × (d.status ≡ pending)
    pub of_request :
        (n.tenant_id ≡ t.id)
        × (n.channel ≡ to_channel q.send.channel)
        × (n.status ≡ pending)
        × (n.scheduled_at ≡ some s.scheduled_at)
        × (n.idempotency_key ≡ q.send.idempotency_key)
        × (n.recipient_id ≡ q.send.recipient_id)
        × (n.recipient_email ≡ q.send.recipient_email)
        × (n.recipient_phone ≡ q.send.recipient_phone)
        × (n.recipient_token ≡ q.send.recipient_token)
        × (n.metadata ≡ or_empty q.send.metadata)
    pub priority_is : PriorityOf q.send n.priority
    pub content_is : Content parse_uuid t q.send w.tables.templates n.template_id n.subject n.body

  require_enabled-ne-created :
      (t : Uuid) (channel : String) (w : World R) {x : Response}
      → (require_enabled env svc parse_uuid parse_time t channel w).0 ≡ responds x
      → x.status ≢ status_created
  unfolding require_enabled Settings.is_enabled
  require_enabled-ne-created t channel w h e = ground arith

  content-ne-created :
      (t : Uuid) (text : String) (c : Channel) (vars : Vars) (subject body : String) (w : World R)
      {x : Response}
      → (content env svc parse_uuid parse_time t text c vars subject body w).0 ≡ responds x
      → x.status ≢ status_created
  unfolding content resolve_template Templates.get_by_id
  content-ne-created t text c vars subject body w h e = ground arith

  answer_schedule-ScheduledFor :
      (t : Tenant) (q : ScheduleNotificationRequest) (at : Time) (x : Option Uuid × String × String)
      (w0 w : World R) {res : Response}
      → Untouched w0 w
      → parse_time q.scheduled_at ≡ some at
      → PriorityOf q.send (priority_or_normal q.send.priority)
      → Content parse_uuid t q.send w0.tables.templates (x.0) (x.1) (x.2)
      → (answer_schedule env svc parse_uuid parse_time t.id q.send at x w).0 ≡ responds res
      → res.status ≡ status_created
      → ScheduledFor t q w0 (answer_schedule env svc parse_uuid parse_time t.id q.send at x w).1
  answer_schedule-ScheduledFor t q at x w0 w u p prio c h e =
      elim (Result-cases (persisted env svc parse_uuid parse_time t.id q.send at x w).0) [
        | inr (y, f) ↦ absurd (unfold answer_schedule new_uuid in ground arith)
        | inl ((n, d), f) ↦
            let made =
              answer_schedule_created env svc parse_uuid parse_time t.id q.send at x w {n = n}
                {d = d} f h e in
            let k =
              create_and_queue-Queued env svc
                (schedule_params env svc parse_uuid parse_time t.id q.send at x w) false pending
                (record w { calls = suc w.calls }) {n = n} {d = d} refl f in
            record {
              n = n;
              d = d;
              s = made.0;
              tables =
                  made.1
                  ∙ ap {A = Tables}
                      (λ x. record x {
                        notifications = x.notifications ++ n ∷ [];
                        deliveries = x.deliveries ++ d ∷ [];
                        scheduled = x.scheduled ++ made.0 ∷ [];
                      })
                      u.tables;
              published = made.7 ∙ u.published;
              at_is = p ∙ ap some (sym (made.3));
              row = (made.2, made.4);
              delivery = (k.delivery.0, k.delivery.1);
              of_request = unfold new_row send_params in ground (arith, k.row, made.3);
              priority_is =
                  let same : priority_or_normal q.send.priority ≡ n.priority =
                    unfold new_row send_params in ground (arith, k.row) in
                  subst (PriorityOf q.send) same prio;
              content_is =
                  made_of_params env svc parse_uuid n
                    (schedule_params env svc parse_uuid parse_time t.id q.send at x w) t q.send
                    w0.tables.templates (unfold new_row in ground (arith, k.row))
                    (unfold new_row in ground (arith, k.row))
                    (unfold new_row in ground (arith, k.row)) (unfold send_params in c);
            }
      ]

  -- Schedule with status 201: the request was valid and its channel was enabled for the tenant; it has
  -- published nothing and has added exactly one pending notification of the tenant, its delivery row,
  -- and a schedule row for it that is not fired and is due at the time that the request's scheduled_at
  -- reads as. The notification has that time and the request's channel, idempotency key, addresses,
  -- priority (normal where it gives none) and metadata, and the request's subject and body, or those
  -- of the template that it names, rendered with its variables.
  pub schedule_created :
      (t : Tenant) (q : ScheduleNotificationRequest) (w : World R) {res : Response}
      → (schedule env svc parse_uuid parse_time (some t) (some q) w).0 ≡ responds res
      → res.status ≡ status_created
      → (validate_schedule parse_time (env.clock w.calls) q ≡ none)
        × (enabled_in w.tables.tenant_channels t.id (to_channel q.send.channel) ≡ true)
        × ScheduledFor t q w (schedule env svc parse_uuid parse_time (some t) (some q) w).1
  unfolding schedule tenant_id
  schedule_created t q w h e =
      elim (Option-cases (validate_schedule parse_time (env.clock w.calls) q)) [
        | inr (text, v) ↦ absurd (ground arith)
        | inl v ↦ elim (Option-cases (parse_time q.scheduled_at)) [
          | inl p ↦ absurd (ground arith)
          | inr (at, p) ↦ elim (Flow-cases checked.0) [
            | inr (inr f) ↦
                absurd (require_enabled_calm env svc parse_uuid parse_time t.id q.send.channel w f)
            | inr (inl (x, f)) ↦
                absurd (require_enabled-ne-created t.id q.send.channel w f (ground arith))
            | inl (y, f) ↦ elim (Flow-cases got.0) [
              | inr (inr g) ↦ absurd (
                  content_calm env svc parse_uuid parse_time t.id q.send.template_id
                    (to_channel q.send.channel) q.send.variables q.send.subject q.send.body
                    checked.1 g)
              | inr (inl (x, g)) ↦ absurd (
                  content-ne-created t.id q.send.template_id (to_channel q.send.channel)
                    q.send.variables q.send.subject q.send.body checked.1 g (ground arith))
              | inl (x, g) ↦
                  let end = answer_schedule env svc parse_uuid parse_time t.id q.send at x got.1 in
                  let step : schedule env svc parse_uuid parse_time (some t) (some q) w ≡ end =
                    ground arith in
                  (
                    v,
                    require_enabled_passes env svc parse_uuid parse_time t.id q.send.channel w
                        (ground arith),
                    subst (λ y. ScheduledFor t q w y) (sym (ap (λ y. y.1) step))
                        (answer_schedule-ScheduledFor t q at x w got.1
                          (record {
                            tables = b.tables ∙ a.tables;
                            published = b.published ∙ a.published;
                          })
                          p
                          (PriorityOf-valid env svc parse_uuid parse_time q.send
                            (unfold validate_schedule in ground arith))
                          (subst (λ ts. Content parse_uuid t q.send ts (x.0) (x.1) (x.2))
                            (ap (λ y. y.templates) a.tables)
                            (content_of_goes_on env svc parse_uuid parse_time t q.send checked.1
                              {x = x} g))
                          (sym (ap (λ y. y.0) step) ∙ h) e),
                  )
            ]
          ]
        ]
      ]
    where
      checked : Flow (Unit {0}) × World R
      checked = require_enabled env svc parse_uuid parse_time t.id q.send.channel w

      got : Flow (Option Uuid × String × String) × World R
      got =
          content env svc parse_uuid parse_time t.id q.send.template_id (to_channel q.send.channel)
            q.send.variables q.send.subject q.send.body checked.1

      a : Untouched w checked.1
      a = require_enabled-Untouched env svc parse_uuid parse_time t.id q.send.channel w

      b : Untouched checked.1 got.1
      b =
          content-Untouched env svc parse_uuid parse_time t.id q.send.template_id
            (to_channel q.send.channel) q.send.variables q.send.subject q.send.body checked.1
