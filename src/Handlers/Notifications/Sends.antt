-- ===== src/Handlers/Notifications/Sends.antt =====
-- How Send answers, and what it has done then.
use notifyx.Prelude.{
  List, ℕ, sym, String, ◌≡◌, ◌∙◌, ap, subst, Bool, true, false, ◌&&◌, Option, none, some, [], ◌∷◌,
  ◌++◌, arith, if◌then◌else◌,
}
use notifyx.Domain.{
  Uuid, Time, Status, Notification, NotificationDelivery, Tenant, to_channel, topic_for_channel,
  NotificationTemplate,
}
use notifyx.Postgres.{Tables, Env, World}
use notifyx.Postgres.Notifications.{CreateNotificationParams, new_row, or_empty}
use notifyx.Postgres.Settings.{enabled_in}
use notifyx.Kafka.{message_for}
use notifyx.Handlers.Response.{
  ErrorText, sent_body, Response, Flow, responds, status_created, err_response, is_error,
}
use notifyx.Handlers.Requests.{SendNotificationRequest, validate_send}
use notifyx.Handlers.Pipeline.{
  NotificationService, Outcome, sent, refused, process_send, sent_message,
}
use notifyx.Handlers.Pipeline.Sending.{Untouched, initial, process_send_refused}
use notifyx.Handlers.Pipeline.Sent.{Fresh, SentRight, process_send-SentRight}
use notifyx.Handlers.Notifications.{answer_send, send}
use notifyx.Handlers.Notifications.Courses.{
  stops, reaches, send-Course, Content, MadeOf, PriorityOf,
}

module _ {R : Type 0} (env : Env) (svc : NotificationService R) where
  pub process_send-Fresh :
      (key : String) (p : CreateNotificationParams) (w : World R) {i : Uuid} {s : Status}
      → (process_send env svc key p w).0 ≡ sent i s false
      → Fresh env svc key p w (process_send env svc key p w).1 i s
  process_send-Fresh key p w {i} {s} h =
      subst (λ o. SentRight env svc key p w (o, (process_send env svc key p w).1)) h
        (process_send-SentRight env svc key p w)

  -- One notification of the tenant's is new, made of the request, with its delivery row; it is
  -- published if and only if it is not held back and Kafka is configured.
  pub record SentFor (parse_uuid : String → Option Uuid) (t : Tenant) (r : SendNotificationRequest)
      (w w' : World R) (i : Uuid) (s : Status) : Type 0 where
    pub n : Notification
    pub d : NotificationDelivery
    pub publishes : Bool
    pub tables : w'.tables ≡ record w.tables {
      notifications = w.tables.notifications ++ n ∷ [];
      deliveries = w.tables.deliveries ++ d ∷ [];
    }
    pub published : w'.published ≡ (
        if publishes && svc.producer
        then (
          topic_for_channel (to_channel r.channel),
          record (message_for n d) { metadata = r.metadata },
        )
          ∷ w.published
        else w.published)
    pub ids : (n.id ≡ i) × (d.notification_id ≡ i)
    pub status : (s ≡ initial publishes) × (n.status ≡ s) × (d.status ≡ s)
    pub of_request :
        (n.tenant_id ≡ t.id)
        × (n.channel ≡ to_channel r.channel)
        × (n.idempotency_key ≡ r.idempotency_key)
        × (n.recipient_id ≡ r.recipient_id)
        × (n.recipient_email ≡ r.recipient_email)
        × (n.recipient_phone ≡ r.recipient_phone)
        × (n.recipient_token ≡ r.recipient_token)
        × (n.metadata ≡ or_empty r.metadata)
        × (n.scheduled_at ≡ none)
    pub priority_is : PriorityOf r n.priority
    pub content_is : Content parse_uuid t r w.tables.templates n.template_id n.subject n.body

  pub made_of_params :
      (parse_uuid : String → Option Uuid) (n : Notification) (p : CreateNotificationParams)
      (t : Tenant) (r : SendNotificationRequest) (ts : List NotificationTemplate)
      → n.template_id ≡ p.template_id
      → n.subject ≡ p.subject
      → n.body ≡ p.body
      → Content parse_uuid t r ts p.template_id p.subject p.body
      → Content parse_uuid t r ts n.template_id n.subject n.body
  made_of_params parse_uuid n p t r ts a b c x =
      subst (λ i. Content parse_uuid t r ts i n.subject n.body) (sym a)
        (subst (λ s. Content parse_uuid t r ts p.template_id s n.body) (sym b)
          (subst (λ s. Content parse_uuid t r ts p.template_id p.subject s) (sym c) x))

  SentFor-of_Fresh :
      (parse_uuid : String → Option Uuid) (t : Tenant) (r : SendNotificationRequest)
      (p : CreateNotificationParams) (w0 w w' : World R) {i : Uuid} {s : Status}
      → MadeOf parse_uuid t r w0.tables.templates p
      → Untouched w0 w
      → Fresh env svc r.idempotency_key p w w' i s
      → SentFor parse_uuid t r w0 w' i s
  unfolding new_row sent_message message_for
  SentFor-of_Fresh parse_uuid t r p w0 w w' same u f = record {
    n = f.n;
    d = f.d;
    publishes = f.publishes;
    tables =
        f.queued.tables
        ∙ ap {A = Tables}
            (λ x. record x {
              notifications = x.notifications ++ f.n ∷ [];
              deliveries = x.deliveries ++ f.d ∷ [];
            })
            u.tables;
    published = ground (
      arith, f.queued.published, f.queued.row, u.published, f.queued.delivery, same.tenant_is,
      same.channel_is, same.recipients, same.metadata_is,
    );
    ids = (ground (arith, f.answer_is), ground (arith, f.answer_is, f.queued.delivery));
    status = (
      ground (arith, f.answer_is),
      ground (arith, f.answer_is, f.queued.row),
      ground (arith, f.answer_is, f.queued.delivery),
    );
    of_request = ground (
      arith, f.queued.row, same.tenant_is, same.channel_is, same.recipients, same.metadata_is,
      same.unscheduled,
    );
    priority_is = subst (PriorityOf r) (ground (arith, f.queued.row)) same.priority_is;
    content_is =
        made_of_params parse_uuid (f.n) p t r w0.tables.templates (ground (arith, f.queued.row))
          (ground (arith, f.queued.row)) (ground (arith, f.queued.row)) same.content_is;
  }

module _ {R : Type 0} (env : Env) (svc : NotificationService R) (parse_uuid : String → Option Uuid)
    (parse_time : String → Option Time) where
  abbrev answered : Outcome × World R → Flow Response × World R
  answered x = answer_send env svc parse_uuid parse_time x

  -- The outcome behind a 201 answer is a fresh one.
  created_outcome :
      (x : Outcome × World R) {i : Uuid} {s : Status}
      → (answered x).0 ≡ responds (record { status = status_created; body = sent_body i s })
      → (x.0 ≡ sent i s false) × ((answered x).1 ≡ x.1)
  unfolding answer_send
  created_outcome (sent i s true, w) h = absurd (ground arith)
  created_outcome (sent i s false, w) h = ground arith
  created_outcome (refused text, w) h = absurd (ground arith)

  error_outcome :
      (x : Outcome × World R) {status : ℕ} {text : ErrorText}
      → (answered x).0 ≡ responds (err_response status text)
      → (x.0 ≡ refused text) × ((answered x).1 ≡ x.1)
  unfolding answer_send
  error_outcome (sent i s true, w) h = absurd (ground arith)
  error_outcome (sent i s false, w) h = absurd (ground arith)
  error_outcome (refused text, w) h = ground arith

  -- Send with status 201: the request was valid, its channel was enabled for the tenant, and
  -- exactly one notification of the tenant is new, with its delivery row. It has the request's
  -- channel, idempotency key, addresses, priority (normal where it gives none) and metadata, no
  -- scheduled time, and the request's subject and body, or where the request names a template, the
  -- template's id and its subject and body rendered with the request's variables. Its message is
  -- published if and only if it is not held back and Kafka is configured.
  pub send_created :
      (t : Tenant) (r : SendNotificationRequest) (w : World R) {i : Uuid} {s : Status}
      → (send env svc parse_uuid parse_time (some t) (some r) w).0
        ≡ responds (record { status = status_created; body = sent_body i s })
      → (validate_send r ≡ none)
        × (enabled_in w.tables.tenant_channels t.id (to_channel r.channel) ≡ true)
        × SentFor env svc parse_uuid t r w
            (send env svc parse_uuid parse_time (some t) (some r) w).1
            i
            s
  send_created t r w {i} {s} h = elim (send-Course env svc parse_uuid parse_time t r w) [
    | stops x e f u ↦ absurd (unfold is_error in ground arith)
    | reaches p w' e f same u step ↦
        let x = process_send env svc r.idempotency_key p w' in
        let o = created_outcome x {i = i} {s = s} (ap (λ y. y.0) (sym step) ∙ h) in
        let fresh = process_send-Fresh env svc r.idempotency_key p w' {i = i} {s = s} (o.0) in
        (
          e,
          f,
          subst (λ y. SentFor env svc parse_uuid t r w y i s) (sym (ap (λ y. y.1) step ∙ o.1))
              (SentFor-of_Fresh env svc parse_uuid t r p w w' x.1 same u fresh),
        )
  ]

  -- A Send that is answered with an error has written no table row.
  send_error :
      (t : Tenant) (r : SendNotificationRequest) (w : World R) {status : ℕ} {text : ErrorText}
      → (send env svc parse_uuid parse_time (some t) (some r) w).0
        ≡ responds (err_response status text)
      → (send env svc parse_uuid parse_time (some t) (some r) w).1.tables ≡ w.tables
  send_error t r w {status} {text} h = elim (send-Course env svc parse_uuid parse_time t r w) [
    | stops x e f u ↦ u.tables
    | reaches p w' e f same u step ↦
        let x = process_send env svc r.idempotency_key p w' in
        let o = error_outcome x {text = text} (ap (λ y. y.0) (sym step) ∙ h) in
        ap (λ y. y.1.tables) step
        ∙ ap (λ y. y.tables) (o.1)
        ∙ process_send_refused env svc r.idempotency_key p w' {text = text} (o.0)
        ∙ u.tables
  ]
