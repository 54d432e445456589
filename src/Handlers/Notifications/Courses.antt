-- ===== src/Handlers/Notifications/Courses.antt =====
-- The steps of Send before processSend.
use notifyx.Prelude.{
  Bool-cases, str_eq, str_eq_iff, suc, false, subst, ap, find, List, String, ◌≡◌, refl, ◌∙◌, true,
  Option, none, some, arith, Option-cases, inl, inr,
}
use notifyx.Domain.{
  Uuid, Time, Tenant, to_channel, channel_eq, NotificationTemplate, Priority, normal,
}
use notifyx.Postgres.Templates
use notifyx.Postgres.Templates.{is_owned, found}
use notifyx.Template.{render}
use notifyx.Postgres.{Env, World}
use notifyx.Postgres.Notifications.{CreateNotificationParams}
use notifyx.Postgres.Settings.{enabled_in}
use notifyx.Handlers.Response.{
  Response, Flow, goes_on, responds, err_response, status_unprocessable_entity, is_error,
  Flow-cases,
}
use notifyx.Handlers.Requests.{
  SendNotificationRequest, validate_send, to_priority, priority_or_normal, is_valid_priority,
}
use notifyx.Handlers.Pipeline.{NotificationService, process_send}
use notifyx.Handlers.Pipeline.Sending.{Untouched}
use notifyx.Handlers.Notifications.{
  require_enabled, content, new_uuid, answer_send, send, tenant_id, send_params, resolve_template,
}
use notifyx.Handlers.Notifications.Access.{
  require_enabled-Untouched, require_enabled_passes, content-Untouched, require_enabled_stops,
  require_enabled_calm, content_stops, content_calm,
}

-- The priority that a request asks for: its own, or normal where it has none.
abbrev pub PriorityOf : SendNotificationRequest → Priority → Type 0
PriorityOf r x =
    (str_eq r.priority "" ≡ true → x ≡ normal)
    × (str_eq r.priority "" ≡ false → to_priority r.priority ≡ some x)

present_priority :
    (s : String) → is_valid_priority s ≡ true → to_priority s ≡ some (priority_or_normal s)
unfolding is_valid_priority priority_or_normal
present_priority s h = ground (arith, Option-cases (to_priority s))

module _ (parse_uuid : String → Option Uuid) where
  -- The id, the subject and the body that a request asks for: its own, or those of a template of the
  -- tenant's for the request's channel, with the variables filled in.
  pub data Content (t : Tenant) (r : SendNotificationRequest) (ts : List NotificationTemplate)
      (i : Option Uuid) (subject body : String) : Type 0 where
    own :
        str_eq r.template_id "" ≡ true
        → i ≡ none
        → subject ≡ r.subject
        → body ≡ r.body
        → Content t r ts i subject body
    rendered :
        (u : Uuid) (x : NotificationTemplate)
        → parse_uuid r.template_id ≡ some u
        → find (is_owned t.id u) ts ≡ some x
        → channel_eq x.channel (to_channel r.channel) ≡ true
        → i ≡ some x.id
        → subject ≡ render x.subject r.variables
        → body ≡ render x.body r.variables
        → Content t r ts i subject body

  -- The params are made of the request, field by field.
  pub record MadeOf (t : Tenant) (r : SendNotificationRequest) (ts : List NotificationTemplate)
      (p : CreateNotificationParams) : Type 0 where
    pub tenant_is : p.tenant_id ≡ t.id
    pub channel_is : p.channel ≡ to_channel r.channel
    pub priority_is : PriorityOf r p.priority
    pub recipients :
        (p.recipient_id ≡ r.recipient_id)
        × (p.recipient_email ≡ r.recipient_email)
        × (p.recipient_phone ≡ r.recipient_phone)
        × (p.recipient_token ≡ r.recipient_token)
    pub content_is : Content t r ts p.template_id p.subject p.body
    pub metadata_is : p.metadata ≡ r.metadata
    pub unscheduled : p.scheduled_at ≡ none

module _ {R : Type 0} (env : Env) (svc : NotificationService R) (parse_uuid : String → Option Uuid)
    (parse_time : String → Option Time) where
  -- The priority of a request, which Validate accepted: normal where the request has none.
  pub PriorityOf-valid :
      (r : SendNotificationRequest)
      → validate_send r ≡ none
      → PriorityOf r (priority_or_normal r.priority)
  PriorityOf-valid r v = (
    λ e.
        let empty : r.priority ≡ "" = ground (arith, str_eq_iff r.priority "") in
        let default : priority_or_normal "" ≡ normal =
          unfold priority_or_normal to_priority in refl in
        ap priority_or_normal empty ∙ default,
    λ e. present_priority r.priority (unfold validate_send in ground arith),
  )

  pub content_of_goes_on :
      (t : Tenant) (r : SendNotificationRequest) (w : World R) {x : Option Uuid × String × String}
      → (content env svc parse_uuid parse_time t.id r.template_id
          (to_channel r.channel)
          r.variables
          r.subject
          r.body
          w).0
        ≡ goes_on x
      → Content parse_uuid t r w.tables.templates (x.0) (x.1) (x.2)
  unfolding content resolve_template Templates.get_by_id found
  content_of_goes_on t r w {x} h = elim (Bool-cases (str_eq r.template_id "")) [
    | inl e ↦ own e (ground arith) (ground arith) (ground arith)
    | inr e ↦ elim (Option-cases (parse_uuid r.template_id)) [
      | inl p ↦ absurd (ground arith)
      | inr (u, p) ↦ elim (Option-cases (find (is_owned t.id u) w.tables.templates)) [
        | inl f ↦ absurd (ground arith)
        | inr (y, f) ↦ rendered u y p f (ground arith) (ground arith) (ground arith) (ground arith)
      ]
    ]
  ]

  -- How Send runs for a tenant: it stops with an error before anything is written, or the request
  -- is valid, its channel is enabled and processSend answers.
  pub data Course (t : Tenant) (r : SendNotificationRequest) (w : World R) : Type 0 where
    stops :
        (x : Response)
        → is_error x ≡ true
        → (send env svc parse_uuid parse_time (some t) (some r) w).0 ≡ responds x
        → Untouched w (send env svc parse_uuid parse_time (some t) (some r) w).1
        → Course t r w
    reaches :
        (p : CreateNotificationParams) (w' : World R)
        → validate_send r ≡ none
        → enabled_in w.tables.tenant_channels t.id (to_channel r.channel) ≡ true
        → MadeOf parse_uuid t r w.tables.templates p
        → Untouched w w'
        → send env svc parse_uuid parse_time (some t) (some r) w
          ≡ answer_send env svc parse_uuid parse_time (process_send env svc r.idempotency_key p w')
        → Course t r w

  pub send-Course : (t : Tenant) (r : SendNotificationRequest) (w : World R) → Course t r w
  unfolding tenant_id new_uuid send_params is_error
  send-Course t r w = elim (Option-cases (validate_send r)) [
    | inr (text, e) ↦
        stops (err_response status_unprocessable_entity text) refl (unfold send in ground arith)
          (unfold send in ground arith)
    | inl e ↦ elim (Flow-cases checked.0) [
      | inr (inr f) ↦ absurd (require_enabled_calm env svc parse_uuid parse_time t.id r.channel w f)
      | inr (inl (x, f)) ↦
          stops x (require_enabled_stops env svc parse_uuid parse_time t.id r.channel w f)
            (unfold send in ground arith) (unfold send in ground (arith, u))
      | inl (y, f) ↦ elim (Flow-cases got.0) [
        | inr (inr g) ↦ absurd (
            content_calm env svc parse_uuid parse_time t.id r.template_id (to_channel r.channel)
              r.variables r.subject r.body checked.1 g)
        | inr (inl (x, g)) ↦
            stops x
              (content_stops env svc parse_uuid parse_time t.id r.template_id (to_channel r.channel)
                r.variables r.subject r.body checked.1 g)
              (unfold send in ground arith) (unfold send in ground (arith, u, v))
        | inl (x, g) ↦
            reaches (send_params env svc parse_uuid parse_time (env.fresh got.1.calls) t.id r x)
              (record got.1 { calls = suc got.1.calls }) e
              (require_enabled_passes env svc parse_uuid parse_time t.id r.channel w (ground arith))
              (record {
                tenant_is = refl;
                channel_is = refl;
                priority_is = PriorityOf-valid r e;
                recipients = (refl, refl, refl, refl);
                content_is =
                    subst (λ ts. Content parse_uuid t r ts (x.0) (x.1) (x.2))
                      (ap (λ y. y.templates) u.tables) (content_of_goes_on t r checked.1 {x = x} g);
                metadata_is = refl;
                unscheduled = refl;
              })
              (record { tables = v.tables ∙ u.tables; published = v.published ∙ u.published })
              (unfold send in ground arith)
      ]
    ]
  ]
    where
      checked : Flow (Unit {0}) × World R
      checked = require_enabled env svc parse_uuid parse_time t.id r.channel w

      got : Flow (Option Uuid × String × String) × World R
      got =
          content env svc parse_uuid parse_time t.id r.template_id (to_channel r.channel)
            r.variables r.subject r.body checked.1

      u : Untouched w checked.1
      u = require_enabled-Untouched env svc parse_uuid parse_time t.id r.channel w

      v : Untouched checked.1 got.1
      v =
          content-Untouched env svc parse_uuid parse_time t.id r.template_id (to_channel r.channel)
            r.variables r.subject r.body checked.1
