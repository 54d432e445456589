-- ===== src/Handlers/Templates/Stored.antt =====
-- What the handlers Get of backend/internal/api/handlers/template.go and Send of notification.go make
-- of a template that was created, updated or deleted before.
use notifyx.Prelude.{
  ℕ, ◌≡◌, refl, Bool, true, false, not, ◌&&◌, Option, none, some, List, [], ◌∷◌, ◌++◌, arith,
  String, ◌==◌, ==_refl, any, find, find-append, find-select, select, All, is_not_found-not_found,
  Option-cases, inl, inr, ◌∙◌, if◌then◌else◌, is_already_exists, is_unique_violation, pg_error,
}
use notifyx.Domain.{Uuid, to_channel, channel_eq_refl, Tenant, NotificationTemplate}
use notifyx.Template.{Vars, render}
use notifyx.Postgres.{Env, World}
use notifyx.Postgres.Templates
use notifyx.Postgres.Templates.{
  is_owned, name_taken, insert_row, update_row, found, writing, write_error,
}
use notifyx.Handlers.Response.{
  responds, goes_on, err_response, template_body, no_body, template_not_found, template_name_taken,
  status_ok, status_created, status_no_content, status_not_found, status_conflict,
}
use notifyx.Handlers.Templates.{TemplateRequest, validate_template, create, get, delete}
use notifyx.Handlers.Notifications.{tenant_id, resolve_template}
use notifyx.Handlers.Pipeline.{NotificationService}

none_owned :
    (o i : Uuid) (xs : List NotificationTemplate)
    → any (λ y. y.id == i) xs ≡ false
    → any (is_owned o i) xs ≡ false
unfolding any is_owned
none_owned o i [] h = refl
none_owned o i (x ∷ xs) h = ground (arith, none_owned o i xs)

is_already_exists-write_error :
    (s text : String) → is_already_exists (write_error s (pg_error "23505" text)) ≡ true
unfolding is_already_exists write_error is_unique_violation
is_already_exists-write_error s text = refl

module _ {R : Type 0} (env : Env) (parse_uuid : String → Option Uuid) (t : Tenant) where
  -- The row that Create writes.
  abbrev pub template_row : TemplateRequest → World R → NotificationTemplate
  template_row r w = record {
    id = env.fresh w.calls;
    tenant_id = t.id;
    name = r.name;
    channel = to_channel r.channel;
    subject = r.subject;
    body = r.body;
    created_at = env.clock w.calls;
    updated_at = env.clock w.calls;
  }

  created_of_201 :
      (r : TemplateRequest) (w : World R) {x : NotificationTemplate}
      → (create env parse_uuid (some t) (some r) w).0
        ≡ responds (record { status = status_created; body = template_body x })
      → (x ≡ template_row r w)
        × ((create env parse_uuid (some t) (some r) w).1.tables.templates
            ≡ w.tables.templates ++ template_row r w ∷ [])
  unfolding create tenant_id Templates.create writing insert_row
  created_of_201 r w h = ground arith

  owned_row :
      (r : TemplateRequest) (w : World R)
      → any (λ y. y.id == env.fresh w.calls) w.tables.templates ≡ false
      → find (is_owned t.id (env.fresh w.calls)) (w.tables.templates ++ template_row r w ∷ [])
        ≡ some (template_row r w)
  owned_row r w h =
      find-append (is_owned t.id (env.fresh w.calls)) w.tables.templates (template_row r w ∷ [])
        (none_owned t.id (env.fresh w.calls) w.tables.templates h)
      ∙ (unfold find is_owned in ground (arith, ==_refl t.id, ==_refl (env.fresh w.calls)))

  -- A template that Create answered with 201 has the fields of the request and the tenant's id, and
  -- Get shows exactly that template for its id, where the id that the database gave is new, the query
  -- does not fail and `text` is the id's text.
  get-create :
      (r : TemplateRequest) (text : String) (w : World R) {x : NotificationTemplate}
      → (create env parse_uuid (some t) (some r) w).0
        ≡ responds (record { status = status_created; body = template_body x })
      → any (λ y. y.id == x.id) w.tables.templates ≡ false
      → parse_uuid text ≡ some x.id
      → env.fault (create env parse_uuid (some t) (some r) w).1.calls ≡ none
      → (x.tenant_id ≡ t.id)
        × (x.name ≡ r.name)
        × (x.channel ≡ to_channel r.channel)
        × (x.subject ≡ r.subject)
        × (x.body ≡ r.body)
        × ((get env parse_uuid (some t) text (create env parse_uuid (some t) (some r) w).1).0
            ≡ responds (record { status = status_ok; body = template_body x }))
  unfolding get tenant_id Templates.get_by_id found
  get-create r text w {x} h fresh p f =
      let (e, rows) = created_of_201 r w h in
      let stored = owned_row r w (ground (arith, fresh, e)) in
      (
        ground arith,
        ground arith,
        ground arith,
        ground arith,
        ground arith,
        ground (arith, stored, rows, e),
      )

  -- Send's resolveTemplate, for a template that was just created and the same channel, gives the
  -- template's id and the request's subject and body with the variables filled in.
  pub resolve_template-create :
      (svc : NotificationService R) (parse_time : String → Option ℕ) (r : TemplateRequest)
      (text : String) (vars : Vars) (w : World R) {x : NotificationTemplate}
      → (create env parse_uuid (some t) (some r) w).0
        ≡ responds (record { status = status_created; body = template_body x })
      → any (λ y. y.id == x.id) w.tables.templates ≡ false
      → parse_uuid text ≡ some x.id
      → env.fault (create env parse_uuid (some t) (some r) w).1.calls ≡ none
      → (resolve_template env svc parse_uuid parse_time t.id text
          (to_channel r.channel)
          vars
          (create env parse_uuid (some t) (some r) w).1).0
        ≡ goes_on (x.id, render r.subject vars, render r.body vars)
  unfolding resolve_template Templates.get_by_id found
  resolve_template-create svc parse_time r text vars w {x} h fresh p f =
      let (e, rows) = created_of_201 r w h in
      let stored = owned_row r w (ground (arith, fresh, e)) in
      ground (arith, stored, rows, e, channel_eq_refl (to_channel r.channel))

  -- After Delete answered 204, Get answers 404 for the same id, where the query does not fail.
  get-delete :
      (param : String) (w : World R)
      → (delete env parse_uuid (some t) param w).0
        ≡ responds (record { status = status_no_content; body = no_body })
      → env.fault (delete env parse_uuid (some t) param w).1.calls ≡ none
      → (get env parse_uuid (some t) param (delete env parse_uuid (some t) param w).1).0
        ≡ responds (err_response status_not_found template_not_found)
  unfolding get delete tenant_id Templates.get_by_id Templates.delete found
  get-delete param w h f = elim (Option-cases (parse_uuid param)) [
    | inl e ↦ absurd (ground arith)
    | inr (i, e) ↦
        let gone : find (is_owned t.id i) (select (λ x. not (is_owned t.id i x)) w.tables.templates)
            ≡ none =
          find-select (is_owned t.id i) (λ x. not (is_owned t.id i x)) w.tables.templates
            (never (is_owned t.id i) w.tables.templates) in
        ground (arith, gone, is_not_found-not_found)
  ]
    where
      never : {A : Type 0} (p : A → Bool) (xs : List A) → All (λ x. (p x && not (p x)) ≡ false) xs
      never p [] = tt
      never p (x ∷ xs) = (ground arith, never p xs)

  -- A valid request to create a template, where the queries do not fail and the tenant exists, is
  -- refused with 409 when the tenant has a template of that name already, and then nothing is written;
  -- else it is answered with 201 and the new template.
  create_conflict :
      (r : TemplateRequest) (w : World R)
      → validate_template r ≡ none
      → env.fault w.calls ≡ none
      → any (λ x. x.id == t.id) w.tables.tenants ≡ true
      → ((create env parse_uuid (some t) (some r) w).0
          ≡ responds (
              if name_taken w.tables.templates (env.fresh w.calls) t.id r.name
              then err_response status_conflict (template_name_taken r.name)
              else record { status = status_created; body = template_body (template_row r w) }))
        × ((create env parse_uuid (some t) (some r) w).1.tables.templates ≡ (
            if name_taken w.tables.templates (env.fresh w.calls) t.id r.name
            then w.tables.templates
            else w.tables.templates ++ template_row r w ∷ []))
  unfolding create tenant_id Templates.create writing insert_row
  create_conflict r w v f e =
      ground (arith, is_already_exists-write_error "create template" (env.violation "23505"))
