-- ===== src/Handlers/Templates/Scoping.antt =====
-- The tenants' templates stay apart under the handlers of
-- backend/internal/api/handlers/template.go.
use notifyx.Prelude.{
  ◌≡◌, refl, true, false, not, Option, none, some, List, arith, String, ◌==◌, ==_refl, select,
  select-update_where, select-select, select-append_other, suc, Option-cases, inl, inr,
}
use notifyx.Domain.{Uuid, Channel, to_channel, Tenant, NotificationTemplate}
use notifyx.Postgres.{Env, World}
use notifyx.Postgres.Templates
use notifyx.Postgres.Templates.{is_owned, insert_row, update_row, found, writing}
use notifyx.Handlers.Templates.{TemplateRequest, create, update, delete}
use notifyx.Handlers.Notifications.{tenant_id}

-- The templates of the other tenants.
abbrev pub foreign : {R : Type 0} → Uuid → World R → List NotificationTemplate
foreign owner w = select (λ x. not (x.tenant_id == owner)) w.tables.templates

owned-hidden :
    (t i : Uuid) (x : NotificationTemplate) → is_owned t i x ≡ true → not (x.tenant_id == t) ≡ false
unfolding is_owned
owned-hidden t i x h = ground arith

module _ {R : Type 0} (env : Env) (parse_uuid : String → Option Uuid) (t : Tenant) where
  foreign-insert_row :
      (x : NotificationTemplate) (w : World R)
      → x.tenant_id ≡ t.id
      → foreign t.id (insert_row env x w).1 ≡ foreign t.id w
  unfolding insert_row
  foreign-insert_row x w e = ground (
    arith,
    select-append_other (λ y. not (y.tenant_id == t.id)) w.tables.templates x
        (ground (arith, ==_refl t.id)),
  )

  foreign-update_row :
      (i : Uuid) (name : String) (f : NotificationTemplate → NotificationTemplate) (w : World R)
      → ((x : NotificationTemplate) → (f x).tenant_id ≡ x.tenant_id)
      → foreign t.id (update_row env t.id i name f w).1 ≡ foreign t.id w
  unfolding update_row found
  foreign-update_row i name f w e = ground (
    arith,
    select-update_where (λ y. not (y.tenant_id == t.id)) (is_owned t.id i) f (owned-hidden t.id i)
        (λ x h. ground (arith, e x, owned-hidden t.id i x h)) w.tables.templates,
  )

  foreign-create_template :
      (name : String) (c : Channel) (subject body : String) (w : World R)
      → foreign t.id (Templates.create env t.id name c subject body w).1 ≡ foreign t.id w
  unfolding Templates.create writing
  foreign-create_template name c subject body w =
      ground (arith, foreign-insert_row row (record w { calls = suc w.calls }) refl)
    where
      row : NotificationTemplate
      row = record {
        id = env.fresh w.calls;
        tenant_id = t.id;
        name = name;
        channel = c;
        subject = subject;
        body = body;
        created_at = env.clock w.calls;
        updated_at = env.clock w.calls;
      }

  foreign-update_template :
      (i : Uuid) (name : String) (c : Channel) (subject body : String) (w : World R)
      → foreign t.id (Templates.update env t.id i name c subject body w).1 ≡ foreign t.id w
  unfolding Templates.update writing
  foreign-update_template i name c subject body w = ground (
    arith,
    foreign-update_row i name
        (λ x. record x {
          name = name;
          channel = c;
          subject = subject;
          body = body;
          updated_at = env.clock w.calls;
        })
        (record w { calls = suc w.calls }) (λ x. refl),
  )

  foreign-delete_template :
      (i : Uuid) (w : World R) → foreign t.id (Templates.delete env t.id i w).1 ≡ foreign t.id w
  unfolding Templates.delete
  foreign-delete_template i w = ground (
    arith,
    select-select (λ y. not (y.tenant_id == t.id)) (λ x. not (is_owned t.id i x))
        (λ x h. ground (arith, owned-hidden t.id i x)) w.tables.templates,
  )

  foreign-create :
      (req : Option TemplateRequest) (w : World R)
      → foreign t.id (create env parse_uuid (some t) req w).1 ≡ foreign t.id w
  unfolding create tenant_id
  foreign-create none w = ground arith
  foreign-create (some r) w =
      ground (arith, foreign-create_template r.name (to_channel r.channel) r.subject r.body w)

  foreign-update :
      (param : String) (req : Option TemplateRequest) (w : World R)
      → foreign t.id (update env parse_uuid (some t) param req w).1 ≡ foreign t.id w
  unfolding update tenant_id
  foreign-update param none w = ground arith
  foreign-update param (some r) w = elim (Option-cases (parse_uuid param)) [
    | inl e ↦ ground arith
    | inr (i, e) ↦
        ground (arith, foreign-update_template i r.name (to_channel r.channel) r.subject r.body w)
  ]

  foreign-delete :
      (param : String) (w : World R)
      → foreign t.id (delete env parse_uuid (some t) param w).1 ≡ foreign t.id w
  unfolding delete tenant_id
  foreign-delete param w = elim (Option-cases (parse_uuid param)) [
    | inl e ↦ ground arith
    | inr (i, e) ↦ ground (arith, foreign-delete_template i w)
  ]

  -- No handler changes a template of another tenant: after Create, Update and Delete, however they
  -- answer, the other tenants' templates are the same rows in the same order.
  pub templates_isolated :
      (req : Option TemplateRequest) (param : String) (w : World R)
      → (foreign t.id (create env parse_uuid (some t) req w).1 ≡ foreign t.id w)
        × (foreign t.id (update env parse_uuid (some t) param req w).1 ≡ foreign t.id w)
        × (foreign t.id (delete env parse_uuid (some t) param w).1 ≡ foreign t.id w)
  templates_isolated req param w =
      (foreign-create req w, foreign-update param req w, foreign-delete param w)
