-- ===== src/Postgres/Templates.antt =====
-- backend/internal/repository/postgres/template_repo.go and the constraints of the table.
use notifyx.Prelude.{
  String, Bool, false, ◌&&◌, Option, none, some, List, [], ◌∷◌, ◌++◌, not, ◌==◌, if◌then◌else◌,
  str_eq, find, any, select, update_where, order_by, Error, not_found, already_exists, pg_error,
  wrap, is_unique_violation, ok, err,
}
use mathlib.Core.List.{reverse}
use notifyx.Domain.{Uuid, Channel, Notification, NotificationTemplate}
use notifyx.Postgres.{Env, Io, call, pure, fail, gets, wrapping, ◌>>=◌, ◌>>◌}

-- WHERE id = i AND tenant_id = t
unfoldable pub is_owned : Uuid → Uuid → NotificationTemplate → Bool
is_owned t i x = x.id == i && x.tenant_id == t

-- UNIQUE (tenant_id, name), against the other rows.
unfoldable pub name_taken : List NotificationTemplate → Uuid → Uuid → String → Bool
name_taken rows i t name =
    any (λ x. not (x.id == i) && (x.tenant_id == t && str_eq x.name name)) rows

-- Whether the notification was made of one of the templates.
unfoldable pub has_template : List NotificationTemplate → Notification → Bool
has_template gone n = elim n.template_id [ none ↦ false | some i ↦ any (λ x. x.id == i) gone ]

-- template_id REFERENCES notification_templates ON DELETE SET NULL, for the templates that go.
unfoldable pub detached : List NotificationTemplate → List Notification → List Notification
unfolding has_template
detached gone ns = update_where (has_template gone) (λ n. record n { template_id = none }) ns

unfoldable pub found : {R : Type 0} → Option NotificationTemplate → Io R NotificationTemplate
found none = fail not_found
found (some t) = pure t

-- The error of a write: ErrAlreadyExists for a unique violation, else wrapped.
unfoldable pub write_error : String → Error → Error
write_error s e = if is_unique_violation e then already_exists else wrap s e

unfoldable pub writing : {R : Type 0} {A : Type 0} → String → Io R A → Io R A
unfolding write_error
writing s m w =
    let (r, w') = m w in elim r [ ok a ↦ (ok a, w') | err e ↦ (err (write_error s e), w') ]

-- Update's error: ErrNotFound comes back as it is.
unfoldable pub update_error : Error → Error
unfolding write_error
update_error not_found = not_found
update_error e = write_error "update template" e

module _ {R : Type 0} (env : Env) where
  unfoldable pub insert_row : NotificationTemplate → Io R NotificationTemplate
  unfolding name_taken
  insert_row x w =
      let t = w.tables in
      if name_taken t.templates x.id x.tenant_id x.name
      then (err (pg_error "23505" (env.violation "23505")), w)
      else if any (λ y. y.id == x.tenant_id) t.tenants
      then (ok x, record w { tables = record t { templates = t.templates ++ x ∷ [] } })
      else (err (pg_error "23503" (env.violation "23503")), w)

  unfoldable pub create : Uuid → String → Channel → String → String → Io R NotificationTemplate
  unfolding call writing insert_row
  create tenant_id name channel subject body = writing "create template" do
    n ← gets (λ w. w.calls)
    call env
    insert_row (record {
      id = env.fresh n;
      tenant_id = tenant_id;
      name = name;
      channel = channel;
      subject = subject;
      body = body;
      created_at = env.clock n;
      updated_at = env.clock n;
    })

  unfoldable pub get_by_id : Uuid → Uuid → Io R NotificationTemplate
  unfolding call found is_owned
  get_by_id tenant_id i = do
    wrapping "get template by id" (call env)
    t ← gets (λ w. find (is_owned tenant_id i) w.tables.templates)
    found t

  -- The newest first.
  unfoldable pub list_by_tenant : Uuid → Io R (List NotificationTemplate)
  unfolding call
  list_by_tenant tenant_id = do
    wrapping "list templates" (call env)
    gets λ w.
        reverse
          (order_by (λ x. x.created_at) (select (λ x. x.tenant_id == tenant_id) w.tables.templates))

  unfoldable pub update_row :
      Uuid
      → Uuid
      → String
      → (NotificationTemplate → NotificationTemplate)
      → Io R NotificationTemplate
  unfolding is_owned name_taken found
  update_row tenant_id i name f w =
      let t = w.tables in
      let rows = update_where (is_owned tenant_id i) f t.templates in
      if any (is_owned tenant_id i) t.templates && name_taken t.templates i tenant_id name
      then (err (pg_error "23505" (env.violation "23505")), w)
      else found (find (is_owned tenant_id i) rows)
          (record w { tables = record t { templates = rows } })

  unfoldable pub update :
      Uuid → Uuid → String → Channel → String → String → Io R NotificationTemplate
  unfolding call writing update_row update_error
  update tenant_id i name channel subject body = do
    now ← gets (λ w. env.clock w.calls)
    writing "update template" (call env)
    updating (
        update_row tenant_id i name (λ x. record x {
          name = name;
          channel = channel;
          subject = subject;
          body = body;
          updated_at = now;
        }))
    where
      updating : Io R NotificationTemplate → Io R NotificationTemplate
      updating m w =
          let (r, w') = m w in elim r [ ok a ↦ (ok a, w') | err e ↦ (err (update_error e), w') ]

  unfoldable pub delete : Uuid → Uuid → Io R (Unit {0})
  unfolding call is_owned detached
  delete tenant_id i = do
    wrapping "delete template" (call env)
    λ w.
        let t = w.tables in
        if any (is_owned tenant_id i) t.templates
        then (
          ok tt,
          record w {
            tables = record t {
              templates = select (λ x. not (is_owned tenant_id i x)) t.templates;
              notifications = detached (select (is_owned tenant_id i) t.templates) t.notifications;
            };
          },
        )
        else (err not_found, w)
