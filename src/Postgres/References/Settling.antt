-- ===== src/Postgres/References/Settling.antt =====
-- That the upserts of settings, the writes of templates and the deletions in
-- backend/internal/repository/postgres keep the foreign keys of backend/migrations.
use notifyx.Prelude.{
  ℕ, ltb, ◌≡◌, refl, sym, subst, Bool, true, false, not, ◌&&◌, ◌||◌, String, Option, none, some,
  List, arith, ◌==◌, any, find, select, update_where, inl, inr, All-select, Option-cases,
  Bool-cases,
}
use notifyx.Domain.{
  Uuid, Time, Channel, Notification, NotificationTemplate, TenantChannel, TenantRateLimit,
}
use notifyx.Postgres.{Env, World, Tables}
use notifyx.Postgres.Notifications
use notifyx.Postgres.Notifications.{without_notifications}
use notifyx.Postgres.Tenants
use notifyx.Postgres.Tenants.{without_tenant}
use notifyx.Postgres.Settings
use notifyx.Postgres.Settings.{of_channel, of_limit, upsert_rows, references_tenant}
use notifyx.Postgres.Templates
use notifyx.Postgres.Templates.{detached, has_template, is_owned, name_taken}
use notifyx.Postgres.References.{
  Refer, Refer-row, Refer-update_row, Refer-update_target, Refer-cascade, Refer-without,
}
use notifyx.Postgres.References.Templated.{Templated-detached, Templated-update_where}
use notifyx.Postgres.References.Valid.{Valid, settle}

abbrev is_down : Option String → Bool
is_down none = false
is_down (some s) = true

Refer-upsert :
    {A B : Type 0} (key : A → Uuid) (id : B → Uuid) (p : A → Bool) (f : A → A)
    → ((x : A) → key (f x) ≡ key x)
    → (row : A) (rows : List A) (targets : List B) → any (λ y. id y == key row) targets ≡ true
    → Refer key id rows targets
    → Refer key id (upsert_rows p f row rows) targets
unfolding upsert_rows
Refer-upsert key id p f e row rows targets h r = elim (Bool-cases (any p rows)) [
  | inl a ↦ rw a (Refer-update_row key id p f e rows targets r)
  | inr a ↦ rw a (Refer-row key id rows targets row h r)
]

-- Templates that go leave the ids and the tenants of the notifications as they are.
detached-Valid :
    (q : NotificationTemplate → Bool) (t : Tables)
    → Valid t
    → Valid (record t {
      templates = select (λ x. not (q x)) t.templates;
      notifications = detached (select q t.templates) t.notifications;
    })
detached-Valid q t v =
    let gone : List NotificationTemplate = select q t.templates in
    let same : (n : Notification) → n.id ≡ n.id = λ n. refl in
    let made = Templated-detached q t.templates t.notifications (v.8) in
    unfold detached in
    (
      Refer-update_target (λ d. d.notification_id) (λ n. n.id) (has_template gone)
          (λ n. record n { template_id = none }) same t.deliveries t.notifications (v.0),
      Refer-update_target (λ d. d.notification_id) (λ n. n.id) (has_template gone)
          (λ n. record n { template_id = none }) same t.scheduled t.notifications (v.1),
      Refer-update_target (λ d. d.notification_id) (λ n. n.id) (has_template gone)
          (λ n. record n { template_id = none }) same t.dlq_messages t.notifications (v.2),
      Refer-update_row (λ x. x.tenant_id) (λ x. x.id) (has_template gone)
          (λ n. record n { template_id = none }) (λ x. refl) t.notifications t.tenants (v.3),
      v.4,
      v.5,
      v.6,
      All-select _ (λ x. not (q x)) t.templates (v.7),
      made,
    )

without_notifications-Valid :
    (q : Notification → Bool) (t : Tables) → Valid t → Valid (without_notifications q t)
unfolding Notifications.has_id without_notifications
without_notifications-Valid q t v = (
  Refer-cascade (λ d. d.notification_id) (λ n. n.id) q t.deliveries t.notifications (v.0),
  Refer-cascade (λ d. d.notification_id) (λ n. n.id) q t.scheduled t.notifications (v.1),
  Refer-cascade (λ d. d.notification_id) (λ n. n.id) q t.dlq_messages t.notifications (v.2),
  All-select _ (λ n. not (q n)) t.notifications (v.3),
  v.4,
  v.5,
  v.6,
  v.7,
  All-select _ (λ n. not (q n)) t.notifications (v.8),
)

without_tenant-Valid : (i : Uuid) (t : Tables) → Valid t → Valid (without_tenant i t)
unfolding without_tenant detached without_notifications
without_tenant-Valid i t v =
    let u : Tables = without_notifications (λ n. n.tenant_id == i) t in
    let w =
      detached-Valid (λ x. x.tenant_id == i) u
        (without_notifications-Valid (λ n. n.tenant_id == i) t v) in
    (
      w.0,
      w.1,
      w.2,
      unfold Tenants.has_id in
          Refer-update_row (λ x. x.tenant_id) (λ x. x.id) _ (λ n. record n { template_id = none })
            (λ x. refl) _ _
            (Refer-without (λ x. x.tenant_id) (λ x. x.id) i t.notifications t.tenants (v.3)),
      unfold Tenants.has_id in
          Refer-without (λ x. x.tenant_id) (λ x. x.id) i t.api_keys t.tenants (v.4),
      unfold Tenants.has_id in
          Refer-without (λ x. x.tenant_id) (λ x. x.id) i t.tenant_channels t.tenants (v.5),
      unfold Tenants.has_id in
          Refer-without (λ x. x.tenant_id) (λ x. x.id) i t.tenant_rate_limits t.tenants (v.6),
      unfold Tenants.has_id in
          Refer-without (λ x. x.tenant_id) (λ x. x.id) i t.templates t.tenants (v.7),
      w.8,
    )

module _ {R : Type 0} (env : Env) (w : World R) (v : Valid w.tables) where
  pub delete_tenant-Valid : (i : Uuid) → Valid (Tenants.delete env i w).1.tables
  unfolding Tenants.delete
  delete_tenant-Valid i =
      settle (Tenants.delete env i) w v (λ e h. ground arith)
        λ a h.
          let after : (Tenants.delete env i w).1.tables ≡ without_tenant i w.tables =
            ground arith in
          subst Valid (sym after) (without_tenant-Valid i w.tables v)

  pub delete_expired-Valid : (now : Time) → Valid (Notifications.delete_expired env now w).1.tables
  unfolding Notifications.delete_expired
  delete_expired-Valid now =
      settle (Notifications.delete_expired env now) w v (λ e h. ground arith)
        λ a h.
          let after : (Notifications.delete_expired env now w).1.tables
              ≡ without_notifications (λ n. ltb n.expires_at now) w.tables =
            ground arith in
          subst Valid (sym after)
            (without_notifications-Valid (λ n. ltb n.expires_at now) w.tables v)

  pub upsert_channel-Valid :
      (i : Uuid) (c : Channel) (e : Bool) → Valid (Settings.upsert_channel env i c e w).1.tables
  unfolding Settings.upsert_channel references_tenant
  upsert_channel-Valid i c e =
      settle (Settings.upsert_channel env i c e) w v (λ x h. ground arith)
        λ a h.
          let row : TenantChannel = record {
            id = env.fresh w.calls;
            tenant_id = i;
            channel = c;
            enabled = e;
            created_at = env.clock w.calls;
          } in
          let after : (Settings.upsert_channel env i c e w).1.tables ≡ record w.tables {
            tenant_channels =
                upsert_rows (of_channel i c) (λ x. record x { enabled = e }) row
                  w.tables.tenant_channels;
          } =
            ground arith in
          subst Valid (sym after) (
            v.0,
            v.1,
            v.2,
            v.3,
            v.4,
            Refer-upsert (λ x. x.tenant_id) (λ x. x.id) (of_channel i c)
                (λ x. record x { enabled = e }) (λ x. refl) row w.tables.tenant_channels
                w.tables.tenants (ground arith) (v.5),
            v.6,
            v.7,
            v.8,
          )

  pub upsert_limit-Valid :
      (i : Uuid) (c : Channel) (m : ℕ) → Valid (Settings.upsert_limit env i c m w).1.tables
  unfolding Settings.upsert_limit references_tenant
  upsert_limit-Valid i c m =
      settle (Settings.upsert_limit env i c m) w v (λ x h. ground arith)
        λ a h.
          let row : TenantRateLimit = record {
            id = env.fresh w.calls;
            tenant_id = i;
            channel = c;
            max_per_min = m;
            created_at = env.clock w.calls;
          } in
          let after : (Settings.upsert_limit env i c m w).1.tables ≡ record w.tables {
            tenant_rate_limits =
                upsert_rows (of_limit i c) (λ x. record x { max_per_min = m }) row
                  w.tables.tenant_rate_limits;
          } =
            ground arith in
          subst Valid (sym after) (
            v.0,
            v.1,
            v.2,
            v.3,
            v.4,
            v.5,
            Refer-upsert (λ x. x.tenant_id) (λ x. x.id) (of_limit i c)
                (λ x. record x { max_per_min = m }) (λ x. refl) row w.tables.tenant_rate_limits
                w.tables.tenants (ground arith) (v.6),
            v.7,
            v.8,
          )

  pub delete_template-Valid : (o i : Uuid) → Valid (Templates.delete env o i w).1.tables
  unfolding Templates.delete
  delete_template-Valid o i =
      settle (Templates.delete env o i) w v (λ e h. ground arith)
        λ a h.
          let after : (Templates.delete env o i w).1.tables ≡ record w.tables {
            templates = select (λ x. not (is_owned o i x)) w.tables.templates;
            notifications =
                detached (select (is_owned o i) w.tables.templates) w.tables.notifications;
          } =
            ground arith in
          subst Valid (sym after) (detached-Valid (is_owned o i) w.tables v)

  pub update_template-Valid :
      (o i : Uuid) (name : String) (c : Channel) (subject body : String)
      → Valid (Templates.update env o i name c subject body w).1.tables
  unfolding Templates.update Templates.writing Templates.update_row Templates.found
  update_template-Valid o i name c subject body =
      let f : NotificationTemplate → NotificationTemplate = λ x. record x {
        name = name;
        channel = c;
        subject = subject;
        body = body;
        updated_at = env.clock w.calls;
      } in
      let rows : List NotificationTemplate = update_where (is_owned o i) f w.tables.templates in
      let taken : Bool =
        any (is_owned o i) w.tables.templates && name_taken w.tables.templates i o name in
      elim (Bool-cases (is_down (env.fault w.calls) || taken)) [
        | inl h ↦
            let same : (Templates.update env o i name c subject body w).1.tables ≡ w.tables =
              ground (arith, Option-cases (env.fault w.calls)) in
            subst Valid (sym same) v
        | inr h ↦
            let after : (Templates.update env o i name c subject body w).1.tables
                ≡ record w.tables { templates = rows } =
              ground (
                arith,
                Option-cases (env.fault w.calls),
                Option-cases (find (is_owned o i) rows),
              ) in
            subst Valid (sym after) (
              v.0,
              v.1,
              v.2,
              v.3,
              v.4,
              v.5,
              v.6,
              Refer-update_row (λ x. x.tenant_id) (λ x. x.id) (is_owned o i) f (λ x. refl)
                  w.tables.templates w.tables.tenants (v.7),
              Templated-update_where (is_owned o i) f (λ x. refl) w.tables.templates
                  w.tables.notifications (v.8),
            )
      ]
