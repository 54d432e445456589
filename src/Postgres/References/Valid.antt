-- ===== src/Postgres/References/Valid.antt =====
-- That every write of backend/internal/repository/postgres keeps the foreign keys of
-- backend/migrations.
use notifyx.Prelude.{
  All, All-append, ◌≡◌, refl, sym, subst, true, String, Option, [], ◌∷◌, ◌++◌, arith, update_where,
  ok, err, Error, Result-cases, inl, inr,
}
use notifyx.Domain.{Uuid, Time, Channel, Status, Message}
use notifyx.Postgres.{Env, World, Io, Tables}
use notifyx.Postgres.Notifications
use notifyx.Postgres.Notifications.{CreateNotificationParams}
use notifyx.Postgres.Deliveries
use notifyx.Postgres.Scheduled
use notifyx.Postgres.Reports
use notifyx.Postgres.References.Templated.{Templated, Templated-row_update}
use notifyx.Postgres.References.{
  Refer, Refer-row, Refer-target, Refer-update_row, Refer-update_target,
}

-- Every delivery, schedule row and DLQ row refers to a notification, every notification, key,
-- channel setting, limit and template to a tenant, and every notification's template_id, where it has
-- one, to a template.
abbrev pub Valid : Tables → Type 0
Valid t =
    Refer (λ d. d.notification_id) (λ n. n.id) t.deliveries t.notifications
    × Refer (λ d. d.notification_id) (λ n. n.id) t.scheduled t.notifications
    × Refer (λ d. d.notification_id) (λ n. n.id) t.dlq_messages t.notifications
    × Refer (λ x. x.tenant_id) (λ t. t.id) t.notifications t.tenants
    × Refer (λ x. x.tenant_id) (λ t. t.id) t.api_keys t.tenants
    × Refer (λ x. x.tenant_id) (λ t. t.id) t.tenant_channels t.tenants
    × Refer (λ x. x.tenant_id) (λ t. t.id) t.tenant_rate_limits t.tenants
    × Refer (λ x. x.tenant_id) (λ t. t.id) t.templates t.tenants
    × All (Templated t.templates) t.notifications

module _ {R : Type 0} where
  -- A call keeps the foreign keys where it leaves the tables when it fails, and keeps them when it
  -- succeeds.
  pub settle :
      {A : Type 0} (m : Io R A) (w : World R)
      → Valid w.tables
      → ((e : Error) → (m w).0 ≡ err e → (m w).1.tables ≡ w.tables)
      → ((a : A) → (m w).0 ≡ ok a → Valid (m w).1.tables)
      → Valid (m w).1.tables
  settle m w v f g = elim (Result-cases (m w).0) [
    | inl (a, e) ↦ g a e
    | inr (x, e) ↦ subst Valid (sym (f x e)) v
  ]

module _ {R : Type 0} (env : Env) (w : World R) (v : Valid w.tables) where
  pub create_notification-Valid :
      (p : CreateNotificationParams) → Valid (Notifications.create env p w).1.tables
  unfolding Notifications.create Notifications.insert_row Notifications.row_violation
  create_notification-Valid p =
      settle (Notifications.create env p) w v (λ e h. ground arith)
        λ a h.
          let after : (Notifications.create env p w).1.tables
              ≡ record w.tables { notifications = w.tables.notifications ++ a ∷ [] } =
            ground arith in
          let fits : Notifications.references_template w.tables a.template_id ≡ true =
            unfold Notifications.references_template in ground arith in
          subst Valid (sym after) (
            Refer-target (λ d. d.notification_id) (λ n. n.id) w.tables.deliveries
                w.tables.notifications a (v.0),
            Refer-target (λ d. d.notification_id) (λ n. n.id) w.tables.scheduled
                w.tables.notifications a (v.1),
            Refer-target (λ d. d.notification_id) (λ n. n.id) w.tables.dlq_messages
                w.tables.notifications a (v.2),
            Refer-row (λ x. x.tenant_id) (λ t. t.id) w.tables.notifications w.tables.tenants a
                (ground arith) (v.3),
            v.4,
            v.5,
            v.6,
            v.7,
            All-append (Templated w.tables.templates) w.tables.notifications (a ∷ []) (v.8) (
              λ i e.
                  unfold Notifications.references_template in
                  subst (λ o. Notifications.references_template w.tables o ≡ true) e fits,
              tt,
            ),
          )

  pub update_status-Valid :
      (i : Uuid) (s : Status) → Valid (Notifications.update_status env i s w).1.tables
  unfolding Notifications.update_status
  update_status-Valid i s =
      settle (Notifications.update_status env i s) w v (λ e h. ground arith)
        λ a h.
          let after : (Notifications.update_status env i s w).1.tables ≡ record w.tables {
            notifications =
                update_where (Notifications.has_id i) (λ n. record n { status = s })
                  w.tables.notifications;
          } =
            ground arith in
          subst Valid (sym after) (
            Refer-update_target (λ d. d.notification_id) (λ n. n.id) (Notifications.has_id i)
                (λ n. record n { status = s }) (λ x. refl) w.tables.deliveries
                w.tables.notifications (v.0),
            Refer-update_target (λ d. d.notification_id) (λ n. n.id) (Notifications.has_id i)
                (λ n. record n { status = s }) (λ x. refl) w.tables.scheduled w.tables.notifications
                (v.1),
            Refer-update_target (λ d. d.notification_id) (λ n. n.id) (Notifications.has_id i)
                (λ n. record n { status = s }) (λ x. refl) w.tables.dlq_messages
                w.tables.notifications (v.2),
            Refer-update_row (λ x. x.tenant_id) (λ t. t.id) (Notifications.has_id i)
                (λ n. record n { status = s }) (λ x. refl) w.tables.notifications w.tables.tenants
                (v.3),
            v.4,
            v.5,
            v.6,
            v.7,
            Templated-row_update (Notifications.has_id i) (λ n. record n { status = s }) (λ n. refl)
                w.tables.templates w.tables.notifications (v.8),
          )

  pub create_delivery-Valid :
      (i : Uuid) (c : Channel) (s : Option Status) → Valid (Deliveries.create env i c s w).1.tables
  unfolding Deliveries.create Deliveries.insert_row
  create_delivery-Valid i c s =
      settle (Deliveries.create env i c s) w v (λ e h. ground arith)
        λ a h.
          let after : (Deliveries.create env i c s w).1.tables
              ≡ record w.tables { deliveries = w.tables.deliveries ++ a ∷ [] } =
            ground arith in
          subst Valid (sym after) (
            Refer-row (λ d. d.notification_id) (λ n. n.id) w.tables.deliveries
                w.tables.notifications a (ground arith) (v.0),
            v.1,
            v.2,
            v.3,
            v.4,
            v.5,
            v.6,
            v.7,
            v.8,
          )

  pub set_status-Valid : (i : Uuid) (s : Status) → Valid (Deliveries.set_status env i s w).1.tables
  unfolding Deliveries.set_status Deliveries.update_row
  set_status-Valid i s =
      settle (Deliveries.set_status env i s) w v (λ e h. ground arith)
        λ a h.
          let after : (Deliveries.set_status env i s w).1.tables ≡ record w.tables {
            deliveries =
                update_where (Deliveries.has_id i) (λ d. record d { status = s })
                  w.tables.deliveries;
          } =
            ground arith in
          subst Valid (sym after) (
            Refer-update_row (λ d. d.notification_id) (λ n. n.id) (Deliveries.has_id i)
                (λ d. record d { status = s }) (λ x. refl) w.tables.deliveries
                w.tables.notifications (v.0),
            v.1,
            v.2,
            v.3,
            v.4,
            v.5,
            v.6,
            v.7,
            v.8,
          )

  pub update_delivery-Valid :
      (i : Uuid) (s : Status) (text : String)
      → Valid (Deliveries.update_status env i s text w).1.tables
  unfolding Deliveries.update_status Deliveries.update_row Deliveries.record_attempt
  update_delivery-Valid i s text =
      settle (Deliveries.update_status env i s text) w v (λ e h. ground arith)
        λ a h.
          let after : (Deliveries.update_status env i s text w).1.tables ≡ record w.tables {
            deliveries =
                update_where (Deliveries.has_id i)
                  (Deliveries.record_attempt s text (env.clock w.calls)) w.tables.deliveries;
          } =
            ground arith in
          subst Valid (sym after) (
            Refer-update_row (λ d. d.notification_id) (λ n. n.id) (Deliveries.has_id i)
                (Deliveries.record_attempt s text (env.clock w.calls)) (λ x. refl)
                w.tables.deliveries w.tables.notifications (v.0),
            v.1,
            v.2,
            v.3,
            v.4,
            v.5,
            v.6,
            v.7,
            v.8,
          )

  pub create_scheduled-Valid : (i : Uuid) (t : Time) → Valid (Scheduled.create env i t w).1.tables
  unfolding Scheduled.create Scheduled.insert_row
  create_scheduled-Valid i t =
      settle (Scheduled.create env i t) w v (λ e h. ground arith)
        λ a h.
          let after : (Scheduled.create env i t w).1.tables
              ≡ record w.tables { scheduled = w.tables.scheduled ++ a ∷ [] } =
            ground arith in
          subst Valid (sym after) (
            v.0,
            Refer-row (λ d. d.notification_id) (λ n. n.id) w.tables.scheduled w.tables.notifications
                a (ground arith) (v.1),
            v.2,
            v.3,
            v.4,
            v.5,
            v.6,
            v.7,
            v.8,
          )

  pub mark_fired-Valid : (i : Uuid) → Valid (Scheduled.mark_fired env i w).1.tables
  unfolding Scheduled.mark_fired
  mark_fired-Valid i =
      settle (Scheduled.mark_fired env i) w v (λ e h. ground arith)
        λ a h.
          let after : (Scheduled.mark_fired env i w).1.tables ≡ record w.tables {
            scheduled =
                update_where (Scheduled.has_id i) (λ s. record s { fired = true })
                  w.tables.scheduled;
          } =
            ground arith in
          subst Valid (sym after) (
            v.0,
            Refer-update_row (λ d. d.notification_id) (λ n. n.id) (Scheduled.has_id i)
                (λ s. record s { fired = true }) (λ x. refl) w.tables.scheduled
                w.tables.notifications (v.1),
            v.2,
            v.3,
            v.4,
            v.5,
            v.6,
            v.7,
            v.8,
          )

  pub create_dlq-Valid :
      (msg : Message) (text : String) → Valid (Reports.create_dlq env msg text w).1.tables
  unfolding Reports.create_dlq
  create_dlq-Valid msg text =
      settle (Reports.create_dlq env msg text) w v (λ e h. ground arith)
        λ a h.
          let after : (Reports.create_dlq env msg text w).1.tables ≡ record w.tables {
            dlq_messages =
                w.tables.dlq_messages
                ++ (record {
                  id = env.fresh w.calls;
                  notification_id = msg.notification_id;
                  channel = msg.channel;
                  error = text;
                  attempts = 3;
                  last_tried_at = env.clock w.calls;
                  created_at = env.clock w.calls;
                })
                  ∷ [];
          } =
            ground arith in
          subst Valid (sym after) (
            v.0,
            v.1,
            Refer-row (λ d. d.notification_id) (λ n. n.id) w.tables.dlq_messages
                w.tables.notifications
                (record {
                  id = env.fresh w.calls;
                  notification_id = msg.notification_id;
                  channel = msg.channel;
                  error = text;
                  attempts = 3;
                  last_tried_at = env.clock w.calls;
                  created_at = env.clock w.calls;
                })
                (ground arith) (v.2),
            v.3,
            v.4,
            v.5,
            v.6,
            v.7,
            v.8,
          )
