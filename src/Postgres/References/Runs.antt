-- ===== src/Postgres/References/Runs.antt =====
-- Any run of writes of backend/internal/repository/postgres.
use notifyx.Prelude.{ℕ, ◌≡◌, subst, sym, String, Bool, Option}
use notifyx.Domain.{Uuid, Time, Channel, Status, Message}
use notifyx.Postgres.{Env, World}
use notifyx.Postgres.Notifications
use notifyx.Postgres.Notifications.{CreateNotificationParams}
use notifyx.Postgres.Deliveries
use notifyx.Postgres.Scheduled
use notifyx.Postgres.Reports
use notifyx.Postgres.Tenants
use notifyx.Postgres.Settings
use notifyx.Postgres.Templates
use notifyx.Postgres.References.Valid.{
  Valid, create_notification-Valid, update_status-Valid, create_delivery-Valid, set_status-Valid,
  update_delivery-Valid, create_scheduled-Valid, mark_fired-Valid, create_dlq-Valid,
}
use notifyx.Postgres.References.Writing.{
  create_tenant-Valid, update_tenant-Valid, update_cap-Valid, create_key-Valid, delete_key-Valid,
  create_template-Valid,
}
use notifyx.Postgres.References.Settling.{
  delete_tenant-Valid, delete_expired-Valid, upsert_channel-Valid, upsert_limit-Valid,
  delete_template-Valid, update_template-Valid,
}

module _ {R : Type 0} (env : Env) where
  -- A write of a repository, whether it succeeds or fails.
  pub data Write (w : World R) : World R → Type 0 where
    create_notification : (p : CreateNotificationParams) → Write w (Notifications.create env p w).1
    update_status : (i : Uuid) (s : Status) → Write w (Notifications.update_status env i s w).1
    delete_expired : (now : Time) → Write w (Notifications.delete_expired env now w).1
    create_delivery :
        (i : Uuid) (c : Channel) (s : Option Status) → Write w (Deliveries.create env i c s w).1
    set_status : (i : Uuid) (s : Status) → Write w (Deliveries.set_status env i s w).1
    update_delivery :
        (i : Uuid) (s : Status) (text : String)
        → Write w (Deliveries.update_status env i s text w).1
    create_scheduled : (i : Uuid) (t : Time) → Write w (Scheduled.create env i t w).1
    mark_fired : (i : Uuid) → Write w (Scheduled.mark_fired env i w).1
    create_dlq : (msg : Message) (text : String) → Write w (Reports.create_dlq env msg text w).1
    create_tenant : (name : String) (cap : ℕ) → Write w (Tenants.create env name cap w).1
    update_tenant : (i : Uuid) (name : String) → Write w (Tenants.update env i name w).1
    update_cap : (i : Uuid) (cap : ℕ) → Write w (Tenants.update_global_rate_cap env i cap w).1
    delete_tenant : (i : Uuid) → Write w (Tenants.delete env i w).1
    create_key : (i : Uuid) (hash : String) → Write w (Tenants.create_key env i hash w).1
    delete_key : (i : Uuid) → Write w (Tenants.delete_key env i w).1
    upsert_channel :
        (i : Uuid) (c : Channel) (e : Bool) → Write w (Settings.upsert_channel env i c e w).1
    upsert_limit : (i : Uuid) (c : Channel) (m : ℕ) → Write w (Settings.upsert_limit env i c m w).1
    create_template :
        (i : Uuid) (name : String) (c : Channel) (subject body : String)
        → Write w (Templates.create env i name c subject body w).1
    update_template :
        (o i : Uuid) (name : String) (c : Channel) (subject body : String)
        → Write w (Templates.update env o i name c subject body w).1
    delete_template : (o i : Uuid) → Write w (Templates.delete env o i w).1

  -- A run of writes; a transaction that is rolled back ends with the tables that it started with.
  pub data Run : World R → World R → Type 0 where
    done : {w : World R} → Run w w
    then_write : {w w1 w2 : World R} → Run w w1 → Write w1 w2 → Run w w2
    then_rollback : {w w1 w2 w3 : World R} → Run w w1 → Run w1 w2 → w3.tables ≡ w1.tables → Run w w3

  Write-Valid : {w w' : World R} → Write w w' → Valid w.tables → Valid w'.tables
  Write-Valid (create_notification p) v = create_notification-Valid env _ v p
  Write-Valid (update_status i s) v = update_status-Valid env _ v i s
  Write-Valid (delete_expired now) v = delete_expired-Valid env _ v now
  Write-Valid (create_delivery i c s) v = create_delivery-Valid env _ v i c s
  Write-Valid (set_status i s) v = set_status-Valid env _ v i s
  Write-Valid (update_delivery i s text) v = update_delivery-Valid env _ v i s text
  Write-Valid (create_scheduled i t) v = create_scheduled-Valid env _ v i t
  Write-Valid (mark_fired i) v = mark_fired-Valid env _ v i
  Write-Valid (create_dlq msg text) v = create_dlq-Valid env _ v msg text
  Write-Valid (create_tenant name cap) v = create_tenant-Valid env _ v name cap
  Write-Valid (update_tenant i name) v = update_tenant-Valid env _ v i name
  Write-Valid (update_cap i cap) v = update_cap-Valid env _ v i cap
  Write-Valid (delete_tenant i) v = delete_tenant-Valid env _ v i
  Write-Valid (create_key i hash) v = create_key-Valid env _ v i hash
  Write-Valid (delete_key i) v = delete_key-Valid env _ v i
  Write-Valid (upsert_channel i c e) v = upsert_channel-Valid env _ v i c e
  Write-Valid (upsert_limit i c m) v = upsert_limit-Valid env _ v i c m
  Write-Valid (create_template i name c subject body) v =
      create_template-Valid env _ v i name c subject body
  Write-Valid (update_template o i name c subject body) v =
      update_template-Valid env _ v o i name c subject body
  Write-Valid (delete_template o i) v = delete_template-Valid env _ v o i

  -- Over any run of repository writes, with failures, rollbacks and cascading deletions, every
  -- delivery, schedule row and DLQ row refers to a notification that is there, every notification,
  -- key, channel setting, limit and template to a tenant that is there, and every notification's
  -- template_id, where it has one, to a template that is there.
  pub Run-Valid : {w w' : World R} → Run w w' → Valid w.tables → Valid w'.tables
  Run-Valid done v = v
  Run-Valid (then_write r s) v = Write-Valid s (Run-Valid r v)
  Run-Valid (then_rollback r s e) v = subst Valid (sym e) (Run-Valid r v)
