-- ===== src/System/Integrity.antt =====
-- Runs of the whole backend, its administration included, and the foreign keys of
-- backend/migrations.
use notifyx.Prelude.{String, Option, some, List}
use notifyx.Domain.{Uuid, Time, Tenant}
use notifyx.Postgres.{Env, World}
use notifyx.Postgres.References.Valid.{Valid}
use notifyx.Postgres.References.Runs.{Run, done, then_write, delete_expired, Run-Valid}
use notifyx.Handlers.Pipeline.{NotificationService}
use notifyx.Handlers.Tenants.{
  TenantService, new_key, revoke_key, create as add_tenant, update as rename_tenant,
  delete as remove_tenant,
}
use notifyx.Handlers.Tenants.Settings.{
  ChannelSetting, UpdateRateLimitsRequest, update_channels, update_rate_limits,
}
use notifyx.Handlers.Templates.{
  TemplateRequest, create as add_template, update as change_template, delete as remove_template,
}
use notifyx.System.Lifecycle.{
  Step, sends, schedules, batches, ticks, replays, delivers, delivers_inapp, dead_letters, expires,
}
use notifyx.System.Upkeep.{joined}
use notifyx.System.Administration.{
  add_tenant-Runs, rename_tenant-Runs, remove_tenant-Runs, revoke_key-Runs, update_channels-Runs,
  update_rate_limits-Runs, new_key-Runs, add_template-Runs, change_template-Runs,
  remove_template-Runs,
}
use notifyx.System.Operation.{send-Runs, schedule-Runs, batch-Runs}
use notifyx.System.Background.{tick_once-Run, replay_once-Run}
use notifyx.System.Consumption.{handle_by-Runs, handle_dlq-Runs, handle_inapp-Runs}

module _ {R : Type 0} (env : Env) (svc : NotificationService R) (admin : TenantService)
    (parse_uuid : String → Option Uuid) (parse_time : String → Option Time) where
  -- A step of the notifications' life, or a request to the handlers of tenants, keys, settings and
  -- templates.
  pub data Event (w : World R) : World R → Type 0 where
    runs : {w' : World R} → Step env svc parse_uuid parse_time w w' → Event w w'
    adds_tenant : (req : Option String) → Event w (add_tenant env admin req w).1
    renames_tenant :
        (param : String) (req : Option String)
        → Event w (rename_tenant env parse_uuid param req w).1
    removes_tenant : (param : String) → Event w (remove_tenant env parse_uuid param w).1
    adds_key : (param : String) → Event w (new_key env admin parse_uuid param w).1
    revokes_key : (param : String) → Event w (revoke_key env parse_uuid param w).1
    sets_channels :
        (param : String) (req : Option (List ChannelSetting))
        → Event w (update_channels env parse_uuid param req w).1
    sets_limits :
        (param : String) (req : Option UpdateRateLimitsRequest)
        → Event w (update_rate_limits env parse_uuid param req w).1
    adds_template :
        (t : Tenant) (req : Option TemplateRequest)
        → Event w (add_template env parse_uuid (some t) req w).1
    changes_template :
        (t : Tenant) (param : String) (req : Option TemplateRequest)
        → Event w (change_template env parse_uuid (some t) param req w).1
    removes_template :
        (t : Tenant) (param : String) → Event w (remove_template env parse_uuid (some t) param w).1

  -- Any number of events.
  pub data Events (w : World R) : World R → Type 0 where
    begins : Events w w
    continues : {w1 w2 : World R} → Events w w1 → Event w1 w2 → Events w w2

  Step-Run : {w w' : World R} → Step env svc parse_uuid parse_time w w' → Run env w w'
  Step-Run (sends t r) = send-Runs env svc parse_uuid parse_time t r _
  Step-Run (schedules t o) = schedule-Runs env svc parse_uuid parse_time t o _
  Step-Run (batches t o) = batch-Runs env svc parse_uuid parse_time t o _
  Step-Run (ticks producer) = tick_once-Run env producer _
  Step-Run (replays allow sparing producer) = replay_once-Run env allow sparing producer _
  Step-Run (delivers c msg) = handle_by-Runs env c msg _
  Step-Run (delivers_inapp uuid_text hub queue msg) =
      handle_inapp-Runs env uuid_text hub queue msg _
  Step-Run (dead_letters msg) = handle_dlq-Runs env msg _
  Step-Run (expires now) = then_write done (delete_expired now)

  Event-Run : {w w' : World R} → Event w w' → Run env w w'
  Event-Run (runs s) = Step-Run s
  Event-Run (adds_tenant req) = add_tenant-Runs env admin req _
  Event-Run (renames_tenant param req) = rename_tenant-Runs env parse_uuid param req _
  Event-Run (removes_tenant param) = remove_tenant-Runs env parse_uuid param _
  Event-Run (adds_key param) = new_key-Runs env parse_uuid admin param _
  Event-Run (revokes_key param) = revoke_key-Runs env parse_uuid param _
  Event-Run (sets_channels param req) = update_channels-Runs env parse_uuid param req _
  Event-Run (sets_limits param req) = update_rate_limits-Runs env parse_uuid param req _
  Event-Run (adds_template t req) = add_template-Runs env parse_uuid t req _
  Event-Run (changes_template t param req) = change_template-Runs env parse_uuid t param req _
  Event-Run (removes_template t param) = remove_template-Runs env parse_uuid t param _

  Events-Run : {w w' : World R} → Events w w' → Run env w w'
  Events-Run begins = done
  Events-Run (continues h e) = joined env (Events-Run h) (Event-Run e)

  -- Let requests to the notification, tenant, key, settings and template handlers, ticks, consumed
  -- messages and cleanups happen in any number and order, with any faults. If at the start every
  -- delivery, schedule row and DLQ row refers to a notification that is there, every notification,
  -- key, channel setting, limit and template to a tenant that is there, and every notification's
  -- template_id, where it has one, to a template that is there, then so it is at the end: what the
  -- writes of the repositories do keeps the foreign keys, whatever the handlers ask of them.
  pub Events-Valid : {w w' : World R} → Events w w' → Valid w.tables → Valid w'.tables
  Events-Valid h = Run-Valid env (Events-Run h)
