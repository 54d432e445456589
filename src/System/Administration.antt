-- ===== src/System/Administration.antt =====
-- The handlers of backend/internal/api/handlers/tenant.go and template.go as runs of repository
-- writes.
use notifyx.Prelude.{
  String, ◌≡◌, Option, none, some, List, arith, Result-cases, inl, inr, Option-cases, refl,
}
use notifyx.Domain.{Uuid, Tenant, to_channel}
use notifyx.Postgres.{Env, World}
use notifyx.Postgres.Tenants
use notifyx.Postgres.Tenants.{found}
use notifyx.Postgres.Settings
use notifyx.Postgres.References.Runs.{
  Run, done, then_write, update_tenant, delete_tenant, create_key, delete_key, create_template,
  update_template, delete_template,
}
use notifyx.Handlers.Notifications.{tenant_id}
use notifyx.Handlers.Tenants.{
  TenantService, generate_api_key, tenant_with_key, new_key, revoke_key, create as add_tenant,
  update as rename_tenant, delete as remove_tenant,
}
use notifyx.Handlers.Tenants.Settings.{
  ChannelSetting, UpdateRateLimitsRequest, upsert_channels, set_limits, update_channels,
  update_rate_limits, validate_channels, validate_rate_limits,
}
use notifyx.Handlers.Templates.{
  TemplateRequest, create as add_template, update as change_template, delete as remove_template,
}
use notifyx.System.Upkeep.{
  Runs, reading, joined, either, with_tx-Runs, tenant_with_key-Runs, upsert_channels-Runs,
  set_limits-Runs,
}

module _ {R : Type 0} (env : Env) where
  keyed-Run : (svc : TenantService) (w : World R) → Run env w (generate_api_key svc.crypto w).1
  keyed-Run svc w = reading env done (unfold generate_api_key in refl)

  -- Create of tenant.go.
  pub add_tenant-Runs :
      (svc : TenantService) (req : Option String) → Runs {R = R} env (add_tenant env svc req)
  unfolding add_tenant
  add_tenant-Runs svc none w = reading env done (ground arith)
  add_tenant-Runs svc (some name) w = elim (Result-cases (generate_api_key svc.crypto w).0) [
    | inr (x, e) ↦ either env (keyed-Run svc w) (ground arith)
    | inl ((raw, hash), e) ↦
        let next : World R = (generate_api_key svc.crypto w).1 in
        either env
          (joined env (keyed-Run svc w) (
            with_tx-Runs env (tenant_with_key env svc name hash)
              (tenant_with_key-Runs env svc name hash) next))
          (ground arith)
  ]

module _ {R : Type 0} (env : Env) (parse_uuid : String → Option Uuid) where
  pub rename_tenant-Runs :
      (param : String) (req : Option String)
      → Runs {R = R} env (rename_tenant env parse_uuid param req)
  unfolding rename_tenant
  rename_tenant-Runs param none w = reading env done (ground arith)
  rename_tenant-Runs param (some name) w = elim (Option-cases (parse_uuid param)) [
    | inl e ↦ reading env done (ground arith)
    | inr (i, e) ↦ either env (then_write done (update_tenant i name)) (ground arith)
  ]

  pub remove_tenant-Runs : (param : String) → Runs {R = R} env (remove_tenant env parse_uuid param)
  unfolding remove_tenant
  remove_tenant-Runs param w = elim (Option-cases (parse_uuid param)) [
    | inl e ↦ reading env done (ground arith)
    | inr (i, e) ↦ either env (then_write done (delete_tenant i)) (ground arith)
  ]

  pub revoke_key-Runs : (param : String) → Runs {R = R} env (revoke_key env parse_uuid param)
  unfolding revoke_key
  revoke_key-Runs param w = elim (Option-cases (parse_uuid param)) [
    | inl e ↦ reading env done (ground arith)
    | inr (i, e) ↦ either env (then_write done (delete_key i)) (ground arith)
  ]

  -- The world after the check that the tenant exists.
  abbrev verified : Uuid → World R → World R
  verified i w = (Tenants.get_by_id env i w).1

  verified-tables : (i : Uuid) (w : World R) → (verified i w).tables ≡ w.tables
  unfolding Tenants.get_by_id found
  verified-tables i w = ground arith

  verified-Run : (i : Uuid) (w : World R) → Run env w (verified i w)
  verified-Run i w = reading env done (verified-tables i w)

  pub update_channels-Runs :
      (param : String) (req : Option (List ChannelSetting))
      → Runs {R = R} env (update_channels env parse_uuid param req)
  unfolding update_channels
  update_channels-Runs param none w = reading env done (ground arith)
  update_channels-Runs param (some cs) w = elim (Option-cases (parse_uuid param)) [
    | inl e ↦ reading env done (ground arith)
    | inr (i, e) ↦
        either env
          (joined env (verified-Run i w) (
            with_tx-Runs env (upsert_channels env i cs) (upsert_channels-Runs env i cs)
              (verified i w)))
          (unfold Settings.channels_by_tenant_id in
            ground (arith, Option-cases (validate_channels cs), verified-tables i w))
  ]

  pub update_rate_limits-Runs :
      (param : String) (req : Option UpdateRateLimitsRequest)
      → Runs {R = R} env (update_rate_limits env parse_uuid param req)
  unfolding update_rate_limits
  update_rate_limits-Runs param none w = reading env done (ground arith)
  update_rate_limits-Runs param (some r) w = elim (Option-cases (parse_uuid param)) [
    | inl e ↦ reading env done (ground arith)
    | inr (i, e) ↦ elim (Result-cases (Tenants.get_by_id env i w).0) [
      | inr (x, f) ↦ either env (verified-Run i w) (ground arith)
      | inl (t, f) ↦
          either env
            (joined env (verified-Run i w)
              (with_tx-Runs env (set_limits env i t r) (set_limits-Runs env i t r) (verified i w)))
            (unfold Settings.limits_by_tenant_id in
              ground (arith, Option-cases (validate_rate_limits r), verified-tables i w))
    ]
  ]

  pub new_key-Runs :
      (svc : TenantService) (param : String) → Runs {R = R} env (new_key env svc parse_uuid param)
  unfolding new_key
  new_key-Runs svc param w = elim (Option-cases (parse_uuid param)) [
    | inl e ↦ reading env done (ground arith)
    | inr (i, e) ↦ elim (Result-cases (generate_api_key svc.crypto (verified i w)).0) [
      | inr (x, f) ↦
          either env (joined env (verified-Run i w) (keyed-Run env svc (verified i w)))
            (ground arith)
      | inl ((raw, hash), f) ↦
          either env
            (then_write (joined env (verified-Run i w) (keyed-Run env svc (verified i w)))
              (create_key i hash))
            (ground (arith, verified-tables i w))
    ]
  ]

  module _ (t : Tenant) where
    pub add_template-Runs :
        (req : Option TemplateRequest) → Runs {R = R} env (add_template env parse_uuid (some t) req)
    unfolding add_template tenant_id
    add_template-Runs none w = reading env done (ground arith)
    add_template-Runs (some r) w =
        either env
          (then_write done (create_template t.id r.name (to_channel r.channel) r.subject r.body))
          (ground arith)

    pub change_template-Runs :
        (param : String) (req : Option TemplateRequest)
        → Runs {R = R} env (change_template env parse_uuid (some t) param req)
    unfolding change_template tenant_id
    change_template-Runs param none w = reading env done (ground arith)
    change_template-Runs param (some r) w = elim (Option-cases (parse_uuid param)) [
      | inl e ↦ reading env done (ground arith)
      | inr (i, e) ↦
          either env
            (then_write done
              (update_template t.id i r.name (to_channel r.channel) r.subject r.body))
            (ground arith)
    ]

    pub remove_template-Runs :
        (param : String) → Runs {R = R} env (remove_template env parse_uuid (some t) param)
    unfolding remove_template tenant_id
    remove_template-Runs param w = elim (Option-cases (parse_uuid param)) [
      | inl e ↦ reading env done (ground arith)
      | inr (i, e) ↦ either env (then_write done (delete_template t.id i)) (ground arith)
    ]
