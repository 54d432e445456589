-- ===== src/System/Upkeep.antt =====
-- The parts of the backend as runs of repository writes.
use notifyx.Prelude.{
  suc, ◌≡◌, refl, sym, subst, none, some, [], ◌∷◌, arith, List, Option, String, Result-cases, inl,
  inr, ◌⊎◌, ok, ℤ, to_nat,
}
use notifyx.Domain.{Uuid, Tenant, to_channel}
use notifyx.Postgres.{Env, World, Io, with_tx, with_tx-tables_of_err, with_tx_of_ok, ◌>>=◌}
use notifyx.Postgres.Tenants
use notifyx.Postgres.Settings
use notifyx.Postgres.References.Runs.{
  Run, done, then_write, then_rollback, create_tenant, update_cap, create_key, upsert_channel,
  upsert_limit,
}
use notifyx.Handlers.Tenants.{TenantService, tenant_with_key}
use notifyx.Handlers.Tenants.Settings.{
  ChannelSetting, RateLimitSetting, UpdateRateLimitsRequest, upsert_channels, upsert_limits,
  set_cap, set_limits,
}

module _ {R : Type 0} (env : Env) where
  -- A call that leaves the tables as a run left them.
  pub reading : {w w1 w2 : World R} → Run env w w1 → w2.tables ≡ w1.tables → Run env w w2
  reading r e = then_rollback r done e

  pub joined : {w w1 w2 : World R} → Run env w w1 → Run env w1 w2 → Run env w w2
  joined r done = r
  joined r (then_write s x) = then_write (joined r s) x
  joined r (then_rollback s t e) = then_rollback (joined r s) t e

  -- An operation that leaves the tables, or leaves them as a run does.
  pub either :
      {w w1 w2 : World R}
      → Run env w w1
      → (w2.tables ≡ w.tables) ⊎ (w2.tables ≡ w1.tables)
      → Run env w w2
  either r (inl e) = reading done e
  either r (inr e) = reading r e

  abbrev pub Runs : {A : Type 0} → (World R → A × World R) → Type 0
  Runs m = (w : World R) → Run env w (m w).1

  pub bind-Runs :
      {A B : Type 0} (m : Io R A) (f : A → Io R B)
      → Runs m
      → ((a : A) → Runs (f a))
      → Runs (m >>= f)
  bind-Runs m f k l w = elim (Result-cases (m w).0) [
    | inl (a, e) ↦
        let step : ((m >>= f) w).1 ≡ (f a (m w).1).1 = ground arith in
        subst (λ x. Run env w x) (sym step) (joined (k w) (l a (m w).1))
    | inr (x, e) ↦
        let step : ((m >>= f) w).1 ≡ (m w).1 = ground arith in
        subst (λ x. Run env w x) (sym step) (k w)
  ]

  -- A transaction of a body that is a run of writes.
  pub with_tx-Runs : {A : Type 0} (m : Io R A) → Runs m → Runs (with_tx env m)
  with_tx-Runs m k w = elim (Result-cases (with_tx env m w).0) [
    | inr (x, e) ↦ reading done (with_tx-tables_of_err env m w e)
    | inl (a, e) ↦
        let begun : World R = record w { calls = suc w.calls } in
        reading (joined (reading done refl) (k begun)) ((with_tx_of_ok env m w e).1)
  ]

  pub tenant_with_key-Runs :
      (svc : TenantService) (name hash : String) → Runs (tenant_with_key env svc name hash)
  unfolding tenant_with_key
  tenant_with_key-Runs svc name hash =
      bind-Runs (Tenants.create env name svc.default_global_rate_cap)
        (λ t. Tenants.create_key env t.id hash >>= λ k w. (ok t, w))
        (λ w. then_write done (create_tenant name svc.default_global_rate_cap))
        λ t.
          bind-Runs (Tenants.create_key env t.id hash) (λ k w. (ok t, w))
            (λ w. then_write done (create_key t.id hash)) (λ k w. done)

  pub upsert_channels-Runs : (i : Uuid) (cs : List ChannelSetting) → Runs (upsert_channels env i cs)
  unfolding upsert_channels
  upsert_channels-Runs i [] = λ w. done
  upsert_channels-Runs i (c ∷ cs) =
      bind-Runs (Settings.upsert_channel env i (to_channel c.channel) c.enabled)
        (λ u. upsert_channels env i cs)
        (λ w. then_write done (upsert_channel i (to_channel c.channel) c.enabled))
        (λ u. upsert_channels-Runs i cs)

  upsert_limits-Runs : (i : Uuid) (ls : List RateLimitSetting) → Runs (upsert_limits env i ls)
  unfolding upsert_limits
  upsert_limits-Runs i [] = λ w. done
  upsert_limits-Runs i (l ∷ ls) =
      bind-Runs (Settings.upsert_limit env i (to_channel l.channel) (to_nat l.max_per_min))
        (λ u. upsert_limits env i ls)
        (λ w. then_write done (upsert_limit i (to_channel l.channel) (to_nat l.max_per_min)))
        (λ u. upsert_limits-Runs i ls)

  set_cap-Runs : (i : Uuid) (t : Tenant) (cap : Option ℤ) → Runs (set_cap env i t cap)
  unfolding set_cap
  set_cap-Runs i t none w = done
  set_cap-Runs i t (some cap) w = then_write done (update_cap i (to_nat cap))

  pub set_limits-Runs :
      (i : Uuid) (t : Tenant) (r : UpdateRateLimitsRequest) → Runs (set_limits env i t r)
  unfolding set_limits
  set_limits-Runs i t r =
      bind-Runs (set_cap env i t r.global_cap)
        (λ t'. upsert_limits env i r.rate_limits >>= λ u w. (ok t', w))
        (set_cap-Runs i t r.global_cap)
        λ t'.
          bind-Runs (upsert_limits env i r.rate_limits) (λ u w. (ok t', w))
            (upsert_limits-Runs i r.rate_limits) (λ u w. done)
