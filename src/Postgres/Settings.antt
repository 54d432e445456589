-- ===== src/Postgres/Settings.antt =====
-- backend/internal/repository/postgres/tenant_channel_repo.go and tenant_rate_limit_repo.go: the
-- settings that a tenant has for each channel.
pub mod Upserts
use notifyx.Prelude.{
  ℕ, Bool, false, ◌&&◌, Option, none, some, List, [], ◌∷◌, ◌++◌, ◌==◌, if◌then◌else◌, find, any,
  select, update_where, pg_error, ok, err,
}
use notifyx.Domain.{Uuid, Channel, TenantChannel, TenantRateLimit, channel_eq}
use notifyx.Postgres.{Tables, Env, Io, call, gets, wrapping, ◌>>=◌, ◌>>◌}

unfoldable pub of_channel : Uuid → Channel → TenantChannel → Bool
of_channel t c x = x.tenant_id == t && channel_eq x.channel c

unfoldable pub of_limit : Uuid → Channel → TenantRateLimit → Bool
of_limit t c x = x.tenant_id == t && channel_eq x.channel c

-- INSERT … ON CONFLICT (tenant_id, channel) DO UPDATE.
unfoldable pub upsert_rows : {A : Type 0} → (A → Bool) → (A → A) → A → List A → List A
upsert_rows conflicts f row rows =
    if any conflicts rows then update_where conflicts f rows else rows ++ row ∷ []

unfoldable pub enabled_in : List TenantChannel → Uuid → Channel → Bool
unfolding of_channel
enabled_in rows t c = elim (find (of_channel t c) rows) [ none ↦ false | some x ↦ x.enabled ]

unfoldable pub references_tenant : Tables → Uuid → Bool
references_tenant t i = any (λ x. x.id == i) t.tenants

module _ {R : Type 0} (env : Env) where
  -- TenantChannelRepository.Upsert
  unfoldable pub upsert_channel : Uuid → Channel → Bool → Io R (Unit {0})
  unfolding call of_channel upsert_rows references_tenant
  upsert_channel tenant_id channel enabled = wrapping "upsert tenant channel" do
    n ← gets (λ w. w.calls)
    call env
    λ w.
        let t = w.tables in
        let row : TenantChannel = record {
          id = env.fresh n;
          tenant_id = tenant_id;
          channel = channel;
          enabled = enabled;
          created_at = env.clock n;
        } in
        if references_tenant t tenant_id
        then (
          ok tt,
          record w {
            tables = record t {
              tenant_channels =
                  upsert_rows (of_channel tenant_id channel) (λ x. record x { enabled = enabled })
                    row t.tenant_channels;
            };
          },
        )
        else (err (pg_error "23503" (env.violation "23503")), w)

  -- TenantChannelRepository.GetByTenantID
  unfoldable pub channels_by_tenant_id : Uuid → Io R (List TenantChannel)
  unfolding call
  channels_by_tenant_id i = do
    wrapping "get tenant channels" (call env)
    gets (λ w. select (λ x. x.tenant_id == i) w.tables.tenant_channels)

  -- No row means that the tenant has not opted in.
  unfoldable pub is_enabled : Uuid → Channel → Io R Bool
  unfolding call enabled_in
  is_enabled t c = do
    wrapping "check tenant channel enabled" (call env)
    gets (λ w. enabled_in w.tables.tenant_channels t c)

  -- TenantRateLimitRepository.Upsert
  unfoldable pub upsert_limit : Uuid → Channel → ℕ → Io R (Unit {0})
  unfolding call of_limit upsert_rows references_tenant
  upsert_limit tenant_id channel max_per_min = wrapping "upsert tenant rate limit" do
    n ← gets (λ w. w.calls)
    call env
    λ w.
        let t = w.tables in
        let row : TenantRateLimit = record {
          id = env.fresh n;
          tenant_id = tenant_id;
          channel = channel;
          max_per_min = max_per_min;
          created_at = env.clock n;
        } in
        if references_tenant t tenant_id
        then (
          ok tt,
          record w {
            tables = record t {
              tenant_rate_limits =
                  upsert_rows (of_limit tenant_id channel)
                    (λ x. record x { max_per_min = max_per_min }) row t.tenant_rate_limits;
            };
          },
        )
        else (err (pg_error "23503" (env.violation "23503")), w)

  -- TenantRateLimitRepository.GetByTenantID
  unfoldable pub limits_by_tenant_id : Uuid → Io R (List TenantRateLimit)
  unfolding call
  limits_by_tenant_id i = do
    wrapping "get rate limits" (call env)
    gets (λ w. select (λ x. x.tenant_id == i) w.tables.tenant_rate_limits)

  -- nil means "use the default".
  unfoldable pub get_by_channel : Uuid → Channel → Io R (Option TenantRateLimit)
  unfolding call of_limit
  get_by_channel t c = do
    wrapping "get rate limit by channel" (call env)
    gets (λ w. find (of_limit t c) w.tables.tenant_rate_limits)
