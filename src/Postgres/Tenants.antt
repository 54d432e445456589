-- ===== src/Postgres/Tenants.antt =====
-- backend/internal/repository/postgres/tenant_repo.go and api_key_repo.go.
use notifyx.Prelude.{
  ℕ, String, Bool, Option, none, some, List, [], ◌∷◌, ◌++◌, ◌==◌, if◌then◌else◌, str_eq, find, any,
  select, update_where, not_found, pg_error, ok, err, not, order_by,
}
use mathlib.Core.List.{reverse}
use notifyx.Postgres.Notifications.{without_notifications}
use notifyx.Postgres.Templates.{detached}
use notifyx.Domain.{Uuid, Tenant, ApiKey}
use notifyx.Postgres.{Tables, Env, Io, call, pure, fail, gets, wrapping, ◌>>=◌, ◌>>◌}

unfoldable pub has_id : Uuid → Tenant → Bool
has_id i t = t.id == i

unfoldable pub found : {R : Type 0} → Option Tenant → Io R Tenant
found none = fail not_found
found (some t) = pure t

-- UPDATE … WHERE id = i RETURNING the row.
unfoldable pub update_returning : {R : Type 0} → Uuid → (Tenant → Tenant) → Io R Tenant
unfolding has_id found
update_returning i f w =
    let t = w.tables in
    let rows = update_where (has_id i) f t.tenants in
    found (find (has_id i) rows) (record w { tables = record t { tenants = rows } })

unfoldable pub insert_key : {R : Type 0} → Env → ApiKey → Io R ApiKey
insert_key env k w =
    let t = w.tables in
    if any (λ x. str_eq x.key_hash k.key_hash) t.api_keys
    then (err (pg_error "23505" (env.violation "23505")), w)
    else if any (has_id k.tenant_id) t.tenants
    then (ok k, record w { tables = record t { api_keys = t.api_keys ++ k ∷ [] } })
    else (err (pg_error "23503" (env.violation "23503")), w)

-- The tenant of the joined row: the query does not select global_rate_cap, which stays 0.
unfoldable pub tenant_by_hash : Tables → String → Option Tenant
unfolding has_id
tenant_by_hash t hash = elim (find (λ k. str_eq k.key_hash hash) t.api_keys) [
  | none ↦ none
  | some k ↦ elim (find (has_id k.tenant_id) t.tenants) [
    | none ↦ none
    | some x ↦ some (record x { global_rate_cap = 0 })
  ]
]

-- The tables without the tenant and the rows that refer to it: ON DELETE CASCADE, through the
-- notifications to their deliveries, schedule rows and DLQ rows.
unfoldable pub without_tenant : Uuid → Tables → Tables
unfolding has_id without_notifications detached
without_tenant i t =
    let rest = without_notifications (λ n. n.tenant_id == i) t in
    record rest {
      notifications = detached (select (λ x. x.tenant_id == i) t.templates) rest.notifications;
      tenants = select (λ x. not (has_id i x)) t.tenants;
      tenant_channels = select (λ x. not (x.tenant_id == i)) t.tenant_channels;
      tenant_rate_limits = select (λ x. not (x.tenant_id == i)) t.tenant_rate_limits;
      api_keys = select (λ x. not (x.tenant_id == i)) t.api_keys;
      templates = select (λ x. not (x.tenant_id == i)) t.templates;
    }

module _ {R : Type 0} (env : Env) where
  unfoldable pub create : String → ℕ → Io R Tenant
  unfolding call
  create name global_rate_cap = wrapping "create tenant" do
    n ← gets (λ w. w.calls)
    call env
    λ w.
        let t = w.tables in
        let row : Tenant = record {
          id = env.fresh n;
          name = name;
          global_rate_cap = global_rate_cap;
          created_at = env.clock n;
        } in
        (ok row, record w { tables = record t { tenants = t.tenants ++ row ∷ [] } })

  unfoldable pub get_by_id : Uuid → Io R Tenant
  unfolding call has_id found
  get_by_id i = do
    wrapping "get tenant by id" (call env)
    t ← gets (λ w. find (has_id i) w.tables.tenants)
    found t

  unfoldable pub update : Uuid → String → Io R Tenant
  unfolding call update_returning
  update i name = do
    wrapping "update tenant" (call env)
    update_returning i (λ t. record t { name = name })

  unfoldable pub update_global_rate_cap : Uuid → ℕ → Io R Tenant
  unfolding call update_returning
  update_global_rate_cap i cap = do
    wrapping "update tenant global rate cap" (call env)
    update_returning i (λ t. record t { global_rate_cap = cap })

  -- The newest first.
  unfoldable pub get_all : Io R (List Tenant)
  unfolding call
  get_all = do
    wrapping "list tenants" (call env)
    gets (λ w. reverse (order_by (λ x. x.created_at) w.tables.tenants))

  unfoldable pub delete : Uuid → Io R (Unit {0})
  unfolding call has_id without_tenant
  delete i = do
    wrapping "delete tenant" (call env)
    λ w.
        if any (has_id i) w.tables.tenants
        then (ok tt, record w { tables = without_tenant i w.tables })
        else (err not_found, w)

  -- APIKeyRepository.Create
  unfoldable pub create_key : Uuid → String → Io R ApiKey
  unfolding call insert_key
  create_key tenant_id key_hash = wrapping "create api key" do
    n ← gets (λ w. w.calls)
    call env
    insert_key env (record {
      id = env.fresh n;
      tenant_id = tenant_id;
      key_hash = key_hash;
      created_at = env.clock n;
    })

  unfoldable pub get_tenant_by_key_hash : String → Io R Tenant
  unfolding call tenant_by_hash found
  get_tenant_by_key_hash hash = do
    wrapping "get tenant by key hash" (call env)
    t ← gets (λ w. tenant_by_hash w.tables hash)
    found t

  -- APIKeyRepository.GetByTenantID
  unfoldable pub keys_by_tenant_id : Uuid → Io R (List ApiKey)
  unfolding call
  keys_by_tenant_id i = do
    wrapping "list api keys" (call env)
    gets (λ w. select (λ k. k.tenant_id == i) w.tables.api_keys)

  -- APIKeyRepository.Delete
  unfoldable pub delete_key : Uuid → Io R (Unit {0})
  unfolding call
  delete_key i = do
    wrapping "delete api key" (call env)
    λ w.
        let t = w.tables in
        if any (λ k. k.id == i) t.api_keys
        then (
          ok tt,
          record w { tables = record t { api_keys = select (λ k. not (k.id == i)) t.api_keys } },
        )
        else (err not_found, w)
