-- ===== src/Handlers/Auth/Keys.antt =====
-- The API keys that backend/internal/api/middleware/auth.go lets through.
use notifyx.Prelude.{
  suc, String, ◌≡◌, Bool, false, not, ◌&&◌, none, some, [], ◌∷◌, ◌++◌, arith, ok, All, find, any,
  select, str_eq, str_eq_refl, find-append, find-select, ◌∙◌, ◌==◌, is_not_found-not_found,
}
use notifyx.Domain.{Uuid, Tenant, ApiKey}
use notifyx.Postgres.{Env, World}
use notifyx.Postgres.Tenants
use notifyx.Postgres.Tenants.{tenant_by_hash, insert_key, found}
use notifyx.Handlers.Response.{
  goes_on, responds, err_response, status_unauthorized, invalid_api_key,
}
use notifyx.Handlers.Auth.{auth}

module _ {R : Type 0} (env : Env) (hash : String → String) where
  -- A request gets through only with a key that is not empty and whose hash is a stored key's, and
  -- as the tenant of that key; nothing is written.
  auth_passes :
      (key : String) (w : World R) {t : Tenant}
      → (auth env hash key w).0 ≡ goes_on t
      → (str_eq key "" ≡ false)
        × (tenant_by_hash w.tables (hash key) ≡ some t)
        × ((auth env hash key w).1.tables ≡ w.tables)
  unfolding auth Tenants.get_tenant_by_key_hash found
  auth_passes key w {t} h = ground arith

  -- A key that was just created for a tenant lets its holder through as that tenant, where the
  -- query does not fail; the cap of the tenant in the context is 0.
  auth-create_key :
      (key : String) (t : Tenant) (row : ApiKey) (w : World R)
      → str_eq key "" ≡ false
      → (Tenants.create_key env t.id (hash key) w).0 ≡ ok row
      → find (Tenants.has_id t.id) w.tables.tenants ≡ some t
      → env.fault (suc w.calls) ≡ none
      → (auth env hash key (Tenants.create_key env t.id (hash key) w).1).0
        ≡ goes_on (record t { global_rate_cap = 0 })
  unfolding auth Tenants.get_tenant_by_key_hash found
  auth-create_key key t row w k h f c =
      let owned : tenant_by_hash made.tables (hash key) ≡ some (record t { global_rate_cap = 0 }) =
        unfold tenant_by_hash in ground (arith, stored, newest) in
      ground (arith, stored, owned)
    where
      made : World R
      made = (Tenants.create_key env t.id (hash key) w).1

      holds : ApiKey → Bool
      holds x = str_eq x.key_hash (hash key)

      stored :
          (row.tenant_id ≡ t.id)
          × (row.key_hash ≡ hash key)
          × (any holds w.tables.api_keys ≡ false)
          × (made.tables.api_keys ≡ w.tables.api_keys ++ row ∷ [])
          × (made.tables.tenants ≡ w.tables.tenants)
          × (made.calls ≡ suc w.calls)
      stored = unfold Tenants.create_key insert_key in ground arith

      newest : find holds (w.tables.api_keys ++ row ∷ []) ≡ some row
      newest =
          find-append holds w.tables.api_keys (row ∷ []) (stored.2)
          ∙ (unfold find in ground (arith, stored, str_eq_refl (hash key)))

  -- After a key's row was deleted, and no other row has its hash, the key does not get through.
  auth-delete_key :
      (key : String) (i : Uuid) (w : World R)
      → str_eq key "" ≡ false
      → (Tenants.delete_key env i w).0 ≡ ok tt
      → All (λ k. (str_eq k.key_hash (hash key) && not (k.id == i)) ≡ false) w.tables.api_keys
      → env.fault (suc w.calls) ≡ none
      → (auth env hash key (Tenants.delete_key env i w).1).0
        ≡ responds (err_response status_unauthorized invalid_api_key)
  unfolding auth Tenants.get_tenant_by_key_hash found
  auth-delete_key key i w k h a c =
      let gone : tenant_by_hash after.tables (hash key) ≡ none =
        unfold tenant_by_hash in ground (arith, deleted, missing) in
      ground (arith, deleted, gone, is_not_found-not_found)
    where
      after : World R
      after = (Tenants.delete_key env i w).1

      holds : ApiKey → Bool
      holds x = str_eq x.key_hash (hash key)

      deleted :
          (after.tables.api_keys ≡ select (λ x. not (x.id == i)) w.tables.api_keys)
          × (after.calls ≡ suc w.calls)
      deleted = unfold Tenants.delete_key in ground arith

      missing : find holds (select (λ x. not (x.id == i)) w.tables.api_keys) ≡ none
      missing = find-select holds (λ x. not (x.id == i)) w.tables.api_keys a
