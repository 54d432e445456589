-- ===== src/Handlers/Tenants.antt =====
-- The handlers Create, List, Get, Update and Delete of backend/internal/api/handlers/tenant.go, and
-- apikey.go. A request whose body Bind refuses is `none`. The routes of these handlers have no
-- authentication; `parse_uuid` is uuid.Parse.
pub mod Settings
pub mod Caps
pub mod Issued
pub mod Removed
pub mod Switches
use notifyx.Prelude.{String, ◌<>◌, Option, none, some, Error, message, wrap, ok, err, not, suc, ℕ}
use notifyx.Domain.{Uuid, Tenant, ApiKey}
use notifyx.Postgres.{Env, Io, with_tx, pure}
use notifyx.Postgres.{◌>>=◌ as ◌after◌}
use notifyx.Postgres.Tenants
use notifyx.Handlers.Response.{
  ErrorText, name_required, key_generation_failed, create_tenant_failed, list_tenants_failed,
  get_tenant_failed, update_tenant_failed, delete_tenant_failed, verify_tenant_failed,
  store_key_failed, list_keys_failed, revoke_key_failed, invalid_tenant_id, tenant_not_found,
  invalid_key_id, key_not_found, invalid_body, no_body, new_tenant_body, tenant_body, tenants_body,
  new_key_body, keys_body, Response, err_response, status_ok, status_created, status_no_content,
  status_bad_request, status_unprocessable_entity, Handler, respond, trying, unless, require,
  missing_or, failing, ◌>>=◌, ◌>>◌,
}
use notifyx.Handlers.Requests.{is_blank}

-- crypto/rand, crypto/sha256 and encoding/hex: the bytes that the read at the n-th call gives,
-- where it does not fail.
pub record Crypto : Type 0 where
  pub random_bytes : ℕ → Option String
  pub sha256 : String → String
  pub hex : String → String

-- HashAPIKey
unfoldable pub hash_api_key : Crypto → String → String
hash_api_key crypto key = crypto.hex (crypto.sha256 key)

-- generateAPIKey: the raw key and its hash.
unfoldable pub generate_api_key : {R : Type 0} → Crypto → Io R (String × String)
unfolding hash_api_key
generate_api_key crypto w = (
  elim (crypto.random_bytes w.calls) [
    | none ↦ err (wrap "generate random bytes" (message "rand"))
    | some b ↦ let raw = "nfx_" <> crypto.hex b in ok (raw, hash_api_key crypto raw)
  ],
  record w { calls = suc w.calls },
)

-- TenantService
pub record TenantService : Type 0 where
  pub crypto : Crypto
  pub default_global_rate_cap : ℕ

module _ {R : Type 0} (env : Env) (svc : TenantService) where
  -- What Create does in its transaction: the tenant, then its first key.
  unfoldable pub tenant_with_key : String → String → Io R Tenant
  tenant_with_key name key_hash = Tenants.create env name svc.default_global_rate_cap after λ t.
      Tenants.create_key env t.id key_hash after λ k. pure t

  -- Create; the request's body is its name.
  unfoldable pub create : Option String → Handler R Response
  unfolding generate_api_key tenant_with_key
  create req = do
    name ← require req (err_response status_bad_request invalid_body)
    unless (not (is_blank name)) (err_response status_unprocessable_entity name_required)
    key ← trying (generate_api_key svc.crypto) (failing key_generation_failed)
    t ← trying (with_tx env (tenant_with_key name (key.1))) (failing create_tenant_failed)
    respond (record { status = status_created; body = new_tenant_body t.id t.name (key.0) })

module _ {R : Type 0} (env : Env) (parse_uuid : String → Option Uuid) where
  -- The id of the path.
  abbrev pub tenant_param : String → Handler R Uuid
  tenant_param param =
      require (parse_uuid param) (err_response status_bad_request invalid_tenant_id)

  -- The check of CreateKey and of the settings' handlers that the tenant exists.
  abbrev pub verify_tenant : Uuid → Handler R Tenant
  verify_tenant i =
      trying (Tenants.get_by_id env i) (missing_or tenant_not_found verify_tenant_failed)

  unfoldable pub list : Handler R Response
  list = do
    ts ← trying (Tenants.get_all env) (failing list_tenants_failed)
    respond (record { status = status_ok; body = tenants_body ts })

  unfoldable pub get : String → Handler R Response
  get param = do
    i ← tenant_param param
    t ← trying (Tenants.get_by_id env i) (missing_or tenant_not_found get_tenant_failed)
    respond (record { status = status_ok; body = tenant_body t })

  unfoldable pub update : String → Option String → Handler R Response
  update param req = do
    i ← tenant_param param
    name ← require req (err_response status_bad_request invalid_body)
    unless (not (is_blank name)) (err_response status_unprocessable_entity name_required)
    t ← trying (Tenants.update env i name) (missing_or tenant_not_found update_tenant_failed)
    respond (record { status = status_ok; body = tenant_body t })

  unfoldable pub delete : String → Handler R Response
  delete param = do
    i ← tenant_param param
    trying (Tenants.delete env i) (missing_or tenant_not_found delete_tenant_failed)
    respond (record { status = status_no_content; body = no_body })

  unfoldable pub list_keys : String → Handler R Response
  list_keys param = do
    i ← tenant_param param
    ks ← trying (Tenants.keys_by_tenant_id env i) (failing list_keys_failed)
    respond (record { status = status_ok; body = keys_body ks })

  -- DeleteKey, which does not look at the tenant of the path.
  unfoldable pub revoke_key : String → Handler R Response
  revoke_key key_param = do
    i ← require (parse_uuid key_param) (err_response status_bad_request invalid_key_id)
    trying (Tenants.delete_key env i) (missing_or key_not_found revoke_key_failed)
    respond (record { status = status_no_content; body = no_body })

-- CreateKey
unfoldable pub new_key :
    {R : Type 0} → Env → TenantService → (String → Option Uuid) → String → Handler R Response
unfolding generate_api_key
new_key env svc parse_uuid param = do
  i ← tenant_param env parse_uuid param
  verify_tenant env parse_uuid i
  key ← trying (generate_api_key svc.crypto) (failing key_generation_failed)
  k ← trying (Tenants.create_key env i (key.1)) (failing store_key_failed)
  respond (record { status = status_created; body = new_key_body k.id (key.0) })
