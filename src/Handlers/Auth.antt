-- ===== src/Handlers/Auth.antt =====
-- backend/internal/api/middleware/auth.go. `hash` is HashAPIKey, the hex form of SHA-256.
pub mod Keys
use notifyx.Prelude.{String, Bool, true, not, str_eq, if◌then◌else◌, is_not_found}
use notifyx.Domain.{Tenant}
use notifyx.Postgres.{Env}
use notifyx.Postgres.Tenants
use notifyx.Handlers.Response.{
  missing_api_key, invalid_api_key, authentication_failed, err_response, status_unauthorized,
  status_internal_server_error, Handler, trying, unless, ◌>>◌, ◌>>=◌,
}

-- The tenant that the next handler finds in the context, or the response.
unfoldable pub auth : {R : Type 0} → Env → (String → String) → String → Handler R Tenant
auth env hash key = do
  unless (not (str_eq key "")) (err_response status_unauthorized missing_api_key)
  trying (Tenants.get_tenant_by_key_hash env (hash key)) λ e.
      if is_not_found e
      then err_response status_unauthorized invalid_api_key
      else err_response status_internal_server_error authentication_failed
