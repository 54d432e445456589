-- ===== src/Handlers/Tenants/Removed.antt =====
-- What Delete of backend/internal/api/handlers/tenant.go leaves of a tenant.
use notifyx.Prelude.{
  ◌≡◌, ◌≢◌, true, not, Option, none, some, List, arith, String, ◌==◌, any, find, select, All,
  All-map, All-select_test, All-update_where, Option-cases, inl, inr, subst, sym, str_eq, find-All,
}
use notifyx.Domain.{Uuid, Tenant}
use notifyx.Postgres.{Env, World, Tables}
use notifyx.Postgres.Notifications
use notifyx.Postgres.Templates.{detached}
use notifyx.Postgres.Tenants
use notifyx.Postgres.Tenants.{has_id, tenant_by_hash, found, without_tenant}
use notifyx.Handlers.Response.{responds, goes_on, no_body, status_no_content}
use notifyx.Handlers.Auth.{auth}
use notifyx.Handlers.Tenants.{delete}

module _ {A : Type 0} where
  -- What is left where the rows with a number are taken out.
  All-select_out :
      (key : A → Uuid) (i : Uuid) (xs : List A)
      → All (λ x. key x ≢ i) (select (λ x. not (key x == i)) xs)
  All-select_out key i xs =
      All-map (λ x. not (key x == i) ≡ true) (λ x. key x ≢ i) (λ x h e. ground arith)
        (select (λ x. not (key x == i)) xs) (All-select_test (λ x. not (key x == i)) xs)

-- No row of the tables is the tenant's or refers to it, or to a notification that was the tenant's
-- in the tables before.
abbrev pub NothingOf : Uuid → Tables → Tables → Type 0
NothingOf i before t =
    All (λ x. x.id ≢ i) t.tenants
    × All (λ x. x.tenant_id ≢ i) t.api_keys
    × All (λ x. x.tenant_id ≢ i) t.tenant_channels
    × All (λ x. x.tenant_id ≢ i) t.tenant_rate_limits
    × All (λ x. x.tenant_id ≢ i) t.templates
    × All (λ x. x.tenant_id ≢ i) t.notifications
    × All (λ d. Kept i before d.notification_id) t.deliveries
    × All (λ d. Kept i before d.notification_id) t.scheduled
    × All (λ d. Kept i before d.notification_id) t.dlq_messages
  where
    Kept : Uuid → Tables → Uuid → Type 0
    Kept i before n =
        not (any (Notifications.has_id n) (select (λ x. x.tenant_id == i) before.notifications))
        ≡ true

without_tenant-NothingOf : (i : Uuid) (t : Tables) → NothingOf i t (without_tenant i t)
unfolding without_tenant detached
without_tenant-NothingOf i t = (
  unfold has_id in All-select_out (λ x. x.id) i t.tenants,
  All-select_out (λ x. x.tenant_id) i t.api_keys,
  All-select_out (λ x. x.tenant_id) i t.tenant_channels,
  All-select_out (λ x. x.tenant_id) i t.tenant_rate_limits,
  All-select_out (λ x. x.tenant_id) i t.templates,
  All-update_where (λ x. x.tenant_id ≢ i) _ (λ n. record n { template_id = none }) (λ x h. h) _
      (All-select_out (λ x. x.tenant_id) i t.notifications),
  All-select_test _ t.deliveries,
  All-select_test _ t.scheduled,
  All-select_test _ t.dlq_messages,
)

-- The tenant of a key is one of the rows, up to its cap.
tenant_by_hash-All :
    (P : Tenant → Type 0) (t : Tables) (hash : String) {x : Tenant}
    → All P t.tenants
    → tenant_by_hash t hash ≡ some x
    → (row : Tenant) × P row × (x.id ≡ row.id)
unfolding tenant_by_hash
tenant_by_hash-All P t hash {x} a h =
    elim (Option-cases (find (λ k. str_eq k.key_hash hash) t.api_keys)) [
      | inl e ↦ absurd (ground arith)
      | inr (k, e) ↦ elim (Option-cases (find (has_id k.tenant_id) t.tenants)) [
        | inl f ↦ absurd (ground arith)
        | inr (row, f) ↦ (row, find-All P (has_id k.tenant_id) t.tenants a f, ground arith)
      ]
    ]

module _ {R : Type 0} (env : Env) (parse_uuid : String → Option Uuid) where
  delete_of_204 :
      (param : String) (w : World R) {i : Uuid}
      → parse_uuid param ≡ some i
      → (delete env parse_uuid param w).0
        ≡ responds (record { status = status_no_content; body = no_body })
      → (delete env parse_uuid param w).1.tables ≡ without_tenant i w.tables
  unfolding delete Tenants.delete
  delete_of_204 param w p h = ground arith

  -- After Delete answered 204 no row of any table is the deleted tenant's, refers to it, or refers to
  -- a notification that was the tenant's.
  delete-NothingOf :
      (param : String) (w : World R) {i : Uuid}
      → parse_uuid param ≡ some i
      → (delete env parse_uuid param w).0
        ≡ responds (record { status = status_no_content; body = no_body })
      → NothingOf i w.tables (delete env parse_uuid param w).1.tables
  delete-NothingOf param w {i} p h =
      subst (NothingOf i w.tables) (sym (delete_of_204 param w p h))
        (without_tenant-NothingOf i w.tables)

  -- After Delete answered 204 no request passes the authentication as the deleted tenant, whatever
  -- key it has.
  pub auth-delete :
      (hash : String → String) (key param : String) (w : World R) {i : Uuid} {t : Tenant}
      → parse_uuid param ≡ some i
      → (delete env parse_uuid param w).0
        ≡ responds (record { status = status_no_content; body = no_body })
      → (auth env hash key (delete env parse_uuid param w).1).0 ≡ goes_on t
      → t.id ≢ i
  unfolding auth Tenants.get_tenant_by_key_hash found
  auth-delete hash key param w {i} {t} p h a e =
      let passed : tenant_by_hash (delete env parse_uuid param w).1.tables (hash key) ≡ some t =
        ground arith in
      let (row, other, same) =
        tenant_by_hash-All (λ x. x.id ≢ i) (delete env parse_uuid param w).1.tables (hash key)
          ((delete-NothingOf param w p h).0) passed in
      other (ground (arith, same))
