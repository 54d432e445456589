-- ===== src/Handlers/Tenants/Caps.antt =====
-- What UpdateRateLimits of backend/internal/api/handlers/tenant.go makes of the limits that
-- backend/internal/ratelimit/limiter.go resolves.
use notifyx.Prelude.{
  ap, ◌∙◌, update_where, ℕ, suc, ◌≡◌, refl, ◌&&◌, Option, none, some, List, [], ◌∷◌, arith, String,
  ◌==◌, ==_refl, ok, find, if◌then◌else◌, Result-cases, Option-cases, inl, inr, ℤ, to_nat,
}
use notifyx.Domain.{Uuid, Channel, to_channel, channel_eq, Tenant, TenantRateLimit}
use notifyx.Postgres.{Env, World, with_tx, with_tx_of_ok}
use notifyx.Postgres.Settings
use notifyx.Postgres.Settings.{of_limit, upsert_rows, upsert_limit}
use notifyx.Postgres.Settings.Upserts.{find-upsert_setting, find-update_where, changed}
use notifyx.Postgres.Tenants
use notifyx.Postgres.Tenants.{has_id}
use notifyx.Ratelimit.{Limiter, resolve_limits, or_default}
use notifyx.Handlers.Response.{limits_body, responds, status_ok}
use notifyx.Handlers.Tenants.Settings.{
  RateLimitSetting, UpdateRateLimitsRequest, upsert_limits, set_cap, set_limits, update_rate_limits,
}

-- The limit of a channel after a list of settings, the last one for it counting, where it was `old`
-- before.
abbrev pub limited : List RateLimitSetting → Channel → ℕ → ℕ
limited [] c old = old
limited (x ∷ xs) c old =
    limited xs c (if channel_eq (to_channel x.channel) c then to_nat x.max_per_min else old)

-- The global cap after a request that has or does not have one, where it was `old` before.
abbrev pub capped : Option ℤ → ℕ → ℕ
capped none old = old
capped (some cap) old = to_nat cap

-- The limit that the rows give.
abbrev pub limit_in : ℕ → List TenantRateLimit → Uuid → Channel → ℕ
limit_in default rows i c = elim (find (of_limit i c) rows) [
  | none ↦ default
  | some x ↦ x.max_per_min
]

limit_in-upsert_rows :
    (default : ℕ) (row : TenantRateLimit) (rows : List TenantRateLimit) (i : Uuid) (c : Channel)
    → limit_in default
        (upsert_rows
          (of_limit row.tenant_id row.channel)
          (λ x. record x { max_per_min = row.max_per_min })
          row
          rows)
        i
        c
      ≡ (if (row.tenant_id == i) && channel_eq row.channel c
          then row.max_per_min
          else limit_in default rows i c)
unfolding of_limit
limit_in-upsert_rows default row rows i c = ground (
  arith,
  find-upsert_setting (λ x. x.tenant_id) (λ x. x.channel)
      (λ x. record x { max_per_min = row.max_per_min }) (λ x. refl) (λ x. refl) row rows i c,
  Option-cases (find (of_limit i c) rows),
)

module _ {R : Type 0} (env : Env) where
  upsert_limit_of_ok :
      (default : ℕ) (i : Uuid) (c : Channel) (m : ℕ) (w : World R) (d : Channel)
      → (upsert_limit env i c m w).0 ≡ ok tt
      → (limit_in default (upsert_limit env i c m w).1.tables.tenant_rate_limits i d
          ≡ (if channel_eq c d then m else limit_in default w.tables.tenant_rate_limits i d))
        × ((upsert_limit env i c m w).1.tables.tenants ≡ w.tables.tenants)
  unfolding upsert_limit
  upsert_limit_of_ok default i c m w d h =
      ground (arith, limit_in-upsert_rows default row w.tables.tenant_rate_limits i d, ==_refl i)
    where
      row : TenantRateLimit
      row = record {
        id = env.fresh w.calls;
        tenant_id = i;
        channel = c;
        max_per_min = m;
        created_at = env.clock w.calls;
      }

  upsert_limits_of_ok :
      (default : ℕ) (i : Uuid) (ls : List RateLimitSetting) (w : World R) (d : Channel)
      → (upsert_limits env i ls w).0 ≡ ok tt
      → (limit_in default (upsert_limits env i ls w).1.tables.tenant_rate_limits i d
          ≡ limited ls d (limit_in default w.tables.tenant_rate_limits i d))
        × ((upsert_limits env i ls w).1.tables.tenants ≡ w.tables.tenants)
  unfolding upsert_limits
  upsert_limits_of_ok default i [] w d h = ground arith
  upsert_limits_of_ok default i (l ∷ ls) w d h =
      let next : World R = (upsert_limit env i (to_channel l.channel) (to_nat l.max_per_min) w).1 in
      let first : (upsert_limit env i (to_channel l.channel) (to_nat l.max_per_min) w).0 ≡ ok tt =
        ground arith in
      ground (
        arith,
        upsert_limit_of_ok default i (to_channel l.channel) (to_nat l.max_per_min) w d first,
        upsert_limits_of_ok default i ls next d,
      )

  -- The tenant that set_cap gives is the stored one afterwards, with the cap of the request or, without
  -- one, its own.
  set_cap_of_ok :
      (i : Uuid) (t : Tenant) (cap : Option ℤ) (w : World R) {t' : Tenant}
      → find (has_id i) w.tables.tenants ≡ some t
      → (set_cap env i t cap w).0 ≡ ok t'
      → (find (has_id i) (set_cap env i t cap w).1.tables.tenants ≡ some t')
        × (t'.global_rate_cap ≡ capped cap t.global_rate_cap)
        × ((set_cap env i t cap w).1.tables.tenant_rate_limits ≡ w.tables.tenant_rate_limits)
  unfolding set_cap
  set_cap_of_ok i t none w f h = ground arith
  set_cap_of_ok i t (some z) w f h =
      let put : Tenant → Tenant = λ x. record x { global_rate_cap = to_nat z } in
      let stored : find (has_id i) (update_where (has_id i) put w.tables.tenants) ≡ some (put t) =
        find-update_where (has_id i) put (λ x. unfold has_id in refl) w.tables.tenants
        ∙ ap (changed put) f in
      unfold Tenants.update_global_rate_cap Tenants.update_returning Tenants.found in
      ground (arith, stored)

  -- The limits that the transaction of UpdateRateLimits leaves.
  set_limits_of_ok :
      (default : ℕ) (i : Uuid) (t : Tenant) (r : UpdateRateLimitsRequest) (w : World R)
      {t' : Tenant} (d : Channel)
      → find (has_id i) w.tables.tenants ≡ some t
      → (set_limits env i t r w).0 ≡ ok t'
      → (find (has_id i) (set_limits env i t r w).1.tables.tenants ≡ some t')
        × (t'.global_rate_cap ≡ capped r.global_cap t.global_rate_cap)
        × (limit_in default (set_limits env i t r w).1.tables.tenant_rate_limits i d
            ≡ limited r.rate_limits d (limit_in default w.tables.tenant_rate_limits i d))
  unfolding set_limits
  set_limits_of_ok default i t r w {t'} d f h =
      elim (Result-cases (set_cap env i t r.global_cap w).0) [
        | inr (e, x) ↦ absurd (ground arith)
        | inl (t1, x) ↦
            let next : World R = (set_cap env i t r.global_cap w).1 in
            elim (Result-cases (upsert_limits env i r.rate_limits next).0) [
              | inr (e, y) ↦ absurd (ground arith)
              | inl (u, y) ↦ ground (
                arith,
                set_cap_of_ok i t r.global_cap w f x,
                upsert_limits_of_ok default i r.rate_limits next d y,
              )
            ]
      ]

  resolve_limits_in :
      (l : Limiter R) (i : Uuid) (d : Channel) (w : World R) {t : Tenant}
      → find (has_id i) w.tables.tenants ≡ some t
      → env.fault w.calls ≡ none
      → env.fault (suc w.calls) ≡ none
      → (resolve_limits env l i d w).0
        ≡ ok (limit_in l.default_max w.tables.tenant_rate_limits i d, t.global_rate_cap)
  unfolding resolve_limits Tenants.get_by_id Tenants.found Settings.get_by_channel or_default
  resolve_limits_in l i d w f f1 f2 =
      ground (arith, Option-cases (find (of_limit i d) w.tables.tenant_rate_limits))

  -- How UpdateRateLimits came to a 200: the tenant is there and the transaction succeeded.
  update_rate_limits_of_ok :
      (parse_uuid : String → Option Uuid) (param : String) (r : UpdateRateLimitsRequest)
      (w : World R) {i : Uuid} {cap : ℕ} {rows : List TenantRateLimit}
      → parse_uuid param ≡ some i
      → (update_rate_limits env parse_uuid param (some r) w).0
        ≡ responds (record { status = status_ok; body = limits_body cap rows })
      → (t : Tenant) × (t' : Tenant) × (find (has_id i) w.tables.tenants ≡ some t)
        × ((with_tx env (set_limits env i t r) (record w { calls = suc w.calls })).0 ≡ ok t')
        × (t'.global_rate_cap ≡ cap)
        × ((update_rate_limits env parse_uuid param (some r) w).1.tables
            ≡ (with_tx env (set_limits env i t r) (record w { calls = suc w.calls })).1.tables)
  unfolding update_rate_limits Tenants.get_by_id Tenants.found Settings.limits_by_tenant_id
  update_rate_limits_of_ok parse_uuid param r w {i} p h =
      elim (Option-cases (find (has_id i) w.tables.tenants)) [
        | inl e ↦ absurd (ground arith)
        | inr (t, e) ↦
            let seen : World R = record w { calls = suc w.calls } in
            elim (Result-cases (with_tx env (set_limits env i t r) seen).0) [
              | inr (e', x) ↦ absurd (ground arith)
              | inl (t', x) ↦ (t, t', e, ground arith, ground arith, ground arith)
            ]
      ]

  -- After UpdateRateLimits answered 200 with a global cap, and where the queries of the limiter do not
  -- fail, the limiter resolves for each channel of the tenant the last limit that the request has for
  -- it, or the limit as it was where it has none, together with exactly that global cap, which is the
  -- cap of the request, or the stored tenant's as it was where the request has none.
  pub resolve_limits-update_rate_limits :
      (l : Limiter R) (parse_uuid : String → Option Uuid) (param : String)
      (r : UpdateRateLimitsRequest) (w : World R) {i : Uuid} {cap : ℕ} {rows : List TenantRateLimit}
      (d : Channel)
      → parse_uuid param ≡ some i
      → (update_rate_limits env parse_uuid param (some r) w).0
        ≡ responds (record { status = status_ok; body = limits_body cap rows })
      → env.fault (update_rate_limits env parse_uuid param (some r) w).1.calls ≡ none
      → env.fault (suc (update_rate_limits env parse_uuid param (some r) w).1.calls) ≡ none
      → ((resolve_limits env l i d (update_rate_limits env parse_uuid param (some r) w).1).0
          ≡ ok (
            limited r.rate_limits d (limit_in l.default_max w.tables.tenant_rate_limits i d),
            cap,
          ))
        × ((t : Tenant) × (find (has_id i) w.tables.tenants ≡ some t)
            × (cap ≡ capped r.global_cap t.global_rate_cap))
  resolve_limits-update_rate_limits l parse_uuid param r w {i} {cap} {rows} d p h f1 f2 =
      let after : World R = (update_rate_limits env parse_uuid param (some r) w).1 in
      let (t, t', e, x, c, kept) = update_rate_limits_of_ok parse_uuid param r w p h in
      let seen : World R = record w { calls = suc w.calls } in
      let body = with_tx_of_ok env (set_limits env i t r) seen x in
      let left =
        set_limits_of_ok l.default_max i t r (record seen { calls = suc seen.calls }) d e
          (body.0) in
      (
        ground (
          arith,
          left,
          body.1,
          kept,
          c,
          resolve_limits_in l i d after {t = t'} (ground (arith, left, body.1, kept)) f1 f2,
        ),
        (t, e, ground (arith, left, c)),
      )
