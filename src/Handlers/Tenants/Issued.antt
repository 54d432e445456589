-- ===== src/Handlers/Tenants/Issued.antt =====
-- The tenants and keys that Create and Delete of backend/internal/api/handlers/tenant.go leave, and
-- the requests that backend/internal/api/middleware/auth.go lets through with them.
use notifyx.Prelude.{
  suc, ◌≡◌, ◌≢◌, refl, sym, subst, ◌∙◌, Bool, true, false, Option, none, some, List, [], ◌∷◌, ◌++◌,
  arith, String, ◌<>◌, ==_refl, ok, find, any, Result-cases, Option-cases, Bool-cases, inl, inr,
  ◌⊎◌, str_eq, str_eq_iff, str_eq_refl, find-append,
}
use text.Mathlib.TextLemmas.{append-eq-nil_iff}
use notifyx.Domain.{Uuid, Tenant, ApiKey}
use notifyx.Postgres.{Env, World, Tables, with_tx, with_tx_of_ok, with_tx-tables_of_err}
use notifyx.Postgres.Tenants
use notifyx.Postgres.Tenants.{has_id, insert_key, tenant_by_hash, found, without_tenant}
use notifyx.Handlers.Response.{Response, new_tenant_body, responds, goes_on, status_created}
use notifyx.Handlers.Requests.{is_blank}
use notifyx.Handlers.Auth.{auth}
use notifyx.Handlers.Tenants.{
  TenantService, hash_api_key, generate_api_key, tenant_with_key, create,
}

-- A text that begins with "nfx_" is not empty.
prefixed-ne-blank : (x : String) → str_eq ("nfx_" <> x) "" ≡ false
prefixed-ne-blank x = elim (Bool-cases (str_eq ("nfx_" <> x) "")) [
  | inr e ↦ e
  | inl e ↦
      let empty : "nfx_" ≡ "" =
        ((append-eq-nil_iff {p = "nfx_"} {q = x}).0 ((str_eq_iff ("nfx_" <> x) "").0 e)).0 in
      let impossible : str_eq "nfx_" "" ≡ true = (str_eq_iff "nfx_" "").1 empty in
      absurd (ground (arith, impossible))
]

find_last :
    {A : Type 0} (p : A → Bool) (xs : List A) (x : A)
    → any p xs ≡ false
    → p x ≡ true
    → find p (xs ++ x ∷ []) ≡ some x
find_last p xs x h e = find-append p xs (x ∷ []) h ∙ (unfold find in ground (arith, e))

-- A new key and a new tenant are found by the key's hash.
tenant_by_hash-added :
    (t : Tables) (row : Tenant) (k : ApiKey)
    → k.tenant_id ≡ row.id
    → any (λ x. str_eq x.key_hash k.key_hash) t.api_keys ≡ false
    → any (has_id row.id) t.tenants ≡ false
    → tenant_by_hash
        (record t { tenants = t.tenants ++ row ∷ []; api_keys = t.api_keys ++ k ∷ [] })
        k.key_hash
      ≡ some (record row { global_rate_cap = 0 })
unfolding tenant_by_hash
tenant_by_hash-added t row k e h g = ground (
  arith,
  find_last (λ x. str_eq x.key_hash k.key_hash) t.api_keys k h (str_eq_refl k.key_hash),
  find_last (has_id row.id) t.tenants row g (unfold has_id in ==_refl row.id),
)

module _ {R : Type 0} (env : Env) (svc : TenantService) where
  -- What Create adds to the tables.
  abbrev pub new_tenant : World R → String → Tenant
  new_tenant w name = record {
    id = env.fresh (suc (suc w.calls));
    name = name;
    global_rate_cap = svc.default_global_rate_cap;
    created_at = env.clock (suc (suc w.calls));
  }

  abbrev pub first_key : World R → String → ApiKey
  first_key w raw = record {
    id = env.fresh (suc (suc (suc w.calls)));
    tenant_id = env.fresh (suc (suc w.calls));
    key_hash = hash_api_key svc.crypto raw;
    created_at = env.clock (suc (suc (suc w.calls)));
  }

  tenant_with_key_of_ok :
      (name hash : String) (w : World R) {t : Tenant}
      → (tenant_with_key env svc name hash w).0 ≡ ok t
      → (t ≡ record {
        id = env.fresh w.calls;
        name = name;
        global_rate_cap = svc.default_global_rate_cap;
        created_at = env.clock w.calls;
      })
        × (any (λ k. str_eq k.key_hash hash) w.tables.api_keys ≡ false)
        × ((tenant_with_key env svc name hash w).1.tables ≡ record w.tables {
          tenants = w.tables.tenants ++ t ∷ [];
          api_keys =
              w.tables.api_keys
              ++ record {
                id = env.fresh (suc w.calls);
                tenant_id = t.id;
                key_hash = hash;
                created_at = env.clock (suc w.calls);
              }
                ∷ [];
        })
        × ((tenant_with_key env svc name hash w).1.calls ≡ suc (suc w.calls))
  unfolding tenant_with_key Tenants.create Tenants.create_key insert_key
  tenant_with_key_of_ok name hash w h = ground arith

  -- Create adds a tenant and its first key together, or nothing: either the tables are as before and
  -- the answer is not 201, or the name and the raw key are not empty, no stored key has the new key's hash, and the
  -- tables have exactly one tenant and one key of that tenant more; then the answer is 201 with the
  -- tenant's id and name and the raw key, of which only the hash is stored.
  pub create_all_or_none :
      (req : Option String) (w : World R) {r : Response}
      → (create env svc req w).0 ≡ responds r
      → (((create env svc req w).1.tables ≡ w.tables) × (r.status ≢ 201))
        ⊎ ((name : String) × (raw : String) × (req ≡ some name)
            × (is_blank name ≡ false)
            × (str_eq raw "" ≡ false)
            × (any (λ k. str_eq k.key_hash (hash_api_key svc.crypto raw)) w.tables.api_keys ≡ false)
            × ((create env svc req w).1.tables ≡ record w.tables {
              tenants = w.tables.tenants ++ new_tenant w name ∷ [];
              api_keys = w.tables.api_keys ++ first_key w raw ∷ [];
            })
            × (r ≡ record {
              status = status_created;
              body = new_tenant_body (new_tenant w name).id name raw;
            }))
  unfolding create
  create_all_or_none none w h = inl (ground arith)
  create_all_or_none (some name) w {r} h = elim (Bool-cases (is_blank name)) [
    | inl b ↦ inl (ground arith)
    | inr b ↦ elim (Option-cases (svc.crypto.random_bytes w.calls)) [
      | inl c ↦ inl (unfold generate_api_key in ground arith)
      | inr (bytes, c) ↦
          let raw = "nfx_" <> svc.crypto.hex bytes in
          let hash = hash_api_key svc.crypto raw in
          let seen : World R = record w { calls = suc w.calls } in
          let made : (generate_api_key svc.crypto w) ≡ (ok (raw, hash), seen) =
            unfold generate_api_key in ground arith in
          elim (Result-cases (with_tx env (tenant_with_key env svc name hash) seen).0) [
            | inr (e, x) ↦ inl (
                ground (
                  arith,
                  made,
                  with_tx-tables_of_err env (tenant_with_key env svc name hash) seen x,
                ))
            | inl (t, x) ↦
                let body = with_tx_of_ok env (tenant_with_key env svc name hash) seen x in
                let added =
                  tenant_with_key_of_ok name hash (record seen { calls = suc seen.calls })
                    (body.0) in
                inr (
                  name,
                  raw,
                  refl,
                  b,
                  prefixed-ne-blank (svc.crypto.hex bytes),
                  ground (arith, added),
                  ground (arith, made, body, added),
                  ground (arith, made, body, added),
                )
          ]
    ]
  ]

  -- The key that Create answered with lets its holder through as the tenant that Create made (with the
  -- cap 0, which the query does not read), where the query does not fail and the database gave the
  -- tenant an id that no tenant had.
  pub auth-create :
      (req : Option String) (w : World R) {i : Uuid} {name raw : String}
      → (create env svc req w).0
        ≡ responds (record { status = status_created; body = new_tenant_body i name raw })
      → any (has_id i) w.tables.tenants ≡ false
      → env.fault (create env svc req w).1.calls ≡ none
      → (auth env (hash_api_key svc.crypto) raw (create env svc req w).1).0
        ≡ goes_on (record (new_tenant w name) { global_rate_cap = 0 })
  unfolding auth Tenants.get_tenant_by_key_hash found
  auth-create req w {i} {name} {raw} h fresh f = elim (create_all_or_none req w h) [
    | inl (same, s) ↦ absurd (s refl)
    | inr (n, k, e, b, nb, new, tables, r) ↦
        let p : (i ≡ env.fresh (suc (suc w.calls))) × (name ≡ n) × (raw ≡ k) = ground arith in
        let owned : tenant_by_hash (create env svc req w).1.tables (hash_api_key svc.crypto raw)
            ≡ some (record (new_tenant w name) { global_rate_cap = 0 }) =
          subst
            (λ t.
              tenant_by_hash t (hash_api_key svc.crypto raw)
              ≡ some (record (new_tenant w name) { global_rate_cap = 0 }))
            (sym tables)
            (subst
              (λ x.
                tenant_by_hash
                  (record w.tables {
                    tenants = w.tables.tenants ++ new_tenant w n ∷ [];
                    api_keys = w.tables.api_keys ++ first_key w k ∷ [];
                  })
                  (hash_api_key svc.crypto x)
                ≡ some (record (new_tenant w name) { global_rate_cap = 0 }))
              (sym (p.2))
              (ground (
                arith,
                p.1,
                tenant_by_hash-added w.tables (new_tenant w n) (first_key w k) refl new
                    (ground (arith, fresh, p.0)),
              ))) in
        ground (arith, owned)
  ]
