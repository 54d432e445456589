-- ===== src/Postgres/References/Writing.antt =====
-- That the writes of tenants and keys in backend/internal/repository/postgres keeps the foreign keys of
-- backend/migrations.
use notifyx.Prelude.{
  ℕ, ◌≡◌, refl, sym, subst, not, String, [], ◌∷◌, ◌++◌, arith, ◌==◌, select, update_where, inl, inr,
  Option-cases, find, All-select,
}
use notifyx.Domain.{Uuid, Channel}
use notifyx.Postgres.{Env, World}
use notifyx.Postgres.Tenants
use notifyx.Postgres.Templates
use notifyx.Postgres.References.{Refer-row, Refer-target, Refer-update_target}
use notifyx.Postgres.References.Templated.{Templated-append}
use notifyx.Postgres.References.Valid.{Valid, settle}

module _ {R : Type 0} (env : Env) (w : World R) (v : Valid w.tables) where
  pub create_tenant-Valid :
      (name : String) (cap : ℕ) → Valid (Tenants.create env name cap w).1.tables
  unfolding Tenants.create
  create_tenant-Valid name cap =
      settle (Tenants.create env name cap) w v (λ e h. ground arith)
        λ a h.
          let after : (Tenants.create env name cap w).1.tables
              ≡ record w.tables { tenants = w.tables.tenants ++ a ∷ [] } =
            ground arith in
          subst Valid (sym after) (
            v.0,
            v.1,
            v.2,
            Refer-target (λ x. x.tenant_id) (λ t. t.id) w.tables.notifications w.tables.tenants a
                (v.3),
            Refer-target (λ x. x.tenant_id) (λ t. t.id) w.tables.api_keys w.tables.tenants a (v.4),
            Refer-target (λ x. x.tenant_id) (λ t. t.id) w.tables.tenant_channels w.tables.tenants a
                (v.5),
            Refer-target (λ x. x.tenant_id) (λ t. t.id) w.tables.tenant_rate_limits w.tables.tenants
                a (v.6),
            Refer-target (λ x. x.tenant_id) (λ t. t.id) w.tables.templates w.tables.tenants a (v.7),
            v.8,
          )

  pub update_tenant-Valid :
      (i : Uuid) (name : String) → Valid (Tenants.update env i name w).1.tables
  unfolding Tenants.update Tenants.update_returning Tenants.found
  update_tenant-Valid i name = elim (Option-cases (env.fault w.calls)) [
    | inr (e, h) ↦
        let same : (Tenants.update env i name w).1.tables ≡ w.tables = ground arith in
        subst Valid (sym same) v
    | inl h ↦
        let after : (Tenants.update env i name w).1.tables ≡ record w.tables {
          tenants =
              update_where (Tenants.has_id i) (λ t. record t { name = name }) w.tables.tenants;
        } =
          ground (
            arith,
            Option-cases (
                find (Tenants.has_id i) (
                  update_where (Tenants.has_id i) (λ t. record t { name = name })
                    w.tables.tenants)),
          ) in
        subst Valid (sym after) (
          v.0,
          v.1,
          v.2,
          Refer-update_target (λ x. x.tenant_id) (λ t. t.id) (Tenants.has_id i)
              (λ t. record t { name = name }) (λ x. refl) w.tables.notifications w.tables.tenants
              (v.3),
          Refer-update_target (λ x. x.tenant_id) (λ t. t.id) (Tenants.has_id i)
              (λ t. record t { name = name }) (λ x. refl) w.tables.api_keys w.tables.tenants (v.4),
          Refer-update_target (λ x. x.tenant_id) (λ t. t.id) (Tenants.has_id i)
              (λ t. record t { name = name }) (λ x. refl) w.tables.tenant_channels w.tables.tenants
              (v.5),
          Refer-update_target (λ x. x.tenant_id) (λ t. t.id) (Tenants.has_id i)
              (λ t. record t { name = name }) (λ x. refl) w.tables.tenant_rate_limits
              w.tables.tenants (v.6),
          Refer-update_target (λ x. x.tenant_id) (λ t. t.id) (Tenants.has_id i)
              (λ t. record t { name = name }) (λ x. refl) w.tables.templates w.tables.tenants (v.7),
          v.8,
        )
  ]

  pub update_cap-Valid :
      (i : Uuid) (cap : ℕ) → Valid (Tenants.update_global_rate_cap env i cap w).1.tables
  unfolding Tenants.update_global_rate_cap Tenants.update_returning Tenants.found
  update_cap-Valid i cap = elim (Option-cases (env.fault w.calls)) [
    | inr (e, h) ↦
        let same : (Tenants.update_global_rate_cap env i cap w).1.tables ≡ w.tables =
          ground arith in
        subst Valid (sym same) v
    | inl h ↦
        let after : (Tenants.update_global_rate_cap env i cap w).1.tables ≡ record w.tables {
          tenants =
              update_where (Tenants.has_id i) (λ t. record t { global_rate_cap = cap })
                w.tables.tenants;
        } =
          ground (
            arith,
            Option-cases (
                find (Tenants.has_id i) (
                  update_where (Tenants.has_id i) (λ t. record t { global_rate_cap = cap })
                    w.tables.tenants)),
          ) in
        subst Valid (sym after) (
          v.0,
          v.1,
          v.2,
          Refer-update_target (λ x. x.tenant_id) (λ t. t.id) (Tenants.has_id i)
              (λ t. record t { global_rate_cap = cap }) (λ x. refl) w.tables.notifications
              w.tables.tenants (v.3),
          Refer-update_target (λ x. x.tenant_id) (λ t. t.id) (Tenants.has_id i)
              (λ t. record t { global_rate_cap = cap }) (λ x. refl) w.tables.api_keys
              w.tables.tenants (v.4),
          Refer-update_target (λ x. x.tenant_id) (λ t. t.id) (Tenants.has_id i)
              (λ t. record t { global_rate_cap = cap }) (λ x. refl) w.tables.tenant_channels
              w.tables.tenants (v.5),
          Refer-update_target (λ x. x.tenant_id) (λ t. t.id) (Tenants.has_id i)
              (λ t. record t { global_rate_cap = cap }) (λ x. refl) w.tables.tenant_rate_limits
              w.tables.tenants (v.6),
          Refer-update_target (λ x. x.tenant_id) (λ t. t.id) (Tenants.has_id i)
              (λ t. record t { global_rate_cap = cap }) (λ x. refl) w.tables.templates
              w.tables.tenants (v.7),
          v.8,
        )
  ]

  pub create_key-Valid :
      (i : Uuid) (hash : String) → Valid (Tenants.create_key env i hash w).1.tables
  unfolding Tenants.create_key Tenants.insert_key Tenants.has_id
  create_key-Valid i hash =
      settle (Tenants.create_key env i hash) w v (λ e h. ground arith)
        λ a h.
          let after : (Tenants.create_key env i hash w).1.tables
              ≡ record w.tables { api_keys = w.tables.api_keys ++ a ∷ [] } =
            ground arith in
          subst Valid (sym after) (
            v.0,
            v.1,
            v.2,
            v.3,
            Refer-row (λ x. x.tenant_id) (λ t. t.id) w.tables.api_keys w.tables.tenants a
                (ground arith) (v.4),
            v.5,
            v.6,
            v.7,
            v.8,
          )

  pub delete_key-Valid : (i : Uuid) → Valid (Tenants.delete_key env i w).1.tables
  unfolding Tenants.delete_key
  delete_key-Valid i =
      settle (Tenants.delete_key env i) w v (λ e h. ground arith)
        λ a h.
          let after : (Tenants.delete_key env i w).1.tables
              ≡ record w.tables { api_keys = select (λ k. not (k.id == i)) w.tables.api_keys } =
            ground arith in
          subst Valid (sym after) (
            v.0,
            v.1,
            v.2,
            v.3,
            All-select _ (λ k. not (k.id == i)) w.tables.api_keys (v.4),
            v.5,
            v.6,
            v.7,
            v.8,
          )

  pub create_template-Valid :
      (i : Uuid) (name : String) (c : Channel) (subject body : String)
      → Valid (Templates.create env i name c subject body w).1.tables
  unfolding Templates.create Templates.writing Templates.insert_row
  create_template-Valid i name c subject body =
      settle (Templates.create env i name c subject body) w v (λ e h. ground arith)
        λ a h.
          let after : (Templates.create env i name c subject body w).1.tables
              ≡ record w.tables { templates = w.tables.templates ++ a ∷ [] } =
            ground arith in
          subst Valid (sym after) (
            v.0,
            v.1,
            v.2,
            v.3,
            v.4,
            v.5,
            v.6,
            Refer-row (λ x. x.tenant_id) (λ t. t.id) w.tables.templates w.tables.tenants a
                (ground arith) (v.7),
            Templated-append w.tables.templates a w.tables.notifications (v.8),
          )
