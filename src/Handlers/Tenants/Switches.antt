-- ===== src/Handlers/Tenants/Switches.antt =====
-- What UpdateChannels of backend/internal/api/handlers/tenant.go leaves behind.
use notifyx.Prelude.{
  ◌≡◌, ◌≢◌, refl, Bool, ◌&&◌, Option, some, List, [], ◌∷◌, arith, String, ◌==◌, ok, find, suc,
  if◌then◌else◌, Result-cases, Option-cases, inl, inr, ◌⊎◌,
}
use notifyx.Domain.{Uuid, Channel, to_channel, channel_eq, TenantChannel}
use notifyx.Postgres.{Env, World, with_tx, with_tx-tables_of_err, with_tx_of_ok}
use notifyx.Postgres.Settings
use notifyx.Postgres.Settings.{of_channel, enabled_in, upsert_rows, upsert_channel}
use notifyx.Postgres.Settings.Upserts.{find-upsert_setting}
use notifyx.Postgres.Tenants
use notifyx.Handlers.Response.{Response, responds}
use notifyx.Handlers.Tenants.Settings.{
  ChannelSetting, upsert_channels, update_channels, validate_channels,
}

-- Whether a channel is on after a list of settings, the last one for it counting, where it was
-- `old` before.
abbrev pub switched : List ChannelSetting → Channel → Bool → Bool
switched [] c old = old
switched (x ∷ xs) c old =
    switched xs c (if channel_eq (to_channel x.channel) c then x.enabled else old)

-- An upsert of a channel's row changes what it says of that channel and tenant only.
enabled_in-upsert_rows :
    (row : TenantChannel) (rows : List TenantChannel) (i : Uuid) (c : Channel)
    → enabled_in
        (upsert_rows
          (of_channel row.tenant_id row.channel)
          (λ x. record x { enabled = row.enabled })
          row
          rows)
        i
        c
      ≡ (if (row.tenant_id == i) && channel_eq row.channel c
          then row.enabled
          else enabled_in rows i c)
unfolding enabled_in of_channel
enabled_in-upsert_rows row rows i c = ground (
  arith,
  find-upsert_setting (λ x. x.tenant_id) (λ x. x.channel) (λ x. record x { enabled = row.enabled })
      (λ x. refl) (λ x. refl) row rows i c,
  Option-cases (find (of_channel i c) rows),
)

module _ {R : Type 0} (env : Env) where
  upsert_channel_of_ok :
      (i : Uuid) (c : Channel) (e : Bool) (w : World R) (j : Uuid) (d : Channel)
      → (upsert_channel env i c e w).0 ≡ ok tt
      → enabled_in (upsert_channel env i c e w).1.tables.tenant_channels j d
        ≡ (if (i == j) && channel_eq c d then e else enabled_in w.tables.tenant_channels j d)
  unfolding upsert_channel
  upsert_channel_of_ok i c e w j d h =
      ground (arith, enabled_in-upsert_rows row w.tables.tenant_channels j d)
    where
      row : TenantChannel
      row = record {
        id = env.fresh w.calls;
        tenant_id = i;
        channel = c;
        enabled = e;
        created_at = env.clock w.calls;
      }

  -- The loop sets every channel as the list says, for its tenant only.
  upsert_channels_of_ok :
      (i : Uuid) (cs : List ChannelSetting) (w : World R) (j : Uuid) (d : Channel)
      → (upsert_channels env i cs w).0 ≡ ok tt
      → enabled_in (upsert_channels env i cs w).1.tables.tenant_channels j d ≡ (
          if i == j
          then switched cs d (enabled_in w.tables.tenant_channels j d)
          else enabled_in w.tables.tenant_channels j d)
  unfolding upsert_channels
  upsert_channels_of_ok i [] w j d h = ground arith
  upsert_channels_of_ok i (c ∷ cs) w j d h =
      let next : World R = (upsert_channel env i (to_channel c.channel) c.enabled w).1 in
      let first : (upsert_channel env i (to_channel c.channel) c.enabled w).0 ≡ ok tt =
        ground arith in
      ground (
        arith,
        upsert_channel_of_ok i (to_channel c.channel) c.enabled w j d first,
        upsert_channels_of_ok i cs next j d,
      )

  -- That UpdateChannels put a list of settings into force: the tenant of the path is as the list says
  -- on every channel, and every other tenant is as before.
  abbrev pub Applied :
      (String → Option Uuid) → String → List ChannelSetting → World R → World R → Type 0
  Applied parse_uuid param cs w w' =
      (i : Uuid) × (parse_uuid param ≡ some i)
      × ((j : Uuid) (d : Channel)
          → enabled_in w'.tables.tenant_channels j d ≡ (
              if i == j
              then switched cs d (enabled_in w.tables.tenant_channels j d)
              else enabled_in w.tables.tenant_channels j d))

  -- UpdateChannels writes all of its list or nothing: either the tables are as before and the answer
  -- is not 200, or every channel of the tenant is as the last setting for it in the list says (as
  -- before, if there is none) and no other tenant's channels changed.
  pub update_channels_all_or_none :
      (parse_uuid : String → Option Uuid) (param : String) (cs : List ChannelSetting) (w : World R)
      {r : Response}
      → (update_channels env parse_uuid param (some cs) w).0 ≡ responds r
      → (((update_channels env parse_uuid param (some cs) w).1.tables ≡ w.tables)
          × (r.status ≢ 200))
        ⊎ Applied parse_uuid param cs w (update_channels env parse_uuid param (some cs) w).1
  unfolding update_channels
  update_channels_all_or_none parse_uuid param cs w {r} h = elim (Option-cases (parse_uuid param)) [
    | inl p ↦ inl (ground arith)
    | inr (i, p) ↦ elim (Option-cases (validate_channels cs)) [
      | inr (text, v) ↦ inl (ground arith)
      | inl v ↦ elim (Result-cases (Tenants.get_by_id env i w).0) [
        | inr (e, g) ↦ inl (unfold Tenants.get_by_id Tenants.found in ground arith)
        | inl (t, g) ↦
            let seen : World R = (Tenants.get_by_id env i w).1 in
            let same : seen.tables ≡ w.tables =
              unfold Tenants.get_by_id Tenants.found in ground arith in
            elim (Result-cases (with_tx env (upsert_channels env i cs) seen).0) [
              | inr (e, x) ↦ inl (
                  ground (arith, same, with_tx-tables_of_err env (upsert_channels env i cs) seen x))
              | inl (u, x) ↦ inr (
                i,
                p,
                λ j d.
                    let body = with_tx_of_ok env (upsert_channels env i cs) seen x in
                    let kept : (update_channels env parse_uuid param (some cs) w).1.tables
                        ≡ (upsert_channels env i cs
                            (record seen { calls = suc seen.calls })).1.tables =
                      unfold Settings.channels_by_tenant_id in ground (arith, body.1) in
                    ground (
                      arith,
                      kept,
                      same,
                      upsert_channels_of_ok i cs (record seen { calls = suc seen.calls }) j d
                          (body.0),
                    ),
              )
            ]
      ]
    ]
  ]
