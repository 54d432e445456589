-- ===== src/Tests/Tenants.antt =====
-- Tenants that are created, set up and deleted through the API.
use notifyx.Prelude.{
  ℕ, String, ◌≡◌, ◌≢◌, ◌⊎◌, refl, true, false, Option, none, some, List, [], ◌∷◌, ◌++◌, any, find,
  select, str_eq, ok, pos, is_positive, to_nat, if◌then◌else◌, ◌==◌, update_where,
}
use notifyx.Domain.{Uuid, email, channel_eq, Tenant}
use notifyx.Postgres.{World, with_tx}
use notifyx.Postgres.Tenants
use notifyx.Postgres.Tenants.{
  has_id, insert_key, tenant_by_hash, found, without_tenant, update_returning,
}
use notifyx.Postgres.Settings
use notifyx.Postgres.Settings.{enabled_in, of_channel, of_limit, upsert_rows, references_tenant}
use notifyx.Ratelimit.{Limiter, resolve_limits}
use notifyx.Redis.MemorySets.{MemorySets, memory_sets, empty_sets}
use notifyx.Handlers.Response.{Response, goes_on, new_tenant_body, channels_body, status_created}
use notifyx.Handlers.Requests.{is_blank, is_valid_channel}
use notifyx.Handlers.Auth.{auth}
use notifyx.Handlers.Tenants.{
  Crypto, TenantService, hash_api_key, generate_api_key, tenant_with_key, create, delete,
}
use notifyx.Handlers.Tenants.Issued.{create_all_or_none, auth-create, new_tenant, first_key}
use notifyx.Handlers.Tenants.Removed.{auth-delete}
use notifyx.Handlers.Tenants.Settings.{
  ChannelSetting, UpdateRateLimitsRequest, update_channels, upsert_channels, validate_channels,
  update_rate_limits, set_limits, set_cap, upsert_limits, validate_rate_limits, validate_limits,
}
use notifyx.Handlers.Tenants.Switches.{update_channels_all_or_none, Applied}
use notifyx.Handlers.Tenants.Caps.{resolve_limits-update_rate_limits, limited, limit_in, capped}
use notifyx.Tests.{calm, acme, tenant_tables, world_of}

abbrev toy_crypto : Crypto
toy_crypto = record { random_bytes = λ n. some "bytes"; sha256 = λ s. s; hex = λ s. s }

abbrev service : TenantService
service = record { crypto = toy_crypto; default_global_rate_cap = 300 }

abbrev start : World MemorySets
start = world_of tenant_tables empty_sets

abbrev seven : String → Option Uuid
seven s = if str_eq s "7" then some 7 else none

create_all_or_none_example :
    (((create calm service (some "beta") start).1.tables ≡ start.tables) × (◌≢◌ {A = ℕ} 201 201))
    ⊎ ((name : String) × (raw : String) × (some "beta" ≡ some name)
        × (is_blank name ≡ false)
        × (str_eq raw "" ≡ false)
        × (any (λ k. str_eq k.key_hash (hash_api_key toy_crypto raw)) start.tables.api_keys ≡ false)
        × ((create calm service (some "beta") start).1.tables ≡ record start.tables {
          tenants = start.tables.tenants ++ new_tenant calm service start name ∷ [];
          api_keys = start.tables.api_keys ++ first_key calm service start raw ∷ [];
        })
        × (◌≡◌ {A = Response}
            (record { status = 201; body = new_tenant_body 52 "beta" "nfx_bytes" })
            (record {
              status = status_created;
              body = new_tenant_body (new_tenant calm service start name).id name raw;
            })))
unfolding create generate_api_key hash_api_key tenant_with_key Tenants.create Tenants.create_key
    insert_key has_id any with_tx
create_all_or_none_example =
    create_all_or_none calm service (some "beta") start
      {r = record { status = 201; body = new_tenant_body 52 "beta" "nfx_bytes" }} refl

auth-create_example :
    (auth calm (hash_api_key toy_crypto) "nfx_bytes" (create calm service (some "beta") start).1).0
    ≡ goes_on (record (new_tenant calm service start "beta") { global_rate_cap = 0 })
unfolding create generate_api_key hash_api_key tenant_with_key Tenants.create Tenants.create_key
    insert_key has_id any with_tx
auth-create_example =
    auth-create calm service (some "beta") start {i = 52} {name = "beta"} {raw = "nfx_bytes"} refl
      refl refl

abbrev other_tenant : Tenant
other_tenant = record { id = 8; name = "other"; global_rate_cap = 5; created_at = 0 }

abbrev two_tenants : World MemorySets
two_tenants =
    world_of
      (record tenant_tables {
        tenants = acme ∷ other_tenant ∷ [];
        api_keys = (record { id = 50; tenant_id = 8; key_hash = "secret"; created_at = 1000 }) ∷ [];
      })
      empty_sets

auth-delete_example : ◌≢◌ {A = ℕ} 8 7
unfolding delete Tenants.delete without_tenant has_id any find select auth
    Tenants.get_tenant_by_key_hash tenant_by_hash found
auth-delete_example =
    auth-delete calm seven (λ s. s) "secret" "7" two_tenants {i = 7}
      {t = record other_tenant { global_rate_cap = 0 }} refl refl refl

abbrev settings : List ChannelSetting
settings =
    (record { channel = "sms"; enabled = true })
    ∷ (record { channel = "email"; enabled = false })
    ∷ []

abbrev switched_world : World MemorySets
switched_world = (update_channels calm seven "7" (some settings) start).1

update_channels_all_or_none_example :
    ((switched_world.tables ≡ start.tables) × (◌≢◌ {A = ℕ} 200 200))
    ⊎ Applied calm seven "7" settings start switched_world
unfolding update_channels validate_channels upsert_channels Tenants.get_by_id found has_id find
    Settings.upsert_channel references_tenant any Settings.channels_by_tenant_id is_valid_channel
    with_tx select channel_eq update_where
update_channels_all_or_none_example =
    update_channels_all_or_none calm seven "7" settings start
      {r = record {
        status = 200;
        body = channels_body (select (λ x. x.tenant_id == 7) switched_world.tables.tenant_channels);
      }}
      refl

abbrev caps : UpdateRateLimitsRequest
caps = record {
  global_cap = some (pos 50);
  rate_limits = (record { channel = "email"; max_per_min = pos 3 }) ∷ [];
}

abbrev limiter : Limiter MemorySets
limiter = record { sets = memory_sets; uuid_text = λ i. "7"; member = λ t i. "m"; default_max = 60 }

resolve_limits-update_rate_limits_example :
    ((resolve_limits calm limiter 7 email (update_rate_limits calm seven "7" (some caps) start).1).0
      ≡ ok (
        limited caps.rate_limits email (limit_in 60 start.tables.tenant_rate_limits 7 email),
        50,
      ))
    × ((t : Tenant) × (find (has_id 7) start.tables.tenants ≡ some t)
        × (50 ≡ capped caps.global_cap t.global_rate_cap))
unfolding update_rate_limits validate_rate_limits validate_limits set_limits set_cap upsert_limits
    Tenants.get_by_id found has_id find Tenants.update_global_rate_cap update_returning
    Settings.upsert_limit references_tenant any Settings.limits_by_tenant_id is_positive to_nat
    is_valid_channel with_tx update_where select channel_eq
resolve_limits-update_rate_limits_example =
    resolve_limits-update_rate_limits calm limiter seven "7" caps start {i = 7} {cap = 50}
      {rows = (update_rate_limits calm seven "7" (some caps) start).1.tables.tenant_rate_limits}
      email refl refl refl refl
