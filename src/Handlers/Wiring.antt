-- ===== src/Handlers/Wiring.antt =====
-- cmd/server/main.go gives the notification handler the limiter and the deduplicator behind their
-- interfaces.
use notifyx.Prelude.{arith, ◌≡◌, String}
use notifyx.Domain.{Uuid, Channel}
use notifyx.Postgres.{Env, World}
use notifyx.Postgres.Tenants
use notifyx.Postgres.Settings
use notifyx.Ratelimit
use notifyx.Ratelimit.{Limiter, resolve_limits}
use notifyx.Dedup
use notifyx.Dedup.{Deduplicator}
use notifyx.Handlers.Pipeline.{RateLimiterInterface, DedupInterface}

module _ {R : Type 0} (env : Env) (l : Limiter R) where
  -- Neither the limiter nor the deduplicator writes a table or publishes a message.
  pub allow-spares :
      (t : Uuid) (c : Channel) (w : World R)
      → ((Ratelimit.allow env l t c w).1.tables ≡ w.tables)
        × ((Ratelimit.allow env l t c w).1.published ≡ w.published)
  unfolding Ratelimit.allow resolve_limits Tenants.get_by_id Settings.get_by_channel
  allow-spares t c w = ground arith

  abbrev pub limited_by : RateLimiterInterface R
  limited_by = record {
    allow = Ratelimit.allow env l;
    allow-tables = λ t c w. (allow-spares t c w).0;
    allow-published = λ t c w. (allow-spares t c w).1;
  }

module _ {R : Type 0} (env : Env) (d : Deduplicator R) where
  pub reserve-spares :
      (k : String) (i : Uuid) (w : World R)
      → ((Dedup.reserve env d k i w).1.tables ≡ w.tables)
        × ((Dedup.reserve env d k i w).1.published ≡ w.published)
  unfolding Dedup.reserve
  reserve-spares k i w = ground arith

  pub release-spares :
      (k : String) (w : World R)
      → ((Dedup.release env d k w).1.tables ≡ w.tables)
        × ((Dedup.release env d k w).1.published ≡ w.published)
  unfolding Dedup.release
  release-spares k w = ground arith

  abbrev pub deduplicated_by : DedupInterface R
  deduplicated_by = record {
    reserve = Dedup.reserve env d;
    release = Dedup.release env d;
    reserve-tables = λ k i w. (reserve-spares k i w).0;
    reserve-published = λ k i w. (reserve-spares k i w).1;
    release-tables = λ k w. (release-spares k w).0;
    release-published = λ k w. (release-spares k w).1;
  }
