-- ===== src/Ratelimit.antt =====
-- backend/internal/ratelimit/limiter.go: the script that checks and records a request, and the
-- limiter that runs it with the tenant's limits. `now - window` is negative before `window`.
-- The script's numbers are exact here; Lua rounds nanoseconds to its 53 bits.
pub mod Window
pub mod Runs
pub mod Limits
pub mod Replayer
use notifyx.Prelude.{
  ℕ, suc, ◌+◌, ◌-◌, ◌*◌, ◌/◌, String, ◌<>◌, ◌≡◌, Bool, true, false, ◌||◌, Option, none, some, Error,
  wrap, Result, ok, err, leb, if◌then◌else◌,
}
use notifyx.Domain.{Uuid, Time, Channel, channel_text, TenantRateLimit}
use notifyx.Redis.Sets.{RedisSets, second}
use notifyx.Postgres.{Env, World, Io, call, pure, fail, gets, wrapping, ◌>>=◌, ◌>>◌}
use notifyx.Postgres.Tenants
use notifyx.Postgres.Settings

abbrev pub window_size : ℕ
window_size = 60 * second

abbrev pub minus : ℕ → ℕ → Option ℕ
minus now window = if leb window now then some (now - window) else none

module _ {R : Type 0} (sets : RedisSets R) where
  open sets use {zcount, zremrangebyscore, zadd, expire}

  -- slidingWindowScript; `true` is its 1.
  unfoldable pub script : String → String → ℕ → ℕ → ℕ → ℕ → String → R → Bool × R
  script channel_key global_key now window channel_max global_max member s =
      let s1 = zremrangebyscore channel_key (minus now window) s in
      let s2 = zremrangebyscore global_key (minus now window) s1 in
      if leb channel_max (zcount s2 channel_key 0) || leb global_max (zcount s2 global_key 0)
      then (false, s2)
      else let window_sec = window / second + 1 in
        let s3 = zadd global_key now member (zadd channel_key now member s2) in
        (true, expire global_key window_sec (expire channel_key window_sec s3))

-- The ids and the texts that libraries make: UUID.String(), and the member of a request, which is
-- made of the time and a new random UUID.
pub record Limiter (R : Type 0) : Type 0 where
  pub sets : RedisSets R
  pub uuid_text : Uuid → String
  pub member : Time → Uuid → String
  pub default_max : ℕ

unfoldable pub channel_key : (Uuid → String) → Uuid → Channel → String
channel_key uuid_text t c = "rate:{" <> (uuid_text t <> ("}:" <> channel_text c))

unfoldable pub global_key : (Uuid → String) → Uuid → String
global_key uuid_text t = "rate:{" <> (uuid_text t <> ("}:" <> "global"))

unfoldable pub or_default : {R : Type 0} → Limiter R → Option TenantRateLimit → ℕ
or_default l none = l.default_max
or_default l (some rl) = rl.max_per_min

module _ {R : Type 0} (env : Env) (l : Limiter R) where
  -- The limit of the channel and the tenant's global cap.
  unfoldable pub resolve_limits : Uuid → Channel → Io R (ℕ × ℕ)
  unfolding or_default
  resolve_limits tenant_id channel = do
    tenant ← wrapping "resolve tenant" (Tenants.get_by_id env tenant_id)
    rl ← wrapping "resolve rate limit config" (Settings.get_by_channel env tenant_id channel)
    pure (or_default l rl, tenant.global_rate_cap)

  unfoldable pub allow : Uuid → Channel → Io R Bool
  unfolding resolve_limits call script
  allow tenant_id channel = do
    limits ← resolve_limits tenant_id channel
    n ← gets (λ w. w.calls)
    wrapping "rate limit check" (call env)
    λ w.
        let (verdict, redis) =
          script l.sets (channel_key l.uuid_text tenant_id channel)
            (global_key l.uuid_text tenant_id) (env.clock n) window_size limits.0 limits.1
            (l.member (env.clock n) (env.fresh n)) w.redis in
        (ok verdict, record w { redis = redis })
