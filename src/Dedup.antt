-- ===== src/Dedup.antt =====
-- backend/internal/dedup/dedup.go: idempotency keys, reserved in Redis.
pub mod Reservations
use notifyx.Prelude.{
  ℕ, ◌*◌, ◌/◌, String, ◌<>◌, ◌≡◌, refl, Bool, true, false, Option, none, some, Error, message, wrap,
  Result, ok, err, if◌then◌else◌, arith,
}
use notifyx.Domain.{Uuid}
use notifyx.Redis.Sets.{second}
use notifyx.Redis.Strings.{RedisStrings, is_set}
use notifyx.Postgres.{Env, World, Io, call, pure, fail, wrapping, ◌>>=◌, ◌>>◌}

-- UUID.String() and uuid.Parse of the google/uuid module, whose error text for a bad input is its own.
pub record Uuids : Type 0 where
  pub text_of : Uuid → String
  pub parse : String → Option Uuid
  pub parse_error : String → String
  pub parse-text_of : (u : Uuid) → parse (text_of u) ≡ some u

-- `digest` is the hex form of SHA-256; `ttl` is in nanoseconds.
pub record Deduplicator (R : Type 0) : Type 0 where
  pub strings : RedisStrings R
  pub uuids : Uuids
  pub digest : String → String
  pub ttl : ℕ

-- claimed=true, or the id that was claimed before.
pub data Reservation : Type 0 where
  claimed : Reservation
  existing : Uuid → Reservation

unfoldable pub redis_key : {R : Type 0} → Deduplicator R → String → String
redis_key d key = "dedup:" <> d.digest key

-- What the script returns: {1, ''} or {0, value}.
pub data Reply : Type 0 where
  one : Reply
  zero_with : Option String → Reply

-- reserveScript
unfoldable pub reserve_script : {R : Type 0} → RedisStrings R → String → String → ℕ → R → Reply × R
reserve_script strings key value seconds s =
    if is_set (strings.get s key)
    then (zero_with (strings.get s key), s)
    else (one, strings.expire key seconds (strings.setnx key value s))

unfoldable pub parsed : Uuids → String → Result Reservation
parsed u text = elim (u.parse text) [
  | none ↦ err (wrap "parse existing notification id" (message (u.parse_error text)))
  | some i ↦ ok (existing i)
]

-- The reply's value: a nil is the string "" after the failed type assertion.
unfoldable pub read_reply : Uuids → Reply → Result Reservation
unfolding parsed
read_reply u one = ok claimed
read_reply u (zero_with none) = parsed u ""
read_reply u (zero_with (some text)) = parsed u text

module _ {R : Type 0} (env : Env) (d : Deduplicator R) where
  unfoldable pub reserve : String → Uuid → Io R Reservation
  unfolding call reserve_script read_reply redis_key
  reserve key i = do
    wrapping "dedup reserve" (call env)
    λ w.
        let (reply, redis) =
          reserve_script d.strings (redis_key d key) (d.uuids.text_of i) (d.ttl / second) w.redis in
        (read_reply d.uuids reply, record w { redis = redis })

  unfoldable pub release : String → Io R (Unit {0})
  unfolding call redis_key
  release key = do
    wrapping "dedup release" (call env)
    λ w. (ok tt, record w { redis = d.strings.del (redis_key d key) w.redis })
