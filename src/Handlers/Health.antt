-- ===== src/Handlers/Health.antt =====
-- HealthHandler of backend/internal/api/handlers/common.go.
use notifyx.Prelude.{
  ℕ, Bool, true, false, not, ◌||◌, ◌≡◌, Option, none, some, ok, err, if◌then◌else◌, arith,
  Result-cases,
}
use notifyx.Postgres.{World, Io}
use notifyx.Handlers.Response.{
  health_body, CheckResult, check_ok, check_disabled, check_configured, check_down, Response, Flow,
  responds, status_ok, status_service_unavailable, Handler, respond, goes, goes_on, ◌>>=◌,
}

-- A ping of a dependency as a check.
unfoldable pub checked : {R : Type 0} → Io R (Unit {0}) → Handler R CheckResult
checked ping w =
    let (r, w') = ping w in
    elim r [ ok u ↦ (goes_on check_ok, w') | err e ↦ (goes_on (check_down e), w') ]

unfoldable pub is_down : CheckResult → Bool
is_down (check_down e) = true
is_down _ = false

-- `if h.redis != nil`
unfoldable pub checked_redis : {R : Type 0} → Option (Io R (Unit {0})) → Handler R CheckResult
unfolding checked
checked_redis none = goes check_disabled
checked_redis (some ping) = checked ping

-- HealthHandler.Check; the pings of the database and of Redis are calls of their clients.
unfoldable pub check :
    {R : Type 0} → Io R (Unit {0}) → Option (Io R (Unit {0})) → Bool → Handler R Response
unfolding checked checked_redis is_down
check db redis kafka_configured = do
  database ← checked db
  cache ← checked_redis redis
  let healthy = not (is_down database || is_down cache) in
      respond (record {
        status = if healthy then status_ok else status_service_unavailable;
        body = health_body (record {
          healthy = healthy;
          database = database;
          redis = cache;
          kafka = if kafka_configured then check_configured else check_disabled;
        });
      })

-- Whether a ping succeeds.
abbrev pub is_up : {R : Type 0} → Io R (Unit {0}) → World R → Bool
is_up ping w = elim (ping w).0 [ ok u ↦ true | err e ↦ false ]

abbrev pub is_up_or_disabled : {R : Type 0} → Option (Io R (Unit {0})) → World R → Bool
is_up_or_disabled none w = true
is_up_or_disabled (some ping) w = is_up ping w

abbrev pub status_of : Flow Response → Option ℕ
status_of (responds r) = some r.status
status_of _ = none

-- The health check always answers: with 200 exactly when the ping of the database succeeds and, where
-- Redis is configured, that of Redis after it too, and else with 503. Kafka does not count.
check_lem :
    {R : Type 0} (db : Io R (Unit {0})) (redis : Option (Io R (Unit {0}))) (kafka : Bool)
    (w : World R)
    → status_of (check db redis kafka w).0
      ≡ some (if is_up db w then (if is_up_or_disabled redis (db w).1 then 200 else 503) else 503)
unfolding check checked checked_redis is_down
check_lem db none kafka w = ground (arith, Result-cases (db w).0)
check_lem db (some ping) kafka w =
    ground (arith, Result-cases (db w).0, Result-cases (ping (db w).1).0)
