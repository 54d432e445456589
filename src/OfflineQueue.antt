-- ===== src/OfflineQueue.antt =====
-- backend/internal/offlinequeue/queue.go and backend/internal/presence/presence.go.
pub mod Flushes
use notifyx.Prelude.{
  ℕ, ◌*◌, ◌/◌, String, ◌<>◌, Bool, true, false, Option, none, some, List, [], ◌∷◌, ok, err,
}
use notifyx.Redis.Sets.{second}
use notifyx.Redis.Strings.{RedisStrings}
use notifyx.Redis.Lists.{RedisLists}
use notifyx.Postgres.{Env, World, Io, call, gets, pure, ◌>>=◌, ◌>>◌}

-- The two `ttl` constants, in seconds: 7 days and 2 minutes.
abbrev pub queue_ttl : ℕ
queue_ttl = 7 * 24 * 3600

abbrev pub presence_ttl : ℕ
presence_ttl = 2 * 60

-- offlinequeue.key
unfoldable pub offline_key : String → String → String
offline_key tenant_id user_id = "offline:" <> (tenant_id <> (":" <> user_id))

-- presence.key
unfoldable pub presence_key : String → String → String
presence_key tenant_id user_id = "presence:" <> (tenant_id <> (":" <> user_id))

module _ {R : Type 0} (env : Env) (lists : RedisLists R) where
  -- Queue.Push: the two commands go to Redis in one pipeline.
  unfoldable pub push : String → String → String → Io R (Unit {0})
  unfolding call offline_key
  push tenant_id user_id payload = do
    call env
    λ w.
        let k = offline_key tenant_id user_id in
        (ok tt, record w { redis = lists.expire k queue_ttl (lists.rpush k payload w.redis) })

  -- The DEL of Flush, and its result.
  unfoldable pub clear_queue : String → List String → Io R (List String)
  unfolding call
  clear_queue key vals = do call env; λ w. (ok vals, record w { redis = lists.del key w.redis })

  -- Queue.Flush, where other clients of Redis do `amid` between its LRANGE and its DEL.
  unfoldable pub flush_amid : Io R (Unit {0}) → String → String → Io R (List String)
  unfolding call offline_key clear_queue
  flush_amid amid tenant_id user_id = do
    call env
    vals ← gets (λ w. lists.lrange w.redis (offline_key tenant_id user_id))
    λ w. elim vals [
      | [] ↦ (ok [], w)
      | v ∷ vs ↦ clear_queue (offline_key tenant_id user_id) (v ∷ vs) (amid w).1
    ]

  unfoldable pub flush : String → String → Io R (List String)
  unfolding flush_amid
  flush tenant_id user_id = flush_amid (pure tt) tenant_id user_id

module _ {R : Type 0} (env : Env) (strings : RedisStrings R) where
  -- Tracker.SetOnline
  unfoldable pub set_online : String → String → Io R (Unit {0})
  unfolding call presence_key
  set_online tenant_id user_id = do
    call env
    λ w. (
      ok tt,
      record w { redis = strings.setex (presence_key tenant_id user_id) "1" presence_ttl w.redis },
    )

  -- Tracker.Delete
  unfoldable pub set_offline : String → String → Io R (Unit {0})
  unfolding call presence_key
  set_offline tenant_id user_id = do
    call env
    λ w. (ok tt, record w { redis = strings.del (presence_key tenant_id user_id) w.redis })
