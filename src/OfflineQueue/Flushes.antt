-- ===== src/OfflineQueue/Flushes.antt =====
-- What Push and Flush of backend/internal/offlinequeue/queue.go do together.
use notifyx.Prelude.{
  ℕ, suc, String, ◌≡◌, ◌∙◌, sym, ap, none, List, [], ◌∷◌, ◌++◌, arith, ok, str_eq_refl,
}
use notifyx.Redis.Lists.{RedisLists}
use notifyx.Postgres.{Env, World}
use notifyx.OfflineQueue.{offline_key, queue_ttl, push, clear_queue, flush_amid, flush}
use mathlib.Core.List.{append_assoc, append-nil}

module _ {R : Type 0} (env : Env) (lists : RedisLists R) (tenant_id user_id : String) where
  -- What Redis has queued for the user.
  abbrev pub queued_for : World R → List String
  queued_for w = lists.lrange w.redis (offline_key tenant_id user_id)

  abbrev pub push_all : List String → World R → World R
  push_all [] w = w
  push_all (p ∷ ps) w = push_all ps (push env lists tenant_id user_id p w).1

  queued_for-push :
      (p : String) (w : World R)
      → env.fault w.calls ≡ none
      → queued_for (push env lists tenant_id user_id p w).1 ≡ queued_for w ++ p ∷ []
  unfolding push
  queued_for-push p w f = ground (
    arith,
    lists.lrange-expire (lists.rpush (offline_key tenant_id user_id) p w.redis)
        (offline_key tenant_id user_id) queue_ttl (offline_key tenant_id user_id) (omega arith),
    lists.lrange-rpush w.redis (offline_key tenant_id user_id) p (offline_key tenant_id user_id),
    str_eq_refl (offline_key tenant_id user_id),
  )

  queued_for-push_all :
      (ps : List String) (w : World R)
      → ((n : ℕ) → env.fault n ≡ none)
      → queued_for (push_all ps w) ≡ queued_for w ++ ps
  queued_for-push_all [] w f = sym (append-nil (queued_for w))
  queued_for-push_all (p ∷ ps) w f =
      queued_for-push_all ps (push env lists tenant_id user_id p w).1 f
      ∙ ap (λ xs. xs ++ ps) (queued_for-push p w (f w.calls))
      ∙ append_assoc (queued_for w) (p ∷ []) ps

  -- What a flush that nothing disturbs gives, and leaves.
  pub flush_lem :
      (w : World R)
      → ((n : ℕ) → env.fault n ≡ none)
      → ((flush env lists tenant_id user_id w).0 ≡ ok (queued_for w))
        × (queued_for (flush env lists tenant_id user_id w).1 ≡ [])
  unfolding flush flush_amid clear_queue
  flush_lem w f = ground (
    arith,
    f w.calls,
    f (suc w.calls),
    lists.lrange-del w.redis (offline_key tenant_id user_id) (offline_key tenant_id user_id),
    str_eq_refl (offline_key tenant_id user_id),
  )

  -- What was pushed comes out of the next flush, once: where no command fails and no other client
  -- comes in between, Flush gives what was queued before followed by the payloads in the order of
  -- their pushes, and leaves an empty queue.
  pub flush-push_all :
      (ps : List String) (w : World R)
      → ((n : ℕ) → env.fault n ≡ none)
      → ((flush env lists tenant_id user_id (push_all ps w)).0 ≡ ok (queued_for w ++ ps))
        × (queued_for (flush env lists tenant_id user_id (push_all ps w)).1 ≡ [])
  flush-push_all ps w f =
      let all = flush_lem (push_all ps w) f in (all.0 ∙ ap ok (queued_for-push_all ps w f), all.1)

  -- A payload that is pushed between the two commands of a Flush of a queue that is not empty is
  -- lost: Flush does not give it, and it is not in the queue afterwards.
  pub flush_amid-push :
      (p v : String) (vs : List String) (w : World R)
      → ((n : ℕ) → env.fault n ≡ none)
      → queued_for w ≡ v ∷ vs
      → ((flush_amid env lists (push env lists tenant_id user_id p) tenant_id user_id w).0
          ≡ ok (v ∷ vs))
        × (queued_for
              (flush_amid env lists (push env lists tenant_id user_id p) tenant_id user_id w).1
            ≡ [])
  unfolding flush_amid clear_queue
  flush_amid-push p v vs w f e =
      let seen : World R = record w { calls = suc w.calls } in
      let other : World R = (push env lists tenant_id user_id p seen).1 in
      ground (
        arith,
        e,
        f w.calls,
        f other.calls,
        lists.lrange-del other.redis (offline_key tenant_id user_id)
            (offline_key tenant_id user_id),
        str_eq_refl (offline_key tenant_id user_id),
      )
