-- ===== src/Handlers/Pipeline/Reserved.antt =====
-- processSend of backend/internal/api/handlers/notification.go and the deduplicator's key in Redis:
-- only the deduplicator and the rate limiter use Redis.
use notifyx.Prelude.{
  suc, String, ◌≡◌, subst, refl, Bool, false, true, none, some, Option, arith, Option-cases,
  Result-cases, inl, inr,
}
use notifyx.Domain.{
  Uuid, Channel, Status, pending, queued_rate_limited, Notification, NotificationDelivery,
}
use notifyx.Dedup.{Deduplicator, redis_key}
use notifyx.Kafka.{publish}
use notifyx.Postgres.{Env, World, with_tx, call, end_tx}
use notifyx.Postgres.Notifications
use notifyx.Postgres.Notifications.{CreateNotificationParams, has_id, new_row}
use notifyx.Postgres.Deliveries
use notifyx.Handlers.Pipeline.{
  NotificationService, RateLimiterInterface, sent, create_and_queue, queue_body, publish_if,
  finish_send, limit_and_finish,
}

module _ {R : Type 0} (env : Env) (svc : NotificationService R) where
  -- Persisting and publishing leave Redis as it is.
  publish_if-redis :
      (b : Bool) (p : CreateNotificationParams) (n : Notification) (x : NotificationDelivery)
      (w : World R)
      → (publish_if env svc b p n x w).1.redis ≡ w.redis
  unfolding publish_if publish
  publish_if-redis false p n x w = refl
  publish_if-redis true p n x w = ground arith

  create-redis :
      (p : CreateNotificationParams) (w : World R)
      → (Notifications.create env p w).1.redis ≡ w.redis
  unfolding Notifications.create Notifications.insert_row
  create-redis p w = ground arith

  create_delivery-redis :
      (i : Uuid) (c : Channel) (s : Option Status) (w : World R)
      → (Deliveries.create env i c s w).1.redis ≡ w.redis
  unfolding Deliveries.create Deliveries.insert_row
  create_delivery-redis i c s w = ground arith

  queue_body-redis :
      (p : CreateNotificationParams) (b : Bool) (w : World R)
      → (queue_body env svc p b w).1.redis ≡ w.redis
  unfolding queue_body
  queue_body-redis p b w =
      let made = Notifications.create env p w in
      elim (Result-cases made.0) [
        | inr (e, h) ↦ ground (arith, create-redis p w, h)
        | inl (n, h) ↦
            let row = Deliveries.create env n.id p.channel p.status made.1 in
            elim (Result-cases row.0) [
              | inr (e, k) ↦ ground (
                arith,
                create-redis p w,
                h,
                k,
                create_delivery-redis n.id p.channel p.status made.1,
              )
              | inl (d, k) ↦ ground (
                arith,
                create-redis p w,
                h,
                k,
                create_delivery-redis n.id p.channel p.status made.1,
                publish_if-redis b p n d row.1,
              )
            ]
      ]

  create_and_queue-redis :
      (p : CreateNotificationParams) (b : Bool) (w : World R)
      → (create_and_queue env svc p b w).1.redis ≡ w.redis
  unfolding create_and_queue with_tx call end_tx
  create_and_queue-redis p b w =
      ground (arith, queue_body-redis p b (record w { calls = suc w.calls }))

  finish_send-redis :
      (key : String) (p : CreateNotificationParams) (b : Bool) (w : World R) {i : Uuid} {s : Status}
      → (finish_send env svc key p b w).0 ≡ sent i s false
      → (finish_send env svc key p b w).1.redis ≡ w.redis
  unfolding finish_send
  finish_send-redis key p b w h =
      ground (arith, create_and_queue-redis (record p { idempotency_key = key }) b w)

module _ {R : Type 0} (d : Deduplicator R) where
  -- The rate limiter's commands leave the key of the deduplicator as it is.
  abbrev pub Spares : Option (RateLimiterInterface R) → String → Type 0
  Spares none key = Unit
  Spares (some l) key =
      (t : Uuid) (c : Channel) (w : World R)
      → d.strings.get (l.allow t c w).1.redis (redis_key d key)
        ≡ d.strings.get w.redis (redis_key d key)

module _ {R : Type 0} (env : Env) (svc : NotificationService R) (d : Deduplicator R) where
  pub limit_and_finish-get :
      (key : String) (p : CreateNotificationParams) (w : World R) {i : Uuid} {s : Status}
      → Spares d svc.rate_limiter key
      → (limit_and_finish env svc key p w).0 ≡ sent i s false
      → d.strings.get (limit_and_finish env svc key p w).1.redis (redis_key d key)
        ≡ d.strings.get w.redis (redis_key d key)
  unfolding limit_and_finish
  limit_and_finish-get key p w {i} {s} spares h = elim (Option-cases svc.rate_limiter) [
    | inl e ↦
        let kept =
          finish_send-redis env svc key (record p { status = some pending }) true w {i = i}
            {s = s} in
        ground (arith, e, h, kept)
    | inr (l, e) ↦
        let asked = (l.allow p.tenant_id p.channel w).1 in
        let same : d.strings.get asked.redis (redis_key d key)
            ≡ d.strings.get w.redis (redis_key d key) =
          subst (λ o. Spares d o key) e spares p.tenant_id p.channel w in
        elim (Result-cases (l.allow p.tenant_id p.channel w).0) [
          | inr (x, f) ↦ absurd (ground (arith, e, f, h))
          | inl (true, f) ↦
              let kept =
                finish_send-redis env svc key (record p { status = some pending }) true asked
                  {i = i} {s = s} in
              ground (arith, e, f, h, kept, same)
          | inl (false, f) ↦
              let kept =
                finish_send-redis env svc key (record p { status = some queued_rate_limited }) false
                  asked {i = i} {s = s} in
              ground (arith, e, f, h, kept, same)
        ]
  ]
