-- ===== src/Ratelimit/Replayer/Replaying.antt =====
-- replayOne of backend/internal/ratelimit/replayer.go, on each of its branches.
use notifyx.Prelude.{
  suc, ◌+◌, String, ◌≢◌, any, update_where, subst, sym, All, All-map, All-any,
  All-update_where_test, ◌&&◌, ◌≡◌, Bool, true, false, none, some, List, ◌∷◌, arith, ok, inl, inr,
  Result-cases, Bool-cases,
}
use notifyx.Domain.{
  Uuid, Channel, queued, queued_rate_limited, status_eq, Notification, NotificationDelivery,
  topic_for_channel,
}
use notifyx.Postgres.{Env, World, Io}
use notifyx.Postgres.Notifications
use notifyx.Postgres.Deliveries
use notifyx.Kafka.{publish, message_for}
use notifyx.Scheduler.{first_delivery}
use notifyx.Ratelimit.Replayer.{mark_requeued, requeue, replay_one}

-- What the limiter leaves: the tables and the messages.
abbrev pub Sparing : {R : Type 0} → (Uuid → Channel → Io R Bool) → Type 0
Sparing {R} allow =
    (t : Uuid) (c : Channel) (w : World R)
    → ((allow t c w).1.tables ≡ w.tables) × ((allow t c w).1.published ≡ w.published)

abbrev Released : Uuid → Notification → Type 0
Released i x = (Notifications.has_id i x && status_eq x.status queued_rate_limited) ≡ false

-- The notifications after UpdateStatus with `queued`.
requeued_rows : Uuid → List Notification → List Notification
unfolding Notifications.has_id
requeued_rows i rows =
    update_where (Notifications.has_id i) (λ n. record n { status = queued }) rows

requeued_rows-Released :
    (i : Uuid) (rows : List Notification) → All (Released i) (requeued_rows i rows)
unfolding requeued_rows status_eq
requeued_rows-Released i rows =
    All-update_where_test (Released i) (Notifications.has_id i) (λ n. record n { status = queued })
      (λ n e. ground arith) (λ n e. ground arith) rows

missing-Released :
    (i : Uuid) (rows : List Notification)
    → any (Notifications.has_id i) rows ≡ false
    → All (Released i) rows
missing-Released i rows h =
    All-map (λ n. Notifications.has_id i n ≡ false) (Released i) (λ n e. ground arith) rows
      (All-any (Notifications.has_id i) rows h)

module _ {R : Type 0} (env : Env) (allow : Uuid → Channel → Io R Bool)
    (sparing : Sparing allow) where
  -- A notification that the limiter still denies, or could not decide, stays as it is and nothing
  -- is published.
  replay_one_denied :
      (producer : Bool) (n : Notification) (w : World R)
      → (allow n.tenant_id n.channel w).0 ≢ ok true
      → ((replay_one env allow producer n w).tables ≡ w.tables)
        × ((replay_one env allow producer n w).published ≡ w.published)
  unfolding replay_one
  replay_one_denied producer n w h = elim (Result-cases (allow n.tenant_id n.channel w).0) [
    | inl (true, f) ↦ absurd (h f)
    | inl (false, f) ↦ ground (arith, sparing n.tenant_id n.channel w)
    | inr (e, f) ↦ ground (arith, sparing n.tenant_id n.channel w)
  ]

  -- Where the publish fails, no status changes, so the notification is a candidate again.
  replay_one_unpublished :
      (n : Notification) (d : NotificationDelivery) (w w1 : World R) (text : String)
      → allow n.tenant_id n.channel w ≡ (ok true, w1)
      → first_delivery (Deliveries.get_by_notification_id env n.id w1).0 ≡ some d
      → env.fault (suc w1.calls) ≡ some text
      → ((replay_one env allow true n w).tables ≡ w.tables)
        × ((replay_one env allow true n w).published ≡ w.published)
  unfolding replay_one requeue publish Deliveries.get_by_notification_id
  replay_one_unpublished n d w w1 text a f p = ground (arith, sparing n.tenant_id n.channel w)

  -- An allowed notification whose publish succeeds is published once, and, where the update of its
  -- status does not fail either, no notification with its id is held any more.
  pub replay_one_requeues :
      (n : Notification) (d : NotificationDelivery) (w w1 : World R)
      → allow n.tenant_id n.channel w ≡ (ok true, w1)
      → first_delivery (Deliveries.get_by_notification_id env n.id w1).0 ≡ some d
      → env.fault (suc w1.calls) ≡ none
      → env.fault (2 + w1.calls) ≡ none
      → ((replay_one env allow true n w).published
          ≡ (topic_for_channel n.channel, message_for n d) ∷ w.published)
        × All
            (λ x. (Notifications.has_id n.id x && status_eq x.status queued_rate_limited) ≡ false)
            (replay_one env allow true n w).tables.notifications
  replay_one_requeues n d w w1 a f p m =
      elim (Bool-cases (any (Notifications.has_id n.id) w.tables.notifications)) [
        | inl e ↦ (
          (marked e).0,
          subst (All (Released n.id)) (sym ((marked e).1))
              (requeued_rows-Released n.id w.tables.notifications),
        )
        | inr e ↦ (
          (kept e).0,
          subst (All (Released n.id)) (sym ((kept e).1))
              (missing-Released n.id w.tables.notifications e),
        )
      ]
    where
      after : World R
      after = replay_one env allow true n w

      marked :
          any (Notifications.has_id n.id) w.tables.notifications ≡ true
          → (after.published ≡ (topic_for_channel n.channel, message_for n d) ∷ w.published)
            × (after.tables.notifications ≡ requeued_rows n.id w.tables.notifications)
      marked e =
          unfold replay_one requeue mark_requeued publish Notifications.update_status
            Deliveries.set_status Deliveries.get_by_notification_id requeued_rows in
          ground (arith, sparing n.tenant_id n.channel w)

      kept :
          any (Notifications.has_id n.id) w.tables.notifications ≡ false
          → (after.published ≡ (topic_for_channel n.channel, message_for n d) ∷ w.published)
            × (after.tables.notifications ≡ w.tables.notifications)
      kept e =
          unfold replay_one requeue mark_requeued publish Notifications.update_status
            Deliveries.set_status Deliveries.get_by_notification_id in
          ground (arith, sparing n.tenant_id n.channel w)
