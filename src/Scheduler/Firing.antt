-- ===== src/Scheduler/Firing.antt =====
-- fireOne of backend/internal/scheduler/scheduler.go, on each of its branches.
use notifyx.Prelude.{
  ◌+◌, ◌&&◌, String, ◌≡◌, true, false, none, some, List, [], ◌∷◌, arith, Result, ok, any, find,
  update_where, ◌⊎◌, inl, inr, subst, sym, All, All-map, All-any, All-update_where_test,
  Result-cases, Bool-cases, Option-cases,
}
use notifyx.Domain.{
  Uuid, Time, Notification, NotificationDelivery, ScheduledNotification, topic_for_channel,
}
use notifyx.Postgres.{Env, World}
use notifyx.Postgres.Notifications
use notifyx.Postgres.Deliveries
use notifyx.Postgres.Scheduled
use notifyx.Postgres.Writes.{get_by_notification_id-All}
use notifyx.Kafka.{publish, message_for}
use notifyx.Scheduler.{first_delivery, mark_published, publish_and_mark, fire_one}

pub first_delivery-All :
    (P : NotificationDelivery → Type 0) (rows : List NotificationDelivery)
    {d : NotificationDelivery}
    → first_delivery (ok rows) ≡ some d
    → All P rows
    → P d
unfolding first_delivery
first_delivery-All P [] h a = absurd (ground arith)
first_delivery-All P (x ∷ xs) h a = subst P (ground arith) a.0

-- What MarkFired makes of the rows.
fired_rows : Uuid → List ScheduledNotification → List ScheduledNotification
unfolding Scheduled.has_id
fired_rows i rows = update_where (Scheduled.has_id i) (λ s. record s { fired = true }) rows

abbrev Settled : Uuid → Time → ScheduledNotification → Type 0
Settled i now s = (Scheduled.has_id i s && Scheduled.is_due now s) ≡ false

fired_rows-Settled :
    (i : Uuid) (now : Time) (rows : List ScheduledNotification)
    → All (Settled i now) (fired_rows i rows)
unfolding fired_rows Scheduled.is_due
fired_rows-Settled i now rows =
    All-update_where_test (Settled i now) (Scheduled.has_id i) (λ s. record s { fired = true })
      (λ s e. ground arith) (λ s e. ground arith) rows

missing-Settled :
    (i : Uuid) (now : Time) (rows : List ScheduledNotification)
    → any (Scheduled.has_id i) rows ≡ false
    → All (Settled i now) rows
missing-Settled i now rows h =
    All-map (λ s. Scheduled.has_id i s ≡ false) (Settled i now) (λ s e. ground arith) rows
      (All-any (Scheduled.has_id i) rows h)

module _ {R : Type 0} (env : Env) where
  -- Nothing is published and no table changes.
  abbrev pub Idle : World R → World R → Type 0
  Idle w w' = (w'.tables ≡ w.tables) × (w'.published ≡ w.published)

  -- One message of the row's notification is published.
  pub record Fired (sn : ScheduledNotification) (w w' : World R) : Type 0 where
    pub n : Notification
    pub d : NotificationDelivery
    pub found : find (Notifications.has_id sn.notification_id) w.tables.notifications ≡ some n
    pub delivery : d.notification_id ≡ n.id
    pub published : w'.published ≡ (topic_for_channel n.channel, message_for n d) ∷ w.published

  -- Without Kafka a due row is left as it is, so that a later tick finds it again.
  fire_one_unconfigured :
      (sn : ScheduledNotification) (w : World R) → Idle w (fire_one env false sn w)
  unfolding fire_one Notifications.get_by_id Deliveries.get_by_notification_id
  fire_one_unconfigured sn w = ground arith

  mark_published-published :
      (sn : ScheduledNotification) (n : Notification) (d : NotificationDelivery) (w : World R)
      → (mark_published env sn n d w).1.published ≡ w.published
  unfolding mark_published Notifications.update_status Deliveries.set_status Scheduled.mark_fired
  mark_published-published sn n d w = ground arith

  publish_and_mark-Fired :
      (sn : ScheduledNotification) (n : Notification) (d : NotificationDelivery) (w : World R)
      → ((publish_and_mark env sn n d w).tables ≡ w.tables)
          × ((publish_and_mark env sn n d w).published ≡ w.published)
        ⊎ ((publish_and_mark env sn n d w).published
            ≡ (topic_for_channel n.channel, message_for n d) ∷ w.published)
  unfolding publish_and_mark publish
  publish_and_mark-Fired sn n d w = ground (
    arith,
    mark_published-published sn n d
        (publish env (topic_for_channel n.channel) (message_for n d) w).1,
  )

  -- Firing a row publishes at most one message, for a notification of the row's id, to its channel's
  -- topic; where nothing is published, no table changes either.
  fire_one_publishes :
      (sn : ScheduledNotification) (w : World R)
      → Idle w (fire_one env true sn w) ⊎ Fired sn w (fire_one env true sn w)
  fire_one_publishes sn w = elim (Result-cases got.0) [
    | inr (e, f) ↦ inl (unfold fire_one Notifications.get_by_id in ground arith)
    | inl (n, f) ↦ elim (Option-cases (first_delivery (listed n).0)) [
      | inl g ↦ inl (unfold fire_one in ground (arith, got-Idle, listed-Idle n))
      | inr (d, g) ↦
          let step : fire_one env true sn w ≡ publish_and_mark env sn n d (listed n).1 =
            unfold fire_one in ground arith in
          let rows = delivery_of n d g in
          elim (publish_and_mark-Fired sn n d (listed n).1) [
            | inl idle ↦ inl (ground (arith, got-Idle, listed-Idle n))
            | inr p ↦ inr (record {
              n = n;
              d = d;
              found = unfold Notifications.get_by_id in ground arith;
              delivery = rows;
              published = ground (arith, got-Idle, listed-Idle n);
            })
          ]
    ]
  ]
    where
      got : Result Notification × World R
      got = Notifications.get_by_id env sn.notification_id w

      listed : Notification → Result (List NotificationDelivery) × World R
      listed n = Deliveries.get_by_notification_id env n.id got.1

      got-Idle : Idle w got.1
      got-Idle = unfold Notifications.get_by_id in ground arith

      listed-Idle : (n : Notification) → Idle got.1 (listed n).1
      listed-Idle n = unfold Deliveries.get_by_notification_id in ground arith

      delivery_of :
          (n : Notification) (d : NotificationDelivery)
          → first_delivery (listed n).0 ≡ some d
          → d.notification_id ≡ n.id
      delivery_of n d g = elim (Result-cases (listed n).0) [
        | inr (e, f) ↦ absurd (unfold first_delivery in ground arith)
        | inl (rows, f) ↦
            first_delivery-All (λ x. x.notification_id ≡ n.id) rows
              (subst (λ r. first_delivery r ≡ some d) f g)
              (get_by_notification_id-All env got.1 n.id f)
      ]

  -- After a firing that published and whose MarkFired did not fail, no row with that id is due, at
  -- any time.
  pub fire_one_settles :
      (sn : ScheduledNotification) (n : Notification) (d : NotificationDelivery) (now : Time)
      (w : World R)
      → (Notifications.get_by_id env sn.notification_id w).0 ≡ ok n
      → first_delivery
          (Deliveries.get_by_notification_id env n.id
            (Notifications.get_by_id env sn.notification_id w).1).0
        ≡ some d
      → env.fault (2 + w.calls) ≡ none
      → env.fault (5 + w.calls) ≡ none
      → All
          (λ s. (Scheduled.has_id sn.id s && Scheduled.is_due now s) ≡ false)
          (fire_one env true sn w).tables.scheduled
  fire_one_settles sn n d now w f g p m =
      elim (Bool-cases (any (Scheduled.has_id sn.id) w.tables.scheduled)) [
        | inl e ↦
            subst (All (Settled sn.id now)) (sym (marked e))
              (fired_rows-Settled sn.id now w.tables.scheduled)
        | inr e ↦
            subst (All (Settled sn.id now)) (sym (kept e))
              (missing-Settled sn.id now w.tables.scheduled e)
      ]
    where
      marked :
          any (Scheduled.has_id sn.id) w.tables.scheduled ≡ true
          → (fire_one env true sn w).tables.scheduled ≡ fired_rows sn.id w.tables.scheduled
      marked e =
          unfold fire_one publish_and_mark mark_published publish Notifications.get_by_id
            Notifications.update_status Deliveries.set_status Scheduled.mark_fired
            Deliveries.get_by_notification_id fired_rows in
          ground arith

      kept :
          any (Scheduled.has_id sn.id) w.tables.scheduled ≡ false
          → (fire_one env true sn w).tables.scheduled ≡ w.tables.scheduled
      kept e =
          unfold fire_one publish_and_mark mark_published publish Notifications.get_by_id
            Notifications.update_status Deliveries.set_status Scheduled.mark_fired
            Deliveries.get_by_notification_id in
          ground arith

  -- Where only MarkFired fails, the message is published and every schedule row is as before, so a
  -- later tick fires the row again.
  fire_one_repeats :
      (sn : ScheduledNotification) (n : Notification) (d : NotificationDelivery) (text : String)
      (w : World R)
      → (Notifications.get_by_id env sn.notification_id w).0 ≡ ok n
      → first_delivery
          (Deliveries.get_by_notification_id env n.id
            (Notifications.get_by_id env sn.notification_id w).1).0
        ≡ some d
      → env.fault (2 + w.calls) ≡ none
      → env.fault (5 + w.calls) ≡ some text
      → ((fire_one env true sn w).tables.scheduled ≡ w.tables.scheduled)
        × ((fire_one env true sn w).published
            ≡ (topic_for_channel n.channel, message_for n d) ∷ w.published)
  unfolding fire_one publish_and_mark mark_published publish Notifications.get_by_id
      Notifications.update_status Deliveries.set_status Scheduled.mark_fired
      Deliveries.get_by_notification_id
  fire_one_repeats sn n d text w f g p m = ground arith
