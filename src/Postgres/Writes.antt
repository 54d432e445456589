-- ===== src/Postgres/Writes.antt =====
-- What one repository call does to the world, on success and on failure.
use notifyx.Prelude.{
  List, true, subst, sym, ==_iff, ◌==◌, All, All-map, All-order_by, All-select_test, select,
  order_by, ◌≡◌, Option, none, some, [], ◌∷◌, ◌++◌, arith, Error, ok, err,
}
use notifyx.Domain.{Uuid, Channel, Status, Notification, NotificationDelivery}
use notifyx.Postgres.{Env, World}
use notifyx.Postgres.Notifications
use notifyx.Postgres.Notifications.{CreateNotificationParams, new_row, insert_row, row_violation}
use notifyx.Postgres.Deliveries

module _ {R : Type 0} (env : Env) (w : World R) where
  pub create-published :
      (p : CreateNotificationParams) → (Notifications.create env p w).1.published ≡ w.published
  unfolding Notifications.create
  create-published p = ground arith

  pub create-tables_of_err :
      (p : CreateNotificationParams) {e : Error}
      → (Notifications.create env p w).0 ≡ err e
      → (Notifications.create env p w).1.tables ≡ w.tables
  unfolding Notifications.create
  create-tables_of_err p h = ground arith

  pub create_of_ok :
      (p : CreateNotificationParams) {n : Notification}
      → (Notifications.create env p w).0 ≡ ok n
      → (n ≡ new_row p (env.clock w.calls))
        × ((Notifications.create env p w).1.tables
            ≡ record w.tables { notifications = w.tables.notifications ++ n ∷ [] })
        × (row_violation w.tables n ≡ none)
  unfolding Notifications.create
  create_of_ok p h = ground arith

  pub create_delivery-published :
      (i : Uuid) (c : Channel) (s : Option Status)
      → (Deliveries.create env i c s w).1.published ≡ w.published
  unfolding Deliveries.create
  create_delivery-published i c s = ground arith

  pub create_delivery_of_ok :
      (i : Uuid) (c : Channel) (o : Option Status) (s : Status) {d : NotificationDelivery}
      → o ≡ some s
      → (Deliveries.create env i c o w).0 ≡ ok d
      → (d ≡ record {
        id = env.fresh w.calls;
        notification_id = i;
        channel = c;
        status = s;
        attempts = 0;
        error_message = "";
        delivered_at = none;
        created_at = env.clock w.calls;
      })
        × ((Deliveries.create env i c o w).1.tables
            ≡ record w.tables { deliveries = w.tables.deliveries ++ d ∷ [] })
  unfolding Deliveries.create
  create_delivery_of_ok i c o s e h = ground arith

  -- The rows that GetByNotificationID gives are rows of the notification.
  pub get_by_notification_id-All :
      (i : Uuid) {rows : List NotificationDelivery}
      → (Deliveries.get_by_notification_id env i w).0 ≡ ok rows
      → All (λ d. d.notification_id ≡ i) rows
  unfolding Deliveries.get_by_notification_id
  get_by_notification_id-All i {rows} h =
      let e : rows ≡ listed = ground arith in
      subst (All (λ d. d.notification_id ≡ i)) (sym e) (
        All-order_by (λ d. d.notification_id ≡ i) (λ d. d.created_at) chosen
          (All-map (λ d. (d.notification_id == i) ≡ true) (λ d. d.notification_id ≡ i)
            (λ d q. (==_iff d.notification_id i).0 q) chosen
            (All-select_test (λ d. d.notification_id == i) w.tables.deliveries)))
    where
      chosen : List NotificationDelivery
      chosen = select (λ d. d.notification_id == i) w.tables.deliveries

      listed : List NotificationDelivery
      listed = order_by (λ d. d.created_at) chosen
