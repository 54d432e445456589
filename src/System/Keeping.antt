-- ===== src/System/Keeping.antt =====
-- Operations that leave every notification out of the status `delivered`, and how such operations
-- are put together.
use notifyx.Prelude.{
  ◌≡◌, sym, subst, false, some, [], ◌∷◌, arith, ok, All, All-append, All-update_where, All-select,
  Result-cases, inl, inr, Option-cases, ◌⊎◌, suc, ltb, not, select, update_where,
}
use notifyx.Domain.{Uuid, Time, Status, delivered, status_eq, Notification}
use notifyx.Postgres.{World, Env, Io, ◌>>=◌, with_tx, with_tx-tables_of_err}
use notifyx.Postgres.Notifications
use notifyx.Postgres.Notifications.{CreateNotificationParams, new_row}
use notifyx.Postgres.Writes.{create-tables_of_err, create_of_ok}
use notifyx.Handlers.Response.{Flow-cases, Handler}
use notifyx.Handlers.Response.{◌>>=◌ as ◌then◌}

abbrev pub NotDelivered : Notification → Type 0
NotDelivered n = status_eq n.status delivered ≡ false

module _ {R : Type 0} where
  -- No notification has the status `delivered`.
  abbrev pub NoneDelivered : World R → Type 0
  NoneDelivered w = All NotDelivered w.tables.notifications

  abbrev pub Keeps : {A : Type 0} → (World R → A × World R) → Type 0
  Keeps m = (w : World R) → NoneDelivered w → NoneDelivered (m w).1

  pub same-Keeps :
      {A : Type 0} (m : World R → A × World R)
      → ((w : World R) → (m w).1.tables.notifications ≡ w.tables.notifications)
      → Keeps m
  same-Keeps m e w h = subst (All NotDelivered) (sym (e w)) h

  pub bind-Keeps :
      {A B : Type 0} (m : Io R A) (f : A → Io R B)
      → Keeps m
      → ((a : A) → Keeps (f a))
      → Keeps (m >>= f)
  bind-Keeps m f k l w h = elim (Result-cases (m w).0) [
    | inl (a, e) ↦
        let step : (m >>= f) w ≡ f a (m w).1 = ground arith in
        subst (λ x. NoneDelivered x.1) (sym step) (l a (m w).1 (k w h))
    | inr (x, e) ↦
        let step : ((m >>= f) w).1 ≡ (m w).1 = ground arith in
        subst NoneDelivered (sym step) (k w h)
  ]

  pub then-Keeps :
      {A B : Type 0} (m : Handler R A) (f : A → Handler R B)
      → Keeps m
      → ((a : A) → Keeps (f a))
      → Keeps (m then f)
  then-Keeps m f k l w h = elim (Flow-cases (m w).0) [
    | inl (a, e) ↦
        let step : (m then f) w ≡ f a (m w).1 = ground arith in
        subst (λ x. NoneDelivered x.1) (sym step) (l a (m w).1 (k w h))
    | inr (inl (x, e)) ↦
        let step : ((m then f) w).1 ≡ (m w).1 = ground arith in
        subst NoneDelivered (sym step) (k w h)
    | inr (inr e) ↦
        let step : ((m then f) w).1 ≡ (m w).1 = ground arith in
        subst NoneDelivered (sym step) (k w h)
  ]

  pub update_status-Keeps :
      (env : Env) (i : Uuid) (s : Status)
      → status_eq s delivered ≡ false
      → Keeps (Notifications.update_status {R = R} env i s)
  update_status-Keeps env i s e w h = elim rows [
    | inl f ↦ subst (All NotDelivered) (sym f) h
    | inr f ↦ subst (All NotDelivered) (sym f) (
        All-update_where NotDelivered (Notifications.has_id i) (λ n. record n { status = s })
          (λ n p. e) w.tables.notifications h)
  ]
    where
      rows :
          ((Notifications.update_status env i s w).1.tables.notifications ≡ w.tables.notifications)
          ⊎ ((Notifications.update_status env i s w).1.tables.notifications
              ≡ update_where
                  (Notifications.has_id i)
                  (λ n. record n { status = s })
                  w.tables.notifications)
      rows = unfold Notifications.update_status in ground arith

  pub create-Keeps :
      (env : Env) (p : CreateNotificationParams)
      → ((s : Status) → p.status ≡ some s → status_eq s delivered ≡ false)
      → Keeps (Notifications.create {R = R} env p)
  create-Keeps env p e w h = elim (Result-cases (Notifications.create env p w).0) [
    | inr (x, f) ↦
        subst (λ t. All NotDelivered t.notifications) (sym (create-tables_of_err env w p {e = x} f))
          h
    | inl (n, f) ↦
        let made = create_of_ok env w p {n = n} f in
        subst (λ t. All NotDelivered t.notifications) (sym (made.1))
          (All-append NotDelivered w.tables.notifications (n ∷ []) h (new n (made.0), tt))
  ]
    where
      new : (n : Notification) → n ≡ new_row p (env.clock w.calls) → NotDelivered n
      new n f = elim (Option-cases p.status) [
        | inl g ↦ unfold new_row status_eq in ground arith
        | inr (s, g) ↦ unfold new_row in ground (arith, e s g)
      ]

  pub delete_expired-Keeps :
      (env : Env) (now : Time) → Keeps (Notifications.delete_expired {R = R} env now)
  delete_expired-Keeps env now w h = elim rows [
    | inl f ↦ subst (All NotDelivered) (sym f) h
    | inr f ↦
        subst (All NotDelivered) (sym f)
          (All-select NotDelivered (λ n. not (ltb n.expires_at now)) w.tables.notifications h)
  ]
    where
      rows :
          ((Notifications.delete_expired env now w).1.tables.notifications ≡ w.tables.notifications)
          ⊎ ((Notifications.delete_expired env now w).1.tables.notifications
              ≡ select (λ n. not (ltb n.expires_at now)) w.tables.notifications)
      rows = unfold Notifications.delete_expired in ground arith

  -- A transaction whose body keeps the property keeps it, rolled back or not.
  pub with_tx-Keeps : {A : Type 0} (env : Env) (m : Io R A) → Keeps m → Keeps (with_tx env m)
  with_tx-Keeps {A = A} env m k w h = elim (Result-cases (with_tx env m w).0) [
    | inr (x, f) ↦
        subst (λ t. All NotDelivered t.notifications) (sym (with_tx-tables_of_err env m w f)) h
    | inl (a, f) ↦
        subst (λ t. All NotDelivered t.notifications) (sym (committed a f))
          (k (record w { calls = suc w.calls }) h)
  ]
    where
      committed :
          (a : A)
          → (with_tx env m w).0 ≡ ok a
          → (with_tx env m w).1.tables ≡ (m (record w { calls = suc w.calls })).1.tables
      committed a f = unfold with_tx in ground arith
