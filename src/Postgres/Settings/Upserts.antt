-- ===== src/Postgres/Settings/Upserts.antt =====
-- What a row of a setting is after an upsert of
-- backend/internal/repository/postgres/tenant_channel_repo.go and tenant_rate_limit_repo.go.
use notifyx.Prelude.{
  ◌≡◌, ◌≢◌, refl, Bool, true, false, Option, none, some, List, [], ◌∷◌, ◌++◌, arith, find, any,
  update_where, find-append, find-eq-none, Bool-cases, inl, inr, ◌==◌, ◌&&◌, if◌then◌else◌,
}
use notifyx.Domain.{Uuid, Channel, channel_eq, channel_eq_iff, channel_eq_refl}
use notifyx.Postgres.Settings.{upsert_rows}

module _ {A : Type 0} where
  abbrev pub changed : (A → A) → Option A → Option A
  changed f none = none
  changed f (some x) = some (f x)

  pub find-update_where :
      (p : A → Bool) (f : A → A)
      → ((x : A) → p (f x) ≡ p x)
      → (xs : List A) → find p (update_where p f xs) ≡ changed f (find p xs)
  unfolding find update_where
  find-update_where p f h [] = refl
  find-update_where p f h (x ∷ xs) = ground (arith, h x, find-update_where p f h xs)

  find-update_where_other :
      (p q : A → Bool) (f : A → A)
      → ((x : A) → q (f x) ≡ q x)
      → (xs : List A) → ((x : A) → p x ≡ true → q x ≡ false)
      → find q (update_where p f xs) ≡ find q xs
  unfolding find update_where
  find-update_where_other p q f h [] d = refl
  find-update_where_other p q f h (x ∷ xs) d =
      ground (arith, h x, d x, find-update_where_other p q f h xs d)

  find-append_other :
      (q : A → Bool) (row : A) → q row ≡ false → (xs : List A) → find q (xs ++ row ∷ []) ≡ find q xs
  unfolding find
  find-append_other q row h [] = ground arith
  find-append_other q row h (x ∷ xs) = ground (arith, find-append_other q row h xs)

  -- The row that an upsert writes: the old one rewritten, or the new one.
  abbrev pub upserted : (A → A) → A → Option A → A
  upserted f row none = row
  upserted f row (some x) = f x

  find_of_any : (p : A → Bool) (xs : List A) → any p xs ≡ true → find p xs ≢ none
  unfolding find any
  find_of_any p [] h e = ground arith
  find_of_any p (x ∷ xs) h e = ground (arith, find_of_any p xs)

  find-singleton : (p : A → Bool) (row : A) → p row ≡ true → find p (row ∷ []) ≡ some row
  unfolding find
  find-singleton p row h = ground arith

  pub find-upsert_rows :
      (p : A → Bool) (f : A → A) (row : A) (rows : List A)
      → ((x : A) → p (f x) ≡ p x)
      → p row ≡ true
      → find p (upsert_rows p f row rows) ≡ some (upserted f row (find p rows))
  unfolding upsert_rows
  find-upsert_rows p f row rows h e = elim (Bool-cases (any p rows)) [
    | inl a ↦ ground (arith, find-update_where p f h rows, find_of_any p rows a)
    | inr a ↦
        ground
          (arith, find-append p rows (row ∷ []) a, find-eq-none p rows a, find-singleton p row e)
  ]

  pub find-upsert_rows_other :
      (p q : A → Bool) (f : A → A) (row : A) (rows : List A)
      → ((x : A) → q (f x) ≡ q x)
      → ((x : A) → p x ≡ true → q x ≡ false)
      → q row ≡ false
      → find q (upsert_rows p f row rows) ≡ find q rows
  unfolding upsert_rows
  find-upsert_rows_other p q f row rows h d e =
      ground (arith, find-update_where_other p q f h rows d, find-append_other q row e rows)

-- The rows of a table with the columns tenant_id and channel.
module _ {A : Type 0} (tenant_of : A → Uuid) (channel_of : A → Channel) where
  abbrev pub of_setting : Uuid → Channel → A → Bool
  of_setting i c x = (tenant_of x == i) && channel_eq (channel_of x) c

  apart :
      (row x : A) (i : Uuid) (c : Channel)
      → of_setting i c row ≡ false
      → of_setting (tenant_of row) (channel_of row) x ≡ true
      → of_setting i c x ≡ false
  apart row x i c e h = ground (
    arith,
    channel_eq_iff (channel_of x) (channel_of row),
    channel_eq_iff (channel_of x) c,
    channel_eq_iff (channel_of row) c,
  )

  -- An upsert writes the row of its own tenant and channel, and no other tenant's or channel's.
  pub find-upsert_setting :
      (f : A → A)
      → ((x : A) → tenant_of (f x) ≡ tenant_of x)
      → ((x : A) → channel_of (f x) ≡ channel_of x)
      → (row : A) (rows : List A) (i : Uuid) (c : Channel)
      → find (of_setting i c) (upsert_rows (of_setting (tenant_of row) (channel_of row)) f row rows)
        ≡ (if of_setting i c row
            then some (upserted f row (find (of_setting i c) rows))
            else find (of_setting i c) rows)
  find-upsert_setting f ht hc row rows i c = elim (Bool-cases (of_setting i c row)) [
    | inl e ↦ ground (arith, channel_eq_iff (channel_of row) c, own)
    | inr e ↦ ground (
      arith,
      find-upsert_rows_other (of_setting (tenant_of row) (channel_of row)) (of_setting i c) f row
          rows (λ x. ground (arith, ht x, hc x)) (λ x. apart row x i c e) e,
    )
  ]
    where
      own :
          find
            (of_setting (tenant_of row) (channel_of row))
            (upsert_rows (of_setting (tenant_of row) (channel_of row)) f row rows)
          ≡ some (upserted f row (find (of_setting (tenant_of row) (channel_of row)) rows))
      own =
          find-upsert_rows (of_setting (tenant_of row) (channel_of row)) f row rows
            (λ x. ground (arith, ht x, hc x)) (ground (arith, channel_eq_refl (channel_of row)))
