-- ===== src/Postgres/Reports/Totals.antt =====
-- How the reports of backend/internal/repository/postgres/analytics_repo.go agree with each other
-- and with the rows they count.
use notifyx.Prelude.{
  ℕ, zero, suc, ◌+◌, ◌-◌, ◌≡◌, ◌∙◌, ap, refl, sym, Bool, true, false, ◌&&◌, List, [], ◌∷◌, map,
  arith, ◌==◌, leb, length, select, All, All-map, All-select_test, ltb,
}
use notifyx.Domain.{
  Uuid, Time, delivered, failed, status_eq, Notification, ChannelBreakdown, DlqMessage,
}
use notifyx.Postgres.{Tables}
use notifyx.Postgres.Reports.{
  count_where, in_period, summary_of, counted_in, one_if, add_to_groups, groups_of, with_rate,
  breakdown_of, day_of, dlq_in_period, days_from, trend_of,
}

-- The sum of a number of each row.
abbrev pub sum_by {ℓ} : {A : Type ℓ} → (A → ℕ) → List A → ℕ
sum_by f [] = 0
sum_by f (x ∷ xs) = f x + sum_by f xs

sum_by-add_to_groups :
    (n : Notification) (bs : List ChannelBreakdown)
    → (sum_by (λ b. b.sent) (add_to_groups n bs) ≡ suc (sum_by (λ b. b.sent) bs))
      × (sum_by (λ b. b.delivered) (add_to_groups n bs)
          ≡ sum_by (λ b. b.delivered) bs + one_if (status_eq n.status delivered))
      × (sum_by (λ b. b.failed) (add_to_groups n bs)
          ≡ sum_by (λ b. b.failed) bs + one_if (status_eq n.status failed))
unfolding add_to_groups counted_in
sum_by-add_to_groups n [] = ground arith
sum_by-add_to_groups n (b ∷ bs) = ground (arith, sum_by-add_to_groups n bs)

sum_by-groups_of :
    (ns : List Notification)
    → (sum_by (λ b. b.sent) (groups_of ns) ≡ length ns)
      × (sum_by (λ b. b.delivered) (groups_of ns)
          ≡ count_where (λ n. status_eq n.status delivered) ns)
      × (sum_by (λ b. b.failed) (groups_of ns) ≡ count_where (λ n. status_eq n.status failed) ns)
unfolding groups_of count_where
sum_by-groups_of [] = ground arith
sum_by-groups_of (n ∷ ns) =
    ground (arith, sum_by-groups_of ns, sum_by-add_to_groups n (groups_of ns))

sum_by-map {ℓ} :
    {A : Type ℓ} (f : A → ℕ) (g : A → A)
    → ((x : A) → f (g x) ≡ f x)
    → (xs : List A) → sum_by f (map g xs) ≡ sum_by f xs
sum_by-map f g h [] = ground arith
sum_by-map f g h (x ∷ xs) = ground (arith, h x, sum_by-map f g h xs)

-- The breakdown by channel adds up to the summary of the same tenant and period: the notifications
-- sent, those delivered and those failed.
pub breakdown_adds_up :
    (rows : List Notification) (tenant_id : Uuid) (from to : Time)
    → (sum_by (λ b. b.sent) (breakdown_of rows tenant_id from to)
        ≡ (summary_of rows tenant_id from to).total_sent)
      × (sum_by (λ b. b.delivered) (breakdown_of rows tenant_id from to)
          ≡ (summary_of rows tenant_id from to).total_delivered)
      × (sum_by (λ b. b.failed) (breakdown_of rows tenant_id from to)
          ≡ (summary_of rows tenant_id from to).total_failed)
unfolding breakdown_of summary_of
breakdown_adds_up rows tenant_id from to =
    let chosen = select (in_period tenant_id from to) rows in
    let total = sum_by-groups_of chosen in
    let gs = groups_of chosen in
    (
      sum_by-map (λ b. b.sent) with_rate (λ b. ground arith) gs ∙ total.0,
      sum_by-map (λ b. b.delivered) with_rate (λ b. ground arith) gs ∙ total.1,
      sum_by-map (λ b. b.failed) with_rate (λ b. ground arith) gs ∙ total.2,
    )

module _ {A : Type 0} where
  count_where-none : (p : A → Bool) → ((x : A) → p x ≡ false) → (xs : List A) → count_where p xs ≡ 0
  unfolding count_where
  count_where-none p h [] = refl
  count_where-none p h (x ∷ xs) = ground (arith, h x, count_where-none p h xs)

  count_where-add :
      (p q r : A → Bool)
      → ((x : A) → one_if (p x) + one_if (q x) ≡ one_if (r x))
      → (xs : List A) → count_where p xs + count_where q xs ≡ count_where r xs
  unfolding count_where
  count_where-add p q r h [] = refl
  count_where-add p q r h (x ∷ xs) = ground (arith, h x, count_where-add p q r h xs)

  count_where-All :
      (p : A → Bool) (xs : List A) → All (λ x. p x ≡ true) xs → count_where p xs ≡ length xs
  unfolding count_where
  count_where-All p [] h = refl
  count_where-All p (x ∷ xs) h = ground (arith, h.0, count_where-All p xs h.1)

-- The days of the series count the rows from its first day on, up to its last.
sum_by-days_from :
    (more day : ℕ) (ds : List DlqMessage)
    → sum_by (λ p. p.count) (days_from more day ds)
      ≡ count_where
          (λ d. leb day (day_of d.created_at) && ltb (day_of d.created_at) (day + more))
          ds
unfolding days_from
sum_by-days_from zero day ds = sym (
    count_where-none (λ d. leb day (day_of d.created_at) && ltb (day_of d.created_at) (day + 0))
      (λ d. ground arith) ds)
sum_by-days_from (suc more) day ds =
    ap (λ k. count_where (λ d. day_of d.created_at == day) ds + k)
      (sum_by-days_from more (suc day) ds)
    ∙ count_where-add (λ d. day_of d.created_at == day)
        (λ d. leb (suc day) (day_of d.created_at) && ltb (day_of d.created_at) (suc day + more))
        (λ d. leb day (day_of d.created_at) && ltb (day_of d.created_at) (day + suc more))
        (λ d. ground arith) ds

-- The trend has a point for each day of the period, and its counts add up to the number of DLQ rows
-- of the tenant's notifications in the period.
pub trend_adds_up :
    (t : Tables) (tenant_id : Uuid) (from to : Time)
    → (length (trend_of t tenant_id from to) ≡ suc (day_of to) - day_of from)
      × (sum_by (λ p. p.count) (trend_of t tenant_id from to)
          ≡ length (select (dlq_in_period t.notifications tenant_id from to) t.dlq_messages))
unfolding trend_of
trend_adds_up t tenant_id from to = (
  length-days_from (suc (day_of to) - day_of from) (day_of from) chosen,
  sum_by-days_from (suc (day_of to) - day_of from) (day_of from) chosen
      ∙ count_where-All
          (λ d.
            leb (day_of from) (day_of d.created_at)
            && ltb (day_of d.created_at) (day_of from + (suc (day_of to) - day_of from)))
          chosen
          (All-map (λ d. dlq_in_period t.notifications tenant_id from to d ≡ true)
            (λ d.
              (leb (day_of from) (day_of d.created_at)
                && ltb (day_of d.created_at) (day_of from + (suc (day_of to) - day_of from)))
              ≡ true)
            (λ d h. unfold day_of dlq_in_period in ground arith) chosen
            (All-select_test (dlq_in_period t.notifications tenant_id from to) t.dlq_messages)),
)
  where
    chosen : List DlqMessage
    chosen = select (dlq_in_period t.notifications tenant_id from to) t.dlq_messages

    length-days_from : (more day : ℕ) (ds : List DlqMessage) → length (days_from more day ds) ≡ more
    length-days_from zero day ds = unfold days_from in refl
    length-days_from (suc more) day ds =
        unfold days_from in ground (arith, length-days_from more (suc day) ds)
