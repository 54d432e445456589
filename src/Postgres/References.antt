-- ===== src/Postgres/References.antt =====
-- The foreign keys of backend/migrations: that every row refers to a row that is there, for rows and
-- their targets in general.
pub mod Templated
pub mod Valid
pub mod Writing
pub mod Settling
pub mod Runs
use notifyx.Prelude.{
  ◌≡◌, ◌∙◌, refl, sym, subst, Bool, true, false, not, ◌&&◌, ◌||◌, List, [], ◌∷◌, ◌++◌, arith, ◌==◌,
  ==_iff, any, any-append, select, update_where, All, All-map, All-append, All-select,
  All-select_test, All-update_where, Bool-cases, inl, inr, if◌then◌else◌,
}
use notifyx.Domain.{Uuid}

module _ {A B : Type 0} (key : A → Uuid) (id : B → Uuid) where
  abbrev pub HasTarget : List B → A → Type 0
  HasTarget targets x = any (λ y. id y == key x) targets ≡ true

  -- Every row refers to a target.
  abbrev pub Refer : List A → List B → Type 0
  Refer rows targets = All (HasTarget targets) rows

  pub Refer-row :
      (rows : List A) (targets : List B) (x : A)
      → any (λ y. id y == key x) targets ≡ true
      → Refer rows targets
      → Refer (rows ++ x ∷ []) targets
  Refer-row rows targets x h r = All-append (HasTarget targets) rows (x ∷ []) r (h, tt)

  pub Refer-target :
      (rows : List A) (targets : List B) (y : B)
      → Refer rows targets
      → Refer rows (targets ++ y ∷ [])
  Refer-target rows targets y r =
      All-map (HasTarget targets) (HasTarget (targets ++ y ∷ []))
        (λ x h. ground (arith, any-append (λ z. id z == key x) targets (y ∷ []), h)) rows r

  pub Refer-update_row :
      (p : A → Bool) (f : A → A)
      → ((x : A) → key (f x) ≡ key x)
      → (rows : List A) (targets : List B) → Refer rows targets
      → Refer (update_where p f rows) targets
  Refer-update_row p f e rows targets r =
      All-update_where (HasTarget targets) p f
        (λ x h. subst (λ k. any (λ y. id y == k) targets ≡ true) (sym (e x)) h) rows r

  pub any-update_where :
      (k : Uuid) (p : B → Bool) (f : B → B)
      → ((y : B) → id (f y) ≡ id y)
      → (targets : List B)
      → any (λ y. id y == k) (update_where p f targets) ≡ any (λ y. id y == k) targets
  unfolding any update_where
  any-update_where k p f e [] = refl
  any-update_where k p f e (y ∷ ys) = ground (arith, e y, any-update_where k p f e ys)

  pub Refer-update_target :
      (p : B → Bool) (f : B → B)
      → ((y : B) → id (f y) ≡ id y)
      → (rows : List A) (targets : List B) → Refer rows targets
      → Refer rows (update_where p f targets)
  Refer-update_target p f e rows targets r =
      All-map (HasTarget targets) (HasTarget (update_where p f targets))
        (λ x h. any-update_where (key x) p f e targets ∙ h) rows r

  pub any-select-not :
      (k : Uuid) (q : B → Bool) (targets : List B)
      → any (λ y. id y == k) targets ≡ true
      → any (λ y. id y == k) (select q targets) ≡ false
      → any (λ y. id y == k) (select (λ y. not (q y)) targets) ≡ true
  unfolding any select
  any-select-not k q [] h n = h
  any-select-not k q (y ∷ ys) h n = ground (arith, any-select-not k q ys)

  -- ON DELETE CASCADE: the rows of the targets that go are taken out as well.
  pub Refer-cascade :
      (q : B → Bool) (rows : List A) (targets : List B)
      → Refer rows targets
      → Refer
          (select (λ x. not (any (λ y. id y == key x) (select q targets))) rows)
          (select (λ y. not (q y)) targets)
  Refer-cascade q rows targets r =
      let kept = select (λ x. not (any (λ y. id y == key x) (select q targets))) rows in
      both kept
        (All-select (HasTarget targets) (λ x. not (any (λ y. id y == key x) (select q targets)))
          rows r)
        (All-select_test (λ x. not (any (λ y. id y == key x) (select q targets))) rows)
    where
      both :
          (xs : List A)
          → All (HasTarget targets) xs
          → All (λ x. not (any (λ y. id y == key x) (select q targets)) ≡ true) xs
          → Refer xs (select (λ y. not (q y)) targets)
      both [] a b = tt
      both (x ∷ xs) a b =
          (any-select-not (key x) q targets (a.0) (ground (arith, b.0)), both xs (a.1) (b.1))

  any-select_other :
      (k i : Uuid) (targets : List B)
      → any (λ y. id y == k) targets ≡ true
      → not (k == i) ≡ true
      → any (λ y. id y == k) (select (λ y. not (id y == i)) targets) ≡ true
  unfolding any select
  any-select_other k i [] h n = h
  any-select_other k i (y ∷ ys) h n = ground (arith, any-select_other k i ys)

  -- The same where one target goes, and the rows with its id.
  pub Refer-without :
      (i : Uuid) (rows : List A) (targets : List B)
      → Refer rows targets
      → Refer (select (λ x. not (key x == i)) rows) (select (λ y. not (id y == i)) targets)
  Refer-without i rows targets r =
      both (select (λ x. not (key x == i)) rows)
        (All-select (HasTarget targets) (λ x. not (key x == i)) rows r)
        (All-select_test (λ x. not (key x == i)) rows)
    where
      both :
          (xs : List A)
          → All (HasTarget targets) xs
          → All (λ x. not (key x == i) ≡ true) xs
          → Refer xs (select (λ y. not (id y == i)) targets)
      both [] a b = tt
      both (x ∷ xs) a b = (any-select_other (key x) i targets (a.0) (b.0), both xs (a.1) (b.1))
