-- ===== src/Prelude/Lists.antt =====
-- Lists as tables: rows are selected, updated and removed by a Boolean condition.
use Prim.Native.Nat.{ℕ, zero, suc, ◌+◌, ◌≤◌}
use mathlib.Core.Path.{◌≡◌, refl, subst}
use mathlib.Core.Bool.{◌&&◌, Bool, true, false, ◌||◌}
use mathlib.Core.Option.{Option, none, some}
use mathlib.Core.List.{List, [], ◌∷◌, ◌++◌}
use native.Mathlib.Omega.{arith}
use mathlib.Core.Logic.{inl, inr}
use notifyx.Prelude.Tests.{if◌then◌else◌, leb, Bool-cases}

module _ {ℓ} {A : Type ℓ} where
  abbrev pub length : List A → ℕ
  length [] = 0
  length (x ∷ xs) = suc (length xs)

  abbrev pub take : ℕ → List A → List A
  take zero xs = []
  take (suc n) [] = []
  take (suc n) (x ∷ xs) = x ∷ take n xs

  abbrev pub drop : ℕ → List A → List A
  drop zero xs = xs
  drop (suc n) [] = []
  drop (suc n) (x ∷ xs) = drop n xs

  -- The first row that meets the condition.
  unfoldable pub find : (A → Bool) → List A → Option A
  find p [] = none
  find p (x ∷ xs) = if p x then some x else find p xs

  unfoldable pub any : (A → Bool) → List A → Bool
  any p [] = false
  any p (x ∷ xs) = p x || any p xs

  -- The rows that meet the condition, in order.
  unfoldable pub select : (A → Bool) → List A → List A
  select p [] = []
  select p (x ∷ xs) = let rest = select p xs in if p x then x ∷ rest else rest

  -- Rewrites the rows that meet the condition.
  unfoldable pub update_where : (A → Bool) → (A → A) → List A → List A
  update_where p f [] = []
  update_where p f (x ∷ xs) = (if p x then f x else x) ∷ update_where p f xs

  pub length-append : (xs ys : List A) → length (xs ++ ys) ≡ length xs + length ys
  length-append [] ys = omega arith
  length-append (x ∷ xs) ys = omega (arith, length-append xs ys)

  pub length-take-le : (n : ℕ) (xs : List A) → length (take n xs) ≤ n
  length-take-le zero xs = omega arith
  length-take-le (suc n) [] = omega arith
  length-take-le (suc n) (x ∷ xs) = omega (arith, length-take-le n xs)

  pub length-select-le : (p : A → Bool) (xs : List A) → length (select p xs) ≤ length xs
  unfolding select
  length-select-le p [] = omega arith
  length-select-le p (x ∷ xs) = ground (arith, length-select-le p xs)

  pub select-append :
      (p : A → Bool) (xs ys : List A) → select p (xs ++ ys) ≡ select p xs ++ select p ys
  unfolding select
  select-append p [] ys = refl
  select-append p (x ∷ xs) ys = ground (arith, select-append p xs ys)

  pub any-append : (p : A → Bool) (xs ys : List A) → any p (xs ++ ys) ≡ (any p xs || any p ys)
  unfolding any
  any-append p [] ys = refl
  any-append p (x ∷ xs) ys = ground (arith, any-append p xs ys)

  -- ORDER BY key ASC, rows with equal keys in table order.
  unfoldable pub insert_by : (A → ℕ) → A → List A → List A
  insert_by key a [] = a ∷ []
  insert_by key a (x ∷ xs) =
      let rest = insert_by key a xs in if leb (key a) (key x) then a ∷ x ∷ xs else x ∷ rest

  unfoldable pub order_by : (A → ℕ) → List A → List A
  unfolding insert_by
  order_by key [] = []
  order_by key (x ∷ xs) = insert_by key x (order_by key xs)

  -- A predicate of every element.
  abbrev pub All {κ} : (A → Type κ) → List A → Type κ
  All P [] = Unit
  All P (x ∷ xs) = P x × All P xs

  pub All-map {κ} : (P Q : A → Type κ) → ((x : A) → P x → Q x) → (xs : List A) → All P xs → All Q xs
  All-map P Q f [] h = tt
  All-map P Q f (x ∷ xs) h = (f x h.0, All-map P Q f xs h.1)

  pub All-append {κ} : (P : A → Type κ) (xs ys : List A) → All P xs → All P ys → All P (xs ++ ys)
  All-append P [] ys hx hy = hy
  All-append P (x ∷ xs) ys hx hy = (hx.0, All-append P xs ys hx.1 hy)

  All-insert_by {κ} :
      (P : A → Type κ) (key : A → ℕ) (a : A) (xs : List A)
      → P a
      → All P xs
      → All P (insert_by key a xs)
  unfolding insert_by
  All-insert_by P key a [] h hx = (h, tt)
  All-insert_by P key a (x ∷ xs) h hx = elim (Bool-cases (leb (key a) (key x))) [
    | inl e ↦ rw e (h, hx)
    | inr e ↦ rw e (hx.0, All-insert_by P key a xs h hx.1)
  ]

  pub All-order_by {κ} :
      (P : A → Type κ) (key : A → ℕ) (xs : List A) → All P xs → All P (order_by key xs)
  unfolding order_by
  All-order_by P key [] h = tt
  All-order_by P key (x ∷ xs) h =
      All-insert_by P key x (order_by key xs) h.0 (All-order_by P key xs h.1)

  pub All-take {κ} : (P : A → Type κ) (n : ℕ) (xs : List A) → All P xs → All P (take n xs)
  All-take P zero xs h = tt
  All-take P (suc n) [] h = tt
  All-take P (suc n) (x ∷ xs) h = (h.0, All-take P n xs h.1)

  pub All-select {κ} :
      (P : A → Type κ) (p : A → Bool) (xs : List A) → All P xs → All P (select p xs)
  unfolding select
  All-select P p [] h = tt
  All-select P p (x ∷ xs) h = elim (Bool-cases (p x)) [
    | inl e ↦ rw e (h.0, All-select P p xs h.1)
    | inr e ↦ rw e (All-select P p xs h.1)
  ]

  -- Every selected row meets the condition.
  pub All-select_test : (p : A → Bool) (xs : List A) → All (λ x. p x ≡ true) (select p xs)
  unfolding select
  All-select_test p [] = tt
  All-select_test p (x ∷ xs) = elim (Bool-cases (p x)) [
    | inl e ↦ rw e (e, All-select_test p xs)
    | inr e ↦ rw e (All-select_test p xs)
  ]

  pub All-update_where {κ} :
      (P : A → Type κ) (p : A → Bool) (f : A → A)
      → ((x : A) → P x → P (f x))
      → (xs : List A) → All P xs
      → All P (update_where p f xs)
  unfolding update_where
  All-update_where P p f keep [] h = tt
  All-update_where P p f keep (x ∷ xs) h = elim (Bool-cases (p x)) [
    | inl e ↦ rw e (keep x h.0, All-update_where P p f keep xs h.1)
    | inr e ↦ rw e (h.0, All-update_where P p f keep xs h.1)
  ]

  pub find_test : (p : A → Bool) (xs : List A) {x : A} → find p xs ≡ some x → p x ≡ true
  unfolding find
  find_test p [] h = cc
  find_test p (y ∷ ys) {x} h = elim (Bool-cases (p y)) [
    | inl e ↦ ground arith
    | inr e ↦ find_test p ys (rw e at h)
  ]

  pub find-append :
      (p : A → Bool) (xs ys : List A) → any p xs ≡ false → find p (xs ++ ys) ≡ find p ys
  unfolding find any
  find-append p [] ys h = refl
  find-append p (x ∷ xs) ys h = ground (arith, find-append p xs ys)

  pub find-eq-none : (p : A → Bool) (xs : List A) → any p xs ≡ false → find p xs ≡ none
  unfolding find any
  find-eq-none p [] h = refl
  find-eq-none p (x ∷ xs) h = ground (arith, find-eq-none p xs)

  pub All-update_where_test {κ} :
      (P : A → Type κ) (p : A → Bool) (f : A → A)
      → ((x : A) → p x ≡ true → P (f x))
      → ((x : A) → p x ≡ false → P x)
      → (xs : List A) → All P (update_where p f xs)
  unfolding update_where
  All-update_where_test P p f hit miss [] = tt
  All-update_where_test P p f hit miss (x ∷ xs) = elim (Bool-cases (p x)) [
    | inl e ↦ rw e (hit x e, All-update_where_test P p f hit miss xs)
    | inr e ↦ rw e (miss x e, All-update_where_test P p f hit miss xs)
  ]

  pub All-any : (p : A → Bool) (xs : List A) → any p xs ≡ false → All (λ x. p x ≡ false) xs
  unfolding any
  All-any p [] h = tt
  All-any p (x ∷ xs) h = (ground arith, All-any p xs (ground arith))

  pub find-select :
      (p q : A → Bool) (xs : List A)
      → All (λ x. (p x && q x) ≡ false) xs
      → find p (select q xs) ≡ none
  unfolding find select
  find-select p q [] h = refl
  find-select p q (x ∷ xs) h = ground (arith, h.0, find-select p q xs h.1)

  -- What a search finds has the property that all rows have.
  pub find-All {κ} :
      (P : A → Type κ) (p : A → Bool) (xs : List A) {x : A} → All P xs → find p xs ≡ some x → P x
  unfolding find
  find-All P p [] a h = absurd (ground arith)
  find-All P p (y ∷ ys) {x} a h = elim (Bool-cases (p y)) [
    | inl e ↦ subst P (ground arith) (a.0)
    | inr e ↦ find-All P p ys (a.1) (rw e at h)
  ]

  -- An update of rows that are not selected, before and after it, does not show.
  pub select-update_where :
      (p q : A → Bool) (f : A → A)
      → ((x : A) → q x ≡ true → p x ≡ false)
      → ((x : A) → q x ≡ true → p (f x) ≡ false)
      → (xs : List A) → select p (update_where q f xs) ≡ select p xs
  unfolding select update_where
  select-update_where p q f h k [] = refl
  select-update_where p q f h k (x ∷ xs) =
      ground (arith, h x, k x, select-update_where p q f h k xs)

  pub select-select :
      (p q : A → Bool)
      → ((x : A) → q x ≡ false → p x ≡ false)
      → (xs : List A) → select p (select q xs) ≡ select p xs
  unfolding select
  select-select p q h [] = refl
  select-select p q h (x ∷ xs) = ground (arith, h x, select-select p q h xs)

  pub select-append_other :
      (p : A → Bool) (xs : List A) (x : A) → p x ≡ false → select p (xs ++ x ∷ []) ≡ select p xs
  unfolding select
  select-append_other p [] x h = ground arith
  select-append_other p (y ∷ ys) x h = ground (arith, select-append_other p ys x h)
