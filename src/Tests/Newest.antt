-- ===== src/Tests/Newest.antt =====
-- An order of the rows of a query, the newest first: insertion.
use notifyx.Prelude.{
  leb, ◌≤◌, refl, true, Bool-cases, inl, inr, List, [], ◌∷◌, All, All-map, arith, if◌then◌else◌,
}
use mathlib.Core.List.{Permᴰ}
use mathlib.Core.List.Permᴰ
use notifyx.Domain.{Notification}
use notifyx.Postgres.Pages.{Querying}
use notifyx.Postgres.Pages.Newest.{NewestFirst, Orders}

unfoldable pub insert_newest : Notification → List Notification → List Notification
insert_newest n [] = n ∷ []
insert_newest n (m ∷ ms) =
    let rest = insert_newest n ms in if leb m.created_at n.created_at then n ∷ m ∷ ms else m ∷ rest

unfoldable pub newest : List Notification → List Notification
unfolding insert_newest
newest [] = []
newest (n ∷ ns) = insert_newest n (newest ns)

insert_newest-Perm :
    (n : Notification) (ns : List Notification) → Permᴰ (n ∷ ns) (insert_newest n ns)
unfolding insert_newest
insert_newest-Perm n [] = Permᴰ.refl (n ∷ [])
insert_newest-Perm n (m ∷ ms) = elim (Bool-cases (leb m.created_at n.created_at)) [
  | inl e ↦ rw e (Permᴰ.refl (n ∷ m ∷ ms))
  | inr e ↦ rw e (Permᴰ.trans (Permᴰ.swap refl refl) (Permᴰ.cons refl (insert_newest-Perm n ms)))
]

newest-Perm : (ns : List Notification) → Permᴰ ns (newest ns)
unfolding newest
newest-Perm [] = Permᴰ.nil
newest-Perm (n ∷ ns) =
    Permᴰ.trans (Permᴰ.cons refl (newest-Perm ns)) (insert_newest-Perm n (newest ns))

All-insert_newest :
    (P : Notification → Type 0) (n : Notification) (ns : List Notification)
    → P n
    → All P ns
    → All P (insert_newest n ns)
unfolding insert_newest
All-insert_newest P n [] h k = (h, tt)
All-insert_newest P n (m ∷ ms) h k = elim (Bool-cases (leb m.created_at n.created_at)) [
  | inl e ↦ rw e (h, k)
  | inr e ↦ rw e (k.0, All-insert_newest P n ms h (k.1))
]

insert_newest-NewestFirst :
    (n : Notification) (ns : List Notification) → NewestFirst ns → NewestFirst (insert_newest n ns)
unfolding insert_newest
insert_newest-NewestFirst n [] h = (tt, tt)
insert_newest-NewestFirst n (m ∷ ms) h = elim (Bool-cases (leb m.created_at n.created_at)) [
  | inl e ↦
      let first : m.created_at ≤ n.created_at = ground (arith, e) in
      rw e (
        (
          first,
          All-map (λ k. k.created_at ≤ m.created_at) (λ k. k.created_at ≤ n.created_at)
              (λ k l. omega (arith, l, first)) ms (h.0),
        ),
        h,
      )
  | inr e ↦
      let after : n.created_at ≤ m.created_at = ground (arith, e) in
      rw e (
        All-insert_newest (λ k. k.created_at ≤ m.created_at) n ms after (h.0),
        insert_newest-NewestFirst n ms (h.1),
      )
]

newest-NewestFirst : (ns : List Notification) → NewestFirst (newest ns)
unfolding newest
newest-NewestFirst [] = tt
newest-NewestFirst (n ∷ ns) = insert_newest-NewestFirst n (newest ns) (newest-NewestFirst ns)

abbrev pub by_insertion : Querying
by_insertion = record { ilike = λ x y. true; arrange = λ c ns. newest ns }

pub by_insertion-Orders : Orders by_insertion
by_insertion-Orders = record {
  permutes = λ c ns. newest-Perm ns;
  newest_first = λ c ns. newest-NewestFirst ns;
}
