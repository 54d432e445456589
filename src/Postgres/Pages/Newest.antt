-- ===== src/Postgres/Pages/Newest.antt =====
-- ORDER BY created_at DESC in backend/internal/repository/postgres/notification_repo.go: where no two
-- rows have the same created_at, it leaves one order.
use notifyx.Prelude.{
  ℕ, ◌<◌, ◌≤◌, ◌≡◌, ◌≢◌, ◌∙◌, refl, sym, subst, ap, suc, List, [], ◌∷◌, All, All-map, arith, length,
}
use mathlib.Core.List.{Memᴰ, Permᴰ}
use mathlib.Core.List.Permᴰ
use notifyx.Domain.{Notification}
use notifyx.Postgres.Pages.{Querying}

-- No row is older than a later one.
abbrev pub NewestFirst : List Notification → Type 0
NewestFirst [] = Unit
NewestFirst (n ∷ ns) = All (λ m. m.created_at ≤ n.created_at) ns × NewestFirst ns

-- No two rows have the same created_at.
abbrev pub Distinct : List Notification → Type 0
Distinct [] = Unit
Distinct (n ∷ ns) = All (λ m. n.created_at ≢ m.created_at) ns × Distinct ns

-- What ORDER BY created_at DESC promises of the order of the rows.
pub record Orders (sql : Querying) : Type 0 where
  pub permutes : (c : ℕ) (rows : List Notification) → Permᴰ rows (sql.arrange c rows)
  pub newest_first : (c : ℕ) (rows : List Notification) → NewestFirst (sql.arrange c rows)

abbrev Strict : List Notification → Type 0
Strict [] = Unit
Strict (n ∷ ns) = All (λ m. m.created_at < n.created_at) ns × Strict ns

All-Perm :
    (P : Notification → Type 0) {xs ys : List Notification} → Permᴰ xs ys → All P xs → All P ys
All-Perm P Permᴰ.nil h = h
All-Perm P (Permᴰ.cons e p) h = (subst P e (h.0), All-Perm P p (h.1))
All-Perm P (Permᴰ.swap d e) h = (subst P e (h.1.0), (subst P d (h.0), h.1.1))
All-Perm P (Permᴰ.trans p q) h = All-Perm P q (All-Perm P p h)

pub length-Perm : {xs ys : List Notification} → Permᴰ xs ys → length xs ≡ length ys
length-Perm Permᴰ.nil = refl
length-Perm (Permᴰ.cons e p) = ap suc (length-Perm p)
length-Perm (Permᴰ.swap d e) = refl
length-Perm (Permᴰ.trans p q) = length-Perm p ∙ length-Perm q

Distinct-Perm : {xs ys : List Notification} → Permᴰ xs ys → Distinct xs → Distinct ys
Distinct-Perm Permᴰ.nil h = h
Distinct-Perm (Permᴰ.cons {a} {b} {l₂ = ys} e p) h = (
  subst (λ (n : Notification). All (λ m. n.created_at ≢ m.created_at) ys) e
      (All-Perm (λ m. a.created_at ≢ m.created_at) p (h.0)),
  Distinct-Perm p (h.1),
)
Distinct-Perm (Permᴰ.swap {l = ns} d e) h = (
  (
    ground (arith, h.0.0, ap (λ n. n.created_at) d, ap (λ n. n.created_at) e),
    subst (λ (n : Notification). All (λ m. n.created_at ≢ m.created_at) ns) e (h.1.0),
  ),
  (subst (λ (n : Notification). All (λ m. n.created_at ≢ m.created_at) ns) d (h.0.1), h.1.1),
)
Distinct-Perm (Permᴰ.trans p q) h = Distinct-Perm q (Distinct-Perm p h)

strict_lem : (ns : List Notification) → NewestFirst ns → Distinct ns → Strict ns
strict_lem [] o d = tt
strict_lem (n ∷ ns) o d = (both ns (o.0) (d.0), strict_lem ns (o.1) (d.1))
  where
    both :
        (ms : List Notification)
        → All (λ m. m.created_at ≤ n.created_at) ms
        → All (λ m. n.created_at ≢ m.created_at) ms
        → All (λ m. m.created_at < n.created_at) ms
    both [] a b = tt
    both (m ∷ ms) a b = (ground (arith, a.0, b.0), both ms (a.1) (b.1))

members : (ns : List Notification) → All (λ n. Memᴰ n ns) ns
members [] = tt
members (n ∷ ns) = (
  Memᴰ.head refl,
  All-map (λ m. Memᴰ m ns) (λ m. Memᴰ m (n ∷ ns)) (λ m h. Memᴰ.tail h) ns (members ns),
)

All-Mem :
    (P : Notification → Type 0) {n : Notification} {ns : List Notification}
    → Memᴰ n ns
    → All P ns
    → P n
All-Mem P (Memᴰ.head e) h = subst P (sym e) (h.0)
All-Mem P (Memᴰ.tail m) h = All-Mem P m (h.1)

-- A member that is older than the first is among the others.
older_member :
    {n m : Notification} {ns : List Notification}
    → Memᴰ m (n ∷ ns)
    → m.created_at < n.created_at
    → Memᴰ m ns
older_member (Memᴰ.head e) h = absurd (ground (arith, e, h))
older_member (Memᴰ.tail k) h = k

older_members :
    (n : Notification) (ms ns : List Notification)
    → All (λ m. m.created_at < n.created_at) ms
    → All (λ m. Memᴰ m (n ∷ ns)) ms
    → All (λ m. Memᴰ m ns) ms
older_members n [] ns a b = tt
older_members n (m ∷ ms) ns a b = (older_member (b.0) (a.0), older_members n ms ns (a.1) (b.1))

same_head :
    {n m : Notification} {ns ms : List Notification}
    → Memᴰ n (m ∷ ms)
    → Memᴰ m (n ∷ ns)
    → Strict (n ∷ ns)
    → Strict (m ∷ ms)
    → n ≡ m
same_head (Memᴰ.head e) b s t = e
same_head (Memᴰ.tail a) (Memᴰ.head e) s t = sym e
same_head {n} {m} (Memᴰ.tail a) (Memᴰ.tail b) s t =
    let x = All-Mem (λ k. k.created_at < m.created_at) a (t.0) in
    let y = All-Mem (λ k. k.created_at < n.created_at) b (s.0) in absurd (omega (arith, x, y))

unique :
    (ns ms : List Notification)
    → Strict ns
    → Strict ms
    → All (λ n. Memᴰ n ms) ns
    → All (λ m. Memᴰ m ns) ms
    → ns ≡ ms
unique [] [] s t a b = refl
unique [] (m ∷ ms) s t a b = absurd (elim (b.0) [ ])
unique (n ∷ ns) [] s t a b = absurd (elim (a.0) [ ])
unique (n ∷ ns) (m ∷ ms) s t a b =
    let e : n ≡ m = same_head (a.0) (b.0) s t in
    let rest : ns ≡ ms =
      unique ns ms (s.1) (t.1)
        (older_members n ns ms (s.0) (subst (λ k. All (λ x. Memᴰ x (k ∷ ms)) ns) (sym e) (a.1)))
        (older_members m ms ns (t.0) (subst (λ k. All (λ x. Memᴰ x (k ∷ ns)) ms) e (b.1))) in
    λ j. e j ∷ rest j

-- Two orders of the same rows, the newest first, are the same order, where no two rows have the same
-- created_at.
pub NewestFirst-unique :
    {rows ns ms : List Notification}
    → Distinct rows
    → Permᴰ rows ns
    → Permᴰ rows ms
    → NewestFirst ns
    → NewestFirst ms
    → ns ≡ ms
NewestFirst-unique {rows} {ns} {ms} d p q x y =
    unique ns ms (strict_lem ns x (Distinct-Perm p d)) (strict_lem ms y (Distinct-Perm q d))
      (All-Perm (λ n. Memᴰ n ms) (Permᴰ.trans (Permᴰ.symm q) p) (members ms))
      (All-Perm (λ n. Memᴰ n ns) (Permᴰ.trans (Permᴰ.symm p) q) (members ns))
