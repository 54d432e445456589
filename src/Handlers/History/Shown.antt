-- ===== src/Handlers/History/Shown.antt =====
-- What the pages of History in backend/internal/api/handlers/notification.go show together, and its
-- last pages.
use notifyx.Prelude.{
  select, take, drop, sym, subst, ℕ, zero, suc, ◌*◌, ◌^◌, ◌-◌, ◌<◌, ◌≤◌, ◌≡◌, ◌∙◌, refl, ap, Option,
  none, some, List, [], ◌++◌, arith, String, length, pos, to_int64-large,
}
use native.Mathlib.Nat.{mul-le-mul}
use notifyx.Domain.{Time, Tenant, Notification}
use notifyx.Postgres.{Env, World}
use mathlib.Core.List.{Permᴰ}
use notifyx.Postgres.Pages.{Querying, matches, matching, get_by_tenant_id}
use notifyx.Postgres.Pages.Newest.{NewestFirst, Distinct, Orders, length-Perm, NewestFirst-unique}
use notifyx.Handlers.Response.{
  Response, Flow, history_body, responds, err_response, status_internal_server_error,
  list_notifications_failed,
}
use notifyx.Handlers.History.{PaginationParams, HistoryQueryParams, normalize, filter_of, history}
use notifyx.Handlers.History.Paging.{
  pages, pages-take, take_all, normalize-valid, offset_lem, at_page, answered, Accepted, selected,
  rows_of, history_of_filter, page_of_negsuc, history_page,
}

bounded : (n l : ℕ) → n < 2 ^ 56 → l ≤ 100 → n * l < 2 ^ 63
bounded n l h k =
    let most : n * l ≤ 2 ^ 56 * 100 = mul-le-mul {n₂ = 2 ^ 56} {m₂ = 100} (omega (arith, h)) k in
    omega (arith, most)

-- The notifications of an answer.
abbrev pub shown : Flow Response → List Notification
shown (responds r) = elim r.body [ history_body ns total page limit ↦ ns | _ ↦ [] ]
shown _ = []

module _ {R : Type 0} (env : Env) (sql : Querying) (parse_time : String → Option Time)
    (t : Tenant) where
  -- What the first n pages of a query show together, with l rows each, where page k + 1 is read in the
  -- world `at k`.
  abbrev pub shown_pages : HistoryQueryParams → ℕ → ℕ → (ℕ → World R) → List Notification
  shown_pages q l zero at = []
  shown_pages q l (suc n) at =
      shown_pages q l n at
      ++ shown (history env sql parse_time (some t) (some (at_page q n l)) (at n)).0

  -- The worlds in which the pages are read: the same rows, the filters valid, and no query fails.
  pub record Calm (q : HistoryQueryParams) (from to : Option Time) (at : ℕ → World R) : Type 0 where
    pub same_rows : (k : ℕ) → (at k).tables.notifications ≡ (at 0).tables.notifications
    pub accepted : (k : ℕ) → Accepted env sql parse_time t q from to (at k)
    pub no_fault : (k : ℕ) → env.fault (at k).calls ≡ none

  module _ (orders : Orders sql) (q : HistoryQueryParams) (from to : Option Time) (at : ℕ → World R)
      (calm : Calm q from to at)
      (distinct : Distinct (selected env sql parse_time t q from to (at 0))) where
    rows_of-same :
        (k : ℕ)
        → rows_of env sql parse_time t q from to (at k)
          ≡ rows_of env sql parse_time t q from to (at 0)
    unfolding matching matches
    rows_of-same k =
        NewestFirst-unique {rows = selected env sql parse_time t q from to (at 0)} distinct
          (subst
            (λ rows.
              Permᴰ (taken rows)
                (sql.arrange (suc (at k).calls) (taken (at k).tables.notifications)))
            (calm.same_rows k) (orders.permutes _ _))
          (orders.permutes _ _) (orders.newest_first _ _) (orders.newest_first _ _)
      where
        taken : List Notification → List Notification
        taken rows =
            select (matches sql.ilike t.id (filter_of q (normalize q.pagination) from to)) rows

    shown_pages-pages :
        (l n : ℕ)
        → 1 ≤ l
        → l ≤ 100
        → n < 2 ^ 56
        → shown_pages q l n at ≡ pages l n (rows_of env sql parse_time t q from to (at 0))
    shown_pages-pages l zero h1 h2 h3 = refl
    shown_pages-pages l (suc n) h1 h2 h3 =
        ap (λ ys. ys ++ shown (history env sql parse_time (some t) (some (at_page q n l)) (at n)).0)
          (shown_pages-pages l n h1 h2 (omega (arith, h3)))
        ∙ ap (λ x. pages l n (rows_of env sql parse_time t q from to (at 0)) ++ shown x)
            (history_page env sql parse_time t q n l from to (at n) (calm.accepted n) h1 h2
              (omega (arith, h3)) (bounded n l (omega (arith, h3)) h2) (calm.no_fault n))
        ∙ ap
            (λ rows.
              pages l n (rows_of env sql parse_time t q from to (at 0))
              ++ take l (drop (n * l) rows))
            (rows_of-same n)

    shown_pages-rows_of :
        (l n : ℕ)
        → 1 ≤ l
        → l ≤ 100
        → n < 2 ^ 56
        → length (selected env sql parse_time t q from to (at 0)) ≤ n * l
        → shown_pages q l n at ≡ rows_of env sql parse_time t q from to (at 0)
    unfolding matching matches
    shown_pages-rows_of l n h1 h2 h3 h =
        let rows = rows_of env sql parse_time t q from to (at 0) in
        let long =
          length-Perm
            (orders.permutes (suc (at 0).calls) (selected env sql parse_time t q from to (at 0))) in
        shown_pages-pages l n h1 h2 h3
        ∙ pages-take l n rows
        ∙ take_all (n * l) rows (omega (arith, h, long))

  -- The pages of History together show every notification of the tenant that the query's filters
  -- match, each once (they are a permutation of the matching rows), the newest first: so it is for the
  -- first n pages, with 1 to 100 rows each, as soon as they have room for all, where no two matching
  -- rows have the same created_at, the notifications do not change between the pages, the queries do
  -- not fail, the filters are valid and n is below 2^56. `Orders` is what ORDER BY promises; each page's
  -- query may order rows with equal created_at in its own way.
  pub history_shows_all :
      (orders : Orders sql) (q : HistoryQueryParams) (l : ℕ) (from to : Option Time) (n : ℕ)
      (at : ℕ → World R)
      → Calm q from to at
      → Distinct (selected env sql parse_time t q from to (at 0))
      → 1 ≤ l
      → l ≤ 100
      → n < 2 ^ 56
      → length (selected env sql parse_time t q from to (at 0)) ≤ n * l
      → Permᴰ (selected env sql parse_time t q from to (at 0)) (shown_pages q l n at)
        × NewestFirst (shown_pages q l n at)
  unfolding matching matches
  history_shows_all orders q l from to n at calm distinct h1 h2 h3 h =
      let e = shown_pages-rows_of orders q from to at calm distinct l n h1 h2 h3 h in
      let rows = selected env sql parse_time t q from to (at 0) in
      (
        subst (λ ns. Permᴰ rows ns) (sym e) (orders.permutes (suc (at 0).calls) rows),
        subst NewestFirst (sym e) (orders.newest_first (suc (at 0).calls) rows),
      )

  -- A page with 1 to 100 rows whose offset is at least 2^63 and below 2^64 is answered with 500,
  -- where the filters are valid: the product wraps to a negative number, which Postgres refuses. (A
  -- product of 2^64 or more wraps further and may be a valid offset again.)
  pub history_wraps :
      (q : HistoryQueryParams) (k l : ℕ) (from to : Option Time) (w : World R)
      → Accepted env sql parse_time t q from to w
      → 1 ≤ l
      → l ≤ 100
      → suc k < 2 ^ 63
      → 2 ^ 63 ≤ k * l
      → k * l < 2 ^ 64
      → (history env sql parse_time (some t) (some (at_page q k l)) w).0
        ≡ responds (err_response status_internal_server_error list_notifications_failed)
  unfolding filter_of
  history_wraps q k l from to w a h1 h2 h3 h4 h5 =
      let p : PaginationParams = record { page = pos (suc k); limit = pos l } in
      let (e, refused) =
        page_of_negsuc env sql parse_time t (filter_of q p from to) (2 ^ 64 - suc (k * l)) w
          (offset_lem k l h3 h2 ∙ to_int64-large (k * l) h4 h5) in
      history_of_filter env sql parse_time t (at_page q k l) from to w a
      ∙ ap (λ x. answered x (get_by_tenant_id env sql t.id (filter_of q x from to) w).0)
          (normalize-valid k l h1 h2)
      ∙ ap (answered p) refused
