-- ===== src/Handlers/History/Paging.antt =====
-- What the pages of History in backend/internal/api/handlers/notification.go show, and what /health
-- of common.go answers.
use notifyx.Prelude.{
  select, ℕ, zero, suc, ◌+◌, ◌*◌, ◌^◌, ◌<◌, ◌≤◌, ◌≡◌, ◌∙◌, refl, sym, ap, true, ◌||◌, Option,
  Result, Error, wrap, message, pg_error, none, some, List, [], ◌∷◌, ◌++◌, arith, String, ok, err,
  take, drop, length, Option-cases, inl, inr, pos, negsuc, to_nat, minus_one-pos, *ℤ-pos, to_int64,
  to_int64-small, ◌*ℤ◌, is_below,
}
use native.Mathlib.Nat.{zero-add, add-zero, suc-add, zero-mul, suc-mul}
use notifyx.Domain.{Time, Tenant, Notification}
use notifyx.Postgres.{Env, World}
use notifyx.Postgres.Pages.{
  Querying, NotificationFilter, matches, matching, total_of, get_by_tenant_id,
}
use notifyx.Handlers.Response.{
  ErrorText, from_format, to_format, Response, Flow, goes_on, failing, history_body, responds,
  status_ok, list_notifications_failed,
}
use notifyx.Handlers.Requests.{is_blank, is_valid_channel, is_valid_status}
use notifyx.Handlers.Notifications.{tenant_id}
use notifyx.Handlers.History.{
  PaginationParams, HistoryQueryParams, normalize, offset, optional_time, filter_of, history,
}

module _ {A : Type 0} where
  -- The first n pages of a list, with l rows each.
  abbrev pub pages : ℕ → ℕ → List A → List A
  pages l zero xs = []
  pages l (suc n) xs = pages l n xs ++ take l (drop (n * l) xs)

  take-append_drop : (n m : ℕ) (xs : List A) → take n xs ++ take m (drop n xs) ≡ take (n + m) xs
  take-append_drop zero m xs = ap (λ k. take k xs) (sym (zero-add m))
  take-append_drop (suc n) zero [] = ap (λ k. take {A = A} k []) (sym (add-zero (suc n)))
  take-append_drop (suc n) (suc m) [] = ap (λ k. take {A = A} k []) (sym (suc-add n (suc m)))
  take-append_drop (suc n) m (x ∷ xs) =
      ap (λ ys. x ∷ ys) (take-append_drop n m xs) ∙ ap (λ k. take k (x ∷ xs)) (sym (suc-add n m))

  pub pages-take : (l n : ℕ) (xs : List A) → pages l n xs ≡ take (n * l) xs
  pages-take l zero xs = ap (λ k. take k xs) (sym (zero-mul l))
  pages-take l (suc n) xs =
      ap (λ ys. ys ++ take l (drop (n * l) xs)) (pages-take l n xs)
      ∙ take-append_drop (n * l) l xs
      ∙ ap (λ k. take k xs) (sym (suc-mul n l))

  pub take_all : (n : ℕ) (xs : List A) → length xs ≤ n → take n xs ≡ xs
  take_all zero [] h = refl
  take_all zero (x ∷ xs) h = absurd (omega (arith, h))
  take_all (suc n) [] h = refl
  take_all (suc n) (x ∷ xs) h = ground (arith, take_all n xs)

-- On a page and a limit in their ranges Normalize changes nothing and Offset is exact.
pub normalize-valid :
    (k l : ℕ)
    → 1 ≤ l
    → l ≤ 100
    → normalize (record { page = pos (suc k); limit = pos l })
      ≡ record { page = pos (suc k); limit = pos l }
unfolding normalize is_below
normalize-valid k l h1 h2 = ground arith

pub offset_lem :
    (k l : ℕ)
    → suc k < 2 ^ 63
    → l ≤ 100
    → offset (record { page = pos (suc k); limit = pos l }) ≡ to_int64 (k * l)
unfolding offset
offset_lem k l h1 h2 =
    ap (λ z. z *ℤ pos l) (minus_one-pos k h1) ∙ *ℤ-pos k l (omega (arith, h1)) (omega (arith, h2))

-- The query for the page after k pages, with l rows each.
abbrev pub at_page : HistoryQueryParams → ℕ → ℕ → HistoryQueryParams
at_page q k l = record q { pagination = record { page = pos (suc k); limit = pos l } }

-- The answer that the repository's result becomes.
abbrev pub answered : PaginationParams → Result (List Notification × ℕ) → Flow Response
answered p (err e) = responds (failing list_notifications_failed e)
answered p (ok found) = responds (record {
  status = status_ok;
  body = history_body (found.0) (found.1) (to_nat p.page) (to_nat p.limit);
})

module _ {R : Type 0} (env : Env) (sql : Querying) (parse_time : String → Option Time)
    (t : Tenant) where
  -- The filters of a query are valid, and its times are these.
  abbrev pub Accepted : HistoryQueryParams → Option Time → Option Time → World R → Type 0
  Accepted q from to w =
      ((is_blank q.channel || is_valid_channel q.channel) ≡ true)
      × ((is_blank q.status || is_valid_status q.status) ≡ true)
      × ((optional_time parse_time q.from from_format w).0 ≡ goes_on from)
      × ((optional_time parse_time q.to to_format w).0 ≡ goes_on to)

  -- The rows that the WHERE clause of a query takes.
  abbrev pub selected : HistoryQueryParams → Option Time → Option Time → World R → List Notification
  selected q from to w =
      select (matches sql.ilike t.id (filter_of q (normalize q.pagination) from to))
        w.tables.notifications

  -- The same rows in the order in which the query gives them.
  abbrev pub rows_of : HistoryQueryParams → Option Time → Option Time → World R → List Notification
  rows_of q from to w =
      matching sql (suc w.calls) w.tables.notifications t.id
        (filter_of q (normalize q.pagination) from to)

  optional_time-same :
      (text : String) (bad : ErrorText) (w : World R) → (optional_time parse_time text bad w).1 ≡ w
  unfolding optional_time
  optional_time-same text bad w = ground arith

  pub history_of_filter :
      (q : HistoryQueryParams) (from to : Option Time) (w : World R)
      → Accepted q from to w
      → (history env sql parse_time (some t) (some q) w).0
        ≡ answered
            (normalize q.pagination)
            (get_by_tenant_id env sql t.id (filter_of q (normalize q.pagination) from to) w).0
  unfolding history tenant_id
  history_of_filter q from to w h =
      ground
        (arith, h, optional_time-same q.from from_format w, optional_time-same q.to to_format w)

  page_of_pos :
      (f : NotificationFilter) (n : ℕ) (w : World R)
      → f.offset ≡ pos n
      → env.fault w.calls ≡ none
      → (get_by_tenant_id env sql t.id f w).0
        ≡ ok (
          take f.limit (drop n (matching sql (suc w.calls) w.tables.notifications t.id f)),
          total_of
              (take f.limit (drop n (matching sql (suc w.calls) w.tables.notifications t.id f)))
              (length (matching sql (suc w.calls) w.tables.notifications t.id f)),
        )
  unfolding get_by_tenant_id
  page_of_pos f n w e h = ground arith

  pub page_of_negsuc :
      (f : NotificationFilter) (n : ℕ) (w : World R)
      → f.offset ≡ negsuc n
      → (e : Error) × ((get_by_tenant_id env sql t.id f w).0 ≡ err e)
  unfolding get_by_tenant_id
  page_of_negsuc f n w e = elim (Option-cases (env.fault w.calls)) [
    | inl h ↦ (wrap "list notifications" (pg_error "2201X" (env.violation "2201X")), ground arith)
    | inr (text, h) ↦ (wrap "list notifications" (message text), ground arith)
  ]

  -- A page in its range, whose offset is a machine integer: the slice of the rows, with the total of
  -- all of them unless the slice is empty.
  pub history_page :
      (q : HistoryQueryParams) (k l : ℕ) (from to : Option Time) (w : World R)
      → Accepted q from to w
      → 1 ≤ l
      → l ≤ 100
      → suc k < 2 ^ 63
      → k * l < 2 ^ 63
      → env.fault w.calls ≡ none
      → (history env sql parse_time (some t) (some (at_page q k l)) w).0
        ≡ responds (record {
          status = status_ok;
          body =
              history_body
                (take l (drop (k * l) (rows_of q from to w)))
                (total_of
                  (take l (drop (k * l) (rows_of q from to w)))
                  (length (rows_of q from to w)))
                (suc k)
                l;
        })
  unfolding filter_of to_nat matching matches
  history_page q k l from to w a h1 h2 h3 h4 f =
      history_of_filter (at_page q k l) from to w a
      ∙ ap (λ p. answered p (get_by_tenant_id env sql t.id (filter_of q p from to) w).0)
          (normalize-valid k l h1 h2)
      ∙ ap (answered (record { page = pos (suc k); limit = pos l })) (
          page_of_pos (filter_of q (record { page = pos (suc k); limit = pos l }) from to) (k * l) w
            (offset_lem k l h3 h2 ∙ to_int64-small (k * l) h4) f)
