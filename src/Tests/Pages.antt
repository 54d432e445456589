-- ===== src/Tests/Pages.antt =====
-- The pages of a history of two notifications.
use notifyx.Prelude.{ℕ, ◌≢◌, ◌≡◌, refl, none, [], ◌∷◌, some, pos, arith, select}
use notifyx.Domain.{pending, delivered}
use notifyx.Postgres.{World}
use notifyx.Handlers.Response.{
  responds, err_response, status_internal_server_error, list_notifications_failed,
}
use notifyx.Handlers.History.{HistoryQueryParams, history, optional_time, normalize, filter_of}
use notifyx.Handlers.History.Paging.{at_page}
use notifyx.Handlers.History.Shown.{shown_pages, history_shows_all, history_wraps}
use notifyx.Postgres.Pages.{matches}
use mathlib.Core.List.{Permᴰ}
use notifyx.Postgres.Pages.Newest.{NewestFirst}
use notifyx.Tests.Newest.{by_insertion, by_insertion-Orders}
use notifyx.Tests.{calm, acme, held, tables_with, world_of}

abbrev start : World (Unit {0})
start =
    world_of
      (record (tables_with pending) {
        notifications = held pending ∷ (record (held delivered) { id = 43; created_at = 11 }) ∷ [];
      })
      tt

abbrev all_of_them : HistoryQueryParams
all_of_them = record {
  pagination = record { page = pos 1; limit = pos 1 };
  channel = "";
  status = "";
  from = "";
  to = "";
  recipient = "";
}

-- Each page is read at its own call of the database.
abbrev at : ℕ → World (Unit {0})
at k = record start { calls = k }

history_shows_all_example :
    Permᴰ start.tables.notifications
      (shown_pages calm by_insertion (λ x. none) acme all_of_them 1 2 at)
    × NewestFirst (shown_pages calm by_insertion (λ x. none) acme all_of_them 1 2 at)
unfolding optional_time matches normalize filter_of select
history_shows_all_example =
    history_shows_all calm by_insertion (λ x. none) acme by_insertion-Orders all_of_them 1 none none
      2 at
      (record {
        same_rows = λ k. refl;
        accepted = λ k. (refl, refl, refl, refl);
        no_fault = λ k. refl;
      })
      ((apart, tt), (tt, tt)) (omega arith) (omega arith) (omega arith) (omega arith)
  where
    apart : (held pending).created_at ≢ 11
    apart e = omega (arith, e)

history_wraps_example :
    (history calm by_insertion
      (λ x. none)
      (some acme)
      (some (at_page all_of_them 4611686018427387904 2))
      start).0
    ≡ responds (err_response status_internal_server_error list_notifications_failed)
unfolding optional_time
history_wraps_example =
    history_wraps calm by_insertion (λ x. none) acme all_of_them 4611686018427387904 2 none none
      start (refl, refl, refl, refl) (omega arith) (omega arith) (omega arith) (omega arith)
      (omega arith)
