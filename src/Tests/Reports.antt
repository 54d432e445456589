-- ===== src/Tests/Reports.antt =====
-- The reports over a few notifications and DLQ rows.
use notifyx.Prelude.{suc, ◌-◌, ◌≡◌, List, [], ◌∷◌, length, select}
use notifyx.Domain.{Notification, email, sms, delivered, failed, pending}
use notifyx.Postgres.{Tables}
use notifyx.Postgres.Reports.{breakdown_of, summary_of, day_of, dlq_in_period, trend_of}
use notifyx.Postgres.Reports.Totals.{sum_by, breakdown_adds_up, trend_adds_up}
use notifyx.Tests.{held, tables_with}

abbrev sent : List Notification
sent = held delivered ∷ (record (held failed) { channel = sms }) ∷ held pending ∷ []

breakdown_adds_up_example :
    (sum_by (λ b. b.sent) (breakdown_of sent 7 0 100) ≡ (summary_of sent 7 0 100).total_sent)
    × (sum_by (λ b. b.delivered) (breakdown_of sent 7 0 100)
        ≡ (summary_of sent 7 0 100).total_delivered)
    × (sum_by (λ b. b.failed) (breakdown_of sent 7 0 100) ≡ (summary_of sent 7 0 100).total_failed)
breakdown_adds_up_example = breakdown_adds_up sent 7 0 100

abbrev dead : Tables
dead = record (tables_with failed) {
  dlq_messages =
      (record {
        id = 60;
        notification_id = 40;
        channel = email;
        error = "down";
        attempts = 3;
        last_tried_at = 86400000000001;
        created_at = 86400000000001;
      })
      ∷ [];
}

trend_adds_up_example :
    (length (trend_of dead 7 0 172800000000000) ≡ suc (day_of 172800000000000) - day_of 0)
    × (sum_by (λ p. p.count) (trend_of dead 7 0 172800000000000)
        ≡ length (select (dlq_in_period dead.notifications 7 0 172800000000000) dead.dlq_messages))
trend_adds_up_example = trend_adds_up dead 7 0 172800000000000
