-- ===== src/Tests/Servers.antt =====
-- A server without Kafka and Redis, and a client of the push service.
use notifyx.Prelude.{ℕ, find, order_by, select, ◌≡◌, refl, none, ok, some}
use notifyx.Domain.{pending}
use notifyx.Postgres.{World}
use notifyx.Postgres.Notifications
use notifyx.Postgres.Deliveries
use notifyx.Scheduler.{first_delivery}
use notifyx.Config.{read_config}
use notifyx.Providers.{Web, Json, FcmClient}
use notifyx.Server.{wire, fire_through}
use notifyx.Server.Unconfigured.{fire_through-wire}
use notifyx.Tests.Configs.{environment}
use notifyx.Tests.{calm, held, held_delivery, due_row, tables_with, world_of}

abbrev start : World (Unit {0})
start = world_of (tables_with pending) tt

fire_through-wire_example :
    fire_through calm
      (wire {P = ℕ} {L = ℕ} {D = ℕ} {Q = ℕ} (read_config environment) 1 2 3 4).scheduler_producer
      due_row
      start
    ≡ none
unfolding read_config Notifications.get_by_id Deliveries.get_by_notification_id first_delivery find
    order_by select
fire_through-wire_example =
    fire_through-wire calm {L = ℕ} {D = ℕ} {Q = ℕ} (read_config environment) 1 2 3 4 due_row start
      {n = held pending} {row = held_delivery pending} refl refl refl

abbrev json : Json
json = record {
  email_body = λ a b c d. "";
  sms_query = λ a b c. "";
  push_body = λ a b c. "";
  token_form = λ a. a;
  error_message = λ s. none;
  message_id = λ s. none;
  sms_reply = λ s. none;
  token_reply = λ s. some (record { access_token = s; expires_in = 3600 });
  decimal = λ n. "";
}

abbrev web : Web
web n req = ok (record { status = 200; body = "token" })

abbrev client : FcmClient
client = record {
  project_id = "p";
  token_uri = "https://oauth2.googleapis.com/token";
  sign = λ t. ok "assertion";
  access_token = "";
  expires_at = 0;
}
