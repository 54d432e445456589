-- ===== src/Tests.antt =====
-- Concrete states of the program, on which the theorems are applied.
pub mod Uuids
pub mod Sends
pub mod Channels
pub mod Crons
pub mod Limits
pub mod Systems
pub mod Hubs
pub mod Schedules
pub mod Tenants
pub mod Templates
pub mod Reports
pub mod Configs
pub mod Queues
pub mod Newest
pub mod Pages
pub mod Rows
pub mod Sockets
pub mod Servers
use notifyx.Prelude.{
  ℕ, ◌+◌, String, Bool, true, false, Option, none, some, List, [], ◌∷◌, ◌==◌, if◌then◌else◌,
}
use notifyx.Domain.{
  Channel, email, sms, Status, pending, normal, Notification, NotificationDelivery,
  ScheduledNotification, Tenant, TenantChannel, Message,
}
use notifyx.Handlers.Requests.{SendNotificationRequest}
use notifyx.Postgres.{Env, Tables, World}

-- Every call succeeds.
abbrev pub calm : Env
calm = record {
  fault = λ n. none;
  clock = λ n. 1000 + n;
  fresh = λ n. 50 + n;
  violation = λ code. code;
  cancelled = λ n. false;
}

-- The call at a position fails.
abbrev pub failing_at : ℕ → Env
failing_at k = record calm { fault = λ n. if n == k then some "down" else none }

abbrev pub acme : Tenant
acme = record { id = 7; name = "acme"; global_rate_cap = 100; created_at = 0 }

abbrev pub acme_email : TenantChannel
acme_email = record { id = 3; tenant_id = 7; channel = email; enabled = true; created_at = 0 }

abbrev pub held : Status → Notification
held s = record {
  id = 40;
  tenant_id = 7;
  channel = email;
  priority = normal;
  status = s;
  recipient_id = "";
  recipient_email = "a@b.c";
  recipient_phone = "";
  recipient_token = "";
  template_id = none;
  subject = "hi";
  body = "text";
  metadata = some "{}";
  idempotency_key = "";
  scheduled_at = none;
  created_at = 10;
  expires_at = 9999;
}

abbrev pub held_delivery : Status → NotificationDelivery
held_delivery s = record {
  id = 41;
  notification_id = 40;
  channel = email;
  status = s;
  attempts = 0;
  error_message = "";
  delivered_at = none;
  created_at = 10;
}

abbrev pub due_row : ScheduledNotification
due_row = record {
  id = 42;
  notification_id = 40;
  scheduled_at = 20;
  fired = false;
  created_at = 10;
}

abbrev pub tenant_tables : Tables
tenant_tables = record {
  notifications = [];
  deliveries = [];
  scheduled = [];
  dlq_messages = [];
  tenants = acme ∷ [];
  tenant_channels = acme_email ∷ [];
  tenant_rate_limits = [];
  api_keys = [];
  templates = [];
}

abbrev pub tables_with : Status → Tables
tables_with s = record tenant_tables {
  notifications = held s ∷ [];
  deliveries = held_delivery s ∷ [];
  scheduled = due_row ∷ [];
}

abbrev pub world_of : {R : Type 0} → Tables → R → World R
world_of tables r = record { tables = tables; published = []; provided = []; redis = r; calls = 0 }

abbrev pub mail : Message
mail = record {
  notification_id = 40;
  delivery_id = 41;
  tenant_id = 7;
  channel = email;
  priority = normal;
  recipient_id = "";
  recipient_email = "a@b.c";
  recipient_phone = "";
  recipient_token = "";
  subject = "hi";
  body = "text";
  metadata = some "{}";
  last_error = "";
}

abbrev pub request : SendNotificationRequest
request = record {
  channel = "email";
  priority = "";
  recipient_id = "";
  recipient_email = "a@b.c";
  recipient_phone = "";
  recipient_token = "";
  template_id = "";
  variables = [];
  subject = "hi";
  body = "text";
  metadata = none;
  idempotency_key = "order-1";
}
