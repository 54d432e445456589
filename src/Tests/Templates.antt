-- ===== src/Tests/Templates.antt =====
-- Templates of two tenants.
use notifyx.Prelude.{
  String, ◌≡◌, refl, true, Option, none, some, [], ◌∷◌, any, str_eq, if◌then◌else◌,
}
use notifyx.Domain.{Uuid, email, to_channel, NotificationTemplate, channel_eq}
use notifyx.Postgres.{World}
use notifyx.Postgres.Templates
use notifyx.Template.{render}
use notifyx.Handlers.Response.{goes_on}
use notifyx.Handlers.Requests.{is_valid_channel}
use notifyx.Handlers.Notifications.{resolve_template}
use notifyx.Handlers.Notifications.{tenant_id}
use notifyx.Handlers.Pipeline.{NotificationService}
use notifyx.Handlers.Templates.{TemplateRequest, create, update, delete, validate_template}
use notifyx.Handlers.Templates.Scoping.{templates_isolated, foreign}
use notifyx.Handlers.Templates.Stored.{resolve_template-create}
use notifyx.Tests.{calm, acme, tenant_tables, world_of}

abbrev other_template : NotificationTemplate
other_template = record {
  id = 9;
  tenant_id = 8;
  name = "hello";
  channel = email;
  subject = "hi";
  body = "text";
  created_at = 0;
  updated_at = 0;
}

abbrev start : World (Unit {0})
start = world_of (record tenant_tables { templates = other_template ∷ [] }) tt

abbrev nine : String → Option Uuid
nine s = if str_eq s "9" then some 9 else if str_eq s "50" then some 50 else none

abbrev greeting : TemplateRequest
greeting = record {
  name = "hello";
  channel = "email";
  subject = "Hi {{name}}";
  body = "Dear {{name}}";
}

templates_isolated_example :
    (foreign 7 (create calm nine (some acme) (some greeting) start).1 ≡ foreign 7 start)
    × (foreign 7 (update calm nine (some acme) "9" (some greeting) start).1 ≡ foreign 7 start)
    × (foreign 7 (delete calm nine (some acme) "9" start).1 ≡ foreign 7 start)
templates_isolated_example = templates_isolated calm nine acme (some greeting) "9" start

abbrev service : NotificationService (Unit {0})
service = record { producer = true; rate_limiter = none; dedup = none }

resolve_template-create_example :
    (resolve_template calm service nine
      (λ s. none)
      7
      "50"
      email
      (("name", "Ann") ∷ [])
      (create calm nine (some acme) (some greeting) start).1).0
    ≡ goes_on (
      50,
      render "Hi {{name}}" (("name", "Ann") ∷ []),
      render "Dear {{name}}" (("name", "Ann") ∷ []),
    )
unfolding create validate_template is_valid_channel tenant_id Templates.create any to_channel
    channel_eq
resolve_template-create_example =
    resolve_template-create calm nine acme service (λ s. none) greeting "50" (("name", "Ann") ∷ [])
      start
      {x = record {
        id = 50;
        tenant_id = 7;
        name = "hello";
        channel = email;
        subject = "Hi {{name}}";
        body = "Dear {{name}}";
        created_at = 1000;
        updated_at = 1000;
      }}
      refl refl refl refl
