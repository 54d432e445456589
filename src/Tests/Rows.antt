-- ===== src/Tests/Rows.antt =====
-- A tenant that gets a template and sends a message, and is then deleted with its rows.
use notifyx.Prelude.{String, refl, true, some, none, any, Option, arith, if◌then◌else◌, str_eq}
use notifyx.Domain.{Uuid, Time, pending}
use notifyx.Postgres.{World}
use notifyx.Postgres.References.Valid.{Valid}
use notifyx.Handlers.Pipeline.{NotificationService}
use notifyx.Handlers.Notifications.{send}
use notifyx.Handlers.Tenants.{TenantService, delete as remove_tenant}
use notifyx.Handlers.Templates.{TemplateRequest, create as add_template}
use notifyx.System.Lifecycle.{sends, ticks}
use notifyx.Scheduler.{tick_once}
use notifyx.System.Integrity.{
  Events, begins, continues, runs, adds_template, removes_tenant, Events-Valid,
}
use notifyx.Tests.{calm, acme, request, tables_with, world_of}

abbrev service : NotificationService (Unit {0})
service = record { producer = true; rate_limiter = none; dedup = none }

abbrev admin : TenantService
admin = record {
  crypto = record { random_bytes = λ n. none; sha256 = λ s. s; hex = λ s. s };
  default_global_rate_cap = 300;
}

abbrev seven : String → Option Uuid
seven s = if str_eq s "7" then some 7 else none

abbrev no_time : String → Option Time
no_time s = none

abbrev greeting : TemplateRequest
greeting = record { name = "hello"; channel = "email"; subject = "Hi"; body = "Dear {{name}}" }

abbrev start : World (Unit {0})
start = world_of (tables_with pending) tt

start-Valid : Valid start.tables
unfolding any
start-Valid = (
  (refl, tt),
  (refl, tt),
  tt,
  (refl, tt),
  tt,
  (refl, tt),
  tt,
  tt,
  (λ i e. absurd (ground arith), tt),
)

abbrev with_template : World (Unit {0})
with_template = (add_template calm seven (some acme) (some greeting) start).1

abbrev with_message : World (Unit {0})
with_message =
    tick_once calm true (send calm service seven no_time (some acme) (some request) with_template).1

abbrev after : World (Unit {0})
after = (remove_tenant calm seven "7" with_message).1

abbrev run : Events calm service admin seven no_time start after
run =
    continues
      (continues
        (continues (continues begins (adds_template acme (some greeting)))
          (runs (sends acme request)))
        (runs (ticks true)))
      (removes_tenant "7")

Events-Valid_example : Valid after.tables
Events-Valid_example = Events-Valid calm service admin seven no_time run start-Valid
