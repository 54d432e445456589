-- ===== src/Handlers/Notifications/Access.antt =====
-- What the checks before a send read, and what a tenant can see and send.
use notifyx.Prelude.{◌≢◌, String, ◌≡◌, true, Option, arith}
use notifyx.Domain.{Uuid, Time, Channel, to_channel}
use notifyx.Postgres.{Env, World}
use notifyx.Postgres.Settings
use notifyx.Postgres.Settings.{enabled_in}
use notifyx.Postgres.Templates
use notifyx.Template.{Vars}
use notifyx.Handlers.Response.{is_error, Response, goes_on, responds, panics}
use notifyx.Handlers.Pipeline.{NotificationService}
use notifyx.Handlers.Pipeline.Sending.{Untouched}
use notifyx.Handlers.Notifications.{require_enabled, resolve_template, content}

module _ {R : Type 0} (env : Env) (svc : NotificationService R) (parse_uuid : String → Option Uuid)
    (parse_time : String → Option Time) where
  pub require_enabled-Untouched :
      (t : Uuid) (channel : String) (w : World R)
      → Untouched w (require_enabled env svc parse_uuid parse_time t channel w).1
  unfolding require_enabled Settings.is_enabled
  require_enabled-Untouched t channel w = ground arith

  -- The check passes only for a channel that is enabled.
  pub require_enabled_passes :
      (t : Uuid) (channel : String) (w : World R)
      → (require_enabled env svc parse_uuid parse_time t channel w).0 ≡ goes_on tt
      → enabled_in w.tables.tenant_channels t (to_channel channel) ≡ true
  unfolding require_enabled Settings.is_enabled
  require_enabled_passes t channel w h = ground arith

  pub content-Untouched :
      (t : Uuid) (text : String) (c : Channel) (vars : Vars) (subject body : String) (w : World R)
      → Untouched w (content env svc parse_uuid parse_time t text c vars subject body w).1
  unfolding content resolve_template Templates.get_by_id
  content-Untouched t text c vars subject body w = ground arith

  pub require_enabled_stops :
      (t : Uuid) (channel : String) (w : World R) {x : Response}
      → (require_enabled env svc parse_uuid parse_time t channel w).0 ≡ responds x
      → is_error x ≡ true
  unfolding require_enabled Settings.is_enabled is_error
  require_enabled_stops t channel w h = ground arith

  pub content_stops :
      (t : Uuid) (text : String) (c : Channel) (vars : Vars) (subject body : String) (w : World R)
      {x : Response}
      → (content env svc parse_uuid parse_time t text c vars subject body w).0 ≡ responds x
      → is_error x ≡ true
  unfolding content resolve_template Templates.get_by_id is_error
  content_stops t text c vars subject body w h = ground arith

  pub require_enabled_calm :
      (t : Uuid) (channel : String) (w : World R)
      → (require_enabled env svc parse_uuid parse_time t channel w).0 ≢ panics
  unfolding require_enabled Settings.is_enabled
  require_enabled_calm t channel w h = absurd (ground arith)

  pub content_calm :
      (t : Uuid) (text : String) (c : Channel) (vars : Vars) (subject body : String) (w : World R)
      → (content env svc parse_uuid parse_time t text c vars subject body w).0 ≢ panics
  unfolding content resolve_template Templates.get_by_id
  content_calm t text c vars subject body w h = absurd (ground arith)
