-- ===== src/Handlers/Templates.antt =====
-- backend/internal/api/handlers/template.go. A request whose body Bind refuses is `none`; the tenant
-- of the context is read where the code reads tenant.ID.
pub mod Scoping
pub mod Stored
use notifyx.Prelude.{
  String, Bool, ◌&&◌, Option, none, some, Error, is_not_found, is_already_exists, not,
  if◌then◌else◌,
}
use notifyx.Domain.{Uuid, Tenant, Channel, email, to_channel, channel_eq}
use notifyx.Postgres.{Env}
use notifyx.Postgres.Templates
use notifyx.Handlers.Response.{
  ErrorText, name_required, invalid_channel, body_required, subject_required, invalid_body,
  template_name_taken, create_template_failed, list_templates_failed, get_template_failed,
  update_template_failed, delete_template_failed, invalid_template_id, template_not_found,
  template_body, templates_body, no_body, Response, err_response, status_ok, status_created,
  status_no_content, status_bad_request, status_not_found, status_conflict,
  status_internal_server_error, Handler, respond, trying, require, accept, missing_or, failing,
  ◌>>=◌, ◌>>◌,
}
use notifyx.Handlers.Requests.{is_blank, is_valid_channel}
use notifyx.Handlers.Notifications.{tenant_id}

pub record TemplateRequest : Type 0 where
  pub name : String
  pub channel : String
  pub subject : String
  pub body : String

-- templateRequest.Validate
unfoldable pub validate_template : TemplateRequest → Option ErrorText
validate_template r =
    if is_blank r.name
    then some name_required
    else if not (is_valid_channel r.channel)
    then some (invalid_channel r.channel)
    else if is_blank r.body
    then some body_required
    else if channel_eq (to_channel r.channel) email && is_blank r.subject
    then some subject_required
    else none

-- The answers of Create and Update to an error of the repository.
abbrev pub create_refused : String → Error → Response
create_refused name e =
    if is_already_exists e
    then err_response status_conflict (template_name_taken name)
    else err_response status_internal_server_error create_template_failed

abbrev pub update_refused : String → Error → Response
update_refused name e =
    if is_not_found e
    then err_response status_not_found template_not_found
    else if is_already_exists e
    then err_response status_conflict (template_name_taken name)
    else err_response status_internal_server_error update_template_failed

module _ {R : Type 0} (env : Env) (parse_uuid : String → Option Uuid) (tenant : Option Tenant) where
  unfoldable pub create : Option TemplateRequest → Handler R Response
  create req = do
    r ← require req (err_response status_bad_request invalid_body)
    accept (validate_template r)
    owner ← tenant_id tenant
    t ←
        trying (Templates.create env owner r.name (to_channel r.channel) r.subject r.body)
          (create_refused r.name)
    respond (record { status = status_created; body = template_body t })

  unfoldable pub list : Handler R Response
  list = do
    owner ← tenant_id tenant
    ts ← trying (Templates.list_by_tenant env owner) (failing list_templates_failed)
    respond (record { status = status_ok; body = templates_body ts })

  -- The id of the path.
  abbrev pub template_param : String → Handler R Uuid
  template_param param =
      require (parse_uuid param) (err_response status_bad_request invalid_template_id)

  unfoldable pub get : String → Handler R Response
  get param = do
    i ← template_param param
    owner ← tenant_id tenant
    t ← trying (Templates.get_by_id env owner i) (missing_or template_not_found get_template_failed)
    respond (record { status = status_ok; body = template_body t })

  unfoldable pub update : String → Option TemplateRequest → Handler R Response
  update param req = do
    i ← template_param param
    r ← require req (err_response status_bad_request invalid_body)
    accept (validate_template r)
    owner ← tenant_id tenant
    t ←
        trying (Templates.update env owner i r.name (to_channel r.channel) r.subject r.body)
          (update_refused r.name)
    respond (record { status = status_ok; body = template_body t })

  unfoldable pub delete : String → Handler R Response
  delete param = do
    i ← template_param param
    owner ← tenant_id tenant
    trying (Templates.delete env owner i) (missing_or template_not_found delete_template_failed)
    respond (record { status = status_no_content; body = no_body })
