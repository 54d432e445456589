-- ===== src/Handlers/Response.antt =====
-- Responses: the status and the error text, or the body of a success; and handlers as steps that
-- may end early with a response (`return errResponse(…)`).
use notifyx.Prelude.{
  ℕ, String, Bool, true, false, Option, none, some, List, Error, ok, err, ◌≡◌, refl, ◌⊎◌, inl, inr,
  is_not_found, if◌then◌else◌,
}
use notifyx.Domain.{
  Uuid, Time, Channel, Status, Notification, NotificationDelivery, Tenant, TenantChannel,
  TenantRateLimit, ApiKey, AnalyticsSummary, ChannelBreakdown, DlqTrendPoint, NotificationTemplate,
}
use notifyx.Postgres.{World, Io}

-- The message of an ErrorResponse.
pub data ErrorText : Type 0 where
  missing_tenant invalid_body process_failed send_failed schedule_failed internal_error : ErrorText
  invalid_channel invalid_priority invalid_status : String → ErrorText
  body_required recipients_empty scheduled_at_required scheduled_at_format scheduled_at_past :
      ErrorText
  recipient_email_required subject_required recipient_token_required : ErrorText
  recipient_phone_required recipient_id_required : ErrorText
  at_recipient : ℕ → ErrorText → ErrorText
  verify_channel_failed : ErrorText
  channel_disabled : String → ErrorText
  invalid_template_id template_not_found resolve_template_failed : ErrorText
  template_channel_mismatch : Channel → Channel → ErrorText
  invalid_notification_id notification_not_found get_notification_failed get_deliveries_failed :
      ErrorText
  name_required global_cap_range max_per_min_range : ErrorText
  key_generation_failed create_tenant_failed list_tenants_failed get_tenant_failed : ErrorText
  update_tenant_failed delete_tenant_failed verify_tenant_failed store_key_failed : ErrorText
  list_keys_failed revoke_key_failed update_channels_failed fetch_channels_failed : ErrorText
  get_channels_failed update_limits_failed fetch_limits_failed get_limits_failed : ErrorText
  invalid_tenant_id tenant_not_found invalid_key_id key_not_found invalid_query : ErrorText
  from_format to_format summary_failed breakdown_failed trend_failed : ErrorText
  template_name_taken unknown_channel unknown_status : String → ErrorText
  create_template_failed list_templates_failed get_template_failed : ErrorText
  update_template_failed delete_template_failed list_notifications_failed : ErrorText
  connect_params_required key_of_other_tenant upgrade_failed : ErrorText
  missing_api_key invalid_api_key authentication_failed : ErrorText

pub record BatchResult : Type 0 where
  pub index : ℕ
  pub notification_id : Option Uuid
  pub error : Option ErrorText

-- What /health says of a part.
pub data CheckResult : Type 0 where
  check_ok check_disabled check_configured : CheckResult
  check_down : Error → CheckResult

-- `status` is "ok", or "degraded" where it is false.
pub record HealthReport : Type 0 where
  pub healthy : Bool
  pub database : CheckResult
  pub redis : CheckResult
  pub kafka : CheckResult

pub data Body : Type 0 where
  error_body : ErrorText → Body
  sent_body : Uuid → Status → Body
  scheduled_body : Uuid → Status → Time → Body
  batch_body : List BatchResult → Body
  detail_body : Notification → List NotificationDelivery → Body
  -- The rows, the total, the page and the limit.
  history_body : List Notification → ℕ → ℕ → ℕ → Body
  -- NoContent
  no_body : Body
  -- The id, the name and the raw key.
  new_tenant_body : Uuid → String → String → Body
  tenant_body : Tenant → Body
  tenants_body : List Tenant → Body
  -- The id and the raw key.
  new_key_body : Uuid → String → Body
  keys_body : List ApiKey → Body
  channels_body : List TenantChannel → Body
  -- The global cap and the limits of the channels.
  limits_body : ℕ → List TenantRateLimit → Body
  analytics_body :
      AnalyticsSummary → List ChannelBreakdown → List DlqTrendPoint → Time → Time → Body
  template_body : NotificationTemplate → Body
  templates_body : List NotificationTemplate → Body
  health_body : HealthReport → Body

pub record Response : Type 0 where
  pub status : ℕ
  pub body : Body

abbrev pub err_response : ℕ → ErrorText → Response
err_response status text = record { status = status; body = error_body text }

-- The net/http constants.
abbrev pub status_ok : ℕ
status_ok = 200

abbrev pub status_created : ℕ
status_created = 201

abbrev pub status_no_content : ℕ
status_no_content = 204

abbrev pub status_conflict : ℕ
status_conflict = 409

abbrev pub status_service_unavailable : ℕ
status_service_unavailable = 503

abbrev pub status_bad_request : ℕ
status_bad_request = 400

abbrev pub status_unauthorized : ℕ
status_unauthorized = 401

abbrev pub status_forbidden : ℕ
status_forbidden = 403

abbrev pub status_not_found : ℕ
status_not_found = 404

abbrev pub status_unprocessable_entity : ℕ
status_unprocessable_entity = 422

abbrev pub status_internal_server_error : ℕ
status_internal_server_error = 500

-- How a step of a handler ends; the last is a panic.
pub data Flow (A : Type 0) : Type 0 where
  goes_on : A → Flow A
  responds : Response → Flow A
  panics : Flow A

abbrev pub Handler : Type 0 → Type 0 → Type 0
Handler R A = World R → Flow A × World R

module _ {R : Type 0} where
  abbrev pub respond : {A : Type 0} → Response → Handler R A
  respond r w = (responds r, w)

  abbrev pub goes : {A : Type 0} → A → Handler R A
  goes a w = (goes_on a, w)

  infixl 5 ◌>>=◌ ◌>>◌
  abbrev pub ◌>>=◌ : {A B : Type 0} → Handler R A → (A → Handler R B) → Handler R B
  ◌>>=◌ m f w =
      let (r, w') = m w in
      elim r [ goes_on a ↦ f a w' | responds x ↦ (responds x, w') | panics ↦ (panics, w') ]

  abbrev pub ◌>>◌ : {A B : Type 0} → Handler R A → Handler R B → Handler R B
  m >> n = m >>= λ _. n

  -- A call whose error ends the handler with a response.
  abbrev pub trying : {A : Type 0} → Io R A → (Error → Response) → Handler R A
  trying m on_error w =
      let (r, w') = m w in elim r [ ok a ↦ (goes_on a, w') | err e ↦ (responds (on_error e), w') ]

  abbrev pub unless : Bool → Response → Handler R (Unit {0})
  unless true r w = (goes_on tt, w)
  unless false r w = (responds r, w)

  -- `x`, or the response where there is none.
  abbrev pub require : {A : Type 0} → Option A → Response → Handler R A
  require none r w = (responds r, w)
  require (some a) r w = (goes_on a, w)

  -- `if err := req.Validate(); err != nil` with status 422
  abbrev pub accept : Option ErrorText → Handler R (Unit {0})
  accept none w = (goes_on tt, w)
  accept (some text) w = (responds (err_response status_unprocessable_entity text), w)

-- `if errors.Is(err, ErrNotFound)` with status 404, and 500 for any other error.
abbrev pub missing_or : ErrorText → ErrorText → Error → Response
missing_or missing failed e =
    if is_not_found e
    then err_response status_not_found missing
    else err_response status_internal_server_error failed

-- A response with status 500.
abbrev pub failing : ErrorText → Error → Response
failing text e = err_response status_internal_server_error text

pub Flow-cases :
    {A : Type 0} (f : Flow A)
    → ((a : A) × (f ≡ goes_on a)) ⊎ (((x : Response) × (f ≡ responds x)) ⊎ (f ≡ panics))
Flow-cases (goes_on a) = inl (a, refl)
Flow-cases (responds x) = inr (inl (x, refl))
Flow-cases panics = inr (inr refl)

unfoldable pub is_error : Response → Bool
is_error r = elim r.body [
  | error_body text ↦ true
  | sent_body i s ↦ false
  | scheduled_body i s t ↦ false
  | batch_body rs ↦ false
  | detail_body n ds ↦ false
  | history_body ns total page limit ↦ false
  | no_body ↦ false
  | new_tenant_body i name key ↦ false
  | tenant_body t ↦ false
  | tenants_body ts ↦ false
  | new_key_body i key ↦ false
  | keys_body ks ↦ false
  | channels_body cs ↦ false
  | limits_body cap ls ↦ false
  | analytics_body s cs ps from to ↦ false
  | template_body t ↦ false
  | templates_body ts ↦ false
  | health_body h ↦ false
]
