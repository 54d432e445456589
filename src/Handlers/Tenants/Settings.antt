-- ===== src/Handlers/Tenants/Settings.antt =====
-- The handlers UpdateChannels, UpdateRateLimits, GetChannels, GetRateLimits and Analytics of
-- backend/internal/api/handlers/tenant.go, with the requests' Validate methods. `parse_time` is
-- time.Parse with time.RFC3339.
use notifyx.Prelude.{
  ◌-◌, ◌*◌, String, Bool, Option, none, some, List, [], ◌∷◌, not, if◌then◌else◌, ℤ, is_positive,
  to_nat,
}
use notifyx.Domain.{Uuid, Time, to_channel, Tenant}
use notifyx.Postgres.{Env, Io, with_tx, pure}
use notifyx.Postgres.{◌>>=◌ as ◌after◌, ◌>>◌ as ◌next◌}
use notifyx.Postgres.Tenants
use notifyx.Postgres.Settings
use notifyx.Postgres.Reports
use notifyx.Postgres.Reports.{day_length}
use notifyx.Handlers.Response.{
  ErrorText, invalid_channel, global_cap_range, max_per_min_range, update_channels_failed,
  fetch_channels_failed, get_channels_failed, update_limits_failed, fetch_limits_failed,
  get_limits_failed, invalid_query, from_format, to_format, summary_failed, breakdown_failed,
  trend_failed, invalid_body, channels_body, limits_body, analytics_body, Response, err_response,
  status_ok, status_bad_request, Handler, respond, goes, trying, require, accept, failing, ◌>>=◌,
  ◌>>◌,
}
use notifyx.Handlers.Tenants.{tenant_param, verify_tenant}
use notifyx.Handlers.Requests.{is_blank, is_valid_channel}

pub record ChannelSetting : Type 0 where
  pub channel : String
  pub enabled : Bool

pub record RateLimitSetting : Type 0 where
  pub channel : String
  pub max_per_min : ℤ

pub record UpdateRateLimitsRequest : Type 0 where
  pub global_cap : Option ℤ
  pub rate_limits : List RateLimitSetting

pub record AnalyticsQueryParams : Type 0 where
  pub from : String
  pub to : String

-- updateChannelsRequest.Validate
unfoldable pub validate_channels : List ChannelSetting → Option ErrorText
validate_channels [] = none
validate_channels (c ∷ cs) =
    let rest = validate_channels cs in
    if not (is_valid_channel c.channel) then some (invalid_channel c.channel) else rest

unfoldable pub validate_limits : List RateLimitSetting → Option ErrorText
validate_limits [] = none
validate_limits (l ∷ ls) =
    let rest = validate_limits ls in
    if not (is_valid_channel l.channel)
    then some (invalid_channel l.channel)
    else if not (is_positive l.max_per_min)
    then some max_per_min_range
    else rest

-- updateRateLimitsRequest.Validate
unfoldable pub validate_rate_limits : UpdateRateLimitsRequest → Option ErrorText
unfolding validate_limits
validate_rate_limits r = elim r.global_cap [
  | none ↦ validate_limits r.rate_limits
  | some cap ↦
      if not (is_positive cap) then some global_cap_range else validate_limits r.rate_limits
]

module _ {R : Type 0} (env : Env) where
  -- The loop of UpdateChannels in its transaction.
  unfoldable pub upsert_channels : Uuid → List ChannelSetting → Io R (Unit {0})
  upsert_channels i [] = pure tt
  upsert_channels i (c ∷ cs) =
      Settings.upsert_channel env i (to_channel c.channel) c.enabled next upsert_channels i cs

  -- The loop of UpdateRateLimits over the channels' limits.
  unfoldable pub upsert_limits : Uuid → List RateLimitSetting → Io R (Unit {0})
  upsert_limits i [] = pure tt
  upsert_limits i (l ∷ ls) =
      Settings.upsert_limit env i (to_channel l.channel) (to_nat l.max_per_min)
      next upsert_limits i ls

  -- `if req.GlobalCap != nil`: the tenant with its new cap, or as it was.
  unfoldable pub set_cap : Uuid → Tenant → Option ℤ → Io R Tenant
  set_cap i t none = pure t
  set_cap i t (some cap) = Tenants.update_global_rate_cap env i (to_nat cap)

  -- What UpdateRateLimits does in its transaction.
  unfoldable pub set_limits : Uuid → Tenant → UpdateRateLimitsRequest → Io R Tenant
  unfolding set_cap upsert_limits
  set_limits i t r = set_cap i t r.global_cap after λ t'. upsert_limits i r.rate_limits next pure t'

module _ {R : Type 0} (env : Env) (parse_uuid : String → Option Uuid) where
  unfoldable pub update_channels : String → Option (List ChannelSetting) → Handler R Response
  unfolding upsert_channels
  update_channels param req = do
    i ← tenant_param env parse_uuid param
    cs ← require req (err_response status_bad_request invalid_body)
    accept (validate_channels cs)
    verify_tenant env parse_uuid i
    trying (with_tx env (upsert_channels env i cs)) (failing update_channels_failed)
    rows ← trying (Settings.channels_by_tenant_id env i) (failing fetch_channels_failed)
    respond (record { status = status_ok; body = channels_body rows })

  unfoldable pub update_rate_limits : String → Option UpdateRateLimitsRequest → Handler R Response
  unfolding set_limits
  update_rate_limits param req = do
    i ← tenant_param env parse_uuid param
    r ← require req (err_response status_bad_request invalid_body)
    accept (validate_rate_limits r)
    t ← verify_tenant env parse_uuid i
    t' ← trying (with_tx env (set_limits env i t r)) (failing update_limits_failed)
    rows ← trying (Settings.limits_by_tenant_id env i) (failing fetch_limits_failed)
    respond (record { status = status_ok; body = limits_body t'.global_rate_cap rows })

  unfoldable pub get_channels : String → Handler R Response
  get_channels param = do
    i ← tenant_param env parse_uuid param
    verify_tenant env parse_uuid i
    rows ← trying (Settings.channels_by_tenant_id env i) (failing get_channels_failed)
    respond (record { status = status_ok; body = channels_body rows })

  unfoldable pub get_rate_limits : String → Handler R Response
  get_rate_limits param = do
    i ← tenant_param env parse_uuid param
    t ← verify_tenant env parse_uuid i
    rows ← trying (Settings.limits_by_tenant_id env i) (failing get_limits_failed)
    respond (record { status = status_ok; body = limits_body t.global_rate_cap rows })

  -- A time of the query, or the default where it is empty.
  unfoldable pub time_or : (String → Option Time) → String → Time → ErrorText → Handler R Time
  time_or parse_time text fallback bad =
      if is_blank text
      then goes fallback
      else require (parse_time text) (err_response status_bad_request bad)

  -- Analytics; to.AddDate(0, 0, -30) in UTC, where every day has 24 hours.
  unfoldable pub analytics :
      (String → Option Time) → String → Option AnalyticsQueryParams → Handler R Response
  unfolding time_or
  analytics parse_time param query = do
    i ← tenant_param env parse_uuid param
    verify_tenant env parse_uuid i
    q ← require query (err_response status_bad_request invalid_query)
    now ← λ w. goes (env.clock w.calls) w
    to ← time_or parse_time q.to now to_format
    from ← time_or parse_time q.from (to - 30 * day_length) from_format
    s ← trying (Reports.summary env i from to) (failing summary_failed)
    cs ← trying (Reports.channel_breakdown env i from to) (failing breakdown_failed)
    ps ← trying (Reports.dlq_trend env i from to) (failing trend_failed)
    respond (record { status = status_ok; body = analytics_body s cs ps from to })
