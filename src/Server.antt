-- ===== src/Server.antt =====
-- How main and startConsumers of backend/cmd/server/main.go put the parts together, with Go's
-- interfaces over pointers that may be nil. `P`, `L`, `D` and `Q` stand for what a producer, a limiter, a
-- deduplicator and an offline queue are; their constructors succeed here, since main ends where one
-- of them fails.
pub mod Unconfigured
use notifyx.Prelude.{
  String, Bool, true, false, not, Option, none, some, List, [], ◌∷◌, ◌++◌, ok, err, Result, Error,
  if◌then◌else◌, str_eq,
}
use notifyx.Domain.{Uuid, Channel, ScheduledNotification, Notification, NotificationDelivery}
use notifyx.Postgres.{Env, World, Io}
use notifyx.Postgres.Notifications
use notifyx.Postgres.Deliveries
use notifyx.Scheduler.{first_delivery, publish_and_mark}
use notifyx.Config.{Config}

-- A value of an interface type: nil, or a pointer, which may itself be nil.
pub data Interface (A : Type 0) : Type 0 where
  nil_interface : Interface A
  pointer : Option A → Interface A

-- `i == nil`
unfoldable pub is_nil : {A : Type 0} → Interface A → Bool
is_nil nil_interface = true
is_nil (pointer p) = false

-- What a call of a method through the interface needs: a nil pointer is dereferenced in the method.
pub data Callee (A : Type 0) : Type 0 where
  method_of : A → Callee A
  nil_dereference : Callee A

unfoldable pub callee : {A : Type 0} → Interface A → Callee A
callee nil_interface = nil_dereference
callee (pointer none) = nil_dereference
callee (pointer (some a)) = method_of a

-- `if prod != nil { prodIface = prod }`
unfoldable pub nil_safe : {A : Type 0} → Option A → Interface A
nil_safe none = nil_interface
nil_safe (some a) = pointer (some a)

pub data ConsumerName : Type 0 where
  inapp_consumer dlq_consumer email_consumer sms_consumer push_consumer : ConsumerName

-- startConsumers: the consumers that run, in the order in which they are started.
unfoldable pub start_consumers : Config → List ConsumerName
start_consumers cfg =
    inapp_consumer
      ∷ dlq_consumer
      ∷ (if str_eq cfg.resend_api_key "" then [] else email_consumer ∷ [])
    ++ (if str_eq cfg.fast2sms_api_key "" then [] else sms_consumer ∷ [])
    ++ (if str_eq cfg.firebase_credentials_json "" then [] else push_consumer ∷ [])

-- What main hands to the parts; `replayer` is none where no replayer runs.
pub record Parts (P L D Q : Type 0) : Type 0 where
  pub handler_producer : Interface P
  pub handler_rate_limiter : Interface L
  pub handler_dedup : Interface D
  pub scheduler_producer : Interface P
  pub replayer_producer : Option (Interface P)
  pub consumers : List ConsumerName
  pub ws_queue : Option Q
  pub health_redis : Bool
  pub health_kafka : Bool

-- A pointer that is set only where its variable of the configuration is.
unfoldable pub when_set : {A : Type 0} → String → A → Option A
when_set text a = if str_eq text "" then none else some a

-- main, up to the start of the server. An assignment of a pointer to an interface makes an interface
-- that is not nil.
unfoldable pub wire : {P L D Q : Type 0} → Config → P → L → D → Q → Parts P L D Q
unfolding when_set nil_safe start_consumers
wire cfg p l d q = record {
  handler_producer = pointer (when_set cfg.kafka_bootstrap_servers p);
  handler_rate_limiter = pointer (when_set cfg.redis_url l);
  handler_dedup = pointer (when_set cfg.redis_url d);
  scheduler_producer = pointer (when_set cfg.kafka_bootstrap_servers p);
  replayer_producer = when_set cfg.redis_url (nil_safe (when_set cfg.kafka_bootstrap_servers p));
  consumers = if str_eq cfg.kafka_bootstrap_servers "" then [] else start_consumers cfg;
  ws_queue = when_set cfg.redis_url q;
  health_redis = not (str_eq cfg.redis_url "");
  health_kafka = not (str_eq cfg.kafka_bootstrap_servers "");
}

module _ {R : Type 0} {P : Type 0} (env : Env) where
  -- The end of fireOne with the producer behind its interface: `none` is a panic in a goroutine that
  -- nothing recovers, which ends the process.
  unfoldable pub publish_through :
      Interface P
      → ScheduledNotification
      → Notification
      → NotificationDelivery
      → World R
      → Option (World R)
  unfolding is_nil callee
  publish_through producer sn n d w = if is_nil producer then some w else elim (callee producer) [
    | method_of p ↦ some (publish_and_mark env sn n d w)
    | nil_dereference ↦ none
  ]

  -- fireOne with the producer behind its interface.
  unfoldable pub fire_through : Interface P → ScheduledNotification → World R → Option (World R)
  unfolding publish_through
  fire_through producer sn w =
      let (r, w1) = Notifications.get_by_id env sn.notification_id w in
      elim r [
        | err e ↦ some w1
        | ok n ↦
            let (rows, w2) = Deliveries.get_by_notification_id env n.id w1 in
            elim (first_delivery rows) [
              | none ↦ some w2
              | some d ↦ publish_through producer sn n d w2
            ]
      ]

-- How the rate limit of processSend is decided through the interface.
pub data Limiting : Type 0 where
  not_limited crashes : Limiting
  limited_by_call : Limiting

unfoldable pub limiting : {L : Type 0} → Interface L → Limiting
unfolding is_nil callee
limiting limiter =
    if is_nil limiter
    then not_limited
    else elim (callee limiter) [ method_of l ↦ limited_by_call | nil_dereference ↦ crashes ]
