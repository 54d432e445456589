-- ===== src/Postgres.antt =====
-- The database that backend/internal/repository/postgres works on (backend/migrations has the
-- schema), the world around the program, and db.go. A query is one call to the outside: it may
-- fail, and then it changes nothing.
pub mod Notifications
pub mod Writes
pub mod Deliveries
pub mod Scheduled
pub mod Tenants
pub mod Settings
pub mod Templates
pub mod Reports
pub mod Pages
pub mod References
use notifyx.Prelude.{
  ℕ, suc, ◌+◌, String, ◌≡◌, refl, Bool, true, false, Option, none, some, List, [], ◌∷◌, Error,
  message, wrap, Result, ok, err, arith,
}
use notifyx.Domain.{
  Uuid, Time, Channel, Notification, NotificationDelivery, ScheduledNotification, DlqMessage,
  Tenant, TenantChannel, TenantRateLimit, ApiKey, NotificationTemplate, Topic, Message,
}

pub record Tables : Type 0 where
  pub notifications : List Notification
  pub deliveries : List NotificationDelivery
  pub scheduled : List ScheduledNotification
  pub dlq_messages : List DlqMessage
  pub tenants : List Tenant
  pub tenant_channels : List TenantChannel
  pub tenant_rate_limits : List TenantRateLimit
  pub api_keys : List ApiKey
  pub templates : List NotificationTemplate

-- What the n-th call to the outside meets: the error text if it fails, the time, the value that
-- gen_random_uuid() gives, and the text that Postgres gives with an error code.
pub record Env : Type 0 where
  pub fault : ℕ → Option String
  pub clock : ℕ → Time
  pub fresh : ℕ → Uuid
  pub violation : String → String
  -- Whether the context is cancelled when so many calls were made.
  pub cancelled : ℕ → Bool

-- What a provider accepted: the channel, the address, the subject and the body.
pub record Sent : Type 0 where
  pub channel : Channel
  pub to : String
  pub subject : String
  pub body : String

-- `redis` is the state that the Redis-backed parts and the WebSocket hub keep; `published` is what
-- Kafka has accepted and `provided` what the providers have, the newest first.
pub record World (R : Type 0) : Type 0 where
  pub tables : Tables
  pub published : List (Topic × Message)
  pub provided : List Sent
  pub redis : R
  pub calls : ℕ

abbrev pub Io : Type 0 → Type 0 → Type 0
Io R A = World R → Result A × World R

module _ {R : Type 0} where
  abbrev pub pure : {A : Type 0} → A → Io R A
  pure a w = (ok a, w)

  abbrev pub fail : {A : Type 0} → Error → Io R A
  fail e w = (err e, w)

  infixl 5 ◌>>=◌ ◌>>◌
  abbrev pub ◌>>=◌ : {A B : Type 0} → Io R A → (A → Io R B) → Io R B
  ◌>>=◌ m f w = let (r, w') = m w in elim r [ ok a ↦ f a w' | err e ↦ (err e, w') ]

  abbrev pub ◌>>◌ : {A B : Type 0} → Io R A → Io R B → Io R B
  m >> n = m >>= λ _. n

  -- fmt.Errorf("s: %w", err) on the error of a step
  abbrev pub wrapping : {A : Type 0} → String → Io R A → Io R A
  wrapping s m w = let (r, w') = m w in elim r [ ok a ↦ (ok a, w') | err e ↦ (err (wrap s e), w') ]

  -- An `if err := m; err != nil { log }`: the error goes to the log only.
  abbrev pub logged : Io R (Unit {0}) → Io R (Unit {0})
  logged m w = (ok tt, (m w).1)

  -- One call to the outside.
  unfoldable pub call : Env → Io R (Unit {0})
  call env w = (
    elim (env.fault w.calls) [ none ↦ ok tt | some s ↦ err (message s) ],
    record w { calls = suc w.calls },
  )

  abbrev pub gets : {A : Type 0} → (World R → A) → Io R A
  gets f w = (ok (f w), w)

  -- The transaction's end: the tables of `before` come back unless `fn` and the commit succeed. A
  -- rollback does not take back what was published.
  unfoldable pub end_tx : {A : Type 0} → Env → Tables → Result A → World R → Result A × World R
  unfolding call
  end_tx env before (err e) w = (err e, record w { tables = before })
  end_tx env before (ok a) w =
      let (r, w') = call env w in
      elim r [ ok _ ↦ (ok a, w') | err e ↦ (err e, record w' { tables = before }) ]

  -- WithTx
  unfoldable pub with_tx : {A : Type 0} → Env → Io R A → Io R A
  unfolding end_tx
  with_tx env fn =
      wrapping "begin transaction" (call env) >> λ w. let (r, w') = fn w in end_tx env w.tables r w'

  -- A transaction that fails leaves the tables as they were, whatever its body did.
  pub with_tx-tables_of_err :
      {A : Type 0} (env : Env) (fn : Io R A) (w : World R) {e : Error}
      → (with_tx env fn w).0 ≡ err e
      → (with_tx env fn w).1.tables ≡ w.tables
  unfolding with_tx
  with_tx-tables_of_err env fn w h = ground arith

  -- A transaction that succeeds ran its body on the world after BEGIN, and kept its tables.
  pub with_tx_of_ok :
      {A : Type 0} (env : Env) (fn : Io R A) (w : World R) {a : A}
      → (with_tx env fn w).0 ≡ ok a
      → ((fn (record w { calls = suc w.calls })).0 ≡ ok a)
        × ((with_tx env fn w).1.tables ≡ (fn (record w { calls = suc w.calls })).1.tables)
        × ((with_tx env fn w).1.calls ≡ suc (fn (record w { calls = suc w.calls })).1.calls)
  unfolding with_tx call end_tx
  with_tx_of_ok env fn w h = ground arith
