-- ===== src/Kafka/Consumers.antt =====
-- backend/internal/kafka/consumers/consumer.go: the loop that every channel's consumer runs, with
-- its retries and the dead letter queue. A fetched record whose value does not decode is `none`.
pub mod Retries
pub mod Commits
pub mod Channels
use notifyx.Prelude.{
  ℕ, zero, suc, ◌*◌, String, ◌≡◌, Bool, true, false, Option, none, some, List, [], ◌∷◌, Error,
  error_text, Result, ok, err, if◌then◌else◌,
}
use notifyx.Domain.{topic_dlq, Message}
use notifyx.Redis.Sets.{second}
use notifyx.Postgres.{Env, World, Io, call}
use notifyx.Kafka.{publish}

abbrev pub HandlerFunc : Type 0 → Type 0
HandlerFunc R = Message → Io R (Unit {0})

-- maxRetries is 3: this attempt and two more.
abbrev pub more_attempts : ℕ
more_attempts = 2

abbrev pub retry_backoff : List ℕ
retry_backoff = second ∷ (2 * second) ∷ (4 * second) ∷ []

-- How the attempts end: by a success, by a shutdown during a wait, or with the last error.
pub data Ending : Type 0 where
  succeeded stopped : Ending
  exhausted : Error → Ending

-- The attempts' ending and the waits between them.
pub record Attempts : Type 0 where
  pub ending : Ending
  pub waits : List ℕ

abbrev pub after_wait : ℕ → Attempts → Attempts
after_wait d a = record a { waits = d ∷ a.waits }

wait_of : List ℕ → ℕ
wait_of [] = 0
wait_of (d ∷ ds) = d

later : List ℕ → List ℕ
later [] = []
later (d ∷ ds) = ds

module _ {R : Type 0} (env : Env) (handler : HandlerFunc R) (msg : Message) where
  -- The loop over the attempts: `more` of them may follow this one, and `backoff` starts with the
  -- wait after it.
  unfoldable pub attempts : ℕ → List ℕ → World R → Attempts × World R
  unfolding wait_of later
  attempts zero backoff w =
      let (r, w') = handler msg w in
      elim r [
        | ok _ ↦ (record { ending = succeeded; waits = [] }, w')
        | err e ↦ (record { ending = exhausted e; waits = [] }, w')
      ]
  attempts (suc more) backoff w =
      let (r, w') = handler msg w in
      let rest = attempts more (later backoff) w' in
      elim r [
        | ok _ ↦ (record { ending = succeeded; waits = [] }, w')
        | err e ↦
            if env.cancelled w'.calls
            then (record { ending = stopped; waits = wait_of backoff ∷ [] }, w')
            else (after_wait (wait_of backoff) rest.0, rest.1)
      ]

  -- `producer` is false for the DLQ's own consumer, which drops the message.
  unfoldable pub conclude : Bool → Ending → World R → Bool × World R
  conclude producer succeeded w = (true, w)
  conclude producer stopped w = (false, w)
  conclude false (exhausted e) w = (true, w)
  conclude true (exhausted e) w =
      let (r, w') = publish env topic_dlq (record msg { last_error = error_text e }) w in
      elim r [ ok _ ↦ (true, w') | err e' ↦ (false, w') ]

-- handleWithRetry: whether the offset may be committed.
unfoldable pub handle_with_retry :
    {R : Type 0} → Env → Bool → HandlerFunc R → Option Message → World R → Bool × World R
handle_with_retry env producer handler none w = (true, w)
handle_with_retry env producer handler (some msg) w =
    let (a, w') = attempts env handler msg more_attempts retry_backoff w in
    conclude env handler msg producer a.ending w'

-- What FetchMessage gives: an error, or a record with its offset.
pub data Fetch : Type 0 where
  fetch_failed : Fetch
  fetched : ℕ → Option Message → Fetch

module _ {R : Type 0} (env : Env) (producer : Bool) (handler : HandlerFunc R) where
  -- Run, for as long as FetchMessage gives something: the offsets that it commits, in order.
  unfoldable pub run : List Fetch → World R → List ℕ × World R
  run [] w = ([], w)
  run (fetch_failed ∷ fs) w = let rest = run fs w in if env.cancelled w.calls then ([], w) else rest
  run (fetched offset m ∷ fs) w =
      let (safe, w') = handle_with_retry env producer handler m w in
      let (r, w'') = call env w' in
      let skip = run fs w' in
      let failed = run fs w'' in
      if safe
      then elim r [
        | ok _ ↦ (offset ∷ failed.0, failed.1)
        | err e ↦ if env.cancelled w''.calls then ([], w'') else failed
      ]
      else if env.cancelled w'.calls
      then ([], w')
      else skip
