-- ===== src/Kafka/Consumers/Retries.antt =====
-- handleWithRetry of backend/internal/kafka/consumers/consumer.go, over all its attempts.
use notifyx.Prelude.{
  ℕ, zero, suc, ◌*◌, ◌≡◌, refl, ◌⊎◌, inl, inr, Bool, true, false, none, some, List, [], ◌∷◌, arith,
  Error, error_text, ok, err, Result-cases,
}
use notifyx.Domain.{topic_dlq, Message}
use notifyx.Redis.Sets.{second}
use notifyx.Postgres.{Env, World}
use notifyx.Kafka.{publish}
use notifyx.Kafka.Consumers.{
  HandlerFunc, Ending, succeeded, stopped, exhausted, attempts, after_wait, conclude,
  handle_with_retry, retry_backoff, more_attempts, wait_of, later,
}

-- Some attempt succeeded, and it was the last thing that happened.
pub record Delivered {R : Type 0} (handler : HandlerFunc R) (msg : Message) (w' : World R)
    : Type 0 where
  pub before : World R
  pub success : (handler msg before).0 ≡ ok tt
  pub last : (handler msg before).1 ≡ w'

module _ {R : Type 0} (env : Env) (handler : HandlerFunc R) (msg : Message) where
  attempts-Delivered :
      (more : ℕ) (backoff : List ℕ) (w : World R)
      → (attempts env handler msg more backoff w).0.ending ≡ succeeded
      → Delivered handler msg (attempts env handler msg more backoff w).1
  unfolding attempts
  attempts-Delivered zero backoff w h = elim (Result-cases (handler msg w).0) [
    | inl (a, e) ↦ rw (e, attempts) (record { before = w; success = e; last = refl })
    | inr (x, e) ↦ absurd (ground arith)
  ]
  attempts-Delivered (suc more) backoff w h = elim (Result-cases (handler msg w).0) [
    | inl (a, e) ↦ rw (e, attempts) (record { before = w; success = e; last = refl })
    | inr (x, e) ↦
        let step : attempts env handler msg (suc more) backoff w ≡ (
          after_wait (wait_of backoff)
              (attempts env handler msg more (later backoff) (handler msg w).1).0,
          (attempts env handler msg more (later backoff) (handler msg w).1).1,
        ) =
          ground arith in
        rw step (attempts-Delivered more (later backoff) (handler msg w).1 (ground arith))
  ]

  -- The last attempt failed with this error.
  record GaveUp (e : Error) (w' : World R) : Type 0 where
    before : World R
    failure : (handler msg before).0 ≡ err e
    last : (handler msg before).1 ≡ w'

  attempts-GaveUp :
      (more : ℕ) (backoff : List ℕ) (w : World R) (e : Error)
      → (attempts env handler msg more backoff w).0.ending ≡ exhausted e
      → GaveUp e (attempts env handler msg more backoff w).1
  unfolding attempts
  attempts-GaveUp zero backoff w e h = elim (Result-cases (handler msg w).0) [
    | inl (a, f) ↦ absurd (ground arith)
    | inr (x, f) ↦ rw (f, attempts) (record { before = w; failure = ground arith; last = refl })
  ]
  attempts-GaveUp (suc more) backoff w e h = elim (Result-cases (handler msg w).0) [
    | inl (a, f) ↦ absurd (ground arith)
    | inr (x, f) ↦
        let step : attempts env handler msg (suc more) backoff w ≡ (
          after_wait (wait_of backoff)
              (attempts env handler msg more (later backoff) (handler msg w).1).0,
          (attempts env handler msg more (later backoff) (handler msg w).1).1,
        ) =
          ground arith in
        rw step (attempts-GaveUp more (later backoff) (handler msg w).1 e (ground arith))
  ]

  -- The message stands in the dead letter queue, with the error of its last attempt.
  pub record DeadLettered (w' : World R) : Type 0 where
    pub error : Error
    pub before : World R
    pub failure : (handler msg before).0 ≡ err error
    pub published :
        w'.published
        ≡ (topic_dlq, record msg { last_error = error_text error })
          ∷ (handler msg before).1.published

  conclude-DeadLettered :
      (e : Error) (w : World R)
      → GaveUp e w
      → (conclude env handler msg true (exhausted e) w).0 ≡ true
      → DeadLettered (conclude env handler msg true (exhausted e) w).1
  unfolding conclude publish
  conclude-DeadLettered e w g h = record {
    error = e;
    before = g.before;
    failure = g.failure;
    published = ground (arith, g.last);
  }

  Ending-cases :
      (x : Ending) → (x ≡ succeeded) ⊎ ((x ≡ stopped) ⊎ ((e : Error) × (x ≡ exhausted e)))
  Ending-cases succeeded = inl refl
  Ending-cases stopped = inr (inl refl)
  Ending-cases (exhausted e) = inr (inr (e, refl))

  -- For a message that can be decoded, in a consumer that has the producer of the dead letter queue:
  -- when handleWithRetry says that the offset may be committed, the last attempt delivered the
  -- message, or the message stands in the dead letter queue with the error of the last attempt. (A
  -- malformed message, and one whose attempts failed in a consumer without that producer, are dropped
  -- and said to be committed; what Run commits is another matter.)
  pub handle_with_retry_safe :
      (w : World R)
      → (handle_with_retry env true handler (some msg) w).0 ≡ true
      → Delivered handler msg (handle_with_retry env true handler (some msg) w).1
        ⊎ DeadLettered (handle_with_retry env true handler (some msg) w).1
  unfolding handle_with_retry
  handle_with_retry_safe w h =
      let tried = attempts env handler msg more_attempts retry_backoff w in
      elim (Ending-cases tried.0.ending) [
        | inl f ↦
            let step : handle_with_retry env true handler (some msg) w ≡ (true, tried.1) =
              unfold conclude in ground arith in
            inl (rw step (attempts-Delivered more_attempts retry_backoff w f))
        | inr (inl f) ↦ absurd (unfold conclude in ground arith)
        | inr (inr (e, f)) ↦
            let step : handle_with_retry env true handler (some msg) w
                ≡ conclude env handler msg true (exhausted e) tried.1 =
              ground arith in
            inr (
              rw step (
                conclude-DeadLettered e tried.1 (attempts-GaveUp more_attempts retry_backoff w e f)
                  (ground arith)))
      ]

  attempts-ne-stopped :
      (more : ℕ) (backoff : List ℕ) (w : World R)
      → ((n : ℕ) → env.cancelled n ≡ false)
      → (attempts env handler msg more backoff w).0.ending ≡ stopped
      → ⊥
  unfolding attempts
  attempts-ne-stopped zero backoff w go h = ground arith
  attempts-ne-stopped (suc more) backoff w go h = ground (
    arith,
    go (handler msg w).1.calls,
    attempts-ne-stopped more (later backoff) (handler msg w).1 go,
  )

  -- Without faults and shutdowns every message is dealt with: the offset may be committed.
  pub handle_with_retry_total :
      (producer : Bool) (w : World R)
      → ((n : ℕ) → env.fault n ≡ none)
      → ((n : ℕ) → env.cancelled n ≡ false)
      → (handle_with_retry env producer handler (some msg) w).0 ≡ true
  unfolding handle_with_retry conclude publish
  handle_with_retry_total producer w no_fault no_stop =
      let tried = attempts env handler msg more_attempts retry_backoff w in
      ground
        (arith, attempts-ne-stopped more_attempts retry_backoff w no_stop, no_fault tried.1.calls)

  -- The waits between the attempts: none, 1 second, or 1 and 2 seconds. The third entry of
  -- retryBackoff is never waited for.
  attempts-waits :
      (w : World R)
      → let waits = (attempts env handler msg more_attempts retry_backoff w).0.waits in
        (waits ≡ []) ⊎ ((waits ≡ second ∷ []) ⊎ (waits ≡ second ∷ (2 * second) ∷ []))
  unfolding attempts
  attempts-waits w = ground arith
