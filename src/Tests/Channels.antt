-- ===== src/Tests/Channels.antt =====
-- The consumers on concrete messages.
use notifyx.Prelude.{ℕ, suc, ◌<◌, ◌≡◌, refl, true, ◌⊎◌, none, some, List, [], ◌∷◌, arith}
use notifyx.Domain.{Message}
use notifyx.Postgres.{World}
use notifyx.Postgres.Deliveries
use notifyx.Kafka.{publish}
use notifyx.Kafka.Consumers.{fetched, attempts, conclude, handle_with_retry, run}
use notifyx.Kafka.Consumers.Retries.{
  Delivered, DeadLettered, handle_with_retry_safe, handle_with_retry_total,
}
use notifyx.Kafka.Consumers.Commits.{run-skips_unsafe}
use notifyx.Kafka.Consumers.Channels.{handle_email}
use notifyx.Domain.{pending}
use notifyx.Tests.{calm, failing_at, mail, tables_with, world_of}

abbrev idle : World (Unit {0})
idle = world_of (tables_with pending) tt

-- The first call to the provider fails and the second delivers the message.
handle_with_retry_safe_example :
    Delivered
      (handle_email (failing_at 0))
      mail
      (handle_with_retry (failing_at 0) true (handle_email (failing_at 0)) (some mail) idle).1
    ⊎ DeadLettered
        (failing_at 0)
        (handle_email (failing_at 0))
        mail
        (handle_with_retry (failing_at 0) true (handle_email (failing_at 0)) (some mail) idle).1
unfolding handle_with_retry attempts conclude publish handle_email Deliveries.update_status
handle_with_retry_safe_example =
    handle_with_retry_safe (failing_at 0) (handle_email (failing_at 0)) mail idle refl

handle_with_retry_total_example :
    (handle_with_retry calm true (handle_email calm) (some mail) idle).0 ≡ true
handle_with_retry_total_example =
    handle_with_retry_total calm (handle_email calm) mail true idle (λ n. refl) (λ n. refl)

-- Kafka restarts a group at the record behind the last committed offset.
abbrev restart_at : List ℕ → ℕ
restart_at [] = 0
restart_at (o ∷ []) = suc o
restart_at (o ∷ os) = restart_at os

-- A message with no address fails in each attempt, and its publish to the dead letter queue, the
-- first call, fails too.
abbrev nowhere : Message
nowhere = record mail { recipient_email = "" }

run-skips_unsafe_example :
    ((run
        (failing_at 0)
        true
        (handle_email (failing_at 0))
        (fetched 5 (some nowhere) ∷ fetched 6 none ∷ [])
        idle).0
      ≡ 6 ∷ [])
    × (5
        < restart_at
            (run
              (failing_at 0)
              true
              (handle_email (failing_at 0))
              (fetched 5 (some nowhere) ∷ fetched 6 none ∷ [])
              idle).0)
unfolding handle_with_retry attempts conclude publish handle_email
run-skips_unsafe_example =
    run-skips_unsafe (failing_at 0) true (handle_email (failing_at 0)) restart_at 5 6 (some nowhere)
      none idle (λ o. refl) (omega arith) refl refl refl refl
