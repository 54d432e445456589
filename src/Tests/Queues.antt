-- ===== src/Tests/Queues.antt =====
-- An offline queue in memory.
use notifyx.Prelude.{◌≡◌, refl, [], ◌∷◌, ◌++◌, ok}
use notifyx.Postgres.{World}
use notifyx.OfflineQueue.{push, flush, flush_amid, offline_key}
use notifyx.OfflineQueue.Flushes.{queued_for, push_all, flush-push_all, flush_amid-push}
use notifyx.Redis.MemoryLists.{MemoryLists, memory_lists, empty_lists}
use notifyx.Tests.{calm, tenant_tables, world_of}

abbrev start : World MemoryLists
start = world_of tenant_tables empty_lists

flush-push_all_example :
    ((flush calm memory_lists "7" "ann"
        (push_all calm memory_lists "7" "ann" ("a" ∷ "b" ∷ []) start)).0
      ≡ ok (queued_for calm memory_lists "7" "ann" start ++ "a" ∷ "b" ∷ []))
    × (queued_for calm memory_lists "7" "ann"
          (flush calm memory_lists "7" "ann"
            (push_all calm memory_lists "7" "ann" ("a" ∷ "b" ∷ []) start)).1
        ≡ [])
flush-push_all_example =
    flush-push_all calm memory_lists "7" "ann" ("a" ∷ "b" ∷ []) start (λ n. refl)

abbrev one_queued : World MemoryLists
one_queued = (push calm memory_lists "7" "ann" "a" start).1

flush_amid-push_example :
    ((flush_amid calm memory_lists (push calm memory_lists "7" "ann" "b") "7" "ann" one_queued).0
      ≡ ok ("a" ∷ []))
    × (queued_for calm memory_lists "7" "ann"
          (flush_amid calm memory_lists
            (push calm memory_lists "7" "ann" "b")
            "7"
            "ann"
            one_queued).1
        ≡ [])
unfolding push offline_key
flush_amid-push_example =
    flush_amid-push calm memory_lists "7" "ann" "b" "a" [] one_queued (λ n. refl) refl
