-- ===== src/Tests/Sockets.antt =====
-- Connections of one user over WebSocket.
use notifyx.Prelude.{String, ◌≡◌, refl, true, false, some, [], ◌∷◌, none, take, find, arith}
use notifyx.Domain.{Uuid}
use notifyx.Postgres.{World}
use notifyx.Postgres.Tenants
use notifyx.OfflineQueue.{presence_key, push, flush, set_online}
use notifyx.OfflineQueue.Flushes.{queued_for}
use notifyx.Redis.MemoryStrings.{empty_strings}
use notifyx.Redis.MemoryLists.{empty_lists}
use notifyx.Ws.{Conn, conn_key, is_online, send_buffer_size, register, new_hub, send_to_user}
use notifyx.Ws.Connect.{connect, disconnect, admit}
use notifyx.Ws.Connect.Memory.{MemoryServer, memory_server, server_lists}
use notifyx.Ws.Connect.Delivered.{connect_delivers}
use notifyx.Ws.Connect.Superseded.{disconnect_superseded}
use notifyx.Tests.{calm, tenant_tables, world_of}

abbrev nobody : Conn
nobody = record { key = ""; buffer = []; closed = false }

abbrev plain : String → String
plain s = s

abbrev seven : Uuid → String
seven i = "7"

abbrev start : World MemoryServer
start =
    world_of
      (record tenant_tables {
        api_keys = (record { id = 50; tenant_id = 7; key_hash = "secret"; created_at = 1000 }) ∷ [];
      })
      (record { hub = new_hub nobody; texts = empty_strings; queues = empty_lists })

abbrev waiting : World MemoryServer
waiting = (push calm server_lists "7" "ann" "a" start).1

abbrev two_conns : World MemoryServer
two_conns = record start {
  redis = record {
    hub = register (conn_key "7" "ann") (register (conn_key "7" "ann") (new_hub nobody));
    texts = empty_strings;
    queues = empty_lists;
  };
}

disconnect_superseded_example :
    ((memory_server.hub
          (disconnect calm memory_server plain seven true "7" "ann" 0 two_conns).redis).conns
        (conn_key "7" "ann")
      ≡ some 1)
    × (is_online (conn_key "7" "ann") (
          memory_server.hub
            (disconnect calm memory_server plain seven true "7" "ann" 0 two_conns).redis)
        ≡ true)
    × (memory_server.strings.get
          (disconnect calm memory_server plain seven true "7" "ann" 0 two_conns).redis
          (presence_key "7" "ann")
        ≡ none)
unfolding register conn_key
disconnect_superseded_example =
    disconnect_superseded calm memory_server plain seven "7" "ann" 1 0 two_conns refl refl
      (λ e. omega (arith, e)) refl

connect_delivers_example :
    ((memory_server.hub
          (connect calm memory_server plain seven true true "7" "ann" "secret"
            waiting).1.redis).conns
        (conn_key "7" "ann")
      ≡ some 0)
    × (((memory_server.hub
            (connect calm memory_server plain seven true true "7" "ann" "secret"
              waiting).1.redis).store
          0).buffer
        ≡ take send_buffer_size (queued_for calm server_lists "7" "ann" waiting))
    × (queued_for calm server_lists "7" "ann"
          (connect calm memory_server plain seven true true "7" "ann" "secret" waiting).1
        ≡ [])
unfolding connect admit Tenants.get_tenant_by_key_hash find push flush set_online send_to_user
    register
connect_delivers_example =
    connect_delivers calm memory_server plain seven "7" "ann" "secret" waiting {i = 0} (λ n. refl)
      refl
