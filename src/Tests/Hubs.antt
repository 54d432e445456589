-- ===== src/Tests/Hubs.antt =====
-- A user who connects, is sent payloads, and connects again.
use notifyx.Prelude.{◌≡◌, ◌≢◌, refl, true, List, [], ◌∷◌}
use notifyx.Ws.{Conn, panicked, new_hub, register, send_on, send_to_user, is_at}
use notifyx.Ws.Live.{
  Op, registers, sends, perform, perform_all, send_to_user_calm, send_on-register_race,
}

abbrev nobody : Conn
nobody = record { key = ""; closed = true; buffer = [] }

abbrev session : List Op
session = registers "7:ann" ∷ sends 0 "hello" ∷ registers "7:bob" ∷ []

send_to_user_calm_example :
    (send_to_user "7:ann" "news" (perform_all session (new_hub nobody))).0 ≢ panicked
send_to_user_calm_example = send_to_user_calm nobody session "7:ann" "news"

send_on-register_race_example :
    (send_on 0 "news" (register "7:ann" (perform_all session (new_hub nobody)))).0 ≡ panicked
unfolding perform_all perform register send_on is_at
send_on-register_race_example = send_on-register_race nobody session "7:ann" "news" 0 refl
