-- ===== src/Ws.antt =====
-- backend/internal/ws/hub.go: the connections, one live at most for each tenant and user. A
-- connection is a number, its address in `store`; the buffer of its channel is a list of payloads,
-- the oldest first. A lookup in SendToUser and the send that follows it are two steps, since the
-- lock is given back between them.
pub mod Live
pub mod Connect
use notifyx.Prelude.{
  ℕ, suc, String, ◌<>◌, Bool, true, false, Option, none, some, List, [], ◌∷◌, ◌++◌, ltb, ◌==◌,
  if◌then◌else◌, str_eq, length,
}

abbrev pub send_buffer_size : ℕ
send_buffer_size = 32

pub record Conn : Type 0 where
  pub key : String
  pub closed : Bool
  pub buffer : List String

-- `count` is the address of the next connection.
pub record Hub : Type 0 where
  pub conns : String → Option ℕ
  pub store : ℕ → Conn
  pub count : ℕ

-- NewHub; what `store` has at addresses that are not in use does not matter.
abbrev pub new_hub : Conn → Hub
new_hub c = record { conns = λ k. none; store = λ i. c; count = 0 }

unfoldable pub conn_key : String → String → String
conn_key tenant_id user_id = tenant_id <> (":" <> user_id)

unfoldable pub is_at : Option ℕ → ℕ → Bool
is_at none i = false
is_at (some j) i = j == i

-- close(old.send)
abbrev pub closing : Conn → Conn
closing c = record c { closed = true }

-- register: the new connection's address is the old `count`.
unfoldable pub register : String → Hub → Hub
unfolding is_at
register key h = record {
  conns = λ k. if str_eq key k then some h.count else h.conns k;
  store = λ i.
      if i == h.count
      then record { key = key; closed = false; buffer = [] }
      else if is_at (h.conns key) i
      then closing (h.store i)
      else h.store i;
  count = suc h.count;
}

unfoldable pub unregister : ℕ → Hub → Hub
unfolding is_at
unregister i h =
    let key = (h.store i).key in
    if is_at (h.conns key) i
    then record h { conns = λ k. if str_eq key k then none else h.conns k }
    else h

unfoldable pub is_online : String → Hub → Bool
is_online key h = elim (h.conns key) [ none ↦ false | some i ↦ true ]

-- What a send on the channel does: a send on a closed channel panics, one on a full channel takes
-- the default case.
pub data Sending : Type 0 where
  accepted dropped panicked : Sending

unfoldable pub send_on : ℕ → String → Hub → Sending × Hub
send_on i payload h =
    let c = h.store i in
    if c.closed
    then (panicked, h)
    else if ltb (length c.buffer) send_buffer_size
    then (
      accepted,
      record h {
        store = λ j. if j == i then record c { buffer = c.buffer ++ payload ∷ [] } else h.store j;
      },
    )
    else (dropped, h)

-- SendToUser, with no step of another goroutine between the lookup and the send; `false` where there
-- is no connection or its buffer is full.
unfoldable pub send_to_user : String → String → Hub → Sending × Hub
unfolding send_on
send_to_user key payload h = elim (h.conns key) [
  | none ↦ (dropped, h)
  | some i ↦ send_on i payload h
]

rest_of : List String → List String
rest_of [] = []
rest_of (p ∷ ps) = ps

-- writePump takes the oldest payload out of the channel.
unfoldable pub pump : ℕ → Hub → Hub
unfolding rest_of
pump i h = record h {
  store =
      λ j. if j == i then record (h.store j) { buffer = rest_of (h.store j).buffer } else h.store j;
}
