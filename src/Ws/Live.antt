-- ===== src/Ws/Live.antt =====
-- The hub's map and its connections, over any run of the hub's operations.
use notifyx.Prelude.{
  ℕ, ◌<◌, ◌≤◌, String, ◌≡◌, ◌≢◌, false, some, arith, str_eq_iff, str_eq_refl, length, Option-cases,
  length-append, inl, inr, List, [], ◌∷◌, ◌++◌,
}
use notifyx.Ws.{
  new_hub, Hub, Conn, accepted, panicked, is_at, register, unregister, send_on, send_to_user, pump,
  send_buffer_size,
}

-- The connection that the map has for a key is open, carries the key, and is an old address.
pub record IsLive (h : Hub) : Type 0 where
  pub opened : (k : String) (i : ℕ) → h.conns k ≡ some i → (h.store i).closed ≡ false
  pub keyed : (k : String) (i : ℕ) → h.conns k ≡ some i → (h.store i).key ≡ k
  pub below : (k : String) (i : ℕ) → h.conns k ≡ some i → i < h.count

-- The hub's operations, by any goroutine, on any connection.
pub data Op : Type 0 where
  registers : String → Op
  unregisters pumps : ℕ → Op
  sends : ℕ → String → Op

unfoldable pub perform : Op → Hub → Hub
perform (registers key) h = register key h
perform (unregisters i) h = unregister i h
perform (pumps i) h = pump i h
perform (sends i payload) h = (send_on i payload h).1

unfoldable pub perform_all : List Op → Hub → Hub
perform_all [] h = h
perform_all (o ∷ os) h = perform_all os (perform o h)

register-IsLive : (key : String) (h : Hub) → IsLive h → IsLive (register key h)
unfolding register is_at
register-IsLive key h l = record {
  opened = λ k i e. ground (
    arith,
    l.opened k i,
    l.below k i,
    l.keyed k i,
    l.keyed key i,
    str_eq_iff key k,
    str_eq_refl key,
  );
  keyed = λ k i e. ground (arith, l.keyed k i, l.below k i, str_eq_iff key k);
  below = λ k i e. ground (arith, l.below k i);
}

unregister-IsLive : (i : ℕ) (h : Hub) → IsLive h → IsLive (unregister i h)
unfolding unregister is_at
unregister-IsLive i h l = record {
  opened = λ k j e. ground (arith, l.opened k j);
  keyed = λ k j e. ground (arith, l.keyed k j);
  below = λ k j e. ground (arith, l.below k j);
}

pump-IsLive : (i : ℕ) (h : Hub) → IsLive h → IsLive (pump i h)
unfolding pump
pump-IsLive i h l = record {
  opened = λ k j e. ground (arith, l.opened k j);
  keyed = λ k j e. ground (arith, l.keyed k j);
  below = λ k j e. l.below k j e;
}

send_on-IsLive : (i : ℕ) (p : String) (h : Hub) → IsLive h → IsLive (send_on i p h).1
unfolding send_on
send_on-IsLive i p h l = record {
  opened = λ k j e. ground (arith, l.opened k j);
  keyed = λ k j e. ground (arith, l.keyed k j);
  below = λ k j e. ground (arith, l.below k j);
}

perform_all-IsLive : (os : List Op) (h : Hub) → IsLive h → IsLive (perform_all os h)
unfolding perform_all perform
perform_all-IsLive [] h l = l
perform_all-IsLive (registers key ∷ os) h l =
    perform_all-IsLive os (register key h) (register-IsLive key h l)
perform_all-IsLive (unregisters i ∷ os) h l =
    perform_all-IsLive os (unregister i h) (unregister-IsLive i h l)
perform_all-IsLive (pumps i ∷ os) h l = perform_all-IsLive os (pump i h) (pump-IsLive i h l)
perform_all-IsLive (sends i payload ∷ os) h l =
    perform_all-IsLive os (send_on i payload h).1 (send_on-IsLive i payload h l)

new_hub-IsLive : (c : Conn) → IsLive (new_hub c)
new_hub-IsLive c = record {
  opened = λ k i e. absurd (ground arith);
  keyed = λ k i e. absurd (ground arith);
  below = λ k i e. absurd (ground arith);
}

reached-IsLive : (c : Conn) (os : List Op) → IsLive (perform_all os (new_hub c))
reached-IsLive c os = perform_all-IsLive os (new_hub c) (new_hub-IsLive c)

-- Whatever operations ran on a new hub, a SendToUser that nothing comes between does not panic.
pub send_to_user_calm :
    (c : Conn) (os : List Op) (key payload : String)
    → (send_to_user key payload (perform_all os (new_hub c))).0 ≢ panicked
unfolding send_to_user send_on
send_to_user_calm c os key payload p =
    let h = perform_all os (new_hub c) in
    let l = reached-IsLive c os in
    elim (Option-cases (h.conns key)) [
      | inl e ↦ absurd (ground arith)
      | inr (i, e) ↦ absurd (ground (arith, l.opened key i e))
    ]

-- Where SendToUser accepts a payload for the connection that the map has for the key, the payload is
-- the newest in that connection's buffer, and the buffer is within its size.
send_to_user_accepted :
    (h : Hub) (key payload : String) (i : ℕ)
    → h.conns key ≡ some i
    → (send_to_user key payload h).0 ≡ accepted
    → (((send_to_user key payload h).1.store i).buffer ≡ (h.store i).buffer ++ payload ∷ [])
      × (length ((send_to_user key payload h).1.store i).buffer ≤ send_buffer_size)
unfolding send_to_user send_on
send_to_user_accepted h key payload i e a =
    ground (arith, length-append (h.store i).buffer (payload ∷ []))

-- A reconnect supersedes the old connection: after it, the map has the new connection for the key,
-- also when the old connection is then unregistered, as it is when its socket closes.
unregister-register :
    (c : Conn) (os : List Op) (key : String) (old : ℕ)
    → (perform_all os (new_hub c)).conns key ≡ some old
    → let h = perform_all os (new_hub c) in
      (unregister old (register key h)).conns key ≡ some h.count
unfolding register unregister is_at
unregister-register c os key old e =
    let l = reached-IsLive c os in
    ground (arith, l.below key old e, l.keyed key old e, str_eq_refl key)

-- SendToUser looks the connection up and then sends without the lock: where the same user reconnects
-- in between, the send is on a closed channel and panics.
pub send_on-register_race :
    (c : Conn) (os : List Op) (key payload : String) (i : ℕ)
    → (perform_all os (new_hub c)).conns key ≡ some i
    → (send_on i payload (register key (perform_all os (new_hub c)))).0 ≡ panicked
unfolding register send_on is_at
send_on-register_race c os key payload i e =
    let l = reached-IsLive c os in ground (arith, l.below key i e)
