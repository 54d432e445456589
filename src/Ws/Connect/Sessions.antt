-- ===== src/Ws/Connect/Sessions.antt =====
-- What the steps of Connect in backend/internal/ws/handler.go do to the hub and the offline queue.
use Prim.Native.Char.{Char, code}
use text.Mathlib.TextLemmas.{cons-append, head-eq_of_cons-eq}
use notifyx.Prelude.{
  ℕ, zero, suc, ◌+◌, ◌-◌, ◌≤◌, ltb, String, ◌<>◌, ◌≡◌, ◌∙◌, refl, sym, ap, true, false, none, some,
  List, [], ◌∷◌, ◌++◌, arith, str_eq, str_eq_iff, str_eq_refl, Bool-cases, inl, inr, take, length,
  length-append, ==_refl,
}
use mathlib.Core.List.{append_assoc, append-nil}
use notifyx.Domain.{Uuid}
use notifyx.Postgres.{Env, World}
use notifyx.Handlers.Response.{goes_on}
use notifyx.OfflineQueue.{
  offline_key, presence_key, presence_ttl, flush, set_online, flush_amid, clear_queue,
}
use notifyx.OfflineQueue.Flushes.{queued_for, flush_lem}
use notifyx.Ws.{Hub, accepted, dropped, conn_key, register, send_on, send_to_user, send_buffer_size}
use notifyx.Ws.Connect.{Server, send_all, record_presence, pending_of, flush_to_conn}

-- The keys of the presence records and of the offline queues differ.
presence_key-offline_key : (t u v x : String) → str_eq (presence_key t u) (offline_key v x) ≡ false
unfolding presence_key offline_key
presence_key-offline_key t u v x = elim (Bool-cases (str_eq (presence_key t u) (offline_key v x))) [
  | inr e ↦ e
  | inl e ↦
      let same : "presence:" <> (t <> (":" <> u)) ≡ "offline:" <> (v <> (":" <> x)) =
        (str_eq_iff (presence_key t u) (offline_key v x)).0 e in
      let p : Char = "p" in
      let o : Char = "o" in
      let heads : p ≡ o = head-eq_of_cons-eq (
        sym (cons-append p "resence:" (t <> (":" <> u)))
        ∙ same
        ∙ cons-append o "ffline:" (v <> (":" <> x))) in
      absurd (ground (arith, ap code heads))
]

-- A buffer with room has a position left, and one position less after a send.
room_left :
    (m : ℕ)
    → ltb m send_buffer_size ≡ true
    → (n : ℕ) × (send_buffer_size - m ≡ suc n) × (send_buffer_size - (m + 1) ≡ n)
room_left m h = (send_buffer_size - (m + 1), ground arith, refl)

-- A send on an open connection with room, and on a full one.
send_to_user-room :
    (key p : String) (h : Hub) (i : ℕ)
    → h.conns key ≡ some i
    → (h.store i).closed ≡ false
    → ltb (length (h.store i).buffer) send_buffer_size ≡ true
    → ((send_to_user key p h).0 ≡ accepted)
      × ((send_to_user key p h).1.conns key ≡ some i)
      × (((send_to_user key p h).1.store i).closed ≡ false)
      × (((send_to_user key p h).1.store i).buffer ≡ (h.store i).buffer ++ p ∷ [])
unfolding send_to_user send_on
send_to_user-room key p h i e o l = ground (arith, ==_refl i)

send_to_user-full :
    (key p : String) (h : Hub) (i : ℕ)
    → h.conns key ≡ some i
    → (h.store i).closed ≡ false
    → ltb (length (h.store i).buffer) send_buffer_size ≡ false
    → send_to_user key p h ≡ (dropped, h)
unfolding send_to_user send_on
send_to_user-full key p h i e o l = ground arith

none_left : (n : ℕ) → take {A = String} n [] ≡ []
none_left zero = refl
none_left (suc n) = refl

-- Sending a list of payloads on an open connection fills its buffer up and drops what is too much.
send_all_lem :
    (key : String) (ps : List String) (h : Hub) (i : ℕ)
    → h.conns key ≡ some i
    → (h.store i).closed ≡ false
    → length (h.store i).buffer ≤ send_buffer_size
    → ((send_all key ps h).0 ≡ false)
      × ((send_all key ps h).1.conns key ≡ some i)
      × (((send_all key ps h).1.store i).buffer
          ≡ (h.store i).buffer ++ take (send_buffer_size - length (h.store i).buffer) ps)
unfolding send_all
send_all_lem key [] h i e o l = (
  refl,
  e,
  sym (append-nil (h.store i).buffer)
      ∙ ap (λ xs. (h.store i).buffer ++ xs)
          (sym (none_left (send_buffer_size - length (h.store i).buffer))),
)
send_all_lem key (p ∷ ps) h i e o l =
    elim (Bool-cases (ltb (length (h.store i).buffer) send_buffer_size)) [
      | inl room ↦
          let b : List String = (h.store i).buffer in
          let (n, k, k') = room_left (length b) room in
          let h' : Hub = (send_to_user key p h).1 in
          let went = send_to_user-room key p h i e o room in
          let longer : length (h'.store i).buffer ≡ length b + 1 =
            ap length (went.3) ∙ length-append b (p ∷ []) in
          let rest = send_all_lem key ps h' i (went.1) (went.2) (ground (arith, longer)) in
          let filled : (h'.store i).buffer
                ++ take (send_buffer_size - length (h'.store i).buffer) ps
              ≡ b ++ take (send_buffer_size - length b) (p ∷ ps) =
            ap (λ xs. xs ++ take (send_buffer_size - length (h'.store i).buffer) ps) (went.3)
            ∙ append_assoc b (p ∷ []) _
            ∙ ap (λ m. b ++ p ∷ take (send_buffer_size - m) ps) longer
            ∙ ap (λ m. b ++ p ∷ take m ps) k'
            ∙ ap (λ m. b ++ take m (p ∷ ps)) (sym k) in
          (
            ground (arith, went, rest),
            ground (arith, went, rest),
            ground (arith, went, rest, filled),
          )
      | inr full ↦
          let same = send_to_user-full key p h i e o full in
          let rest = send_all_lem key ps h i e o l in
          let no_room : send_buffer_size - length (h.store i).buffer ≡ 0 = ground arith in
          let skip : (send_all key (p ∷ ps) h).1 ≡ (send_all key ps h).1 = ground (arith, same) in
          (
            ground (arith, same, rest),
            ground (arith, same, rest),
            ap (λ x. (x.store i).buffer) skip
                ∙ rest.2
                ∙ ap (λ m. (h.store i).buffer ++ take m ps) no_room
                ∙ sym (ap (λ m. (h.store i).buffer ++ take m (p ∷ ps)) no_room),
          )
    ]

-- What the new connection of a registration is.
pub register_lem :
    (key : String) (h : Hub)
    → ((register key h).conns key ≡ some h.count)
      × (((register key h).store h.count).closed ≡ false)
      × (((register key h).store h.count).buffer ≡ [])
unfolding register
register_lem key h = ground (arith, str_eq_refl key, ==_refl h.count)

module _ {R : Type 0} (env : Env) (srv : Server R) (hash : String → String)
    (uuid_text : Uuid → String) where
  hub-flush :
      (tenant_id user_id : String) (w : World R)
      → srv.hub (flush env srv.lists tenant_id user_id w).1.redis ≡ srv.hub w.redis
  unfolding flush flush_amid clear_queue
  hub-flush tenant_id user_id w =
      ground (arith, srv.hub-del_list (offline_key tenant_id user_id) w.redis)

  pub record_presence_lem :
      (tenant_id user_id : String) (w : World R)
      → (srv.hub (record_presence env srv hash uuid_text true tenant_id user_id w).1.redis
          ≡ srv.hub w.redis)
        × (queued_for env srv.lists tenant_id user_id
              (record_presence env srv hash uuid_text true tenant_id user_id w).1
            ≡ queued_for env srv.lists tenant_id user_id w)
  unfolding record_presence set_online
  record_presence_lem tenant_id user_id w = ground (
    arith,
    srv.hub-setex (presence_key tenant_id user_id) "1" presence_ttl w.redis,
    srv.lrange-setex (presence_key tenant_id user_id) "1" presence_ttl w.redis
        (offline_key tenant_id user_id)
        (presence_key-offline_key tenant_id user_id tenant_id user_id),
  )

  -- What the flush leaves on a new connection.
  pub flush_to_conn_lem :
      (tenant_id user_id : String) (i : ℕ) (w : World R)
      → ((n : ℕ) → env.fault n ≡ none)
      → (srv.hub w.redis).conns (conn_key tenant_id user_id) ≡ some i
      → ((srv.hub w.redis).store i).closed ≡ false
      → ((srv.hub w.redis).store i).buffer ≡ []
      → ((flush_to_conn env srv hash uuid_text true tenant_id user_id w).0 ≡ goes_on tt)
        × ((srv.hub (flush_to_conn env srv hash uuid_text true tenant_id user_id w).1.redis).conns
              (conn_key tenant_id user_id)
            ≡ some i)
        × (((srv.hub (flush_to_conn env srv hash uuid_text true tenant_id user_id w).1.redis).store
              i).buffer
            ≡ take send_buffer_size (queued_for env srv.lists tenant_id user_id w))
        × (queued_for env srv.lists tenant_id user_id
              (flush_to_conn env srv hash uuid_text true tenant_id user_id w).1
            ≡ [])
  unfolding flush_to_conn pending_of
  flush_to_conn_lem tenant_id user_id i w f c o b =
      let key = conn_key tenant_id user_id in
      let vals = queued_for env srv.lists tenant_id user_id w in
      let flushed = flush_lem env srv.lists tenant_id user_id w f in
      let w' : World R = (flush env srv.lists tenant_id user_id w).1 in
      let hub : srv.hub w'.redis ≡ srv.hub w.redis = hub-flush tenant_id user_id w in
      let l : length ((srv.hub w.redis).store i).buffer ≡ 0 = ap length b in
      let went = send_all_lem key vals (srv.hub w.redis) i c o (ground (arith, l)) in
      let h' : Hub = (send_all key vals (srv.hub w.redis)).1 in
      let filled : (h'.store i).buffer ≡ take send_buffer_size vals =
        went.2 ∙ ap (λ xs. xs ++ take (send_buffer_size - length xs) vals) b in
      let stored : srv.hub (srv.put_hub h' w'.redis) ≡ h' = srv.hub-put_hub h' w'.redis in
      let left : srv.lists.lrange (srv.put_hub h' w'.redis) (offline_key tenant_id user_id) ≡ [] =
        srv.lrange-put_hub h' w'.redis (offline_key tenant_id user_id) ∙ flushed.1 in
      (
        ground (arith, flushed, hub, went),
        ground (arith, flushed, hub, went, stored),
        ground (arith, flushed, hub, went, stored, filled),
        ground (arith, flushed, hub, went, left),
      )
