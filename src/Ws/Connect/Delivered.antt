-- ===== src/Ws/Connect/Delivered.antt =====
-- What a user who connects through backend/internal/ws/handler.go gets, and what is left when an older
-- connection of the same user ends.
use notifyx.Prelude.{
  ℕ, suc, String, ◌≡◌, ◌∙◌, sym, ap, Bool, true, false, none, some, [], arith, str_eq, str_eq_iff,
  Option-cases, inl, inr, take,
}
use notifyx.Domain.{Uuid, Tenant}
use notifyx.Postgres.{Env, World}
use notifyx.Postgres.Tenants
use notifyx.Postgres.Tenants.{tenant_by_hash, found}
use notifyx.Handlers.Response.{goes_on, Flow-cases}
use notifyx.OfflineQueue.{offline_key}
use notifyx.OfflineQueue.Flushes.{queued_for}
use notifyx.Ws.{conn_key, register, send_buffer_size}
use notifyx.Ws.Connect.{Server, admit, register_conn, record_presence, flush_to_conn, connect}
use notifyx.Ws.Connect.Sessions.{record_presence_lem, register_lem, flush_to_conn_lem}

module _ {R : Type 0} (env : Env) (srv : Server R) (hash : String → String)
    (uuid_text : Uuid → String) where
  -- Only a key of the tenant that the request names opens a connection, and all three parameters have
  -- to be there.
  connect-admits :
      (presence queue : Bool) (tenant_id user_id api_key : String) (w : World R) {i : ℕ}
      → (connect env srv hash uuid_text presence queue tenant_id user_id api_key w).0 ≡ goes_on i
      → (str_eq user_id "" ≡ false)
        × (str_eq api_key "" ≡ false)
        × ((t : Tenant) × (tenant_by_hash w.tables (hash api_key) ≡ some t)
            × (uuid_text t.id ≡ tenant_id))
  unfolding connect admit Tenants.get_tenant_by_key_hash found
  connect-admits presence queue tenant_id user_id api_key w h =
      elim (Option-cases (tenant_by_hash w.tables (hash api_key))) [
        | inl e ↦ absurd (ground arith)
        | inr (t, e) ↦ (
          ground arith,
          ground arith,
          (t, e, ground (arith, str_eq_iff (uuid_text t.id) tenant_id)),
        )
      ]

  admit-redis :
      (tenant_id user_id api_key : String) (w : World R)
      → (admit env srv hash uuid_text tenant_id user_id api_key w).1.redis ≡ w.redis
  unfolding admit Tenants.get_tenant_by_key_hash found
  admit-redis tenant_id user_id api_key w =
      ground (arith, Option-cases (tenant_by_hash w.tables (hash api_key)))

  -- The state in which a new connection is registered, after the upgrade.
  abbrev upgraded : String → String → String → World R → World R
  upgraded tenant_id user_id api_key w =
      let w' : World R = (admit env srv hash uuid_text tenant_id user_id api_key w).1 in
      record w' { calls = suc w'.calls }

  -- The state after the connection was registered and the presence recorded.
  abbrev announced : String → String → World R → World R
  announced tenant_id user_id w =
      (record_presence env srv hash uuid_text true tenant_id user_id
        (register_conn env srv hash uuid_text (conn_key tenant_id user_id) w).1).1

  connect_run :
      (tenant_id user_id api_key : String) (w : World R) {i : ℕ}
      → ((n : ℕ) → env.fault n ≡ none)
      → (flush_to_conn env srv hash uuid_text true tenant_id user_id
          (announced tenant_id user_id (upgraded tenant_id user_id api_key w))).0
        ≡ goes_on tt
      → (connect env srv hash uuid_text true true tenant_id user_id api_key w).0 ≡ goes_on i
      → (i ≡ (srv.hub (upgraded tenant_id user_id api_key w).redis).count)
        × ((connect env srv hash uuid_text true true tenant_id user_id api_key w).1
            ≡ (flush_to_conn env srv hash uuid_text true tenant_id user_id
                (announced tenant_id user_id (upgraded tenant_id user_id api_key w))).1)
  unfolding connect register_conn record_presence
  connect_run tenant_id user_id api_key w f g h = ground (
    arith,
    f (admit env srv hash uuid_text tenant_id user_id api_key w).1.calls,
    g,
    Flow-cases (admit env srv hash uuid_text tenant_id user_id api_key w).0,
  )

  -- What a connection that was just announced is, and what is queued for it.
  announced_lem :
      (tenant_id user_id : String) (w : World R)
      → ((srv.hub (announced tenant_id user_id w).redis).conns (conn_key tenant_id user_id)
          ≡ some (srv.hub w.redis).count)
        × (((srv.hub (announced tenant_id user_id w).redis).store (srv.hub w.redis).count).closed
            ≡ false)
        × (((srv.hub (announced tenant_id user_id w).redis).store (srv.hub w.redis).count).buffer
            ≡ [])
        × (queued_for env srv.lists tenant_id user_id (announced tenant_id user_id w)
            ≡ queued_for env srv.lists tenant_id user_id w)
  announced_lem tenant_id user_id w =
      let key = conn_key tenant_id user_id in
      let h = srv.hub w.redis in
      let w1 : World R = (register_conn env srv hash uuid_text key w).1 in
      let there : srv.hub w1.redis ≡ register key h =
        unfold register_conn in srv.hub-put_hub (register key h) w.redis in
      let old : queued_for env srv.lists tenant_id user_id w1
          ≡ queued_for env srv.lists tenant_id user_id w =
        unfold register_conn in
        srv.lrange-put_hub (register key h) w.redis (offline_key tenant_id user_id) in
      let kept = record_presence_lem env srv hash uuid_text tenant_id user_id w1 in
      let same : srv.hub (announced tenant_id user_id w).redis ≡ register key h = kept.0 ∙ there in
      let new = register_lem key h in
      (
        ap (λ x. x.conns key) same ∙ new.0,
        ap (λ x. (x.store h.count).closed) same ∙ new.1,
        ap (λ x. (x.store h.count).buffer) same ∙ new.2,
        kept.1 ∙ old,
      )

  -- A request that Connect lets through, with presence records and an offline queue and where no call
  -- fails, ends in a new connection that is the user's in the hub, with the oldest payloads of the
  -- user's offline queue in its buffer, as many as the 32 that it holds, while the queue is empty
  -- afterwards: the payloads beyond are gone. No pump or other request runs in between.
  pub connect_delivers :
      (tenant_id user_id api_key : String) (w : World R) {i : ℕ}
      → ((n : ℕ) → env.fault n ≡ none)
      → (connect env srv hash uuid_text true true tenant_id user_id api_key w).0 ≡ goes_on i
      → ((srv.hub
              (connect env srv hash uuid_text true true tenant_id user_id api_key w).1.redis).conns
            (conn_key tenant_id user_id)
          ≡ some i)
        × (((srv.hub
                (connect env srv hash uuid_text true true tenant_id user_id api_key
                  w).1.redis).store
              i).buffer
            ≡ take send_buffer_size (queued_for env srv.lists tenant_id user_id w))
        × (queued_for env srv.lists tenant_id user_id
              (connect env srv hash uuid_text true true tenant_id user_id api_key w).1
            ≡ [])
  connect_delivers tenant_id user_id api_key w {i} f h =
      let wu : World R = upgraded tenant_id user_id api_key w in
      let r : wu.redis ≡ w.redis = admit-redis tenant_id user_id api_key w in
      let new = announced_lem tenant_id user_id wu in
      let count : (srv.hub wu.redis).count ≡ (srv.hub w.redis).count =
        ap (λ x. (srv.hub x).count) r in
      let fl =
        flush_to_conn_lem env srv hash uuid_text tenant_id user_id (srv.hub wu.redis).count
          (announced tenant_id user_id wu) f (new.0) (new.1) (new.2) in
      let run = connect_run tenant_id user_id api_key w f (fl.0) h in
      let queue : queued_for env srv.lists tenant_id user_id wu
          ≡ queued_for env srv.lists tenant_id user_id w =
        ap (λ x. srv.lists.lrange x (offline_key tenant_id user_id)) r in
      (
        ap (λ x. (srv.hub x.redis).conns (conn_key tenant_id user_id)) (run.1)
            ∙ fl.1
            ∙ ap some (sym (run.0)),
        ap (λ x. ((srv.hub x.redis).store i).buffer) (run.1)
            ∙ ap
                (λ j.
                  ((srv.hub
                      (flush_to_conn env srv hash uuid_text true tenant_id user_id
                        (announced tenant_id user_id wu)).1.redis).store
                    j).buffer)
                (run.0)
            ∙ fl.2
            ∙ ap (take send_buffer_size) (new.3 ∙ queue),
        ap (queued_for env srv.lists tenant_id user_id) (run.1) ∙ fl.3,
      )
