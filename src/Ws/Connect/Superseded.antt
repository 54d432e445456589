-- ===== src/Ws/Connect/Superseded.antt =====
-- What is left when the older of two connections of a user ends in
-- backend/internal/ws/handler.go.
use notifyx.Prelude.{ℕ, String, ◌≡◌, ◌≢◌, true, none, some, arith, str_eq_refl, ◌∙◌, ap}
use notifyx.Domain.{Uuid}
use notifyx.Postgres.{Env, World}
use notifyx.OfflineQueue.{presence_key, set_offline}
use notifyx.Ws.{conn_key, unregister, is_online, is_at}
use notifyx.Ws.Connect.{Server, disconnect}

module _ {R : Type 0} (env : Env) (srv : Server R) (hash : String → String)
    (uuid_text : Uuid → String) where
  -- When a connection ends that a newer one of the same user has replaced in the hub, the hub still
  -- has the newer one and takes the user for online, but the user's presence record is deleted, where
  -- the command to Redis does not fail.
  pub disconnect_superseded :
      (tenant_id user_id : String) (i j : ℕ) (w : World R)
      → (srv.hub w.redis).conns (conn_key tenant_id user_id) ≡ some i
      → ((srv.hub w.redis).store j).key ≡ conn_key tenant_id user_id
      → i ≢ j
      → env.fault w.calls ≡ none
      → ((srv.hub (disconnect env srv hash uuid_text true tenant_id user_id j w).redis).conns
            (conn_key tenant_id user_id)
          ≡ some i)
        × (is_online
              (conn_key tenant_id user_id)
              (srv.hub (disconnect env srv hash uuid_text true tenant_id user_id j w).redis)
            ≡ true)
        × (srv.strings.get
              (disconnect env srv hash uuid_text true tenant_id user_id j w).redis
              (presence_key tenant_id user_id)
            ≡ none)
  unfolding disconnect set_offline
  disconnect_superseded tenant_id user_id i j w c k n f =
      let h = srv.hub w.redis in
      let kept : unregister j h ≡ h = unfold unregister is_at in ground (arith, c, k, n) in
      let put = srv.put_hub (unregister j h) w.redis in
      let there : srv.hub (srv.strings.del (presence_key tenant_id user_id) put) ≡ h =
        srv.hub-del (presence_key tenant_id user_id) put
        ∙ srv.hub-put_hub (unregister j h) w.redis
        ∙ kept in
      let conn : (srv.hub (srv.strings.del (presence_key tenant_id user_id) put)).conns
            (conn_key tenant_id user_id)
          ≡ some i =
        ap (λ x. x.conns (conn_key tenant_id user_id)) there ∙ c in
      (
        ground (arith, f, conn),
        unfold is_online in ground (arith, f, conn),
        ground (
          arith,
          f,
          srv.strings.get-del put (presence_key tenant_id user_id) (presence_key tenant_id user_id),
          str_eq_refl (presence_key tenant_id user_id),
        ),
      )
