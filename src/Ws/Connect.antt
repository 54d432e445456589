-- ===== src/Ws/Connect.antt =====
-- Connect of backend/internal/ws/handler.go, up to the read pump and after it. The presence records
-- and the offline queue are there or not, as REDIS_URL is set; `hash` is handlers.HashAPIKey,
-- `uuid_text` UUID.String().
pub mod Sessions
pub mod Delivered
pub mod Superseded
pub mod Memory
use notifyx.Prelude.{
  ℕ, suc, String, Bool, true, false, not, ◌&&◌, ◌≡◌, Option, none, some, List, [], ◌∷◌, ok, err,
  Error, Result, is_not_found, if◌then◌else◌, str_eq, ◌<◌,
}
use notifyx.Domain.{Uuid, Tenant}
use notifyx.Redis.Strings.{RedisStrings}
use notifyx.Redis.Lists.{RedisLists}
use notifyx.Postgres.{Env, World, Io, call, logged}
use notifyx.Postgres.Tenants
use notifyx.Handlers.Response.{
  connect_params_required, key_of_other_tenant, upgrade_failed, invalid_api_key,
  authentication_failed, err_response, status_bad_request, status_unauthorized,
  status_internal_server_error, Response, Flow, goes_on, responds, panics, Handler, goes, trying,
  unless, ◌>>=◌, ◌>>◌,
}
use notifyx.OfflineQueue.{flush, set_online, set_offline}
use notifyx.Ws.{
  Hub, Sending, accepted, dropped, panicked, conn_key, register, unregister, send_to_user,
}

-- The state with the hub and Redis in it, which do not share anything.
pub record Server (R : Type 0) : Type 0 where
  pub hub : R → Hub
  pub put_hub : Hub → R → R
  pub strings : RedisStrings R
  pub lists : RedisLists R
  pub hub-put_hub : (h : Hub) (s : R) → hub (put_hub h s) ≡ h
  pub hub-setex : (k v : String) (n : ℕ) (s : R) → hub (strings.setex k v n s) ≡ hub s
  pub hub-del : (k : String) (s : R) → hub (strings.del k s) ≡ hub s
  pub hub-del_list : (k : String) (s : R) → hub (lists.del k s) ≡ hub s
  pub get-put_hub : (h : Hub) (s : R) (k : String) → strings.get (put_hub h s) k ≡ strings.get s k
  pub get-del_list :
      (k : String) (s : R) (j : String)
      → str_eq k j ≡ false
      → strings.get (lists.del k s) j ≡ strings.get s j
  pub lrange-put_hub :
      (h : Hub) (s : R) (k : String) → lists.lrange (put_hub h s) k ≡ lists.lrange s k
  -- A text and a list under different keys.
  pub lrange-setex :
      (k v : String) (n : ℕ) (s : R) (j : String)
      → str_eq k j ≡ false
      → lists.lrange (strings.setex k v n s) j ≡ lists.lrange s j

-- The loop over the payloads of the offline queue, whose results are not looked at; a send may panic.
unfoldable pub send_all : String → List String → Hub → Bool × Hub
send_all key [] h = (false, h)
send_all key (p ∷ ps) h =
    let (sent, h') = send_to_user key p h in
    let rest = send_all key ps h' in
    elim sent [ accepted ↦ rest | dropped ↦ rest | panicked ↦ (true, h') ]

-- What Flush gave; nil with an error.
unfoldable pub pending_of : Result (List String) → List String
pending_of (ok vals) = vals
pending_of (err e) = []

module _ {R : Type 0} (env : Env) (srv : Server R) (hash : String → String)
    (uuid_text : Uuid → String) where
  -- The checks before the upgrade.
  unfoldable pub admit : String → String → String → Handler R Tenant
  admit tenant_id user_id api_key = do
    unless (not (str_eq tenant_id "") && not (str_eq user_id "") && not (str_eq api_key ""))
        (err_response status_bad_request connect_params_required)
    t ← trying (Tenants.get_tenant_by_key_hash env (hash api_key)) λ e.
        if is_not_found e
        then err_response status_unauthorized invalid_api_key
        else err_response status_internal_server_error authentication_failed
    unless (str_eq (uuid_text t.id) tenant_id)
        (err_response status_unauthorized key_of_other_tenant)
    goes t

  -- hub.register, with the address of the new connection.
  unfoldable pub register_conn : String → Handler R ℕ
  register_conn key w =
      let h = srv.hub w.redis in
      (goes_on h.count, record w { redis = srv.put_hub (register key h) w.redis })

  -- `if h.presence != nil`; an error goes to the log.
  unfoldable pub record_presence : Bool → String → String → Handler R (Unit {0})
  record_presence false tenant_id user_id = goes tt
  record_presence true tenant_id user_id =
      λ w. (goes_on tt, (set_online env srv.strings tenant_id user_id w).1)

  -- `if h.queue != nil`
  unfoldable pub flush_to_conn : Bool → String → String → Handler R (Unit {0})
  unfolding pending_of send_all conn_key
  flush_to_conn false tenant_id user_id = goes tt
  flush_to_conn true tenant_id user_id = λ w.
      let (r, w') = flush env srv.lists tenant_id user_id w in
      let (crashed, h) = send_all (conn_key tenant_id user_id) (pending_of r) (srv.hub w'.redis) in
      (if crashed then panics else goes_on tt, record w' { redis = srv.put_hub h w'.redis })

  -- Connect up to the read pump: the address of the connection. Upgrade is a call of its library,
  -- which answers a request that it refuses.
  unfoldable pub connect : Bool → Bool → String → String → String → Handler R ℕ
  unfolding call admit register_conn record_presence flush_to_conn conn_key
  connect presence queue tenant_id user_id api_key = do
    admit tenant_id user_id api_key
    trying (call env) (λ e. err_response status_bad_request upgrade_failed)
    i ← register_conn (conn_key tenant_id user_id)
    record_presence presence tenant_id user_id
    flush_to_conn queue tenant_id user_id
    goes i

  -- Connect after the read pump has returned.
  unfoldable pub disconnect : Bool → String → String → ℕ → World R → World R
  disconnect presence tenant_id user_id i w =
      let w' : World R = record w {
        redis = srv.put_hub (unregister i (srv.hub w.redis)) w.redis;
      } in
      if presence then (set_offline env srv.strings tenant_id user_id w').1 else w'
