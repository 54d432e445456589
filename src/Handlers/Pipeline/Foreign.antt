-- ===== src/Handlers/Pipeline/Foreign.antt =====
-- processSend of backend/internal/api/handlers/notification.go on a key that another tenant has
-- claimed: redisKey of backend/internal/dedup/dedup.go has no tenant in it.
use notifyx.Prelude.{
  suc, ◌≤◌, ◌<◌, ◌/◌, String, ◌≡◌, ◌≢◌, ◌∙◌, sym, subst, ap, false, true, none, some, List, [], ◌∷◌,
  ◌++◌, arith, ok, find, str_eq, str_eq_refl, Option-cases, Result-cases, inl, inr,
}
use notifyx.Domain.{Uuid, Status, Notification}
use notifyx.Redis.Sets.{second}
use notifyx.Dedup.{Deduplicator, claimed, existing, redis_key, reserve_script, read_reply}
use notifyx.Dedup
use notifyx.Postgres.{Env, World, call}
use notifyx.Postgres.Notifications
use notifyx.Postgres.Notifications.{CreateNotificationParams, has_id, new_row}
use notifyx.Handlers.Pipeline.{
  NotificationService, sent, process_send, answer_duplicate, fetch_existing, limit_and_finish,
}
use notifyx.Handlers.Pipeline.Sent.{Fresh, SentRight, process_send-SentRight}
use notifyx.Handlers.Wiring.{deduplicated_by}
use notifyx.Handlers.Pipeline.Reserved.{Spares, limit_and_finish-get}

find-append :
    (i : Uuid) (ns : List Notification) (n : Notification)
    → find (has_id i) ns ≡ none
    → n.id ≡ i
    → find (has_id i) (ns ++ n ∷ []) ≡ some n
unfolding find has_id
find-append i [] n h e = ground (arith, e)
find-append i (m ∷ ms) n h e = ground (arith, find-append i ms n, e)

module _ {R : Type 0} (env : Env) (svc : NotificationService R) (d : Deduplicator R) where
  -- After a claim the key holds the id of the claim.
  reserve_claimed-get :
      (key : String) (i : Uuid) (w : World R)
      → second ≤ d.ttl
      → (Dedup.reserve env d key i w).0 ≡ ok claimed
      → d.strings.get (Dedup.reserve env d key i w).1.redis (redis_key d key)
        ≡ some (d.uuids.text_of i)
  unfolding Dedup.reserve reserve_script read_reply Dedup.parsed
  reserve_claimed-get key i w t h =
      let k = redis_key d key in
      let set = d.strings.setnx k (d.uuids.text_of i) w.redis in
      let lasts : 0 < d.ttl / second = omega (arith, t) in
      elim (Option-cases (d.strings.get w.redis k)) [
        | inr (v, e) ↦ absurd (ground (arith, e, h))
        | inl e ↦ ground (
          arith,
          e,
          h,
          d.strings.get-expire set k (d.ttl / second) k lasts,
          d.strings.get-setnx w.redis k (d.uuids.text_of i) k,
          str_eq_refl k,
        )
      ]

  answer_duplicate_sent :
      (i : Uuid) (w : World R) {j : Uuid} {s : Status}
      → (answer_duplicate env svc i w).0 ≢ sent j s false
  unfolding answer_duplicate
  answer_duplicate_sent i w h = ground arith

  -- After a fresh send with a key, the key holds the id of its notification.
  process_send-get :
      (key : String) (p : CreateNotificationParams) (w : World R) {i : Uuid} {s : Status}
      → svc.dedup ≡ some (deduplicated_by env d)
      → Spares d svc.rate_limiter key
      → str_eq key "" ≡ false
      → second ≤ d.ttl
      → (process_send env svc key p w).0 ≡ sent i s false
      → d.strings.get (process_send env svc key p w).1.redis (redis_key d key)
        ≡ some (d.uuids.text_of p.id)
  unfolding process_send
  process_send-get key p w {i} {s} e spares k t h =
      let r = Dedup.reserve env d key p.id w in
      elim (Result-cases r.0) [
        | inr (x, f) ↦ absurd (ground (arith, e, k, f, h))
        | inl (existing j, f) ↦
            absurd (answer_duplicate_sent j r.1 {j = i} {s = s} (ground (arith, e, k, f, h)))
        | inl (claimed, f) ↦
            let step : process_send env svc key p w ≡ limit_and_finish env svc key p r.1 =
              ground (arith, e, k, f) in
            ap (λ x. d.strings.get x.1.redis (redis_key d key)) step
            ∙ limit_and_finish-get env svc d key p r.1 {i = i} {s = s} spares
                (ap (λ x. x.0) (sym step) ∙ h)
            ∙ reserve_claimed-get key p.id w t f
      ]

  -- A request with a key, then at once another tenant's request with the same key, where the first is
  -- answered as a fresh send, its id is new, keys last a second at least, the rate limiter spares the
  -- key and the calls that the second makes do not fail. The second is answered with the id and the
  -- status of the first tenant's notification, as a duplicate, and nothing is written or published for
  -- the tenant that it is from.
  pub process_send_foreign :
      (key : String) (p q : CreateNotificationParams) (w : World R) {i : Uuid} {s : Status}
      → svc.dedup ≡ some (deduplicated_by env d)
      → Spares d svc.rate_limiter key
      → str_eq key "" ≡ false
      → second ≤ d.ttl
      → find (has_id p.id) w.tables.notifications ≡ none
      → (process_send env svc key p w).0 ≡ sent i s false
      → env.fault (process_send env svc key p w).1.calls ≡ none
      → env.fault (suc (process_send env svc key p w).1.calls) ≡ none
      → q.tenant_id ≢ p.tenant_id
      → let w1 = (process_send env svc key p w).1 in
        (n : Notification) × (find (has_id p.id) w1.tables.notifications ≡ some n)
        × (n.tenant_id ≢ q.tenant_id)
        × ((process_send env svc key q w1).0 ≡ sent n.id n.status true)
        × ((process_send env svc key q w1).1.tables ≡ w1.tables)
        × ((process_send env svc key q w1).1.published ≡ w1.published)
  process_send_foreign key p q w {i} {s} e spares k t new h f g other =
      let w1 = (process_send env svc key p w).1 in
      let made : Fresh env svc key p w w1 i s =
        subst (SentRight env svc key p w) (λ j. (h j, w1))
          (process_send-SentRight env svc key p w) in
      let held = process_send-get key p w {i = i} {s = s} e spares k t h in
      let asked = (Dedup.reserve env d key q.id w1).1 in
      let told : (Dedup.reserve env d key q.id w1).0 ≡ ok (existing p.id) =
        unfold Dedup.reserve reserve_script read_reply Dedup.parsed in
        ground (arith, held, f, d.uuids.parse-text_of p.id) in
      let found : find (has_id p.id) w1.tables.notifications ≡ some made.n =
        ap (λ ts. find (has_id p.id) ts.notifications) made.queued.tables
        ∙ find-append p.id w.tables.notifications made.n new (made.answer_is.1) in
      let calls : asked.calls ≡ suc w1.calls = unfold Dedup.reserve call in ground arith in
      let tables : asked.tables ≡ w1.tables = unfold Dedup.reserve call in ground arith in
      let published : asked.published ≡ w1.published = unfold Dedup.reserve call in ground arith in
      let answer : (answer_duplicate env svc p.id asked).0 ≡ sent made.n.id made.n.status true =
        unfold answer_duplicate fetch_existing Notifications.get_by_id in
        ground (arith, g, calls, tables, found) in
      let kept : ((answer_duplicate env svc p.id asked).1.tables ≡ w1.tables)
          × ((answer_duplicate env svc p.id asked).1.published ≡ w1.published) =
        unfold answer_duplicate fetch_existing Notifications.get_by_id in
        ground (arith, g, calls, tables, published, found) in
      let step : process_send env svc key q w1 ≡ answer_duplicate env svc p.id asked =
        unfold process_send in ground (arith, e, k, told) in
      let tenant_is : made.n.tenant_id ≡ p.tenant_id =
        unfold new_row in ap (λ x. x.tenant_id) made.queued.row in
      let owner : made.n.tenant_id ≢ q.tenant_id = λ same. other (sym same ∙ tenant_is) in
      (
        made.n,
        found,
        owner,
        ap (λ x. x.0) step ∙ answer,
        ap (λ x. x.1.tables) step ∙ kept.0,
        ap (λ x. x.1.published) step ∙ kept.1,
      )
