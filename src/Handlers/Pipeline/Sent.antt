-- ===== src/Handlers/Pipeline/Sent.antt =====
-- processSend: what a send that succeeds has done.
use notifyx.Prelude.{
  String, ◌≡◌, refl, ap, subst, ◌∙◌, Bool, true, false, some, arith, Result-cases, Option-cases,
  inl, inr, str_eq, Bool-cases,
}
use notifyx.Domain.{Uuid, Status, pending, queued_rate_limited, Notification, NotificationDelivery}
use notifyx.Dedup.{claimed, existing}
use notifyx.Postgres.{Env, World}
use notifyx.Postgres.Notifications.{CreateNotificationParams, new_row}
use notifyx.Handlers.Response.{ErrorText, process_failed}
use notifyx.Handlers.Pipeline.{
  NotificationService, Outcome, sent, refused, create_and_queue, fetch_existing, release_dedup,
  answer_duplicate, finish_send, limit_and_finish, process_send,
}
use notifyx.Handlers.Pipeline.Persisting.{Queued, create_and_queue-Queued}
use notifyx.Handlers.Pipeline.Sending.{
  Untouched, initial, fetch_existing-Untouched, process_send_refused,
}

module _ {R : Type 0} (env : Env) (svc : NotificationService R) where
  -- What a fresh send leaves: the params as they were persisted, and whether they were published.
  pub record Fresh (key : String) (p : CreateNotificationParams) (w w' : World R) (i : Uuid)
      (s : Status) : Type 0 where
    pub publishes : Bool
    pub n : Notification
    pub d : NotificationDelivery
    pub queued :
        Queued env svc
          (record p { status = some (initial publishes); idempotency_key = key })
          publishes
          (initial publishes)
          w
          w'
          n
          d
    pub answer_is : (i ≡ p.id) × (n.id ≡ p.id) × (s ≡ initial publishes)

  finish_send_sent :
      (key : String) (p : CreateNotificationParams) (publishes : Bool) (w : World R) {i : Uuid}
      {s : Status} {b : Bool}
      → (finish_send env svc key (record p { status = some (initial publishes) }) publishes w).0
        ≡ sent i s b
      → (b ≡ false)
        × Fresh key p w
            (finish_send env svc key (record p { status = some (initial publishes) }) publishes w).1
            i
            s
  unfolding finish_send new_row
  finish_send_sent key p publishes w {i} {s} {b} h =
      let q = record p { status = some (initial publishes); idempotency_key = key } in
      elim (Result-cases (create_and_queue env svc q publishes w).0) [
        | inl ((n, d), f) ↦
            let made =
              create_and_queue-Queued env svc q publishes (initial publishes) w {n = n} {d = d} refl
                f in
            (
              ground arith,
              rw (f, finish_send)
                  (record {
                    publishes = publishes;
                    n = n;
                    d = d;
                    queued = made;
                    answer_is = (
                      ground (arith, made.row),
                      ground (arith, made.row),
                      ground (arith, made.row),
                    );
                  }),
            )
        | inr (x, f) ↦ absurd (ground arith)
      ]

  -- The same, where the world before has the tables and the messages of another.
  Fresh-shift :
      (key : String) (p : CreateNotificationParams) (w0 w w' : World R) {i : Uuid} {s : Status}
      → Untouched w0 w
      → Fresh key p w w' i s
      → Fresh key p w0 w' i s
  Fresh-shift key p w0 w w' u f = record {
    publishes = f.publishes;
    n = f.n;
    d = f.d;
    queued = record {
      tables = ground (arith, f.queued.tables, u.tables);
      published = ground (arith, f.queued.published, u.published);
      row = f.queued.row;
      delivery = f.queued.delivery;
    };
    answer_is = f.answer_is;
  }

  abbrev pub IsFresh : String → CreateNotificationParams → World R → Outcome × World R → Type 0
  IsFresh key p w (sent i s b, w') = (b ≡ false) × Fresh key p w w' i s
  IsFresh key p w (refused text, w') = Unit {0}

  finish_send-IsFresh :
      (key : String) (p : CreateNotificationParams) (publishes : Bool) (w0 w : World R)
      → Untouched w0 w
      → IsFresh key p w0
          (finish_send env svc key (record p { status = some (initial publishes) }) publishes w)
  finish_send-IsFresh key p publishes w0 w u =
      go (finish_send env svc key (record p { status = some (initial publishes) }) publishes w) refl
    where
      go :
          (x : Outcome × World R)
          → finish_send env svc key (record p { status = some (initial publishes) }) publishes w ≡ x
          → IsFresh key p w0 x
      go (sent i s b, w') e =
          let (f, g) = finish_send_sent key p publishes w (ap (λ (y : Outcome × World R). y.0) e) in
          (
            f,
            Fresh-shift key p w0 w w' u
                (subst (λ (y : Outcome × World R). Fresh key p w y.1 i s) e g),
          )
      go (refused text, w') e = tt

  limit_and_finish-IsFresh :
      (key : String) (p : CreateNotificationParams) (w0 w : World R)
      → Untouched w0 w
      → IsFresh key p w0 (limit_and_finish env svc key p w)
  unfolding limit_and_finish
  limit_and_finish-IsFresh key p w0 w u = elim (Option-cases svc.rate_limiter) [
    | inl e ↦
        let step : limit_and_finish env svc key p w
            ≡ finish_send env svc key (record p { status = some pending }) true w =
          ground arith in
        rw step (finish_send-IsFresh key p true w0 w u)
    | inr (l, e) ↦
        let asked = (l.allow p.tenant_id p.channel w).1 in
        let v : Untouched w0 asked = record {
          tables = l.allow-tables p.tenant_id p.channel w ∙ u.tables;
          published = l.allow-published p.tenant_id p.channel w ∙ u.published;
        } in
        elim (Result-cases (l.allow p.tenant_id p.channel w).0) [
          | inl (true, f) ↦
              let step : limit_and_finish env svc key p w
                  ≡ finish_send env svc key (record p { status = some pending }) true asked =
                ground arith in
              rw step (finish_send-IsFresh key p true w0 asked v)
          | inl (false, f) ↦
              let step : limit_and_finish env svc key p w
                  ≡ finish_send env svc key (record p { status = some queued_rate_limited }) false
                      asked =
                ground arith in
              rw step (finish_send-IsFresh key p false w0 asked v)
          | inr (x, f) ↦
              let step : limit_and_finish env svc key p w
                  ≡ (refused process_failed, release_dedup env svc key asked) =
                ground arith in
              rw step tt
        ]
  ]

  -- How a send that succeeds ends: a duplicate wrote and published nothing; any other made one
  -- notification, with the id and the key of the request, and its delivery row, published if and
  -- only if it is not held back and Kafka is configured, and it was held back if and only if its
  -- status is queued_rate_limited, the answer's status.
  abbrev pub SentRight : String → CreateNotificationParams → World R → Outcome × World R → Type 0
  SentRight key p w (sent i s true, w') = Untouched w w'
  SentRight key p w (sent i s false, w') = Fresh key p w w' i s
  SentRight key p w (refused text, w') = w'.tables ≡ w.tables

  SentRight-of_IsFresh :
      (key : String) (p : CreateNotificationParams) (w : World R) (x : Outcome × World R)
      → ((text : ErrorText) → x.0 ≡ refused text → x.1.tables ≡ w.tables)
      → IsFresh key p w x
      → SentRight key p w x
  SentRight-of_IsFresh key p w (sent i s true, w') r f = absurd (cc (f.0))
  SentRight-of_IsFresh key p w (sent i s false, w') r f = f.1
  SentRight-of_IsFresh key p w (refused text, w') r f = r text refl

  answer_duplicate-SentRight :
      (key : String) (p : CreateNotificationParams) (i : Uuid) (w0 w : World R)
      → Untouched w0 w
      → SentRight key p w0 (answer_duplicate env svc i w)
  unfolding answer_duplicate
  answer_duplicate-SentRight key p i w0 w u =
      let fetched = fetch_existing env svc 2 i w in
      let v = fetch_existing-Untouched env svc 2 i w in
      elim (Result-cases fetched.0) [
        | inl (n, f) ↦
            let step : answer_duplicate env svc i w ≡ (sent n.id n.status true, fetched.1) =
              ground arith in
            rw step (record { tables = v.tables ∙ u.tables; published = v.published ∙ u.published })
        | inr (x, f) ↦
            let step : answer_duplicate env svc i w ≡ (refused process_failed, fetched.1) =
              ground arith in
            rw step (v.tables ∙ u.tables)
      ]

  -- How processSend ends. An error message: no table row is written. A duplicate: nothing is
  -- written or published. Any other success: exactly one notification is added, with the request's
  -- id and idempotency key, and its one delivery; the answer's status is pending or
  -- queued_rate_limited, both rows carry it, and the message is published to the channel's topic if
  -- and only if the status is pending and Kafka is configured.
  pub process_send-SentRight :
      (key : String) (p : CreateNotificationParams) (w : World R)
      → SentRight key p w (process_send env svc key p w)
  process_send-SentRight key p w = elim (Option-cases svc.dedup) [
    | inl e ↦ limited w (unfold process_send in ground arith) same
    | inr (d, e) ↦
        let asked = (d.reserve key p.id w).1 in
        let v : Untouched w asked = record {
          tables = d.reserve-tables key p.id w;
          published = d.reserve-published key p.id w;
        } in
        elim (Bool-cases (str_eq key "")) [
          | inl blank ↦ limited w (unfold process_send in ground arith) same
          | inr named ↦ elim (Result-cases (d.reserve key p.id w).0) [
            | inl (claimed, f) ↦ limited asked (unfold process_send in ground arith) v
            | inl (existing i, f) ↦
                let step : process_send env svc key p w ≡ answer_duplicate env svc i asked =
                  unfold process_send in ground arith in
                rw step (answer_duplicate-SentRight key p i w asked v)
            | inr (x, f) ↦
                let step : process_send env svc key p w ≡ (refused process_failed, asked) =
                  unfold process_send in ground arith in
                rw step v.tables
          ]
        ]
  ]
    where
      same : Untouched w w
      same = record { tables = refl; published = refl }

      limited :
          (w' : World R)
          → process_send env svc key p w ≡ limit_and_finish env svc key p w'
          → Untouched w w'
          → SentRight key p w (process_send env svc key p w)
      limited w' step u =
          SentRight-of_IsFresh key p w (process_send env svc key p w)
            (λ text h. process_send_refused env svc key p w {text = text} h)
            (rw step (limit_and_finish-IsFresh key p w w' u))
