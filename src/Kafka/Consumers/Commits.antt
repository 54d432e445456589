-- ===== src/Kafka/Consumers/Commits.antt =====
-- The offsets that Run of backend/internal/kafka/consumers/consumer.go commits.
use notifyx.Prelude.{
  ℕ, suc, ◌<◌, ◌≡◌, refl, ◌⊎◌, inl, inr, Bool, true, false, Option, none, List, [], ◌∷◌, arith,
  Result-cases, Bool-cases, All,
}
use notifyx.Postgres.{Env, World, call}
use notifyx.Domain.{Message}
use notifyx.Kafka.Consumers.{HandlerFunc, Fetch, fetch_failed, fetched, handle_with_retry, run}

-- An offset is in the fetched records, with its value.
abbrev pub Fetched : ℕ → Option Message → List Fetch → Type 0
Fetched offset m [] = ⊥
Fetched offset m (fetch_failed ∷ fs) = Fetched offset m fs
Fetched offset m (fetched o x ∷ fs) = ((o ≡ offset) × (x ≡ m)) ⊎ Fetched offset m fs

module _ {R : Type 0} (env : Env) (producer : Bool) (handler : HandlerFunc R) where
  -- The offset's record was fetched, and handleWithRetry found it safe in some world.
  pub record Handled (fs : List Fetch) (offset : ℕ) : Type 0 where
    pub value : Option Message
    pub fetch : Fetched offset value fs
    pub before : World R
    pub safe : (handle_with_retry env producer handler value before).0 ≡ true

  Handled-later :
      (f : Fetch) (fs : List Fetch) (offset : ℕ) → Handled fs offset → Handled (f ∷ fs) offset
  Handled-later fetch_failed fs offset h = record {
    value = h.value;
    fetch = h.fetch;
    before = h.before;
    safe = h.safe;
  }
  Handled-later (fetched o x) fs offset h = record {
    value = h.value;
    fetch = inr h.fetch;
    before = h.before;
    safe = h.safe;
  }

  All-Handled-later :
      (f : Fetch) (fs : List Fetch) (offsets : List ℕ)
      → All (Handled fs) offsets
      → All (Handled (f ∷ fs)) offsets
  All-Handled-later f fs [] h = tt
  All-Handled-later f fs (o ∷ offsets) h =
      (Handled-later f fs o h.0, All-Handled-later f fs offsets h.1)

  -- Every offset that the loop commits is that of a fetched record which handleWithRetry reported
  -- as safe.
  run-Handled : (fs : List Fetch) (w : World R) → All (Handled fs) (run env producer handler fs w).0
  unfolding run
  run-Handled [] w = tt
  run-Handled (fetch_failed ∷ fs) w = elim (Bool-cases (env.cancelled w.calls)) [
    | inl e ↦ rw e tt
    | inr e ↦ rw e (All-Handled-later fetch_failed fs _ (run-Handled fs w))
  ]
  run-Handled (fetched o m ∷ fs) w =
      let tried = handle_with_retry env producer handler m w in
      let done = (call env tried.1).1 in
      let all = run env producer handler (fetched o m ∷ fs) w in
      let later = λ (w' : World R). All-Handled-later (fetched o m) fs _ (run-Handled fs w') in
      elim (Bool-cases tried.0) [
        | inl safe ↦ elim (Result-cases (call env tried.1).0) [
          | inl (a, e) ↦
              let step : all.0 ≡ o ∷ (run env producer handler fs done).0 = ground arith in
              let this : Handled (fetched o m ∷ fs) o = record {
                value = m;
                fetch = inl (refl, refl);
                before = w;
                safe = safe;
              } in
              rw step (this, later done)
          | inr (x, e) ↦ elim (Bool-cases (env.cancelled done.calls)) [
            | inl c ↦ let step : all.0 ≡ [] = ground arith in rw step tt
            | inr c ↦
                let step : all.0 ≡ (run env producer handler fs done).0 = ground arith in
                rw step (later done)
          ]
        ]
        | inr unsafe ↦ elim (Bool-cases (env.cancelled tried.1.calls)) [
          | inl c ↦ let step : all.0 ≡ [] = ground arith in rw step tt
          | inr c ↦
              let step : all.0 ≡ (run env producer handler fs tried.1).0 = ground arith in
              rw step (later tried.1)
        ]
      ]

  -- A record that was not safely handled is passed over: if the next record is handled and its
  -- commit succeeds, the loop commits the next record's offset alone. `position` is where Kafka
  -- restarts the group after the commits; it moves behind a committed offset, and so behind
  -- the record whose offset was left uncommitted.
  pub run-skips_unsafe :
      (position : List ℕ → ℕ) (o1 o2 : ℕ) (m1 m2 : Option Message) (w : World R)
      → ((offset : ℕ) → position (offset ∷ []) ≡ suc offset)
      → o1 < o2
      → (handle_with_retry env producer handler m1 w).0 ≡ false
      → env.cancelled (handle_with_retry env producer handler m1 w).1.calls ≡ false
      → (handle_with_retry env producer handler m2
          (handle_with_retry env producer handler m1 w).1).0
        ≡ true
      → env.fault
          (handle_with_retry env producer handler m2
            (handle_with_retry env producer handler m1 w).1).1.calls
        ≡ none
      → ((run env producer handler (fetched o1 m1 ∷ fetched o2 m2 ∷ []) w).0 ≡ o2 ∷ [])
        × (o1 < position (run env producer handler (fetched o1 m1 ∷ fetched o2 m2 ∷ []) w).0)
  unfolding run call
  run-skips_unsafe position o1 o2 m1 m2 w p less h1 c h2 f =
      let step : (run env producer handler (fetched o1 m1 ∷ fetched o2 m2 ∷ []) w).0 ≡ o2 ∷ [] =
        ground arith in
      (step, rw step (omega (arith, p o2)))
