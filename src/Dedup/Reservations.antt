-- ===== src/Dedup/Reservations.antt =====
-- reserveScript of backend/internal/dedup/dedup.go over a run of requests with any keys.
use notifyx.Prelude.{
  ℕ, ◌+◌, ◌*◌, ◌-◌, ◌≤◌, ◌<◌, String, ◌≡◌, false, none, some, List, [], ◌∷◌, arith, str_eq,
  str_eq_iff, str_eq_refl, All, Option-cases, inl, inr, ok,
}
use notifyx.Domain.{Uuid}
use notifyx.Redis.Sets.{second}
use notifyx.Redis.Strings.{RedisStrings}
use notifyx.Dedup.{Uuids, existing, reserve_script, read_reply}

-- What may happen to the store between two requests with one key.
pub data Event : Type 0 where
  reserving : String → String → Event
  releasing : String → Event
  passing : ℕ → Event

module _ {R : Type 0} (strings : RedisStrings R) (seconds : ℕ) where
  unfoldable pub happen : Event → R → R
  happen (reserving key value) s = (reserve_script strings key value seconds s).1
  happen (releasing key) s = strings.del key s
  happen (passing d) s = strings.pass d s

  unfoldable pub happen_all : List Event → R → R
  unfolding happen
  happen_all [] s = s
  happen_all (e ∷ es) s = happen_all es (happen e s)

-- How long a run of events takes.
unfoldable pub duration : List Event → ℕ
duration [] = 0
duration (passing d ∷ es) = d + duration es
duration (reserving k v ∷ es) = duration es
duration (releasing k ∷ es) = duration es

abbrev pub SparesKey : String → Event → Type 0
SparesKey key (releasing k) = str_eq k key ≡ false
SparesKey key _ = Unit {0}

module _ {R : Type 0} (strings : RedisStrings R) (seconds : ℕ) (positive : 0 < seconds) where
  -- The key holds the value for at least `left` more.
  record Holds (s : R) (key value : String) (left : ℕ) : Type 0 where
    value_is : strings.get s key ≡ some value
    lasts : (r : ℕ) → strings.ttl s key ≡ some r → left ≤ r

  claim-Holds :
      (s : R) (key value : String)
      → strings.get s key ≡ none
      → Holds (reserve_script strings key value seconds s).1 key value (seconds * second)
  unfolding reserve_script
  claim-Holds s key value h =
      let s' = strings.setnx key value s in
      let fact = strings.get-setnx s key value key in
      record {
        value_is = ground (arith, strings.get-expire s' key seconds key, fact, str_eq_refl key);
        lasts = λ r e. ground (arith, strings.ttl-expire s' key seconds key, fact, str_eq_refl key);
      }

  reserving-Holds :
      (s : R) (key value k v : String) (left : ℕ)
      → Holds s key value left
      → Holds (reserve_script strings k v seconds s).1 key value left
  unfolding reserve_script
  reserving-Holds s key value k v left h =
      let s' = strings.setnx k v s in
      record {
        value_is = ground (
          arith,
          strings.get-expire s' k seconds key,
          strings.get-setnx s k v key,
          h.value_is,
          str_eq_iff k key,
        );
        lasts = λ r e. ground (
          arith,
          strings.ttl-expire s' k seconds key,
          strings.get-setnx s k v k,
          h.lasts r,
          h.value_is,
          str_eq_iff k key,
          strings.ttl-setnx s k v key,
          str_eq_refl k,
        );
      }

  passing-Holds :
      (s : R) (key value : String) (d left : ℕ)
      → 0 < left
      → Holds s key value (d + left)
      → Holds (strings.pass d s) key value left
  passing-Holds s key value d left p h = elim (Option-cases (strings.ttl s key)) [
    | inl e ↦ record {
      value_is = ground (arith, strings.get-pass s d key, h.value_is);
      lasts = λ r f. ground (arith, strings.ttl-pass s d key);
    }
    | inr (q, e) ↦ record {
      value_is = ground (arith, strings.get-pass s d key, h.value_is, h.lasts q);
      lasts = λ r f. ground (arith, strings.ttl-pass s d key, h.lasts q);
    }
  ]

  happen_all-Holds :
      (es : List Event) (s : R) (key value : String) (left : ℕ)
      → 0 < left
      → All (SparesKey key) es
      → Holds s key value (duration es + left)
      → Holds (happen_all strings seconds es s) key value left
  unfolding happen_all duration
  happen_all-Holds [] s key value left p a h = record {
    value_is = h.value_is;
    lasts = λ r e. omega (arith, h.lasts r e);
  }
  happen_all-Holds (reserving k v ∷ es) s key value left p a h =
      happen_all-Holds es _ key value left p a.1
        (reserving-Holds s key value k v (duration es + left) h)
  happen_all-Holds (releasing k ∷ es) s key value left p a h =
      happen_all-Holds es _ key value left p a.1 (record {
        value_is = ground (arith, strings.get-del s k key, h.value_is);
        lasts = λ r e. ground (arith, strings.ttl-del s k key, h.lasts r);
      })
  happen_all-Holds (passing d ∷ es) s key value left p a h =
      happen_all-Holds es _ key value left p a.1 (
        passing-Holds s key value d (duration es + left) (omega arith)
          (record { value_is = h.value_is; lasts = λ r e. omega (arith, h.lasts r e) }))

  told_existing :
      (u : Uuids) (s : R) (key value : String) (i : Uuid) (left : ℕ)
      → Holds s key (u.text_of i) left
      → read_reply u (reserve_script strings key value seconds s).0 ≡ ok (existing i)
  unfolding reserve_script read_reply
  told_existing u s key value i left h = ground (arith, h.value_is, u.parse-text_of i)

  -- After a claim of a free key for id i, and any events that take less than the time to live and
  -- do not release the key, a request with the same key and any other id is told i.
  pub reserve_again :
      (u : Uuids) (s : R) (key value : String) (i : Uuid) (es : List Event)
      → strings.get s key ≡ none
      → All (SparesKey key) es
      → duration es < seconds * second
      → read_reply u
          (reserve_script strings key value seconds (
            happen_all strings seconds es (reserve_script strings key (u.text_of i) seconds s).1)).0
        ≡ ok (existing i)
  reserve_again u s key value i es free a d =
      let left = seconds * second - duration es in
      let start = claim-Holds s key (u.text_of i) free in
      told_existing u _ key value i left (
        happen_all-Holds es _ key (u.text_of i) left (omega arith) a
          (record { value_is = start.value_is; lasts = λ r e. omega (arith, start.lasts r e) }))
