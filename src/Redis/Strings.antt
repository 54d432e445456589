-- ===== src/Redis/Strings.antt =====
-- The string commands of the deduplicator's script and of the presence records.
use notifyx.Prelude.{
  ℕ, ◌*◌, ◌<◌, ◌≡◌, String, Bool, true, false, Option, none, some, if◌then◌else◌, str_eq,
}
use notifyx.Redis.Sets.{second, is_over, left_after}

abbrev pub is_set : Option String → Bool
is_set none = false
is_set (some v) = true

pub record RedisStrings (R : Type 0) : Type 0 where
  -- GET key
  pub get : R → String → Option String
  -- PTTL key
  pub ttl : R → String → Option ℕ
  -- SETNX key value; whether it set the key is what GET told before.
  pub setnx : String → String → R → R
  pub expire : String → ℕ → R → R
  -- SET key value EX seconds
  pub setex : String → String → ℕ → R → R
  pub del : String → R → R
  pub pass : ℕ → R → R
  pub get-setnx :
      (s : R) (k v j : String)
      → get (setnx k v s) j
        ≡ (if is_set (get s k) then get s j else if str_eq k j then some v else get s j)
  pub get-expire :
      (s : R) (k : String) (n : ℕ) (j : String) → 0 < n → get (expire k n s) j ≡ get s j
  pub get-del : (s : R) (k j : String) → get (del k s) j ≡ (if str_eq k j then none else get s j)
  pub get-pass :
      (s : R) (d : ℕ) (j : String)
      → get (pass d s) j ≡ (if is_over d (ttl s j) then none else get s j)
  pub ttl-expire :
      (s : R) (k : String) (n : ℕ) (j : String)
      → is_set (get s k) ≡ true
      → 0 < n
      → ttl (expire k n s) j ≡ (if str_eq k j then some (n * second) else ttl s j)
  pub ttl-pass : (s : R) (d : ℕ) (j : String) → ttl (pass d s) j ≡ left_after d (ttl s j)
  pub ttl-setnx : (s : R) (k v j : String) → ttl (setnx k v s) j ≡ ttl s j
  pub ttl-del : (s : R) (k j : String) → str_eq k j ≡ false → ttl (del k s) j ≡ ttl s j
  pub get-setex :
      (s : R) (k v : String) (n : ℕ) (j : String)
      → 0 < n
      → get (setex k v n s) j ≡ (if str_eq k j then some v else get s j)
  pub ttl-setex :
      (s : R) (k v : String) (n : ℕ) (j : String)
      → 0 < n
      → ttl (setex k v n s) j ≡ (if str_eq k j then some (n * second) else ttl s j)
