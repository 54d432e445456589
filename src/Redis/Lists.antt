-- ===== src/Redis/Lists.antt =====
-- The list commands of the offline queue.
use notifyx.Prelude.{
  ℕ, ◌*◌, ◌<◌, ◌≡◌, String, Bool, true, false, Option, some, List, [], ◌∷◌, ◌++◌, if◌then◌else◌,
  str_eq,
}
use notifyx.Redis.Sets.{second, is_over, left_after}

abbrev pub has_rows : List String → Bool
has_rows [] = false
has_rows (v ∷ vs) = true

pub record RedisLists (R : Type 0) : Type 0 where
  -- LRANGE key 0 -1
  pub lrange : R → String → List String
  -- PTTL key
  pub ttl : R → String → Option ℕ
  pub rpush : String → String → R → R
  pub expire : String → ℕ → R → R
  pub del : String → R → R
  pub pass : ℕ → R → R
  pub lrange-rpush :
      (s : R) (k v j : String)
      → lrange (rpush k v s) j ≡ (if str_eq k j then lrange s j ++ v ∷ [] else lrange s j)
  pub lrange-expire :
      (s : R) (k : String) (n : ℕ) (j : String) → 0 < n → lrange (expire k n s) j ≡ lrange s j
  pub lrange-del :
      (s : R) (k j : String) → lrange (del k s) j ≡ (if str_eq k j then [] else lrange s j)
  pub lrange-pass :
      (s : R) (d : ℕ) (j : String)
      → lrange (pass d s) j ≡ (if is_over d (ttl s j) then [] else lrange s j)
  pub ttl-expire :
      (s : R) (k : String) (n : ℕ) (j : String)
      → has_rows (lrange s k) ≡ true
      → 0 < n
      → ttl (expire k n s) j ≡ (if str_eq k j then some (n * second) else ttl s j)
  pub ttl-pass : (s : R) (d : ℕ) (j : String) → ttl (pass d s) j ≡ left_after d (ttl s j)
