-- ===== src/Redis/Sets.antt =====
-- The sorted-set commands of the rate limiter's script.
use notifyx.Prelude.{
  ℕ, suc, ◌-◌, ◌*◌, ◌<◌, ◌≡◌, ◌⊎◌, String, Bool, false, ◌&&◌, Option, none, some, leb,
  if◌then◌else◌, str_eq,
}

abbrev pub second : ℕ
second = 1000000000

-- The least score that a removal of the scores up to `hi` leaves among those from `lo` on.
abbrev pub above : Option ℕ → ℕ → ℕ
above none lo = lo
above (some hi) lo = if leb lo hi then suc hi else lo

abbrev pub is_over : ℕ → Option ℕ → Bool
is_over d none = false
is_over d (some r) = leb r d

abbrev pub left_after : ℕ → Option ℕ → Option ℕ
left_after d none = none
left_after d (some r) = if leb r d then none else some (r - d)

pub record RedisSets (R : Type 0) : Type 0 where
  -- ZCOUNT key lo +inf; ZCARD is this count from 0 on, since no score is negative.
  pub zcount : R → String → ℕ → ℕ
  -- ZSCORE key member
  pub zscore : R → String → String → Option ℕ
  -- PTTL key: how long the key has left, if it expires.
  pub ttl : R → String → Option ℕ
  -- ZREMRANGEBYSCORE key 0 hi, where `none` is a negative bound.
  pub zremrangebyscore : String → Option ℕ → R → R
  -- ZADD key score member
  pub zadd : String → ℕ → String → R → R
  -- EXPIRE key seconds
  pub expire : String → ℕ → R → R
  -- The server's clock goes on.
  pub pass : ℕ → R → R
  pub zcount-zremrangebyscore :
      (s : R) (k : String) (hi : Option ℕ) (j : String) (lo : ℕ)
      → zcount (zremrangebyscore k hi s) j lo
        ≡ (if str_eq k j then zcount s j (above hi lo) else zcount s j lo)
  pub zcount-zadd :
      (s : R) (k : String) (score : ℕ) (m : String) (j : String) (lo : ℕ)
      → zscore s k m ≡ none
      → zcount (zadd k score m s) j lo
        ≡ (if str_eq k j && leb lo score then suc (zcount s j lo) else zcount s j lo)
  pub zcount-expire :
      (s : R) (k : String) (n : ℕ) (j : String) (lo : ℕ)
      → 0 < n
      → zcount (expire k n s) j lo ≡ zcount s j lo
  pub zcount-pass :
      (s : R) (d : ℕ) (j : String) (lo : ℕ)
      → zcount (pass d s) j lo ≡ (if is_over d (ttl s j) then 0 else zcount s j lo)
  pub zscore-zremrangebyscore :
      (s : R) (k : String) (hi : Option ℕ) (j m : String)
      → zscore s j m ≡ none
      → zscore (zremrangebyscore k hi s) j m ≡ none
  pub zscore-zadd :
      (s : R) (k : String) (score : ℕ) (m j m' : String)
      → str_eq k j && str_eq m m' ≡ false
      → zscore (zadd k score m s) j m' ≡ zscore s j m'
  pub zscore-expire :
      (s : R) (k : String) (n : ℕ) (j m : String) → 0 < n → zscore (expire k n s) j m ≡ zscore s j m
  pub zscore-pass :
      (s : R) (d : ℕ) (j m : String) → zscore s j m ≡ none → zscore (pass d s) j m ≡ none
  -- A removal that empties the set deletes the key.
  pub ttl-zremrangebyscore :
      (s : R) (k : String) (hi : Option ℕ) (j : String)
      → (ttl (zremrangebyscore k hi s) j ≡ ttl s j) ⊎ (ttl (zremrangebyscore k hi s) j ≡ none)
  pub ttl-zadd :
      (s : R) (k : String) (score : ℕ) (m j : String) → ttl (zadd k score m s) j ≡ ttl s j
  pub ttl-expire :
      (s : R) (k : String) (n : ℕ) (j : String)
      → 0 < zcount s k 0
      → 0 < n
      → ttl (expire k n s) j ≡ (if str_eq k j then some (n * second) else ttl s j)
  pub ttl-pass : (s : R) (d : ℕ) (j : String) → ttl (pass d s) j ≡ left_after d (ttl s j)
