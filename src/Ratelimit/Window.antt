-- ===== src/Ratelimit/Window.antt =====
-- A log of the admitted requests, of which those in the window are counted, and how a sorted set of
-- backend/internal/ratelimit/limiter.go stands for it.
use notifyx.Prelude.{
  ℕ, suc, ◌+◌, ◌-◌, ◌≤◌, ◌<◌, String, ◌≡◌, Bool, ◌&&◌, ◌||◌, some, List, [], ◌∷◌, inl, inr, arith,
  leb, if◌then◌else◌, str_eq, Option-cases,
}
use notifyx.Redis.Sets.{RedisSets}
use notifyx.Ratelimit.{window_size, minus}

-- An admitted request: its time, its channel's key and its tenant's global key.
pub record Admitted : Type 0 where
  pub time : ℕ
  pub channel_key : String
  pub global_key : String

abbrev pub counts_for : String → Admitted → Bool
counts_for k a = str_eq a.channel_key k || str_eq a.global_key k

-- The admitted requests under a key from `lo` on.
unfoldable pub admitted_from : String → ℕ → List Admitted → ℕ
admitted_from k lo [] = 0
admitted_from k lo (a ∷ log) =
    let rest = admitted_from k lo log in if counts_for k a && leb lo a.time then suc rest else rest

-- The least time in the window that ends at `now`.
abbrev pub window_start : ℕ → ℕ
window_start now = if leb window_size now then suc (now - window_size) else 0

pub admitted_from_mono :
    (k : String) (lo lo' : ℕ) (log : List Admitted)
    → lo ≤ lo'
    → admitted_from k lo' log ≤ admitted_from k lo log
unfolding admitted_from
admitted_from_mono k lo lo' [] h = omega arith
admitted_from_mono k lo lo' (a ∷ log) h = ground (arith, admitted_from_mono k lo lo' log h)

module _ {R : Type 0} (sets : RedisSets R) where
  open sets use {zcount, ttl}

  -- At time `now` the set at `k` stands for the log.
  pub record StandsFor (s : R) (now : ℕ) (k : String) (log : List Admitted) : Type 0 where
    pub agree : (lo : ℕ) → now < lo + window_size → zcount s k lo ≡ admitted_from k lo log
    pub timed :
        (lo r : ℕ) → ttl s k ≡ some r → now + r ≤ lo + window_size → admitted_from k lo log ≡ 0
    pub past : (lo : ℕ) → now < lo → admitted_from k lo log ≡ 0

module _ {R : Type 0} (sets : RedisSets R) where
  open sets use {zcount, zscore, ttl, zremrangebyscore, zadd, expire, pass}

  -- The key's expiry loses nothing that is still in the window.
  pub StandsFor-pass :
      (s : R) (now d : ℕ) (k : String) (log : List Admitted)
      → StandsFor sets s now k log
      → StandsFor sets (pass d s) (now + d) k log
  StandsFor-pass s now d k log h = record {
    agree = λ lo p. elim (Option-cases (ttl s k)) [
      | inl e ↦ ground (arith, sets.zcount-pass s d k lo, h.agree lo)
      | inr (r, e) ↦ ground (arith, sets.zcount-pass s d k lo, h.agree lo, h.timed lo r)
    ];
    timed = λ lo r e p. elim (Option-cases (ttl s k)) [
      | inl none_left ↦ ground (arith, sets.ttl-pass s d k)
      | inr (q, some_left) ↦ ground (arith, sets.ttl-pass s d k, h.timed lo q)
    ];
    past = λ lo p. h.past lo (omega arith);
  }

  pub StandsFor-zremrangebyscore :
      (s : R) (now : ℕ) (j k : String) (log : List Admitted)
      → StandsFor sets s now k log
      → StandsFor sets (zremrangebyscore j (minus now window_size) s) now k log
  StandsFor-zremrangebyscore s now j k log h = record {
    agree = λ lo p.
        ground (arith, sets.zcount-zremrangebyscore s j (minus now window_size) k lo, h.agree lo);
    timed = λ lo r e p.
        ground (arith, sets.ttl-zremrangebyscore s j (minus now window_size) k, h.timed lo r);
    past = h.past;
  }
