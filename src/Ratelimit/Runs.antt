-- ===== src/Ratelimit/Runs.antt =====
-- One run of slidingWindowScript of backend/internal/ratelimit/limiter.go beside the log of the
-- admitted requests.
use notifyx.Prelude.{
  ℕ, suc, ◌+◌, ◌*◌, ◌/◌, ◌<◌, String, ◌≡◌, Bool, true, false, ◌&&◌, ◌||◌, none, some, List, ◌∷◌,
  inl, inr, arith, leb, ltb, if◌then◌else◌, str_eq, str_eq_iff, Bool-cases,
}
use notifyx.Redis.Sets.{RedisSets, second}
use notifyx.Ratelimit.{window_size, minus, script}
use notifyx.Ratelimit.Window.{
  Admitted, counts_for, admitted_from, window_start, StandsFor, StandsFor-zremrangebyscore,
}

-- The specification of one request over the log alone.
unfoldable pub decide : List Admitted → Admitted → ℕ → ℕ → Bool
decide log a channel_max global_max =
    ltb (admitted_from a.channel_key (window_start a.time) log) channel_max
    && ltb (admitted_from a.global_key (window_start a.time) log) global_max

unfoldable pub record_if : Bool → Admitted → List Admitted → List Admitted
record_if true a log = a ∷ log
record_if false a log = log

module _ {R : Type 0} (sets : RedisSets R) where
  open sets use {zcount, zscore, ttl, zremrangebyscore, zadd, expire, pass}

  -- After the trim ZCARD is the number of requests in the window.
  zcard_lem :
      (s : R) (now : ℕ) (k : String) (log : List Admitted)
      → StandsFor sets s now k log
      → zcount (zremrangebyscore k (minus now window_size) s) k 0
        ≡ admitted_from k (window_start now) log
  zcard_lem s now k log h = ground (
    arith,
    sets.zcount-zremrangebyscore s k (minus now window_size) k 0,
    str_eq_iff k k,
    h.agree (window_start now),
  )

  module _ (ck gk member : String) (now : ℕ) (s : R) (log : List Admitted)
      (apart : str_eq ck gk ≡ false) (unused : (j : String) → zscore s j member ≡ none) where
    abbrev request : Admitted
    request = record { time = now; channel_key = ck; global_key = gk }

    abbrev added : R
    added = zadd gk now member (zadd ck now member s)

    zcount-added :
        (j : String) (lo : ℕ)
        → zcount added j lo
          ≡ (if counts_for j request && leb lo now then suc (zcount s j lo) else zcount s j lo)
    zcount-added j lo = ground (
      arith,
      sets.zcount-zadd s ck now member j lo,
      sets.zcount-zadd (zadd ck now member s) gk now member j lo,
      sets.zscore-zadd s ck now member gk member,
      unused ck,
      unused gk,
      str_eq_iff ck gk,
      str_eq_iff ck j,
      str_eq_iff gk j,
    )

    zcount-added_pos : (j : String) → counts_for j request ≡ true → 0 < zcount added j 0
    zcount-added_pos j h = ground (arith, zcount-added j 0)

    abbrev expiring : R
    expiring = expire gk (window_size / second + 1) (expire ck (window_size / second + 1) added)

    zcount-expiring : (j : String) (lo : ℕ) → zcount expiring j lo ≡ zcount added j lo
    zcount-expiring j lo = ground (
      arith,
      sets.zcount-expire added ck 61 j lo,
      sets.zcount-expire (expire ck 61 added) gk 61 j lo,
    )

    ttl-expiring :
        (j : String)
        → ttl expiring j ≡ (if counts_for j request then some (61 * second) else ttl s j)
    ttl-expiring j = ground (
      arith,
      sets.ttl-expire added ck 61 j,
      sets.ttl-expire (expire ck 61 added) gk 61 j,
      zcount-added_pos ck,
      zcount-added_pos gk,
      str_eq_iff ck ck,
      str_eq_iff gk gk,
      sets.zcount-expire added ck 61 gk 0,
      sets.ttl-zadd s ck now member j,
      sets.ttl-zadd (zadd ck now member s) gk now member j,
    )

    StandsFor-expiring :
        (j : String) → StandsFor sets s now j log → StandsFor sets expiring now j (request ∷ log)
    unfolding admitted_from
    StandsFor-expiring j h = record {
      agree = λ lo p. ground (arith, zcount-expiring j lo, zcount-added j lo, h.agree lo);
      timed = λ lo r e p. ground (arith, ttl-expiring j, h.timed lo r, h.past lo);
      past = λ lo p. ground (arith, h.past lo);
    }

-- A request of a run: how long after the one before it comes, its keys and limits, its member.
pub record Request : Type 0 where
  pub delay : ℕ
  pub channel_key : String
  pub global_key : String
  pub channel_max : ℕ
  pub global_max : ℕ
  pub member : String

abbrev pub at_time : ℕ → Request → Admitted
at_time now q = record { time = now; channel_key = q.channel_key; global_key = q.global_key }

module _ {R : Type 0} (sets : RedisSets R) where
  open sets use {zscore, pass, zremrangebyscore}

  -- The script answers what the log says, and its sets stand for the new log.
  pub record Refines (s : R) (now : ℕ) (log : List Admitted) (used : String → Bool) : Type 0 where
    pub stands : (j : String) → StandsFor sets s now j log
    pub unused : (j m : String) → used m ≡ false → zscore s j m ≡ none

  abbrev pub run_script : ℕ → Request → R → Bool × R
  run_script now q s =
      script sets q.channel_key q.global_key now window_size q.channel_max q.global_max q.member s

module _ {R : Type 0} (sets : RedisSets R) (q : Request) (now : ℕ) (s : R) (log : List Admitted)
    (used : String → Bool) (apart : str_eq q.channel_key q.global_key ≡ false)
    (fresh : used q.member ≡ false) (h : Refines sets s now log used) where
  open sets use {zcount, zscore, zremrangebyscore}

  abbrev trimmed : R
  trimmed =
      zremrangebyscore q.global_key (minus now window_size)
        (zremrangebyscore q.channel_key (minus now window_size) s)

  abbrev full : Bool
  full =
      leb q.channel_max (zcount trimmed q.channel_key 0)
      || leb q.global_max (zcount trimmed q.global_key 0)

  abbrev added_twice : R
  added_twice = sets.zadd q.global_key now q.member (sets.zadd q.channel_key now q.member trimmed)

  trimmed_stands : (j : String) → StandsFor sets trimmed now j log
  trimmed_stands j =
      StandsFor-zremrangebyscore sets _ now q.global_key j log
        (StandsFor-zremrangebyscore sets s now q.channel_key j log (h.stands j))

  trimmed_unused : (j m : String) → used m ≡ false → zscore trimmed j m ≡ none
  trimmed_unused j m e =
      sets.zscore-zremrangebyscore _ q.global_key (minus now window_size) j m
        (sets.zscore-zremrangebyscore s q.channel_key (minus now window_size) j m (h.unused j m e))

  trimmed_channel :
      zcount trimmed q.channel_key 0 ≡ admitted_from q.channel_key (window_start now) log
  trimmed_channel = ground (
    arith,
    zcard_lem sets s now q.channel_key log (h.stands q.channel_key),
    sets.zcount-zremrangebyscore (zremrangebyscore q.channel_key (minus now window_size) s)
        q.global_key (minus now window_size) q.channel_key 0,
    str_eq_iff q.channel_key q.global_key,
    str_eq_iff q.global_key q.channel_key,
  )

  trimmed_global : zcount trimmed q.global_key 0 ≡ admitted_from q.global_key (window_start now) log
  trimmed_global =
      zcard_lem sets (zremrangebyscore q.channel_key (minus now window_size) s) now q.global_key log
        (StandsFor-zremrangebyscore sets s now q.channel_key q.global_key log
          (h.stands q.global_key))

  pub verdict_lem :
      (run_script sets now q s).0 ≡ decide log (at_time now q) q.channel_max q.global_max
  unfolding script decide
  verdict_lem = ground (arith, trimmed_channel, trimmed_global)

  after_stands :
      (j : String)
      → StandsFor sets
          (run_script sets now q s).1
          now
          j
          (record_if (run_script sets now q s).0 (at_time now q) log)
  unfolding script record_if
  after_stands j = elim (Bool-cases full) [
    | inl e ↦ rw e (trimmed_stands j)
    | inr e ↦ rw e (
        StandsFor-expiring sets q.channel_key q.global_key q.member now trimmed log apart
          (λ i. trimmed_unused i q.member fresh) j (trimmed_stands j))
  ]

  after_unused :
      (j m : String)
      → str_eq q.member m || used m ≡ false
      → zscore (run_script sets now q s).1 j m ≡ none
  unfolding script
  after_unused j m e = elim (Bool-cases full) [
    | inl f ↦ rw f (trimmed_unused j m (ground arith))
    | inr f ↦ rw f (
        ground (
          arith,
          trimmed_unused j m,
          sets.zscore-zadd trimmed q.channel_key now q.member j m,
          sets.zscore-zadd (sets.zadd q.channel_key now q.member trimmed) q.global_key now q.member
              j m,
          sets.zscore-expire added_twice q.channel_key 61 j m,
          sets.zscore-expire (sets.expire q.channel_key 61 added_twice) q.global_key 61 j m,
        ))
  ]

  -- One request of the script is one request of the specification.
  pub Refines-script :
      Refines sets
        (run_script sets now q s).1
        now
        (record_if (decide log (at_time now q) q.channel_max q.global_max) (at_time now q) log)
        (λ m. str_eq q.member m || used m)
  Refines-script = record {
    stands = λ j. rw (← verdict_lem) (after_stands j);
    unused = after_unused;
  }
