-- ===== src/Ratelimit/Limits.antt =====
-- slidingWindowScript of backend/internal/ratelimit/limiter.go over whole runs of requests: its
-- answers, and the admitted requests in a window of 60 seconds.
use notifyx.Prelude.{
  ℕ, suc, ◌+◌, ◌≤◌, ◌<◌, String, ◌≡◌, refl, Bool, true, false, ◌&&◌, ◌||◌, none, List, [], ◌∷◌,
  arith, leb, if◌then◌else◌, str_eq, str_eq_iff, All, Bool-cases, inl, inr,
}
use notifyx.Redis.Sets.{RedisSets}
use notifyx.Ratelimit.Window.{
  Admitted, counts_for, admitted_from, admitted_from_mono, window_start, StandsFor-pass,
}
use notifyx.Ratelimit.Runs.{
  Request, at_time, decide, record_if, run_script, Refines, Refines-script, verdict_lem,
}

-- The members of a run are new, and no channel's key is its tenant's global key.
abbrev pub Distinct : (String → Bool) → List Request → Type 0
Distinct used [] = Unit {0}
Distinct used (q ∷ qs) =
    (used q.member ≡ false)
    × (str_eq q.channel_key q.global_key ≡ false)
    × Distinct (λ m. str_eq q.member m || used m) qs

module _ {R : Type 0} (sets : RedisSets R) where
  open sets use {pass}

  -- The script's answers to a run of requests.
  unfoldable pub run : List Request → ℕ → R → List Bool
  run [] now s = []
  run (q ∷ qs) now s =
      let r = run_script sets (now + q.delay) q (pass q.delay s) in r.0 ∷ run qs (now + q.delay) r.1

-- The specification's answers, and the log that it ends with.
unfoldable pub decide_all : List Request → ℕ → List Admitted → List Bool
decide_all [] now log = []
decide_all (q ∷ qs) now log =
    let a = at_time (now + q.delay) q in
    let verdict = decide log a q.channel_max q.global_max in
    verdict ∷ decide_all qs (now + q.delay) (record_if verdict a log)

unfoldable pub admit_all : List Request → ℕ → List Admitted → List Admitted
admit_all [] now log = log
admit_all (q ∷ qs) now log =
    let a = at_time (now + q.delay) q in
    admit_all qs (now + q.delay) (record_if (decide log a q.channel_max q.global_max) a log)

module _ {R : Type 0} (sets : RedisSets R) where
  open sets use {zcount, zscore, ttl, pass}

  Refines-pass :
      (s : R) (now d : ℕ) (log : List Admitted) (used : String → Bool)
      → Refines sets s now log used
      → Refines sets (pass d s) (now + d) log used
  Refines-pass s now d log used h = record {
    stands = λ j. StandsFor-pass sets s now d j log (h.stands j);
    unused = λ j m e. sets.zscore-pass s d j m (h.unused j m e);
  }

  -- Whatever the requests, the script answers each as the log of those admitted before it
  -- decides: the trimming and the expiry of the keys make no difference. The members are
  -- distinct and the two keys of a request differ.
  pub run-eq-decide_all :
      (qs : List Request) (now : ℕ) (s : R) (log : List Admitted) (used : String → Bool)
      → Refines sets s now log used
      → Distinct used qs
      → run sets qs now s ≡ decide_all qs now log
  unfolding run decide_all
  run-eq-decide_all [] now s log used h d = refl
  run-eq-decide_all (q ∷ qs) now s log used h d =
      let t = now + q.delay in
      let s' = pass q.delay s in
      let h' = Refines-pass s now q.delay log used h in
      let e = verdict_lem sets q t s' log used d.1 d.0 h' in
      λ i.
        e i
        ∷ run-eq-decide_all qs t (run_script sets t q s').1
            (record_if (decide log (at_time t q) q.channel_max q.global_max) (at_time t q) log)
            (λ m. str_eq q.member m || used m) (Refines-script sets q t s' log used d.1 d.0 h') d.2
            i

  -- A store that has no sorted set.
  pub record IsBlank (s : R) : Type 0 where
    pub counts : (k : String) (lo : ℕ) → zcount s k lo ≡ 0
    pub scores : (k m : String) → zscore s k m ≡ none

  pub IsBlank-Refines : (s : R) (now : ℕ) → IsBlank s → Refines sets s now [] (λ m. false)
  unfolding admitted_from
  IsBlank-Refines s now b = record {
    stands = λ j. record {
      agree = λ lo p. b.counts j lo;
      timed = λ lo r e p. refl;
      past = λ lo p. refl;
    };
    unused = λ j m e. b.scores j m;
  }

-- The admitted requests under a key from `lo` to `hi`.
unfoldable pub admitted_between : String → ℕ → ℕ → List Admitted → ℕ
admitted_between k lo hi [] = 0
admitted_between k lo hi (a ∷ log) =
    let rest = admitted_between k lo hi log in
    if counts_for k a && (leb lo a.time && leb a.time hi) then suc rest else rest

admitted_between-le :
    (k : String) (lo hi : ℕ) (log : List Admitted)
    → admitted_between k lo hi log ≤ admitted_from k lo log
unfolding admitted_between admitted_from
admitted_between-le k lo hi [] = omega arith
admitted_between-le k lo hi (a ∷ log) = ground (arith, admitted_between-le k lo hi log)

-- Each request that counts for the key comes with a limit of at most `cap` there.
abbrev pub Limited : String → ℕ → Request → Type 0
Limited k cap q =
    (str_eq q.channel_key k ≡ true → q.channel_max ≤ cap)
    × (str_eq q.global_key k ≡ true → q.global_max ≤ cap)

abbrev pub Capped : String → ℕ → List Admitted → Type 0
Capped k cap log = (t : ℕ) → admitted_between k (window_start t) t log ≤ cap

window_start_mono : (a b : ℕ) → a ≤ b → window_start a ≤ window_start b
window_start_mono a b h = ground arith

room_for :
    (k : String) (cap : ℕ) (log : List Admitted) (now : ℕ) (q : Request)
    → Limited k cap q
    → decide log (at_time now q) q.channel_max q.global_max ≡ true
    → counts_for k (at_time now q) ≡ true
    → admitted_from k (window_start now) log < cap
unfolding decide
room_for k cap log now q l d c = elim (Bool-cases (str_eq q.channel_key k)) [
  | inl e ↦ ground (arith, str_eq_iff q.channel_key k, l.0 e)
  | inr e ↦ ground (arith, str_eq_iff q.global_key k, l.1)
]

Capped-record_if :
    (k : String) (cap : ℕ) (log : List Admitted) (now : ℕ) (q : Request)
    → Limited k cap q
    → Capped k cap log
    → Capped k cap
        (record_if (decide log (at_time now q) q.channel_max q.global_max) (at_time now q) log)
unfolding record_if admitted_between
Capped-record_if k cap log now q l h t = ground (
  arith,
  h t,
  room_for k cap log now q l,
  admitted_between-le k (window_start t) t log,
  admitted_from_mono k (window_start now) (window_start t) log,
  window_start_mono now t,
)

admit_all-Capped :
    (k : String) (cap : ℕ) (qs : List Request) (now : ℕ) (log : List Admitted)
    → All (Limited k cap) qs
    → Capped k cap log
    → Capped k cap (admit_all qs now log)
unfolding admit_all
admit_all-Capped k cap [] now log l h = h
admit_all-Capped k cap (q ∷ qs) now log l h =
    admit_all-Capped k cap qs (now + q.delay)
      (record_if (decide log (at_time (now + q.delay) q) q.channel_max q.global_max)
        (at_time (now + q.delay) q) log)
      l.1 (Capped-record_if k cap log (now + q.delay) q l.0 h)

-- The requests that got a `true`, the newest first.
unfoldable pub log_of : List Request → List Bool → ℕ → List Admitted → List Admitted
log_of [] bs now log = log
log_of (q ∷ qs) [] now log = log
log_of (q ∷ qs) (b ∷ bs) now log =
    log_of qs bs (now + q.delay) (record_if b (at_time (now + q.delay) q) log)

log_of-decide_all :
    (qs : List Request) (now : ℕ) (log : List Admitted)
    → log_of qs (decide_all qs now log) now log ≡ admit_all qs now log
unfolding log_of decide_all admit_all
log_of-decide_all [] now log = refl
log_of-decide_all (q ∷ qs) now log = log_of-decide_all qs (now + q.delay) (
    record_if (decide log (at_time (now + q.delay) q) q.channel_max q.global_max)
      (at_time (now + q.delay) q) log)

module _ {R : Type 0} (sets : RedisSets R) where
  -- Run the script on an empty store, on any requests with distinct members that carry limits of
  -- at most `cap` under a key (a channel's key or a tenant's global key). Then no window of 60
  -- seconds, ending at any time t, holds more than `cap` of the requests under that key that the
  -- script let through.
  pub window-le-cap :
      (k : String) (cap : ℕ) (qs : List Request) (now : ℕ) (s : R)
      → IsBlank sets s
      → Distinct (λ m. false) qs
      → All (Limited k cap) qs
      → (t : ℕ) → admitted_between k (window_start t) t (log_of qs (run sets qs now s) now []) ≤ cap
  window-le-cap k cap qs now s b d l t =
      rw (run-eq-decide_all sets qs now s [] (λ m. false) (IsBlank-Refines sets s now b) d) (
        rw (log_of-decide_all qs now [])
          (admit_all-Capped k cap qs now [] l (λ u. unfold admitted_between in omega arith) t))
