-- ===== src/Tests/Limits.antt =====
-- The rate limiter and the deduplicator on stores in memory.
use notifyx.Prelude.{ℕ, ◌≤◌, String, ◌≡◌, refl, false, List, [], ◌∷◌, arith, All, ok}
use notifyx.Redis.MemorySets.{memory_sets, empty_sets}
use notifyx.Redis.MemoryStrings.{memory_strings, empty_strings}
use notifyx.Ratelimit.Window.{window_start}
use notifyx.Ratelimit.Runs.{Request}
use notifyx.Ratelimit.Limits.{
  Distinct, Limited, IsBlank, IsBlank-Refines, run, decide_all, log_of, admitted_between,
  run-eq-decide_all, window-le-cap,
}
use notifyx.Dedup.{existing, read_reply, reserve_script}
use notifyx.Dedup.Reservations.{
  Event, reserving, releasing, passing, happen_all, duration, reserve_again,
}
use notifyx.Tests.Uuids.{text_of, counted}

abbrev asking : ℕ → String → Request
asking delay member = record {
  delay = delay;
  channel_key = "rate:{a}:email";
  global_key = "rate:{a}:global";
  channel_max = 2;
  global_max = 5;
  member = member;
}

-- Four requests, of which the third is over the limit and the fourth comes when the first is old.
abbrev burst : List Request
burst = asking 10 "m1" ∷ asking 1 "m2" ∷ asking 1 "m3" ∷ asking 60000000000 "m4" ∷ []

burst-Distinct : Distinct (λ m. false) burst
burst-Distinct = (refl, refl, (refl, refl, (refl, refl, (refl, refl, tt))))

abbrev blank : IsBlank memory_sets empty_sets
blank = record { counts = λ k lo. refl; scores = λ k m. refl }

run-eq-decide_all_example : run memory_sets burst 0 empty_sets ≡ decide_all burst 0 []
run-eq-decide_all_example =
    run-eq-decide_all memory_sets burst 0 empty_sets [] (λ m. false)
      (IsBlank-Refines memory_sets empty_sets 0 blank) burst-Distinct

asking-Limited : (d : ℕ) (m : String) → Limited "rate:{a}:email" 2 (asking d m)
asking-Limited d m = (λ e. omega arith, λ e. ground arith)

burst-Limited : All (Limited "rate:{a}:email" 2) burst
burst-Limited = (
  asking-Limited 10 "m1",
  (asking-Limited 1 "m2", (asking-Limited 1 "m3", (asking-Limited 60000000000 "m4", tt))),
)

window-le-cap_example :
    admitted_between "rate:{a}:email"
      (window_start 12)
      12
      (log_of burst (run memory_sets burst 0 empty_sets) 0 [])
    ≤ 2
window-le-cap_example =
    window-le-cap memory_sets "rate:{a}:email" 2 burst 0 empty_sets blank burst-Distinct
      burst-Limited 12

abbrev between : List Event
between = passing 5000000000 ∷ reserving "k" "xx" ∷ releasing "j" ∷ []

reserve_again_example :
    read_reply counted
      (reserve_script memory_strings "k" (text_of 4) 10 (
        happen_all memory_strings 10 between
          (reserve_script memory_strings "k" (text_of 3) 10 empty_strings).1)).0
    ≡ ok (existing 3)
unfolding duration
reserve_again_example =
    reserve_again memory_strings 10 (omega arith) counted empty_strings "k" (text_of 4) 3 between
      refl (tt, (tt, (refl, tt))) (omega arith)
