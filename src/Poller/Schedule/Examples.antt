-- ===== src/Poller/Schedule/Examples.antt =====
-- The theorems about Run's loop with an interval of ten: the clock is late by three ticks in the first
-- round, and on time in the second.
use seestorm_ingest.Base.{ℕ, zero, suc, ◌*◌, ◌+◌, ◌≤◌, ◌≡◌, ◌⊎◌, false, some, length, arith}
use seestorm_ingest.Base.Int.{ℤ, pos, ◌≤ℤ◌, ◌+ℤ◌}
use seestorm_ingest.Poller.Schedule.{skip_missed, Surroundings, run_ticks}
use seestorm_ingest.Poller.Schedule.Ticks.{Skips, skip_missed-Skips, Scheduled, run_ticks-Scheduled}

abbrev clock : ℕ → ℕ → ℤ
clock zero k = pos 135
clock (suc r) k = pos 140

abbrev surroundings : Surroundings
surroundings = record { start = pos 100; clock = clock; done = λ r. false }

on_time : (r k : ℕ) → clock r k ≤ℤ pos 100 +ℤ pos 45
unfolding ◌+ℤ◌
on_time zero k = omega arith
on_time (suc r) k = omega arith

skip_missed-Skips_example :
    (c : ℕ) × (skip_missed (suc 44) (clock 0) (pos 100) (pos 10) 0 1 ≡ some c)
    × (1 ≤ c)
    × ((c ≡ 1) ⊎ (c * 10 ≤ 45 + 10))
    × Skips (clock 0) (pos 100) (pos 10) 0 1 c
skip_missed-Skips_example =
    skip_missed-Skips (clock 0) (pos 100) 10 45 (omega arith) (on_time 0) (omega arith) 44 0 1
      (omega arith) (omega arith)

run_ticks-Scheduled_example :
    let ticks = run_ticks 2 (suc 45) surroundings (pos 10) in
    Scheduled surroundings (pos 10) 0 1 ticks
    × (((r : ℕ) → surroundings.done r ≡ false) → length ticks ≡ 2)
run_ticks-Scheduled_example =
    run_ticks-Scheduled surroundings 10 45 (omega arith) on_time 2 (omega arith)
