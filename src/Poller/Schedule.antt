-- ===== src/Poller/Schedule.antt =====
-- internal/poller/poller.go: startupJitter and Run. A round of Run's loop passes over the ticks that
-- were missed and then waits for the next one. The clock is read once for each tick that is looked
-- at; `clock k` is its reading, and `done` says whether the context ends during the wait of a round.
pub mod Ticks
pub mod Examples
use seestorm_ingest.Base.{
  ℕ, zero, suc, Bool, true, false, Option, none, some, List, [], ◌∷◌, if◌then◌else◌, not,
}
use seestorm_ingest.Base.Int.{ℤ, pos, ◌+ℤ◌, ltb_ℤ}
use seestorm_ingest.Duration.{mul64}
use seestorm_ingest.Poller.Mode.{Mode, should_ingest}

-- rand.Int64N, for an argument above 0
unfoldable pub random_jitter : (ℤ → ℕ) → ℤ → ℤ
random_jitter int64n interval = if ltb_ℤ (pos 0) interval then pos (int64n interval) else pos 0

-- The method: `jitter_func` is the override of the configuration.
unfoldable pub startup_jitter : Mode → Option (ℤ → ℤ) → (ℤ → ℕ) → ℤ → ℤ
unfolding random_jitter
startup_jitter mode jitter_func int64n interval = elim (should_ingest mode) [
  | false ↦ pos 0
  | true ↦ elim jitter_func [ some f ↦ f interval | none ↦ random_jitter int64n interval ]
]

-- start.Add(time.Duration(cycle) * interval)
unfoldable pub next_at : ℤ → ℤ → ℕ → ℤ
next_at start interval cycle = start +ℤ mul64 (pos cycle) interval

-- The inner loop, from reading `k` on: the next tick that was not missed; `none`: out of fuel.
unfoldable pub skip_missed : ℕ → (ℕ → ℤ) → ℤ → ℤ → ℕ → ℕ → Option ℕ
unfolding next_at
skip_missed zero clock start interval k cycle = none
skip_missed (suc fuel) clock start interval k cycle =
    elim (ltb_ℤ (next_at start interval cycle) (clock k)) [
      | false ↦ some cycle
      | true ↦ skip_missed fuel clock start interval (suc k) (suc cycle)
    ]

-- What surrounds Run after its first poll: the start, the clock in each round, the context.
pub record Surroundings : Type 0 where
  pub start : ℤ
  pub clock : ℕ → ℕ → ℤ
  pub done : ℕ → Bool

-- The ticks at which cycles start, in this many rounds at most from round `round` on.
unfoldable pub ticks_from : ℕ → ℕ → Surroundings → ℤ → ℕ → ℕ → List ℕ
unfolding skip_missed
ticks_from zero fuel w interval round cycle = []
ticks_from (suc rounds) fuel w interval round cycle =
    elim (skip_missed fuel (w.clock round) w.start interval 0 cycle) [
      | none ↦ []
      | some c ↦ elim (w.done round) [
        | true ↦ []
        | false ↦ c ∷ ticks_from rounds fuel w interval (suc round) (suc c)
      ]
    ]

-- Run's loop after the poll at the start
unfoldable pub run_ticks : ℕ → ℕ → Surroundings → ℤ → List ℕ
unfolding ticks_from
run_ticks rounds fuel w interval = ticks_from rounds fuel w interval 0 1
