-- ===== src/Poller/Budget/Examples.antt =====
-- The theorems about the budgets at the default interval of 30 s.
use seestorm_ingest.Base.{◌+◌, ◌-◌, ◌*◌, max, ◌≡◌, refl, ◌≤◌, arith}
use seestorm_ingest.Base.Int.{ℤ, pos, ◌*ℤ◌, ◌+ℤ◌, ◌-ℤ◌, ◌≤ℤ◌, pos_part}
use seestorm_ingest.Duration.{second, mul64, quot, wrap64}
use seestorm_ingest.Poller.Budget.{
  cycle_floor, split_cycle_budget, with_budget_fraction, with_timeout, with_deadline,
}
use seestorm_ingest.Poller.Budget.Bounds.{split_cycle_budget_lem}
use seestorm_ingest.Poller.Budget.Fairness.{Fetches, store_keeps_share}

abbrev interval : ℤ
interval = pos (30 * second)

split_cycle_budget_lem_example :
    let b = split_cycle_budget (pos (25 * second)) in
    (cycle_floor ≤ℤ b.0)
    × (cycle_floor ≤ℤ b.1)
    × (b.1 ≤ℤ pos (15 * second))
    × (b.0 +ℤ b.1 ≡ pos (max (pos_part (pos (25 * second))) (2 * second)))
split_cycle_budget_lem_example =
    split_cycle_budget_lem (pos (25 * second)) (omega arith) (omega arith)

abbrev phase : ℤ
phase = pos (10 * second)

abbrev alerts_fetch : Fetches phase (pos 0) 50 (4 * second)
unfolding with_budget_fraction with_timeout with_deadline mul64 wrap64 quot ◌-ℤ◌ ◌+ℤ◌ ◌*ℤ◌
alerts_fetch = record { until = pos (5 * second); capped = refl; within = omega arith }

-- The batch of alerts takes a second.
abbrev spc : ℤ
spc = pos 0 +ℤ pos (4 * second) +ℤ pos second

abbrev torn_fetch : Fetches phase spc 20 second
unfolding with_budget_fraction with_timeout with_deadline mul64 wrap64 quot ◌-ℤ◌ ◌+ℤ◌ ◌*ℤ◌
torn_fetch = record { until = pos (6 * second); capped = refl; within = omega arith }

abbrev hail_fetch : Fetches phase (spc +ℤ pos second) 20 500_000_000
unfolding with_budget_fraction with_timeout with_deadline mul64 wrap64 quot ◌-ℤ◌ ◌+ℤ◌ ◌*ℤ◌
hail_fetch = record { until = pos 6_800_000_000; capped = refl; within = omega arith }

abbrev wind_fetch : Fetches phase (spc +ℤ pos second +ℤ pos 500_000_000) 20 0
unfolding with_budget_fraction with_timeout with_deadline mul64 wrap64 quot ◌-ℤ◌ ◌+ℤ◌ ◌*ℤ◌
wind_fetch = record { until = pos 7_200_000_000; capped = refl; within = omega arith }

store_keeps_share_example :
    (10 * second ≤ 2 * (10 * second - 4 * second))
    × (512 * (10 * second - 4 * second - second)
        ≤ 1000 * (10 * second - 4 * second - second - (second + 500_000_000 + 0)))
store_keeps_share_example =
    store_keeps_share phase (pos 0) (10 * second) (4 * second) second second 500_000_000 0
      (unfold ◌+ℤ◌ in refl) (omega arith) (omega arith) alerts_fetch (omega arith) torn_fetch
      hail_fetch wind_fetch
