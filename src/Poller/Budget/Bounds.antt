-- ===== src/Poller/Budget/Bounds.antt =====
-- About deriveCycleTimeout and splitCycleBudget of internal/poller/poller.go.
use seestorm_ingest.Base.{
  ◌+◌, ◌*◌, ◌-◌, ◌^◌, ◌<◌, min, max, ◌↔◌, ◌⊎◌, true, ◌≡◌, arith, subst, sym, ap,
}
use seestorm_ingest.Base.Int.{ℤ, pos, negsuc, pos_part, neg_part, ◌-ℤ◌, ◌≤ℤ◌, ltb_ℤ, ◌+ℤ◌, eq_pos}
use seestorm_ingest.Duration.{Fits64, sub64, wrap64, second}
use seestorm_ingest.Poller.Budget.{cycle_floor, derive_cycle_timeout, split_cycle_budget}

-- The timeout lies between 1 s and 25 s.
derive_cycle_timeout_bounds :
    (interval : ℤ)
    → (cycle_floor ≤ℤ derive_cycle_timeout interval)
      × (derive_cycle_timeout interval ≤ℤ pos (25 * second))
unfolding derive_cycle_timeout
derive_cycle_timeout_bounds interval = ground arith

-- The cycle timeout for every int64 interval: 1 s below 6 s; from 6 s on the interval less 5 s, at
-- most 25 s; and 25 s for the lowest intervals, where the subtraction wraps around.
pub derive_cycle_timeout_lem :
    (interval : ℤ)
    → Fits64 interval
    → let t = derive_cycle_timeout interval in
      ((interval ≤ℤ pos (6 * second)) × (t ≡ cycle_floor))
      ⊎ ((pos (6 * second) ≤ℤ interval)
          × (t ≡ pos (min (pos_part interval - 5 * second) (25 * second))))
      ⊎ ((2 ^ 63 < neg_part interval + 5 * second) × (t ≡ pos (25 * second)))
unfolding derive_cycle_timeout sub64 wrap64 ◌-ℤ◌
derive_cycle_timeout_lem (pos n) f = ground arith
derive_cycle_timeout_lem (negsuc n) f = ground arith

-- The cycle timeout stays below the interval exactly for intervals of more than 1 s.
pub derive_cycle_timeout-lt_iff :
    (interval : ℤ)
    → Fits64 interval
    → (ltb_ℤ (derive_cycle_timeout interval) interval ≡ true) ↔ (ltb_ℤ cycle_floor interval ≡ true)
unfolding derive_cycle_timeout sub64 wrap64 ◌-ℤ◌
derive_cycle_timeout-lt_iff (pos n) f = ground arith
derive_cycle_timeout-lt_iff (negsuc n) f = ground arith

-- Both phases get at least 1 s, publish at most 15 s; their budgets add up to the cycle timeout,
-- or to 2 s where the timeout is shorter than that.
pub split_cycle_budget_lem :
    (t : ℤ)
    → cycle_floor ≤ℤ t
    → Fits64 t
    → let b = split_cycle_budget t in
      (cycle_floor ≤ℤ b.0)
      × (cycle_floor ≤ℤ b.1)
      × (b.1 ≤ℤ pos (15 * second))
      × (b.0 +ℤ b.1 ≡ pos (max (pos_part t) (2 * second)))
unfolding split_cycle_budget sub64 wrap64 ◌-ℤ◌ ◌+ℤ◌
split_cycle_budget_lem (pos n) l f = ground arith
split_cycle_budget_lem (negsuc n) l f = absurd (omega arith)

-- For every interval of 2 s or more the two phases together fit into the interval.
pub phases_fit :
    (interval : ℤ)
    → pos (2 * second) ≤ℤ interval
    → Fits64 interval
    → let b = split_cycle_budget (derive_cycle_timeout interval) in b.0 +ℤ b.1 ≤ℤ interval
phases_fit interval l f =
    let (lo, hi) = derive_cycle_timeout_bounds interval in
    let whole = eq_pos (derive_cycle_timeout interval) (omega arith) in
    rw
      (split_cycle_budget_lem (derive_cycle_timeout interval) lo
        (subst Fits64 (sym whole) (omega (arith, ap neg_part whole)))).3
      (ground (arith, derive_cycle_timeout_lem interval f))
