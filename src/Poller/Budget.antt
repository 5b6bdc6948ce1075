-- ===== src/Poller/Budget.antt =====
-- internal/poller/poller.go: deriveCycleTimeout, splitCycleBudget, withBudgetFraction.
pub mod Bounds
pub mod Fairness
pub mod Examples
use seestorm_ingest.Base.{ℕ, ◌*◌, Option, none, some, if◌then◌else◌}
use seestorm_ingest.Base.Int.{ℤ, pos, ◌+ℤ◌, ◌-ℤ◌, ltb_ℤ}
use seestorm_ingest.Duration.{
  sub64, mul64, quot, second, poll_cycle_timeout_sec, publish_phase_budget_sec,
}

abbrev pub cycle_slack : ℤ
cycle_slack = pos (5 * second)

abbrev pub cycle_floor : ℤ
cycle_floor = pos (1 * second)

unfoldable pub derive_cycle_timeout : ℤ → ℤ
derive_cycle_timeout interval =
    let ceiling = pos (poll_cycle_timeout_sec * second) in
    let derived = sub64 interval cycle_slack in
    let clamped = if ltb_ℤ ceiling derived then ceiling else derived in
    if ltb_ℤ clamped cycle_floor then cycle_floor else clamped

abbrev phase_floor : ℤ
phase_floor = pos second

-- The fetch-and-store budget, and the publish budget.
unfoldable pub split_cycle_budget : ℤ → ℤ × ℤ
split_cycle_budget cycle_timeout =
    let full = pos (publish_phase_budget_sec * second) in
    let max_publish = sub64 cycle_timeout phase_floor in
    let capped = if ltb_ℤ max_publish full then max_publish else full in
    let publish_budget = if ltb_ℤ capped phase_floor then phase_floor else capped in
    let rest = sub64 cycle_timeout publish_budget in
    (if ltb_ℤ rest phase_floor then phase_floor else rest, publish_budget)

-- A context's deadline, an instant; `none` if it has none.
pub record Context : Type 0 where
  pub deadline : Option ℤ

-- context.WithDeadline: the earlier of the two deadlines.
unfoldable pub with_deadline : Context → ℤ → Context
with_deadline ctx d = elim ctx.deadline [
  | none ↦ record { deadline = some d }
  | some dl ↦ record { deadline = some (if ltb_ℤ dl d then dl else d) }
]

-- context.WithTimeout, at the instant `now`
unfoldable pub with_timeout : Context → ℤ → ℤ → Context
unfolding with_deadline
with_timeout ctx now d = with_deadline ctx (now +ℤ d)

unfoldable pub with_budget_fraction : Context → ℤ → ℕ → Context
unfolding with_timeout
with_budget_fraction ctx now pct = elim ctx.deadline [
  | none ↦ ctx
  | some dl ↦
      let remaining = dl -ℤ now in
      if ltb_ℤ (pos 0) remaining
      then with_timeout ctx now (quot (mul64 remaining (pos pct)) 100)
      else with_deadline ctx dl
]
