-- ===== src/Poller/Budget/Fairness.antt =====
-- About withBudgetFraction of internal/poller/poller.go: how the upstream fetches of a cycle share the
-- fetch-and-store phase.

use seestorm_ingest.Base.{ℕ, ◌*◌, ◌/◌, ◌≤◌, ◌<◌, ◌≡◌, some, arith, ◌^◌, ◌+◌, ap, ◌-◌}
use seestorm_ingest.Base.Int.{
  ℤ, pos, ◌+ℤ◌, +ℤ_parts, sub-add_left, ◌≤ℤ◌, pos_part, neg_part, eq_of_parts,
}
use seestorm_ingest.Duration.{
  mul64-pos, quot-pos, poll_cycle_timeout_sec, second, alerts_fetch_budget_percent,
  spc_fetch_budget_percent,
}
use seestorm_ingest.Poller.Budget.{with_deadline, with_budget_fraction}

share-le : (n pct : ℕ) → pct ≤ 100 → n * pct / 100 ≤ n
share-le n pct h = let more : n * pct ≤ n * 100 = grind arith in omega arith

-- The child's deadline lies `n * pct / 100` after `now`, where `n` is what is left to the parent's.
pub with_budget_fraction_lem :
    (now : ℤ) (n pct : ℕ)
    → 0 < n
    → pct ≤ 100
    → n * pct < 2 ^ 63
    → with_budget_fraction (record { deadline = some (now +ℤ pos n) }) now pct
      ≡ record { deadline = some (now +ℤ pos (n * pct / 100)) }
unfolding with_budget_fraction with_deadline
with_budget_fraction_lem now n pct p h l =
    rw (sub-add_left now (pos n), mul64-pos n pct l, quot-pos (n * pct) 99)
      (ground (arith, +ℤ_parts now (pos n), +ℤ_parts now (pos (n * pct / 100)), share-le n pct h))

share-lt : (n pct : ℕ) → 0 < n → pct < 100 → n * pct / 100 < n
share-lt n pct p h = let less : n * pct + n ≤ n * 100 = grind arith in omega arith

-- A fetch that begins at `now` under `pct` percent of what is left until `deadline`, and that ends
-- within its context, takes at most `used`.
pub record Fetches (deadline now : ℤ) (pct used : ℕ) : Type 0 where
  pub until : ℤ
  pub capped :
      with_budget_fraction (record { deadline = some deadline }) now pct
      ≡ record { deadline = some until }
  pub within : now +ℤ pos used ≤ℤ until

module _ (deadline now : ℤ) (n pct used : ℕ) where
  fetch_share :
      deadline ≡ now +ℤ pos n
      → 0 < n
      → pct < 100
      → n * pct < 2 ^ 63
      → Fetches deadline now pct used
      → used ≤ n * pct / 100
  fetch_share e p h l f =
      let until_lem : f.until ≡ now +ℤ pos (n * pct / 100) =
        cc (f.capped, with_budget_fraction_lem now n pct p (omega arith) l) in
      omega (arith, +ℤ_parts, f.within, ap pos_part until_lem, ap neg_part until_lem)

later :
    (deadline now : ℤ) (n used : ℕ)
    → deadline ≡ now +ℤ pos n
    → used ≤ n
    → deadline ≡ now +ℤ pos used +ℤ pos (n - used)
later deadline now n used e h =
    eq_of_parts _ _ (omega (arith, +ℤ_parts, ap pos_part e, ap neg_part e))

-- The steps of the fetch-and-store phase run one after another: the alerts are fetched under 50 percent
-- of the phase, their batch takes `batch`, and the three report feeds are fetched under 20 percent each
-- of what is then left. In a phase of at most 25 s, however long each fetch takes within its context,
-- at least half of the phase is left when the alerts have been fetched. If the batch ends before the
-- phase does, at least 51.2 percent of what it leaves is left for the write of the reports.
pub store_keeps_share :
    (deadline now : ℤ) (n alerts batch torn hail wind : ℕ)
    → deadline ≡ now +ℤ pos n
    → 0 < n
    → n ≤ poll_cycle_timeout_sec * second
    → Fetches deadline now alerts_fetch_budget_percent alerts
    → alerts + batch < n
    → let spc = now +ℤ pos alerts +ℤ pos batch in
      Fetches deadline spc spc_fetch_budget_percent torn
      → Fetches deadline (spc +ℤ pos torn) spc_fetch_budget_percent hail
      → Fetches deadline (spc +ℤ pos torn +ℤ pos hail) spc_fetch_budget_percent wind
      → (n ≤ 2 * (n - alerts))
        × (512 * (n - alerts - batch) ≤ 1000 * (n - alerts - batch - (torn + hail + wind)))
store_keeps_share deadline now n alerts batch torn hail wind e p l f within g h k =
    let a = fetch_share deadline now n 50 alerts e p (omega arith) (omega arith) f in
    let e₁ = later deadline now n alerts e (omega arith) in
    let rest = n - alerts - batch in
    let e₂ = later deadline _ (n - alerts) batch e₁ (omega arith) in
    let b = fetch_share deadline _ rest 20 torn e₂ (omega arith) (omega arith) (omega arith) g in
    let e₃ = later deadline _ rest torn e₂ (omega arith) in
    let c =
      fetch_share deadline _ (rest - torn) 20 hail e₃ (omega arith) (omega arith) (omega arith) h in
    let e₄ = later deadline _ (rest - torn) hail e₃ (omega arith) in
    let d =
      fetch_share deadline _ (rest - torn - hail) 20 wind e₄ (omega arith) (omega arith)
        (omega arith) k in
    (omega arith, omega arith)
