-- ===== src/Duration.antt =====
-- Go's time.Duration: an int64 of nanoseconds, whose arithmetic wraps around; and the constants of
-- internal/config/constants.go that are used as durations.
use seestorm_ingest.Base.{
  ℕ, ◌+◌, ◌-◌, ◌/◌, ◌%◌, ◌^◌, ◌≤◌, ◌<◌, ◌≡◌, arith, ltb, if◌then◌else◌, ◌*◌, suc,
}
use seestorm_ingest.Base.Int.{ℤ, pos, negsuc, pos_part, neg_part, sub_ℕ, ◌+ℤ◌, ◌-ℤ◌, ◌*ℤ◌}

-- The residue of an integer modulo 2^64.
abbrev word64 : ℤ → ℕ
word64 z = (pos_part z + (2 ^ 64 - neg_part z % 2 ^ 64)) % 2 ^ 64

-- The int64 with the same residue.
unfoldable pub wrap64 : ℤ → ℤ
wrap64 z = if ltb (word64 z) (2 ^ 63) then pos (word64 z) else negsuc (2 ^ 64 - word64 z - 1)

abbrev pub Fits64 : ℤ → Type 0
Fits64 z = (pos_part z < 2 ^ 63) × (neg_part z ≤ 2 ^ 63)

pub wrap64-Fits64 : (z : ℤ) → Fits64 (wrap64 z)
unfolding wrap64
wrap64-Fits64 z = ground arith

pub wrap64-eq_self : (z : ℤ) → Fits64 z → wrap64 z ≡ z
unfolding wrap64
wrap64-eq_self (pos n) h = ground arith
wrap64-eq_self (negsuc n) h = ground arith

unfoldable pub add64 : ℤ → ℤ → ℤ
add64 a b = wrap64 (a +ℤ b)

unfoldable pub sub64 : ℤ → ℤ → ℤ
sub64 a b = wrap64 (a -ℤ b)

unfoldable pub mul64 : ℤ → ℤ → ℤ
mul64 a b = wrap64 (a *ℤ b)

-- Go's `/` by a positive constant: it rounds towards zero.
unfoldable pub quot : ℤ → ℕ → ℤ
quot a n = sub_ℕ (pos_part a / n) (neg_part a / n)

abbrev pub millisecond : ℕ
millisecond = 1_000_000

abbrev pub second : ℕ
second = 1_000_000_000

abbrev pub poll_cycle_timeout_sec : ℕ
poll_cycle_timeout_sec = 25

abbrev pub publish_phase_budget_sec : ℕ
publish_phase_budget_sec = 15

abbrev pub publish_put_max_retries : ℕ
publish_put_max_retries = 1

abbrev pub http_retry_max_attempts : ℕ
http_retry_max_attempts = 3

abbrev pub http_retry_base_delay_ms : ℕ
http_retry_base_delay_ms = 500

abbrev pub http_retry_max_delay_ms : ℕ
http_retry_max_delay_ms = 2000

abbrev pub http_retry_next_attempt_floor_ms : ℕ
http_retry_next_attempt_floor_ms = 250

abbrev pub alerts_fetch_budget_percent : ℕ
alerts_fetch_budget_percent = 50

abbrev pub spc_fetch_budget_percent : ℕ
spc_fetch_budget_percent = 20

abbrev pub health_staleness_multiplier : ℕ
health_staleness_multiplier = 3

pub mul64-pos : (m n : ℕ) → m * n < 2 ^ 63 → mul64 (pos m) (pos n) ≡ pos (m * n)
unfolding mul64 ◌*ℤ◌ wrap64
mul64-pos m n h = ground arith

pub quot-pos : (m n : ℕ) → quot (pos m) (suc n) ≡ pos (m / suc n)
unfolding quot
quot-pos m n = ground arith

abbrev pub nws_response_max_bytes : ℕ
nws_response_max_bytes = 32 * 1024 * 1024

abbrev pub spc_response_max_bytes : ℕ
spc_response_max_bytes = 4 * 1024 * 1024
