-- ===== src/Retry/Examples.antt =====
-- The theorems about the waits at concrete inputs.
use seestorm_ingest.Base.{◌-◌, ℕ, ◌*◌, ◌^◌, min, ◌≡◌, refl, none, some, arith}
use seestorm_ingest.Base.Bytes.{lit}
use seestorm_ingest.Base.Int.{negsuc, pos, ◌+ℤ◌, ◌-ℤ◌, ◌≤ℤ◌}
use seestorm_ingest.Duration.{second, millisecond, sub64, wrap64}
use seestorm_ingest.Retry.{
  base_delay, max_delay, next_attempt_floor, backoff_delay, backoff_from, atoi, parse_retry_after,
  next_delay,
}
use seestorm_ingest.Retry.Delays.{
  next_delay-leaves_floor, next_delay-backoff_bounds, parse_retry_after-wraps,
}

-- The greatest value that is allowed
abbrev greatest : ℕ → ℕ
greatest n = n - 1

reads : atoi (lit "120") ≡ some (pos 120)
unfolding atoi
reads = refl

next_delay-leaves_floor_example : pos (750 * millisecond) +ℤ next_attempt_floor ≤ℤ pos second
unfolding next_delay sub64 wrap64 ◌-ℤ◌
next_delay-leaves_floor_example =
    next_delay-leaves_floor greatest (pos second) 0 (some (pos (120 * second)))
      (pos (750 * millisecond)) (omega arith) refl

next_delay-backoff_bounds_example :
    (pos 0 ≤ℤ pos second) × (pos second ≤ℤ pos (min (base_delay * 2 ^ 1) max_delay))
unfolding next_delay backoff_delay backoff_from
next_delay-backoff_bounds_example =
    next_delay-backoff_bounds greatest none 1 (pos second) (λ n p. omega arith)
      (λ left h. absurd (ground (arith, h))) refl

overflows : atoi (lit "10000000000") ≡ some (pos 10_000_000_000)
unfolding atoi
overflows = refl

parse_retry_after-wraps_example :
    parse_retry_after (lit "10000000000") ≡ some (negsuc (2 ^ 64 - 10_000_000_000 * second - 1))
parse_retry_after-wraps_example =
    parse_retry_after-wraps (lit "10000000000") 10_000_000_000 overflows (omega arith) (omega arith)
