-- ===== src/Retry/Delays.antt =====
-- About internal/retry/retry.go: the waits between two attempts.
use native.Mathlib.Nat.{pow-suc}
use seestorm_ingest.Base.{
  ◌-◌, ℕ, zero, suc, ◌+◌, ◌*◌, ◌^◌, ◌≤◌, ◌<◌, ◌≡◌, refl, sym, subst, Option, none, some, arith, min,
  dec_lt, [], ◌∷◌,
}
use seestorm_ingest.Base.Int.{negsuc, ◌*ℤ◌, ℤ, pos, ◌≤ℤ◌, ◌+ℤ◌, ◌-ℤ◌}
use seestorm_ingest.Base.Bytes.{Bytes, bytes_eq}
use seestorm_ingest.Duration.{mul64, wrap64, Fits64, sub64, mul64-pos, second}
use seestorm_ingest.Retry.{
  base_delay, max_delay, next_attempt_floor, backoff_from, backoff_delay, atoi, parse_retry_after,
  next_delay, Bytes,
}

one_le_pow : (n : ℕ) → 1 ≤ 2 ^ n
one_le_pow zero = omega arith
one_le_pow (suc n) = let ih = one_le_pow n in let e = pow-suc 2 n in omega arith

mul_le : (exp q : ℕ) → 1 ≤ q → exp ≤ exp * q
mul_le exp zero h = elim h [ ]
mul_le exp (suc q) h = omega arith

scale : (exp q r : ℕ) → r ≡ q * 2 → exp * r ≡ exp * 2 * q
scale exp q r h = subst (λ t. exp * t ≡ exp * 2 * q) (sym h) (omega arith)

scaled_pow : (exp n : ℕ) → (exp * 2 ^ suc n ≡ exp * 2 * 2 ^ n) × (exp * 2 ≤ exp * 2 * 2 ^ n)
scaled_pow exp n =
    (scale exp (2 ^ n) (2 ^ suc n) (pow-suc 2 n), mul_le (exp * 2) (2 ^ n) (one_le_pow n))

-- The waits double from the base delay up to the ceiling.
pub backoff_from-eq-min :
    (n exp : ℕ) → exp ≤ max_delay → backoff_from n exp ≡ min (exp * 2 ^ n) max_delay
unfolding backoff_from
backoff_from-eq-min zero exp h = ground arith
backoff_from-eq-min (suc n) exp h =
    let s = scaled_pow exp n in
    elim (dec_lt max_delay (exp * 2)) [
      | yes p ↦ ground arith
      | no p ↦ let ih = backoff_from-eq-min n (exp * 2) (omega arith) in ground arith
    ]

-- When a wait is granted within a deadline, at least the 250 ms that an attempt needs are left
-- after it, whatever the server's Retry-After asked for. The time left is an int64.
pub next_delay-leaves_floor :
    (random : ℕ → ℕ) (left : ℤ) (attempt : ℕ) (retry_after : Option ℤ) (d : ℤ)
    → Fits64 left
    → next_delay random (some left) attempt retry_after ≡ some d
    → d +ℤ next_attempt_floor ≤ℤ left
unfolding next_delay sub64 wrap64 ◌+ℤ◌ ◌-ℤ◌
next_delay-leaves_floor random left attempt none d fits h = ground arith
next_delay-leaves_floor random left attempt (some r) d fits h = ground arith

-- A wait without a Retry-After is between 0 and the 500 ms doubled once per attempt made before it,
-- never above 2 s, with a deadline (an int64 away) or without; `random n` is below n.
pub next_delay-backoff_bounds :
    (random : ℕ → ℕ) (remaining : Option ℤ) (attempt : ℕ) (d : ℤ)
    → ((n : ℕ) → 0 < n → random n < n)
    → ((left : ℤ) → remaining ≡ some left → Fits64 left)
    → next_delay random remaining attempt none ≡ some d
    → (pos 0 ≤ℤ d) × (d ≤ℤ pos (min (base_delay * 2 ^ attempt) max_delay))
unfolding next_delay sub64 wrap64 backoff_delay ◌-ℤ◌
next_delay-backoff_bounds random none attempt d below fits h =
    let e = backoff_from-eq-min attempt base_delay (omega arith) in
    let b = below (backoff_from attempt base_delay + 1) (omega arith) in ground arith
next_delay-backoff_bounds random (some left) attempt d below fits h =
    let e = backoff_from-eq-min attempt base_delay (omega arith) in
    let b = below (backoff_from attempt base_delay + 1) (omega arith) in
    let f = fits left refl in ground arith

atoi-nil : atoi [] ≡ none
unfolding atoi
atoi-nil = refl

-- A Retry-After that is a number of up to 9223372036 seconds is read as that many nanoseconds.
pub parse_retry_after-value :
    (header : Bytes) (secs : ℕ)
    → atoi header ≡ some (pos secs)
    → secs ≤ 9_223_372_036
    → parse_retry_after header ≡ some (pos (secs * second))
unfolding parse_retry_after bytes_eq
parse_retry_after-value [] secs h b = ground (arith, atoi-nil)
parse_retry_after-value (c ∷ s) secs h b =
    let e = mul64-pos secs second (omega arith) in rw (h, e) (ground arith)

mul64-wraps :
    (secs : ℕ)
    → 9_223_372_037 ≤ secs
    → secs ≤ 18_446_744_073
    → mul64 (pos secs) (pos second) ≡ negsuc (2 ^ 64 - secs * second - 1)
unfolding mul64 wrap64 ◌*ℤ◌
mul64-wraps secs a b = ground arith

-- A Retry-After of 9223372037 to 18446744073 seconds,
-- overflows the duration: it is read as a negative one.
pub parse_retry_after-wraps :
    (header : Bytes) (secs : ℕ)
    → atoi header ≡ some (pos secs)
    → 9_223_372_037 ≤ secs
    → secs ≤ 18_446_744_073
    → parse_retry_after header ≡ some (negsuc (2 ^ 64 - secs * second - 1))
unfolding parse_retry_after bytes_eq
parse_retry_after-wraps [] secs h a b = ground (arith, atoi-nil)
parse_retry_after-wraps (c ∷ s) secs h a b = rw (h, mul64-wraps secs a b) (ground arith)
