-- ===== src/Retry.antt =====
-- internal/retry/retry.go. The random number generator and the time that is left to a context are
-- arguments; durations are integers of nanoseconds.
pub mod Delays
pub mod Examples
use seestorm_ingest.Base.{
  ℕ, zero, suc, ◌+◌, ◌-◌, ◌*◌, ◌^◌, ◌≤◌, Bool, true, false, ◌&&◌, Option, none, some, List, [], ◌∷◌,
  ltb, leb, ◌==◌, if◌then◌else◌, not,
}
use seestorm_ingest.Base.Bytes.{Bytes, bytes_eq}
use seestorm_ingest.Base.Int.{ℤ, pos, negsuc, ltb_ℤ, sub_ℕ}
use seestorm_ingest.Duration.{
  mul64, sub64, second, millisecond, http_retry_max_attempts, http_retry_base_delay_ms,
  http_retry_max_delay_ms, http_retry_next_attempt_floor_ms,
}

abbrev pub max_attempts : ℕ
max_attempts = http_retry_max_attempts

abbrev pub base_delay : ℕ
base_delay = http_retry_base_delay_ms * millisecond

abbrev pub max_delay : ℕ
max_delay = http_retry_max_delay_ms * millisecond

abbrev pub next_attempt_floor : ℤ
next_attempt_floor = pos (http_retry_next_attempt_floor_ms * millisecond)

unfoldable pub is_retryable_status : ℕ → Bool
is_retryable_status code = if code == 429 then true else leb 500 code && leb code 599

-- The loop of BackoffDelay: `rounds` doublings are left.
unfoldable pub backoff_from : ℕ → ℕ → ℕ
backoff_from zero exp = exp
backoff_from (suc rounds) exp =
    let doubled = exp * 2 in
    let rest = backoff_from rounds doubled in if ltb max_delay doubled then max_delay else rest

-- `random n` is rand.Int64N(n).
unfoldable pub backoff_delay : (ℕ → ℕ) → ℕ → ℕ
unfolding backoff_from
backoff_delay random attempt = random (backoff_from attempt base_delay + 1)

-- The value of decimal digits after those already read.
digits_value : ℕ → Bytes → Option ℕ
digits_value n [] = some n
digits_value n (c ∷ s) =
    let rest = digits_value (n * 10 + (c - b'0')) s in
    if leb b'0' c && leb c b'9' then rest else none

-- One digit or more
unsigned_value : Bytes → Option ℕ
unfolding digits_value
unsigned_value [] = none
unsigned_value (c ∷ s) = digits_value 0 (c ∷ s)

in_range : Bool → Option ℕ → Option ℤ
in_range negative none = none
in_range false (some n) = if ltb n (2 ^ 63) then some (pos n) else none
in_range true (some n) = if leb n (2 ^ 63) then some (sub_ℕ 0 n) else none

-- strconv.Atoi: a sign, then digits, within int64.
unfoldable pub atoi : Bytes → Option ℤ
unfolding unsigned_value in_range
atoi [] = none
atoi (c ∷ s) =
    if c == b'-'
    then in_range true (unsigned_value s)
    else if c == b'+'
    then in_range false (unsigned_value s)
    else in_range false (unsigned_value (c ∷ s))

-- `none` is ok = false.
unfoldable pub parse_retry_after : Bytes → Option ℤ
parse_retry_after header = if bytes_eq header [] then none else elim (atoi header) [
  | none ↦ none
  | some secs ↦ if ltb_ℤ secs (pos 0) then none else some (mul64 secs (pos second))
]

-- `remaining` is the time until the context's deadline, if it has one; `none` is ok = false.
unfoldable pub next_delay : (ℕ → ℕ) → Option ℤ → ℕ → Option ℤ → Option ℤ
unfolding backoff_delay
next_delay random remaining attempt retry_after =
    let delay : ℤ = elim retry_after [ none ↦ pos (backoff_delay random attempt) | some d ↦ d ] in
    elim remaining [
      | none ↦ some delay
      | some left ↦
          if ltb_ℤ left next_attempt_floor
          then none
          else let capped = sub64 left next_attempt_floor in
            some (if ltb_ℤ capped delay then capped else delay)
    ]

-- Sleep(ctx, d) == nil; `interrupted` says whether the context ends before the timer does.
unfoldable pub sleeps : Bool → ℤ → Bool
sleeps interrupted d = if ltb_ℤ (pos 0) d then not interrupted else true
