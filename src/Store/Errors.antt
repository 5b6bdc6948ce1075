-- ===== src/Store/Errors.antt =====
-- Errors as the store and the poller tell them apart, by errors.Is.
use seestorm_ingest.Base.{ℕ, Bool, true, false}

-- context.Canceled, context.DeadlineExceeded, errSkipUnparseableExpires, and any other.
pub data Error : Type 0 where
  canceled deadline_exceeded skip_unparseable_expires : Error
  other : ℕ → Error

unfoldable pub is_fatal_batch_err : Error → Bool
is_fatal_batch_err canceled = true
is_fatal_batch_err deadline_exceeded = true
is_fatal_batch_err skip_unparseable_expires = false
is_fatal_batch_err (other n) = false
