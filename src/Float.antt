-- ===== src/Float.antt =====
-- Go's float64 as its 64 bits, with the comparisons and the negation of IEEE 754.
use seestorm_ingest.Base.{ℕ, ◌+◌, ◌-◌, ◌%◌, ◌^◌, Bool, not, ◌&&◌, ltb, if◌then◌else◌}

abbrev pub Float64 : Type 0
Float64 = ℕ

abbrev sign_bit : ℕ
sign_bit = 0x8000000000000000

unfoldable pub is_nan : Float64 → Bool
is_nan x = ltb 0x7FF0000000000000 (x % sign_bit)

-- The order of the numbers as an order of ℕ: both zeros stand at the sign bit.
unfoldable pub rank : Float64 → ℕ
rank x = if ltb x sign_bit then sign_bit + x else sign_bit - x % sign_bit

unfoldable pub float_lt : Float64 → Float64 → Bool
unfolding is_nan rank
float_lt x y = not (is_nan x) && not (is_nan y) && ltb (rank x) (rank y)

unfoldable pub float_neg : Float64 → Float64
float_neg x = (x + sign_bit) % 2 ^ 64
