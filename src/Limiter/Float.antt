-- ===== src/Limiter/Float.antt =====
-- The numbers that `RateLimiter` counts in: the finite `f64` that are not negative, each as its
-- multiple of the least one, 2^-1074. An operation rounds its exact result to the nearest number of 53
-- binary digits, and a tie to the even one, as IEEE 754 says.
use Prim.Native.Nat.{◌^◌}
use hermesmq.Prelude.{
  ℕ, zero, suc, ◌+◌, ◌-◌, ◌*◌, ◌/◌, ◌%◌, true, false, ◌&&◌, ◌||◌, if◌then◌else◌, ltb, ◌==◌, min,
  u64_max,
}

abbrev pub F64 : Type 0
F64 = ℕ

-- 1.0
unfoldable pub one : F64
one = 2 ^ 1074

-- the least number of 54 digits
unfoldable pub too_long : ℕ
too_long = 2 ^ 53

-- The power of 2 by which a number has to be divided to keep 53 digits; the largest `f64` has 2098.
unfoldable pub digit_unit : ℕ → ℕ → ℕ → ℕ
digit_unit zero n unit = unit
digit_unit (suc fuel) n unit = elim (ltb n too_long) [
  | true ↦ unit
  | false ↦ digit_unit fuel (n / 2) (unit * 2)
]

-- The integer next to `a / b`, the even one of two.
unfoldable pub round_even : ℕ → ℕ → ℕ
round_even a b =
    let up = ltb b (a % b * 2) || ((a % b * 2 == b) && (a / b % 2 == 1)) in
    if up then a / b + 1 else a / b

-- The number next to `a / b` times the least one.
unfoldable pub round_ratio : ℕ → ℕ → F64
round_ratio a b = let unit = digit_unit 2045 (a / b) 1 in round_even a (b * unit) * unit

-- `n as f64`
unfoldable pub f64_of : ℕ → F64
f64_of n = round_ratio (n * one) 1

unfoldable pub f64_add : F64 → F64 → F64
f64_add x y = round_ratio (x + y) 1

-- `x - y`, where `y` is at most `x`
unfoldable pub f64_sub : F64 → F64 → F64
f64_sub x y = round_ratio (x - y) 1

unfoldable pub f64_mul : F64 → F64 → F64
f64_mul x y = round_ratio (x * y) one

unfoldable pub f64_div : F64 → F64 → F64
f64_div x y = round_ratio (x * one) y

-- `x.floor() as u32`
unfoldable pub floor_u32 : F64 → ℕ
floor_u32 x = min (x / one) 4294967295

-- `x.ceil() as u64`
unfoldable pub ceil_u64 : F64 → ℕ
ceil_u64 x = min ((x + (one - 1)) / one) u64_max

-- `as_secs_f64` of a number of nanoseconds
unfoldable pub secs_of_nanos : ℕ → F64
secs_of_nanos n =
    f64_add (f64_of (n / 1000000000)) (f64_div (f64_of (n % 1000000000)) (f64_of 1000000000))
