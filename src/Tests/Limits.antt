-- ===== src/Tests/Limits.antt =====
-- The rate limiter at one topic, with the rounding of its numbers.
use hermesmq.Prelude.{ℕ, [], ◌∷◌, ◌≡◌, refl}
use hermesmq.Ord.{list_ord, nat_ord, list_cmp}
use hermesmq.Map.{get, insert}
use hermesmq.Types.{Name}
use hermesmq.Limiter.Float.{
  one, too_long, digit_unit, round_even, round_ratio, f64_of, f64_add, f64_sub, f64_mul, f64_div,
  floor_u32, ceil_u64, secs_of_nanos,
}
use hermesmq.Limiter.{
  RateLimiter, Grant, granted, limited, bucket_of, refill, retry_ms, take_from, take,
}

abbrev jobs_topic : Name
jobs_topic = 106 ∷ []

-- One token at 5 per second, with a burst of 1.
abbrev take_one : ℕ → RateLimiter → RateLimiter × Grant
take_one now s = take jobs_topic (f64_of 5) (f64_of 1) 1 now s

-- After the one token, a call at 16 ms is told to wait for 184 ms, and one at 200 ms still finds less
-- than a token, by the rounding.
rounded_waits :
    let first = take_one 0 [] in
    let second = take_one 16000000 first.0 in
    let third = take_one 200000000 second.0 in
    (first.1 ≡ granted 1) × (second.1 ≡ limited 184) × (third.1 ≡ limited 1)
unfolding take take_from refill bucket_of retry_ms get insert list_cmp one too_long digit_unit
    round_even round_ratio f64_of f64_add f64_sub f64_mul f64_div floor_u32 ceil_u64 secs_of_nanos
rounded_waits = (refl, refl, refl)
