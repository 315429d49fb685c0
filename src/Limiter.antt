-- ===== src/Limiter.antt =====
-- crates/hermesmq-core/src/client.rs: `RateLimiter`, a token bucket for each topic. Tokens, rates and
-- bursts are `f64`, with their rounding. An `Instant` is its nanoseconds.
pub mod Float
use hermesmq.Prelude.{
  ℕ, zero, suc, ◌+◌, ◌-◌, ◌*◌, ◌/◌, List, [], ◌∷◌, Bool, Option, none, some, if◌then◌else◌, ltb,
  ◌==◌, min,
}
use hermesmq.Ord.{nat_ord, list_ord}
use hermesmq.Map.{Map, get, insert, remove}
use hermesmq.Types.{Name}
use hermesmq.Limiter.Float.{
  F64, one, f64_of, f64_add, f64_sub, f64_mul, f64_div, floor_u32, ceil_u64, secs_of_nanos,
}

pub record Bucket : Type 0 where
  pub tokens : F64
  pub last : ℕ

abbrev pub RateLimiter : Type 0
RateLimiter = Map Name Bucket

-- `Ok(grant)` or `Err(retry_ms)`
pub data Grant : Type 0 where
  granted : ℕ → Grant
  limited : ℕ → Grant

-- `entry(topic).or_insert(..)`
unfoldable pub bucket_of : Name → F64 → ℕ → RateLimiter → Bucket
bucket_of topic burst now s = elim (get topic s) [
  | some b ↦ b
  | none ↦ record { tokens = burst; last = now }
]

unfoldable pub refill : F64 → F64 → ℕ → Bucket → Bucket
refill rate burst now b = record {
  tokens = min (f64_add b.tokens (f64_mul (secs_of_nanos (now - b.last)) rate)) burst;
  last = now;
}

-- `(needed / rate_per_sec * 1000.0).ceil()`
unfoldable pub retry_ms : F64 → F64 → ℕ
retry_ms rate tokens =
    if ltb 0 rate
    then ceil_u64 (f64_mul (f64_div (f64_sub one tokens) rate) (f64_of 1000))
    else 1000

unfoldable pub take_from : F64 → ℕ → Bucket → Bucket × Grant
take_from rate want b =
    let grant : ℕ = min (floor_u32 b.tokens) want in
    if grant == 0
    then (b, limited (retry_ms rate b.tokens))
    else (record b { tokens = f64_sub b.tokens (f64_of grant) }, granted grant)

unfoldable pub take : Name → F64 → F64 → ℕ → ℕ → RateLimiter → RateLimiter × Grant
take topic rate burst want now s =
    if want == 0
    then (s, granted 0)
    else (let r = take_from rate want (refill rate burst now (bucket_of topic burst now s)) in
        (insert topic r.0 s, r.1))

unfoldable pub refund : Name → ℕ → F64 → RateLimiter → RateLimiter
refund topic amount burst s = if amount == 0 then s else elim (get topic s) [
  | none ↦ s
  | some b ↦ insert topic (record b { tokens = min (f64_add b.tokens (f64_of amount)) burst }) s
]

unfoldable pub forget : Name → RateLimiter → RateLimiter
forget topic s = remove topic s

unfoldable pub debug_tokens : Name → RateLimiter → Option F64
debug_tokens topic s = elim (get topic s) [ none ↦ none | some b ↦ some b.tokens ]
