-- ===== src/Client/Polling.antt =====
-- crates/hermesmq-core/src/client.rs: `handle_poll`. Its loop runs over a list of rounds, each with what
-- the round reads: the queue, the clocks, and what a replicated write would return.
use hermesmq.Prelude.{
  ℕ, ◌+◌, ◌-◌, ◌*◌, List, [], ◌∷◌, Bool, true, false, ◌||◌, Option, none, some, if◌then◌else◌, leb,
  ◌==◌, length, is_empty, min, max,
}
use hermesmq.Ord.{nat_ord, list_ord}
use hermesmq.Map.{same}
use hermesmq.Types.{Name, Delivered, AppRequest, polled}
use hermesmq.Limits.{max_visibility_ms}
use hermesmq.Queue.{Queue, has_deliverable, rate_config}
use hermesmq.Limiter.{RateLimiter, Grant, granted, limited, take, refund}
use hermesmq.Limiter.Float.{f64_of, f64_div}
use hermesmq.Client.{
  Poll, Response, resp_not_leader, resp_rate_limited, resp_polled, map_raft_error,
  app_response_to_proto, check_names, Write, wrote, failed,
}

abbrev pub default_poll_max : ℕ
default_poll_max = 16

abbrev pub max_poll_max : ℕ
max_poll_max = 1024

abbrev pub default_visibility_ms : ℕ
default_visibility_ms = 30000

abbrev pub max_wait_ms : ℕ
max_wait_ms = 300000

-- the text "auto"
abbrev pub auto : Name
auto = 97 ∷ 117 ∷ 116 ∷ 111 ∷ []

-- What a round of the loop reads, in order: the queue and the time for `has_deliverable`, the queue for
-- `rate_config`, the instant of the limiter, the time that the request carries, what the write returns,
-- and the instant at the end. Instants are in nanoseconds.
pub record PollRound : Type 0 where
  pub queue : Queue
  pub now_ms : ℕ
  pub limits_queue : Queue
  pub at : ℕ
  pub ts_ms : ℕ
  pub client_write : AppRequest → Write
  pub checked : ℕ

unfoldable pub poll_max : ℕ → ℕ
poll_max wanted = if wanted == 0 then default_poll_max else min wanted max_poll_max

unfoldable pub visibility_of : ℕ → ℕ
visibility_of wanted = if wanted == 0 then default_visibility_ms else min wanted max_visibility_ms

-- what the rate limit of the topic grants, if it has one
unfoldable pub take_grant : Name → ℕ → ℕ → Option (ℕ × ℕ) → RateLimiter → RateLimiter × Grant
take_grant topic want at none limiter = (limiter, granted want)
take_grant topic want at (some (rate_milli, burst)) limiter =
    take topic (f64_div (f64_of rate_milli) (f64_of 1000)) (f64_of (max burst 1)) want at limiter

unfoldable pub refund_unused :
    Name → ℕ → List Delivered → Option (ℕ × ℕ) → RateLimiter → RateLimiter
refund_unused topic grant items none limiter = limiter
refund_unused topic grant items (some (rate_milli, burst)) limiter =
    refund topic (grant - length items) (f64_of (max burst 1)) limiter

unfoldable pub poll_request : Bool → Name → Name → ℕ → ℕ → ℕ → AppRequest
poll_request true topic group grant visibility ts_ms =
    AppRequest.poll_auto topic group grant visibility ts_ms
poll_request false topic group grant visibility ts_ms =
    AppRequest.poll topic group grant visibility ts_ms

unfoldable pub is_auto : Name → Bool
is_auto ack_mode = same ack_mode auto

-- A round after its write: the answer, if it brings one.
unfoldable pub answer_poll :
    Name → ℕ → Option (ℕ × ℕ) → Write → RateLimiter → RateLimiter × Option Response
answer_poll topic grant cfg (failed e) limiter = (limiter, some (map_raft_error e))
answer_poll topic grant cfg (wrote (polled items)) limiter = (
  refund_unused topic grant items cfg limiter,
  if is_empty items then none else some (resp_polled items),
)
answer_poll topic grant cfg (wrote other) limiter = (limiter, some (app_response_to_proto other))

unfoldable pub poll_round : Poll → PollRound → RateLimiter → RateLimiter × Option Response
poll_round p r limiter =
    if has_deliverable p.topic p.group r.now_ms r.queue
    then (let cfg = rate_config p.topic r.limits_queue in
        let t = take_grant p.topic (poll_max p.max) r.at cfg limiter in
        elim t.1 [
          | limited ms ↦ (t.0, some (resp_rate_limited ms))
          | granted grant ↦
              answer_poll p.topic grant cfg
                (r.client_write (
                  poll_request (is_auto p.ack_mode) p.topic p.group grant
                    (visibility_of p.visibility_timeout_ms) r.ts_ms))
                t.0
        ])
    else (limiter, none)

unfoldable pub wait_of : Poll → ℕ
wait_of p = min p.wait_ms max_wait_ms

-- The loop, until a round answers or the deadline has passed; `none` if the rounds end before.
unfoldable pub poll_loop : Poll → ℕ → List PollRound → RateLimiter → RateLimiter × Option Response
poll_loop p deadline [] limiter = (limiter, none)
poll_loop p deadline (r ∷ rounds) limiter =
    let x = poll_round p r limiter in
    let rest = poll_loop p deadline rounds x.0 in
    elim x.1 [
      | some resp ↦ (x.0, some resp)
      | none ↦
          if (wait_of p == 0) || leb deadline r.checked then (x.0, some (resp_polled [])) else rest
    ]

unfoldable pub deadline_of : Poll → ℕ → ℕ
deadline_of p start = start + wait_of p * 1000000

unfoldable pub handle_poll :
    Bool → Name → Poll → ℕ → List PollRound → RateLimiter → RateLimiter × Option Response
handle_poll is_leader leader_addr p start rounds limiter =
    let run = poll_loop p (deadline_of p start) rounds limiter in
    if is_leader
    then elim (check_names p.topic p.group) [ some resp ↦ (limiter, some resp) | none ↦ run ]
    else (limiter, some (resp_not_leader leader_addr))

-- how long a round waits for a message before the next one, at most
unfoldable pub wait_between : ℕ → ℕ → ℕ
wait_between deadline now = min (deadline - now) 200000000
