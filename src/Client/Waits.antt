-- ===== src/Client/Waits.antt =====
-- A long poll comes to an end.
use hermesmq.Prelude.{
  ℕ, ◌+◌, ◌*◌, ◌≤◌, ◌<◌, List, [], ◌∷◌, Bool, true, false, ◌||◌, leb, ◌==◌, length, ◌≡◌, refl,
  arith, Bool-cases, Option-cases, inl, inr, is_some,
}
use hermesmq.Types.{Name}
use hermesmq.Limiter.{RateLimiter}
use hermesmq.Client.{Poll, check_names}
use hermesmq.Client.Polling.{
  PollRound, poll_round, poll_loop, handle_poll, deadline_of, wait_of, wait_between,
}

-- A round reads the clock no earlier than the wait after the round before it ends.
abbrev pub ArePaced : ℕ → ℕ → List PollRound → Type 0
ArePaced deadline now [] = Unit
ArePaced deadline now (r ∷ rounds) =
    (now ≤ r.checked) × ArePaced deadline (r.checked + wait_between deadline r.checked) rounds

poll_loop-some :
    (p : Poll) (deadline now : ℕ) (rounds : List PollRound) (limiter : RateLimiter)
    → ArePaced deadline now rounds
    → deadline + 200000000 ≤ now + length rounds * 200000000
    → 0 < length rounds
    → is_some (poll_loop p deadline rounds limiter).1 ≡ true
unfolding poll_loop wait_between
poll_loop-some p deadline now [] limiter paced h k = absurd (omega (arith, k))
poll_loop-some p deadline now (r ∷ rounds) limiter paced h k =
    elim (Option-cases (poll_round p r limiter).1) [
      | inr (resp, e) ↦ rw (e, poll_loop) refl
      | inl e ↦ elim (Bool-cases ((wait_of p == 0) || leb deadline r.checked)) [
        | inl f ↦ rw (e, poll_loop, f) refl
        | inr f ↦
            let early : r.checked < deadline = ground (arith, f) in
            let rest =
              poll_loop-some p deadline (r.checked + wait_between deadline r.checked) rounds
                (poll_round p r limiter).0 paced.1 (omega (arith, paced.0))
                (omega (arith, paced.0)) in
            rw (e, poll_loop, f) rest
      ]
    ]

-- A poll is answered within one round more than there are spans of 200 ms in the time that it may wait,
-- whatever the queue holds and the writes return, if no notification cuts a wait short.
pub handle_poll-some :
    (is_leader : Bool) (leader_addr : Name) (p : Poll) (start : ℕ) (rounds : List PollRound)
    (limiter : RateLimiter)
    → ArePaced (deadline_of p start) start rounds
    → wait_of p + 200 ≤ length rounds * 200
    → is_some (handle_poll is_leader leader_addr p start rounds limiter).1 ≡ true
unfolding handle_poll deadline_of
handle_poll-some false leader_addr p start rounds limiter paced h = refl
handle_poll-some true leader_addr p start rounds limiter paced h =
    elim (Option-cases (check_names p.topic p.group)) [
      | inr (resp, e) ↦ rw (handle_poll, e) refl
      | inl e ↦
          rw (handle_poll, e)
            (poll_loop-some p (start + wait_of p * 1000000) start rounds limiter paced
              (omega (arith, h)) (omega (arith, h)))
    ]
