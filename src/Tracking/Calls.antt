-- ===== src/Tracking/Calls.antt =====
-- Sequences of calls on the tracking of a subscription.
use hermesmq.Prelude.{ℕ, List, [], ◌∷◌, true, Option, ◌≡◌}
use hermesmq.Types.{Offset, LeaseId}
use hermesmq.Tracking.{
  SubTracking, no_tracking, deliver, resolve, drain_leases, live_count, debug_check_invariants,
}
use hermesmq.Tracking.Invariant.{TrackInv, no_tracking-TrackInv, debug_check_invariants-true}
use hermesmq.Tracking.Steps.{deliver-TrackInv, resolve-TrackInv, live_count-TrackInv}

-- A call of one of the operations.
pub data Call : Type 0 where
  delivery : Offset → LeaseId → ℕ → ℕ → Call
  resolution : LeaseId → Option ℕ → Call
  drain : Call
  count : ℕ → ℕ → Call

abbrev pub call : Call → SubTracking → SubTracking
call (delivery offset lease deadline now) s = (deliver offset lease deadline now s).0
call (resolution lease acked_until) s = (resolve lease acked_until s).0
call drain s = (drain_leases s).0
call (count now grace) s = (live_count now grace s).0

unfoldable pub calls : List Call → SubTracking → SubTracking
calls [] s = s
calls (c ∷ cs) s = calls cs (call c s)

call-TrackInv : (c : Call) (s : SubTracking) → TrackInv s → TrackInv (call c s)
unfolding drain_leases
call-TrackInv (delivery offset lease deadline now) s v =
    deliver-TrackInv offset lease deadline now s v
call-TrackInv (resolution lease acked_until) s v = resolve-TrackInv lease acked_until s v
call-TrackInv drain s v = no_tracking-TrackInv
call-TrackInv (count now grace) s v = live_count-TrackInv now grace s v

pub calls-TrackInv : (cs : List Call) (s : SubTracking) → TrackInv s → TrackInv (calls cs s)
unfolding calls
calls-TrackInv [] s v = v
calls-TrackInv (c ∷ cs) s v = calls-TrackInv cs (call c s) (call-TrackInv c s v)

-- After any calls of `deliver`, `resolve`, `drain_leases` and `live_count` on the empty tracking,
-- `debug_check_invariants` returns `Ok`.
pub debug_check_invariants-calls :
    (cs : List Call) → debug_check_invariants (calls cs no_tracking) ≡ true
debug_check_invariants-calls cs =
    debug_check_invariants-true (calls cs no_tracking)
      (calls-TrackInv cs no_tracking no_tracking-TrackInv)
