-- ===== src/Tracking/Acks.antt =====
-- What a subscription does with a message whose lease was resolved.
use hermesmq.Prelude.{ℕ, ◌<◌, true, Option, none, some, ◌≡◌, refl, arith, ltb}
use hermesmq.Ord.{nat_ord}
use hermesmq.Map.{get}
use hermesmq.Map.Lookup.{get-insert, same_self}
use hermesmq.Types.{Offset, LeaseId}
use hermesmq.Tracking.{
  OffsetTrack, SubTracking, already_acked, contains, deliver, resolve, drop_track, note_acked,
}
use hermesmq.Tracking.Invariant.{get-remove_leases}

deliver_early :
    (offset : Offset) (again : LeaseId) (deadline now until : ℕ) (r : SubTracking)
    → get offset r.acked_recently ≡ some until
    → now < until
    → deliver offset again deadline now r ≡ (r, already_acked)
unfolding deliver
deliver_early offset again deadline now until r e h =
    let early : ltb now until ≡ true = ground arith in rw (deliver, e, early) refl

acked_recently-resolve :
    (lease : LeaseId) (offset : Offset) (track : OffsetTrack) (until : ℕ) (s : SubTracking)
    → get lease s.lease_to_offset ≡ some offset
    → get offset s.by_offset ≡ some track
    → get offset (resolve lease (some until) s).0.acked_recently ≡ some until
unfolding resolve note_acked drop_track
acked_recently-resolve lease offset track until s e f =
    rw (e, f, resolve, get-insert offset offset until s.acked_recently, same_self offset) refl

-- A message acknowledged by any of its leases is not pushed again before the time that `resolve` was
-- given: `deliver` of its offset answers `AlreadyAcked` until then, under any lease, and changes
-- nothing.
pub deliver-resolve :
    (lease : LeaseId) (offset : Offset) (track : OffsetTrack) (until : ℕ) (s : SubTracking)
    (again : LeaseId) (deadline now : ℕ)
    → get lease s.lease_to_offset ≡ some offset
    → get offset s.by_offset ≡ some track
    → now < until
    → let r = (resolve lease (some until) s).0 in
      deliver offset again deadline now r ≡ (r, already_acked)
deliver-resolve lease offset track until s again deadline now e f h =
    deliver_early offset again deadline now until (resolve lease (some until) s).0
      (acked_recently-resolve lease offset track until s e f) h

-- Resolving a lease returns the current lease of its message, and ends every lease of the message.
pub resolve_ends_leases :
    (lease : LeaseId) (offset : Offset) (track : OffsetTrack) (acked_until : Option ℕ)
    (s : SubTracking) (other : LeaseId)
    → get lease s.lease_to_offset ≡ some offset
    → get offset s.by_offset ≡ some track
    → contains other track.leases ≡ true
    → ((resolve lease acked_until s).1 ≡ some track.lease_id)
      × (get other (resolve lease acked_until s).0.lease_to_offset ≡ none)
unfolding resolve note_acked drop_track
resolve_ends_leases lease offset track none s other e f c =
    rw (e, f, resolve) (refl, rw (get-remove_leases other track.leases s.lease_to_offset, c) refl)
resolve_ends_leases lease offset track (some until) s other e f c =
    rw (e, f, resolve) (refl, rw (get-remove_leases other track.leases s.lease_to_offset, c) refl)
