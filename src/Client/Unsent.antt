-- ===== src/Client/Unsent.antt =====
-- What becomes of the leases of a subscription whose client cannot be written to.
use hermesmq.Prelude.{List, ◌∷◌, true, some, ◌≡◌, ◌≢◌, ◌⊎◌, any}
use hermesmq.Ord.{nat_ord, list_ord}
use hermesmq.Map.{Map, get, same}
use hermesmq.Types.{Offset, LeaseId, Delivered}
use hermesmq.Tracking.{OffsetTrack, SubTracking}
use hermesmq.Queue.{Queue}
use hermesmq.Client.Subscription.{SubSession}

-- A delivery tracks the message under its lease, and the other messages as before.
record Tracked (offset : Offset) (id : LeaseId) (before after : SubTracking) : Type 0 where
  track : OffsetTrack
  here : get offset after.by_offset ≡ some track
  lease : track.lease_id ≡ id
  others : (o : Offset) → o ≢ offset → get o after.by_offset ≡ get o before.by_offset

-- A lease that the session answers for when a push of `d` with `rest` behind it fails: that of one of
-- these messages, or the current one of another message that the client was pushed.
abbrev pub IsOwed : LeaseId → Delivered → List Delivered → SubSession → Type 0
IsOwed j d rest s =
    (any (λ x. same x.lease_id j) (d ∷ rest) ≡ true)
    ⊎ ((o : Offset) × (t : OffsetTrack) × (get o s.tracking.by_offset ≡ some t)
        × (o ≢ d.offset)
        × (t.lease_id ≡ j))
