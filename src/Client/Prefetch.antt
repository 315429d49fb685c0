-- ===== src/Client/Prefetch.antt =====
-- What each operation of a subscription's tracking does to the number of messages that count.
use hermesmq.Prelude.{
  ℕ, ◌+◌, ◌≤◌, List, [], ◌∷◌, Bool, Option, none, some, ◌≡◌, refl, arith, ltb, Bool-cases,
  Option-cases, inl, inr,
}
use hermesmq.Ord.{nat_ord, list_ord}
use hermesmq.Map.{Map, get, insert, remove, retain}
use hermesmq.Types.{Name, Offset, LeaseId}
use hermesmq.Tracking.{
  OffsetTrack, SubTracking, deliver, track_delivery, deliver_new, redeliver, resolve, drop_track,
  note_acked, drop_stale, count_live,
}
use hermesmq.Limiter.{RateLimiter, granted, take, take_from}
use hermesmq.Client.Polling.{take_grant}

-- Time only ends leases.
pub count_live_later :
    (now later : ℕ) (m : Map Offset OffsetTrack)
    → now ≤ later
    → count_live later m ≤ count_live now m
unfolding count_live
count_live_later now later [] h = omega arith
count_live_later now later ((o, t) ∷ m) h = ground (arith, count_live_later now later m h)

count_live-insert-le :
    (now : ℕ) (o : Offset) (t : OffsetTrack) (m : Map Offset OffsetTrack)
    → count_live now (insert o t m) ≤ count_live now m + 1
unfolding count_live insert
count_live-insert-le now o t [] = ground arith
count_live-insert-le now o t ((p, u) ∷ m) = ground (arith, count_live-insert-le now o t m)

count_live-retain-le :
    (now : ℕ) (p : Offset → OffsetTrack → Bool) (m : Map Offset OffsetTrack)
    → count_live now (retain p m) ≤ count_live now m
unfolding count_live retain
count_live-retain-le now p [] = omega arith
count_live-retain-le now p ((o, u) ∷ m) = ground (arith, count_live-retain-le now p m)

-- the messages that the tracking counts at a time
abbrev pub live : ℕ → SubTracking → ℕ
live now s = count_live now s.by_offset

live-track_delivery-le :
    (now : ℕ) (o : Offset) (id : LeaseId) (deadline : ℕ) (s : SubTracking)
    → live now (track_delivery o id deadline s).0 ≤ live now s + 1
unfolding track_delivery deliver_new redeliver
live-track_delivery-le now o id deadline s = elim (Option-cases (get o s.by_offset)) [
  | inl e ↦ rw (e, track_delivery) (count_live-insert-le now o _ s.by_offset)
  | inr (t, e) ↦ rw (e, track_delivery) (count_live-insert-le now o _ s.by_offset)
]

pub live-deliver-le :
    (now : ℕ) (o : Offset) (id : LeaseId) (deadline at : ℕ) (s : SubTracking)
    → live now (deliver o id deadline at s).0 ≤ live now s + 1
unfolding deliver
live-deliver-le now o id deadline at s = elim (Option-cases (get o s.acked_recently)) [
  | inl e ↦ rw (e, deliver) (live-track_delivery-le now o id deadline s)
  | inr (until, e) ↦ elim (Bool-cases (ltb at until)) [
    | inl h ↦ rw (e, deliver, h) (omega arith)
    | inr h ↦
        rw (e, deliver, h)
          (live-track_delivery-le now o id deadline
            (record s { acked_recently = remove o s.acked_recently }))
  ]
]

live-note_acked :
    (now : ℕ) (o : Offset) (until : Option ℕ) (s : SubTracking)
    → live now (note_acked o until s) ≡ live now s
unfolding note_acked
live-note_acked now o none s = refl
live-note_acked now o (some until) s = refl

live-drop_track-le :
    (now : ℕ) (o : Offset) (t : OffsetTrack) (s : SubTracking)
    → live now (drop_track o t s) ≤ live now s
unfolding drop_track remove
live-drop_track-le now o t s = count_live-retain-le now _ s.by_offset

pub live-resolve-le :
    (now : ℕ) (id : LeaseId) (until : Option ℕ) (s : SubTracking)
    → live now (resolve id until s).0 ≤ live now s
unfolding resolve
live-resolve-le now id until s = elim (Option-cases (get id s.lease_to_offset)) [
  | inl e ↦ rw (e, resolve) (omega arith)
  | inr (o, e) ↦ elim (Option-cases (get o s.by_offset)) [
    | inl f ↦ rw (e, resolve, f) (omega arith)
    | inr (t, f) ↦
        rw (e, resolve, f, live-note_acked now o until (drop_track o t s))
          (live-drop_track-le now o t s)
  ]
]

pub live-drop_stale-le :
    (now : ℕ) (os : List Offset) (s : SubTracking) → live now (drop_stale os s) ≤ live now s
unfolding drop_stale
live-drop_stale-le now [] s = omega arith
live-drop_stale-le now (o ∷ os) s = elim (Option-cases (get o s.by_offset)) [
  | inl e ↦ rw (e, drop_stale) (live-drop_stale-le now os s)
  | inr (t, e) ↦
      rw (e, drop_stale)
        (omega (arith, live-drop_stale-le now os (drop_track o t s), live-drop_track-le now o t s))
]

pub granted-take_grant-le :
    (topic : Name) (want at : ℕ) (cfg : Option (ℕ × ℕ)) (l : RateLimiter) (grant : ℕ)
    → (take_grant topic want at cfg l).1 ≡ granted grant
    → grant ≤ want
unfolding take_grant take take_from
granted-take_grant-le topic want at none l grant h = ground (arith, h)
granted-take_grant-le topic want at (some (rate, burst)) l grant h = ground (arith, h)
