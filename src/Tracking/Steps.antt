-- ===== src/Tracking/Steps.antt =====
-- Every operation of `SubTracking` keeps its invariant.
use hermesmq.Prelude.{
  ℕ, List, [], ◌∷◌, ◌++◌, true, false, Option, none, some, ◌≡◌, arith, ltb, ◌==◌, length-append,
  Bool-cases, Option-cases, inl, inr,
}
use hermesmq.Ord.{nat_ord}
use hermesmq.Map.{Map, get, insert, remove}
use hermesmq.Map.Lookup.{get-insert, get-remove}
use hermesmq.Map.Sorted.{IsSorted, insert-IsSorted, remove-IsSorted}
use hermesmq.Types.{Offset, LeaseId}
use hermesmq.Tracking.{
  OffsetTrack, SubTracking, contains, forget_oldest, redeliver, deliver_new, track_delivery,
  deliver, drop_track, note_acked, resolve, drop_stale, stale_offsets, live_count,
}
use hermesmq.Tracking.Invariant.{
  TrackInv, IsListed, forget_oldest_lem, length-keep_recent, keep_recent-newest, contains-append,
  forget_oldest-IsSorted, get-remove_leases, remove_leases-IsSorted,
}

-- The part of the state that the invariant is about decides it.
with_acked :
    (s : SubTracking) (acked : Map Offset ℕ)
    → TrackInv s
    → TrackInv (record s { acked_recently = acked })
with_acked s acked v = record {
  sorted_tracks = v.sorted_tracks;
  sorted_leases = v.sorted_leases;
  listed = v.listed;
  points = v.points;
}

-- A track put at an offset keeps the invariant, if the leases that the table leaves for the offset are
-- the new track's.
put_track-TrackInv :
    (offset : Offset) (lease : LeaseId) (track : OffsetTrack) (table : Map LeaseId Offset)
    (s : SubTracking)
    → TrackInv s
    → IsListed track
    → contains lease track.leases ≡ true
    → IsSorted table
    → ((l : LeaseId) (o : Offset) → get l table ≡ some o → get l s.lease_to_offset ≡ some o)
    → ((l : LeaseId) → get l table ≡ some offset → contains l track.leases ≡ true)
    → TrackInv (record s {
      by_offset = insert offset track s.by_offset;
      lease_to_offset = insert lease offset table;
    })
put_track-TrackInv offset lease track table s v k c sorted old own = record {
  sorted_tracks = insert-IsSorted offset track s.by_offset v.sorted_tracks;
  sorted_leases = insert-IsSorted lease offset table sorted;
  listed = λ o t e. elim (Bool-cases (o == offset)) [
    | inl h ↦ listed_same o t h e
    | inr h ↦ v.listed o t (ground (arith, get-insert o offset track s.by_offset))
  ];
  points = λ l o e. elim (Bool-cases (o == offset)) [
    | inl h ↦ (track, (ground (arith, get-insert o offset track s.by_offset), points_same l o h e))
    | inr h ↦
        let (t, (f, d)) =
          v.points l o (old l o (ground (arith, get-insert l lease offset table))) in
        (t, (ground (arith, get-insert o offset track s.by_offset), d))
  ];
}
  where
    listed_same :
        (o : Offset) (t : OffsetTrack)
        → (o == offset) ≡ true
        → get o (insert offset track s.by_offset) ≡ some t
        → IsListed t
    listed_same o t h e =
        let same : track ≡ t = ground (arith, get-insert o offset track s.by_offset) in
        rw (← same) k

    points_same :
        (l : LeaseId) (o : Offset)
        → (o == offset) ≡ true
        → get l (insert lease offset table) ≡ some o
        → contains l track.leases ≡ true
    points_same l o h e = elim (Bool-cases (l == lease)) [
      | inl g ↦ let same : l ≡ lease = ground arith in rw same c
      | inr g ↦ own l (ground (arith, get-insert l lease offset table))
    ]

redeliver-TrackInv :
    (offset : Offset) (lease : LeaseId) (deadline : ℕ) (track : OffsetTrack) (s : SubTracking)
    → get offset s.by_offset ≡ some track
    → TrackInv s
    → TrackInv (redeliver offset lease deadline track s).0
unfolding redeliver
redeliver-TrackInv offset lease deadline track s e v =
    let all : List LeaseId = track.leases ++ (lease ∷ []) in
    let newest = keep_recent-newest lease track.leases in
    let size = length-append track.leases (lease ∷ []) in
    let room = v.listed offset track e in
    put_track-TrackInv offset lease _ (forget_oldest all s.lease_to_offset) s v
      (length-keep_recent all (omega (arith, size, room.0)), newest) newest
      (forget_oldest-IsSorted all s.lease_to_offset v.sorted_leases)
      (λ l o f. (forget_oldest_lem l o all s.lease_to_offset f).0)
      (λ l f.
        let (g, keep) = forget_oldest_lem l offset all s.lease_to_offset f in
        let (t, (h, c)) = v.points l offset g in
        let same : t ≡ track = ground arith in
        keep (rw (contains-append l track.leases (lease ∷ [])) (ground (arith, same))))

deliver_new-TrackInv :
    (offset : Offset) (lease : LeaseId) (deadline : ℕ) (s : SubTracking)
    → get offset s.by_offset ≡ none
    → TrackInv s
    → TrackInv (deliver_new offset lease deadline s).0
unfolding deliver_new contains
deliver_new-TrackInv offset lease deadline s e v =
    put_track-TrackInv offset lease _ s.lease_to_offset s v (omega arith, ground arith)
      (ground arith) v.sorted_leases (λ l o f. f)
      (λ l f. let (t, (g, c)) = v.points l offset f in ground arith)

track_delivery-TrackInv :
    (offset : Offset) (lease : LeaseId) (deadline : ℕ) (s : SubTracking)
    → TrackInv s
    → TrackInv (track_delivery offset lease deadline s).0
unfolding track_delivery
track_delivery-TrackInv offset lease deadline s v = elim (Option-cases (get offset s.by_offset)) [
  | inl e ↦ rw (e, track_delivery) (deliver_new-TrackInv offset lease deadline s e v)
  | inr (t, e) ↦ rw (e, track_delivery) (redeliver-TrackInv offset lease deadline t s e v)
]

-- `deliver` keeps the invariant.
pub deliver-TrackInv :
    (offset : Offset) (lease : LeaseId) (deadline now : ℕ) (s : SubTracking)
    → TrackInv s
    → TrackInv (deliver offset lease deadline now s).0
unfolding deliver
deliver-TrackInv offset lease deadline now s v = elim (Option-cases (get offset s.acked_recently)) [
  | inl e ↦ rw (e, deliver) (track_delivery-TrackInv offset lease deadline s v)
  | inr (until, e) ↦ elim (Bool-cases (ltb now until)) [
    | inl h ↦ rw (e, h, deliver) v
    | inr h ↦
        rw (e, h, deliver)
          (track_delivery-TrackInv offset lease deadline
            (record s { acked_recently = remove offset s.acked_recently })
            (with_acked s (remove offset s.acked_recently) v))
  ]
]

drop_track-TrackInv :
    (offset : Offset) (track : OffsetTrack) (s : SubTracking)
    → get offset s.by_offset ≡ some track
    → TrackInv s
    → TrackInv (drop_track offset track s)
unfolding drop_track
drop_track-TrackInv offset track s e v = record {
  sorted_tracks = remove-IsSorted offset s.by_offset v.sorted_tracks;
  sorted_leases = remove_leases-IsSorted track.leases s.lease_to_offset v.sorted_leases;
  listed = λ o t f. v.listed o t (ground (arith, get-remove o offset s.by_offset));
  points = λ l o f.
      let (t, (g, c)) =
        v.points l o (ground (arith, get-remove_leases l track.leases s.lease_to_offset)) in
      let out : contains l track.leases ≡ false =
        ground (arith, get-remove_leases l track.leases s.lease_to_offset) in
      elim (Bool-cases (o == offset)) [
        | inl h ↦
            let same : o ≡ offset = ground arith in
            let track_same : some t ≡ some track = cc (same, g, e) in ground (arith, track_same)
        | inr h ↦ (t, (ground (arith, get-remove o offset s.by_offset), c))
      ];
}

-- `resolve` keeps the invariant.
pub resolve-TrackInv :
    (lease : LeaseId) (acked_until : Option ℕ) (s : SubTracking)
    → TrackInv s
    → TrackInv (resolve lease acked_until s).0
unfolding resolve note_acked
resolve-TrackInv lease acked_until s v = elim (Option-cases (get lease s.lease_to_offset)) [
  | inl e ↦ rw (e, resolve) v
  | inr (offset, e) ↦ elim (Option-cases (get offset s.by_offset)) [
    | inl f ↦ rw (e, f, resolve) v
    | inr (t, f) ↦
        rw (e, f, resolve)
          (noted offset acked_until (drop_track offset t s) (drop_track-TrackInv offset t s f v))
  ]
]
  where
    noted :
        (offset : Offset) (until : Option ℕ) (r : SubTracking)
        → TrackInv r
        → TrackInv (note_acked offset until r)
    noted offset none r w = w
    noted offset (some until) r w = with_acked r (insert offset until r.acked_recently) w

drop_stale-TrackInv :
    (offsets : List Offset) (s : SubTracking) → TrackInv s → TrackInv (drop_stale offsets s)
unfolding drop_stale
drop_stale-TrackInv [] s v = v
drop_stale-TrackInv (offset ∷ offsets) s v = elim (Option-cases (get offset s.by_offset)) [
  | inl e ↦ rw (e, drop_stale) (drop_stale-TrackInv offsets s v)
  | inr (t, e) ↦
      rw (e, drop_stale)
        (drop_stale-TrackInv offsets (drop_track offset t s) (drop_track-TrackInv offset t s e v))
]

-- `live_count` keeps the invariant.
pub live_count-TrackInv :
    (now grace : ℕ) (s : SubTracking) → TrackInv s → TrackInv (live_count now grace s).0
unfolding live_count
live_count-TrackInv now grace s v =
    drop_stale-TrackInv (stale_offsets now grace s.by_offset) _ (with_acked s _ v)
