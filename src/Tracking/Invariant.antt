-- ===== src/Tracking/Invariant.antt =====
-- The invariant of `SubTracking`, and that it is what `debug_check_invariants` tests.
use hermesmq.Prelude.{
  ◌+◌, ◌≤◌, List, [], ◌∷◌, ◌++◌, true, false, ◌||◌, none, some, ◌≡◌, refl, arith, if◌then◌else◌,
  ltb, length, Bool-cases, inl, inr,
}
use hermesmq.Ord.{nat_ord}
use hermesmq.Map.{Map, get, remove}
use hermesmq.Map.Lookup.{get-remove}
use hermesmq.Map.Sorted.{IsSorted, AllEntries, AllEntries-of_get, remove-IsSorted}
use hermesmq.Types.{Offset, LeaseId}
use hermesmq.Tracking.{
  OffsetTrack, SubTracking, no_tracking, contains, keep_recent, forget_oldest, remove_leases,
  leases_point, tracks_listed, debug_check_invariants, subscribe_max_lease_aliases,
}

-- A track lists its current lease, among eight at most.
abbrev pub IsListed : OffsetTrack → Type 0
IsListed t = (length t.leases ≤ subscribe_max_lease_aliases) × (contains t.lease_id t.leases ≡ true)

-- An offset's track lists the lease.
abbrev pub Lists : Map Offset OffsetTrack → LeaseId → Offset → Type 0
Lists tracks lease offset =
    (t : OffsetTrack) × ((get offset tracks ≡ some t) × (contains lease t.leases ≡ true))

pub record TrackInv (s : SubTracking) : Type 0 where
  pub sorted_tracks : IsSorted s.by_offset
  pub sorted_leases : IsSorted s.lease_to_offset
  pub listed : (o : Offset) (t : OffsetTrack) → get o s.by_offset ≡ some t → IsListed t
  pub points : (l : LeaseId) (o : Offset) → get l s.lease_to_offset ≡ some o → Lists s.by_offset l o

pub no_tracking-TrackInv : TrackInv no_tracking
unfolding no_tracking get
no_tracking-TrackInv = record {
  sorted_tracks = tt;
  sorted_leases = tt;
  listed = λ o t e. ground arith;
  points = λ l o e. ground arith;
}

leases_point-true :
    (table : Map LeaseId Offset) (tracks : Map Offset OffsetTrack)
    → AllEntries (λ l o. Lists tracks l o) table
    → leases_point table tracks ≡ true
unfolding leases_point
leases_point-true [] tracks a = refl
leases_point-true ((l, o) ∷ table) tracks a =
    let (t, (e, c)) = a.0 in rw (leases_point, e, c, leases_point-true table tracks a.1) refl

tracks_listed-true :
    (m : Map Offset OffsetTrack) → AllEntries (λ _ t. IsListed t) m → tracks_listed m ≡ true
unfolding tracks_listed
tracks_listed-true [] a = refl
tracks_listed-true ((o, t) ∷ m) a =
    let short : ltb (subscribe_max_lease_aliases + 1) (length t.leases) ≡ false =
      ground (arith, a.0.0) in
    rw (short, a.0.1, tracks_listed-true m a.1) refl

-- `debug_check_invariants` accepts every state that has the invariant.
pub debug_check_invariants-true : (s : SubTracking) → TrackInv s → debug_check_invariants s ≡ true
unfolding debug_check_invariants
debug_check_invariants-true s v =
    rw
      (
        leases_point-true s.lease_to_offset s.by_offset
            (AllEntries-of_get _ s.lease_to_offset v.sorted_leases v.points),
        tracks_listed-true s.by_offset (AllEntries-of_get _ s.by_offset v.sorted_tracks v.listed),
      )
      refl

pub contains-append :
    (l : LeaseId) (xs ys : List LeaseId) → contains l (xs ++ ys) ≡ contains l xs || contains l ys
unfolding contains
contains-append l [] ys = refl
contains-append l (x ∷ xs) ys = ground (arith, contains-append l xs ys)

-- A lease that the trimmed table knows is one of the leases that stay, if the list had it.
pub forget_oldest_lem :
    (l : LeaseId) (o : Offset) (leases : List LeaseId) (table : Map LeaseId Offset)
    → get l (forget_oldest leases table) ≡ some o
    → (get l table ≡ some o) × (contains l leases ≡ true → contains l (keep_recent leases) ≡ true)
unfolding forget_oldest keep_recent contains
forget_oldest_lem l o [] table e = (e, λ c. c)
forget_oldest_lem l o (old ∷ leases) table e =
    elim (Bool-cases (ltb subscribe_max_lease_aliases (length (old ∷ leases)))) [
      | inl f ↦ (
        ground (arith, get-remove l old table),
        λ (c : contains l (old ∷ leases) ≡ true). ground (arith, get-remove l old table),
      )
      | inr f ↦ (ground arith, λ (c : contains l (old ∷ leases) ≡ true). ground arith)
    ]

pub length-keep_recent :
    (leases : List LeaseId)
    → length leases ≤ subscribe_max_lease_aliases + 1
    → length (keep_recent leases) ≤ subscribe_max_lease_aliases
unfolding keep_recent
length-keep_recent [] h = omega arith
length-keep_recent (old ∷ leases) h = ground arith

-- The newest of several leases stays.
pub keep_recent-newest :
    (l : LeaseId) (leases : List LeaseId) → contains l (keep_recent (leases ++ (l ∷ []))) ≡ true
unfolding keep_recent contains
keep_recent-newest l [] = ground arith
keep_recent-newest l (old ∷ leases) = ground (arith, contains-append l leases (l ∷ []))

pub forget_oldest-IsSorted :
    (leases : List LeaseId) (table : Map LeaseId Offset)
    → IsSorted table
    → IsSorted (forget_oldest leases table)
unfolding forget_oldest
forget_oldest-IsSorted [] table s = s
forget_oldest-IsSorted (old ∷ leases) table s =
    elim (Bool-cases (ltb subscribe_max_lease_aliases (length (old ∷ leases)))) [
      | inl f ↦ rw f (remove-IsSorted old table s)
      | inr f ↦ rw f s
    ]

pub get-remove_leases :
    (l : LeaseId) (leases : List LeaseId) (table : Map LeaseId Offset)
    → get l (remove_leases leases table) ≡ (if contains l leases then none else get l table)
unfolding remove_leases contains
get-remove_leases l [] table = refl
get-remove_leases l (x ∷ leases) table =
    rw (get-remove_leases l leases (remove x table), get-remove l x table) (ground arith)

pub remove_leases-IsSorted :
    (leases : List LeaseId) (table : Map LeaseId Offset)
    → IsSorted table
    → IsSorted (remove_leases leases table)
unfolding remove_leases
remove_leases-IsSorted [] table s = s
remove_leases-IsSorted (x ∷ leases) table s =
    remove_leases-IsSorted leases (remove x table) (remove-IsSorted x table s)
