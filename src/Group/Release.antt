-- ===== src/Group/Release.antt =====
-- Giving leases back: `release`, and the loops of `expire` and `advance_watermark`.
use hermesmq.Prelude.{
  ℕ, List, [], ◌∷◌, Bool, true, none, some, ◌≡◌, refl, arith, if◌then◌else◌, any, leb, inl, inr,
  Option-cases,
}
use hermesmq.Ord.{nat_ord}
use hermesmq.Map.{Map, get, has, remove, retain, keys, same}
use hermesmq.Map.Lookup.{get-remove}
use hermesmq.Map.Sorted.{IsSorted, AllEntries-retain, remove-IsSorted, get-retain}
use hermesmq.Types.{Offset, LeaseId}
use hermesmq.Group.{Lease, GroupState, release, release_all, expire}
use hermesmq.Group.Invariant.{HasLeases, HasAcked, GroupInv}

-- The group without the lease `id` on `l`.
abbrev without : LeaseId → Lease → GroupState → GroupState
without id l g = record g {
  in_flight = remove id g.in_flight;
  leased_offsets = remove l.offset g.leased_offsets;
}

-- A release either finds no lease, or takes one away.
pub release_cases {ℓ} :
    (P : GroupState → Type ℓ) (id : LeaseId) (g : GroupState)
    → (get id g.in_flight ≡ none → P g)
    → ((l : Lease) → get id g.in_flight ≡ some l → P (without id l g))
    → P (release id g)
unfolding release
release_cases P id g missing found = elim (Option-cases (get id g.in_flight)) [
  | inl e ↦ rw (e, release) (missing e)
  | inr (l, e) ↦ rw (e, release) (found l e)
]

-- What is left in flight after a release, and after many.
pub get-release :
    (j id : LeaseId) (g : GroupState)
    → get j (release id g).in_flight ≡ (if same id j then none else get j g.in_flight)
get-release j id g =
    release_cases (λ r. get j r.in_flight ≡ (if same id j then none else get j g.in_flight)) id g
      (λ e. ground arith) (λ l e. get-remove j id g.in_flight)

pub get-release_all :
    (j : LeaseId) (ids : List LeaseId) (g : GroupState)
    → get j (release_all ids g).in_flight
      ≡ (if any (λ i. same i j) ids then none else get j g.in_flight)
unfolding release_all
get-release_all j [] g = refl
get-release_all j (id ∷ ids) g =
    ground (arith, get-release_all j ids (release id g), get-release j id g)

-- Only the two tables of leases change.
pub release-frame :
    (id : LeaseId) (g : GroupState)
    → ((release id g).ack_watermark ≡ g.ack_watermark)
      × ((release id g).acked_above ≡ g.acked_above)
release-frame id g =
    release_cases (λ r. (r.ack_watermark ≡ g.ack_watermark) × (r.acked_above ≡ g.acked_above)) id g
      (λ e. (refl, refl)) (λ l e. (refl, refl))

pub release_all-frame :
    (ids : List LeaseId) (g : GroupState)
    → ((release_all ids g).ack_watermark ≡ g.ack_watermark)
      × ((release_all ids g).acked_above ≡ g.acked_above)
unfolding release_all
release_all-frame [] g = (refl, refl)
release_all-frame (id ∷ ids) g =
    ground (arith, release_all-frame ids (release id g), release-frame id g)

pub any-keys : (j : LeaseId) (m : Map LeaseId Lease) → any (λ i. same i j) (keys m) ≡ has j m
unfolding get
any-keys j [] = refl
any-keys j ((i, l) ∷ m) = ground (arith, any-keys j m)

-- Releasing the leases that pass a test leaves exactly those that do not.
pub get-release_passing :
    (p : LeaseId → Lease → Bool) (j : LeaseId) (g : GroupState) (h : GroupState)
    → IsSorted g.in_flight
    → h.in_flight ≡ g.in_flight
    → get j (release_all (keys (retain p g.in_flight)) h).in_flight
      ≡ elim (get j g.in_flight) [ none ↦ none | some l ↦ if p j l then none else some l ]
get-release_passing p j g h s e = ground (
  arith,
  get-release_all j (keys (retain p g.in_flight)) h,
  any-keys j (retain p g.in_flight),
  get-retain p j g.in_flight s,
)

module _ (n k w : ℕ) where
  pub without-HasLeases :
      (id : LeaseId) (l : Lease) (g : GroupState)
      → HasLeases n k w g
      → get id g.in_flight ≡ some l
      → HasLeases n k w (without id l g)
  without-HasLeases id l g v e = record {
    sorted_flight = remove-IsSorted id g.in_flight v.sorted_flight;
    sorted_leased = remove-IsSorted l.offset g.leased_offsets v.sorted_leased;
    flight_range = unfold remove in AllEntries-retain _ _ g.in_flight v.flight_range;
    leased_of_flight = λ j m h. ground (
      arith,
      get-remove j id g.in_flight,
      get-remove m.offset l.offset g.leased_offsets,
      v.leased_of_flight j m,
      v.one_lease id j l m,
    );
    flight_of_leased = λ o h. kept o h;
    one_lease = λ i j a b h p q.
        ground
          (arith, get-remove i id g.in_flight, get-remove j id g.in_flight, v.one_lease i j a b);
  }
    where
      held :
          (o : Offset)
          → has o (remove l.offset g.leased_offsets) ≡ true
          → has o g.leased_offsets ≡ true
      held o h = ground (arith, get-remove o l.offset g.leased_offsets)

      kept :
          (o : Offset)
          → has o (remove l.offset g.leased_offsets) ≡ true
          → (j : LeaseId) × (m : Lease) × (get j (remove id g.in_flight) ≡ some m) × (m.offset ≡ o)
      kept o h =
          let (j, m, f, q) = v.flight_of_leased o (held o h) in
          (
            j,
            m,
            ground (arith, get-remove j id g.in_flight, get-remove o l.offset g.leased_offsets),
            q,
          )

  pub without-HasAcked :
      (id : LeaseId) (l : Lease) (g : GroupState) → HasAcked n w g → HasAcked n w (without id l g)
  without-HasAcked id l g v = record {
    sorted_acked = v.sorted_acked;
    watermark_le = v.watermark_le;
    acked_range = v.acked_range;
    unacked = λ j m h. ground (arith, get-remove j id g.in_flight, v.unacked j m);
  }

module _ (n k : ℕ) where
  pub release-Leases :
      (w : ℕ) (id : LeaseId) (g : GroupState)
      → HasLeases n k w g
      → HasAcked n w g
      → HasLeases n k w (release id g) × HasAcked n w (release id g)
  release-Leases w id g v a =
      release_cases (λ r. HasLeases n k w r × HasAcked n w r) id g (λ e. (v, a))
        (λ l e. (without-HasLeases n k w id l g v e, without-HasAcked n k w id l g a))

  pub release_all-Leases :
      (w : ℕ) (ids : List LeaseId) (g : GroupState)
      → HasLeases n k w g
      → HasAcked n w g
      → HasLeases n k w (release_all ids g) × HasAcked n w (release_all ids g)
  unfolding release_all
  release_all-Leases w [] g v a = (v, a)
  release_all-Leases w (id ∷ ids) g v a =
      let (v', a') = release-Leases w id g v a in release_all-Leases w ids (release id g) v' a'

  pub without-GroupInv :
      (id : LeaseId) (l : Lease) (g : GroupState)
      → GroupInv n k g
      → get id g.in_flight ≡ some l
      → GroupInv n k (without id l g)
  without-GroupInv id l g v e = record {
    leases = without-HasLeases n k g.ack_watermark id l g v.leases e;
    acks = without-HasAcked n k g.ack_watermark id l g v.acks;
    settled = v.settled;
  }

  pub release-GroupInv :
      (id : LeaseId) (g : GroupState) → GroupInv n k g → GroupInv n k (release id g)
  release-GroupInv id g v =
      release_cases (GroupInv n k) id g (λ e. v) (λ l e. without-GroupInv id l g v e)

  pub release_all-GroupInv :
      (ids : List LeaseId) (g : GroupState) → GroupInv n k g → GroupInv n k (release_all ids g)
  unfolding release_all
  release_all-GroupInv [] g v = v
  release_all-GroupInv (id ∷ ids) g v =
      release_all-GroupInv ids (release id g) (release-GroupInv id g v)

  pub expire-GroupInv : (now : ℕ) (g : GroupState) → GroupInv n k g → GroupInv n k (expire now g)
  unfolding expire
  expire-GroupInv now g v = release_all-GroupInv _ g v

-- `expire` takes back exactly the leases whose deadline has come.
pub get-expire :
    (n k now : ℕ) (id : LeaseId) (g : GroupState)
    → GroupInv n k g
    → get id (expire now g).in_flight ≡ elim (get id g.in_flight) [
      | none ↦ none
      | some l ↦ if leb l.deadline_ms now then none else some l
    ]
unfolding expire
get-expire n k now id g v =
    get-release_passing (λ _ l. leb l.deadline_ms now) id g g v.leases.sorted_flight refl
