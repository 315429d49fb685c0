-- ===== src/Poll/Leases.antt =====
-- The lease loop of a poll: the invariant, and what each delivered item is.
use hermesmq.Prelude.{
  ℕ, ◌+◌, ◌≤◌, ◌<◌, List, [], ◌∷◌, false, some, ◌≡◌, refl, arith, length, ◌≢◌, All, u64_max,
  saturating_add, ◌∙◌, map,
}
use hermesmq.Ord.{nat_ord}
use hermesmq.Map.{Map, get, has}
use hermesmq.Map.Lookup.{get-insert}
use hermesmq.Map.Sorted.{AllEntries, AllEntries-get}
use hermesmq.Types.{Offset, LeaseId, Message, Delivered}
use hermesmq.Group.{GroupState, Lease, lease_offset}
use hermesmq.Group.Invariant.{GroupInv}
use hermesmq.Group.Leasing.{lease_offset-GroupInv}
use hermesmq.Topic.Invariant.{InRange}
use hermesmq.Poll.{Candidate, lease_chosen, delivery, message_at}
use hermesmq.Poll.Candidates.{Distinct}
use hermesmq.Poll.Selection.{IsAvailable}

-- The group can be given a lease on the candidate.
abbrev pub IsFree : ℕ → GroupState → Candidate → Type 0
IsFree n g x =
    (g.ack_watermark ≤ x.offset)
    × (x.offset < n)
    × (has x.offset g.acked_above ≡ false)
    × (has x.offset g.leased_offsets ≡ false)

pub available-IsFree :
    (n : ℕ) (g : GroupState) (messages : Map Offset Message)
    → AllEntries (InRange n) messages
    → (x : Candidate) → IsAvailable g messages x
    → IsFree n g x
available-IsFree n g messages a x v = (
  v.above,
  (AllEntries-get (InRange n) messages x.offset v.message a v.stored).1,
  v.unacked,
  v.unleased,
)

still-IsFree :
    (n k : ℕ) (o : Offset) (deadline : ℕ) (g : GroupState) (xs : List Candidate)
    → All (λ y. y.offset ≢ o) xs
    → All (IsFree n g) xs
    → All (IsFree n (lease_offset k o deadline g)) xs
unfolding lease_offset
still-IsFree n k o deadline g [] d a = tt
still-IsFree n k o deadline g (x ∷ xs) d a = (
  (a.0.0, a.0.1, a.0.2, ground (arith, get-insert x.offset o deadline g.leased_offsets)),
  still-IsFree n k o deadline g xs d.1 a.1,
)

module _ (messages : Map Offset Message) (deadline : ℕ) where
  -- Each candidate takes the next lease id, and the group stays well formed.
  pub lease_chosen-GroupInv :
      (n : ℕ) (xs : List Candidate) (g : GroupState) (k : LeaseId)
      → GroupInv n k g
      → All (IsFree n g) xs
      → Distinct xs
      → k + length xs ≤ u64_max
      → let r = lease_chosen messages deadline xs g k in GroupInv n r.1 r.0 × (r.1 ≡ k + length xs)
  unfolding lease_chosen
  lease_chosen-GroupInv n [] g k v a d h = (v, omega arith)
  lease_chosen-GroupInv n (x ∷ xs) g k v a d h =
      let up : saturating_add k 1 ≡ k + 1 = omega arith in
      let v1 = lease_offset-GroupInv n k x.offset deadline g v a.0.0 a.0.1 a.0.2 a.0.3 in
      let (v', e) =
        lease_chosen-GroupInv n xs (lease_offset k x.offset deadline g) (k + 1) v1
          (still-IsFree n k x.offset deadline g xs d.0 a.1) d.1 (omega arith) in
      rw up (v', omega (arith, e))

  -- Leases that were there stay, under their ids.
  pub lease_chosen-frame :
      (xs : List Candidate) (g : GroupState) (k : LeaseId) (j : LeaseId)
      → j < k
      → k + length xs ≤ u64_max
      → get j (lease_chosen messages deadline xs g k).0.in_flight ≡ get j g.in_flight
  unfolding lease_chosen lease_offset
  lease_chosen-frame [] g k j h b = refl
  lease_chosen-frame (x ∷ xs) g k j h b =
      let up : saturating_add k 1 ≡ k + 1 = omega arith in
      rw up (
        lease_chosen-frame xs (lease_offset k x.offset deadline g) (k + 1) j (omega arith)
          (omega arith)
        ∙ ground (
          arith,
          get-insert j k (record { offset = x.offset; deadline_ms = deadline }) g.in_flight,
        ))

  -- An item is a stored message, under a lease that the table of leases holds.
  pub record IsDelivered (in_flight : Map LeaseId Lease) (d : Delivered) : Type 0 where
    pub content : d ≡ delivery d.lease_id d.offset (message_at d.offset messages)
    pub leased :
        get d.lease_id in_flight ≡ some (record { offset = d.offset; deadline_ms = deadline })

  pub lease_chosen-IsDelivered :
      (xs : List Candidate) (g : GroupState) (k : LeaseId)
      → k + length xs ≤ u64_max
      → let r = lease_chosen messages deadline xs g k in All (IsDelivered r.0.in_flight) r.2
  unfolding lease_chosen delivery lease_offset
  lease_chosen-IsDelivered [] g k h = tt
  lease_chosen-IsDelivered (x ∷ xs) g k h =
      let next = saturating_add k 1 in
      let g1 = lease_offset k x.offset deadline g in
      (
        record {
          content = refl;
          leased =
              lease_chosen-frame xs g1 next k (omega arith) (omega arith)
              ∙ ground (
                arith,
                get-insert k k (record { offset = x.offset; deadline_ms = deadline }) g.in_flight,
              );
        },
        lease_chosen-IsDelivered xs g1 next (omega arith),
      )

-- The candidate that an item delivers.
abbrev pub candidate_of : Delivered → Candidate
candidate_of d = record { priority = d.priority; offset = d.offset }

module _ (messages : Map Offset Message) (deadline : ℕ) (avail : GroupState) where
  -- The items deliver the candidates, in their order.
  pub candidates-lease_chosen :
      (xs : List Candidate) (g : GroupState) (k : LeaseId)
      → All (IsAvailable avail messages) xs
      → map candidate_of (lease_chosen messages deadline xs g k).2 ≡ xs
  unfolding lease_chosen delivery message_at
  candidates-lease_chosen [] g k a = refl
  candidates-lease_chosen (x ∷ xs) g k a = ground (
    arith,
    a.0.stored,
    a.0.ranked,
    candidates-lease_chosen xs (lease_offset k x.offset deadline g) (saturating_add k 1) a.1,
  )
