-- ===== src/Poll/Contract.antt =====
-- What a poll promises of the items that it delivers.
use hermesmq.Prelude.{
  ℕ, ◌+◌, ◌≤◌, List, [], ◌∷◌, ◌≡◌, refl, arith, length, ◌==◌, All, Bool-cases, inl, inr, u64_max,
  saturating_add, map, ap,
}
use hermesmq.Ord.{nat_ord}
use hermesmq.Map.{Map}
use hermesmq.Map.Sorted.{IsSorted}
use hermesmq.Types.{Offset, LeaseId, Message, Delivered}
use hermesmq.Group.{GroupState}
use hermesmq.Poll.{lease_chosen, select, poll_group}
use hermesmq.Poll.Candidates.{Distinct}
use hermesmq.Poll.Selection.{
  IsAvailable, IsRanked, select-IsAvailable, select-Distinct, select-IsRanked, length-select-le,
}
use hermesmq.Poll.Leases.{
  IsDelivered, candidate_of, candidates-lease_chosen, lease_chosen-IsDelivered,
}

-- The promise, over the messages of the topic and the group before and after the poll.
pub record IsServed (messages : Map Offset Message) (max deadline : ℕ) (g g' : GroupState)
    (items : List Delivered) : Type 0 where
  pub bounded : length items ≤ max
  pub available : All (IsAvailable g messages) (map candidate_of items)
  pub distinct : Distinct (map candidate_of items)
  pub ranked : IsRanked (map candidate_of items)
  pub delivered : All (IsDelivered messages deadline g'.in_flight) items

length-candidates : (items : List Delivered) → length (map candidate_of items) ≡ length items
length-candidates [] = refl
length-candidates (d ∷ items) = omega (arith, length-candidates items)

-- A poll of a group delivers at most `max` messages, each of them stored, not acknowledged and not
-- leased before, none twice, by priority and then by age; each item carries the stored message and
-- is leased to the caller until the deadline.
pub poll_group-IsServed :
    (messages : Map Offset Message) (max visibility ts_ms poll_count : ℕ) (g : GroupState)
    (k : LeaseId)
    → IsSorted messages
    → k + max ≤ u64_max
    → let r = poll_group messages max visibility ts_ms poll_count g k in
      IsServed messages max (saturating_add ts_ms visibility) g r.0 r.2
unfolding poll_group
poll_group-IsServed messages max visibility ts_ms poll_count g k s h =
    elim (Bool-cases (max == 0)) [
      | inl none_asked ↦ rw none_asked (record {
        bounded = omega arith;
        available = tt;
        distinct = tt;
        ranked = tt;
        delivered = tt;
      })
      | inr some_asked ↦
          let deadline = saturating_add ts_ms visibility in
          let xs = select g max poll_count messages in
          let items = (lease_chosen messages deadline xs g k).2 in
          let a = select-IsAvailable g max poll_count messages s in
          let same = candidates-lease_chosen messages deadline g xs g k a in
          let l = length-select-le g max poll_count messages in
          rw some_asked (record {
            bounded = omega (arith, l, length-candidates items, ap length same);
            available = rw same a;
            distinct = rw same (select-Distinct g max poll_count messages);
            ranked = rw same (select-IsRanked g max poll_count messages);
            delivered = lease_chosen-IsDelivered messages deadline xs g k (omega (arith, l));
          })
    ]
