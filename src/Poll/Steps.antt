-- ===== src/Poll/Steps.antt =====
-- A poll keeps the topic's invariant, and takes at most `max` lease ids.
use hermesmq.Prelude.{
  ℕ, ◌+◌, ◌≤◌, some, ◌≡◌, arith, ◌==◌, All-imp, min, Bool-cases, Option-cases, inl, inr, u64_max,
  saturating_add,
}
use hermesmq.Ord.{nat_ord, list_ord}
use hermesmq.Map.{Map}
use hermesmq.Map.Sorted.{IsSorted, AllEntries}
use hermesmq.Types.{Offset, LeaseId, Name, Message}
use hermesmq.Limits.{max_visibility_ms}
use hermesmq.Group.{GroupState, expire}
use hermesmq.Group.Invariant.{GroupInv, new_group-GroupInv}
use hermesmq.Group.Leasing.{stamped-GroupInv}
use hermesmq.Group.Release.{expire-GroupInv}
use hermesmq.Topic.{TopicState, first_offset, sweep}
use hermesmq.Topic.Invariant.{
  TopicInv, InRange, TopicInv-mono, put_group-TopicInv, group-GroupInv, first_offset-le,
}
use hermesmq.Topic.Steps.{sweep-TopicInv}
use hermesmq.Poll.{select, refresh, poll_group, poll_entry, poll_swept, poll_topic}
use hermesmq.Poll.Selection.{select-IsAvailable, select-Distinct, length-select-le}
use hermesmq.Poll.Leases.{available-IsFree, lease_chosen-GroupInv}

pub refresh-GroupInv :
    (n k ts_ms : ℕ) (g : GroupState) → GroupInv n k g → GroupInv n k (refresh ts_ms g)
unfolding refresh
refresh-GroupInv n k ts_ms g v = stamped-GroupInv n k _ _ _ (expire-GroupInv n k ts_ms g v)

pub poll_group-GroupInv :
    (messages : Map Offset Message) (n max visibility ts_ms poll_count : ℕ) (g : GroupState)
    (k : LeaseId)
    → GroupInv n k g
    → IsSorted messages
    → AllEntries (InRange n) messages
    → k + max ≤ u64_max
    → let r = poll_group messages max visibility ts_ms poll_count g k in
      GroupInv n r.1 r.0 × (k ≤ r.1) × (r.1 ≤ k + max)
unfolding poll_group
poll_group-GroupInv messages n max visibility ts_ms poll_count g k v s a h =
    elim (Bool-cases (max == 0)) [
      | inl none_asked ↦ rw none_asked (v, omega arith, omega arith)
      | inr some_asked ↦
          let l = length-select-le g max poll_count messages in
          let (v', e) =
            lease_chosen-GroupInv messages (saturating_add ts_ms visibility) n
              (select g max poll_count messages) g k v
              (All-imp (available-IsFree n g messages a) _
                (select-IsAvailable g max poll_count messages s))
              (select-Distinct g max poll_count messages) (omega (arith, l)) in
          rw some_asked (v', omega (arith, e), omega (arith, e, l))
    ]

module _ (c k : ℕ) where
  poll_entry-GroupInv :
      (group : Name) (ts_ms : ℕ) (t : TopicState) (g : GroupState)
      → TopicInv c k t
      → poll_entry group ts_ms t ≡ some g
      → GroupInv t.next_offset k g
  unfolding poll_entry
  poll_entry-GroupInv group ts_ms t g v e = ground (
    arith,
    group-GroupInv c k t v group g,
    new_group-GroupInv t.next_offset k (first_offset t) ts_ms (first_offset-le t v.messages_range),
  )

  poll_swept-TopicInv :
      (group : Name) (max visibility ts_ms : ℕ) (t : TopicState)
      → TopicInv c k t
      → k + max ≤ u64_max
      → let r = poll_swept group max visibility ts_ms t k in
        TopicInv c r.1 r.0 × (k ≤ r.1) × (r.1 ≤ k + max)
  unfolding poll_swept
  poll_swept-TopicInv group max visibility ts_ms t v h =
      elim (Option-cases (poll_entry group ts_ms t)) [
        | inl e ↦ rw (e, poll_swept) (v, omega arith, omega arith)
        | inr (g, e) ↦
            let (v', low, high) =
              poll_group-GroupInv t.messages t.next_offset max visibility ts_ms
                (expire ts_ms g).poll_count (refresh ts_ms g) k
                (refresh-GroupInv t.next_offset k ts_ms g (poll_entry-GroupInv group ts_ms t g v e))
                v.sorted_messages v.messages_range h in
            rw (e, poll_swept)
              (
                put_group-TopicInv c _ t (TopicInv-mono c c k _ t (omega arith) low v) group _ v',
                low,
                high,
              )
      ]

  pub poll_topic-TopicInv :
      (group : Name) (max visibility ts_ms : ℕ) (t : TopicState)
      → TopicInv c k t
      → k + max ≤ u64_max
      → let r = poll_topic group max visibility ts_ms t k in
        TopicInv c r.1 r.0 × (k ≤ r.1) × (r.1 ≤ k + max)
  unfolding poll_topic
  poll_topic-TopicInv group max visibility ts_ms t v h =
      poll_swept-TopicInv group max (min visibility max_visibility_ms) ts_ms (sweep ts_ms t)
        (sweep-TopicInv c k ts_ms t v) h
