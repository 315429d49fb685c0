-- ===== src/Validate.antt =====
-- crates/hermesmq-core/src/queue.rs: `Queue::normalize` and `Queue::validate`, which decide whether a
-- decoded snapshot may replace the queue.
pub mod Leases
pub mod Accepts
use hermesmq.Prelude.{
  ℕ, zero, suc, ◌+◌, List, [], ◌∷◌, Bool, true, false, not, ◌&&◌, ◌||◌, Option, none, some,
  if◌then◌else◌, ltb, leb, ◌==◌, length,
}
use hermesmq.Ord.{nat_ord, list_ord, pair_ord}
use hermesmq.Map.{Map, Set, get, has, insert, first_key, last_key, map_values}
use hermesmq.Types.{Offset, LeaseId, Name, Message}
use hermesmq.Limits.{max_counter, dedup_capacity}
use hermesmq.Group.{Lease, GroupState}
use hermesmq.Topic.{TopicState, DedupKey}
use hermesmq.Queue.{Queue}

-- What is wrong with a state: the texts of `validate`, with what they print.
pub data Damage : Type 0 where
  next_lease_id_is : LeaseId → Damage
  next_offset_is : Name → Offset → Damage
  message_carries : Name → Offset → Offset → Damage
  message_past_end : Name → Offset → Offset → Damage
  dedup_sizes : Name → ℕ → ℕ → Damage
  dedup_holds : Name → ℕ → Damage
  order_repeats : Name → Damage
  order_unbacked : Name → Damage
  poll_count_is : Name → Name → ℕ → Damage
  watermark_past_end : Name → Name → Offset → Offset → Damage
  acked_past_end : Name → Name → Offset → Offset → Damage
  lease_unissued : Name → Name → LeaseId → LeaseId → Damage
  lease_past_end : Name → Name → Offset → Offset → Damage
  offset_shared : Name → Name → Damage
  tables_disagree : Name → Name → Damage
  watermark_acked : Name → Name → Offset → Damage
  acked_below : Name → Name → Offset → Offset → Damage
  leased_below : Name → Name → Offset → Offset → Damage

-- `if bad { return Err(damage); }`, and the checks after it
abbrev pub refuse : Bool → Damage → Option Damage → Option Damage
refuse true damage rest = some damage
refuse false damage rest = rest

-- a check on the greatest or least entry, where there is one
abbrev pub at_entry : Option ℕ → (ℕ → Bool) → (ℕ → Damage) → Option Damage → Option Damage
at_entry none bad damage rest = rest
at_entry (some o) bad damage rest = refuse (bad o) (damage o) rest

-- the checks of a loop, before those after it
abbrev pub and_also : Option Damage → Option Damage → Option Damage
and_also (some damage) rest = some damage
and_also none rest = rest

unfoldable pub check_messages : Name → Map Offset Message → Option Damage
check_messages name [] = none
check_messages name ((offset, m) ∷ ms) =
    let rest = check_messages name ms in
    refuse (not (m.offset == offset)) (message_carries name offset m.offset) rest

-- `iter().collect()` into a set
unfoldable pub collect_keys : List DedupKey → Set DedupKey → Set DedupKey
collect_keys [] set = set
collect_keys (key ∷ keys) set = collect_keys keys (insert key tt set)

unfoldable pub check_order : Name → List DedupKey → Map DedupKey Offset → Option Damage
check_order name [] dedup = none
check_order name (key ∷ order) dedup =
    let rest = check_order name order dedup in
    refuse (not (has key dedup)) (order_unbacked name) rest

unfoldable pub check_leases : Name → Name → LeaseId → Offset → Map LeaseId Lease → Option Damage
check_leases name group next_lease next [] = none
check_leases name group next_lease next ((id, l) ∷ ls) =
    let rest = check_leases name group next_lease next ls in
    refuse (leb next_lease id) (lease_unissued name group id next_lease)
      (refuse (leb next l.offset) (lease_past_end name group l.offset next) rest)

-- `in_flight.values().map(|l| (l.offset, l.deadline_ms)).collect()`
unfoldable pub collect_leases : Map LeaseId Lease → Map Offset ℕ → Map Offset ℕ
collect_leases [] table = table
collect_leases ((id, l) ∷ ls) table = collect_leases ls (insert l.offset l.deadline_ms table)

-- `==` of two tables
unfoldable pub same_table : Map Offset ℕ → Map Offset ℕ → Bool
same_table [] [] = true
same_table [] (e ∷ n) = false
same_table (e ∷ m) [] = false
same_table ((o, d) ∷ m) ((p, e) ∷ n) = o == p && d == e && same_table m n

unfoldable pub validate_group : Name → LeaseId → Offset → Name → GroupState → Option Damage
validate_group name next_lease next group g =
    let by_lease = collect_leases g.in_flight [] in
    refuse (ltb max_counter g.poll_count) (poll_count_is name group g.poll_count) (
      refuse (ltb next g.ack_watermark) (watermark_past_end name group g.ack_watermark next) (
        at_entry (last_key g.acked_above) (λ o. leb next o) (λ o. acked_past_end name group o next)
          (and_also (check_leases name group next_lease next g.in_flight) (
            refuse (not (length by_lease == length g.in_flight)) (offset_shared name group) (
              refuse (not (same_table by_lease g.leased_offsets)) (tables_disagree name group) (
                refuse (has g.ack_watermark g.acked_above)
                  (watermark_acked name group g.ack_watermark)
                  (at_entry (first_key g.acked_above) (λ o. ltb o g.ack_watermark)
                    (λ o. acked_below name group o g.ack_watermark)
                    (at_entry (first_key g.leased_offsets) (λ o. ltb o g.ack_watermark)
                      (λ o. leased_below name group o g.ack_watermark) none))))))))

unfoldable pub validate_groups : Name → LeaseId → Offset → Map Name GroupState → Option Damage
validate_groups name next_lease next [] = none
validate_groups name next_lease next ((group, g) ∷ gs) =
    let rest = validate_groups name next_lease next gs in
    and_also (validate_group name next_lease next group g) rest

unfoldable pub validate_topic : LeaseId → Name → TopicState → Option Damage
validate_topic next_lease name t =
    refuse (ltb max_counter t.next_offset) (next_offset_is name t.next_offset) (
      and_also (check_messages name t.messages) (
        at_entry (last_key t.messages) (λ o. leb t.next_offset o)
          (λ o. message_past_end name o t.next_offset)
          (refuse (not (length t.dedup == length t.dedup_order))
            (dedup_sizes name (length t.dedup) (length t.dedup_order))
            (refuse (ltb dedup_capacity (length t.dedup)) (dedup_holds name (length t.dedup)) (
              refuse (not (length (collect_keys t.dedup_order []) == length t.dedup_order))
                (order_repeats name)
                (and_also (check_order name t.dedup_order t.dedup)
                  (validate_groups name next_lease t.next_offset t.groups)))))))

unfoldable pub validate_topics : LeaseId → Map Name TopicState → Option Damage
validate_topics next_lease [] = none
validate_topics next_lease ((name, t) ∷ ts) =
    let rest = validate_topics next_lease ts in and_also (validate_topic next_lease name t) rest

-- `none` is `Ok(())`.
unfoldable pub validate : Queue → Option Damage
validate q =
    refuse (ltb max_counter q.next_lease_id) (next_lease_id_is q.next_lease_id)
      (validate_topics q.next_lease_id q.topics)

-- A watermark past the end of the topic is lowered to it.
unfoldable pub lower_watermark : Offset → GroupState → GroupState
lower_watermark next g = if ltb next g.ack_watermark then record g { ack_watermark = next } else g

unfoldable pub normalize_topic : TopicState → TopicState
normalize_topic t = record t { groups = map_values (lower_watermark t.next_offset) t.groups }

unfoldable pub normalize : Queue → Queue
normalize q = record q { topics = map_values normalize_topic q.topics }
