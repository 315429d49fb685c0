-- ===== src/Produce.antt =====
-- crates/hermesmq-core/src/queue.rs: `produce_one` at a topic.
pub mod Steps
pub mod Retry
pub mod Remember
pub mod Resend
use hermesmq.Prelude.{
  ℕ, zero, suc, ◌+◌, List, [], ◌∷◌, ◌++◌, Bool, true, false, not, Option, none, some, if◌then◌else◌,
  ltb, length, saturating_add, is_empty,
}
use hermesmq.Ord.{nat_ord, pair_ord, list_ord}
use hermesmq.Map.{Map, get, insert, remove}
use hermesmq.Types.{Offset, Message, ProduceItem}
use hermesmq.Limits.{dedup_capacity}
use hermesmq.Topic.{TopicState, DedupKey, purge_retained}

unfoldable pub message_of : Offset → ProduceItem → Message
message_of offset item = record {
  offset = offset;
  priority = item.priority;
  content_type = item.content_type;
  payload = item.payload;
  ts_ms = item.ts_ms;
}

-- `(item.producer_id, item.seq)`
abbrev pub key_of : ProduceItem → DedupKey
key_of item = (item.producer_id, item.seq)

-- `while t.dedup_order.len() > DEDUP_CAPACITY { … }`
unfoldable pub evict_dedup :
    List DedupKey → Map DedupKey Offset → List DedupKey × Map DedupKey Offset
evict_dedup [] dedup = ([], dedup)
evict_dedup (old ∷ order) dedup =
    let rest = evict_dedup order (remove old dedup) in
    if ltb dedup_capacity (length (old ∷ order)) then rest else (old ∷ order, dedup)

-- The offset of an earlier produce with the same producer and sequence number.
unfoldable pub duplicate_of : ProduceItem → TopicState → Option Offset
duplicate_of item t = if is_empty item.producer_id then none else get (key_of item) t.dedup

-- the insertion of the message
unfoldable pub append_message : ProduceItem → TopicState → TopicState
append_message item t = record t {
  next_offset = saturating_add t.next_offset 1;
  messages = insert t.next_offset (message_of t.next_offset item) t.messages;
}

-- `if dedup { … }`, for the message at `offset`
unfoldable pub record_dedup : ProduceItem → Offset → TopicState → TopicState
record_dedup item offset t =
    if is_empty item.producer_id
    then t
    else (let evicted =
          evict_dedup (t.dedup_order ++ key_of item ∷ []) (insert (key_of item) offset t.dedup) in
        record t { dedup_order = evicted.0; dedup = evicted.1 })

unfoldable pub produce_topic : ProduceItem → TopicState → TopicState × Offset
produce_topic item t = elim (duplicate_of item t) [
  | some offset ↦ (purge_retained item.ts_ms t, offset)
  | none ↦ (
    purge_retained item.ts_ms (record_dedup item t.next_offset (append_message item t)),
    t.next_offset,
  )
]
