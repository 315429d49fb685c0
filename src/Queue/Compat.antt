-- ===== src/Queue/Compat.antt =====
-- crates/hermesmq-core/src/queue.rs, `mod compat`: the state of the first format, and what it becomes.
use hermesmq.Prelude.{ℕ, List, [], ◌∷◌}
use hermesmq.Map.{Map, Set}
use hermesmq.Types.{Offset, LeaseId, Name, Message}
use hermesmq.Group.{Lease, GroupState}
use hermesmq.Topic.{TopicState, DedupKey}
use hermesmq.Queue.{Queue}

pub record GroupStateV0 : Type 0 where
  pub ack_watermark : Offset
  pub acked_above : Set Offset
  pub in_flight : Map LeaseId Lease
  pub leased_offsets : Map Offset ℕ
  pub poll_count : ℕ

pub record TopicStateV0 : Type 0 where
  pub next_offset : Offset
  pub messages : Map Offset Message
  pub dedup : Map DedupKey Offset
  pub dedup_order : List DedupKey
  pub groups : Map Name GroupStateV0
  pub rate_milli_per_sec : ℕ
  pub burst : ℕ
  pub retain_max_messages : ℕ
  pub retain_max_age_ms : ℕ

pub record QueueV0 : Type 0 where
  pub topics : Map Name TopicStateV0
  pub next_lease_id : LeaseId

unfoldable pub group_of_v0 : GroupStateV0 → GroupState
group_of_v0 g = record {
  ack_watermark = g.ack_watermark;
  acked_above = g.acked_above;
  in_flight = g.in_flight;
  leased_offsets = g.leased_offsets;
  poll_count = g.poll_count;
  last_active_ms = 0;
}

unfoldable pub groups_of_v0 : Map Name GroupStateV0 → Map Name GroupState
groups_of_v0 [] = []
groups_of_v0 ((name, g) ∷ gs) = (name, group_of_v0 g) ∷ groups_of_v0 gs

unfoldable pub topic_of_v0 : TopicStateV0 → TopicState
topic_of_v0 t = record {
  next_offset = t.next_offset;
  messages = t.messages;
  dedup = t.dedup;
  dedup_order = t.dedup_order;
  groups = groups_of_v0 t.groups;
  rate_milli_per_sec = t.rate_milli_per_sec;
  burst = t.burst;
  retain_max_messages = t.retain_max_messages;
  retain_max_age_ms = t.retain_max_age_ms;
}

unfoldable pub topics_of_v0 : Map Name TopicStateV0 → Map Name TopicState
topics_of_v0 [] = []
topics_of_v0 ((name, t) ∷ ts) = (name, topic_of_v0 t) ∷ topics_of_v0 ts

unfoldable pub queue_of_v0 : QueueV0 → Queue
queue_of_v0 q = record { topics = topics_of_v0 q.topics; next_lease_id = q.next_lease_id }
