-- ===== src/Queue/Report.antt =====
-- crates/hermesmq-core/src/queue.rs: what the queue reports about itself: `metrics`,
-- `debug_topic_len`, `debug_footprint` and `debug_check_invariants`.
use hermesmq.Prelude.{ℕ, ◌+◌, List, [], ◌∷◌, Option, none, some, length}
use hermesmq.Ord.{nat_ord, list_ord}
use hermesmq.Map.{Map, get}
use hermesmq.Types.{Offset, Name, Message}
use hermesmq.Group.{GroupState}
use hermesmq.Topic.{TopicState, DedupKey}
use hermesmq.Queue.{Queue}
use hermesmq.Validate.{Damage, validate}

pub record QueueMetrics : Type 0 where
  pub topics : ℕ
  pub messages : ℕ
  pub in_flight : ℕ

unfoldable pub add_group_metrics : Map Name GroupState → QueueMetrics → QueueMetrics
add_group_metrics [] r = r
add_group_metrics ((name, g) ∷ gs) r =
    add_group_metrics gs (record r { in_flight = r.in_flight + length g.in_flight })

unfoldable pub add_topic_metrics : Map Name TopicState → QueueMetrics → QueueMetrics
add_topic_metrics [] r = r
add_topic_metrics ((name, t) ∷ ts) r =
    add_topic_metrics ts
      (add_group_metrics t.groups (record r { messages = r.messages + length t.messages }))

unfoldable pub metrics : Queue → QueueMetrics
metrics q =
    add_topic_metrics q.topics (record { topics = length q.topics; messages = 0; in_flight = 0 })

unfoldable pub debug_check_invariants : Queue → Option Damage
debug_check_invariants q = validate q

unfoldable pub debug_topic_len : Name → Queue → Option ℕ
debug_topic_len topic q = elim (get topic q.topics) [
  | none ↦ none
  | some t ↦ some (length t.messages)
]

pub record QueueFootprint : Type 0 where
  pub topics : ℕ
  pub groups : ℕ
  pub messages : ℕ
  pub payload_bytes : ℕ
  pub dedup_entries : ℕ
  pub dedup_bytes : ℕ
  pub name_bytes : ℕ

unfoldable pub payload_sum : Map Offset Message → ℕ
payload_sum [] = 0
payload_sum ((o, m) ∷ ms) = length m.payload + payload_sum ms

unfoldable pub name_sum : Map Name GroupState → ℕ
name_sum [] = 0
name_sum ((name, g) ∷ gs) = length name + name_sum gs

unfoldable pub producer_sum : List DedupKey → ℕ
producer_sum [] = 0
producer_sum (key ∷ order) = length key.0 + producer_sum order

unfoldable pub dedup_sum : Map DedupKey Offset → ℕ
dedup_sum [] = 0
dedup_sum ((key, o) ∷ dedup) = length key.0 + dedup_sum dedup

unfoldable pub add_footprint : Map Name TopicState → QueueFootprint → QueueFootprint
add_footprint [] f = f
add_footprint ((name, t) ∷ ts) f = add_footprint ts (record {
  topics = f.topics;
  groups = f.groups + length t.groups;
  messages = f.messages + length t.messages;
  payload_bytes = f.payload_bytes + payload_sum t.messages;
  dedup_entries = f.dedup_entries + length t.dedup;
  dedup_bytes = f.dedup_bytes + dedup_sum t.dedup + producer_sum t.dedup_order;
  name_bytes = f.name_bytes + length name + name_sum t.groups;
})

unfoldable pub debug_footprint : Queue → QueueFootprint
debug_footprint q = add_footprint q.topics (record {
  topics = length q.topics;
  groups = 0;
  messages = 0;
  payload_bytes = 0;
  dedup_entries = 0;
  dedup_bytes = 0;
  name_bytes = 0;
})
