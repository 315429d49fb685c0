-- ===== src/Queue.antt =====
-- crates/hermesmq-core/src/queue.rs: `Queue`, `apply` and the queries.
pub mod Invariant
pub mod Steps
pub mod Apply
pub mod Refusal
pub mod Report
pub mod Compat
pub mod Batch
use hermesmq.Prelude.{
  ℕ, zero, suc, ◌+◌, List, [], ◌∷◌, ◌++◌, Bool, true, false, not, ◌&&◌, ◌||◌, Option, none, some,
  if◌then◌else◌, ltb, leb, length, is_empty, is_some, any,
}
use hermesmq.Ord.{nat_ord, list_ord}
use hermesmq.Map.{Map, Set, get, has, insert, remove, range_from, map_values}
use hermesmq.Types.{
  Offset, LeaseId, Name, Message, ProduceItem, Delivered, AppRequest, AppResponse, Reason,
  topic_name_too_long, producer_id_too_long, topic_limit_reached, produced, polled, acked, nacked,
  committed, topic_created, topic_deleted, rate_limit_set, retention_set, produced_many, rejected,
}
use hermesmq.Limits.{check_name, check_consumer, max_topics, max_producer_id_bytes}
use hermesmq.Group.{GroupState, Lease, ack_lease, release}
use hermesmq.Topic.{TopicState, new_topic, put_group, reclaim, commit_topic}
use hermesmq.Produce.{produce_topic}
use hermesmq.Poll.{poll_topic}

pub record Queue : Type 0 where
  pub topics : Map Name TopicState
  pub next_lease_id : LeaseId

-- `Queue::default()`
unfoldable pub empty : Queue
empty = record { topics = []; next_lease_id = 0 }

abbrev pub put_topic : Name → TopicState → Queue → Queue
put_topic topic t q = record q { topics = insert topic t q.topics }

-- `self.topics.entry(topic).or_default()`
unfoldable pub topic_entry : Name → Queue → TopicState
topic_entry topic q = elim (get topic q.topics) [ some t ↦ t | none ↦ new_topic ]

-- `if let Some(t) = topics.get_mut(topic) { *t = f(*t) }`
unfoldable pub update_topic : Name → (TopicState → TopicState) → Queue → Queue
update_topic topic f q = elim (get topic q.topics) [ none ↦ q | some t ↦ put_topic topic (f t) q ]

-- `if let Some(g) = t.groups.get_mut(group) { *g = f(*g) }`
unfoldable pub update_group : Name → (GroupState → GroupState) → TopicState → TopicState
update_group group f t = elim (get group t.groups) [ none ↦ t | some g ↦ put_group group (f g) t ]

unfoldable pub ack : Name → Name → LeaseId → Queue → Queue
ack topic group id = update_topic topic (update_group group (ack_lease id))

unfoldable pub nack : Name → Name → LeaseId → Queue → Queue
nack topic group id = update_topic topic (update_group group (release id))

unfoldable pub ack_all : Name → Name → List LeaseId → Queue → Queue
ack_all topic group [] q = q
ack_all topic group (id ∷ ids) q = ack_all topic group ids (ack topic group id q)

unfoldable pub nack_all : Name → Name → List LeaseId → Queue → Queue
nack_all topic group [] q = q
nack_all topic group (id ∷ ids) q = nack_all topic group ids (nack topic group id q)

unfoldable pub reclaim_topic : Name → Queue → Queue
reclaim_topic topic = update_topic topic reclaim

unfoldable pub commit : Name → Name → Offset → Option ℕ → Queue → Queue
commit topic group offset now_ms = update_topic topic (commit_topic group offset now_ms)

unfoldable pub poll : Name → Name → ℕ → ℕ → ℕ → Queue → Queue × List Delivered
poll topic group max visibility ts_ms q = elim (get topic q.topics) [
  | none ↦ (q, [])
  | some t ↦
      let (t', next, items) = poll_topic group max visibility ts_ms t q.next_lease_id in
      (record q { topics = insert topic t' q.topics; next_lease_id = next }, items)
]

unfoldable pub produce_one : ProduceItem → Queue → Queue × Offset
produce_one item q =
    let (t, offset) = produce_topic item (topic_entry item.topic q) in
    (put_topic item.topic t q, offset)

unfoldable pub produce_all : List ProduceItem → Queue → Queue × List Offset
produce_all [] q = (q, [])
produce_all (item ∷ items) q =
    let (q1, offset) = produce_one item q in
    let (q2, offsets) = produce_all items q1 in (q2, offset ∷ offsets)

-- The checks return `none` for `Ok(())`.
unfoldable pub check_topic : Name → Queue → Option Reason
check_topic topic q = elim (check_name topic_name_too_long topic) [
  | some reason ↦ some reason
  | none ↦
      if not (has topic q.topics) && leb max_topics (length q.topics)
      then some topic_limit_reached
      else none
]

-- the checks of one item of a batch
unfoldable pub check_item : ProduceItem → Option Reason
check_item item = elim (check_name topic_name_too_long item.topic) [
  | some reason ↦ some reason
  | none ↦
      if ltb max_producer_id_bytes (length item.producer_id)
      then some (producer_id_too_long (length item.producer_id))
      else none
]

-- The loop of `check_produce`, with the set `fresh` of topics that the batch would create.
unfoldable pub check_items : List ProduceItem → Set Name → Queue → Option Reason
check_items [] fresh q =
    if ltb max_topics (length q.topics + length fresh) then some topic_limit_reached else none
check_items (item ∷ items) fresh q =
    let rest =
      check_items items (if has item.topic q.topics then fresh else insert item.topic tt fresh) q in
    elim (check_item item) [ some reason ↦ some reason | none ↦ rest ]

unfoldable pub check_produce : List ProduceItem → Queue → Option Reason
check_produce items = check_items items []

-- A request that passes its check runs; any other is answered with the reason.
abbrev pub guarded : Option Reason → Queue → Queue × AppResponse → Queue × AppResponse
guarded (some reason) q run = (q, rejected reason)
guarded none q run = run

unfoldable pub lease_ids : List Delivered → List LeaseId
lease_ids [] = []
lease_ids (d ∷ ds) = d.lease_id ∷ lease_ids ds

unfoldable pub poll_auto : Name → Name → ℕ → ℕ → ℕ → Queue → Queue × List Delivered
poll_auto topic group max visibility ts_ms q =
    let (q', items) = poll topic group max visibility ts_ms q in
    (reclaim_topic topic (ack_all topic group (lease_ids items) q'), items)

unfoldable pub set_rate_limit : Name → ℕ → ℕ → Queue → Queue
set_rate_limit topic rate burst q =
    put_topic topic (record (topic_entry topic q) { rate_milli_per_sec = rate; burst = burst }) q

unfoldable pub set_retention : Name → ℕ → ℕ → Queue → Queue
set_retention topic max_messages max_age_ms q =
    put_topic topic
      (record (topic_entry topic q) {
        retain_max_messages = max_messages;
        retain_max_age_ms = max_age_ms;
      })
      q

unfoldable pub apply : AppRequest → Queue → Queue × AppResponse
apply (AppRequest.create_topic topic) q =
    guarded (check_topic topic q) q (put_topic topic (topic_entry topic q) q, topic_created)
apply (AppRequest.delete_topic topic) q =
    (record q { topics = remove topic q.topics }, topic_deleted)
apply (AppRequest.produce item) q =
    let r = produce_one item q in guarded (check_produce (item ∷ []) q) q (r.0, produced r.1)
apply (AppRequest.produce_many items) q =
    let r = produce_all items q in guarded (check_produce items q) q (r.0, produced_many r.1)
apply (AppRequest.poll topic group max visibility ts_ms) q =
    let r = poll topic group max visibility ts_ms q in
    guarded (check_consumer topic group) q (r.0, polled r.1)
apply (AppRequest.poll_auto topic group max visibility ts_ms) q =
    let r = poll_auto topic group max visibility ts_ms q in
    guarded (check_consumer topic group) q (r.0, polled r.1)
apply (AppRequest.ack topic group id) q = (reclaim_topic topic (ack topic group id q), acked)
apply (AppRequest.ack_many topic group ids) q =
    (reclaim_topic topic (ack_all topic group ids q), acked)
apply (AppRequest.nack_many topic group ids) q = (nack_all topic group ids q, nacked)
apply (AppRequest.nack topic group id) q = (nack topic group id q, nacked)
apply (AppRequest.commit_offset topic group offset) q =
    guarded (check_consumer topic group) q
      (reclaim_topic topic (commit topic group offset none q), committed)
apply (AppRequest.commit_offset_at topic group offset ts_ms) q =
    guarded (check_consumer topic group) q
      (reclaim_topic topic (commit topic group offset (some ts_ms) q), committed)
apply (AppRequest.set_rate_limit topic rate burst) q =
    guarded (check_topic topic q) q (set_rate_limit topic rate burst q, rate_limit_set)
apply (AppRequest.set_retention topic max_messages max_age_ms) q =
    guarded (check_topic topic q) q (set_retention topic max_messages max_age_ms q, retention_set)

unfoldable pub topic_admits : Name → Queue → Bool
topic_admits topic q = has topic q.topics || ltb (length q.topics) max_topics

unfoldable pub rate_config : Name → Queue → Option (ℕ × ℕ)
rate_config topic q = elim (get topic q.topics) [
  | none ↦ none
  | some t ↦ if ltb 0 t.rate_milli_per_sec then some (t.rate_milli_per_sec, t.burst) else none
]

-- `!acked_above.contains(offset) && leased_offsets.get(offset).is_none_or(|d| *d <= now_ms)`
unfoldable pub is_deliverable : GroupState → ℕ → Offset → Bool
is_deliverable g now_ms offset =
    not (has offset g.acked_above)
    && (elim (get offset g.leased_offsets) [ none ↦ true | some deadline ↦ leb deadline now_ms ])

unfoldable pub has_deliverable : Name → Name → ℕ → Queue → Bool
has_deliverable topic group now_ms q = elim (get topic q.topics) [
  | none ↦ false
  | some t ↦ elim (get group t.groups) [
    | none ↦ not (is_empty t.messages)
    | some g ↦ any (λ e. is_deliverable g now_ms e.0) (range_from g.ack_watermark t.messages)
  ]
]
