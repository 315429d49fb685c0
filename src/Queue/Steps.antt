-- ===== src/Queue/Steps.antt =====
-- Every request keeps the invariant of the queue.
use hermesmq.Prelude.{
  ℕ, ◌+◌, ◌≤◌, List, [], ◌∷◌, Option, arith, length, Option-cases, inl, inr, u64_max,
}
use hermesmq.Ord.{nat_ord, list_ord}
use hermesmq.Map.{get}
use hermesmq.Types.{Offset, LeaseId, Name, ProduceItem}
use hermesmq.Group.{GroupState}
use hermesmq.Group.Invariant.{GroupInv}
use hermesmq.Group.Methods.{ack_lease-GroupInv}
use hermesmq.Group.Release.{release-GroupInv}
use hermesmq.Topic.{TopicState}
use hermesmq.Topic.Invariant.{TopicInv, TopicInv-mono, put_group-TopicInv, group-GroupInv}
use hermesmq.Topic.Steps.{reclaim-TopicInv, commit_topic-TopicInv}
use hermesmq.Produce.Steps.{produce_topic-TopicInv}
use hermesmq.Poll.{poll_topic}
use hermesmq.Poll.Steps.{poll_topic-TopicInv}
use hermesmq.Queue.{
  Queue, topic_entry, update_group, ack, nack, ack_all, nack_all, reclaim_topic, commit, poll,
  produce_one, produce_all, set_rate_limit, set_retention,
}
use hermesmq.Queue.Invariant.{
  QueueInv, QueueInv-mono, topic_entry-TopicInv, topic-TopicInv, put-QueueInv, put_topic-QueueInv,
  update_topic-QueueInv,
}

module _ (c : ℕ) (fits : c ≤ u64_max) where
  update_group-TopicInv :
      (k : ℕ) (group : Name) (f : GroupState → GroupState)
      → ((n : ℕ) (g : GroupState) → n ≤ c → GroupInv n k g → GroupInv n k (f g))
      → (t : TopicState) → TopicInv c k t
      → TopicInv c k (update_group group f t)
  unfolding update_group
  update_group-TopicInv k group f h t v = elim (Option-cases (get group t.groups)) [
    | inl e ↦ rw (e, update_group) v
    | inr (g, e) ↦
        rw (e, update_group)
          (put_group-TopicInv c k t v group (f g)
            (h t.next_offset g v.next_le (group-GroupInv c k t v group g e)))
  ]

  pub ack-QueueInv :
      (topic group : Name) (id : LeaseId) (q : Queue)
      → QueueInv c q
      → QueueInv c (ack topic group id q)
  unfolding ack
  ack-QueueInv topic group id q v = update_topic-QueueInv c q v topic _ (
      update_group-TopicInv q.next_lease_id group _
        (λ n g h. ack_lease-GroupInv n q.next_lease_id (omega arith) id g))

  pub nack-QueueInv :
      (topic group : Name) (id : LeaseId) (q : Queue)
      → QueueInv c q
      → QueueInv c (nack topic group id q)
  unfolding nack
  nack-QueueInv topic group id q v = update_topic-QueueInv c q v topic _ (
      update_group-TopicInv q.next_lease_id group _
        (λ n g h. release-GroupInv n q.next_lease_id id g))

  pub ack_all-QueueInv :
      (topic group : Name) (ids : List LeaseId) (q : Queue)
      → QueueInv c q
      → QueueInv c (ack_all topic group ids q)
  unfolding ack_all
  ack_all-QueueInv topic group [] q v = v
  ack_all-QueueInv topic group (id ∷ ids) q v =
      ack_all-QueueInv topic group ids _ (ack-QueueInv topic group id q v)

  pub nack_all-QueueInv :
      (topic group : Name) (ids : List LeaseId) (q : Queue)
      → QueueInv c q
      → QueueInv c (nack_all topic group ids q)
  unfolding nack_all
  nack_all-QueueInv topic group [] q v = v
  nack_all-QueueInv topic group (id ∷ ids) q v =
      nack_all-QueueInv topic group ids _ (nack-QueueInv topic group id q v)

  pub reclaim_topic-QueueInv :
      (topic : Name) (q : Queue) → QueueInv c q → QueueInv c (reclaim_topic topic q)
  unfolding reclaim_topic
  reclaim_topic-QueueInv topic q v =
      update_topic-QueueInv c q v topic _ (reclaim-TopicInv c q.next_lease_id)

  pub commit-QueueInv :
      (topic group : Name) (offset : Offset) (now : Option ℕ) (q : Queue)
      → QueueInv c q
      → QueueInv c (commit topic group offset now q)
  unfolding commit
  commit-QueueInv topic group offset now q v =
      update_topic-QueueInv c q v topic _
        (commit_topic-TopicInv c q.next_lease_id fits group offset now)

  retopic :
      (k : ℕ) (t : TopicState) (rate burst max_messages max_age : ℕ)
      → TopicInv c k t
      → TopicInv c k (record t {
        rate_milli_per_sec = rate;
        burst = burst;
        retain_max_messages = max_messages;
        retain_max_age_ms = max_age;
      })
  retopic k t rate burst max_messages max_age v = record {
    next_le = v.next_le;
    sorted_messages = v.sorted_messages;
    messages_range = v.messages_range;
    matches = v.matches;
    capacity = v.capacity;
    sorted_groups = v.sorted_groups;
    groups_inv = v.groups_inv;
  }

  pub set_rate_limit-QueueInv :
      (topic : Name) (rate burst : ℕ) (q : Queue)
      → QueueInv c q
      → QueueInv c (set_rate_limit topic rate burst q)
  unfolding set_rate_limit
  set_rate_limit-QueueInv topic rate burst q v = put_topic-QueueInv c q v topic _ (
      retopic q.next_lease_id (topic_entry topic q) rate burst _ _
        (topic_entry-TopicInv c q v topic))

  pub set_retention-QueueInv :
      (topic : Name) (max_messages max_age : ℕ) (q : Queue)
      → QueueInv c q
      → QueueInv c (set_retention topic max_messages max_age q)
  unfolding set_retention
  set_retention-QueueInv topic max_messages max_age q v = put_topic-QueueInv c q v topic _ (
      retopic q.next_lease_id (topic_entry topic q) _ _ max_messages max_age
        (topic_entry-TopicInv c q v topic))

pub produce_one-QueueInv :
    (c : ℕ) (item : ProduceItem) (q : Queue)
    → c + 1 ≤ u64_max
    → QueueInv c q
    → QueueInv (c + 1) (produce_one item q).0
unfolding produce_one
produce_one-QueueInv c item q h v =
    put-QueueInv c q v item.topic _ (c + 1) q.next_lease_id (omega arith) (omega arith)
      (omega (arith, v.next_le))
      (produce_topic-TopicInv c q.next_lease_id h item _ (topic_entry-TopicInv c q v item.topic))

pub produce_all-QueueInv :
    (c : ℕ) (items : List ProduceItem) (q : Queue)
    → c + length items ≤ u64_max
    → QueueInv c q
    → QueueInv (c + length items) (produce_all items q).0
unfolding produce_all
produce_all-QueueInv c [] q h v = QueueInv-mono c _ q (omega arith) v
produce_all-QueueInv c (item ∷ items) q h v = QueueInv-mono _ _ _ (omega arith) (
    produce_all-QueueInv (c + 1) items _ (omega arith)
      (produce_one-QueueInv c item q (omega arith) v))

pub poll-QueueInv :
    (c : ℕ) (topic group : Name) (max visibility ts_ms : ℕ) (q : Queue)
    → c + max ≤ u64_max
    → QueueInv c q
    → QueueInv (c + max) (poll topic group max visibility ts_ms q).0
unfolding poll
poll-QueueInv c topic group max visibility ts_ms q h v = elim (Option-cases (get topic q.topics)) [
  | inl e ↦ rw (e, poll) (QueueInv-mono c (c + max) q (omega arith) v)
  | inr (t, e) ↦
      let (w, low, high) =
        poll_topic-TopicInv c q.next_lease_id group max visibility ts_ms t
          (topic-TopicInv c q v topic t e) (omega (arith, v.next_le)) in
      let up = poll_topic group max visibility ts_ms t q.next_lease_id in
      rw (e, poll)
        (put-QueueInv c q v topic up.0 (c + max) up.1 (omega arith) low
          (omega (arith, high, v.next_le))
          (TopicInv-mono c (c + max) up.1 up.1 up.0 (omega arith) (omega arith) w))
]
