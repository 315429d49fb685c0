-- ===== src/Queue/Invariant.antt =====
-- The invariant of the whole queue, and the frame of an update of one topic.
use hermesmq.Prelude.{ℕ, ◌≤◌, some, ◌≡◌, arith, Option-cases, inl, inr}
use hermesmq.Ord.{nat_ord, list_ord}
use hermesmq.Map.{get, insert, remove}
use hermesmq.Map.Sorted.{
  IsSorted, AllEntries, AllEntries-imp, AllEntries-insert, AllEntries-get, AllEntries-retain,
  insert-IsSorted, remove-IsSorted,
}
use hermesmq.Types.{LeaseId, Name}
use hermesmq.Topic.{TopicState}
use hermesmq.Topic.Invariant.{TopicInv, TopicInv-mono, new_topic-TopicInv}
use hermesmq.Queue.{Queue, empty, put_topic, topic_entry, update_topic}

-- No counter is above `c`; every topic and every group is well formed.
pub record QueueInv (c : ℕ) (q : Queue) : Type 0 where
  pub next_le : q.next_lease_id ≤ c
  pub sorted_topics : IsSorted q.topics
  pub topics_inv : AllEntries (λ _ t. TopicInv c q.next_lease_id t) q.topics

pub empty-QueueInv : (c : ℕ) → QueueInv c empty
unfolding empty
empty-QueueInv c = record { next_le = omega arith; sorted_topics = tt; topics_inv = tt }

pub QueueInv-mono : (c d : ℕ) (q : Queue) → c ≤ d → QueueInv c q → QueueInv d q
QueueInv-mono c d q h v = record {
  next_le = omega (arith, v.next_le);
  sorted_topics = v.sorted_topics;
  topics_inv =
      AllEntries-imp (λ _ t. TopicInv-mono c d q.next_lease_id q.next_lease_id t h (omega arith))
        q.topics v.topics_inv;
}

module _ (c : ℕ) (q : Queue) (v : QueueInv c q) where
  pub topic-TopicInv :
      (topic : Name) (t : TopicState) → get topic q.topics ≡ some t → TopicInv c q.next_lease_id t
  topic-TopicInv topic t e = AllEntries-get _ q.topics topic t v.topics_inv e

  pub topic_entry-TopicInv : (topic : Name) → TopicInv c q.next_lease_id (topic_entry topic q)
  unfolding topic_entry
  topic_entry-TopicInv topic = elim (Option-cases (get topic q.topics)) [
    | inl e ↦ rw (e, topic_entry) (new_topic-TopicInv c q.next_lease_id)
    | inr (t, e) ↦ rw (e, topic_entry) (topic-TopicInv topic t e)
  ]

  -- A topic is written, with counters that may have grown to `d` and `k`.
  pub put-QueueInv :
      (topic : Name) (t : TopicState) (d : ℕ) (k : LeaseId)
      → c ≤ d
      → q.next_lease_id ≤ k
      → k ≤ d
      → TopicInv d k t
      → QueueInv d (record { topics = insert topic t q.topics; next_lease_id = k })
  put-QueueInv topic t d k h p r w = record {
    next_le = r;
    sorted_topics = insert-IsSorted topic t q.topics v.sorted_topics;
    topics_inv =
        AllEntries-insert (λ _ t. TopicInv d k t) topic t q.topics w
          (AllEntries-imp (λ _ t. TopicInv-mono c d q.next_lease_id k t h p) q.topics v.topics_inv);
  }

  pub put_topic-QueueInv :
      (topic : Name) (t : TopicState)
      → TopicInv c q.next_lease_id t
      → QueueInv c (put_topic topic t q)
  put_topic-QueueInv topic t w =
      put-QueueInv topic t c q.next_lease_id (omega arith) (omega arith) v.next_le w

  pub update_topic-QueueInv :
      (topic : Name) (f : TopicState → TopicState)
      → ((t : TopicState) → TopicInv c q.next_lease_id t → TopicInv c q.next_lease_id (f t))
      → QueueInv c (update_topic topic f q)
  unfolding update_topic
  update_topic-QueueInv topic f h = elim (Option-cases (get topic q.topics)) [
    | inl e ↦ rw (e, update_topic) v
    | inr (t, e) ↦
        rw (e, update_topic) (put_topic-QueueInv topic (f t) (h t (topic-TopicInv topic t e)))
  ]

  pub delete-QueueInv :
      (topic : Name)
      → QueueInv c (record { topics = remove topic q.topics; next_lease_id = q.next_lease_id })
  delete-QueueInv topic = record {
    next_le = v.next_le;
    sorted_topics = remove-IsSorted topic q.topics v.sorted_topics;
    topics_inv = unfold remove in AllEntries-retain _ _ q.topics v.topics_inv;
  }
