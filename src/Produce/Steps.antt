-- ===== src/Produce/Steps.antt =====
-- A produce keeps the topic's invariant.
use hermesmq.Prelude.{
  ℕ, ◌+◌, ◌≤◌, true, none, ◌≡◌, refl, arith, u64_max, Bool-cases, Option-cases, inl, inr, is_empty,
  saturating_add, ◌⊎◌,
}
use hermesmq.Ord.{nat_ord, list_ord, pair_ord}
use hermesmq.Map.{get}
use hermesmq.Map.Sorted.{insert-IsSorted, AllEntries-insert, AllEntries-imp}
use hermesmq.Types.{Offset, ProduceItem}
use hermesmq.Group.Leasing.{GroupInv-mono}
use hermesmq.Topic.{TopicState}
use hermesmq.Topic.Dedup.{push-Matches, evict_dedup-Matches}
use hermesmq.Topic.Invariant.{TopicInv, InRange, dedup-TopicInv, TopicInv-mono}
use hermesmq.Topic.Steps.{purge_retained-TopicInv}
use hermesmq.Produce.{message_of, key_of, duplicate_of, append_message, record_dedup, produce_topic}

module _ (c k : ℕ) (fits : c + 1 ≤ u64_max) where
  pub append_message-TopicInv :
      (item : ProduceItem) (t : TopicState)
      → TopicInv c k t
      → TopicInv (c + 1) k (append_message item t)
  unfolding append_message message_of
  append_message-TopicInv item t v =
      let up : saturating_add t.next_offset 1 ≡ t.next_offset + 1 = omega (arith, v.next_le) in
      rw up (record {
        next_le = omega (arith, v.next_le);
        sorted_messages = insert-IsSorted t.next_offset _ t.messages v.sorted_messages;
        messages_range =
            AllEntries-insert (InRange (t.next_offset + 1)) t.next_offset _ t.messages
              (refl, omega arith)
              (AllEntries-imp (λ o m r. (r.0, omega arith)) t.messages v.messages_range);
        matches = v.matches;
        capacity = v.capacity;
        sorted_groups = v.sorted_groups;
        groups_inv =
            AllEntries-imp
              (λ _ g.
                GroupInv-mono t.next_offset (t.next_offset + 1) k k g (omega arith) (omega arith))
              t.groups v.groups_inv;
      })

  record_dedup-TopicInv :
      (d : ℕ) (item : ProduceItem) (offset : Offset) (t : TopicState)
      → (get (key_of item) t.dedup ≡ none) ⊎ (is_empty item.producer_id ≡ true)
      → TopicInv d k t
      → TopicInv d k (record_dedup item offset t)
  unfolding record_dedup
  record_dedup-TopicInv d item offset t new v = elim (Bool-cases (is_empty item.producer_id)) [
    | inl h ↦ rw (h, record_dedup) v
    | inr h ↦
        let absent : get (key_of item) t.dedup ≡ none = ground arith in
        let (m, b) =
          evict_dedup-Matches _ _
            (push-Matches (key_of item) offset t.dedup_order t.dedup absent v.matches) in
        rw (h, record_dedup) (dedup-TopicInv d k t v _ _ m b)
  ]

  -- What the absence of a duplicate says.
  no_duplicate :
      (item : ProduceItem) (t : TopicState)
      → duplicate_of item t ≡ none
      → (get (key_of item) t.dedup ≡ none) ⊎ (is_empty item.producer_id ≡ true)
  unfolding duplicate_of
  no_duplicate item t h = elim (Bool-cases (is_empty item.producer_id)) [
    | inl e ↦ inr e
    | inr e ↦ inl (ground arith)
  ]

  pub produce_topic-TopicInv :
      (item : ProduceItem) (t : TopicState)
      → TopicInv c k t
      → TopicInv (c + 1) k (produce_topic item t).0
  unfolding produce_topic append_message
  produce_topic-TopicInv item t v = elim (Option-cases (duplicate_of item t)) [
    | inl e ↦
        rw (e, produce_topic)
          (purge_retained-TopicInv (c + 1) k fits item.ts_ms _ (
            record_dedup-TopicInv (c + 1) item t.next_offset (append_message item t)
              (no_duplicate item t e) (append_message-TopicInv item t v)))
    | inr (o, e) ↦
        rw (e, produce_topic)
          (purge_retained-TopicInv (c + 1) k fits item.ts_ms t
            (TopicInv-mono c (c + 1) k k t (omega arith) (omega arith) v))
  ]
