-- ===== src/Produce/Resend.antt =====
-- A producer that sends an item again gets the offset that it got, and stores nothing new.
use hermesmq.Prelude.{
  ℕ, ◌+◌, ◌≤◌, ◌<◌, List, [], ◌∷◌, true, false, none, some, ◌≡◌, refl, arith, u64_max, is_empty,
  length, subst, sym,
}
use hermesmq.Ord.{nat_ord, list_ord, pair_ord}
use hermesmq.Map.{get, has, insert}
use hermesmq.Map.Lookup.{get-insert, same_self}
use hermesmq.Map.Sorted.{IsSorted}
use hermesmq.Types.{Offset, ProduceItem}
use hermesmq.Topic.{TopicState, DedupKey, purge_retained, reclaim}
use hermesmq.Topic.Dedup.{unlisted}
use hermesmq.Topic.Invariant.{TopicInv}
use hermesmq.Topic.Steps.{reclaim-TopicInv}
use hermesmq.Produce.{key_of, duplicate_of, append_message, record_dedup, produce_topic}
use hermesmq.Produce.Steps.{produce_topic-TopicInv}
use hermesmq.Produce.Retry.{Remembered, evict_dedup-Remembered, produce_topic_again}
use hermesmq.Produce.Remember.{
  IsRemembered, record_dedup_rest, purge_retained-IsRemembered, produce_topic-IsRemembered,
  reclaim-IsRemembered,
}

-- What happens to a topic between the two: another produce, or the reclaiming of consumed messages.
pub data TopicStep : Type 0 where
  producing : ProduceItem → TopicStep
  reclaiming : TopicStep

unfoldable pub topic_step : TopicStep → TopicState → TopicState
topic_step (producing item) t = (produce_topic item t).0
topic_step reclaiming t = reclaim t

unfoldable pub topic_steps : List TopicStep → TopicState → TopicState
topic_steps [] t = t
topic_steps (step ∷ steps) t = topic_steps steps (topic_step step t)

-- A produce that stores its message is remembered, with no key behind its own.
first_produce :
    (c k : ℕ) (item : ProduceItem) (t : TopicState)
    → c + 1 ≤ u64_max
    → TopicInv c k t
    → is_empty item.producer_id ≡ false
    → duplicate_of item t ≡ none
    → ((produce_topic item t).1 ≡ t.next_offset)
      × (IsSorted (produce_topic item t).0.messages
          → IsRemembered (key_of item) t.next_offset 0 (produce_topic item t).0)
unfolding produce_topic append_message
first_produce c k item t fits v p new =
    rw (new, produce_topic)
      (refl, purge_retained-IsRemembered (key_of item) t.next_offset 0 item.ts_ms _ recorded)
  where
    absent : get (key_of item) t.dedup ≡ none
    absent = unfold duplicate_of in ground (arith, new, p)

    key_recorded :
        let r = record_dedup item t.next_offset (append_message item t) in
        Remembered (key_of item) t.next_offset 0 r.dedup_order r.dedup
    key_recorded =
        unfold record_dedup in
        rw (p, record_dedup)
          (evict_dedup-Remembered (key_of item) t.next_offset 0 [] (omega arith) t.dedup_order
            (insert (key_of item) t.next_offset t.dedup) (omega arith)
            (unlisted (key_of item) t.dedup_order t.dedup absent v.matches.listed)
            (ground (
              arith,
              get-insert (key_of item) (key_of item) t.next_offset t.dedup,
              same_self (key_of item),
            )))

    recorded :
        IsRemembered
          (key_of item)
          t.next_offset
          0
          (record_dedup item t.next_offset (append_message item t))
    recorded =
        let (ms, next) = record_dedup_rest item t.next_offset (append_message item t) in
        record { given = rw next (omega (arith, v.next_le)); named = λ h. key_recorded }

remembered_steps :
    (steps : List TopicStep) (c k n : ℕ) (key : DedupKey) (o : Offset) (t : TopicState)
    → c + length steps ≤ u64_max
    → n + length steps < 100000
    → TopicInv c k t
    → IsRemembered key o n t
    → has o (topic_steps steps t).messages ≡ true
    → get key (topic_steps steps t).dedup ≡ some o
unfolding topic_steps topic_step
remembered_steps [] c k n key o t fits h v r there = (r.named there).named
remembered_steps (producing item ∷ steps) c k n key o t fits h v r there =
    let fit : c + 1 ≤ u64_max = omega (arith, fits) in
    let after = produce_topic-TopicInv c k fit item t v in
    let next =
      produce_topic-IsRemembered key o c k n item t fit (omega (arith, h)) v r
        after.sorted_messages in
    remembered_steps steps (c + 1) k (n + 1) key o (produce_topic item t).0 (omega (arith, fits))
      (omega (arith, h)) after next there
remembered_steps (reclaiming ∷ steps) c k n key o t fits h v r there =
    remembered_steps steps c k n key o (reclaim t) (omega (arith, fits)) (omega (arith, h))
      (reclaim-TopicInv c k t v) (reclaim-IsRemembered key o n t v.sorted_messages r) there

-- A produce whose producer has a name and that stored its message, sent again after any produces to the
-- topic and reclaims of it, fewer than 100,000 in all, answers with the offset that it got, and does no
-- more than to apply retention, if its message is then still there. The topic is well formed, and its
-- counters do not reach 2^64.
pub produce_topic-topic_steps :
    (c k : ℕ) (item : ProduceItem) (steps : List TopicStep) (t : TopicState)
    → c + 1 + length steps ≤ u64_max
    → length steps < 100000
    → TopicInv c k t
    → is_empty item.producer_id ≡ false
    → duplicate_of item t ≡ none
    → let first = produce_topic item t in
      let later = topic_steps steps first.0 in
      has first.1 later.messages ≡ true
      → produce_topic item later ≡ (purge_retained item.ts_ms later, first.1)
produce_topic-topic_steps c k item steps t fits few v p new there =
    let first = produce_topic item t in
    let fit : c + 1 ≤ u64_max = omega (arith, fits) in
    let after = produce_topic-TopicInv c k fit item t v in
    let (offset, kept) = first_produce c k item t fit v p new in
    let still = subst (λ o. has o (topic_steps steps first.0).messages ≡ true) offset there in
    let named =
      remembered_steps steps (c + 1) k 0 (key_of item) t.next_offset first.0 fits
        (omega (arith, few)) after (kept after.sorted_messages) still in
    subst
      (λ o.
        produce_topic item (topic_steps steps first.0)
        ≡ (purge_retained item.ts_ms (topic_steps steps first.0), o))
      (sym offset) (produce_topic_again item t.next_offset (topic_steps steps first.0) p named)
