-- ===== src/Queue/Batch.antt =====
-- A batch of messages does what its messages do one by one.
use hermesmq.Prelude.{
  ℕ, ◌+◌, ◌≤◌, List, [], ◌∷◌, Bool, true, false, ◌||◌, none, ◌≡◌, refl, ap, ◌∙◌, arith,
  if◌then◌else◌, length, map, Bool-cases, Option-cases, inl, inr,
}
use hermesmq.Ord.{nat_ord, list_ord}
use hermesmq.Map.{Map, Set, get, has, insert, same}
use hermesmq.Map.Lookup.{get-insert, same_self, eq_of_same}
use hermesmq.Map.Sorted.{IsSorted, insert-IsSorted}
use hermesmq.Map.Size.{length-insert_old, length-insert_new, length-le-insert}
use hermesmq.Types.{Name, Offset, ProduceItem, AppRequest, AppResponse, produced, produced_many}
use hermesmq.Limits.{max_topics}
use hermesmq.Produce.{produce_topic}
use hermesmq.Topic.{TopicState}
use hermesmq.Queue.{
  Queue, topic_entry, put_topic, produce_one, produce_all, check_item, check_items, check_produce,
  apply,
}

-- The messages one by one, with the answers.
unfoldable pub produce_each : List ProduceItem → Queue → Queue × List AppResponse
produce_each [] q = (q, [])
produce_each (item ∷ items) q =
    let r = apply (AppRequest.produce item) q in
    let rest = produce_each items r.0 in (rest.0, r.1 ∷ rest.1)

-- What a check of items would be left with after one of a new topic: `f` are the new topics found in
-- `q`, and `f'` those found after the topic is there.
record IsShifted (topic : Name) (q q' : Queue) (f f' : Set Name) : Type 0 where
  topics_have : (k : Name) → has k q'.topics ≡ has k q.topics || same k topic
  set_has : has topic f ≡ true
  others : (k : Name) → same k topic ≡ false → has k f' ≡ has k f
  sorted : IsSorted f
  sorted' : IsSorted f'
  size : length q'.topics + length f' ≡ length q.topics + length f

abbrev one_unless : Bool → ℕ
one_unless true = 0
one_unless false = 1

length-insert-has :
    (k : Name) (f : Set Name)
    → IsSorted f
    → length (insert k tt f) ≡ length f + one_unless (has k f)
length-insert-has k f s = elim (Bool-cases (has k f)) [
  | inl e ↦ rw e (omega (arith, length-insert_old k tt f s e))
  | inr e ↦ rw e (length-insert_new k tt f (ground (arith, e)))
]

has-insert : (j k : Name) (f : Set Name) → has j (insert k tt f) ≡ same j k || has j f
has-insert j k f = ground (arith, get-insert j k tt f)

-- The topic itself is met again: only the first set is asked to take it, and has it.
IsShifted-same :
    (topic : Name) (q q' : Queue) (f f' : Set Name)
    → IsShifted topic q q' f f'
    → IsShifted topic q q' (insert topic tt f) f'
IsShifted-same topic q q' f f' v = record {
  topics_have = v.topics_have;
  set_has = ground (arith, has-insert topic topic f, same_self topic);
  others = λ k e. ground (arith, has-insert k topic f, v.others k e, e);
  sorted = insert-IsSorted topic tt f v.sorted;
  sorted' = v.sorted';
  size = omega (arith, v.size, length-insert_old topic tt f v.sorted v.set_has);
}

-- Another new topic is met: both sets take it.
IsShifted-other :
    (topic k : Name) (q q' : Queue) (f f' : Set Name)
    → same k topic ≡ false
    → IsShifted topic q q' f f'
    → IsShifted topic q q' (insert k tt f) (insert k tt f')
IsShifted-other topic k q q' f f' e v =
    let more : one_unless (has k f') ≡ one_unless (has k f) = ap one_unless (v.others k e) in
    record {
      topics_have = v.topics_have;
      set_has = ground (arith, has-insert topic k f, v.set_has);
      others = λ j h. ground (arith, has-insert j k f, has-insert j k f', v.others j h);
      sorted = insert-IsSorted k tt f v.sorted;
      sorted' = insert-IsSorted k tt f' v.sorted';
      size =
          omega
            (arith, v.size, more, length-insert-has k f v.sorted, length-insert-has k f' v.sorted');
    }

unfoldable add_fresh : Name → Queue → Set Name → Set Name
add_fresh k q f = if has k q.topics then f else insert k tt f

add_fresh-IsShifted :
    (topic k : Name) (q q' : Queue) (f f' : Set Name)
    → IsShifted topic q q' f f'
    → IsShifted topic q q' (add_fresh k q f) (add_fresh k q' f')
unfolding add_fresh
add_fresh-IsShifted topic k q q' f f' v = elim (Bool-cases (has k q.topics)) [
  | inl e ↦
      let there : has k q'.topics ≡ true = ground (arith, v.topics_have k, e) in
      rw (add_fresh, e, there) v
  | inr e ↦ elim (Bool-cases (same k topic)) [
    | inl h ↦
        let there : has k q'.topics ≡ true = ground (arith, v.topics_have k, h) in
        rw (add_fresh, e, there, eq_of_same k topic h) (IsShifted-same topic q q' f f' v)
    | inr h ↦
        let absent : has k q'.topics ≡ false = ground (arith, v.topics_have k, h, e) in
        rw (add_fresh, e, absent) (IsShifted-other topic k q q' f f' h v)
  ]
]

check_items_shift :
    (topic : Name) (items : List ProduceItem) (q q' : Queue) (f f' : Set Name)
    → IsShifted topic q q' f f'
    → check_items items f q ≡ none
    → check_items items f' q' ≡ none
unfolding check_items add_fresh
check_items_shift topic [] q q' f f' v h = rw v.size h
check_items_shift topic (item ∷ items) q q' f f' v h = elim (Option-cases (check_item item)) [
  | inl e ↦
      rw (e, check_items)
        (check_items_shift topic items q q' (add_fresh item.topic q f) (add_fresh item.topic q' f')
          (add_fresh-IsShifted topic item.topic q q' f f' v) (ground (arith, e, h)))
  | inr (reason, e) ↦ absurd (ground (arith, e, h))
]

-- A check asks of a queue only which topics it has and how many.
check_items_same :
    (items : List ProduceItem) (q q' : Queue) (f : Set Name)
    → ((k : Name) → has k q'.topics ≡ has k q.topics)
    → length q'.topics ≡ length q.topics
    → check_items items f q' ≡ check_items items f q
unfolding check_items add_fresh
check_items_same [] q q' f h e = rw e refl
check_items_same (item ∷ items) q q' f h e = elim (Option-cases (check_item item)) [
  | inl k ↦
      rw (k, check_items, h item.topic) (check_items_same items q q' (add_fresh item.topic q f) h e)
  | inr (reason, k) ↦ rw (k, check_items) refl
]

-- A batch that passes leaves room for the topics that it was asked about first.
length-check_items :
    (items : List ProduceItem) (q : Queue) (f : Set Name)
    → check_items items f q ≡ none
    → length q.topics + length f ≤ max_topics
unfolding check_items add_fresh
length-check_items [] q f h = ground (arith, h)
length-check_items (item ∷ items) q f h =
    let rest : check_items items (add_fresh item.topic q f) q ≡ none = ground (arith, h) in
    let room = length-check_items items q (add_fresh item.topic q f) rest in
    ground (arith, room, length-le-insert item.topic tt f)

-- What a batch that passes leaves for the messages after its first.
first_passes :
    (item : ProduceItem) (items : List ProduceItem) (q : Queue)
    → check_produce (item ∷ items) q ≡ none
    → check_produce (item ∷ []) q ≡ none
unfolding check_produce check_items add_fresh
first_passes item items q h =
    let rest : check_items items (add_fresh item.topic q []) q ≡ none = ground (arith, h) in
    let room = length-check_items items q (add_fresh item.topic q []) rest in
    ground (arith, h, room)

rest_passes :
    (item : ProduceItem) (items : List ProduceItem) (q : Queue)
    → IsSorted q.topics
    → check_produce (item ∷ items) q ≡ none
    → check_produce items (produce_one item q).0 ≡ none
unfolding check_produce check_items produce_one
rest_passes item items q s h =
    let t = (produce_topic item (topic_entry item.topic q)).0 in
    let q' = put_topic item.topic t q in
    let found = λ (k : Name). get-insert k item.topic t q.topics in
    elim (Bool-cases (has item.topic q.topics)) [
      | inl e ↦
          let rest : check_items items [] q ≡ none = ground (arith, h, e) in
          let have = λ (k : Name). kept k t item.topic q.topics e in
          check_items_same items q q' [] have (length-insert_old item.topic t q.topics s e) ∙ rest
      | inr e ↦
          let rest : check_items items (insert item.topic tt []) q ≡ none = ground (arith, h, e) in
          let absent : get item.topic q.topics ≡ none = ground (arith, e) in
          let only : Set Name = insert item.topic tt [] in
          let single : length only ≡ 1 = unfold insert in refl in
          check_items_shift item.topic items q q' (insert item.topic tt []) []
            (record {
              topics_have = λ k. added k t item.topic q.topics;
              set_has = ground (arith, has-insert item.topic item.topic [], same_self item.topic);
              others = λ k e. ground (arith, has-insert k item.topic [], e);
              sorted = insert-IsSorted item.topic tt [] tt;
              sorted' = tt;
              size = omega (arith, length-insert_new item.topic t q.topics absent, single);
            })
            rest
    ]
  where
    added :
        (k : Name) (t : TopicState) (topic : Name) (topics : Map Name TopicState)
        → has k (insert topic t topics) ≡ has k topics || same k topic
    added k t topic topics = ground (arith, get-insert k topic t topics)

    kept :
        (k : Name) (t : TopicState) (topic : Name) (topics : Map Name TopicState)
        → has topic topics ≡ true
        → has k (insert topic t topics) ≡ has k topics
    kept k t topic topics e = ground (arith, get-insert k topic t topics, eq_of_same k topic, e)

produce_each_lem :
    (items : List ProduceItem) (q : Queue)
    → IsSorted q.topics
    → check_produce items q ≡ none
    → produce_each items q
      ≡ ((produce_all items q).0, map (λ o. produced o) (produce_all items q).1)
unfolding produce_each produce_all apply
produce_each_lem [] q s h = refl
produce_each_lem (item ∷ items) q s h =
    let first = first_passes item items q h in
    let sorted : IsSorted (produce_one item q).0.topics =
      unfold produce_one in insert-IsSorted item.topic _ q.topics s in
    let rest =
      produce_each_lem items (produce_one item q).0 sorted (rest_passes item items q s h) in
    rw (first, rest) refl

-- A batch that passes its check leaves the queue as its messages do that are produced one by one, none
-- of which is refused, and gives them the same offsets.
pub produce_each-apply :
    (items : List ProduceItem) (q : Queue)
    → IsSorted q.topics
    → check_produce items q ≡ none
    → (offsets : List Offset) × ((apply (AppRequest.produce_many items) q).1
        ≡ produced_many offsets)
      × (produce_each items q
          ≡ ((apply (AppRequest.produce_many items) q).0, map (λ o. produced o) offsets))
unfolding apply
produce_each-apply items q s h =
    ((produce_all items q).1, rw h refl, rw h (produce_each_lem items q s h))
