-- ===== src/Validate/Accepts.antt =====
-- A well-formed queue passes `validate`, and `normalize` leaves it alone: a replica can always load
-- the snapshot of its own state.
use hermesmq.Prelude.{
  ℕ, ◌+◌, ◌≤◌, ◌<◌, List, [], ◌∷◌, Bool, true, false, Option, none, some, ◌≡◌, refl, arith, ltb,
  ◌==◌, length, All, ◌∙◌,
}
use hermesmq.Ord.{nat_ord, list_ord, pair_ord}
use hermesmq.Map.{Map, Set, get, has, insert, first_key, last_key, same}
use hermesmq.Map.Lookup.{get-insert, same_comm}
use hermesmq.Map.Sorted.{AllEntries, AllEntries-imp, AllEntries-get, AllEntries-of_get}
use hermesmq.Map.Size.{length-insert_new}
use hermesmq.Map.Extensional.{map_values-id, last_key-AllEntries, first_key-AllEntries}
use hermesmq.Types.{Offset, LeaseId, Name, Message}
use hermesmq.Limits.{max_counter, dedup_capacity}
use hermesmq.Group.{Lease, GroupState}
use hermesmq.Group.Invariant.{GroupInv, HasLeases}
use hermesmq.Topic.{TopicState, DedupKey}
use hermesmq.Topic.Dedup.{Distinct}
use hermesmq.Topic.Invariant.{TopicInv, InRange}
use hermesmq.Queue.{Queue}
use hermesmq.Queue.Invariant.{QueueInv}
use hermesmq.Validate.{
  Damage, at_entry, check_messages, collect_keys, check_order, check_leases, collect_leases,
  validate_group, validate_groups, validate_topic, validate_topics, validate, lower_watermark,
  normalize_topic, normalize,
}
use hermesmq.Validate.Leases.{by_lease_lem}

check_messages-none :
    (name : Name) (n : ℕ) (ms : Map Offset Message)
    → AllEntries (InRange n) ms
    → check_messages name ms ≡ none
unfolding check_messages
check_messages-none name n [] a = refl
check_messages-none name n ((o, m) ∷ ms) a = ground (arith, check_messages-none name n ms a.1, a.0)

check_order-none :
    (name : Name) (order : List DedupKey) (dedup : Map DedupKey Offset)
    → All (λ key. has key dedup ≡ true) order
    → check_order name order dedup ≡ none
unfolding check_order
check_order-none name [] dedup a = refl
check_order-none name (key ∷ order) dedup a =
    ground (arith, check_order-none name order dedup a.1, a.0)

check_leases-none :
    (name group : Name) (k n w : ℕ) (ls : Map LeaseId Lease)
    → AllEntries (λ id l. (id < k) × (w ≤ l.offset) × (l.offset < n)) ls
    → check_leases name group k n ls ≡ none
unfolding check_leases
check_leases-none name group k n w [] a = refl
check_leases-none name group k n w ((id, l) ∷ ls) a =
    ground (arith, check_leases-none name group k n w ls a.1, a.0)

-- A check on the least or the greatest key passes where all keys do.
at_entry-none :
    (o : Option ℕ) (bad : ℕ → Bool) (damage : ℕ → Damage) (rest : Option Damage)
    → ((k : ℕ) → o ≡ some k → bad k ≡ false)
    → at_entry o bad damage rest ≡ rest
at_entry-none none bad damage rest f = refl
at_entry-none (some k) bad damage rest f = rw (f k refl) refl

not_in_set :
    (key : DedupKey) (keys : List DedupKey) (set : Set DedupKey)
    → All (λ j. same key j ≡ false) keys
    → All (λ j. get j set ≡ none) keys
    → All (λ j. get j (insert key tt set) ≡ none) keys
not_in_set key [] set a b = tt
not_in_set key (j ∷ keys) set a b =
    (ground (arith, same_comm key j, get-insert j key tt set), not_in_set key keys set a.1 b.1)

length-collect_keys :
    (keys : List DedupKey) (set : Set DedupKey)
    → Distinct keys
    → All (λ j. get j set ≡ none) keys
    → length (collect_keys keys set) ≡ length set + length keys
unfolding collect_keys
length-collect_keys [] set d a = omega arith
length-collect_keys (key ∷ keys) set d a = omega (
  arith,
  length-collect_keys keys (insert key tt set) d.1 (not_in_set key keys set d.0 a.1),
  length-insert_new key tt set a.0,
)

none_in_empty : (keys : List DedupKey) → All (λ j. get {V = Unit {0}} j [] ≡ none) keys
unfolding get
none_in_empty [] = tt
none_in_empty (key ∷ keys) = (refl, none_in_empty keys)

-- The leased offsets are those of the leases, so none lies below the watermark.
leased-above :
    (n k w : ℕ) (g : GroupState) → HasLeases n k w g → AllEntries (λ o _. w ≤ o) g.leased_offsets
leased-above n k w g v = AllEntries-of_get _ g.leased_offsets v.sorted_leased (λ o d e.
    let (id, l, f, q) = v.flight_of_leased o (ground arith) in
    let r = AllEntries-get _ g.in_flight id l v.flight_range f in omega arith)

validate_group-none :
    (name group : Name) (k n : ℕ) (g : GroupState)
    → GroupInv n k g
    → g.poll_count ≤ max_counter
    → validate_group name k n group g ≡ none
unfolding validate_group
validate_group-none name group k n g v p =
    let polls : ltb max_counter g.poll_count ≡ false = ground arith in
    let mark : ltb n g.ack_watermark ≡ false = ground (arith, v.acks.watermark_le) in
    let (count, agree) = by_lease_lem n k g.ack_watermark g v.leases in
    let counted : (length (collect_leases g.in_flight []) == length g.in_flight) ≡ true =
      ground (arith, count) in
    let acked_range = v.acks.acked_range in
    rw (polls, mark)
      (at_entry-none (last_key g.acked_above) _ _ _ (λ o e. ground (
        arith,
        last_key-AllEntries (λ o. (g.ack_watermark ≤ o) × (o < n)) g.acked_above o acked_range e,
      ))
        ∙ rw
            (
              check_leases-none name group k n g.ack_watermark g.in_flight v.leases.flight_range,
              counted,
              agree,
              v.settled,
            )
            (at_entry-none (first_key g.acked_above) _ _ _ (λ o e. ground (
              arith,
              first_key-AllEntries (λ o. (g.ack_watermark ≤ o) × (o < n)) g.acked_above o
                  acked_range e,
            ))
              ∙ at_entry-none (first_key g.leased_offsets) _ _ _ (λ o e. ground (
                arith,
                first_key-AllEntries (λ o. g.ack_watermark ≤ o) g.leased_offsets o
                    (leased-above n k g.ack_watermark g v.leases) e,
              ))))

-- The poll counters of a topic's groups stay below the ceiling.
abbrev pub PollsBounded : Map Name GroupState → Type 0
PollsBounded = AllEntries (λ _ g. g.poll_count ≤ max_counter)

validate_groups-none :
    (name : Name) (k n : ℕ) (gs : Map Name GroupState)
    → AllEntries (λ _ g. GroupInv n k g) gs
    → PollsBounded gs
    → validate_groups name k n gs ≡ none
unfolding validate_groups
validate_groups-none name k n [] a b = refl
validate_groups-none name k n ((group, g) ∷ gs) a b =
    rw (validate_group-none name group k n g a.0 b.0) (validate_groups-none name k n gs a.1 b.1)

validate_topic-none :
    (c k : ℕ) (name : Name) (t : TopicState)
    → c ≤ max_counter
    → TopicInv c k t
    → PollsBounded t.groups
    → validate_topic k name t ≡ none
unfolding validate_topic
validate_topic-none c k name t h v b =
    let next : ltb max_counter t.next_offset ≡ false = ground (arith, v.next_le) in
    let sizes : (length t.dedup == length t.dedup_order) ≡ true =
      ground (arith, v.matches.counted) in
    let held : ltb dedup_capacity (length t.dedup) ≡ false =
      ground (arith, v.matches.counted, v.capacity) in
    let keys_lem =
      length-collect_keys t.dedup_order [] v.matches.distinct (none_in_empty t.dedup_order) in
    let once : (length (collect_keys t.dedup_order []) == length t.dedup_order) ≡ true =
      ground (arith, keys_lem) in
    rw (next, check_messages-none name t.next_offset t.messages v.messages_range)
      (at_entry-none (last_key t.messages) _ _ _ (λ o e. ground (
        arith,
        last_key-AllEntries (λ o. o < t.next_offset) t.messages o
            (AllEntries-imp (λ o m r. r.1) t.messages v.messages_range) e,
      ))
        ∙ rw (sizes, held, once, check_order-none name t.dedup_order t.dedup v.matches.listed)
            (validate_groups-none name k t.next_offset t.groups v.groups_inv b))

validate_topics-none :
    (c k : ℕ) (ts : Map Name TopicState)
    → c ≤ max_counter
    → AllEntries (λ _ t. TopicInv c k t) ts
    → AllEntries (λ _ t. PollsBounded t.groups) ts
    → validate_topics k ts ≡ none
unfolding validate_topics
validate_topics-none c k [] h a b = refl
validate_topics-none c k ((name, t) ∷ ts) h a b =
    rw (validate_topic-none c k name t h a.0 b.0) (validate_topics-none c k ts h a.1 b.1)

-- Every well-formed queue whose counters are below the ceiling passes `validate`.
pub validate-none :
    (c : ℕ) (q : Queue)
    → c ≤ max_counter
    → QueueInv c q
    → AllEntries (λ _ t. PollsBounded t.groups) q.topics
    → validate q ≡ none
unfolding validate
validate-none c q h v b =
    let id : ltb max_counter q.next_lease_id ≡ false = ground (arith, v.next_le) in
    rw id (validate_topics-none c q.next_lease_id q.topics h v.topics_inv b)

lower_watermark-id : (n k : ℕ) (g : GroupState) → GroupInv n k g → lower_watermark n g ≡ g
unfolding lower_watermark
lower_watermark-id n k g v =
    let mark : ltb n g.ack_watermark ≡ false = ground (arith, v.acks.watermark_le) in rw mark refl

normalize_topic-id : (c k : ℕ) (t : TopicState) → TopicInv c k t → normalize_topic t ≡ t
unfolding normalize_topic
normalize_topic-id c k t v =
    rw
      (map_values-id (lower_watermark t.next_offset) t.groups
        (AllEntries-imp (λ _ g. lower_watermark-id t.next_offset k g) t.groups v.groups_inv))
      refl

-- `normalize` does not touch a well-formed queue.
pub normalize-id : (c : ℕ) (q : Queue) → QueueInv c q → normalize q ≡ q
unfolding normalize
normalize-id c q v =
    rw
      (map_values-id normalize_topic q.topics
        (AllEntries-imp (λ _ t. normalize_topic-id c q.next_lease_id t) q.topics v.topics_inv))
      refl
