-- ===== src/Poll.antt =====
-- crates/hermesmq-core/src/queue.rs: `poll`, the selection of messages and their leases.
pub mod Candidates
pub mod Selection
pub mod Leases
pub mod Steps
pub mod Contract
pub mod Fairness
use hermesmq.Prelude.{
  ℕ, zero, suc, ◌+◌, ◌-◌, ◌*◌, ◌/◌, ◌%◌, List, [], ◌∷◌, ◌++◌, Bool, true, false, not, ◌&&◌, ◌||◌,
  Option, none, some, if◌then◌else◌, ltb, leb, ◌==◌, length, min, max, saturating_add, is_some,
  u64_max,
}
use hermesmq.Ord.{nat_ord, list_ord}
use hermesmq.Map.{Map, Set, get, has, insert, range_from}
use hermesmq.Types.{Offset, LeaseId, Name, Priority, Message, Delivered, ContentType, raw}
use hermesmq.Limits.{reserved_den, max_groups_per_topic, max_visibility_ms}
use hermesmq.Group.{GroupState, new_group, expire, lease_offset}
use hermesmq.Topic.{TopicState, first_offset, sweep, put_group}

-- `(Priority, Offset)`
pub record Candidate : Type 0 where
  pub priority : Priority
  pub offset : Offset

-- `b.0.cmp(&a.0).then(a.1.cmp(&b.1))` is not `Greater`: `a` is delivered before `b`.
unfoldable pub ranks : Candidate → Candidate → Bool
ranks a b = ltb b.priority a.priority || (a.priority == b.priority && leb a.offset b.offset)

-- `BinaryHeap<Reverse<(Priority, Reverse<Offset>)>>`: the worst candidate is on top. The heap is
-- the list of its entries from the top down.
unfoldable pub heap_push : Candidate → List Candidate → List Candidate
heap_push x [] = x ∷ []
heap_push x (y ∷ ys) = let rest = heap_push x ys in if ranks y x then x ∷ y ∷ ys else y ∷ rest

unfoldable pub heap_pop : List Candidate → List Candidate
heap_pop [] = []
heap_pop (y ∷ ys) = ys

-- `if priority_slots > 0 { top.push(…); if top.len() > priority_slots { top.pop(); } }`
unfoldable pub offer : ℕ → Candidate → List Candidate → List Candidate
offer slots x top =
    if ltb 0 slots
    then (let pushed = heap_push x top in
        if ltb slots (length pushed) then heap_pop pushed else pushed)
    else top

-- `g.acked_above.contains(offset) || g.leased_offsets.contains_key(offset)`
unfoldable pub is_taken : GroupState → Offset → Bool
is_taken g offset = has offset g.acked_above || has offset g.leased_offsets

-- The loop over the messages from the watermark on. It returns `earliest` and `top`.
unfoldable pub scan :
    GroupState
    → ℕ
    → ℕ
    → Map Offset Message
    → List Candidate
    → List Candidate
    → List Candidate × List Candidate
scan g max slots [] earliest top = (earliest, top)
scan g max slots ((o, m) ∷ ms) earliest top =
    let x : Candidate = record { priority = m.priority; offset = o } in
    let skipped = scan g max slots ms earliest top in
    let filled = scan g max slots ms (earliest ++ x ∷ []) (offer slots x top) in
    let offered = scan g max slots ms earliest (offer slots x top) in
    if is_taken g o
    then skipped
    else if ltb (length earliest) max
    then filled
    else if slots == 0
    then (earliest, top)
    else offered

-- `for … in top { if chosen_set.insert(offset) { chosen.push(…); } }`
unfoldable pub choose_top :
    List Candidate → Set Offset → List Candidate → Set Offset × List Candidate
choose_top [] set chosen = (set, chosen)
choose_top (x ∷ xs) set chosen =
    choose_top xs (insert x.offset tt set) (if has x.offset set then chosen else chosen ++ x ∷ [])

-- `for item in earliest { if chosen.len() >= max { break; } … }`
unfoldable pub choose_earliest : ℕ → List Candidate → Set Offset → List Candidate → List Candidate
choose_earliest max [] set chosen = chosen
choose_earliest max (x ∷ xs) set chosen =
    let rest =
      choose_earliest max xs (insert x.offset tt set)
        (if has x.offset set then chosen else chosen ++ x ∷ []) in
    if leb max (length chosen) then chosen else rest

-- `sort_by`, stable
unfoldable pub sort_insert : Candidate → List Candidate → List Candidate
sort_insert x [] = x ∷ []
sort_insert x (y ∷ ys) = let rest = sort_insert x ys in if ranks x y then x ∷ y ∷ ys else y ∷ rest

unfoldable pub sort : List Candidate → List Candidate
sort [] = []
sort (x ∷ xs) = sort_insert x (sort xs)

-- `(base + bonus).min(max)`; the `u64` sum wraps in a release build.
unfoldable pub reserved_slots : ℕ → ℕ → ℕ
reserved_slots max poll_count =
    min
      (max / reserved_den
        + (if ((poll_count + 1) % (u64_max + 1)) % reserved_den == 0 then 1 else 0))
      max

-- The candidates that one poll delivers, in the order of delivery.
unfoldable pub select : GroupState → ℕ → ℕ → Map Offset Message → List Candidate
select g max poll_count messages =
    let slots : ℕ = max - reserved_slots max poll_count in
    let (earliest, top) = scan g max slots (range_from g.ack_watermark messages) [] [] in
    let (set, chosen) = choose_top top [] [] in sort (choose_earliest max earliest set chosen)

-- A message that is not there: `t.messages[&offset]` panics then.
unfoldable pub missing_message : Message
missing_message = record { offset = 0; priority = 0; content_type = raw; payload = []; ts_ms = 0 }

-- `t.messages[&offset]`
unfoldable pub message_at : Offset → Map Offset Message → Message
message_at o messages = elim (get o messages) [ some m ↦ m | none ↦ missing_message ]

unfoldable pub delivery : LeaseId → Offset → Message → Delivered
delivery id o m = record {
  lease_id = id;
  offset = o;
  priority = m.priority;
  content_type = m.content_type;
  payload = m.payload;
  ts_ms = m.ts_ms;
}

-- The loop over `chosen`: the group, `next_lease` and the items after it.
unfoldable pub lease_chosen :
    Map Offset Message
    → ℕ
    → List Candidate
    → GroupState
    → LeaseId
    → GroupState × LeaseId × List Delivered
lease_chosen messages deadline [] g next = (g, next, [])
lease_chosen messages deadline (x ∷ xs) g next =
    let (g', next', items) =
      lease_chosen messages deadline xs (lease_offset next x.offset deadline g)
        (saturating_add next 1) in
    (g', next', delivery next x.offset (message_at x.offset messages) ∷ items)

-- the statements of `poll` between the group's creation and the selection
unfoldable pub refresh : ℕ → GroupState → GroupState
refresh ts_ms g =
    let g' = expire ts_ms g in
    record g' {
      last_active_ms = max g'.last_active_ms ts_ms;
      poll_count = saturating_add g'.poll_count 1;
    }

-- the rest of `poll` at a group that has been refreshed, `poll_count` being the count before
unfoldable pub poll_group :
    Map Offset Message
    → ℕ
    → ℕ
    → ℕ
    → ℕ
    → GroupState
    → LeaseId
    → GroupState × LeaseId × List Delivered
poll_group messages max visibility ts_ms poll_count g next =
    if max == 0
    then (g, next, [])
    else lease_chosen messages (saturating_add ts_ms visibility) (select g max poll_count messages)
        g next

-- The group that is polled, if the topic has it or has room for it.
unfoldable pub poll_entry : Name → ℕ → TopicState → Option GroupState
poll_entry group ts_ms t = elim (get group t.groups) [
  | some g ↦ some g
  | none ↦
      if leb max_groups_per_topic (length t.groups)
      then none
      else some (new_group (first_offset t) ts_ms)
]

-- `poll` at a topic after the sweep
unfoldable pub poll_swept :
    Name → ℕ → ℕ → ℕ → TopicState → LeaseId → TopicState × LeaseId × List Delivered
poll_swept group max visibility ts_ms t next = elim (poll_entry group ts_ms t) [
  | none ↦ (t, next, [])
  | some g ↦
      let (g', next', items) =
        poll_group t.messages max visibility ts_ms (expire ts_ms g).poll_count (refresh ts_ms g)
          next in
      (put_group group g' t, next', items)
]

-- `poll` at a topic that is there
unfoldable pub poll_topic :
    Name → ℕ → ℕ → ℕ → TopicState → LeaseId → TopicState × LeaseId × List Delivered
poll_topic group max visibility ts_ms t next =
    poll_swept group max (min visibility max_visibility_ms) ts_ms (sweep ts_ms t) next
