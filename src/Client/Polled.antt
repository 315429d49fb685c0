-- ===== src/Client/Polled.antt =====
-- A poll answers with no more messages than it asks for.
use hermesmq.Prelude.{
  ℕ, ◌≤◌, List, [], ◌∷◌, Bool, true, false, Option, none, some, ◌≡◌, refl, arith, length, ◌==◌, min,
  Bool-cases, Option-cases, inl, inr, ap, suc, saturating_add,
}
use hermesmq.Ord.{nat_ord, list_ord}
use hermesmq.Map.{Map, get}
use hermesmq.Types.{Name, Offset, LeaseId, Message, Delivered, AppResponse, polled, Reason}
use hermesmq.Limits.{max_visibility_ms, check_consumer}
use hermesmq.Group.{GroupState, lease_offset, expire}
use hermesmq.Topic.{TopicState, sweep}
use hermesmq.Poll.{
  Candidate, lease_chosen, select, poll_group, poll_entry, poll_swept, poll_topic, refresh,
}
use hermesmq.Poll.Selection.{length-select-le}
use hermesmq.Queue.{Queue, poll, poll_auto, apply, guarded}
use hermesmq.Client.Polling.{poll_request}

length-lease_chosen :
    (messages : Map Offset Message) (deadline : ℕ) (xs : List Candidate) (g : GroupState)
    (k : LeaseId)
    → length (lease_chosen messages deadline xs g k).2 ≡ length xs
unfolding lease_chosen
length-lease_chosen messages deadline [] g k = refl
length-lease_chosen messages deadline (x ∷ xs) g k = ap suc (
    length-lease_chosen messages deadline xs (lease_offset k x.offset deadline g)
      (saturating_add k 1))

length-poll_group-le :
    (messages : Map Offset Message) (max visibility ts_ms poll_count : ℕ) (g : GroupState)
    (k : LeaseId)
    → length (poll_group messages max visibility ts_ms poll_count g k).2 ≤ max
unfolding poll_group
length-poll_group-le messages max visibility ts_ms poll_count g k = elim (Bool-cases (max == 0)) [
  | inl e ↦ rw (e, poll_group) (omega arith)
  | inr e ↦
      rw (e, poll_group)
        (omega (
          arith,
          length-select-le g max poll_count messages,
          length-lease_chosen messages _ (select g max poll_count messages) g k,
        ))
]

length-poll_swept-le :
    (group : Name) (max visibility ts_ms : ℕ) (t : TopicState) (k : LeaseId)
    → length (poll_swept group max visibility ts_ms t k).2 ≤ max
unfolding poll_swept
length-poll_swept-le group max visibility ts_ms t k =
    elim (Option-cases (poll_entry group ts_ms t)) [
      | inl e ↦ rw (e, poll_swept) (omega arith)
      | inr (g, e) ↦
          rw (e, poll_swept)
            (length-poll_group-le t.messages max visibility ts_ms (expire ts_ms g).poll_count
              (refresh ts_ms g) k)
    ]

length-poll-le :
    (topic group : Name) (max visibility ts_ms : ℕ) (q : Queue)
    → length (poll topic group max visibility ts_ms q).1 ≤ max
unfolding poll poll_topic
length-poll-le topic group max visibility ts_ms q = elim (Option-cases (get topic q.topics)) [
  | inl e ↦ rw (e, poll) (omega arith)
  | inr (t, e) ↦
      rw (e, poll)
        (length-poll_swept-le group max (min visibility max_visibility_ms) ts_ms (sweep ts_ms t)
          q.next_lease_id)
]

-- the items of an answer are at most so many
abbrev pub ItemsWithin : ℕ → AppResponse → Type 0
ItemsWithin max (polled items) = length items ≤ max
ItemsWithin max _ = Unit

guarded-ItemsWithin :
    (reason : Option Reason) (q : Queue) (r : Queue × List Delivered) (max : ℕ)
    → length r.1 ≤ max
    → ItemsWithin max (guarded reason q (r.0, polled r.1)).1
guarded-ItemsWithin none q r max h = h
guarded-ItemsWithin (some reason) q r max h = tt

-- What the queue answers to the request of a poll.
pub apply-ItemsWithin :
    (auto : Bool) (topic group : Name) (max visibility ts_ms : ℕ) (q : Queue)
    → ItemsWithin max (apply (poll_request auto topic group max visibility ts_ms) q).1
unfolding apply poll_request poll_auto
apply-ItemsWithin true topic group max visibility ts_ms q =
    guarded-ItemsWithin (check_consumer topic group) q
      (poll_auto topic group max visibility ts_ms q) max
      (length-poll-le topic group max visibility ts_ms q)
apply-ItemsWithin false topic group max visibility ts_ms q =
    guarded-ItemsWithin (check_consumer topic group) q (poll topic group max visibility ts_ms q) max
      (length-poll-le topic group max visibility ts_ms q)
