-- ===== src/Tests.antt =====
-- Runs of the model at concrete requests, and the theorems at them.
mod Snapshots
mod Disks
mod Restarts
mod Replays
mod Retries
mod Frames
mod Limits
mod Batches
mod Ports
mod Peers
mod Sessions
use hermesmq.Prelude.{ℕ, ◌+◌, List, [], ◌∷◌, true, none, some, ◌≡◌, refl, arith, inl, replicate}
use hermesmq.Ord.{nat_ord, list_ord, list_cmp}
use hermesmq.Map.{Map, get, insert, range_from, retain}
use hermesmq.Types.{Offset, Name, Message, ProduceItem, AppRequest, raw, topic_name_too_long}
use hermesmq.Group.{GroupState, new_group, lease_offset, ack_lease, advance_watermark, expire}
use hermesmq.Group.Invariant.{GroupInv, new_group-GroupInv}
use hermesmq.Group.Drain.{is_done}
use hermesmq.Group.Methods.{ack_lease-is_done}
use hermesmq.Group.Advance.{advance_watermark-is_done}
use hermesmq.Group.Release.{get-expire}
use hermesmq.Group.Leasing.{lease_offset-GroupInv}
use hermesmq.Topic.{TopicState, reclaim, min_watermark}
use hermesmq.Topic.Reclaim.{get-reclaim, reclaim_keeps_unread}
use hermesmq.Poll.{poll_group, select, is_taken}
use hermesmq.Poll.Contract.{IsServed, poll_group-IsServed}
use hermesmq.Poll.Fairness.{delivers, oldest, select-oldest}
use hermesmq.Limits.{check_name}
use hermesmq.Queue.{empty, apply, check_topic}
use hermesmq.Queue.Refusal.{apply-rejected}
use hermesmq.Queue.Invariant.{QueueInv}
use hermesmq.Queue.Apply.{cost, total_cost, run, apply-QueueInv, run-empty-QueueInv}

abbrev pub topic : Name
topic = 116 ∷ []

abbrev pub group : Name
group = 103 ∷ []

abbrev pub item : ℕ → ℕ → ProduceItem
item priority seq = record {
  topic = topic;
  priority = priority;
  content_type = raw;
  payload = 1 ∷ [];
  producer_id = 112 ∷ [];
  seq = seq;
  ts_ms = 5;
}

abbrev log : List AppRequest
log =
    AppRequest.produce (item 0 1)
    ∷ AppRequest.produce (item 5 2)
    ∷ AppRequest.produce_many (item 3 3 ∷ item 0 1 ∷ [])
    ∷ AppRequest.poll topic group 2 1000 10
    ∷ AppRequest.ack topic group 0
    ∷ []

abbrev next_poll : AppRequest
next_poll = AppRequest.poll topic group 4 1000 20

run-empty-QueueInv_example : QueueInv (total_cost log) (run log empty)
unfolding total_cost cost
run-empty-QueueInv_example = run-empty-QueueInv log (omega arith)

apply-QueueInv_example :
    QueueInv (total_cost log + cost next_poll) (apply next_poll (run log empty)).0
unfolding total_cost cost
apply-QueueInv_example =
    apply-QueueInv (total_cost log) next_poll (run log empty) (omega arith)
      (run-empty-QueueInv log (omega arith))

abbrev stored : ℕ → ℕ → Message
stored offset priority = record {
  offset = offset;
  priority = priority;
  content_type = raw;
  payload = 1 ∷ [];
  ts_ms = 5;
}

abbrev pub messages : Map Offset Message
messages = (0, stored 0 0) ∷ (1, stored 1 5) ∷ (2, stored 2 3) ∷ []

-- A group whose only lease is on offset 1.
abbrev pub leased : GroupState
leased = lease_offset 0 1 1010 (new_group 0 10)

pub leased-GroupInv : GroupInv 3 1 leased
leased-GroupInv =
    lease_offset-GroupInv 3 0 1 1010 (new_group 0 10) (new_group-GroupInv 3 0 0 10 (omega arith))
      (unfold new_group in omega arith) (omega arith) (unfold new_group get in refl)
      (unfold new_group get in refl)

poll_group-IsServed_example :
    let r = poll_group messages 2 1000 20 1 leased 1 in IsServed messages 2 1020 leased r.0 r.2
poll_group-IsServed_example =
    poll_group-IsServed messages 2 1000 20 1 leased 1 ((refl, (refl, tt)), ((refl, tt), (tt, tt)))
      (omega arith)

oldest_first :
    oldest leased (range_from leased.ack_watermark messages)
    ≡ some (record { priority = 0; offset = 0 })
unfolding oldest range_from retain is_taken get new_group lease_offset insert
oldest_first = refl

select-oldest_example : delivers 0 (select leased 4 0 messages) ≡ true
select-oldest_example =
    select-oldest leased 4 0 messages (record { priority = 0; offset = 0 }) oldest_first
      (omega arith) (omega arith) (inl (omega arith))

ack_lease-is_done_example : is_done 1 (ack_lease 0 leased) ≡ true
unfolding is_done new_group lease_offset get insert
ack_lease-is_done_example = ack_lease-is_done 3 1 (omega arith) 0 leased 1 leased-GroupInv

advance_watermark-is_done_example : is_done 1 (advance_watermark 2 leased) ≡ true
unfolding is_done new_group lease_offset get insert
advance_watermark-is_done_example =
    advance_watermark-is_done 3 1 (omega arith) 2 leased 1 leased-GroupInv (omega arith)

get-expire_example : get 0 (expire 1010 leased).in_flight ≡ none
unfolding new_group lease_offset get insert
get-expire_example = get-expire 3 1 1010 0 leased leased-GroupInv

-- A topic with one group, which has passed offset 0.
abbrev behind : TopicState
behind = record {
  next_offset = 3;
  messages = messages;
  dedup = [];
  dedup_order = [];
  groups = (group, new_group 1 10) ∷ [];
  rate_milli_per_sec = 0;
  burst = 0;
  retain_max_messages = 0;
  retain_max_age_ms = 0;
}

get-reclaim_example : get 0 (reclaim behind).messages ≡ none
unfolding min_watermark new_group
get-reclaim_example = get-reclaim 0 behind ((refl, (refl, tt)), ((refl, tt), (tt, tt)))

reclaim_keeps_unread_example : get 1 (reclaim behind).messages ≡ some (stored 1 5)
unfolding new_group get list_cmp
reclaim_keeps_unread_example =
    reclaim_keeps_unread group (new_group 1 10) 1 behind
      ((refl, (refl, tt)), ((refl, tt), (tt, tt))) refl (omega arith)

abbrev long_name : Name
long_name = replicate 257 120

apply-rejected_example :
    (apply (AppRequest.create_topic long_name) (run log empty)).0 ≡ run log empty
apply-rejected_example =
    apply-rejected (AppRequest.create_topic long_name) (run log empty) (topic_name_too_long 257)
      (unfold apply check_topic check_name in refl)
