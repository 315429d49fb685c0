-- ===== src/Tests/Snapshots.antt =====
-- The theorems on `validate` and `normalize` at a queue, and on the tracking of a subscription.
use hermesmq.Prelude.{List, [], ◌∷◌, true, none, some, ◌≡◌, refl, arith}
use hermesmq.Ord.{nat_ord, list_ord}
use hermesmq.Queue.{Queue}
use hermesmq.Queue.Invariant.{QueueInv}
use hermesmq.Map.Sorted.{AllEntries}
use hermesmq.Group.{new_group, lease_offset}
use hermesmq.Topic.{TopicState}
use hermesmq.Tests.{topic, group, messages, leased, leased-GroupInv}
use hermesmq.Limits.{max_counter}
use hermesmq.Validate.{validate, normalize}
use hermesmq.Validate.Accepts.{PollsBounded, validate-none, normalize-id}
use hermesmq.Tracking.{debug_check_invariants, no_tracking}
use hermesmq.Tracking.Calls.{Call, calls, delivery, resolution, count, debug_check_invariants-calls}

-- A topic of three messages; the group has a lease on one of them.
abbrev served : TopicState
served = record {
  next_offset = 3;
  messages = messages;
  dedup = [];
  dedup_order = [];
  groups = (group, leased) ∷ [];
  rate_milli_per_sec = 0;
  burst = 0;
  retain_max_messages = 0;
  retain_max_age_ms = 0;
}

abbrev pub queue : Queue
queue = record { topics = (topic, served) ∷ []; next_lease_id = 1 }

pub queue-QueueInv : QueueInv max_counter queue
queue-QueueInv = record {
  next_le = omega arith;
  sorted_topics = (tt, tt);
  topics_inv = (
    record {
      next_le = omega arith;
      sorted_messages = ((refl, (refl, tt)), ((refl, tt), (tt, tt)));
      messages_range = ((refl, omega arith), ((refl, omega arith), ((refl, omega arith), tt)));
      matches = record { sorted = tt; counted = refl; distinct = tt; listed = tt };
      capacity = omega arith;
      sorted_groups = (tt, tt);
      groups_inv = (leased-GroupInv, tt);
    },
    tt,
  );
}

pub queue-PollsBounded : AllEntries (λ _ t. PollsBounded t.groups) queue.topics
unfolding new_group lease_offset
queue-PollsBounded = ((omega arith, tt), tt)

validate-none_example : validate queue ≡ none
validate-none_example =
    validate-none max_counter queue (omega arith) queue-QueueInv queue-PollsBounded

normalize-id_example : normalize queue ≡ queue
normalize-id_example = normalize-id max_counter queue queue-QueueInv

abbrev session : List Call
session = delivery 3 7 50 10 ∷ delivery 3 8 60 20 ∷ count 30 5 ∷ resolution 7 (some 90) ∷ []

debug_check_invariants-calls_example : debug_check_invariants (calls session no_tracking) ≡ true
debug_check_invariants-calls_example = debug_check_invariants-calls session
