-- ===== src/Tests/Batches.antt =====
-- The theorems on batches and on the notifiers at two jobs.
use hermesmq.Prelude.{ℕ, List, [], ◌∷◌, ◌++◌, map, true, false, some, ◌≡◌, refl, arith, concat}
use hermesmq.Ord.{list_ord, nat_ord, list_cmp}
use hermesmq.Map.{has}
use hermesmq.Types.{AppRequest, produced_many}
use hermesmq.Queue.{Queue, empty, apply}
use hermesmq.Client.{Produce, Write, wrote}
use hermesmq.Client.Batcher.{
  ProduceJob, BatcherEvent, job_sent, round, produce_batcher, finish_batch, write_produce_batch,
}
use hermesmq.Client.Batches.{jobs_sent, concat-produce_batcher, map-write_produce_batch}
use hermesmq.Client.Wakeups.{Waiting, comes, leaves, hold, waiters, notified-finish_batch}
use hermesmq.Client.Acks.{AckJob, group_jobs, write_ack_groups}
use hermesmq.Client.Grouped.{count, replies_wanted, answers-write_ack_groups}

abbrev message : ℕ → Produce
message topic = record {
  topic = topic ∷ [];
  priority = 9;
  content_type = 1;
  payload = 1 ∷ 2 ∷ [];
  producer_id = [];
  seq = 0;
}

abbrev one : ProduceJob
one = record { p = message 1; reply = 5 }

abbrev two : ProduceJob
two = record { p = message 2; reply = 6 }

abbrev events : List BatcherEvent
events = job_sent one ∷ job_sent two ∷ round ∷ job_sent one ∷ []

concat-produce_batcher_example :
    concat (produce_batcher events []).0 ++ (produce_batcher events []).1 ≡ jobs_sent events
concat-produce_batcher_example = concat-produce_batcher events

map-write_produce_batch_example :
    map (λ a. a.0) (write_produce_batch (λ app. wrote (apply app empty).1) 7 (one ∷ two ∷ []) []).0
    ≡ 5 ∷ 6 ∷ []
map-write_produce_batch_example =
    map-write_produce_batch (λ app. wrote (apply app empty).1) 7 (one ∷ two ∷ []) []
      (λ request. (empty, refl))

abbrev visits : List Waiting
visits = comes (1 ∷ []) ∷ comes (2 ∷ []) ∷ leaves (2 ∷ []) ∷ []

notified-finish_batch_example :
    has
      (1 ∷ [])
      (finish_batch (two ∷ one ∷ []) (wrote (produced_many (0 ∷ 0 ∷ []))) (hold visits [])).1
    ≡ true
unfolding list_cmp waiters
notified-finish_batch_example =
    notified-finish_batch visits (1 ∷ []) (two ∷ one ∷ []) (0 ∷ 0 ∷ []) (omega arith, tt)
      (omega arith) refl

abbrev done : ℕ → AckJob
done reply = record {
  topic = 1 ∷ [];
  group = 2 ∷ [];
  lease_id = 3;
  nack = false;
  reply = some reply;
}

abbrev write : AppRequest → Queue → Queue × Write
write app q = let r = apply app q in (r.0, wrote r.1)

answers-write_ack_groups_example :
    count 8 (
      map
        (λ a. a.0)
        (write_ack_groups write [] (group_jobs (done 8 ∷ done 9 ∷ []) []) empty).answers)
    ≡ count 8 (replies_wanted (done 8 ∷ done 9 ∷ []))
answers-write_ack_groups_example = answers-write_ack_groups write [] 8 (done 8 ∷ done 9 ∷ []) empty
