-- ===== src/Queue/Apply.antt =====
-- `Queue::apply` as a whole: the invariant over every request and every history.
use hermesmq.Prelude.{ℕ, ◌+◌, ◌≤◌, List, [], ◌∷◌, Option, none, some, arith, length, u64_max}
use hermesmq.Types.{Name, AppRequest, AppResponse, Reason}
use hermesmq.Limits.{check_consumer}
use hermesmq.Queue.{Queue, empty, check_topic, check_produce, guarded, poll_auto, apply}
use hermesmq.Queue.Invariant.{
  QueueInv, QueueInv-mono, topic_entry-TopicInv, put_topic-QueueInv, delete-QueueInv,
  empty-QueueInv,
}
use hermesmq.Queue.Steps.{
  reclaim_topic-QueueInv, ack_all-QueueInv, nack_all-QueueInv, ack-QueueInv, nack-QueueInv,
  commit-QueueInv, set_rate_limit-QueueInv, set_retention-QueueInv, produce_one-QueueInv,
  produce_all-QueueInv, poll-QueueInv,
}

-- How far a request can move the counters.
unfoldable pub cost : AppRequest → ℕ
cost (AppRequest.produce item) = 1
cost (AppRequest.produce_many items) = length items
cost (AppRequest.poll topic group max visibility ts_ms) = max
cost (AppRequest.poll_auto topic group max visibility ts_ms) = max
cost _ = 0

guarded-QueueInv :
    (c : ℕ) (check : Option Reason) (q : Queue) (r : Queue × AppResponse)
    → QueueInv c q
    → QueueInv c r.0
    → QueueInv c (guarded check q r).0
guarded-QueueInv c none q r v w = w
guarded-QueueInv c (some reason) q r v w = v

poll_auto-QueueInv :
    (c : ℕ) (topic group : Name) (max visibility ts_ms : ℕ) (q : Queue)
    → c + max ≤ u64_max
    → QueueInv c q
    → QueueInv (c + max) (poll_auto topic group max visibility ts_ms q).0
unfolding poll_auto
poll_auto-QueueInv c topic group max visibility ts_ms q h v =
    reclaim_topic-QueueInv (c + max) h topic _ (
      ack_all-QueueInv (c + max) h topic group _ _
        (poll-QueueInv c topic group max visibility ts_ms q h v))

-- A request keeps the queue well formed, whichever it is and whether it is refused or not, as long as
-- the counters stay within 64 bits.
pub apply-QueueInv :
    (c : ℕ) (req : AppRequest) (q : Queue)
    → c + cost req ≤ u64_max
    → QueueInv c q
    → QueueInv (c + cost req) (apply req q).0
unfolding apply cost
apply-QueueInv c (AppRequest.create_topic topic) q h v = QueueInv-mono c _ _ (omega arith) (
    guarded-QueueInv c (check_topic topic q) q _ v
      (put_topic-QueueInv c q v topic _ (topic_entry-TopicInv c q v topic)))
apply-QueueInv c (AppRequest.delete_topic topic) q h v =
    QueueInv-mono c _ _ (omega arith) (delete-QueueInv c q v topic)
apply-QueueInv c (AppRequest.produce item) q h v =
    guarded-QueueInv _ (check_produce (item ∷ []) q) q _ (QueueInv-mono c _ q (omega arith) v)
      (produce_one-QueueInv c item q h v)
apply-QueueInv c (AppRequest.produce_many items) q h v =
    guarded-QueueInv _ (check_produce items q) q _ (QueueInv-mono c _ q (omega arith) v)
      (produce_all-QueueInv c items q h v)
apply-QueueInv c (AppRequest.poll topic group max visibility ts_ms) q h v =
    guarded-QueueInv _ (check_consumer topic group) q _ (QueueInv-mono c _ q (omega arith) v)
      (poll-QueueInv c topic group max visibility ts_ms q h v)
apply-QueueInv c (AppRequest.poll_auto topic group max visibility ts_ms) q h v =
    guarded-QueueInv _ (check_consumer topic group) q _ (QueueInv-mono c _ q (omega arith) v)
      (poll_auto-QueueInv c topic group max visibility ts_ms q h v)
apply-QueueInv c (AppRequest.ack topic group id) q h v = QueueInv-mono c _ _ (omega arith) (
    reclaim_topic-QueueInv c (omega arith) topic _
      (ack-QueueInv c (omega arith) topic group id q v))
apply-QueueInv c (AppRequest.ack_many topic group ids) q h v = QueueInv-mono c _ _ (omega arith) (
    reclaim_topic-QueueInv c (omega arith) topic _
      (ack_all-QueueInv c (omega arith) topic group ids q v))
apply-QueueInv c (AppRequest.nack_many topic group ids) q h v =
    QueueInv-mono c _ _ (omega arith) (nack_all-QueueInv c (omega arith) topic group ids q v)
apply-QueueInv c (AppRequest.nack topic group id) q h v =
    QueueInv-mono c _ _ (omega arith) (nack-QueueInv c (omega arith) topic group id q v)
apply-QueueInv c (AppRequest.commit_offset topic group offset) q h v =
    QueueInv-mono c _ _ (omega arith) (
      guarded-QueueInv c (check_consumer topic group) q _ v (
        reclaim_topic-QueueInv c (omega arith) topic _
          (commit-QueueInv c (omega arith) topic group offset none q v)))
apply-QueueInv c (AppRequest.commit_offset_at topic group offset ts_ms) q h v =
    QueueInv-mono c _ _ (omega arith) (
      guarded-QueueInv c (check_consumer topic group) q _ v (
        reclaim_topic-QueueInv c (omega arith) topic _
          (commit-QueueInv c (omega arith) topic group offset (some ts_ms) q v)))
apply-QueueInv c (AppRequest.set_rate_limit topic rate burst) q h v =
    QueueInv-mono c _ _ (omega arith) (
      guarded-QueueInv c (check_topic topic q) q _ v
        (set_rate_limit-QueueInv c (omega arith) topic rate burst q v))
apply-QueueInv c (AppRequest.set_retention topic max_messages max_age_ms) q h v =
    QueueInv-mono c _ _ (omega arith) (
      guarded-QueueInv c (check_topic topic q) q _ v
        (set_retention-QueueInv c (omega arith) topic max_messages max_age_ms q v))

-- A history: the requests of the log, in order.
unfoldable pub run : List AppRequest → Queue → Queue
run [] q = q
run (req ∷ reqs) q = run reqs (apply req q).0

unfoldable pub total_cost : List AppRequest → ℕ
total_cost [] = 0
total_cost (req ∷ reqs) = cost req + total_cost reqs

run-QueueInv :
    (c : ℕ) (reqs : List AppRequest) (q : Queue)
    → c + total_cost reqs ≤ u64_max
    → QueueInv c q
    → QueueInv (c + total_cost reqs) (run reqs q)
unfolding run total_cost
run-QueueInv c [] q h v = QueueInv-mono c _ q (omega arith) v
run-QueueInv c (req ∷ reqs) q h v =
    QueueInv-mono _ _ _ (omega arith)
      (run-QueueInv (c + cost req) reqs _ (omega arith) (apply-QueueInv c req q (omega arith) v))

-- Every queue that a history of requests builds from the empty queue is well formed.
pub run-empty-QueueInv :
    (reqs : List AppRequest)
    → total_cost reqs ≤ u64_max
    → QueueInv (total_cost reqs) (run reqs empty)
run-empty-QueueInv reqs h =
    QueueInv-mono _ _ _ (omega arith) (run-QueueInv 0 reqs empty (omega arith) (empty-QueueInv 0))
