-- ===== src/Client/Batcher.antt =====
-- crates/hermesmq-core/src/client.rs: `ProduceJob`, the notifiers of topics, `handle_produce`,
-- `produce_batcher` and `write_produce_batch`. A reply channel is its number, and an answer on it is a
-- pair. A map of notifiers counts the holders of each. What `client_write` returns is an argument.
use hermesmq.Prelude.{
  ℕ, ◌+◌, List, [], ◌∷◌, ◌++◌, ◌&&◌, Option, none, some, if◌then◌else◌, ltb, length, min,
}
use hermesmq.Ord.{nat_ord, list_ord}
use hermesmq.Map.{Map, Set, get, has, insert, retain}
use hermesmq.Types.{
  Offset, Name, ProduceItem, AppRequest, produce_many, produced_many, producer_id_too_long,
}
use hermesmq.Limits.{max_producer_id_bytes}
use hermesmq.Queue.{Queue}
use hermesmq.Client.{
  Produce, Response, max_payload_bytes, max_priority, resp_error, payload_too_large, payload_is,
  internal, produce_batcher_gone, produce_batcher_dropped, check_len, check_new_topic, ct_from_u32,
  produced_at, Write, wrote, failed, map_raft_error, unexpected_batch_response,
}

abbrev pub produce_batch_max_items : ℕ
produce_batch_max_items = 256

abbrev pub produce_batch_max_bytes : ℕ
produce_batch_max_bytes = 524288

abbrev pub notifier_gc_threshold : ℕ
notifier_gc_threshold = 4096

pub record ProduceJob : Type 0 where
  pub p : Produce
  pub reply : ℕ

-- the holders of each topic's notifier, the map among them
abbrev pub Notifiers : Type 0
Notifiers = Map Name ℕ

unfoldable pub gc_notifiers : Notifiers → Notifiers
gc_notifiers map =
    if ltb notifier_gc_threshold (length map) then retain (λ topic count. ltb 1 count) map else map

-- `Ctx::notifier`: the caller becomes a holder.
unfoldable pub notifier : Name → Notifiers → Notifiers
notifier topic map =
    let kept = gc_notifiers map in
    elim (get topic kept) [
      | none ↦ insert topic 2 kept
      | some count ↦ insert topic (count + 1) kept
    ]

-- `handle_produce` up to the sending of the job: the answer that turns the request away, if any
unfoldable pub admit_produce : Produce → Queue → Option Response
admit_produce p q =
    if ltb max_payload_bytes (length p.payload)
    then some (resp_error payload_too_large (payload_is (length p.payload)))
    else elim (check_len producer_id_too_long p.producer_id max_producer_id_bytes) [
      | some resp ↦ some resp
      | none ↦ check_new_topic p.topic q
    ]

-- What becomes of a job on its way: the batcher is gone, or drops it, or answers it.
pub data Reply : Type 0 where
  gone dropped : Reply
  answered : Response → Reply

unfoldable pub handle_produce : Produce → Queue → Reply → Response
handle_produce p q reply = elim (admit_produce p q) [
  | some resp ↦ resp
  | none ↦ elim reply [
    | gone ↦ resp_error internal produce_batcher_gone
    | dropped ↦ resp_error internal produce_batcher_dropped
    | answered resp ↦ resp
  ]
]

-- The inner loop of `produce_batcher`: what joins a batch of so many jobs and bytes, and what stays.
unfoldable pub fill_batch : ℕ → ℕ → List ProduceJob → List ProduceJob × List ProduceJob
fill_batch count bytes [] = ([], [])
fill_batch count bytes (job ∷ rx) =
    let rest = fill_batch (count + 1) (bytes + length job.p.payload) rx in
    if ltb count produce_batch_max_items && ltb bytes produce_batch_max_bytes
    then (job ∷ rest.0, rest.1)
    else ([], job ∷ rx)

unfoldable pub take_batch : ProduceJob → List ProduceJob → List ProduceJob × List ProduceJob
take_batch first rx =
    let rest = fill_batch 1 (length first.p.payload) rx in (first ∷ rest.0, rest.1)

-- What happens at the channel of jobs: a handler sends one, or the batcher comes round.
pub data BatcherEvent : Type 0 where
  job_sent : ProduceJob → BatcherEvent
  round : BatcherEvent

-- The batches that the batcher hands to its writers, in order, and the jobs that are left in the
-- channel.
unfoldable pub produce_batcher :
    List BatcherEvent → List ProduceJob → List (List ProduceJob) × List ProduceJob
produce_batcher [] rx = ([], rx)
produce_batcher (job_sent job ∷ events) rx = produce_batcher events (rx ++ (job ∷ []))
produce_batcher (round ∷ events) [] = produce_batcher events []
produce_batcher (round ∷ events) (first ∷ rx) =
    let b = take_batch first rx in let r = produce_batcher events b.1 in (b.0 ∷ r.0, r.1)

unfoldable pub item_of : ℕ → ProduceJob → ProduceItem
item_of ts_ms job = record {
  topic = job.p.topic;
  priority = min job.p.priority max_priority;
  content_type = ct_from_u32 job.p.content_type;
  payload = job.p.payload;
  producer_id = job.p.producer_id;
  seq = job.p.seq;
  ts_ms = ts_ms;
}

unfoldable pub items_of : ℕ → List ProduceJob → List ProduceItem
items_of ts_ms [] = []
items_of ts_ms (job ∷ jobs) = item_of ts_ms job ∷ items_of ts_ms jobs

-- `replies.into_iter().zip(offsets)`, each with its answer
unfoldable pub answer_offsets : List ProduceJob → List Offset → List (ℕ × Response)
answer_offsets [] offsets = []
answer_offsets (job ∷ jobs) [] = []
answer_offsets (job ∷ jobs) (offset ∷ offsets) =
    (job.reply, produced_at offset) ∷ answer_offsets jobs offsets

unfoldable pub answer_same : Response → List ProduceJob → List (ℕ × Response)
answer_same resp [] = []
answer_same resp (job ∷ jobs) = (job.reply, resp) ∷ answer_same resp jobs

-- the topics of a batch that have a notifier
unfoldable pub notified_topics : List ProduceJob → Notifiers → Set Name
notified_topics [] map = []
notified_topics (job ∷ jobs) map =
    let rest = notified_topics jobs map in
    if has job.p.topic map then insert job.p.topic tt rest else rest

-- the request of a batch
unfoldable pub batch_request : ℕ → List ProduceJob → AppRequest
batch_request ts_ms jobs = produce_many (items_of ts_ms jobs)

-- `write_produce_batch` from the result of the write on: the answers, and the topics whose waiters are
-- notified
unfoldable pub finish_batch : List ProduceJob → Write → Notifiers → List (ℕ × Response) × Set Name
finish_batch jobs (wrote (produced_many offsets)) map =
    (answer_offsets jobs offsets, notified_topics jobs map)
finish_batch jobs (wrote other) map =
    (answer_same (resp_error internal unexpected_batch_response) jobs, [])
finish_batch jobs (failed e) map = (answer_same (map_raft_error e) jobs, [])

-- `write_produce_batch` over the write that it is given
unfoldable pub write_produce_batch :
    (AppRequest → Write) → ℕ → List ProduceJob → Notifiers → List (ℕ × Response) × Set Name
write_produce_batch client_write ts_ms jobs map =
    finish_batch jobs (client_write (batch_request ts_ms jobs)) map
