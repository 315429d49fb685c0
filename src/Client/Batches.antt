-- ===== src/Client/Batches.antt =====
-- What the batches of produced messages keep: every job, in order, within the limits, and answered.
use hermesmq.Prelude.{
  ℕ, suc, ◌+◌, ◌≤◌, ◌<◌, List, [], ◌∷◌, ◌++◌, map, ◌&&◌, ◌≡◌, refl, ap, sym, arith, ltb, length,
  concat, append_assoc, append_nil, All, All-append, Bool-cases, Option-cases, inl, inr,
}
use hermesmq.Types.{Offset, AppRequest}
use hermesmq.Queue.{Queue, produce_one, produce_all, apply, check_produce}
use hermesmq.Client.{
  Response, Write, wrote, failed, max_payload_bytes, map_raft_error, resp_error, internal,
  unexpected_batch_response,
}
use hermesmq.Client.Batcher.{
  ProduceJob, produce_batch_max_items, produce_batch_max_bytes, fill_batch, take_batch,
  BatcherEvent, job_sent, round, produce_batcher, item_of, items_of, answer_offsets, answer_same,
  batch_request, finish_batch, write_produce_batch, Notifiers,
}

-- The jobs that the events send, in order.
unfoldable pub jobs_sent : List BatcherEvent → List ProduceJob
jobs_sent [] = []
jobs_sent (job_sent job ∷ events) = job ∷ jobs_sent events
jobs_sent (round ∷ events) = jobs_sent events

append-fill_batch :
    (count bytes : ℕ) (rx : List ProduceJob)
    → (fill_batch count bytes rx).0 ++ (fill_batch count bytes rx).1 ≡ rx
unfolding fill_batch
append-fill_batch count bytes [] = refl
append-fill_batch count bytes (job ∷ rx) =
    ground (arith, append-fill_batch (count + 1) (bytes + length job.p.payload) rx)

append-take_batch :
    (first : ProduceJob) (rx : List ProduceJob)
    → (take_batch first rx).0 ++ (take_batch first rx).1 ≡ first ∷ rx
unfolding take_batch
append-take_batch first rx = ap (λ l. first ∷ l) (append-fill_batch 1 (length first.p.payload) rx)

concat-produce_batcher_from :
    (events : List BatcherEvent) (rx : List ProduceJob)
    → concat (produce_batcher events rx).0 ++ (produce_batcher events rx).1 ≡ rx ++ jobs_sent events
unfolding produce_batcher concat jobs_sent
concat-produce_batcher_from [] rx = sym (append_nil rx)
concat-produce_batcher_from (job_sent job ∷ events) rx =
    rw (concat-produce_batcher_from events (rx ++ (job ∷ [])))
      (append_assoc rx (job ∷ []) (jobs_sent events))
concat-produce_batcher_from (round ∷ events) [] = concat-produce_batcher_from events []
concat-produce_batcher_from (round ∷ events) (first ∷ rx) =
    let b = take_batch first rx in
    let rest = concat-produce_batcher_from events b.1 in
    let whole = append-take_batch first rx in
    rw
      (
        append_assoc b.0 (concat (produce_batcher events b.1).0) (produce_batcher events b.1).1,
        rest,
        ← append_assoc b.0 b.1 (jobs_sent events),
        whole,
      )
      refl

-- Whenever the batcher comes round, the batches that it has handed on and the jobs that are left in the
-- channel are, one after the other, the jobs that were sent: none is lost, doubled or overtaken.
pub concat-produce_batcher :
    (events : List BatcherEvent)
    → concat (produce_batcher events []).0 ++ (produce_batcher events []).1 ≡ jobs_sent events
concat-produce_batcher events = concat-produce_batcher_from events []

unfoldable pub payload_bytes : List ProduceJob → ℕ
payload_bytes [] = 0
payload_bytes (job ∷ jobs) = length job.p.payload + payload_bytes jobs

abbrev pub IsAdmitted : ProduceJob → Type 0
IsAdmitted job = length job.p.payload ≤ max_payload_bytes

-- A batch that starts with so many jobs and bytes is filled up to the limits.
abbrev Fits : ℕ → ℕ → List ProduceJob → Type 0
Fits count bytes jobs =
    (count + length jobs ≤ produce_batch_max_items)
    × (bytes + payload_bytes jobs < produce_batch_max_bytes + max_payload_bytes)

fill_batch-Fits :
    (count bytes : ℕ) (rx : List ProduceJob)
    → All IsAdmitted rx
    → count ≤ produce_batch_max_items
    → bytes < produce_batch_max_bytes + max_payload_bytes
    → Fits count bytes (fill_batch count bytes rx).0 × All IsAdmitted (fill_batch count bytes rx).1
unfolding fill_batch payload_bytes
fill_batch-Fits count bytes [] all h k = ((omega arith, omega arith), tt)
fill_batch-Fits count bytes (job ∷ rx) all h k =
    elim (Bool-cases (ltb count produce_batch_max_items && ltb bytes produce_batch_max_bytes)) [
      | inr e ↦ rw (e, fill_batch) ((omega arith, omega arith), all)
      | inl e ↦
          let low : count < produce_batch_max_items = ground arith in
          let light : bytes < produce_batch_max_bytes = ground arith in
          let small : length job.p.payload ≤ max_payload_bytes = all.0 in
          let f =
            fill_batch-Fits (count + 1) (bytes + length job.p.payload) rx all.1 (omega arith)
              (omega arith) in
          rw (e, fill_batch) ((omega (arith, f.0.0), omega (arith, f.0.1)), f.1)
    ]

abbrev pub IsBatch : List ProduceJob → Type 0
IsBatch jobs =
    (0 < length jobs)
    × (length jobs ≤ produce_batch_max_items)
    × (payload_bytes jobs < produce_batch_max_bytes + max_payload_bytes)

produce_batcher-IsBatch_from :
    (events : List BatcherEvent) (rx : List ProduceJob)
    → All IsAdmitted rx
    → All IsAdmitted (jobs_sent events)
    → All IsBatch (produce_batcher events rx).0
unfolding produce_batcher jobs_sent take_batch payload_bytes
produce_batcher-IsBatch_from [] rx all sent = tt
produce_batcher-IsBatch_from (job_sent job ∷ events) rx all sent =
    produce_batcher-IsBatch_from events (rx ++ (job ∷ []))
      (All-append IsAdmitted rx (job ∷ []) all (sent.0, tt)) sent.1
produce_batcher-IsBatch_from (round ∷ events) [] all sent =
    produce_batcher-IsBatch_from events [] all sent
produce_batcher-IsBatch_from (round ∷ events) (first ∷ rx) all sent =
    let f =
      fill_batch-Fits 1 (length first.p.payload) rx all.1 (omega arith) (omega (arith, all.0)) in
    (
      (omega arith, omega (arith, f.0.0), omega (arith, f.0.1)),
      produce_batcher-IsBatch_from events _ f.1 sent,
    )

-- Every batch holds at least one job and at most 256, and its payloads are together below 512 KiB and
-- the greatest payload, if no payload of a job is above the port's limit.
pub produce_batcher-IsBatch :
    (events : List BatcherEvent)
    → All IsAdmitted (jobs_sent events)
    → All IsBatch (produce_batcher events []).0
produce_batcher-IsBatch events sent = produce_batcher-IsBatch_from events [] tt sent

length-produce_all :
    (ts_ms : ℕ) (jobs : List ProduceJob) (q : Queue)
    → length (produce_all (items_of ts_ms jobs) q).1 ≡ length jobs
unfolding produce_all items_of
length-produce_all ts_ms [] q = refl
length-produce_all ts_ms (job ∷ jobs) q =
    ap suc (length-produce_all ts_ms jobs (produce_one (item_of ts_ms job) q).0)

map-answer_same :
    (resp : Response) (jobs : List ProduceJob)
    → map (λ a. a.0) (answer_same resp jobs) ≡ map (λ j. j.reply) jobs
unfolding answer_same
map-answer_same resp [] = refl
map-answer_same resp (job ∷ jobs) = ap (λ l. job.reply ∷ l) (map-answer_same resp jobs)

map-answer_offsets :
    (jobs : List ProduceJob) (offsets : List Offset)
    → length offsets ≡ length jobs
    → map (λ a. a.0) (answer_offsets jobs offsets) ≡ map (λ j. j.reply) jobs
unfolding answer_offsets
map-answer_offsets [] offsets h = refl
map-answer_offsets (job ∷ jobs) [] h = absurd (omega (arith, h))
map-answer_offsets (job ∷ jobs) (offset ∷ offsets) h =
    ap (λ l. job.reply ∷ l) (map-answer_offsets jobs offsets (omega (arith, h)))

-- What Raft promises of a write: it fails, or the answer is that of the queue at some state.
abbrev pub IsLawful : AppRequest → Write → Type 0
IsLawful request (failed e) = Unit
IsLawful request (wrote r) = (q : Queue) × (r ≡ (apply request q).1)

map-finish_batch :
    (ts_ms : ℕ) (jobs : List ProduceJob) (w : Write) (notifiers : Notifiers)
    → IsLawful (batch_request ts_ms jobs) w
    → map (λ a. a.0) (finish_batch jobs w notifiers).0 ≡ map (λ j. j.reply) jobs
unfolding finish_batch batch_request apply
map-finish_batch ts_ms jobs (failed e) notifiers l = map-answer_same (map_raft_error e) jobs
map-finish_batch ts_ms jobs (wrote r) notifiers (q, e) =
    elim (Option-cases (check_produce (items_of ts_ms jobs) q)) [
      | inl c ↦
          rw (e, c)
            (map-answer_offsets jobs (produce_all (items_of ts_ms jobs) q).1
              (length-produce_all ts_ms jobs q))
      | inr (reason, c) ↦
          rw (e, c) (map-answer_same (resp_error internal unexpected_batch_response) jobs)
    ]

-- If the write that is given returns what the queue answers in some state, or fails, then every job of
-- a batch is answered once, in order, whether the queue takes the batch, refuses it, or the write fails.
pub map-write_produce_batch :
    (client_write : AppRequest → Write) (ts_ms : ℕ) (jobs : List ProduceJob) (notifiers : Notifiers)
    → ((request : AppRequest) → IsLawful request (client_write request))
    → map (λ a. a.0) (write_produce_batch client_write ts_ms jobs notifiers).0
      ≡ map (λ j. j.reply) jobs
unfolding write_produce_batch
map-write_produce_batch client_write ts_ms jobs notifiers lawful =
    map-finish_batch ts_ms jobs (client_write (batch_request ts_ms jobs)) notifiers
      (lawful (batch_request ts_ms jobs))
