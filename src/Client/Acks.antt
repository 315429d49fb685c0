-- ===== src/Client/Acks.antt =====
-- crates/hermesmq-core/src/client.rs: `AckJob`, `ack_batcher`, `write_ack_groups` and `enqueue_ack`. The
-- replicated write is a function of the request and of the state of the cluster, and the writes of a
-- batch follow one another.
use hermesmq.Prelude.{
  ℕ, ◌+◌, List, [], ◌∷◌, ◌++◌, Bool, true, false, ◌&&◌, Option, none, some, if◌then◌else◌, ltb,
}
use hermesmq.Ord.{nat_ord, list_ord, pair_ord, bool_ord}
use hermesmq.Map.{Map, get, has, insert}
use hermesmq.Types.{LeaseId, Name, AppRequest, ack_many, nack_many}
use hermesmq.Client.{
  Response, done, resp_error, internal, ack_batcher_gone, ack_batcher_dropped, Write, map_write,
}
use hermesmq.Client.Batcher.{Notifiers, Reply, gone, dropped, answered}

abbrev pub ack_batch_max : ℕ
ack_batch_max = 1024

pub record AckJob : Type 0 where
  pub topic : Name
  pub group : Name
  pub lease_id : LeaseId
  pub nack : Bool
  pub reply : Option ℕ

-- topic, group, and whether the leases are given back
abbrev pub AckKey : Type 0
AckKey = Name × (Name × Bool)

abbrev pub AckGroup : Type 0
AckGroup = List LeaseId × List ℕ

abbrev pub AckGroups : Type 0
AckGroups = Map AckKey AckGroup

-- The inner loop of `ack_batcher`: what joins a batch of so many jobs, and what stays.
unfoldable pub fill_acks : ℕ → List AckJob → List AckJob × List AckJob
fill_acks count [] = ([], [])
fill_acks count (job ∷ rx) =
    let rest = fill_acks (count + 1) rx in
    if ltb count ack_batch_max then (job ∷ rest.0, rest.1) else ([], job ∷ rx)

unfoldable pub take_acks : AckJob → List AckJob → List AckJob × List AckJob
take_acks first rx = let rest = fill_acks 1 rx in (first ∷ rest.0, rest.1)

-- What happens at the channel of acknowledgements: a handler or a subscription sends one, or the batcher
-- comes round.
pub data AckEvent : Type 0 where
  ack_sent : AckJob → AckEvent
  ack_round : AckEvent

abbrev pub job_key : AckJob → AckKey
job_key job = (job.topic, (job.group, job.nack))

-- `groups.entry(key).or_default()`
unfoldable pub group_entry : AckKey → AckGroups → AckGroup
group_entry key groups = elim (get key groups) [ none ↦ ([], []) | some entry ↦ entry ]

unfoldable pub push_reply : Option ℕ → List ℕ → List ℕ
push_reply none replies = replies
push_reply (some reply) replies = replies ++ (reply ∷ [])

unfoldable pub add_job : AckJob → AckGroups → AckGroups
add_job job groups =
    let entry = group_entry (job_key job) groups in
    insert (job_key job) (entry.0 ++ (job.lease_id ∷ []), push_reply job.reply entry.1) groups

unfoldable pub group_jobs : List AckJob → AckGroups → AckGroups
group_jobs [] groups = groups
group_jobs (job ∷ jobs) groups = group_jobs jobs (add_job job groups)

-- The groups that the batcher hands to its writers, batch by batch, and the jobs that are left.
unfoldable pub ack_batcher : List AckEvent → List AckJob → List AckGroups × List AckJob
ack_batcher [] rx = ([], rx)
ack_batcher (ack_sent job ∷ events) rx = ack_batcher events (rx ++ (job ∷ []))
ack_batcher (ack_round ∷ events) [] = ack_batcher events []
ack_batcher (ack_round ∷ events) (first ∷ rx) =
    let b = take_acks first rx in let r = ack_batcher events b.1 in (group_jobs b.0 [] ∷ r.0, r.1)

unfoldable pub group_request : AckKey → List LeaseId → AppRequest
group_request (topic, (group, true)) lease_ids = nack_many topic group lease_ids
group_request (topic, (group, false)) lease_ids = ack_many topic group lease_ids

unfoldable pub is_ok : Response → Bool
is_ok done = true
is_ok _ = false

unfoldable pub reply_all : Response → List ℕ → List (ℕ × Response)
reply_all resp [] = []
reply_all resp (reply ∷ replies) = (reply, resp) ∷ reply_all resp replies

-- What `write_ack_groups` did: the state of the cluster, the answers, and the topics whose waiters it
-- notified.
pub record Written {ℓ} (S : Type ℓ) : Type ℓ where
  pub cluster : S
  pub answers : List (ℕ × Response)
  pub notified : List Name

module _ {ℓ} {S : Type ℓ} (client_write : AppRequest → S → S × Write) (notifiers : Notifiers) where
  unfoldable pub write_ack_groups : AckGroups → S → Written S
  write_ack_groups [] s = record { cluster = s; answers = []; notified = [] }
  write_ack_groups ((key, entry) ∷ groups) s =
      let r = client_write (group_request key entry.0) s in
      let resp = map_write r.1 in
      let rest = write_ack_groups groups r.0 in
      record {
        cluster = rest.cluster;
        answers = reply_all resp entry.1 ++ rest.answers;
        notified =
            if key.1.1 && is_ok resp && has key.0 notifiers
            then key.0 ∷ rest.notified
            else rest.notified;
      }

-- `enqueue_ack`, from what became of the job
unfoldable pub enqueue_ack : Reply → Response
enqueue_ack gone = resp_error internal ack_batcher_gone
enqueue_ack dropped = resp_error internal ack_batcher_dropped
enqueue_ack (answered resp) = resp
