-- ===== src/Log.antt =====
-- crates/hermesmq-core/src/engine/log_store.rs: the Raft log. An append goes to a table in memory and
-- to a queue of jobs; a thread takes jobs from the queue and writes them to the disk in batches. Readers and
-- appends can come between the steps of that thread.
-- The types of openraft, the encoding and redb are parameters.
pub mod Entries
pub mod Queued
pub mod Events
pub mod Steps
pub mod Flush
pub mod Commit
pub mod Truncate
use hermesmq.Prelude.{
  ℕ, zero, suc, ◌+◌, List, [], ◌∷◌, ◌++◌, Bool, true, false, ◌&&◌, ◌||◌, Option, none, some, ◌≡◌,
  if◌then◌else◌, ltb, leb, max, length, is_empty,
}
use hermesmq.Ord.{nat_ord, list_ord}
use hermesmq.Map.{Map, get, insert, remove, retain, range_from, last_key}
use hermesmq.Types.{Name, Bytes}
use hermesmq.Store.{
  Redb, Disk, append_log, read_log, truncate_log_from, purge_log_upto, last_log_index, put_meta,
  get_meta, read_committed, save_committed, read_vote, save_vote,
}

-- `enc` and `dec` of `engine/mod.rs`: `none` is their error.
pub record Codec (A : Type 0) : Type 0 where
  pub enc : A → Option Bytes
  pub dec : Bytes → Option A

-- What was encoded is decoded.
abbrev pub IsFaithful : (A : Type 0) → Codec A → Type 0
IsFaithful A codec = (a : A) (b : Bytes) → codec.enc a ≡ some b → codec.dec b ≡ some a

-- The bytes of "log:purged".
abbrev pub key_purged : Name
key_purged = 108 ∷ 111 ∷ 103 ∷ 58 ∷ 112 ∷ 117 ∷ 114 ∷ 103 ∷ 101 ∷ 100 ∷ []

abbrev pub flush_max_entries : ℕ
flush_max_entries = 512

abbrev pub flush_max_bytes : ℕ
flush_max_bytes = 8388608

-- A callback and a waiting sender are numbers.
pub data FlushJob : Type 0 where
  append_job : List (ℕ × Bytes) → Option ℕ → FlushJob
  barrier_job : ℕ → FlushJob

-- What a round of the flusher takes from the queue.
pub record Batch : Type 0 where
  pub entries : List (ℕ × Bytes)
  pub callbacks : List ℕ
  pub barriers : List ℕ
  pub bytes : ℕ

abbrev pub empty_batch : Batch
empty_batch = record { entries = []; callbacks = []; barriers = []; bytes = 0 }

unfoldable pub total_bytes : List (ℕ × Bytes) → ℕ
total_bytes [] = 0
total_bytes ((index, b) ∷ es) = length b + total_bytes es

abbrev pub extend : List ℕ → Option ℕ → List ℕ
extend callbacks none = callbacks
extend callbacks (some callback) = callbacks ++ callback ∷ []

abbrev pub is_full : Batch → Bool
is_full b = leb flush_max_entries (length b.entries) || leb flush_max_bytes b.bytes

-- The inner `loop` of `run_flusher`, with the jobs that it leaves in the queue.
unfoldable pub take_jobs : List FlushJob → Batch → Batch × List FlushJob
take_jobs [] b = (b, [])
take_jobs (append_job es callback ∷ jobs) b =
    let next : Batch = record {
      entries = b.entries ++ es;
      callbacks = extend b.callbacks callback;
      barriers = b.barriers;
      bytes = b.bytes + total_bytes es;
    } in
    let rest = take_jobs jobs next in if is_full next then (next, jobs) else rest
take_jobs (barrier_job done ∷ jobs) b = (record b { barriers = b.barriers ++ done ∷ [] }, jobs)

-- What the flusher tells those who wait.
pub data Notice : Type 0 where
  log_io_completed : ℕ → Bool → Notice
  barrier_done : ℕ → Notice

unfoldable pub complete_all : Bool → List ℕ → List Notice
complete_all stored [] = []
complete_all stored (callback ∷ callbacks) =
    log_io_completed callback stored ∷ complete_all stored callbacks

unfoldable pub finish_all : List ℕ → List Notice
finish_all [] = []
finish_all (done ∷ barriers) = barrier_done done ∷ finish_all barriers

-- `for (index, _) in &batch { pending.remove(index); }`
unfoldable pub remove_written : List (ℕ × Bytes) → Map ℕ Bytes → Map ℕ Bytes
remove_written [] pending = pending
remove_written ((index, b) ∷ es) pending = remove_written es (remove index pending)

-- `for (index, bytes) in &batch { pending.insert(*index, bytes.clone()); }`
unfoldable pub insert_pending : List (ℕ × Bytes) → Map ℕ Bytes → Map ℕ Bytes
insert_pending [] pending = pending
insert_pending ((index, b) ∷ es) pending = insert_pending es (insert index b pending)

-- `into_iter().chain(..).max()` of two options
abbrev pub later : Option ℕ → Option ℕ → Option ℕ
later none b = b
later (some a) none = some a
later (some a) (some b) = some (max a b)

module _ (L : Redb ℕ) (M : Redb Name) where
  -- `LogStore`: the shared tables and the channel to the flusher.
  pub record LogStore : Type 0 where
    pub disk : Disk L M
    pub pending : Map ℕ Bytes
    pub jobs : List FlushJob

  -- Where `run_flusher` stands: it waits for a job, holds a batch that is not on the disk, or one that
  -- is on the disk and still in memory.
  pub data Stage : Type 0 where
    waiting : Stage
    taken : Batch → Stage
    appended : Batch → Stage

  pub record Flusher : Type 0 where
    pub store : LogStore
    pub stage : Stage

  -- The steps of `run_flusher` that others can come between. A batch is taken at the moment of the last
  -- receive; the write succeeds or fails.
  pub data FlushStep : Type 0 where
    take_batch : FlushStep
    write_batch : Bool → FlushStep
    remove_batch : FlushStep

  unfoldable pub start_batch : LogStore → Flusher × List Notice
  start_batch s =
      if is_empty s.jobs
      then (record { store = s; stage = waiting }, [])
      else (let t = take_jobs s.jobs empty_batch in
          (record { store = record s { jobs = t.1 }; stage = taken t.0 }, []))

  unfoldable pub store_batch : Bool → Batch → LogStore → Flusher × List Notice
  store_batch stored b s =
      if is_empty b.entries
      then (record { store = s; stage = appended b }, [])
      else if stored
      then (
        record { store = record s { disk = append_log L M b.entries s.disk }; stage = appended b },
        [],
      )
      else (
        record { store = s; stage = waiting },
        complete_all false b.callbacks ++ finish_all b.barriers,
      )

  unfoldable pub clear_batch : Batch → LogStore → Flusher × List Notice
  clear_batch b s = (
    record { store = record s { pending = remove_written b.entries s.pending }; stage = waiting },
    complete_all true b.callbacks ++ finish_all b.barriers,
  )

  -- A step that is not the next one does nothing.
  unfoldable pub flush_step : FlushStep → Stage → LogStore → Flusher × List Notice
  flush_step take_batch waiting s = start_batch s
  flush_step (write_batch stored) (taken b) s = store_batch stored b s
  flush_step remove_batch (appended b) s = clear_batch b s
  flush_step _ stage s = (record { store = s; stage = stage }, [])

  -- `append`, from the encoded entries on
  unfoldable pub append_batch : List (ℕ × Bytes) → Option ℕ → LogStore → LogStore
  append_batch batch callback s = record s {
    pending = insert_pending batch s.pending;
    jobs = s.jobs ++ append_job batch callback ∷ [];
  }

  -- `barrier`: the job that it sends
  unfoldable pub send_barrier : ℕ → LogStore → LogStore
  send_barrier done s = record s { jobs = s.jobs ++ barrier_job done ∷ [] }

  unfoldable pub pending_last : LogStore → Option ℕ
  pending_last s = last_key s.pending

  unfoldable pub last_index : LogStore → Option ℕ
  last_index s = later (last_log_index L M s.disk) (pending_last s)

  -- `truncate`, once its barrier is done
  unfoldable pub truncate_flushed : ℕ → LogStore → LogStore
  truncate_flushed index s = record s {
    pending = retain (λ i _. ltb i index) s.pending;
    disk = truncate_log_from L M index s.disk;
  }

  -- The entries of a range of indices: the disk at one moment, and in their place those in memory at a
  -- later one.
  unfoldable pub merged_range : ℕ → ℕ → LogStore → LogStore → Map ℕ Bytes
  merged_range start end before after =
      insert_pending (retain (λ k _. leb start k && ltb k end) after.pending)
        (insert_pending (read_log L M start end before.disk) [])
