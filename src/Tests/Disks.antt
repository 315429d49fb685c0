-- ===== src/Tests/Disks.antt =====
-- The database as a map in memory, and the theorems on the disk, the log and the start at it.
use hermesmq.Prelude.{ℕ, List, [], ◌∷◌, true, Option, none, some, ◌≡◌, refl}
use hermesmq.Ord.{Ord, nat_ord, list_ord, list_cmp}
use hermesmq.Map.{Map, get, insert, remove, retain}
use hermesmq.Types.{Name, Bytes}
use hermesmq.Store.{
  Redb, IsLawful, Disk, truncate_log_from, read_committed, get_meta, key_committed,
}
use hermesmq.Store.Contents.{get-truncate_log_from}
use hermesmq.Log.{Codec, append_job, barrier_job, LogStore}
use hermesmq.Log.Queued.{queued, written}
use hermesmq.Log.{
  waiting, Flusher, take_batch, write_batch, remove_batch, merged_range, flush_step, start_batch,
  store_batch, clear_batch, take_jobs, append_batch, insert_pending, remove_written, total_bytes,
}
use hermesmq.Log.Events.{
  visible, in_hand, FlusherInv, LogEvent, flushing, appending, log_event, log_events, event_writes,
  appends,
}
use hermesmq.Log.Flush.{visible-log_events}
use hermesmq.Store.{read_log, append_log}
use hermesmq.Store.Contents.{last_write}
use hermesmq.Recovery.{recover_consistency, reachable}
use hermesmq.Log.{last_index, pending_last}
use hermesmq.Log.Entries.{read_log_committed, served_commit}
use hermesmq.Log.{truncate_flushed}
use hermesmq.Log.Truncate.{visible-truncate_flushed}
use hermesmq.Log.Commit.{last_index-read_log_committed}
use hermesmq.Store.{first_log_index, last_log_index}
use hermesmq.Map.{last_key}
use hermesmq.Prelude.{◌≤◌, arith}
use hermesmq.Recovery.Repair.{IsRecovered, recover_consistency-IsRecovered, recover_consistency-id}

module _ (K : Type 0) ⦃o : Ord K⦄ where
  abbrev pub memory_redb : Redb K
  memory_redb = record { Table = Map K Bytes; entries = λ t. t; put = insert; delete = remove }

  pub memory_redb-IsLawful : IsLawful memory_redb
  memory_redb-IsLawful = record { entries-put = λ k v t. refl; entries-delete = λ k t. refl }

abbrev pub Log : Redb ℕ
Log = memory_redb ℕ

abbrev pub Meta : Redb Name
Meta = memory_redb Name

-- Entries 4 and 5 are on the disk; a commit of 9 has outlived its entry.
abbrev pub disk : Disk Log Meta
disk = record { log = (4, 1 ∷ []) ∷ (5, 2 ∷ []) ∷ []; meta = (key_committed, 9 ∷ []) ∷ [] }

get-truncate_log_from_example : get 5 (truncate_log_from Log Meta 5 disk).log ≡ none
get-truncate_log_from_example = get-truncate_log_from Log Meta (memory_redb-IsLawful ℕ) 5 5 disk

-- Entry 6 waits to be written.
abbrev store : LogStore Log Meta
store = record {
  disk = disk;
  pending = (6, 3 ∷ []) ∷ [];
  jobs = append_job ((6, 3 ∷ []) ∷ []) (some 1) ∷ barrier_job 2 ∷ [];
}

-- The flusher writes entry 6 while entry 7 is appended.
abbrev events : List (LogEvent Log Meta)
events =
    flushing take_batch
    ∷ appending ((7, 4 ∷ []) ∷ []) none
    ∷ flushing (write_batch true)
    ∷ flushing remove_batch
    ∷ []

abbrev flusher : Flusher Log Meta
flusher = record { store = store; stage = waiting }

flusher-FlusherInv : FlusherInv Log Meta waiting store
unfolding queued get in_hand
flusher-FlusherInv = record { held = (refl, tt); stored = tt }

visible-log_events_example :
    visible Log Meta 6 (log_events Log Meta events flusher).store
    ≡ last_write 6 (appends Log Meta events) (visible Log Meta 6 store)
unfolding queued written in_hand appends event_writes
visible-log_events_example =
    visible-log_events Log Meta (memory_redb-IsLawful ℕ) events 6 flusher flusher-FlusherInv
      (refl, (refl, tt))

-- A reader of two moments can miss an entry: entry 6 is not yet on the disk when the disk is read, and
-- no more in memory when that is read.
missed_entry : merged_range Log Meta 6 7 store (log_events Log Meta events flusher).store ≡ []
unfolding merged_range read_log log_events log_event flush_step start_batch store_batch clear_batch
    take_jobs append_batch append_log insert_pending remove_written retain total_bytes remove insert
missed_entry = refl

-- A position is a number here.
abbrev pub marks : Codec (Option ℕ)
marks = record {
  enc = λ m. elim m [ none ↦ some [] | some i ↦ some (i ∷ []) ];
  dec = λ b. elim b [ [] ↦ some none | i ∷ rest ↦ some (some i) ];
}

recover_consistency-IsRecovered_example :
    (r : Disk Log Meta) × ((recover_consistency Log Meta ℕ (λ i. i) marks (some (some 2)) disk
        ≡ some r)
      × IsRecovered Log Meta
          (memory_redb-IsLawful ℕ)
          (memory_redb-IsLawful Name)
          ℕ
          (λ i. i)
          marks
          (some 2)
          r)
unfolding read_committed get_meta get list_cmp
recover_consistency-IsRecovered_example =
    recover_consistency-IsRecovered Log Meta (memory_redb-IsLawful ℕ) (memory_redb-IsLawful Name) ℕ
      (λ i. i) marks (some 2) disk ((refl, tt), (tt, tt)) (λ b e. readable b)
  where
    readable : (b : Bytes) → (m : Option ℕ) × (marks.dec b ≡ some m)
    readable [] = (none, refl)
    readable (i ∷ b) = (some i, refl)

-- A disk that needs no repair.
abbrev healthy : Disk Log Meta
healthy = record { log = (3, 1 ∷ []) ∷ []; meta = (key_committed, 3 ∷ []) ∷ [] }

healthy_readable : (b : Bytes) → (m : Option ℕ) × (marks.dec b ≡ some m)
healthy_readable [] = (none, refl)
healthy_readable (i ∷ b) = (some i, refl)

bounded : (b : Bytes) (c : ℕ) → some (3 ∷ []) ≡ some b → marks.dec b ≡ some (some c) → c ≤ 3
bounded [] c e f = absurd (ground arith)
bounded (i ∷ b) c e f = ground arith

healthy-IsRecovered :
    IsRecovered Log Meta
      (memory_redb-IsLawful ℕ)
      (memory_redb-IsLawful Name)
      ℕ
      (λ i. i)
      marks
      (some 2)
      healthy
unfolding first_log_index reachable read_committed get_meta get list_cmp last_log_index last_key
healthy-IsRecovered = record {
  starts = omega arith;
  served = λ b c e f. (3, (refl, bounded b c e f));
}

-- Entries and votes are numbers too.
abbrev numbers : Codec ℕ
numbers = record { enc = λ n. some (n ∷ []); dec = λ b. elim b [ [] ↦ none | n ∷ rest ↦ some n ] }

abbrev served : LogStore Log Meta
served = record { disk = healthy; pending = []; jobs = [] }

recover_consistency-id_example :
    recover_consistency Log Meta ℕ (λ i. i) marks (some (some 2)) healthy ≡ some healthy
recover_consistency-id_example =
    recover_consistency-id Log Meta (memory_redb-IsLawful ℕ) (memory_redb-IsLawful Name) ℕ (λ i. i)
      marks (some 2) healthy healthy-IsRecovered (λ b e. healthy_readable b)

last_index-read_log_committed_example :
    (last : ℕ) × ((last_index Log Meta served ≡ some last) × (3 ≤ last))
unfolding read_log_committed served_commit read_committed get_meta get list_cmp last_index
    last_log_index pending_last last_key
last_index-read_log_committed_example =
    last_index-read_log_committed Log Meta ℕ ℕ ℕ (λ i. i) (λ i. i) numbers numbers marks numbers
      served 3 refl

visible-truncate_flushed_example : visible Log Meta 6 (truncate_flushed Log Meta 5 store) ≡ none
visible-truncate_flushed_example =
    visible-truncate_flushed Log Meta (memory_redb-IsLawful ℕ) 6 5 store
