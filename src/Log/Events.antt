-- ===== src/Log/Events.antt =====
-- The log store with its flusher, as a state that the steps of the flusher and appends change.
use hermesmq.Prelude.{ℕ, List, [], ◌∷◌, ◌++◌, true, Option, none, some, ◌≡◌, All}
use hermesmq.Ord.{nat_ord, list_ord}
use hermesmq.Map.{get}
use hermesmq.Types.{Name, Bytes}
use hermesmq.Store.{Redb}
use hermesmq.Log.{
  LogStore, Stage, waiting, taken, appended, Flusher, FlushStep, flush_step, append_batch,
}
use hermesmq.Log.Queued.{queued, Held, written}

-- What a reader finds: the bytes in memory, else those on the disk.
abbrev pub shown : Option Bytes → Option Bytes → Option Bytes
shown (some b) stored = some b
shown none stored = stored

module _ (L : Redb ℕ) (M : Redb Name) where
  unfoldable pub visible : ℕ → LogStore L M → Option Bytes
  visible i s = shown (get i s.pending) (get i (L.entries s.disk.log))

  -- The writes of the batch that the flusher holds.
  unfoldable pub in_hand : Stage L M → List (ℕ × Bytes)
  in_hand waiting = []
  in_hand (taken b) = b.entries
  in_hand (appended b) = b.entries

  -- A batch that is on the disk, has there what is in memory.
  abbrev pub Stored : Stage L M → LogStore L M → Type 0
  Stored (appended b) s =
      (i : ℕ) → written i b.entries ≡ true → get i (L.entries s.disk.log) ≡ get i s.pending
  Stored _ s = Unit

  -- Every write that is not finished is in memory.
  pub record FlusherInv (stage : Stage L M) (s : LogStore L M) : Type 0 where
    pub held : All (Held s.pending) (in_hand stage ++ queued s.jobs)
    pub stored : Stored stage s

  -- What happens to the store: a step of the flusher, or an append.
  pub data LogEvent : Type 0 where
    flushing : FlushStep L M → LogEvent
    appending : List (ℕ × Bytes) → Option ℕ → LogEvent

  unfoldable pub log_event : LogEvent → Flusher L M → Flusher L M
  log_event (flushing step) f = (flush_step L M step f.stage f.store).0
  log_event (appending batch callback) f = record f {
    store = append_batch L M batch callback f.store;
  }

  unfoldable pub log_events : List LogEvent → Flusher L M → Flusher L M
  log_events [] f = f
  log_events (e ∷ es) f = log_events es (log_event e f)

  -- the writes that the events append
  unfoldable pub event_writes : LogEvent → List (ℕ × Bytes)
  event_writes (flushing step) = []
  event_writes (appending batch callback) = batch

  unfoldable pub appends : List LogEvent → List (ℕ × Bytes)
  appends [] = []
  appends (e ∷ es) = event_writes e ++ appends es

  -- the writes that the flusher has not finished
  abbrev pub unfinished : Flusher L M → List (ℕ × Bytes)
  unfinished f = in_hand f.stage ++ queued f.store.jobs
