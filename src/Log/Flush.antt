-- ===== src/Log/Flush.antt =====
-- While the flusher works and appends come in, a reader of one moment finds the log as it was appended.
use hermesmq.Prelude.{
  ℕ, List, [], ◌∷◌, ◌++◌, true, false, Option, some, ◌≡◌, refl, arith, Bool-cases, inl, inr,
  if◌then◌else◌, ◌==◌, All, subst, sym, ◌∙◌, ap, append_assoc,
}
use hermesmq.Ord.{nat_ord, list_ord}
use hermesmq.Map.{Map, get, insert}
use hermesmq.Map.Lookup.{get-insert}
use hermesmq.Types.{Name, Bytes}
use hermesmq.Store.{Redb, IsLawful}
use hermesmq.Store.Contents.{last_write}
use hermesmq.Log.{insert_pending, LogStore, Stage, waiting, taken, appended, Flusher, append_batch}
use hermesmq.Log.Queued.{
  queued, queued-append, Held, written, Once, Unwritten, Once-split, get-insert_pending,
  last_write-unwritten, written-append,
}
use hermesmq.Log.Events.{
  shown, visible, in_hand, Stored, FlusherInv, LogEvent, flushing, appending, log_event, log_events,
  event_writes, appends, unfinished,
}
use hermesmq.Log.Steps.{keep, flush_step_lem}

All-join {κ} :
    (P : ℕ × Bytes → Type κ) (xs ys : List (ℕ × Bytes)) → All P xs → All P ys → All P (xs ++ ys)
All-join P [] ys a b = b
All-join P (x ∷ xs) ys a b = (a.0, All-join P xs ys a.1 b)

-- An index that the first of two batches writes, the second does not write.
written_apart :
    (i : ℕ) (xs ys : List (ℕ × Bytes))
    → Once (xs ++ ys)
    → written i xs ≡ true
    → written i ys ≡ false
unfolding written
written_apart i [] ys o w = absurd (ground (arith, w))
written_apart i (x ∷ xs) ys o w = elim (Bool-cases (i == x.0)) [
  | inl e ↦
      let same : i ≡ x.0 = ground arith in rw same (ground (arith, written-append x.0 xs ys, o.0))
  | inr e ↦ written_apart i xs ys o.1 (ground (arith, w, e))
]

Once-Unwritten : (xs ys : List (ℕ × Bytes)) → Once (xs ++ ys) → All (Unwritten ys) xs
Once-Unwritten [] ys o = tt
Once-Unwritten (x ∷ xs) ys o =
    (ground (arith, written-append x.0 xs ys, o.0), Once-Unwritten xs ys o.1)

Once-first : (xs ys : List (ℕ × Bytes)) → Once (xs ++ ys) → Once xs
Once-first [] ys o = tt
Once-first (x ∷ xs) ys o = (ground (arith, written-append x.0 xs ys, o.0), Once-first xs ys o.1)

last_write-append :
    (i : ℕ) (xs ys : List (ℕ × Bytes)) (old : Option Bytes)
    → last_write i (xs ++ ys) old ≡ last_write i ys (last_write i xs old)
unfolding last_write
last_write-append i [] ys old = refl
last_write-append i ((index, b) ∷ xs) ys old =
    last_write-append i xs ys (if i == index then some b else old)

-- A batch that writes no index twice is in memory once it is put there.
Held-insert_pending :
    (es : List (ℕ × Bytes)) (pending : Map ℕ Bytes)
    → Once es
    → All (Held (insert_pending es pending)) es
unfolding insert_pending
Held-insert_pending [] pending o = tt
Held-insert_pending ((index, b) ∷ es) pending o =
    let first = get-insert_pending index es (insert index b pending) in
    let there : get index (insert index b pending) ≡ some b =
      rw (get-insert index index b pending) (ground arith) in
    (
      first ∙ last_write-unwritten index es _ o.0 ∙ there,
      Held-insert_pending es (insert index b pending) o.1,
    )

module _ (L : Redb ℕ) (M : Redb Name) (lawful : IsLawful L) where
  -- An append to memory is at once what a reader finds.
  visible-append_batch :
      (i : ℕ) (batch : List (ℕ × Bytes)) (callback : Option ℕ) (s : LogStore L M)
      → visible L M i (append_batch L M batch callback s) ≡ last_write i batch (visible L M i s)
  unfolding visible append_batch last_write
  visible-append_batch i batch callback s =
      rw (get-insert_pending i batch s.pending) (shown_lem batch (get i s.pending))
    where
      shown_lem :
          (es : List (ℕ × Bytes)) (p : Option Bytes)
          → shown (last_write i es p) (get i (L.entries s.disk.log))
            ≡ last_write i es (shown p (get i (L.entries s.disk.log)))
      shown_lem [] p = refl
      shown_lem ((index, c) ∷ es) p = ground (arith, shown_lem es p, shown_lem es (some c))

  stored-append_batch :
      (stage : Stage L M) (batch : List (ℕ × Bytes)) (callback : Option ℕ) (s : LogStore L M)
      → Once (in_hand L M stage ++ (queued s.jobs ++ batch))
      → Stored L M stage s
      → Stored L M stage (append_batch L M batch callback s)
  unfolding append_batch in_hand
  stored-append_batch waiting batch callback s o h = tt
  stored-append_batch (taken b) batch callback s o h = tt
  stored-append_batch (appended b) batch callback s o h = λ i w.
      h i w
      ∙ sym (get-insert_pending i batch s.pending ∙ last_write-unwritten i batch _ (apart i w))
    where
      apart : (i : ℕ) → written i b.entries ≡ true → written i batch ≡ false
      apart i w =
          written_apart i (b.entries ++ queued s.jobs) batch
            (subst Once (sym (append_assoc b.entries (queued s.jobs) batch)) o)
            (rw (written-append i b.entries (queued s.jobs), w) refl)

  append_batch-FlusherInv :
      (stage : Stage L M) (batch : List (ℕ × Bytes)) (callback : Option ℕ) (s : LogStore L M)
      → Once (in_hand L M stage ++ (queued s.jobs ++ batch))
      → FlusherInv L M stage s
      → FlusherInv L M stage (append_batch L M batch callback s)
  unfolding append_batch
  append_batch-FlusherInv stage batch callback s o v =
      let old = in_hand L M stage ++ queued s.jobs in
      let assoc = append_assoc (in_hand L M stage) (queued s.jobs) batch in
      let (once, _) = Once-split old batch (subst Once (sym assoc) o) in
      let all : All (Held (insert_pending batch s.pending)) (old ++ batch) =
        All-join (Held (insert_pending batch s.pending)) old batch
          (keep batch old s.pending (insert_pending batch s.pending)
            (λ j u. get-insert_pending j batch s.pending ∙ last_write-unwritten j batch _ u) v.held
            (Once-Unwritten old batch (subst Once (sym assoc) o)))
          (Held-insert_pending batch s.pending once) in
      record {
        held =
            subst (All (Held (insert_pending batch s.pending)))
              (assoc ∙ ap (λ q. in_hand L M stage ++ q) (sym (queued-append s.jobs batch callback)))
              all;
        stored = stored-append_batch stage batch callback s o v.stored;
      }

  -- Where a step or an append has been made, the writes that follow repeat none.
  event_lem :
      (e : LogEvent L M) (i : ℕ) (rest : List (ℕ × Bytes)) (f : Flusher L M)
      → FlusherInv L M f.stage f.store
      → Once (unfinished L M f ++ (event_writes L M e ++ rest))
      → let g = log_event L M e f in
        (visible L M i g.store ≡ last_write i (event_writes L M e) (visible L M i f.store))
        × FlusherInv L M g.stage g.store
        × Once (unfinished L M g ++ rest)
  unfolding log_event event_writes last_write append_batch
  event_lem (flushing step) i rest f v o =
      let k = flush_step_lem L M lawful step i rest f.stage f.store v o in (k.seen, k.inv, k.once)
  event_lem (appending batch callback) i rest f v o =
      let hand = in_hand L M f.stage in
      let jobs = queued f.store.jobs in
      let split : Once ((hand ++ (jobs ++ batch)) ++ rest) =
        subst Once
          (sym (append_assoc (hand ++ jobs) batch rest)
            ∙ ap (λ xs. xs ++ rest) (append_assoc hand jobs batch))
          o in
      (
        visible-append_batch i batch callback f.store,
        append_batch-FlusherInv f.stage batch callback f.store
            (Once-first (hand ++ (jobs ++ batch)) rest split) v,
        subst (λ q. Once ((hand ++ q) ++ rest)) (sym (queued-append f.store.jobs batch callback))
            split,
      )

  -- Whatever the flusher does, step by step, while batches are appended, a reader who looks at the disk
  -- and the memory at one moment finds, at each index, the last bytes that were appended there since
  -- the start, and else what was there at the start. At the start every write that the flusher has not
  -- finished is in memory, and a batch that it has written is on the disk; no index is written twice
  -- among these writes and those appended.
  pub visible-log_events :
      (es : List (LogEvent L M)) (i : ℕ) (f : Flusher L M)
      → FlusherInv L M f.stage f.store
      → Once (unfinished L M f ++ appends L M es)
      → visible L M i (log_events L M es f).store
        ≡ last_write i (appends L M es) (visible L M i f.store)
  unfolding log_events appends last_write
  visible-log_events [] i f v o = refl
  visible-log_events (e ∷ es) i f v o =
      let (seen, inv, once) = event_lem e i (appends L M es) f v o in
      visible-log_events es i (log_event L M e f) inv once
      ∙ ap (last_write i (appends L M es)) seen
      ∙ sym (last_write-append i (event_writes L M e) (appends L M es) (visible L M i f.store))
