-- ===== src/Log/Queued.antt =====
-- The writes that wait in the queue of the flusher, and what a batch of writes leaves behind.
use hermesmq.Prelude.{
  ℕ, ◌+◌, List, [], ◌∷◌, ◌++◌, Bool, true, false, Option, none, some, ◌≡◌, refl, arith,
  if◌then◌else◌, ◌==◌, Bool-cases, inl, inr, All, sym, ◌∙◌, append_assoc, append_nil,
}
use hermesmq.Ord.{nat_ord}
use hermesmq.Map.{Map, get, insert, remove}
use hermesmq.Map.Lookup.{get-insert, get-remove}
use hermesmq.Types.{Bytes}
use hermesmq.Store.Contents.{last_write}
use hermesmq.Log.{
  FlushJob, append_job, barrier_job, Batch, take_jobs, is_full, extend, total_bytes, remove_written,
  insert_pending,
}

-- The writes of the jobs, in their order.
unfoldable pub queued : List FlushJob → List (ℕ × Bytes)
queued [] = []
queued (append_job es callback ∷ jobs) = es ++ queued jobs
queued (barrier_job done ∷ jobs) = queued jobs

-- A round takes the writes from the front of the queue, in order, and leaves the rest.
pub queued-take_jobs :
    (jobs : List FlushJob) (b : Batch)
    → (take_jobs jobs b).0.entries ++ queued (take_jobs jobs b).1 ≡ b.entries ++ queued jobs
unfolding take_jobs queued
queued-take_jobs [] b = refl
queued-take_jobs (barrier_job done ∷ jobs) b = refl
queued-take_jobs (append_job es callback ∷ jobs) b =
    let next : Batch = record {
      entries = b.entries ++ es;
      callbacks = extend b.callbacks callback;
      barriers = b.barriers;
      bytes = b.bytes + total_bytes es;
    } in
    let assoc = append_assoc b.entries es (queued jobs) in
    let rest = queued-take_jobs jobs next in
    elim (Bool-cases (is_full next)) [ inl f ↦ rw f assoc | inr f ↦ rw f (rest ∙ assoc) ]

pub queued-append :
    (jobs : List FlushJob) (es : List (ℕ × Bytes)) (callback : Option ℕ)
    → queued (jobs ++ append_job es callback ∷ []) ≡ queued jobs ++ es
unfolding queued
queued-append [] es callback = append_nil es
queued-append (append_job ds c ∷ jobs) es callback =
    rw (queued-append jobs es callback) (sym (append_assoc ds (queued jobs) es))
queued-append (barrier_job done ∷ jobs) es callback = queued-append jobs es callback

-- A write that is in memory, with the same bytes.
abbrev pub Held : Map ℕ Bytes → ℕ × Bytes → Type 0
Held pending e = get e.0 pending ≡ some e.1

-- An index that a batch writes.
unfoldable pub written : ℕ → List (ℕ × Bytes) → Bool
written i [] = false
written i (e ∷ es) = let rest = written i es in if i == e.0 then true else rest

-- No index is written twice.
abbrev pub Once : List (ℕ × Bytes) → Type 0
Once [] = Unit
Once (e ∷ es) = (written e.0 es ≡ false) × Once es

abbrev pub Unwritten : List (ℕ × Bytes) → ℕ × Bytes → Type 0
Unwritten es e = written e.0 es ≡ false

pub All-split {κ} :
    (P : ℕ × Bytes → Type κ) (xs ys : List (ℕ × Bytes)) → All P (xs ++ ys) → All P xs × All P ys
All-split P [] ys a = (tt, a)
All-split P (x ∷ xs) ys a = let (p, q) = All-split P xs ys a.1 in ((a.0, p), q)

pub written-append :
    (i : ℕ) (xs ys : List (ℕ × Bytes))
    → written i (xs ++ ys) ≡ (if written i xs then true else written i ys)
unfolding written
written-append i [] ys = refl
written-append i (x ∷ xs) ys = ground (arith, written-append i xs ys)

Unwritten-head :
    (x : ℕ × Bytes) (xs ys : List (ℕ × Bytes))
    → written x.0 ys ≡ false
    → All (Unwritten xs) ys
    → All (Unwritten (x ∷ xs)) ys
unfolding written
Unwritten-head x xs [] h a = tt
Unwritten-head x xs (y ∷ ys) h a = (ground (arith, a.0), Unwritten-head x xs ys (ground arith) a.1)

Unwritten-nothing : (ys : List (ℕ × Bytes)) → All (Unwritten []) ys
unfolding written
Unwritten-nothing [] = tt
Unwritten-nothing (y ∷ ys) = (refl, Unwritten-nothing ys)

pub Once-split : (xs ys : List (ℕ × Bytes)) → Once (xs ++ ys) → Once ys × All (Unwritten xs) ys
Once-split [] ys o = (o, Unwritten-nothing ys)
Once-split (x ∷ xs) ys o =
    let (p, q) = Once-split xs ys o.1 in
    (p, Unwritten-head x xs ys (ground (arith, written-append x.0 xs ys, o.0)) q)

pub Once-join :
    (xs ys : List (ℕ × Bytes)) → Once xs → Once ys → All (Unwritten ys) xs → Once (xs ++ ys)
Once-join [] ys o p u = p
Once-join (x ∷ xs) ys o p u =
    (ground (arith, written-append x.0 xs ys, o.0, u.0), Once-join xs ys o.1 p u.1)

pub get-remove_written :
    (i : ℕ) (es : List (ℕ × Bytes)) (pending : Map ℕ Bytes)
    → get i (remove_written es pending) ≡ (if written i es then none else get i pending)
unfolding remove_written written
get-remove_written i [] pending = refl
get-remove_written i ((index, b) ∷ es) pending =
    rw (get-remove_written i es (remove index pending), get-remove i index pending) (ground arith)

pub get-insert_pending :
    (i : ℕ) (es : List (ℕ × Bytes)) (pending : Map ℕ Bytes)
    → get i (insert_pending es pending) ≡ last_write i es (get i pending)
unfolding insert_pending last_write
get-insert_pending i [] pending = refl
get-insert_pending i ((index, b) ∷ es) pending =
    rw (get-insert_pending i es (insert index b pending), get-insert i index b pending)
      (ground arith)

pub last_write-unwritten :
    (i : ℕ) (es : List (ℕ × Bytes)) (old : Option Bytes)
    → written i es ≡ false
    → last_write i es old ≡ old
unfolding last_write written
last_write-unwritten i [] old h = refl
last_write-unwritten i ((index, c) ∷ es) old h =
    let other : (i == index) ≡ false = ground arith in
    rw other (last_write-unwritten i es old (ground arith))

last_write-Held :
    (i : ℕ) (b : Bytes) (es : List (ℕ × Bytes)) (pending : Map ℕ Bytes)
    → get i pending ≡ some b
    → All (Held pending) es
    → last_write i es (some b) ≡ some b
unfolding last_write
last_write-Held i b [] pending e h = refl
last_write-Held i b ((index, c) ∷ es) pending e h = elim (Bool-cases (i == index)) [
  | inl s ↦
      let same : i ≡ index = ground arith in
      let bytes : some c ≡ some b = cc (same, e, h.0) in
      rw (s, bytes) (last_write-Held i b es pending e h.1)
  | inr s ↦ rw s (last_write-Held i b es pending e h.1)
]

-- The write of a batch that is in memory leaves the bytes in memory at every index that it writes.
pub last_write_lem :
    (i : ℕ) (es : List (ℕ × Bytes)) (pending : Map ℕ Bytes) (old : Option Bytes)
    → All (Held pending) es
    → last_write i es old ≡ (if written i es then get i pending else old)
unfolding last_write written
last_write_lem i [] pending old h = refl
last_write_lem i ((index, c) ∷ es) pending old h = elim (Bool-cases (i == index)) [
  | inl s ↦
      let same : i ≡ index = ground arith in
      let there : get i pending ≡ some c = cc (same, h.0) in
      rw (s, last_write-Held i c es pending there h.1, there) refl
  | inr s ↦ rw (s, last_write_lem i es pending old h.1) refl
]

pub written-Held :
    (i : ℕ) (es : List (ℕ × Bytes)) (pending : Map ℕ Bytes)
    → written i es ≡ true
    → All (Held pending) es
    → (b : Bytes) × (get i pending ≡ some b)
unfolding written
written-Held i [] pending w h = ground arith
written-Held i ((index, c) ∷ es) pending w h = elim (Bool-cases (i == index)) [
  | inl s ↦ let same : i ≡ index = ground arith in (c, cc (same, h.0))
  | inr s ↦ written-Held i es pending (ground arith) h.1
]
