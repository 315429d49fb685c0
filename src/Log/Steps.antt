-- ===== src/Log/Steps.antt =====
-- A step of the flusher changes where an entry is kept, not what a reader of one moment finds.
use hermesmq.Prelude.{
  ℕ, List, [], ◌∷◌, ◌++◌, Bool, true, false, none, ◌≡◌, refl, arith, Bool-cases, inl, inr, is_empty,
  if◌then◌else◌, All, subst, sym, ◌∙◌, append_assoc,
}
use hermesmq.Ord.{nat_ord, list_ord}
use hermesmq.Map.{Map, get}
use hermesmq.Types.{Name, Bytes}
use hermesmq.Store.{Redb, IsLawful, Disk, append_log}
use hermesmq.Store.Contents.{get-append_log}
use hermesmq.Log.{
  Batch, empty_batch, remove_written, LogStore, Stage, waiting, taken, appended, Flusher, FlushStep,
  take_batch, write_batch, remove_batch, start_batch, store_batch, clear_batch, flush_step,
}
use hermesmq.Log.Queued.{
  queued, queued-take_jobs, Held, written, Once, Unwritten, All-split, Once-split,
  get-remove_written, last_write_lem, written-Held,
}
use hermesmq.Log.Events.{shown, visible, in_hand, FlusherInv, unfinished}

-- What a batch does not write stays in memory, whatever the batch puts there or takes away.
pub keep :
    (batch es : List (ℕ × Bytes)) (pending after : Map ℕ Bytes)
    → ((i : ℕ) → written i batch ≡ false → get i after ≡ get i pending)
    → All (Held pending) es
    → All (Unwritten batch) es
    → All (Held after) es
keep batch [] pending after same h u = tt
keep batch (e ∷ es) pending after same h u =
    (same e.0 u.0 ∙ h.0, keep batch es pending after same h.1 u.1)

module _ (L : Redb ℕ) (M : Redb Name) (lawful : IsLawful L) where
  -- What a step keeps: what a reader finds, the invariant, and that no write is repeated by those that
  -- follow.
  pub record Kept (i : ℕ) (rest : List (ℕ × Bytes)) (s : LogStore L M) (f : Flusher L M)
      : Type 0 where
    pub seen : visible L M i f.store ≡ visible L M i s
    pub inv : FlusherInv L M f.stage f.store
    pub once : Once (unfinished L M f ++ rest)

  start_batch_lem :
      (i : ℕ) (rest : List (ℕ × Bytes)) (s : LogStore L M)
      → FlusherInv L M waiting s
      → Once (queued s.jobs ++ rest)
      → Kept i rest s (start_batch L M s).0
  unfolding start_batch visible in_hand
  start_batch_lem i rest s v o = elim (Bool-cases (is_empty s.jobs)) [
    | inl e ↦ rw (e, start_batch) (record { seen = refl; inv = v; once = o })
    | inr e ↦
        let all = queued-take_jobs s.jobs empty_batch in
        rw (e, start_batch)
          (record {
            seen = refl;
            inv = record { held = subst (All (Held s.pending)) (sym all) v.held; stored = tt };
            once = subst (λ xs. Once (xs ++ rest)) (sym all) o;
          })
  ]

  -- The writes behind a batch.
  Once-behind :
      (batch later rest : List (ℕ × Bytes)) → Once ((batch ++ later) ++ rest) → Once (later ++ rest)
  Once-behind batch later rest o =
      (Once-split batch (later ++ rest) (subst Once (append_assoc batch later rest) o)).0

  written_lem :
      (i : ℕ) (es : List (ℕ × Bytes)) (disk : Disk L M) (pending : Map ℕ Bytes)
      → All (Held pending) es
      → shown (get i pending) (get i (L.entries (append_log L M es disk).log))
        ≡ shown (get i pending) (get i (L.entries disk.log))
  written_lem i es disk pending h =
      rw
        (
          get-append_log L M lawful i es disk,
          last_write_lem i es pending (get i (L.entries disk.log)) h,
        )
        (elim (Bool-cases (written i es)) [
          | inl w ↦ let (b, e) = written-Held i es pending w h in rw (w, e) refl
          | inr w ↦ rw w refl
        ])

  stored_lem :
      (i : ℕ) (es : List (ℕ × Bytes)) (disk : Disk L M) (pending : Map ℕ Bytes)
      → All (Held pending) es
      → written i es ≡ true
      → get i (L.entries (append_log L M es disk).log) ≡ get i pending
  stored_lem i es disk pending h w =
      rw
        (
          get-append_log L M lawful i es disk,
          last_write_lem i es pending (get i (L.entries disk.log)) h,
          w,
        )
        refl

  nothing_written : (i : ℕ) (es : List (ℕ × Bytes)) → is_empty es ≡ true → written i es ≡ false
  unfolding written
  nothing_written i [] e = refl
  nothing_written i (x ∷ es) e = absurd (ground arith)

  store_batch_lem :
      (stored : Bool) (i : ℕ) (rest : List (ℕ × Bytes)) (b : Batch) (s : LogStore L M)
      → FlusherInv L M (taken b) s
      → Once ((b.entries ++ queued s.jobs) ++ rest)
      → Kept i rest s (store_batch L M stored b s).0
  unfolding store_batch visible in_hand
  store_batch_lem stored i rest b s v o =
      let (hand, others) = All-split (Held s.pending) b.entries (queued s.jobs) v.held in
      elim (Bool-cases (is_empty b.entries)) [
        | inl e ↦
            rw (e, store_batch)
              (record {
                seen = refl;
                inv = record {
                  held = v.held;
                  stored = λ j w. absurd (ground (arith, nothing_written j b.entries e, w));
                };
                once = o;
              })
        | inr e ↦ elim (Bool-cases stored) [
          | inl t ↦
              rw (e, t, store_batch)
                (record {
                  seen = written_lem i b.entries s.disk s.pending hand;
                  inv = record {
                    held = v.held;
                    stored = λ j w. stored_lem j b.entries s.disk s.pending hand w;
                  };
                  once = o;
                })
          | inr t ↦
              rw (e, t, store_batch)
                (record {
                  seen = refl;
                  inv = record { held = others; stored = tt };
                  once = Once-behind b.entries (queued s.jobs) rest o;
                })
        ]
      ]

  clear_batch_lem :
      (i : ℕ) (rest : List (ℕ × Bytes)) (b : Batch) (s : LogStore L M)
      → FlusherInv L M (appended b) s
      → Once ((b.entries ++ queued s.jobs) ++ rest)
      → Kept i rest s (clear_batch L M b s).0
  unfolding clear_batch visible in_hand
  clear_batch_lem i rest b s v o =
      let (hand, others) = All-split (Held s.pending) b.entries (queued s.jobs) v.held in
      let behind = subst Once (append_assoc b.entries (queued s.jobs) rest) o in
      let apart = (Once-split b.entries (queued s.jobs ++ rest) behind).1 in
      record {
        seen = rw (get-remove_written i b.entries s.pending) (found hand);
        inv = record {
          held =
              keep b.entries (queued s.jobs) s.pending (remove_written b.entries s.pending)
                (λ j u. rw (get-remove_written j b.entries s.pending, u) refl) others
                (All-split (Unwritten b.entries) (queued s.jobs) rest apart).0;
          stored = tt;
        };
        once = Once-behind b.entries (queued s.jobs) rest o;
      }
    where
      found :
          All (Held s.pending) b.entries
          → shown
              (if written i b.entries then none else get i s.pending)
              (get i (L.entries s.disk.log))
            ≡ shown (get i s.pending) (get i (L.entries s.disk.log))
      found hand = elim (Bool-cases (written i b.entries)) [
        | inl w ↦
            let (bytes, e) = written-Held i b.entries s.pending w hand in
            rw (w, v.stored i w, e) refl
        | inr w ↦ rw w refl
      ]

  pub flush_step_lem :
      (step : FlushStep L M) (i : ℕ) (rest : List (ℕ × Bytes)) (stage : Stage L M)
      (s : LogStore L M)
      → FlusherInv L M stage s
      → Once ((in_hand L M stage ++ queued s.jobs) ++ rest)
      → Kept i rest s (flush_step L M step stage s).0
  unfolding flush_step in_hand
  flush_step_lem take_batch i rest waiting s v o = start_batch_lem i rest s v o
  flush_step_lem take_batch i rest (taken b) s v o = record { seen = refl; inv = v; once = o }
  flush_step_lem take_batch i rest (appended b) s v o = record { seen = refl; inv = v; once = o }
  flush_step_lem (write_batch stored) i rest waiting s v o = record {
    seen = refl;
    inv = v;
    once = o;
  }
  flush_step_lem (write_batch stored) i rest (taken b) s v o = store_batch_lem stored i rest b s v o
  flush_step_lem (write_batch stored) i rest (appended b) s v o = record {
    seen = refl;
    inv = v;
    once = o;
  }
  flush_step_lem remove_batch i rest waiting s v o = record { seen = refl; inv = v; once = o }
  flush_step_lem remove_batch i rest (taken b) s v o = record { seen = refl; inv = v; once = o }
  flush_step_lem remove_batch i rest (appended b) s v o = clear_batch_lem i rest b s v o
