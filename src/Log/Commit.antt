-- ===== src/Log/Commit.antt =====
-- The commit that the log store tells openraft is one that the log can serve.
use hermesmq.Prelude.{
  ℕ, ◌≤◌, Option, none, some, ◌≡◌, arith, leb, Bool-cases, Option-cases, inl, inr, subst,
}
use hermesmq.Ord.{nat_ord, list_ord}
use hermesmq.Types.{Name, Bytes}
use hermesmq.Store.{Redb, read_committed}
use hermesmq.Log.{Codec, LogStore, last_index}
use hermesmq.Log.Entries.{served_commit, read_log_committed}

module _ (L : Redb ℕ) (M : Redb Name) (LogId Entry Vote : Type 0) (index : LogId → ℕ)
    (log_id : Entry → LogId) (entries : Codec Entry) (ids : Codec LogId)
    (marks : Codec (Option LogId)) (votes : Codec Vote) where
  -- A position that is told is covered by the log.
  abbrev Served : LogStore L M → Option LogId → Type 0
  Served s none = Unit
  Served s (some c) = (last : ℕ) × ((last_index L M s ≡ some last) × (index c ≤ last))

  abbrev Told : LogStore L M → Option (Option LogId) → Type 0
  Told s none = Unit
  Told s (some m) = Served s m

  served_commit-Served :
      (c : LogId) (s : LogStore L M)
      → Served s (served_commit L M LogId Entry Vote index log_id entries ids marks votes c s)
  unfolding served_commit
  served_commit-Served c s = elim (Option-cases (last_index L M s)) [
    | inl h ↦ rw (served_commit, h) tt
    | inr (last, h) ↦ elim (Bool-cases (leb (index c) last)) [
      | inl k ↦ rw (served_commit, h, k) (last, (h, ground arith))
      | inr k ↦ rw (served_commit, h, k) tt
    ]
  ]

  read_log_committed-Told :
      (s : LogStore L M)
      → Told s (read_log_committed L M LogId Entry Vote index log_id entries ids marks votes s)
  unfolding read_log_committed
  read_log_committed-Told s = elim (Option-cases (read_committed L M s.disk)) [
    | inl h ↦ rw (read_log_committed, h) tt
    | inr (b, h) ↦ elim (Option-cases (marks.dec b)) [
      | inl k ↦ rw (read_log_committed, h, k) tt
      | inr (m, k) ↦ told b m h k
    ]
  ]
    where
      told :
          (b : Bytes) (m : Option LogId)
          → read_committed L M s.disk ≡ some b
          → marks.dec b ≡ some m
          → Told s (read_log_committed L M LogId Entry Vote index log_id entries ids marks votes s)
      told b none h k = rw (read_log_committed, h, k) tt
      told b (some c) h k = rw (read_log_committed, h, k) (served_commit-Served c s)

  -- `read_committed` never tells a position beyond the last entry, on the disk or in memory.
  pub last_index-read_log_committed :
      (s : LogStore L M) (c : LogId)
      → read_log_committed L M LogId Entry Vote index log_id entries ids marks votes s
        ≡ some (some c)
      → (last : ℕ) × ((last_index L M s ≡ some last) × (index c ≤ last))
  last_index-read_log_committed s c e = subst (Told s) e (read_log_committed-Told s)
