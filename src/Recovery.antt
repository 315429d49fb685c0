-- ===== src/Recovery.antt =====
-- crates/hermesmq-core/src/engine/mod.rs: `recover_consistency`, which repairs a damaged disk before
-- openraft reads it.

pub mod Orphans
pub mod Repair
use hermesmq.Prelude.{ℕ, ◌+◌, Bool, Option, none, some, if◌then◌else◌, ltb}
use hermesmq.Ord.{nat_ord, list_ord}
use hermesmq.Types.{Name}
use hermesmq.Store.{
  Redb, Disk, first_log_index, last_log_index, purge_log_upto, delete_meta, read_committed,
  key_committed,
}
use hermesmq.Log.{Codec, key_purged, later}

module _ (L : Redb ℕ) (M : Redb Name) where
  abbrev pub base_next : Option ℕ → ℕ
  base_next none = 0
  base_next (some snapshot) = snapshot + 1

  unfoldable pub purge_all : Disk L M → Disk L M
  purge_all d = elim (last_log_index L M d) [ none ↦ d | some last ↦ purge_log_upto L M last d ]

  -- A log that starts after the place where replay begins is dropped.
  unfoldable pub drop_orphaned : Option ℕ → Disk L M → Disk L M
  drop_orphaned snapshot d = elim (first_log_index L M d) [
    | none ↦ d
    | some first ↦
        if ltb (base_next snapshot) first then delete_meta L M key_purged (purge_all d) else d
  ]

  unfoldable pub reachable : Option ℕ → Disk L M → Option ℕ
  reachable snapshot d = later snapshot (last_log_index L M d)

  -- `reachable.map(|r| c.index > r).unwrap_or(true)`
  abbrev pub is_unbacked : Option ℕ → ℕ → Bool
  is_unbacked none c = Bool.true
  is_unbacked (some r) c = ltb r c

  module _ (LogId : Type 0) (index : LogId → ℕ) (marks : Codec (Option LogId)) where
    -- A commit past what the disk can serve is dropped; `none` is an error.
    unfoldable pub drop_unbacked : Option ℕ → Disk L M → Option (Disk L M)
    drop_unbacked snapshot d = elim (read_committed L M d) [
      | none ↦ some d
      | some bytes ↦ elim (marks.dec bytes) [
        | none ↦ none
        | some none ↦ some d
        | some (some c) ↦
            if is_unbacked (reachable snapshot d) (index c)
            then some (delete_meta L M key_committed d)
            else some d
      ]
    ]

    -- `snapshot` is what `snapshot_last_index` returns.
    unfoldable pub recover_consistency : Option (Option ℕ) → Disk L M → Option (Disk L M)
    recover_consistency none d = none
    recover_consistency (some snapshot) d = drop_unbacked snapshot (drop_orphaned snapshot d)
