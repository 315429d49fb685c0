-- ===== src/Log/Entries.antt =====
-- crates/hermesmq-core/src/engine/log_store.rs: what openraft calls with its own types: the entries of
-- an append and of a range, the positions of the log, the vote and the commit.
use hermesmq.Prelude.{ℕ, ◌+◌, List, [], ◌∷◌, Option, none, some, if◌then◌else◌, leb}
use hermesmq.Ord.{nat_ord, list_ord}
use hermesmq.Map.{Map, get, range_from}
use hermesmq.Types.{Name, Bytes}
use hermesmq.Store.{
  Redb, Disk, last_log_index, read_log, purge_log_upto, put_meta, get_meta, read_committed,
  save_committed, read_vote, save_vote,
}
use hermesmq.Log.{
  Codec, LogStore, append_batch, last_index, later, pending_last, merged_range, key_purged,
}

module _ (L : Redb ℕ) (M : Redb Name) where
  module _ (LogId Entry Vote : Type 0) (index : LogId → ℕ) (log_id : Entry → LogId)
      (entries : Codec Entry) (ids : Codec LogId) (marks : Codec (Option LogId))
      (votes : Codec Vote) where
    unfoldable pub encode_entries : List Entry → Option (List (ℕ × Bytes))
    encode_entries [] = some []
    encode_entries (e ∷ es) =
        let rest = encode_entries es in
        elim (entries.enc e) [
          | none ↦ none
          | some b ↦ elim rest [ none ↦ none | some batch ↦ some ((index (log_id e), b) ∷ batch) ]
        ]

    -- `none` is an error.
    unfoldable pub append : List Entry → Option ℕ → LogStore L M → Option (LogStore L M)
    append es callback s = elim (encode_entries es) [
      | none ↦ none
      | some batch ↦ some (append_batch L M batch callback s)
    ]

    unfoldable pub decode_entries : Map ℕ Bytes → Option (List Entry)
    decode_entries [] = some []
    decode_entries ((i, b) ∷ m) =
        let rest = decode_entries m in
        elim (entries.dec b) [
          | none ↦ none
          | some e ↦ elim rest [ none ↦ none | some es ↦ some (e ∷ es) ]
        ]

    -- The end of a range that is open is that of the log: its disk at one moment, and its memory later.
    unfoldable pub range_end : Option ℕ → LogStore L M → LogStore L M → ℕ
    range_end (some end) before after = end
    range_end none before after =
        elim (later (last_log_index L M before.disk) (pending_last L M after)) [
          | none ↦ 0
          | some i ↦ i + 1
        ]

    -- The store at the moments at which a reader looks: at the disk and the memory for the last index, and
    -- at the disk and the memory for the entries.
    pub record Reads : Type 0 where
      pub end_disk : LogStore L M
      pub end_pending : LogStore L M
      pub disk : LogStore L M
      pub pending : LogStore L M

    unfoldable pub try_get_log_entries : ℕ → Option ℕ → Reads → Option (List Entry)
    try_get_log_entries start end r =
        decode_entries
          (merged_range L M start (range_end end r.end_disk r.end_pending) r.disk r.pending)

    -- `mark_purged`
    unfoldable pub write_purged : LogId → Disk L M → Option (Disk L M)
    write_purged upto d = elim (ids.enc upto) [
      | none ↦ none
      | some b ↦ some (purge_log_upto L M (index upto) (put_meta L M key_purged b d))
    ]

    unfoldable pub mark_purged : LogId → Disk L M → Option (Disk L M)
    mark_purged upto d = elim (get_meta L M key_purged d) [
      | none ↦ write_purged upto d
      | some bytes ↦ elim (ids.dec bytes) [
        | none ↦ none
        | some current ↦ if leb (index upto) (index current) then some d else write_purged upto d
      ]
    ]

    -- `purge`, once its barrier is done
    unfoldable pub purge_flushed : LogId → LogStore L M → Option (LogStore L M)
    purge_flushed upto s = elim (mark_purged upto s.disk) [
      | none ↦ none
      | some d ↦ some (record s { disk = d; pending = range_from (index upto + 1) s.pending })
    ]

    -- The bytes of an entry: in memory at one moment, or on the disk later.
    unfoldable pub entry_bytes : ℕ → LogStore L M → LogStore L M → Option Bytes
    entry_bytes i before after = elim (get i before.pending) [
      | some b ↦ some b
      | none ↦ elim (read_log L M i (i + 1) after.disk) [ [] ↦ none | e ∷ es ↦ some e.1 ]
    ]

    unfoldable pub last_log_id : Option LogId → Reads → Option (Option LogId)
    last_log_id last_purged r =
        elim (later (last_log_index L M r.end_disk.disk) (pending_last L M r.end_pending)) [
          | none ↦ some last_purged
          | some i ↦ elim (entry_bytes i r.pending r.disk) [
            | none ↦ some last_purged
            | some b ↦ elim (entries.dec b) [ none ↦ none | some e ↦ some (some (log_id e)) ]
          ]
        ]

    unfoldable pub state_from : Option LogId → Reads → Option (Option LogId × Option LogId)
    state_from last_purged r = elim (last_log_id last_purged r) [
      | none ↦ none
      | some last ↦ some (last_purged, last)
    ]

    -- `get_log_state`: the purged and the last id. The first is read from the disk at a moment before the
    -- others; the memory is read for the entry before the disk.
    unfoldable pub get_log_state : LogStore L M → Reads → Option (Option LogId × Option LogId)
    get_log_state first r = elim (get_meta L M key_purged first.disk) [
      | none ↦ state_from none r
      | some b ↦ elim (ids.dec b) [ none ↦ none | some purged ↦ state_from (some purged) r ]
    ]

    unfoldable pub save_log_vote : Vote → LogStore L M → Option (LogStore L M)
    save_log_vote vote s = elim (votes.enc vote) [
      | none ↦ none
      | some b ↦ some (record s { disk = save_vote L M b s.disk })
    ]

    unfoldable pub read_log_vote : LogStore L M → Option (Option Vote)
    read_log_vote s = elim (read_vote L M s.disk) [
      | none ↦ some none
      | some b ↦ elim (votes.dec b) [ none ↦ none | some v ↦ some (some v) ]
    ]

    unfoldable pub save_log_committed : Option LogId → LogStore L M → Option (LogStore L M)
    save_log_committed committed s = elim (marks.enc committed) [
      | none ↦ none
      | some b ↦ some (record s { disk = save_committed L M b s.disk })
    ]

    -- A commit past the last entry is not told.
    unfoldable pub served_commit : LogId → LogStore L M → Option LogId
    served_commit committed s = elim (last_index L M s) [
      | none ↦ none
      | some last ↦ if leb (index committed) last then some committed else none
    ]

    unfoldable pub read_log_committed : LogStore L M → Option (Option LogId)
    read_log_committed s = elim (read_committed L M s.disk) [
      | none ↦ some none
      | some b ↦ elim (marks.dec b) [
        | none ↦ none
        | some none ↦ some none
        | some (some committed) ↦ some (served_commit committed s)
      ]
    ]
