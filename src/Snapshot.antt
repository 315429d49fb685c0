-- ===== src/Snapshot.antt =====
-- crates/hermesmq-core/src/engine/state_machine.rs: the state machine that Raft drives: the queue with
-- the position in the log, its snapshots, and their bytes. The types of openraft, the encoding and
-- redb are parameters. `data` of a `StoredSnapshot` is called `bytes`.
pub mod Restart
pub mod Replay
use hermesmq.Prelude.{
  ℕ, zero, suc, ◌+◌, ◌/◌, ◌%◌, List, [], ◌∷◌, ◌++◌, Bool, true, false, Option, none, some,
  if◌then◌else◌, ltb, ◌==◌,
}
use hermesmq.Ord.{nat_ord, list_ord}
use hermesmq.Types.{Name, Bytes, AppRequest, AppResponse, no_op}
use hermesmq.Queue.{Queue, empty, apply}
use hermesmq.Queue.Compat.{QueueV0, queue_of_v0}
use hermesmq.Validate.{validate, normalize}
use hermesmq.Store.{Redb, Disk, put_meta, get_meta}
use hermesmq.Log.{Codec}

-- The bytes of "sm:snapshot".
abbrev pub key_snapshot : Name
key_snapshot = 115 ∷ 109 ∷ 58 ∷ 115 ∷ 110 ∷ 97 ∷ 112 ∷ 115 ∷ 104 ∷ 111 ∷ 116 ∷ []

-- A number in decimal; 20 digits are enough for a `u64`.
unfoldable pub decimal : ℕ → ℕ → Name → Name
decimal zero n digits = digits
decimal (suc fuel) n digits =
    let more = decimal fuel (n / 10) ((48 + n % 10) ∷ digits) in
    if ltb n 10 then (48 + n) ∷ digits else more

-- `format!("{}-{}", log_id.index, seq)`, or "none-{}"
unfoldable pub snapshot_name : Option ℕ → ℕ → Name
snapshot_name (some index) seq = decimal 20 index [] ++ 45 ∷ decimal 20 seq []
snapshot_name none seq = 110 ∷ 111 ∷ 110 ∷ 101 ∷ 45 ∷ decimal 20 seq []

-- The bytes after `SNAPSHOT_FORMAT`, where they start with it.
unfoldable pub strip_format : Bytes → Option Bytes
strip_format [] = none
strip_format (a ∷ []) = none
strip_format (a ∷ b ∷ rest) = if a == 255 then (if b == 1 then some rest else none) else none

module _ (LogId Membership : Type 0) where
  pub record StateMachineData : Type 0 where
    pub last_applied : Option LogId
    pub last_membership : Membership
    pub queue : Queue

  pub record StateMachineDataV0 : Type 0 where
    pub last_applied : Option LogId
    pub last_membership : Membership
    pub queue : QueueV0

  pub record SnapshotMeta : Type 0 where
    pub last_log_id : Option LogId
    pub last_membership : Membership
    pub snapshot_id : Name

  pub record StoredSnapshot : Type 0 where
    pub meta : SnapshotMeta
    pub bytes : Bytes

  -- The state of an empty node; openraft's default membership is a parameter.
  unfoldable pub default_data : Membership → StateMachineData
  default_data m = record { last_applied = none; last_membership = m; queue = empty }

  module _ (states : Codec StateMachineData) (old_states : Codec StateMachineDataV0) where
    unfoldable pub encode_state : StateMachineData → Option Bytes
    encode_state d = elim (states.enc d) [ none ↦ none | some b ↦ some (255 ∷ 1 ∷ b) ]

    unfoldable pub upgrade : StateMachineDataV0 → StateMachineData
    upgrade v0 = record {
      last_applied = v0.last_applied;
      last_membership = v0.last_membership;
      queue = queue_of_v0 v0.queue;
    }

    unfoldable pub decode_any : Bytes → Option StateMachineData
    decode_any bytes = elim (strip_format bytes) [
      | some rest ↦ states.dec rest
      | none ↦ elim (old_states.dec bytes) [ none ↦ none | some v0 ↦ some (upgrade v0) ]
    ]

    -- The queue is normalized, and refused if it is damaged.
    unfoldable pub accept : StateMachineData → Option StateMachineData
    accept d = elim (validate (normalize d.queue)) [
      | none ↦ some (record d { queue = normalize d.queue })
      | some damage ↦ none
    ]

    unfoldable pub decode_state : Bytes → Option StateMachineData
    decode_state bytes = elim (decode_any bytes) [ none ↦ none | some d ↦ accept d ]

    module _ (L : Redb ℕ) (M : Redb Name) (snapshots : Codec StoredSnapshot)
        (index : LogId → ℕ) where
      -- `StateMachineStore`: the disk, `Inner::data` and `Inner::snapshot_seq`.
      pub record Node : Type 0 where
        pub disk : Disk L M
        pub state : StateMachineData
        pub snapshot_seq : ℕ

      unfoldable pub persist_snapshot : StoredSnapshot → Disk L M → Option (Disk L M)
      persist_snapshot stored d = elim (snapshots.enc stored) [
        | none ↦ none
        | some b ↦ some (put_meta L M key_snapshot b d)
      ]

      -- The snapshot on the disk: `some none` is its absence, `none` an error.
      unfoldable pub get_current_snapshot : Disk L M → Option (Option StoredSnapshot)
      get_current_snapshot d = elim (get_meta L M key_snapshot d) [
        | none ↦ some none
        | some b ↦ elim (snapshots.dec b) [ none ↦ none | some stored ↦ some (some stored) ]
      ]

      unfoldable pub snapshot_last_index : Disk L M → Option (Option ℕ)
      snapshot_last_index d = elim (get_current_snapshot d) [
        | none ↦ none
        | some none ↦ some none
        | some (some stored) ↦ elim stored.meta.last_log_id [
          | none ↦ some none
          | some l ↦ some (some (index l))
        ]
      ]

      -- `StateMachineStore::new`
      unfoldable pub load_data : Membership → Disk L M → Option StateMachineData
      load_data m d = elim (get_current_snapshot d) [
        | none ↦ none
        | some none ↦ some (default_data m)
        | some (some stored) ↦ decode_state stored.bytes
      ]

      unfoldable pub open_node : Membership → Disk L M → Option Node
      open_node m d = elim (load_data m d) [
        | none ↦ none
        | some state ↦ some (record { disk = d; state = state; snapshot_seq = 0 })
      ]

      -- `none` is an error, which changes neither the disk nor the state.
      unfoldable pub install_snapshot : SnapshotMeta → Bytes → Node → Option Node
      install_snapshot meta bytes n = elim (decode_state bytes) [
        | none ↦ none
        | some state ↦ elim (persist_snapshot (record { meta = meta; bytes = bytes }) n.disk) [
          | none ↦ none
          | some d ↦ some (record n { disk = d; state = state })
        ]
      ]

      abbrev pub index_of : Option LogId → Option ℕ
      index_of none = none
      index_of (some l) = some (index l)

      unfoldable pub meta_of : Node → SnapshotMeta
      meta_of n = record {
        last_log_id = n.state.last_applied;
        last_membership = n.state.last_membership;
        snapshot_id = snapshot_name (index_of n.state.last_applied) n.snapshot_seq;
      }

      unfoldable pub store_snapshot : Node → Option (Node × StoredSnapshot)
      store_snapshot n = elim (encode_state n.state) [
        | none ↦ none
        | some b ↦ elim (persist_snapshot (record { meta = meta_of n; bytes = b }) n.disk) [
          | none ↦ none
          | some d ↦ some (record n { disk = d }, record { meta = meta_of n; bytes = b })
        ]
      ]

      -- The sequence number counts also the attempts that fail.
      unfoldable pub build_snapshot : Node → Node × Option StoredSnapshot
      build_snapshot n =
          let next : Node = record n { snapshot_seq = n.snapshot_seq + 1 } in
          elim (store_snapshot next) [ none ↦ (next, none) | some r ↦ (r.0, some r.1) ]

      unfoldable pub applied_state : Node → Option LogId × Membership
      applied_state n = (n.state.last_applied, n.state.last_membership)

-- `StoredMembership::new` of openraft is a parameter.
module _ (LogId Membership Voters : Type 0)
    (stored_membership : Option LogId → Voters → Membership) where
  abbrev pub State : Type 0
  State = StateMachineData LogId Membership

  -- openraft's entries.
  pub data EntryPayload : Type 0 where
    blank : EntryPayload
    membership : Voters → EntryPayload
    normal : AppRequest → EntryPayload

  pub record Entry : Type 0 where
    pub log_id : LogId
    pub payload : EntryPayload

  unfoldable pub respond : LogId → EntryPayload → State → State × AppResponse
  respond log_id blank d = (d, no_op)
  respond log_id (membership m) d =
      (record d { last_membership = stored_membership (some log_id) m }, no_op)
  respond log_id (normal req) d = let r = apply req d.queue in (record d { queue = r.0 }, r.1)

  -- The loop of `apply`.
  unfoldable pub apply_entries : List Entry → State → State × List AppResponse
  apply_entries [] d = (d, [])
  apply_entries (e ∷ es) d =
      let r = respond e.log_id e.payload (record d { last_applied = some e.log_id }) in
      let rest = apply_entries es r.0 in (rest.0, r.1 ∷ rest.1)
