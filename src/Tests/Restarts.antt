-- ===== src/Tests/Restarts.antt =====
-- Encodings of the states that the test needs, and the theorems on snapshots at them.
use hermesmq.Prelude.{
  ℕ, zero, suc, [], ◌∷◌, ◌++◌, Option, none, some, ◌≡◌, refl, arith, length, subst,
}
use hermesmq.Ord.{nat_ord, list_ord}
use hermesmq.Map.{Map, map_values}
use hermesmq.Types.{Name, Bytes}
use hermesmq.Topic.{TopicState}
use hermesmq.Validate.{validate, validate_topics, normalize}
use hermesmq.Log.{Codec, IsFaithful}
use hermesmq.Snapshot.{
  StateMachineData, StateMachineDataV0, StoredSnapshot, Node, build_snapshot, load_data,
  decode_state, decode_any, accept, strip_format, encode_state, store_snapshot, persist_snapshot,
  meta_of, snapshot_name, decimal,
}
use hermesmq.Snapshot.Restart.{IsSound, validate-decode_state, load_data-build_snapshot}
use hermesmq.Tests.Disks.{Log, Meta, disk, memory_redb-IsLawful}

abbrev State : Type 0
State = StateMachineData ℕ (Unit {0})

abbrev Stored : Type 0
Stored = StoredSnapshot ℕ (Unit {0})

abbrev state_of : Option ℕ → Map Name TopicState → ℕ → State
state_of last topics next = record {
  last_applied = last;
  last_membership = tt;
  queue = record { topics = topics; next_lease_id = next };
}

-- States without topics.
abbrev encode_parts : Option ℕ → Map Name TopicState → ℕ → Option Bytes
encode_parts none [] next = some (next ∷ [])
encode_parts (some i) [] next = some (next ∷ i ∷ [])
encode_parts last (t ∷ ts) next = none

abbrev decode_parts : Bytes → Option State
decode_parts [] = none
decode_parts (next ∷ []) = some (state_of none [] next)
decode_parts (next ∷ i ∷ rest) = some (state_of (some i) [] next)

abbrev states : Codec State
states = record {
  enc = λ d. encode_parts d.last_applied d.queue.topics d.queue.next_lease_id;
  dec = decode_parts;
}

abbrev Recovers : State → Option Bytes → Type 0
Recovers d none = Unit
Recovers d (some b) = decode_parts b ≡ some d

parts_lem :
    (last : Option ℕ) (topics : Map Name TopicState) (next : ℕ)
    → Recovers (state_of last topics next) (encode_parts last topics next)
parts_lem none [] next = refl
parts_lem (some i) [] next = refl
parts_lem none (t ∷ ts) next = tt
parts_lem (some i) (t ∷ ts) next = tt

states-IsFaithful : IsFaithful State states
states-IsFaithful d b e =
    subst (Recovers d) e (parts_lem d.last_applied d.queue.topics d.queue.next_lease_id)

abbrev old_states : Codec (StateMachineDataV0 ℕ (Unit {0}))
old_states = record { enc = λ d. none; dec = λ b. none }

-- An id after its length, then the position and the bytes.
abbrev encode_rest : Option ℕ → Bytes → Bytes
encode_rest none bytes = 0 ∷ 0 ∷ bytes
encode_rest (some i) bytes = 1 ∷ i ∷ bytes

abbrev split_id : ℕ → Bytes → Name × Bytes
split_id zero bytes = ([], bytes)
split_id (suc n) [] = ([], [])
split_id (suc n) (x ∷ bytes) = let p = split_id n bytes in (x ∷ p.0, p.1)

abbrev decode_rest : Name → Bytes → Option Stored
decode_rest id (zero ∷ i ∷ bytes) = some (record {
  meta = record { last_log_id = none; last_membership = tt; snapshot_id = id };
  bytes = bytes;
})
decode_rest id (suc n ∷ i ∷ bytes) = some (record {
  meta = record { last_log_id = some i; last_membership = tt; snapshot_id = id };
  bytes = bytes;
})
decode_rest id _ = none

abbrev decode_stored : Bytes → Option Stored
decode_stored [] = none
decode_stored (n ∷ bytes) = let p = split_id n bytes in decode_rest p.0 p.1

abbrev snapshots : Codec Stored
snapshots = record {
  enc = λ s.
      some
        (length s.meta.snapshot_id ∷ s.meta.snapshot_id ++ encode_rest s.meta.last_log_id s.bytes);
  dec = decode_stored;
}

split_id-length : (id : Name) (rest : Bytes) → split_id (length id) (id ++ rest) ≡ (id, rest)
split_id-length [] rest = refl
split_id-length (x ∷ id) rest = rw (split_id-length id rest) refl

stored_lem :
    (last : Option ℕ) (id : Name) (bytes : Bytes)
    → decode_stored (length id ∷ id ++ encode_rest last bytes)
      ≡ some (record {
        meta = record { last_log_id = last; last_membership = tt; snapshot_id = id };
        bytes = bytes;
      })
stored_lem none id bytes = rw (split_id-length id (0 ∷ 0 ∷ bytes)) refl
stored_lem (some i) id bytes = rw (split_id-length id (1 ∷ i ∷ bytes)) refl

abbrev Kept : Stored → Option Bytes → Type 0
Kept s none = Unit
Kept s (some b) = decode_stored b ≡ some s

snapshots-IsFaithful : IsFaithful Stored snapshots
snapshots-IsFaithful s b e =
    subst (Kept s) e (stored_lem s.meta.last_log_id s.meta.snapshot_id s.bytes)

-- A node that has applied entry 12.
abbrev node : Node ℕ (Unit {0}) states old_states Log Meta snapshots (λ i. i)
node = record { disk = disk; state = state_of (some 12) [] 7; snapshot_seq = 0 }

node-IsSound : IsSound ℕ (Unit {0}) node.state
node-IsSound = (record { next_le = omega arith; sorted_topics = tt; topics_inv = tt }, tt)

validate-decode_state_example : validate (record { topics = []; next_lease_id = 7 }) ≡ none
unfolding decode_state decode_any strip_format accept validate normalize validate_topics map_values
validate-decode_state_example =
    validate-decode_state ℕ (Unit {0}) states old_states (255 ∷ 1 ∷ 7 ∷ 12 ∷ [])
      (state_of (some 12) [] 7) refl

abbrev stored : Stored
stored = record {
  meta = record {
    last_log_id = some 12;
    last_membership = tt;
    snapshot_id = 49 ∷ 50 ∷ 45 ∷ 49 ∷ [];
  };
  bytes = 255 ∷ 1 ∷ 7 ∷ 12 ∷ [];
}

abbrev after : Node ℕ (Unit {0}) states old_states Log Meta snapshots (λ i. i)
after = (build_snapshot ℕ (Unit {0}) states old_states Log Meta snapshots (λ i. i) node).0

build_snapshot_at_node :
    build_snapshot ℕ (Unit {0}) states old_states Log Meta snapshots (λ i. i) node
    ≡ (after, some stored)
unfolding build_snapshot store_snapshot encode_state persist_snapshot meta_of snapshot_name decimal
build_snapshot_at_node = refl

load_data-build_snapshot_example :
    load_data ℕ (Unit {0}) states old_states Log Meta snapshots (λ i. i) tt after.disk
    ≡ some node.state
load_data-build_snapshot_example =
    load_data-build_snapshot ℕ (Unit {0}) states old_states Log Meta snapshots (λ i. i)
      (memory_redb-IsLawful Name) states-IsFaithful snapshots-IsFaithful tt node after stored
      node-IsSound build_snapshot_at_node
