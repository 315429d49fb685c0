-- ===== src/Snapshot/Restart.antt =====
-- A node that starts again from the snapshot that it built has the state that it had, and no state
-- that `validate` refuses is ever loaded.
use hermesmq.Prelude.{
  ℕ, ◌+◌, ◌∷◌, Option, none, some, ◌≡◌, refl, arith, Option-cases, inl, inr, ◌∙◌, subst,
}
use hermesmq.Ord.{nat_ord, list_ord}
use hermesmq.Map.Lookup.{get-insert, same_self}
use hermesmq.Map.Sorted.{AllEntries}
use hermesmq.Types.{Name, Bytes}
use hermesmq.Limits.{max_counter}
use hermesmq.Queue.Invariant.{QueueInv}
use hermesmq.Validate.{validate, normalize}
use hermesmq.Validate.Accepts.{PollsBounded, validate-none, normalize-id}
use hermesmq.Store.{Redb, IsLawful, Disk, put_meta, get_meta}
use hermesmq.Log.{Codec, IsFaithful}
use hermesmq.Snapshot.{
  StateMachineData, StateMachineDataV0, StoredSnapshot, Node, key_snapshot, encode_state,
  decode_any, decode_state, accept, strip_format, persist_snapshot, get_current_snapshot, load_data,
  store_snapshot, build_snapshot, meta_of,
}

-- What every accepted state satisfies.
abbrev pub IsSound : (LogId Membership : Type 0) → StateMachineData LogId Membership → Type 0
IsSound LogId Membership d =
    QueueInv max_counter d.queue × AllEntries (λ _ t. PollsBounded t.groups) d.queue.topics

module _ (LogId Membership : Type 0) (states : Codec (StateMachineData LogId Membership))
    (old_states : Codec (StateMachineDataV0 LogId Membership)) where
  -- A state that is loaded, if any, passes `validate`.
  abbrev Valid : Option (StateMachineData LogId Membership) → Type 0
  Valid none = Unit
  Valid (some d) = validate d.queue ≡ none

  accept-Valid :
      (d : StateMachineData LogId Membership) → Valid (accept LogId Membership states old_states d)
  unfolding accept
  accept-Valid d = elim (Option-cases (validate (normalize d.queue))) [
    | inl h ↦ rw (h, accept) h
    | inr (damage, h) ↦ rw (h, accept) tt
  ]

  decode_state-Valid :
      (bytes : Bytes) → Valid (decode_state LogId Membership states old_states bytes)
  unfolding decode_state
  decode_state-Valid bytes =
      elim (Option-cases (decode_any LogId Membership states old_states bytes)) [
        | inl h ↦ rw (h, decode_state) tt
        | inr (d, h) ↦ rw (h, decode_state) (accept-Valid d)
      ]

  -- Whatever the bytes are, a state decoded from them passes `validate`.
  pub validate-decode_state :
      (bytes : Bytes) (d : StateMachineData LogId Membership)
      → decode_state LogId Membership states old_states bytes ≡ some d
      → validate d.queue ≡ none
  validate-decode_state bytes d e = subst Valid e (decode_state-Valid bytes)

  module _ (faithful : IsFaithful (StateMachineData LogId Membership) states)
      (d : StateMachineData LogId Membership) (v : IsSound LogId Membership d) where
    -- The bytes of a state, if any, are decoded to it.
    abbrev Decodes : Option Bytes → Type 0
    Decodes none = Unit
    Decodes (some b) = decode_state LogId Membership states old_states b ≡ some d

    decoded :
        (c : Bytes)
        → states.enc d ≡ some c
        → decode_state LogId Membership states old_states (255 ∷ 1 ∷ c) ≡ some d
    unfolding decode_state decode_any strip_format accept
    decoded c h =
        rw
          (
            faithful d c h,
            accept,
            normalize-id max_counter d.queue v.0,
            validate-none max_counter d.queue (omega arith) v.0 v.1,
            normalize-id max_counter d.queue v.0,
          )
          refl

    encode_state-Decodes : Decodes (encode_state LogId Membership states old_states d)
    unfolding encode_state
    encode_state-Decodes = elim (Option-cases (states.enc d)) [
      | inl h ↦ rw (h, encode_state) tt
      | inr (c, h) ↦ rw (h, encode_state) (decoded c h)
    ]

    -- A sound state that was encoded is decoded to itself.
    pub decode_state-encode_state :
        (b : Bytes)
        → encode_state LogId Membership states old_states d ≡ some b
        → decode_state LogId Membership states old_states b ≡ some d
    decode_state-encode_state b e = subst Decodes e encode_state-Decodes

  module _ (L : Redb ℕ) (M : Redb Name) (snapshots : Codec (StoredSnapshot LogId Membership))
      (index : LogId → ℕ) (lawful : IsLawful M)
      (faithful : IsFaithful (StateMachineData LogId Membership) states)
      (faithful_snapshots : IsFaithful (StoredSnapshot LogId Membership) snapshots)
      (m : Membership) where
    abbrev N : Type 0
    N = Node LogId Membership states old_states L M snapshots index

    -- What a start from the disk loads, if the snapshot was stored.
    abbrev Loads :
        StateMachineData LogId Membership → Option (N × StoredSnapshot LogId Membership) → Type 0
    Loads d none = Unit
    Loads d (some r) =
        load_data LogId Membership states old_states L M snapshots index m r.0.disk ≡ some d

    stored_loads :
        (disk : Disk L M) (stored : StoredSnapshot LogId Membership) (b : Bytes)
        → snapshots.enc stored ≡ some b
        → load_data LogId Membership states old_states L M snapshots index m
            (put_meta L M key_snapshot b disk)
          ≡ decode_state LogId Membership states old_states stored.bytes
    unfolding load_data get_current_snapshot get_meta put_meta
    stored_loads disk stored b h =
        rw
          (
            load_data,
            get_current_snapshot,
            lawful.entries-put key_snapshot b disk.meta,
            get-insert key_snapshot key_snapshot b (M.entries disk.meta),
            same_self key_snapshot,
            faithful_snapshots stored b h,
          )
          refl

    store_snapshot-Loads :
        (n : N)
        → IsSound LogId Membership n.state
        → Loads n.state (store_snapshot LogId Membership states old_states L M snapshots index n)
    unfolding store_snapshot persist_snapshot
    store_snapshot-Loads n v =
        elim (Option-cases (encode_state LogId Membership states old_states n.state)) [
          | inl h ↦ rw (h, store_snapshot) tt
          | inr (b, h) ↦
              let stored : StoredSnapshot LogId Membership = record {
                meta = meta_of LogId Membership states old_states L M snapshots index n;
                bytes = b;
              } in
              elim (Option-cases (snapshots.enc stored)) [
                | inl k ↦ rw (h, k, store_snapshot) tt
                | inr (c, k) ↦
                    rw (h, k, store_snapshot)
                      (stored_loads n.disk stored c k
                        ∙ decode_state-encode_state faithful n.state v b h)
              ]
        ]

    -- What a build leaves on the disk is loaded as the state that it was built from.
    abbrev Restarts :
        StateMachineData LogId Membership → N × Option (StoredSnapshot LogId Membership) → Type 0
    Restarts d (r, none) = Unit
    Restarts d (r, some stored) =
        load_data LogId Membership states old_states L M snapshots index m r.disk ≡ some d

    build_snapshot-Restarts :
        (n : N)
        → IsSound LogId Membership n.state
        → Restarts n.state (build_snapshot LogId Membership states old_states L M snapshots index n)
    unfolding build_snapshot
    build_snapshot-Restarts n v =
        let next : N = record n { snapshot_seq = n.snapshot_seq + 1 } in
        let loads = store_snapshot-Loads next v in
        elim (Option-cases
          (store_snapshot LogId Membership states old_states L M snapshots index next)) [
            | inl h ↦ rw (h, build_snapshot) tt
            | inr (r, h) ↦ rw (h, build_snapshot) (subst (Loads n.state) h loads)
          ]

    -- A node that starts from the disk on which `build_snapshot` stored a snapshot loads the state
    -- that the snapshot was built from, if that state is sound and the encodings are faithful.
    pub load_data-build_snapshot :
        (n r : N) (stored : StoredSnapshot LogId Membership)
        → IsSound LogId Membership n.state
        → build_snapshot LogId Membership states old_states L M snapshots index n ≡ (r, some stored)
        → load_data LogId Membership states old_states L M snapshots index m r.disk ≡ some n.state
    load_data-build_snapshot n r stored v e =
        subst (Restarts n.state) e (build_snapshot-Restarts n v)
