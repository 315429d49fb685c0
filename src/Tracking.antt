-- ===== src/Tracking.antt =====
-- crates/hermesmq-core/src/client.rs: `SubTracking`, what a subscription remembers about the messages
-- it has pushed: the lease that is current for each offset, the leases that went before it, and the
-- offsets acknowledged a moment ago.
pub mod Invariant
pub mod Steps
pub mod Calls
pub mod Acks
use hermesmq.Prelude.{
  ℕ, suc, ◌+◌, List, [], ◌∷◌, Bool, true, false, not, ◌||◌, ◌&&◌, Option, none, some, if◌then◌else◌,
  ltb, leb, ◌==◌, ◌++◌, length, saturating_add,
}
use hermesmq.Ord.{nat_ord}
use hermesmq.Map.{Map, get, insert, remove, retain}
use hermesmq.Types.{Offset, LeaseId}

abbrev pub subscribe_max_lease_refreshes : ℕ
subscribe_max_lease_refreshes = 2

abbrev pub subscribe_max_lease_aliases : ℕ
subscribe_max_lease_aliases = 8

pub record OffsetTrack : Type 0 where
  pub lease_id : LeaseId
  pub deadline_ms : ℕ
  pub refreshes : ℕ
  pub leases : List LeaseId

pub data Delivery : Type 0 where
  push refreshed already_acked : Delivery

pub record SubTracking : Type 0 where
  pub by_offset : Map Offset OffsetTrack
  pub lease_to_offset : Map LeaseId Offset
  pub acked_recently : Map Offset ℕ

-- `SubTracking::default()`
unfoldable pub no_tracking : SubTracking
no_tracking = record { by_offset = []; lease_to_offset = []; acked_recently = [] }

-- `leases.contains(lease)`
unfoldable pub contains : LeaseId → List LeaseId → Bool
contains lease [] = false
contains lease (l ∷ leases) = lease == l || contains lease leases

-- `if track.leases.len() > SUBSCRIBE_MAX_LEASE_ALIASES { let old = track.leases.remove(0); … }`:
-- the leases that stay, and the table without the lease that went.
unfoldable pub keep_recent : List LeaseId → List LeaseId
keep_recent [] = []
keep_recent (old ∷ leases) =
    if ltb subscribe_max_lease_aliases (length (old ∷ leases)) then leases else old ∷ leases

unfoldable pub forget_oldest : List LeaseId → Map LeaseId Offset → Map LeaseId Offset
forget_oldest [] table = table
forget_oldest (old ∷ leases) table =
    if ltb subscribe_max_lease_aliases (length (old ∷ leases)) then remove old table else table

-- an offset that is tracked already
unfoldable pub redeliver : Offset → LeaseId → ℕ → OffsetTrack → SubTracking → SubTracking × Delivery
redeliver offset lease_id deadline_ms track s =
    let refresh = ltb track.refreshes subscribe_max_lease_refreshes in
    let leases = track.leases ++ (lease_id ∷ []) in
    (
      record s {
        by_offset =
            insert offset
              (record {
                lease_id = lease_id;
                deadline_ms = deadline_ms;
                refreshes = if refresh then track.refreshes + 1 else 0;
                leases = keep_recent leases;
              })
              s.by_offset;
        lease_to_offset = insert lease_id offset (forget_oldest leases s.lease_to_offset);
      },
      if refresh then refreshed else push,
    )

unfoldable pub deliver_new : Offset → LeaseId → ℕ → SubTracking → SubTracking × Delivery
deliver_new offset lease_id deadline_ms s = (
  record s {
    by_offset =
        insert offset
          (record {
            lease_id = lease_id;
            deadline_ms = deadline_ms;
            refreshes = 0;
            leases = lease_id ∷ [];
          })
          s.by_offset;
    lease_to_offset = insert lease_id offset s.lease_to_offset;
  },
  push,
)

unfoldable pub track_delivery : Offset → LeaseId → ℕ → SubTracking → SubTracking × Delivery
track_delivery offset lease_id deadline_ms s = elim (get offset s.by_offset) [
  | some track ↦ redeliver offset lease_id deadline_ms track s
  | none ↦ deliver_new offset lease_id deadline_ms s
]

unfoldable pub deliver : Offset → LeaseId → ℕ → ℕ → SubTracking → SubTracking × Delivery
deliver offset lease_id deadline_ms now_ms s = elim (get offset s.acked_recently) [
  | none ↦ track_delivery offset lease_id deadline_ms s
  | some until ↦
      if ltb now_ms until
      then (s, already_acked)
      else track_delivery offset lease_id deadline_ms
          (record s { acked_recently = remove offset s.acked_recently })
]

-- `for lease in &track.leases { self.lease_to_offset.remove(lease); }`
unfoldable pub remove_leases : List LeaseId → Map LeaseId Offset → Map LeaseId Offset
remove_leases [] table = table
remove_leases (lease ∷ leases) table = remove_leases leases (remove lease table)

-- `by_offset.remove(&offset)`, and the leases of the track that was there
unfoldable pub drop_track : Offset → OffsetTrack → SubTracking → SubTracking
drop_track offset track s = record s {
  by_offset = remove offset s.by_offset;
  lease_to_offset = remove_leases track.leases s.lease_to_offset;
}

-- `if let Some(until) = acked_until { self.acked_recently.insert(offset, until); }`
unfoldable pub note_acked : Offset → Option ℕ → SubTracking → SubTracking
note_acked offset none s = s
note_acked offset (some until) s = record s {
  acked_recently = insert offset until s.acked_recently;
}

unfoldable pub resolve : LeaseId → Option ℕ → SubTracking → SubTracking × Option LeaseId
resolve lease_id acked_until s = elim (get lease_id s.lease_to_offset) [
  | none ↦ (s, none)
  | some offset ↦ elim (get offset s.by_offset) [
    | none ↦ (s, none)
    | some track ↦ (note_acked offset acked_until (drop_track offset track s), some track.lease_id)
  ]
]

unfoldable pub current_leases : Map Offset OffsetTrack → List LeaseId
current_leases [] = []
current_leases ((offset, track) ∷ m) = track.lease_id ∷ current_leases m

unfoldable pub drain_leases : SubTracking → SubTracking × List LeaseId
drain_leases s = (no_tracking, current_leases s.by_offset)

unfoldable pub stale_offsets : ℕ → ℕ → Map Offset OffsetTrack → List Offset
stale_offsets now_ms grace_ms [] = []
stale_offsets now_ms grace_ms ((offset, t) ∷ m) =
    let rest = stale_offsets now_ms grace_ms m in
    if leb (saturating_add t.deadline_ms grace_ms) now_ms then offset ∷ rest else rest

unfoldable pub drop_stale : List Offset → SubTracking → SubTracking
drop_stale [] s = s
drop_stale (offset ∷ offsets) s = elim (get offset s.by_offset) [
  | none ↦ drop_stale offsets s
  | some track ↦ drop_stale offsets (drop_track offset track s)
]

unfoldable pub count_live : ℕ → Map Offset OffsetTrack → ℕ
count_live now_ms [] = 0
count_live now_ms ((offset, t) ∷ m) =
    let rest = count_live now_ms m in if ltb now_ms t.deadline_ms then suc rest else rest

unfoldable pub live_count : ℕ → ℕ → SubTracking → SubTracking × ℕ
live_count now_ms grace_ms s =
    let recent = retain (λ (_ : Offset) until. ltb now_ms until) s.acked_recently in
    let after =
      drop_stale (stale_offsets now_ms grace_ms s.by_offset)
        (record s { acked_recently = recent }) in
    (after, count_live now_ms after.by_offset)

-- `debug_check_invariants`: whether it returns `Ok(())`
unfoldable pub leases_point : Map LeaseId Offset → Map Offset OffsetTrack → Bool
leases_point [] tracks = true
leases_point ((lease, offset) ∷ table) tracks =
    let rest = leases_point table tracks in
    elim (get offset tracks) [ none ↦ false | some track ↦ contains lease track.leases && rest ]

unfoldable pub tracks_listed : Map Offset OffsetTrack → Bool
tracks_listed [] = true
tracks_listed ((offset, track) ∷ m) =
    let rest = tracks_listed m in
    not (ltb (subscribe_max_lease_aliases + 1) (length track.leases))
    && contains track.lease_id track.leases
    && rest

unfoldable pub debug_check_invariants : SubTracking → Bool
debug_check_invariants s = leases_point s.lease_to_offset s.by_offset && tracks_listed s.by_offset

unfoldable pub debug_sizes : SubTracking → ℕ × ℕ × ℕ
debug_sizes s = (length s.by_offset, length s.lease_to_offset, length s.acked_recently)
