-- ===== src/Group.antt =====
-- crates/hermesmq-core/src/queue.rs: `Lease`, `GroupState` and its methods. A group's cursor over
-- one topic: what is acknowledged, and what is leased to a consumer until a deadline.
pub mod Invariant
pub mod Release
pub mod Drain
pub mod Methods
pub mod Advance
pub mod Leasing
use hermesmq.Prelude.{
  ℕ, zero, suc, ◌+◌, ◌<◌, List, [], ◌∷◌, Bool, true, false, Option, none, some, if◌then◌else◌, ltb,
  leb, length, saturating_add,
}
use hermesmq.Ord.{nat_ord}
use hermesmq.Map.{Map, Set, get, has, insert, remove, retain, keys}
use hermesmq.Types.{Offset, LeaseId}

pub record Lease : Type 0 where
  pub offset : Offset
  pub deadline_ms : ℕ

pub record GroupState : Type 0 where
  pub ack_watermark : Offset
  pub acked_above : Set Offset
  pub in_flight : Map LeaseId Lease
  pub leased_offsets : Map Offset ℕ
  pub poll_count : ℕ
  pub last_active_ms : ℕ

-- A group that starts at an offset: the other fields are those of `GroupState::default()`.
unfoldable pub new_group : Offset → ℕ → GroupState
new_group watermark now_ms = record {
  ack_watermark = watermark;
  acked_above = [];
  in_flight = [];
  leased_offsets = [];
  poll_count = 0;
  last_active_ms = now_ms;
}

-- `while self.acked_above.remove(&self.ack_watermark) { … }`. Each round removes an offset.
unfoldable pub drain_acked : ℕ → GroupState → GroupState
drain_acked zero g = g
drain_acked (suc fuel) g =
    let rest = drain_acked fuel (record g {
      acked_above = remove g.ack_watermark g.acked_above;
      ack_watermark = saturating_add g.ack_watermark 1;
    }) in
    if has g.ack_watermark g.acked_above then rest else g

unfoldable pub drain : GroupState → GroupState
drain g = drain_acked (length g.acked_above) g

unfoldable pub mark_acked : Offset → GroupState → GroupState
mark_acked offset g =
    if ltb offset g.ack_watermark
    then g
    else drain (record g { acked_above = insert offset tt g.acked_above })

-- `if let Some(l) = in_flight.remove(&id) { leased_offsets.remove(&l.offset); }`
unfoldable pub release : LeaseId → GroupState → GroupState
release id g = elim (get id g.in_flight) [
  | none ↦ g
  | some l ↦ record g {
    in_flight = remove id g.in_flight;
    leased_offsets = remove l.offset g.leased_offsets;
  }
]

unfoldable pub release_all : List LeaseId → GroupState → GroupState
release_all [] g = g
release_all (id ∷ ids) g = release_all ids (release id g)

unfoldable pub expire : ℕ → GroupState → GroupState
expire now_ms g = release_all (keys (retain (λ _ l. leb l.deadline_ms now_ms) g.in_flight)) g

-- the first two statements of `advance_watermark`
unfoldable pub raise_watermark : Offset → GroupState → GroupState
raise_watermark to g = if ltb g.ack_watermark to then record g { ack_watermark = to } else g

-- `acked_above.retain(…)` and the removal of the leases below the watermark
unfoldable pub drop_below : GroupState → GroupState
drop_below g =
    release_all (keys (retain (λ _ l. ltb l.offset g.ack_watermark) g.in_flight))
      (record g { acked_above = retain (λ o _. leb g.ack_watermark o) g.acked_above })

unfoldable pub advance_watermark : Offset → GroupState → GroupState
advance_watermark to g = drain (drop_below (raise_watermark to g))

-- the body of `ack` at the group
unfoldable pub ack_lease : LeaseId → GroupState → GroupState
ack_lease id g = elim (get id g.in_flight) [
  | none ↦ g
  | some l ↦ mark_acked l.offset (release id g)
]

-- the body of the lease loop in `poll`
unfoldable pub lease_offset : LeaseId → Offset → ℕ → GroupState → GroupState
lease_offset id offset deadline_ms g = record g {
  in_flight = insert id (record { offset = offset; deadline_ms = deadline_ms }) g.in_flight;
  leased_offsets = insert offset deadline_ms g.leased_offsets;
}
