-- ===== src/Group/Invariant.antt =====
-- The invariant of a `GroupState` in a topic whose next offset is `n`, in a queue whose next lease
-- id is `k`.
use hermesmq.Prelude.{ℕ, ◌≤◌, ◌<◌, true, false, some, ◌≡◌, refl, arith}
use hermesmq.Ord.{nat_ord}
use hermesmq.Map.{get, has}
use hermesmq.Map.Sorted.{IsSorted, AllEntries}
use hermesmq.Types.{Offset, LeaseId}
use hermesmq.Group.{Lease, GroupState, new_group}

-- The two tables of leases agree, no two leases share an offset, and none lies below `w`.
pub record HasLeases (n k w : ℕ) (g : GroupState) : Type 0 where
  pub sorted_flight : IsSorted g.in_flight
  pub sorted_leased : IsSorted g.leased_offsets
  pub flight_range : AllEntries (λ id l. (id < k) × (w ≤ l.offset) × (l.offset < n)) g.in_flight
  pub leased_of_flight :
      (id : LeaseId) (l : Lease)
      → get id g.in_flight ≡ some l
      → get l.offset g.leased_offsets ≡ some l.deadline_ms
  pub flight_of_leased :
      (o : Offset)
      → has o g.leased_offsets ≡ true
      → (id : LeaseId) × (l : Lease) × (get id g.in_flight ≡ some l) × (l.offset ≡ o)
  pub one_lease :
      (i j : LeaseId) (l m : Lease)
      → get i g.in_flight ≡ some l
      → get j g.in_flight ≡ some m
      → l.offset ≡ m.offset
      → i ≡ j

-- The acknowledged offsets lie between `w` and the end, and none of them is leased.
pub record HasAcked (n w : ℕ) (g : GroupState) : Type 0 where
  pub sorted_acked : IsSorted g.acked_above
  pub watermark_le : g.ack_watermark ≤ n
  pub acked_range : AllEntries (λ o _. (w ≤ o) × (o < n)) g.acked_above
  pub unacked :
      (id : LeaseId) (l : Lease) → get id g.in_flight ≡ some l → has l.offset g.acked_above ≡ false

-- Both at the watermark itself, which may still be among the acknowledged offsets.
pub record Draining (n k : ℕ) (g : GroupState) : Type 0 where
  pub leases : HasLeases n k g.ack_watermark g
  pub acks : HasAcked n g.ack_watermark g

pub record GroupInv (n k : ℕ) (g : GroupState) : Type 0 where
  pub leases : HasLeases n k g.ack_watermark g
  pub acks : HasAcked n g.ack_watermark g
  pub settled : has g.ack_watermark g.acked_above ≡ false

pub new_group-GroupInv : (n k w now : ℕ) → w ≤ n → GroupInv n k (new_group w now)
unfolding new_group get
new_group-GroupInv n k w now h = record {
  leases = record {
    sorted_flight = tt;
    sorted_leased = tt;
    flight_range = tt;
    leased_of_flight = λ id l e. absurd (ground arith);
    flight_of_leased = λ o e. absurd (ground arith);
    one_lease = λ i j l m e f p. absurd (ground arith);
  };
  acks = record { sorted_acked = tt; watermark_le = h; acked_range = tt; unacked = λ id l e. refl };
  settled = refl;
}
