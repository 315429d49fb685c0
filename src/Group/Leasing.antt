-- ===== src/Group/Leasing.antt =====
-- Taking leases: `lease_offset`, and how the invariant grows with the queue's counters.
use hermesmq.Prelude.{ℕ, ◌+◌, ◌≤◌, ◌<◌, true, false, some, ◌≡◌, arith, ◌==◌, Bool-cases, inl, inr}
use hermesmq.Ord.{nat_ord}
use hermesmq.Map.{get, has, insert}
use hermesmq.Map.Lookup.{get-insert}
use hermesmq.Map.Sorted.{AllEntries-get, AllEntries-imp, insert-IsSorted, AllEntries-insert}
use hermesmq.Types.{Offset, LeaseId}
use hermesmq.Group.{Lease, GroupState, lease_offset}
use hermesmq.Group.Invariant.{GroupInv}

-- The invariant survives a growth of the topic and of the lease ids.
pub GroupInv-mono : (n m k j : ℕ) (g : GroupState) → n ≤ m → k ≤ j → GroupInv n k g → GroupInv m j g
GroupInv-mono n m k j g p q v = record {
  leases = record {
    sorted_flight = v.leases.sorted_flight;
    sorted_leased = v.leases.sorted_leased;
    flight_range = AllEntries-imp (λ id l r. omega arith) g.in_flight v.leases.flight_range;
    leased_of_flight = v.leases.leased_of_flight;
    flight_of_leased = v.leases.flight_of_leased;
    one_lease = v.leases.one_lease;
  };
  acks = record {
    sorted_acked = v.acks.sorted_acked;
    watermark_le = omega (arith, v.acks.watermark_le);
    acked_range = AllEntries-imp (λ o u r. omega arith) g.acked_above v.acks.acked_range;
    unacked = v.acks.unacked;
  };
  settled = v.settled;
}

-- The poll counter and the activity stamp are free.
pub stamped-GroupInv :
    (n k polls now : ℕ) (g : GroupState)
    → GroupInv n k g
    → GroupInv n k (record g { poll_count = polls; last_active_ms = now })
stamped-GroupInv n k polls now g v = record {
  leases = record {
    sorted_flight = v.leases.sorted_flight;
    sorted_leased = v.leases.sorted_leased;
    flight_range = v.leases.flight_range;
    leased_of_flight = v.leases.leased_of_flight;
    flight_of_leased = v.leases.flight_of_leased;
    one_lease = v.leases.one_lease;
  };
  acks = record {
    sorted_acked = v.acks.sorted_acked;
    watermark_le = v.acks.watermark_le;
    acked_range = v.acks.acked_range;
    unacked = v.acks.unacked;
  };
  settled = v.settled;
}

-- A fresh lease on an offset that is neither acknowledged nor leased.
module _ (n k : ℕ) (o : Offset) (deadline : ℕ) (g : GroupState) (v : GroupInv n k g)
    (above : g.ack_watermark ≤ o) (below : o < n) (unacked : has o g.acked_above ≡ false)
    (unleased : has o g.leased_offsets ≡ false) where
  fresh : (id : LeaseId) (l : Lease) → get id g.in_flight ≡ some l → id < k
  fresh id l e = (AllEntries-get _ g.in_flight id l v.leases.flight_range e).0

  lease : Lease
  lease = record { offset = o; deadline_ms = deadline }

  pub lease_offset-GroupInv : GroupInv n (k + 1) (lease_offset k o deadline g)
  unfolding lease_offset lease
  lease_offset-GroupInv = record {
    leases = record {
      sorted_flight = insert-IsSorted k lease g.in_flight v.leases.sorted_flight;
      sorted_leased = insert-IsSorted o deadline g.leased_offsets v.leases.sorted_leased;
      flight_range =
          AllEntries-insert (λ id l. (id < k + 1) × (g.ack_watermark ≤ l.offset) × (l.offset < n)) k
            lease g.in_flight (omega arith, above, below)
            (AllEntries-imp (λ id l r. omega arith) g.in_flight v.leases.flight_range);
      leased_of_flight = λ id l e. ground (
        arith,
        get-insert id k lease g.in_flight,
        get-insert l.offset o deadline g.leased_offsets,
        v.leases.leased_of_flight id l,
      );
      flight_of_leased = λ p h. held p h;
      one_lease = λ i j l m e f q. ground (
        arith,
        get-insert i k lease g.in_flight,
        get-insert j k lease g.in_flight,
        v.leases.leased_of_flight i l,
        v.leases.leased_of_flight j m,
        v.leases.one_lease i j l m,
      );
    };
    acks = record {
      sorted_acked = v.acks.sorted_acked;
      watermark_le = v.acks.watermark_le;
      acked_range = v.acks.acked_range;
      unacked = λ id l e. ground (arith, v.acks.unacked id l, get-insert id k lease g.in_flight);
    };
    settled = v.settled;
  }
    where
      held :
          (p : Offset)
          → has p (insert o deadline g.leased_offsets) ≡ true
          → (id : LeaseId) × (l : Lease) × (get id (insert k lease g.in_flight) ≡ some l)
            × (l.offset ≡ p)
      held p h = elim (Bool-cases (p == o)) [
        | inl here ↦ (k, lease, ground (arith, get-insert k k lease g.in_flight), ground arith)
        | inr other ↦
            let (id, l, e, q) =
              v.leases.flight_of_leased p
                (ground (arith, get-insert p o deadline g.leased_offsets)) in
            (id, l, ground (arith, fresh id l e, get-insert id k lease g.in_flight), q)
      ]
