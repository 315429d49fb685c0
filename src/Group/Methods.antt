-- ===== src/Group/Methods.antt =====
-- What acknowledging a lease, taking one, and moving the watermark do to a group.
use hermesmq.Prelude.{
  ℕ, ◌≤◌, false, none, some, ◌≡◌, arith, ◌≢◌, ◌||◌, ◌==◌, u64_max, Option-cases, inl, inr,
}
use hermesmq.Ord.{nat_ord}
use hermesmq.Map.{get, remove}
use hermesmq.Map.Lookup.{get-remove}
use hermesmq.Map.Sorted.{AllEntries-get}
use hermesmq.Types.{Offset, LeaseId}
use hermesmq.Group.{Lease, GroupState, ack_lease, release}
use hermesmq.Group.Invariant.{GroupInv}
use hermesmq.Group.Release.{without-GroupInv}
use hermesmq.Group.Drain.{is_done, mark_acked-GroupInv, mark_acked-is_done}

module _ (n k : ℕ) (fits : n ≤ u64_max) where
  -- A lease that is acknowledged is no other lease's offset.
  others_free :
      (id : LeaseId) (l : Lease) (g : GroupState)
      → GroupInv n k g
      → get id g.in_flight ≡ some l
      → (j : LeaseId) (m : Lease) → get j (remove id g.in_flight) ≡ some m
      → m.offset ≢ l.offset
  others_free id l g v e j m h q =
      ground (arith, get-remove j id g.in_flight, v.leases.one_lease id j l m e)

  pub ack_lease-GroupInv :
      (id : LeaseId) (g : GroupState) → GroupInv n k g → GroupInv n k (ack_lease id g)
  unfolding ack_lease release
  ack_lease-GroupInv id g v = elim (Option-cases (get id g.in_flight)) [
    | inl e ↦ rw (e, ack_lease) v
    | inr (l, e) ↦
        rw (e, ack_lease, e, release)
          (mark_acked-GroupInv n k fits l.offset _ (without-GroupInv n k id l g v e)
            (AllEntries-get _ g.in_flight id l v.leases.flight_range e).2 (others_free id l g v e))
  ]

  -- Acknowledging a lease acknowledges its offset and no other; an id that is not in flight is
  -- ignored.
  pub ack_lease-is_done :
      (id : LeaseId) (g : GroupState) (o : Offset)
      → GroupInv n k g
      → is_done o (ack_lease id g)
        ≡ (is_done o g || (elim (get id g.in_flight) [ none ↦ false | some l ↦ o == l.offset ]))
  unfolding ack_lease release is_done
  ack_lease-is_done id g o v = elim (Option-cases (get id g.in_flight)) [
    | inl e ↦ rw (e, ack_lease) (ground arith)
    | inr (l, e) ↦
        rw (e, ack_lease, e, release)
          (mark_acked-is_done n k fits l.offset _ (without-GroupInv n k id l g v e)
            (AllEntries-get _ g.in_flight id l v.leases.flight_range e).2 (others_free id l g v e)
            o)
  ]
