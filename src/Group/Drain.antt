-- ===== src/Group/Drain.antt =====
-- The loop that moves the watermark over acknowledged offsets, and `mark_acked`.
use hermesmq.Prelude.{
  ℕ, zero, suc, ◌≤◌, ◌<◌, [], ◌∷◌, Bool, true, false, some, ◌≡◌, refl, arith, length, ◌≢◌, ltb,
  ◌||◌, ◌==◌, saturating_add, u64_max, Bool-cases, inl, inr, ◌∙◌,
}
use hermesmq.Ord.{nat_ord}
use hermesmq.Map.{Set, get, has, insert, remove}
use hermesmq.Map.Lookup.{get-insert, get-remove}
use hermesmq.Map.Size.{length-remove-lt}
use hermesmq.Map.Sorted.{
  AllEntries-get, AllEntries-of_get, remove-IsSorted, insert-IsSorted, AllEntries-insert,
}
use hermesmq.Types.{Offset, LeaseId}
use hermesmq.Group.{Lease, GroupState, drain_acked, drain, mark_acked}
use hermesmq.Group.Invariant.{Draining, GroupInv}

-- `has` gives the entry of a set.
pub has-get : (o : ℕ) (s : Set ℕ) → has o s ≡ true → get o s ≡ some tt
has-get o s h = ground arith

has-empty : (o : ℕ) (s : Set ℕ) → length s ≤ 0 → has o s ≡ false
unfolding get
has-empty o [] h = refl
has-empty o (e ∷ s) h = absurd (omega arith)

-- The offset is acknowledged: what a group has consumed, whichever way it is stored.
unfoldable pub is_done : Offset → GroupState → Bool
is_done o g = ltb o g.ack_watermark || has o g.acked_above

-- One round of the loop.
abbrev step : GroupState → GroupState
step g = record g {
  acked_above = remove g.ack_watermark g.acked_above;
  ack_watermark = saturating_add g.ack_watermark 1;
}

-- The loop leaves the leases alone.
pub drain_acked-frame :
    (fuel : ℕ) (g : GroupState)
    → ((drain_acked fuel g).in_flight ≡ g.in_flight)
      × ((drain_acked fuel g).leased_offsets ≡ g.leased_offsets)
unfolding drain_acked
drain_acked-frame zero g = (refl, refl)
drain_acked-frame (suc fuel) g = ground (arith, drain_acked-frame fuel (step g))

module _ (n k : ℕ) (fits : n ≤ u64_max) where
  watermark-lt :
      (g : GroupState)
      → Draining n k g
      → has g.ack_watermark g.acked_above ≡ true
      → g.ack_watermark < n
  watermark-lt g v h =
      (AllEntries-get _ g.acked_above g.ack_watermark tt v.acks.acked_range
        (has-get g.ack_watermark g.acked_above h)).1

  step-Draining :
      (g : GroupState)
      → Draining n k g
      → has g.ack_watermark g.acked_above ≡ true
      → Draining n k (step g)
  step-Draining g v h = record {
    leases = record {
      sorted_flight = v.leases.sorted_flight;
      sorted_leased = v.leases.sorted_leased;
      flight_range = AllEntries-of_get _ g.in_flight v.leases.sorted_flight (λ id l e.
          let r = AllEntries-get _ g.in_flight id l v.leases.flight_range e in
          let u = v.acks.unacked id l e in ground (arith, below));
      leased_of_flight = v.leases.leased_of_flight;
      flight_of_leased = v.leases.flight_of_leased;
      one_lease = v.leases.one_lease;
    };
    acks = record {
      sorted_acked = remove-IsSorted _ g.acked_above v.acks.sorted_acked;
      watermark_le = omega (arith, below);
      acked_range =
          AllEntries-of_get _ (remove g.ack_watermark g.acked_above)
            (remove-IsSorted _ g.acked_above v.acks.sorted_acked)
            (λ o u e.
              let r = AllEntries-get _ g.acked_above o u v.acks.acked_range in
              ground (arith, below, get-remove o g.ack_watermark g.acked_above, r));
      unacked = λ id l e.
          ground (arith, v.acks.unacked id l e, get-remove l.offset g.ack_watermark g.acked_above);
    };
  }
    where
      below : g.ack_watermark < n
      below = watermark-lt g v h

  -- With a round for each offset the loop ends by its test, and the rest of the invariant holds.
  drain_acked-GroupInv :
      (fuel : ℕ) (g : GroupState)
      → Draining n k g
      → length g.acked_above ≤ fuel
      → GroupInv n k (drain_acked fuel g)
  unfolding drain_acked
  drain_acked-GroupInv zero g v h = record {
    leases = v.leases;
    acks = v.acks;
    settled = has-empty g.ack_watermark g.acked_above h;
  }
  drain_acked-GroupInv (suc fuel) g v h = elim (Bool-cases (has g.ack_watermark g.acked_above)) [
    | inl more ↦
        rw (more, drain_acked)
          (drain_acked-GroupInv fuel (step g) (step-Draining g v more)
            (omega (arith, length-remove-lt g.ack_watermark g.acked_above more)))
    | inr done ↦
        rw (done, drain_acked) (record { leases = v.leases; acks = v.acks; settled = done })
  ]

  pub drain-GroupInv : (g : GroupState) → Draining n k g → GroupInv n k (drain g)
  unfolding drain
  drain-GroupInv g v = drain_acked-GroupInv (length g.acked_above) g v (omega arith)

  -- The loop changes how acknowledged offsets are stored, and not which they are.
  drain_acked-is_done :
      (fuel : ℕ) (g : GroupState) (o : Offset)
      → Draining n k g
      → is_done o (drain_acked fuel g) ≡ is_done o g
  unfolding drain_acked is_done
  drain_acked-is_done zero g o v = refl
  drain_acked-is_done (suc fuel) g o v = elim (Bool-cases (has g.ack_watermark g.acked_above)) [
    | inl more ↦
        let below = watermark-lt g v more in
        rw (more, drain_acked)
          (drain_acked-is_done fuel (step g) o (step-Draining g v more)
            ∙ ground (arith, get-remove o g.ack_watermark g.acked_above, below))
    | inr done ↦ rw (done, drain_acked) refl
  ]

  pub drain-is_done :
      (g : GroupState) (o : Offset) → Draining n k g → is_done o (drain g) ≡ is_done o g
  unfolding drain
  drain-is_done g o v = drain_acked-is_done (length g.acked_above) g o v

  -- The group with one more offset in `acked_above`.
  insert-Draining :
      (offset : Offset) (g : GroupState)
      → Draining n k g
      → g.ack_watermark ≤ offset
      → offset < n
      → ((id : LeaseId) (l : Lease) → get id g.in_flight ≡ some l → l.offset ≢ offset)
      → Draining n k (record g { acked_above = insert offset tt g.acked_above })
  insert-Draining offset g v above below free = record {
    leases = record {
      sorted_flight = v.leases.sorted_flight;
      sorted_leased = v.leases.sorted_leased;
      flight_range = v.leases.flight_range;
      leased_of_flight = v.leases.leased_of_flight;
      flight_of_leased = v.leases.flight_of_leased;
      one_lease = v.leases.one_lease;
    };
    acks = record {
      sorted_acked = insert-IsSorted offset tt g.acked_above v.acks.sorted_acked;
      watermark_le = v.acks.watermark_le;
      acked_range =
          AllEntries-insert (λ o _. (g.ack_watermark ≤ o) × (o < n)) offset tt g.acked_above
            (above, below) v.acks.acked_range;
      unacked = λ id l e.
          ground (
            arith,
            v.acks.unacked id l e,
            free id l e,
            get-insert l.offset offset tt g.acked_above,
          );
    };
  }

  pub GroupInv-Draining : (g : GroupState) → GroupInv n k g → Draining n k g
  GroupInv-Draining g v = record { leases = v.leases; acks = v.acks }

  module _ (offset : Offset) (g : GroupState) (v : GroupInv n k g) (below : offset < n)
      (free : (id : LeaseId) (l : Lease) → get id g.in_flight ≡ some l → l.offset ≢ offset) where
    pub mark_acked-GroupInv : GroupInv n k (mark_acked offset g)
    unfolding mark_acked
    mark_acked-GroupInv = elim (Bool-cases (ltb offset g.ack_watermark)) [
      | inl old ↦ rw (old, mark_acked) v
      | inr new ↦
          rw (new, mark_acked)
            (drain-GroupInv _
              (insert-Draining offset g (GroupInv-Draining g v) (ground arith) below free))
    ]

    pub mark_acked-is_done :
        (o : Offset) → is_done o (mark_acked offset g) ≡ (is_done o g || o == offset)
    unfolding mark_acked is_done
    mark_acked-is_done o = elim (Bool-cases (ltb offset g.ack_watermark)) [
      | inl old ↦ rw (old, mark_acked) (ground arith)
      | inr new ↦
          rw (new, mark_acked)
            (drain-is_done _ o
                (insert-Draining offset g (GroupInv-Draining g v) (ground arith) below free)
              ∙ ground (arith, get-insert o offset tt g.acked_above))
    ]
