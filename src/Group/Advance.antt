-- ===== src/Group/Advance.antt =====
-- Moving the watermark: `advance_watermark` drops what lies below and settles again.
use hermesmq.Prelude.{ℕ, ◌≤◌, List, Bool, ◌≡◌, refl, arith, ltb, leb, ◌||◌, u64_max, ◌∙◌, ap, max}
use hermesmq.Ord.{nat_ord}
use hermesmq.Map.{get, retain, keys}
use hermesmq.Map.Sorted.{AllEntries-get, AllEntries-of_get, get-retain, retain-IsSorted}
use hermesmq.Types.{Offset, LeaseId}
use hermesmq.Group.{Lease, GroupState, release_all, raise_watermark, drop_below, advance_watermark}
use hermesmq.Group.Invariant.{HasLeases, HasAcked, Draining, GroupInv}
use hermesmq.Group.Release.{release_all-Leases, release_all-frame, get-release_passing}
use hermesmq.Group.Drain.{is_done, drain-GroupInv, drain-is_done}

-- the group after the first statement of `advance_watermark`
abbrev raised : Offset → GroupState → GroupState
raised to g = record g { ack_watermark = max g.ack_watermark to }

module _ (n k : ℕ) (fits : n ≤ u64_max) where
  -- After the leases below a watermark are dropped, everything lies above it.
  drop_below-Draining :
      (w : ℕ) (g : GroupState)
      → HasLeases n k w g
      → HasAcked n w g
      → g.ack_watermark ≤ n
      → w ≤ g.ack_watermark
      → Draining n k (drop_below g)
  unfolding drop_below
  drop_below-Draining w g v a top up = record { leases = leases; acks = acks }
    where
      wm : Offset
      wm = g.ack_watermark

      late : LeaseId → Lease → Bool
      late = λ _ l. ltb l.offset g.ack_watermark

      g1 : GroupState
      g1 = record g { acked_above = retain (λ o _. leb g.ack_watermark o) g.acked_above }

      ids : List LeaseId
      ids = keys (retain (λ _ l. ltb l.offset g.ack_watermark) g.in_flight)

      acked1 : HasAcked n w g1
      acked1 = record {
        sorted_acked = retain-IsSorted _ g.acked_above a.sorted_acked;
        watermark_le = a.watermark_le;
        acked_range =
            AllEntries-of_get _ _ (retain-IsSorted _ g.acked_above a.sorted_acked) (λ o u e.
              let p = get-retain (λ o _. leb g.ack_watermark o) o g.acked_above a.sorted_acked in
              let r = AllEntries-get _ g.acked_above o u a.acked_range in ground (arith, p, r));
        unacked = λ id l e. ground (
          arith,
          a.unacked id l e,
          get-retain (λ o _. leb g.ack_watermark o) l.offset g.acked_above a.sorted_acked,
        );
      }

      leases1 : HasLeases n k w g1
      leases1 = record {
        sorted_flight = v.sorted_flight;
        sorted_leased = v.sorted_leased;
        flight_range = v.flight_range;
        leased_of_flight = v.leased_of_flight;
        flight_of_leased = v.flight_of_leased;
        one_lease = v.one_lease;
      }

      released : HasLeases n k w (release_all ids g1) × HasAcked n w (release_all ids g1)
      released = release_all-Leases n k w ids g1 leases1 acked1

      same_mark : (release_all ids g1).ack_watermark ≡ g.ack_watermark
      same_mark = (release_all-frame ids g1).0

      same_acked :
          (release_all ids g1).acked_above ≡ retain (λ o _. leb g.ack_watermark o) g.acked_above
      same_acked = (release_all-frame ids g1).1

      leases : HasLeases n k (release_all ids g1).ack_watermark (release_all ids g1)
      leases = record {
        sorted_flight = released.0.sorted_flight;
        sorted_leased = released.0.sorted_leased;
        flight_range = AllEntries-of_get _ _ released.0.sorted_flight (λ id l e.
            let r =
              AllEntries-get _ (release_all ids g1).in_flight id l released.0.flight_range e in
            let p =
              get-release_passing (λ _ l. ltb l.offset g.ack_watermark) id g g1 v.sorted_flight
                refl in
            ground (arith, r, p, same_mark));
        leased_of_flight = released.0.leased_of_flight;
        flight_of_leased = released.0.flight_of_leased;
        one_lease = released.0.one_lease;
      }

      acks : HasAcked n (release_all ids g1).ack_watermark (release_all ids g1)
      acks = record {
        sorted_acked = released.1.sorted_acked;
        watermark_le = omega (arith, same_mark);
        acked_range = AllEntries-of_get _ _ released.1.sorted_acked (λ o u e.
            let r = AllEntries-get _ (release_all ids g1).acked_above o u released.1.acked_range in
            let p = get-retain (λ o _. leb g.ack_watermark o) o g.acked_above a.sorted_acked in
            ground (arith, r, p, same_mark, ap (get o) same_acked));
        unacked = released.1.unacked;
      }

  raise_watermark-eq : (to : Offset) (g : GroupState) → raise_watermark to g ≡ raised to g
  unfolding raise_watermark
  raise_watermark-eq to g = ground arith

  raised-Draining :
      (to : Offset) (g : GroupState)
      → GroupInv n k g
      → to ≤ n
      → Draining n k (drop_below (raise_watermark to g))
  raised-Draining to g v h = rw (raise_watermark-eq to g) (
      drop_below-Draining g.ack_watermark (raised to g)
        (record {
          sorted_flight = v.leases.sorted_flight;
          sorted_leased = v.leases.sorted_leased;
          flight_range = v.leases.flight_range;
          leased_of_flight = v.leases.leased_of_flight;
          flight_of_leased = v.leases.flight_of_leased;
          one_lease = v.leases.one_lease;
        })
        (record {
          sorted_acked = v.acks.sorted_acked;
          watermark_le = omega (arith, v.acks.watermark_le);
          acked_range = v.acks.acked_range;
          unacked = v.acks.unacked;
        })
        (omega (arith, v.acks.watermark_le)) (omega arith))

  pub advance_watermark-GroupInv :
      (to : Offset) (g : GroupState)
      → GroupInv n k g
      → to ≤ n
      → GroupInv n k (advance_watermark to g)
  unfolding advance_watermark
  advance_watermark-GroupInv to g v h = drain-GroupInv n k fits _ (raised-Draining to g v h)

  -- Exactly the offsets below the target become acknowledged.
  pub advance_watermark-is_done :
      (to : Offset) (g : GroupState) (o : Offset)
      → GroupInv n k g
      → to ≤ n
      → is_done o (advance_watermark to g) ≡ (is_done o g || ltb o to)
  unfolding advance_watermark
  advance_watermark-is_done to g o v h =
      drain-is_done n k fits _ o (raised-Draining to g v h) ∙ rw (raise_watermark-eq to g) dropped
    where
      dropped : is_done o (drop_below (raised to g)) ≡ (is_done o g || ltb o to)
      dropped =
          unfold is_done drop_below in
          ground (
            arith,
            release_all-frame
                (keys (retain (λ _ l. ltb l.offset (max g.ack_watermark to)) g.in_flight))
                (record g {
                  ack_watermark = max g.ack_watermark to;
                  acked_above = retain (λ o _. leb (max g.ack_watermark to) o) g.acked_above;
                }),
            get-retain (λ o _. leb (max g.ack_watermark to) o) o g.acked_above v.acks.sorted_acked,
          )
