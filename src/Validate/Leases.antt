-- ===== src/Validate/Leases.antt =====
-- The table that `validate` rebuilds from the leases in flight is the table that the group keeps.
use hermesmq.Prelude.{
  ℕ, ◌+◌, [], ◌∷◌, true, none, some, ◌≡◌, refl, arith, length, ◌≢◌, Option-cases, inl, inr,
}
use hermesmq.Ord.{nat_ord}
use hermesmq.Map.{Map, get, has, insert}
use hermesmq.Map.Lookup.{get-insert}
use hermesmq.Map.Sorted.{IsSorted, AllEntries, AllEntries-of_get, insert-IsSorted, get-above}
use hermesmq.Map.Size.{length-insert_new}
use hermesmq.Map.Extensional.{extensional}
use hermesmq.Types.{Offset, LeaseId}
use hermesmq.Group.{Lease, GroupState}
use hermesmq.Group.Invariant.{HasLeases}
use hermesmq.Validate.{collect_leases, same_table}

collect_leases-IsSorted :
    (ls : Map LeaseId Lease) (table : Map Offset ℕ)
    → IsSorted table
    → IsSorted (collect_leases ls table)
unfolding collect_leases
collect_leases-IsSorted [] table s = s
collect_leases-IsSorted ((id, l) ∷ ls) table s =
    collect_leases-IsSorted ls _ (insert-IsSorted l.offset l.deadline_ms table s)

-- What is collected comes from the leases or was there.
collected_within :
    (ls : Map LeaseId Lease) (table full : Map Offset ℕ)
    → AllEntries (λ _ l. get l.offset full ≡ some l.deadline_ms) ls
    → ((o : Offset) (d : ℕ) → get o table ≡ some d → get o full ≡ some d)
    → (o : Offset) (d : ℕ) → get o (collect_leases ls table) ≡ some d
    → get o full ≡ some d
unfolding collect_leases
collected_within [] table full a w o d h = w o d h
collected_within ((id, l) ∷ ls) table full a w o d h =
    collected_within ls (insert l.offset l.deadline_ms table) full a.1
      (λ p e q. ground (arith, get-insert p l.offset l.deadline_ms table, w p e, a.0)) o d h

collected_stays :
    (ls : Map LeaseId Lease) (table : Map Offset ℕ) (o : Offset)
    → has o table ≡ true
    → has o (collect_leases ls table) ≡ true
unfolding collect_leases
collected_stays [] table o h = h
collected_stays ((id, l) ∷ ls) table o h =
    collected_stays ls (insert l.offset l.deadline_ms table) o
      (ground (arith, get-insert o l.offset l.deadline_ms table))

collected_all :
    (ls : Map LeaseId Lease) (table : Map Offset ℕ) (id : LeaseId) (l : Lease)
    → get id ls ≡ some l
    → has l.offset (collect_leases ls table) ≡ true
unfolding collect_leases get
collected_all [] table id l h = absurd (ground arith)
collected_all ((j, m) ∷ ls) table id l h = ground (
  arith,
  collected_stays ls (insert m.offset m.deadline_ms table) m.offset
      (ground (arith, get-insert m.offset m.offset m.deadline_ms table)),
  collected_all ls (insert m.offset m.deadline_ms table) id l,
)

-- No two entries of the list hold one offset.
abbrev DistinctOffsets : Map LeaseId Lease → Type 0
DistinctOffsets [] = Unit {0}
DistinctOffsets ((id, l) ∷ ls) = AllEntries (λ _ m. m.offset ≢ l.offset) ls × DistinctOffsets ls

free_after :
    (l : Lease) (ls : Map LeaseId Lease) (table : Map Offset ℕ)
    → AllEntries (λ _ m. m.offset ≢ l.offset) ls
    → AllEntries (λ _ m. get m.offset table ≡ none) ls
    → AllEntries (λ _ m. get m.offset (insert l.offset l.deadline_ms table) ≡ none) ls
free_after l [] table a b = tt
free_after l ((id, m) ∷ ls) table a b = (
  ground (arith, a.0, b.0, get-insert m.offset l.offset l.deadline_ms table),
  free_after l ls table a.1 b.1,
)

length-collect_leases :
    (ls : Map LeaseId Lease) (table : Map Offset ℕ)
    → DistinctOffsets ls
    → AllEntries (λ _ m. get m.offset table ≡ none) ls
    → length (collect_leases ls table) ≡ length table + length ls
unfolding collect_leases
length-collect_leases [] table d a = omega arith
length-collect_leases ((id, l) ∷ ls) table d a = omega (
  arith,
  length-collect_leases ls (insert l.offset l.deadline_ms table) d.1
      (free_after l ls table d.0 a.1),
  length-insert_new l.offset l.deadline_ms table a.0,
)

distinct_offsets :
    (ls : Map LeaseId Lease)
    → IsSorted ls
    → ((i j : LeaseId) (l m : Lease)
        → get i ls ≡ some l
        → get j ls ≡ some m
        → l.offset ≡ m.offset
        → i ≡ j)
    → DistinctOffsets ls
unfolding get
distinct_offsets [] s f = tt
distinct_offsets ((id, l) ∷ ls) s f = (
  AllEntries-of_get _ ls s.1 (λ j m e p. ground (arith, f id j l m, get-above id ls s.0)),
  distinct_offsets ls s.1 (λ i j a b p q r.
      f i j a b (ground (arith, get-above id ls s.0)) (ground (arith, get-above id ls s.0)) r),
)

same_table_self : (m : Map Offset ℕ) → same_table m m ≡ true
unfolding same_table
same_table_self [] = refl
same_table_self ((o, d) ∷ m) = ground (arith, same_table_self m)

none_free : (ls : Map LeaseId Lease) → AllEntries (λ _ m. get {V = ℕ} m.offset [] ≡ none) ls
unfolding get
none_free [] = tt
none_free ((id, l) ∷ ls) = (refl, none_free ls)

module _ (n k w : ℕ) (g : GroupState) (v : HasLeases n k w g) where
  by_lease-eq : collect_leases g.in_flight [] ≡ g.leased_offsets
  by_lease-eq =
      extensional _ g.leased_offsets (collect_leases-IsSorted g.in_flight [] tt) v.sorted_leased
        agrees
    where
      within :
          (o : Offset) (d : ℕ)
          → get o (collect_leases g.in_flight []) ≡ some d
          → get o g.leased_offsets ≡ some d
      within =
          collected_within g.in_flight [] g.leased_offsets
            (AllEntries-of_get _ g.in_flight v.sorted_flight v.leased_of_flight)
            (λ o d h. absurd (unfold get in ground arith))

      present :
          (o : Offset)
          → has o g.leased_offsets ≡ true
          → has o (collect_leases g.in_flight []) ≡ true
      present o h =
          let (id, l, e, q) = v.flight_of_leased o h in
          rw (← q) (collected_all g.in_flight [] id l e)

      agrees : (o : Offset) → get o (collect_leases g.in_flight []) ≡ get o g.leased_offsets
      agrees o = elim (Option-cases (get o (collect_leases g.in_flight []))) [
        | inl e ↦ ground (arith, present o)
        | inr (d, e) ↦ ground (arith, within o d)
      ]

  -- No two leases share an offset, and the two tables agree.
  pub by_lease_lem :
      (length (collect_leases g.in_flight []) ≡ length g.in_flight)
      × (same_table (collect_leases g.in_flight []) g.leased_offsets ≡ true)
  by_lease_lem = (
    omega (
      arith,
      length-collect_leases g.in_flight []
          (distinct_offsets g.in_flight v.sorted_flight v.one_lease) (none_free g.in_flight),
    ),
    rw by_lease-eq (same_table_self g.leased_offsets),
  )
