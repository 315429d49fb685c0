-- ===== src/Poll/Selection.antt =====
-- The contract of `select`: it delivers at most `max` messages of the topic, each once, in the order
-- of priority and then of age, and none that is acknowledged or leased.
use hermesmq.Prelude.{
  ℕ, ◌+◌, ◌-◌, ◌≤◌, List, [], ◌∷◌, ◌++◌, true, false, some, ◌≡◌, refl, arith, length, All, All-imp,
  length-append, Bool-cases, inl, inr,
}
use hermesmq.Ord.{nat_ord}
use hermesmq.Map.{Map, Set, get, has, insert, range_from}
use hermesmq.Map.Lookup.{get-range_from}
use hermesmq.Map.Sorted.{IsSorted, AllEntries-of_get, range_from-IsSorted}
use hermesmq.Types.{Offset, Message}
use hermesmq.Group.{GroupState}
use hermesmq.Poll.{
  Candidate, ranks, heap_push, heap_pop, offer, is_taken, scan, choose_top, choose_earliest,
  sort_insert, sort, reserved_slots, select,
}
use hermesmq.Poll.Candidates.{
  Distinct, sort_insert-All, sort-All, scan-All, choose_top-All, choose_earliest-All,
  choose_top-Distinct, choose_earliest-Distinct, sort-Distinct,
}

-- A message of the topic that the group may be given: not below its watermark, not acknowledged and
-- not leased.
pub record IsAvailable (g : GroupState) (messages : Map Offset Message) (x : Candidate)
    : Type 0 where
  pub message : Message
  pub stored : get x.offset messages ≡ some message
  pub ranked : x.priority ≡ message.priority
  pub above : g.ack_watermark ≤ x.offset
  pub unacked : has x.offset g.acked_above ≡ false
  pub unleased : has x.offset g.leased_offsets ≡ false

module _ (g : GroupState) (max poll_count : ℕ) (messages : Map Offset Message) where
  offered :
      (o : Offset) (m : Message)
      → get o (range_from g.ack_watermark messages) ≡ some m
      → is_taken g o ≡ false
      → IsAvailable g messages (record { priority = m.priority; offset = o })
  unfolding is_taken
  offered o m e h = record {
    message = m;
    stored = ground (arith, get-range_from o g.ack_watermark messages);
    ranked = refl;
    above = ground (arith, get-range_from o g.ack_watermark messages);
    unacked = ground arith;
    unleased = ground arith;
  }

  -- Every selected candidate is available.
  pub select-IsAvailable :
      IsSorted messages → All (IsAvailable g messages) (select g max poll_count messages)
  unfolding select
  select-IsAvailable s =
      let P = IsAvailable g messages in
      let r = range_from g.ack_watermark messages in
      let slots = max - reserved_slots max poll_count in
      let (a, b) =
        scan-All P g max slots r [] []
          (AllEntries-of_get _ r (range_from-IsSorted g.ack_watermark messages s) offered) tt tt in
      sort-All P _ (choose_earliest-All P max _ _ _ a (choose_top-All P _ [] [] b tt))

  -- No message is selected twice.
  pub select-Distinct : Distinct (select g max poll_count messages)
  unfolding select
  select-Distinct =
      let slots = max - reserved_slots max poll_count in
      let top = (scan g max slots (range_from g.ack_watermark messages) [] []).1 in
      let (a, d) = choose_top-Distinct top [] [] tt tt in
      sort-Distinct _ (choose_earliest-Distinct max _ _ _ a d)

-- The heap never holds more than its slots.
length-heap_push : (x : Candidate) (ys : List Candidate) → length (heap_push x ys) ≡ length ys + 1
unfolding heap_push
length-heap_push x [] = omega arith
length-heap_push x (y ∷ ys) = ground (arith, length-heap_push x ys)

length-heap_pop : (ys : List Candidate) → length (heap_pop ys) ≡ length ys - 1
unfolding heap_pop
length-heap_pop [] = omega arith
length-heap_pop (y ∷ ys) = omega arith

length-offer-le :
    (slots : ℕ) (x : Candidate) (ys : List Candidate)
    → length ys ≤ slots
    → length (offer slots x ys) ≤ slots
unfolding offer
length-offer-le slots x ys h =
    ground (arith, length-heap_push x ys, length-heap_pop (heap_push x ys))

pub length-scan-le :
    (g : GroupState) (max slots : ℕ) (ms : Map Offset Message) (earliest top : List Candidate)
    → length top ≤ slots
    → length (scan g max slots ms earliest top).1 ≤ slots
unfolding scan
length-scan-le g max slots [] earliest top h = h
length-scan-le g max slots ((o, m) ∷ ms) earliest top h =
    let x : Candidate = record { priority = m.priority; offset = o } in
    let h' = length-offer-le slots x top h in
    ground (
      arith,
      length-scan-le g max slots ms earliest top h,
      length-scan-le g max slots ms (earliest ++ x ∷ []) (offer slots x top) h',
      length-scan-le g max slots ms earliest (offer slots x top) h',
    )

pub length-choose_top-le :
    (xs : List Candidate) (set : Set Offset) (chosen : List Candidate)
    → length (choose_top xs set chosen).1 ≤ length chosen + length xs
unfolding choose_top
length-choose_top-le [] set chosen = omega arith
length-choose_top-le (x ∷ xs) set chosen = ground (
  arith,
  length-choose_top-le xs (insert x.offset tt set) chosen,
  length-choose_top-le xs (insert x.offset tt set) (chosen ++ x ∷ []),
  length-append chosen (x ∷ []),
)

length-choose_earliest-le :
    (max : ℕ) (xs : List Candidate) (set : Set Offset) (chosen : List Candidate)
    → length chosen ≤ max
    → length (choose_earliest max xs set chosen) ≤ max
unfolding choose_earliest
length-choose_earliest-le max [] set chosen h = h
length-choose_earliest-le max (x ∷ xs) set chosen h = ground (
  arith,
  length-choose_earliest-le max xs (insert x.offset tt set) chosen,
  length-choose_earliest-le max xs (insert x.offset tt set) (chosen ++ x ∷ []),
  length-append chosen (x ∷ []),
)

length-sort_insert :
    (x : Candidate) (ys : List Candidate) → length (sort_insert x ys) ≡ length ys + 1
unfolding sort_insert
length-sort_insert x [] = omega arith
length-sort_insert x (y ∷ ys) = ground (arith, length-sort_insert x ys)

length-sort : (xs : List Candidate) → length (sort xs) ≡ length xs
unfolding sort
length-sort [] = refl
length-sort (x ∷ xs) = omega (arith, length-sort_insert x (sort xs), length-sort xs)

-- At most `max` messages are selected.
pub length-select-le :
    (g : GroupState) (max poll_count : ℕ) (messages : Map Offset Message)
    → length (select g max poll_count messages) ≤ max
unfolding select
length-select-le g max poll_count messages =
    let slots = max - reserved_slots max poll_count in
    let r = scan g max slots (range_from g.ack_watermark messages) [] [] in
    let t = choose_top r.1 [] [] in
    let a = length-scan-le g max slots (range_from g.ack_watermark messages) [] [] (omega arith) in
    let b = length-choose_top-le r.1 [] [] in
    omega (
      arith,
      length-sort (choose_earliest max r.0 t.0 t.1),
      length-choose_earliest-le max r.0 t.0 t.1 (omega (arith, a, b)),
    )

-- Each candidate ranks before all that follow.
abbrev pub IsRanked : List Candidate → Type 0
IsRanked [] = Unit {0}
IsRanked (x ∷ xs) = All (λ y. ranks x y ≡ true) xs × IsRanked xs

ranks_total : (x y : Candidate) → ranks x y ≡ false → ranks y x ≡ true
unfolding ranks
ranks_total x y h = ground arith

ranks_trans : (x y z : Candidate) → ranks x y ≡ true → ranks y z ≡ true → ranks x z ≡ true
unfolding ranks
ranks_trans x y z h k = ground arith

sort_insert-IsRanked :
    (x : Candidate) (ys : List Candidate) → IsRanked ys → IsRanked (sort_insert x ys)
unfolding sort_insert
sort_insert-IsRanked x [] s = (tt, tt)
sort_insert-IsRanked x (y ∷ ys) s = elim (Bool-cases (ranks x y)) [
  | inl h ↦ rw h ((h, All-imp (λ z. ranks_trans x y z h) ys s.0), s)
  | inr h ↦ rw h (
    sort_insert-All (λ z. ranks y z ≡ true) x ys (ranks_total x y h) s.0,
    sort_insert-IsRanked x ys s.1,
  )
]

sort-IsRanked : (xs : List Candidate) → IsRanked (sort xs)
unfolding sort
sort-IsRanked [] = tt
sort-IsRanked (x ∷ xs) = sort_insert-IsRanked x (sort xs) (sort-IsRanked xs)

-- The selection is in the order of delivery: a higher priority first, and the older first within one.
pub select-IsRanked :
    (g : GroupState) (max poll_count : ℕ) (messages : Map Offset Message)
    → IsRanked (select g max poll_count messages)
unfolding select
select-IsRanked g max poll_count messages = sort-IsRanked _
