-- ===== src/Topic/Dedup.antt =====
-- The dedup table and its eviction queue, under pruning, eviction and insertion.
use hermesmq.Prelude.{
  ◌≤◌, List, [], ◌∷◌, ◌++◌, true, false, none, ◌≡◌, arith, length, All, All-append, length-append,
}
use hermesmq.Ord.{nat_ord, list_ord, pair_ord}
use hermesmq.Map.{Map, get, has, insert, remove, same}
use hermesmq.Map.Lookup.{get-insert, get-remove, same_self, eq_of_same}
use hermesmq.Map.Sorted.{IsSorted, remove-IsSorted, insert-IsSorted}
use hermesmq.Map.Size.{length-remove, length-insert_new}
use hermesmq.Types.{Offset}
use hermesmq.Limits.{dedup_capacity}
use hermesmq.Topic.{DedupKey, prune_loop}
use hermesmq.Produce.{evict_dedup}

-- No key occurs twice.
abbrev pub Distinct : List DedupKey → Type 0
Distinct [] = Unit {0}
Distinct (key ∷ order) = All (λ j. same key j ≡ false) order × Distinct order

-- The queue lists the keys of the table, each once.
pub record Matches (order : List DedupKey) (dedup : Map DedupKey Offset) : Type 0 where
  pub sorted : IsSorted dedup
  pub counted : length dedup ≡ length order
  pub distinct : Distinct order
  pub listed : All (λ key. has key dedup ≡ true) order

still_listed :
    (key : DedupKey) (order : List DedupKey) (dedup : Map DedupKey Offset)
    → All (λ j. same key j ≡ false) order
    → All (λ j. has j dedup ≡ true) order
    → All (λ j. has j (remove key dedup) ≡ true) order
still_listed key [] dedup a b = tt
still_listed key (j ∷ order) dedup a b =
    (ground (arith, get-remove j key dedup), still_listed key order dedup a.1 b.1)

-- Dropping the front of the queue with its entry keeps the two in step.
pub drop-Matches :
    (key : DedupKey) (order : List DedupKey) (dedup : Map DedupKey Offset)
    → Matches (key ∷ order) dedup
    → Matches order (remove key dedup)
drop-Matches key order dedup v = record {
  sorted = remove-IsSorted key dedup v.sorted;
  counted = omega (arith, length-remove key dedup v.sorted v.listed.0, v.counted);
  distinct = v.distinct.1;
  listed = still_listed key order dedup v.distinct.0 v.listed.1;
}

pub prune_loop-Matches :
    (boundary : Offset) (order : List DedupKey) (dedup : Map DedupKey Offset)
    → Matches order dedup
    → let pruned = prune_loop boundary order dedup in
      Matches pruned.0 pruned.1 × (length pruned.0 ≤ length order)
unfolding prune_loop
prune_loop-Matches boundary [] dedup v = (v, omega arith)
prune_loop-Matches boundary (key ∷ order) dedup v =
    ground
      (arith, prune_loop-Matches boundary order (remove key dedup) (drop-Matches key order dedup v))

-- The eviction loop ends at the capacity.
pub evict_dedup-Matches :
    (order : List DedupKey) (dedup : Map DedupKey Offset)
    → Matches order dedup
    → let evicted = evict_dedup order dedup in
      Matches evicted.0 evicted.1 × (length evicted.0 ≤ dedup_capacity)
unfolding evict_dedup
evict_dedup-Matches [] dedup v = (v, omega arith)
evict_dedup-Matches (key ∷ order) dedup v =
    ground (arith, evict_dedup-Matches order (remove key dedup) (drop-Matches key order dedup v))

-- A key that is not in the table is not in the queue.
pub unlisted :
    (key : DedupKey) (order : List DedupKey) (dedup : Map DedupKey Offset)
    → get key dedup ≡ none
    → All (λ j. has j dedup ≡ true) order
    → All (λ j. same j key ≡ false) order
unlisted key [] dedup h a = tt
unlisted key (j ∷ order) dedup h a =
    (ground (arith, eq_of_same j key), unlisted key order dedup h a.1)

Distinct-append :
    (key : DedupKey) (order : List DedupKey)
    → All (λ j. same j key ≡ false) order
    → Distinct order
    → Distinct (order ++ key ∷ [])
Distinct-append key [] a d = (tt, tt)
Distinct-append key (j ∷ order) a d = (
  All-append (λ i. same j i ≡ false) order (key ∷ []) d.0 (a.0, tt),
  Distinct-append key order a.1 d.1,
)

insert_listed :
    (key : DedupKey) (offset : Offset) (order : List DedupKey) (dedup : Map DedupKey Offset)
    → All (λ j. has j dedup ≡ true) order
    → All (λ j. has j (insert key offset dedup) ≡ true) order
insert_listed key offset [] dedup a = tt
insert_listed key offset (j ∷ order) dedup a =
    (ground (arith, get-insert j key offset dedup), insert_listed key offset order dedup a.1)

-- A new key joins at the back.
pub push-Matches :
    (key : DedupKey) (offset : Offset) (order : List DedupKey) (dedup : Map DedupKey Offset)
    → get key dedup ≡ none
    → Matches order dedup
    → Matches (order ++ key ∷ []) (insert key offset dedup)
push-Matches key offset order dedup h v = record {
  sorted = insert-IsSorted key offset dedup v.sorted;
  counted =
      omega
        (arith, length-insert_new key offset dedup h, length-append order (key ∷ []), v.counted);
  distinct = Distinct-append key order (unlisted key order dedup h v.listed) v.distinct;
  listed =
      All-append (λ j. has j (insert key offset dedup) ≡ true) order (key ∷ [])
        (insert_listed key offset order dedup v.listed)
        (ground (arith, get-insert key key offset dedup, same_self key), tt);
}
