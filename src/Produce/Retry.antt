-- ===== src/Produce/Retry.antt =====
-- What a topic remembers of a produce, under pruning and eviction.
use hermesmq.Prelude.{
  ℕ, ◌≤◌, ◌<◌, List, [], ◌∷◌, ◌++◌, true, false, none, some, ◌≡◌, refl, arith, ltb, Bool-cases,
  Option-cases, inl, inr, is_empty, All, length,
}
use hermesmq.Ord.{nat_ord, list_ord, pair_ord}
use hermesmq.Map.{Map, get, has, remove, same, first_key}
use hermesmq.Map.Lookup.{get-remove}
use hermesmq.Map.Sorted.{IsSorted, AllEntries-get}
use hermesmq.Types.{Offset, Message, ProduceItem}
use hermesmq.Limits.{dedup_capacity}
use hermesmq.Topic.{TopicState, DedupKey, is_stale, prune_loop, purge_retained, first_offset}
use hermesmq.Produce.{key_of, duplicate_of, evict_dedup, produce_topic}

-- The first offset is at most that of any message.
pub first_offset-le_key :
    (t : TopicState) (o : Offset)
    → IsSorted t.messages
    → has o t.messages ≡ true
    → first_offset t ≤ o
unfolding first_offset get
first_offset-le_key t o s h = below t.messages s h
  where
    below :
        (ms : Map Offset Message)
        → IsSorted ms
        → has o ms ≡ true
        → elim (first_key ms) [ some o ↦ o | none ↦ t.next_offset ] ≤ o
    below [] s h = absurd (ground arith)
    below ((j, m) ∷ ms) s h = elim (Option-cases (get o ms)) [
      | inl n ↦ ground (arith, n)
      | inr (v, e) ↦ let above = AllEntries-get _ ms o v s.0 e in ground (arith, above)
    ]

-- A produce whose key names an offset answers with it, and does no more than to apply retention.
pub produce_topic_again :
    (item : ProduceItem) (o : Offset) (t : TopicState)
    → is_empty item.producer_id ≡ false
    → get (key_of item) t.dedup ≡ some o
    → produce_topic item t ≡ (purge_retained item.ts_ms t, o)
unfolding produce_topic duplicate_of
produce_topic_again item o t p e = rw (produce_topic, duplicate_of, p, e) refl

-- What a topic remembers of a produce: its key in the table, and in the eviction queue with few keys
-- behind it.
pub record Remembered (key : DedupKey) (o : Offset) (n : ℕ) (order : List DedupKey)
    (dedup : Map DedupKey Offset) : Type 0 where
  pub front : List DedupKey
  pub back : List DedupKey
  pub split : order ≡ front ++ (key ∷ back)
  pub apart : All (λ j. same j key ≡ false) front
  pub few : length back ≤ n
  pub named : get key dedup ≡ some o

module _ (key : DedupKey) (o : Offset) (n : ℕ) (back : List DedupKey) (few : length back ≤ n) where
  abbrev pub Left : List DedupKey × Map DedupKey Offset → Type 0
  Left r = Remembered key o n r.0 r.1

  kept :
      (front : List DedupKey) (dedup : Map DedupKey Offset)
      → All (λ j. same j key ≡ false) front
      → get key dedup ≡ some o
      → Left (front ++ (key ∷ back), dedup)
  kept front dedup a e = record {
    front = front;
    back = back;
    split = refl;
    apart = a;
    few = few;
    named = e;
  }

  -- Pruning keeps the key of an offset that has not fallen below the boundary.
  pub prune_loop-Remembered :
      (boundary : Offset) (front : List DedupKey) (dedup : Map DedupKey Offset)
      → All (λ j. same j key ≡ false) front
      → get key dedup ≡ some o
      → boundary ≤ o
      → Left (prune_loop boundary (front ++ (key ∷ back)) dedup)
  unfolding prune_loop is_stale
  prune_loop-Remembered boundary [] dedup a e h =
      let fresh : is_stale boundary key dedup ≡ false = rw (is_stale, e) (ground arith) in
      rw (fresh, prune_loop) (kept [] dedup tt e)
  prune_loop-Remembered boundary (j ∷ front) dedup a e h =
      elim (Bool-cases (is_stale boundary j dedup)) [
        | inr s ↦ rw (s, prune_loop) (kept (j ∷ front) dedup a e)
        | inl s ↦
            rw (s, prune_loop)
              (prune_loop-Remembered boundary front (remove j dedup) a.1
                (ground (arith, get-remove key j dedup, a.0)) h)
      ]

  -- Eviction keeps a key that has fewer keys behind it than the table may hold.
  pub evict_dedup-Remembered :
      (front : List DedupKey) (dedup : Map DedupKey Offset)
      → n < 100000
      → All (λ j. same j key ≡ false) front
      → get key dedup ≡ some o
      → Left (evict_dedup (front ++ (key ∷ back)) dedup)
  unfolding evict_dedup
  evict_dedup-Remembered [] dedup h a e =
      let fits : ltb dedup_capacity (length (key ∷ back)) ≡ false = ground (arith, few) in
      rw (evict_dedup, fits) (kept [] dedup tt e)
  evict_dedup-Remembered (j ∷ front) dedup h a e =
      elim (Bool-cases (ltb dedup_capacity (length (j ∷ (front ++ (key ∷ back)))))) [
        | inr s ↦ rw (evict_dedup, s) (kept (j ∷ front) dedup a e)
        | inl s ↦
            rw (evict_dedup, s)
              (evict_dedup-Remembered front (remove j dedup) h a.1
                (ground (arith, get-remove key j dedup, a.0)))
      ]
