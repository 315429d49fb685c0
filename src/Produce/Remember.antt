-- ===== src/Produce/Remember.antt =====
-- What a produce and the reclaiming of a topic leave of an earlier produce that it remembers.
use hermesmq.Prelude.{
  ℕ, ◌+◌, ◌≤◌, ◌<◌, List, [], ◌∷◌, ◌++◌, true, false, none, some, ◌≡◌, refl, arith, u64_max, ltb,
  Bool-cases, Option-cases, inl, inr, is_empty, length, append_assoc, subst, sym, ap, ◌∙◌,
  length-append, leb, ◌||◌, not,
}
use hermesmq.Ord.{nat_ord, list_ord, pair_ord}
use hermesmq.Map.{Map, get, has, insert, remove, same, first_key, keys}
use hermesmq.Map.Lookup.{get-insert, get-remove, eq_of_same}
use hermesmq.Map.Sorted.{IsSorted}
use hermesmq.Types.{Offset, Message, ProduceItem}
use hermesmq.Limits.{group_gc_threshold}
use hermesmq.Topic.{
  TopicState, DedupKey, prune_loop, prune_dedup, purge_offsets, purge_retained, purge_set,
  first_offset, remove_all, drop_consumed, gc_idle_groups, reclaim, min_watermark,
}
use hermesmq.Topic.Invariant.{TopicInv}
use hermesmq.Topic.Reclaim.{get-reclaim}
use hermesmq.Produce.{
  message_of, key_of, duplicate_of, append_message, record_dedup, evict_dedup, produce_topic,
}
use hermesmq.Produce.Retry.{
  first_offset-le_key, Remembered, prune_loop-Remembered, evict_dedup-Remembered, Left,
}

has-remove_all :
    (os : List Offset) (ms : Map Offset Message) (o : Offset)
    → has o (remove_all os ms) ≡ true
    → has o ms ≡ true
unfolding remove_all
has-remove_all [] ms o h = h
has-remove_all (p ∷ os) ms o h =
    ground (arith, has-remove_all os (remove p ms) o h, get-remove o p ms)

-- A topic that has given out the offset of a produce, and remembers the produce while the message is
-- there.
pub record IsRemembered (key : DedupKey) (o : Offset) (n : ℕ) (t : TopicState) : Type 0 where
  pub given : o < t.next_offset
  pub named : has o t.messages ≡ true → Remembered key o n t.dedup_order t.dedup

-- What the dedup table of a produce leaves alone.
pub record_dedup_rest :
    (item : ProduceItem) (offset : Offset) (t : TopicState)
    → let r = record_dedup item offset t in
      (r.messages ≡ t.messages) × (r.next_offset ≡ t.next_offset)
unfolding record_dedup
record_dedup_rest item offset t = elim (Bool-cases (is_empty item.producer_id)) [
  | inl e ↦ rw (e, record_dedup) (refl, refl)
  | inr e ↦ rw (e, record_dedup) (refl, refl)
]

-- What reclaiming leaves alone.
abbrev SameTable : TopicState → TopicState → Type 0
SameTable r t =
    (r.dedup_order ≡ t.dedup_order) × (r.dedup ≡ t.dedup) × (r.next_offset ≡ t.next_offset)

drop_consumed_rest : (t : TopicState) → SameTable (drop_consumed t) t
unfolding drop_consumed
drop_consumed_rest t = elim (Option-cases (min_watermark t.groups)) [
  | inl e ↦ rw (e, drop_consumed) (refl, refl, refl)
  | inr (boundary, e) ↦ elim (Option-cases (first_key t.messages)) [
    | inl f ↦ rw (e, drop_consumed, f, drop_consumed) (refl, refl, refl)
    | inr (first, f) ↦
        rw (e, drop_consumed, f, drop_consumed)
          (elim (Bool-cases (ltb first boundary)) [
            | inl more ↦ rw more (refl, refl, refl)
            | inr done ↦ rw done (refl, refl, refl)
          ])
  ]
]

gc_idle_groups_rest : (t : TopicState) → SameTable (gc_idle_groups t) t
unfolding gc_idle_groups
gc_idle_groups_rest t =
    elim (Bool-cases (leb (length t.groups) group_gc_threshold || not (is_empty t.messages))) [
      | inl h ↦ rw h (refl, refl, refl)
      | inr h ↦ rw h (refl, refl, refl)
    ]

reclaim_rest : (t : TopicState) → SameTable (reclaim t) t
unfolding reclaim
reclaim_rest t =
    let (a, b, c) = gc_idle_groups_rest (drop_consumed t) in
    let (d, e, f) = drop_consumed_rest t in (a ∙ d, b ∙ e, c ∙ f)

module _ (key : DedupKey) (o : Offset) where
  Remembered-mono :
      (n m : ℕ) (order : List DedupKey) (dedup : Map DedupKey Offset)
      → n ≤ m
      → Remembered key o n order dedup
      → Remembered key o m order dedup
  Remembered-mono n m order dedup h r = record {
    front = r.front;
    back = r.back;
    split = r.split;
    apart = r.apart;
    few = omega (arith, r.few);
    named = r.named;
  }

  IsRemembered-mono :
      (n m : ℕ) (t : TopicState) → n ≤ m → IsRemembered key o n t → IsRemembered key o m t
  IsRemembered-mono n m t h r = record {
    given = r.given;
    named = λ there. Remembered-mono n m t.dedup_order t.dedup h (r.named there);
  }

  purge_offsets-IsRemembered :
      (n : ℕ) (purge : List Offset) (t : TopicState)
      → IsRemembered key o n t
      → IsSorted (purge_offsets purge t).messages
      → IsRemembered key o n (purge_offsets purge t)
  unfolding purge_offsets prune_dedup
  purge_offsets-IsRemembered n purge t v s = record {
    given = v.given;
    named = λ h.
        let r = v.named (has-remove_all purge t.messages o h) in
        let left : TopicState = record t { messages = remove_all purge t.messages } in
        subst (λ q. Left key o n r.back r.few (prune_loop (first_offset left) q t.dedup))
          (sym r.split)
          (prune_loop-Remembered key o n r.back r.few (first_offset left) r.front t.dedup r.apart
            r.named (first_offset-le_key left o s h));
  }

  pub purge_retained-IsRemembered :
      (n now : ℕ) (t : TopicState)
      → IsRemembered key o n t
      → IsSorted (purge_retained now t).messages
      → IsRemembered key o n (purge_retained now t)
  unfolding purge_retained
  purge_retained-IsRemembered n now t v = elim (Bool-cases (is_empty (keys (purge_set t now)))) [
    | inl h ↦ rw (h, purge_retained) (λ s. v)
    | inr h ↦ rw (h, purge_retained) (purge_offsets-IsRemembered n (keys (purge_set t now)) t v)
  ]

  -- A key that is not in the table is another.
  other_key :
      (new : DedupKey) (dedup : Map DedupKey Offset)
      → get new dedup ≡ none
      → get key dedup ≡ some o
      → same key new ≡ false
  other_key new dedup absent e = elim (Bool-cases (same key new)) [
    | inr s ↦ s
    | inl s ↦
        let there : get new dedup ≡ some o =
          subst (λ k. get k dedup ≡ some o) (eq_of_same key new s) e in
        absurd (ground (arith, there, absent))
  ]

  -- A new message of another key comes behind it.
  record_dedup-Remembered :
      (n : ℕ) (item : ProduceItem) (offset : Offset) (t : TopicState)
      → n + 1 < 100000
      → duplicate_of item t ≡ none
      → Remembered key o n t.dedup_order t.dedup
      → let r = record_dedup item offset t in Remembered key o (n + 1) r.dedup_order r.dedup
  unfolding record_dedup duplicate_of
  record_dedup-Remembered n item offset t h new r = elim (Bool-cases (is_empty item.producer_id)) [
    | inl e ↦ rw (e, record_dedup) (Remembered-mono n (n + 1) t.dedup_order t.dedup (omega arith) r)
    | inr e ↦
        let k = key_of item in
        let absent : get k t.dedup ≡ none = ground (arith, new, e) in
        let other = other_key k t.dedup absent r.named in
        let few : length (r.back ++ (k ∷ [])) ≤ n + 1 =
          ground (arith, length-append r.back (k ∷ []), r.few) in
        let order : r.front ++ (key ∷ (r.back ++ (k ∷ []))) ≡ t.dedup_order ++ (k ∷ []) =
          sym (ap (λ q. q ++ (k ∷ [])) r.split ∙ append_assoc r.front (key ∷ r.back) (k ∷ [])) in
        rw (e, record_dedup)
          (subst
            (λ q.
              Left key o (n + 1) (r.back ++ (k ∷ [])) few (evict_dedup q (insert k offset t.dedup)))
            order
            (evict_dedup-Remembered key o (n + 1) (r.back ++ (k ∷ [])) few r.front
              (insert k offset t.dedup) h r.apart
              (ground (arith, get-insert key k offset t.dedup, other, r.named))))
  ]

  append-IsRemembered :
      (c k : ℕ) (n : ℕ) (item : ProduceItem) (t : TopicState)
      → c + 1 ≤ u64_max
      → n + 1 < 100000
      → TopicInv c k t
      → duplicate_of item t ≡ none
      → IsRemembered key o n t
      → IsRemembered key o (n + 1) (record_dedup item t.next_offset (append_message item t))
  unfolding append_message duplicate_of
  append-IsRemembered c k n item t fits h v new r =
      let (ms, next) = record_dedup_rest item t.next_offset (append_message item t) in
      record {
        given = rw next (omega (arith, r.given, v.next_le));
        named = λ there.
            let now_there = subst (λ m. has o m ≡ true) ms there in
            let before : has o t.messages ≡ true = ground (
              arith,
              now_there,
              r.given,
              get-insert o t.next_offset (message_of t.next_offset item) t.messages,
            ) in
            record_dedup-Remembered n item t.next_offset (append_message item t) h new
              (r.named before);
      }

  pub produce_topic-IsRemembered :
      (c k : ℕ) (n : ℕ) (item : ProduceItem) (t : TopicState)
      → c + 1 ≤ u64_max
      → n + 1 < 100000
      → TopicInv c k t
      → IsRemembered key o n t
      → IsSorted (produce_topic item t).0.messages
      → IsRemembered key o (n + 1) (produce_topic item t).0
  unfolding produce_topic
  produce_topic-IsRemembered c k n item t fits h v r = elim (Option-cases (duplicate_of item t)) [
    | inl e ↦
        rw (e, produce_topic)
          (purge_retained-IsRemembered (n + 1) item.ts_ms _
            (append-IsRemembered c k n item t fits h v e r))
    | inr (p, e) ↦
        rw (e, produce_topic)
          (purge_retained-IsRemembered (n + 1) item.ts_ms t
            (IsRemembered-mono n (n + 1) t (omega arith) r))
  ]

  pub reclaim-IsRemembered :
      (n : ℕ) (t : TopicState)
      → IsSorted t.messages
      → IsRemembered key o n t
      → IsRemembered key o n (reclaim t)
  reclaim-IsRemembered n t s r =
      let (order, dedup, next) = reclaim_rest t in
      record {
        given = rw next r.given;
        named = λ there.
            let before : has o t.messages ≡ true = ground (arith, there, get-reclaim o t s) in
            subst (λ q. Remembered key o n q (reclaim t).dedup) (sym order)
              (subst (λ d. Remembered key o n t.dedup_order d) (sym dedup) (r.named before));
      }
