-- ===== src/Topic/Steps.antt =====
-- Every operation on a topic keeps its invariant: reclaiming, expiry, retention and commits.
use hermesmq.Prelude.{
  ℕ, ◌≤◌, List, not, Option, none, some, ◌≡◌, arith, length, ltb, leb, u64_max, Bool-cases,
  Option-cases, inl, inr, is_empty, ◌||◌, ◌==◌,
}
use hermesmq.Ord.{nat_ord, list_ord, pair_ord}
use hermesmq.Map.{range_from, first_key, keys}
use hermesmq.Types.{Offset, Name}
use hermesmq.Limits.{group_gc_threshold}
use hermesmq.Group.{GroupState}
use hermesmq.Group.Invariant.{GroupInv, new_group-GroupInv}
use hermesmq.Group.Advance.{advance_watermark-GroupInv}
use hermesmq.Group.Leasing.{stamped-GroupInv}
use hermesmq.Topic.{
  TopicState, first_offset, remove_all, drop_consumed, gc_idle_groups, reclaim, stamp,
  sweep_idle_groups, sweep, catch_up, prune_dedup, purge_offsets, purge_retained, purge_set,
  group_entry, touch, commit_group, commit_topic, min_watermark,
}
use hermesmq.Topic.Dedup.{prune_loop-Matches}
use hermesmq.Topic.Invariant.{
  TopicInv, messages-TopicInv, dedup-TopicInv, map_groups-TopicInv, retain_groups-TopicInv,
  put_group-TopicInv, retain_messages-TopicInv, group-GroupInv, first_offset-le, remove_all-keeps,
}

module _ (c k : ℕ) where
  drop_consumed-TopicInv : (t : TopicState) → TopicInv c k t → TopicInv c k (drop_consumed t)
  unfolding drop_consumed range_from
  drop_consumed-TopicInv t v = elim (Option-cases (min_watermark t.groups)) [
    | inl e ↦ rw (e, drop_consumed) v
    | inr (boundary, e) ↦ elim (Option-cases (first_key t.messages)) [
      | inl f ↦ rw (e, drop_consumed, f, drop_consumed) v
      | inr (first, f) ↦
          rw (e, drop_consumed, f, drop_consumed)
            (elim (Bool-cases (ltb first boundary)) [
              | inl more ↦ rw more (retain_messages-TopicInv c k t v _)
              | inr done ↦ rw done v
            ])
    ]
  ]

  gc_idle_groups-TopicInv : (t : TopicState) → TopicInv c k t → TopicInv c k (gc_idle_groups t)
  unfolding gc_idle_groups
  gc_idle_groups-TopicInv t v =
      elim (Bool-cases (leb (length t.groups) group_gc_threshold || not (is_empty t.messages))) [
        | inl h ↦ rw h v
        | inr h ↦ rw h (retain_groups-TopicInv c k t v _)
      ]

  pub reclaim-TopicInv : (t : TopicState) → TopicInv c k t → TopicInv c k (reclaim t)
  unfolding reclaim
  reclaim-TopicInv t v = gc_idle_groups-TopicInv _ (drop_consumed-TopicInv t v)

  stamp-GroupInv : (n now : ℕ) (g : GroupState) → GroupInv n k g → GroupInv n k (stamp now g)
  unfolding stamp
  stamp-GroupInv n now g v = elim (Bool-cases (g.last_active_ms == 0)) [
    | inl h ↦ rw h (stamped-GroupInv n k g.poll_count now g v)
    | inr h ↦ rw h v
  ]

  sweep_idle_groups-TopicInv :
      (now : ℕ) (t : TopicState) → TopicInv c k t → TopicInv c k (sweep_idle_groups now t).0
  unfolding sweep_idle_groups
  sweep_idle_groups-TopicInv now t v =
      retain_groups-TopicInv c k _
        (map_groups-TopicInv c k t v (stamp now) (stamp-GroupInv t.next_offset now)) _

  pub sweep-TopicInv : (now : ℕ) (t : TopicState) → TopicInv c k t → TopicInv c k (sweep now t)
  unfolding sweep
  sweep-TopicInv now t v = elim (Bool-cases (sweep_idle_groups now t).1) [
    | inl h ↦ rw h (reclaim-TopicInv _ (sweep_idle_groups-TopicInv now t v))
    | inr h ↦ rw h (sweep_idle_groups-TopicInv now t v)
  ]

  module _ (fits : c ≤ u64_max) where
    catch_up-GroupInv :
        (n boundary : ℕ) (g : GroupState)
        → n ≤ c
        → boundary ≤ n
        → GroupInv n k g
        → GroupInv n k (catch_up boundary g)
    unfolding catch_up
    catch_up-GroupInv n boundary g p h v = elim (Bool-cases (ltb g.ack_watermark boundary)) [
      | inl b ↦ rw b (advance_watermark-GroupInv n k (omega arith) boundary g v h)
      | inr b ↦ rw b v
    ]

    prune_dedup-TopicInv :
        (boundary : Offset) (t : TopicState)
        → TopicInv c k t
        → TopicInv c k (prune_dedup boundary t)
    unfolding prune_dedup
    prune_dedup-TopicInv boundary t v =
        let (m, h) = prune_loop-Matches boundary t.dedup_order t.dedup v.matches in
        dedup-TopicInv c k t v _ _ m (omega (arith, v.capacity, h))

    purge_offsets-TopicInv :
        (purge : List Offset) (t : TopicState)
        → TopicInv c k t
        → TopicInv c k (purge_offsets purge t)
    unfolding purge_offsets
    purge_offsets-TopicInv purge t v =
        let (s, a) =
          remove_all-keeps t.next_offset purge t.messages v.sorted_messages v.messages_range in
        let v1 = messages-TopicInv c k t v (remove_all purge t.messages) s a in
        let b = first_offset-le (record t { messages = remove_all purge t.messages }) a in
        prune_dedup-TopicInv _ _ (
          map_groups-TopicInv c k _ v1 _ (λ g h. catch_up-GroupInv t.next_offset _ g v.next_le b h))

    pub purge_retained-TopicInv :
        (now : ℕ) (t : TopicState) → TopicInv c k t → TopicInv c k (purge_retained now t)
    unfolding purge_retained
    purge_retained-TopicInv now t v = elim (Bool-cases (is_empty (keys (purge_set t now)))) [
      | inl h ↦ rw h v
      | inr h ↦ rw h (purge_offsets-TopicInv _ t v)
    ]

    -- The group that `group_entry` finds or creates.
    group_entry-GroupInv :
        (group : Name) (now : Option ℕ) (t : TopicState) (g : GroupState)
        → TopicInv c k t
        → group_entry group now t ≡ some g
        → GroupInv t.next_offset k g
    unfolding group_entry
    group_entry-GroupInv group now t g v e = ground (
      arith,
      group-GroupInv c k t v group g,
      new_group-GroupInv t.next_offset k (first_offset t) (elim now [ some now ↦ now | none ↦ 0 ])
          (first_offset-le t v.messages_range),
    )

    touch-GroupInv :
        (n : ℕ) (now : Option ℕ) (g : GroupState) → GroupInv n k g → GroupInv n k (touch now g)
    unfolding touch
    touch-GroupInv n none g v = v
    touch-GroupInv n (some now) g v = stamped-GroupInv n k g.poll_count _ g v

    commit_group-TopicInv :
        (group : Name) (offset : Offset) (now : Option ℕ) (t : TopicState)
        → TopicInv c k t
        → TopicInv c k (commit_group group offset now t)
    unfolding commit_group
    commit_group-TopicInv group offset now t v = elim (Option-cases (group_entry group now t)) [
      | inl e ↦ rw (e, commit_group) v
      | inr (g, e) ↦
          rw (e, commit_group)
            (put_group-TopicInv c k t v group _ (
              touch-GroupInv t.next_offset now _ (
                advance_watermark-GroupInv t.next_offset k (omega (arith, v.next_le)) _ g
                  (group_entry-GroupInv group now t g v e) (omega arith))))
    ]

    pub commit_topic-TopicInv :
        (group : Name) (offset : Offset) (now : Option ℕ) (t : TopicState)
        → TopicInv c k t
        → TopicInv c k (commit_topic group offset now t)
    unfolding commit_topic
    commit_topic-TopicInv group offset none t v = commit_group-TopicInv group offset none t v
    commit_topic-TopicInv group offset (some now) t v =
        commit_group-TopicInv group offset (some now) _ (sweep-TopicInv now t v)
