-- ===== src/Topic.antt =====
-- crates/hermesmq-core/src/queue.rs: `TopicState` and the functions on one topic: retention,
-- reclaiming of consumed messages, expiry of groups, and commits.
pub mod Dedup
pub mod Invariant
pub mod Steps
pub mod Reclaim
use hermesmq.Prelude.{
  ℕ, zero, suc, ◌+◌, ◌-◌, List, [], ◌∷◌, Bool, true, false, not, ◌&&◌, ◌||◌, Option, none, some,
  if◌then◌else◌, ltb, leb, ◌==◌, length, min, max, is_empty, any,
}
use hermesmq.Ord.{nat_ord, pair_ord, list_ord}
use hermesmq.Map.{
  Map, Set, get, has, insert, remove, retain, range_from, keys, first_key, map_values,
}
use hermesmq.Types.{Offset, Name, Message}
use hermesmq.Limits.{
  default_retain_max_messages, group_gc_threshold, group_idle_expire_ms, max_groups_per_topic,
  dedup_capacity,
}
use hermesmq.Group.{GroupState, Lease, new_group, advance_watermark}

-- `(producer_id, seq)`
abbrev pub DedupKey : Type 0
DedupKey = Name × ℕ

pub record TopicState : Type 0 where
  pub next_offset : Offset
  pub messages : Map Offset Message
  pub dedup : Map DedupKey Offset
  pub dedup_order : List DedupKey
  pub groups : Map Name GroupState
  pub rate_milli_per_sec : ℕ
  pub burst : ℕ
  pub retain_max_messages : ℕ
  pub retain_max_age_ms : ℕ

-- `TopicState::default()`
unfoldable pub new_topic : TopicState
new_topic = record {
  next_offset = 0;
  messages = [];
  dedup = [];
  dedup_order = [];
  groups = [];
  rate_milli_per_sec = 0;
  burst = 0;
  retain_max_messages = 0;
  retain_max_age_ms = 0;
}

unfoldable pub effective_retention : TopicState → ℕ × ℕ
effective_retention t =
    if t.retain_max_messages == 0 && t.retain_max_age_ms == 0
    then (default_retain_max_messages, 0)
    else (t.retain_max_messages, t.retain_max_age_ms)

-- the loop over the messages that are too old, which stops at the first that is not
unfoldable pub purge_aged : ℕ → ℕ → Map Offset Message → Set Offset → Set Offset
purge_aged now_ms max_age_ms [] purge = purge
purge_aged now_ms max_age_ms ((offset, m) ∷ ms) purge =
    let rest = purge_aged now_ms max_age_ms ms (insert offset tt purge) in
    if ltb max_age_ms (now_ms - m.ts_ms) then rest else purge

-- the loop over the oldest messages of a topic that holds `need` too many
unfoldable pub purge_surplus : List Offset → ℕ → Set Offset → Set Offset
purge_surplus [] need purge = purge
purge_surplus (offset ∷ os) zero purge = purge
purge_surplus (offset ∷ os) (suc need) purge =
    purge_surplus os (if has offset purge then suc need else need) (insert offset tt purge)

-- the offsets that retention removes
unfoldable pub purge_set : TopicState → ℕ → Set Offset
unfolding effective_retention
purge_set t now_ms =
    let (max_messages, max_age_ms) = effective_retention t in
    let aged : Set Offset =
      (if ltb 0 max_age_ms then purge_aged now_ms max_age_ms t.messages [] else []) in
    let kept : ℕ = length t.messages - length aged in
    if ltb 0 max_messages && ltb max_messages kept
    then purge_surplus (keys t.messages) (kept - max_messages) aged
    else aged

-- `for offset in &purge { t.messages.remove(offset); }`
unfoldable pub remove_all : List Offset → Map Offset Message → Map Offset Message
remove_all [] ms = ms
remove_all (o ∷ os) ms = remove_all os (remove o ms)

-- `t.messages.keys().next().copied().unwrap_or(t.next_offset)`
unfoldable pub first_offset : TopicState → Offset
first_offset t = elim (first_key t.messages) [ some o ↦ o | none ↦ t.next_offset ]

-- `t.dedup.get(key).is_none_or(|offset| *offset < boundary)`
unfoldable pub is_stale : Offset → DedupKey → Map DedupKey Offset → Bool
is_stale boundary key dedup = elim (get key dedup) [ none ↦ true | some o ↦ ltb o boundary ]

-- the loop of `prune_dedup`, on the order that is left and the table
unfoldable pub prune_loop :
    Offset → List DedupKey → Map DedupKey Offset → List DedupKey × Map DedupKey Offset
prune_loop boundary [] dedup = ([], dedup)
prune_loop boundary (key ∷ order) dedup =
    let rest = prune_loop boundary order (remove key dedup) in
    if is_stale boundary key dedup then rest else (key ∷ order, dedup)

unfoldable pub prune_dedup : Offset → TopicState → TopicState
prune_dedup boundary t =
    let pruned = prune_loop boundary t.dedup_order t.dedup in
    record t { dedup_order = pruned.0; dedup = pruned.1 }

-- `if boundary > g.ack_watermark { g.advance_watermark(boundary); }`
unfoldable pub catch_up : Offset → GroupState → GroupState
catch_up boundary g = if ltb g.ack_watermark boundary then advance_watermark boundary g else g

-- what `purge_retained` does once it knows what to remove
unfoldable pub purge_offsets : List Offset → TopicState → TopicState
purge_offsets purge t =
    let t1 : TopicState = record t { messages = remove_all purge t.messages } in
    let boundary : Offset = first_offset t1 in
    prune_dedup boundary (record t1 { groups = map_values (catch_up boundary) t1.groups })

unfoldable pub purge_retained : ℕ → TopicState → TopicState
purge_retained now_ms t =
    let purge = keys (purge_set t now_ms) in if is_empty purge then t else purge_offsets purge t

-- `t.groups.values().map(|g| g.ack_watermark).min()`
unfoldable pub min_watermark : Map Name GroupState → Option Offset
min_watermark [] = none
min_watermark ((_, g) ∷ gs) =
    some (elim (min_watermark gs) [ none ↦ g.ack_watermark | some w ↦ min g.ack_watermark w ])

-- caught up, with nothing outstanding
unfoldable pub is_idle : Offset → GroupState → Bool
is_idle next g =
    leb next g.ack_watermark
    && is_empty g.in_flight
    && is_empty g.leased_offsets
    && is_empty g.acked_above

unfoldable pub gc_idle_groups : TopicState → TopicState
gc_idle_groups t =
    if leb (length t.groups) group_gc_threshold || not (is_empty t.messages)
    then t
    else record t { groups = retain (λ _ g. not (is_idle t.next_offset g)) t.groups }

-- the part of `reclaim` before the collection of groups
unfoldable pub drop_consumed : TopicState → TopicState
drop_consumed t = elim (min_watermark t.groups) [
  | none ↦ t
  | some boundary ↦ elim (first_key t.messages) [
    | none ↦ t
    | some first ↦
        if ltb first boundary then record t { messages = range_from boundary t.messages } else t
  ]
]

unfoldable pub reclaim : TopicState → TopicState
reclaim t = gc_idle_groups (drop_consumed t)

unfoldable pub stamp : ℕ → GroupState → GroupState
stamp now_ms g = if g.last_active_ms == 0 then record g { last_active_ms = now_ms } else g

unfoldable pub is_live : ℕ → GroupState → Bool
is_live now_ms g =
    leb (now_ms - g.last_active_ms) group_idle_expire_ms
    || any (λ e. ltb now_ms e.1.deadline_ms) g.in_flight

-- The flag says whether a group was dropped.
unfoldable pub sweep_idle_groups : ℕ → TopicState → TopicState × Bool
sweep_idle_groups now_ms t =
    let stamped = map_values (stamp now_ms) t.groups in
    let live = retain (λ _ g. is_live now_ms g) stamped in
    (record t { groups = live }, not (length live == length stamped))

-- `if sweep_idle_groups(t, now_ms) { reclaim(t); }`
unfoldable pub sweep : ℕ → TopicState → TopicState
sweep now_ms t =
    let (t', dropped) = sweep_idle_groups now_ms t in if dropped then reclaim t' else t'

-- The group's state or a new one; `none` if the topic is full. The caller writes it back.
unfoldable pub group_entry : Name → Option ℕ → TopicState → Option GroupState
group_entry group now_ms t = elim (get group t.groups) [
  | some g ↦ some g
  | none ↦
      if leb max_groups_per_topic (length t.groups)
      then none
      else some (new_group (first_offset t) (elim now_ms [ some now ↦ now | none ↦ 0 ]))
]

abbrev pub put_group : Name → GroupState → TopicState → TopicState
put_group group g t = record t { groups = insert group g t.groups }

unfoldable pub touch : Option ℕ → GroupState → GroupState
touch none g = g
touch (some now) g = record g { last_active_ms = max g.last_active_ms now }

-- the body of `commit` at the topic, after the sweep
unfoldable pub commit_group : Name → Offset → Option ℕ → TopicState → TopicState
commit_group group offset now_ms t = elim (group_entry group now_ms t) [
  | none ↦ t
  | some g ↦ put_group group (touch now_ms (advance_watermark (min offset t.next_offset) g)) t
]

unfoldable pub commit_topic : Name → Offset → Option ℕ → TopicState → TopicState
commit_topic group offset none t = commit_group group offset none t
commit_topic group offset (some now) t = commit_group group offset (some now) (sweep now t)
