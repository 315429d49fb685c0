-- ===== src/Topic/Invariant.antt =====
-- The invariant of a `TopicState`, and how it is kept by changes to one part of the topic. `c` is a
-- bound on the counters, `k` the queue's next lease id.
use hermesmq.Prelude.{ℕ, ◌≤◌, ◌<◌, List, [], ◌∷◌, Bool, none, some, ◌≡◌, refl, arith, length}
use hermesmq.Ord.{nat_ord, list_ord, pair_ord}
use hermesmq.Map.{Map, get, remove, retain, map_values, first_key}
use hermesmq.Map.Sorted.{
  IsSorted, AllEntries, AllEntries-imp, AllEntries-insert, AllEntries-retain, AllEntries-get,
  AllEntries-map_values, insert-IsSorted, retain-IsSorted, remove-IsSorted, map_values-IsSorted,
}
use hermesmq.Types.{Offset, Name, Message}
use hermesmq.Limits.{dedup_capacity}
use hermesmq.Group.{GroupState}
use hermesmq.Group.Invariant.{GroupInv}
use hermesmq.Group.Leasing.{GroupInv-mono}
use hermesmq.Topic.{TopicState, DedupKey, new_topic, first_offset, remove_all, put_group}
use hermesmq.Topic.Dedup.{Matches}

-- Every message carries its own offset, and lies below `n`.
abbrev pub InRange : ℕ → Offset → Message → Type 0
InRange n o m = (m.offset ≡ o) × (o < n)

pub record TopicInv (c k : ℕ) (t : TopicState) : Type 0 where
  pub next_le : t.next_offset ≤ c
  pub sorted_messages : IsSorted t.messages
  pub messages_range : AllEntries (InRange t.next_offset) t.messages
  pub matches : Matches t.dedup_order t.dedup
  pub capacity : length t.dedup_order ≤ dedup_capacity
  pub sorted_groups : IsSorted t.groups
  pub groups_inv : AllEntries (λ _ g. GroupInv t.next_offset k g) t.groups

pub new_topic-TopicInv : (c k : ℕ) → TopicInv c k new_topic
unfolding new_topic
new_topic-TopicInv c k = record {
  next_le = omega arith;
  sorted_messages = tt;
  messages_range = tt;
  matches = record { sorted = tt; counted = refl; distinct = tt; listed = tt };
  capacity = omega arith;
  sorted_groups = tt;
  groups_inv = tt;
}

pub TopicInv-mono : (c d k j : ℕ) (t : TopicState) → c ≤ d → k ≤ j → TopicInv c k t → TopicInv d j t
TopicInv-mono c d k j t p q v = record {
  next_le = omega (arith, v.next_le);
  sorted_messages = v.sorted_messages;
  messages_range = v.messages_range;
  matches = v.matches;
  capacity = v.capacity;
  sorted_groups = v.sorted_groups;
  groups_inv =
      AllEntries-imp (λ _ g. GroupInv-mono t.next_offset t.next_offset k j g (omega arith) q)
        t.groups v.groups_inv;
}

module _ (c k : ℕ) (t : TopicState) (v : TopicInv c k t) where
  pub messages-TopicInv :
      (ms : Map Offset Message)
      → IsSorted ms
      → AllEntries (InRange t.next_offset) ms
      → TopicInv c k (record t { messages = ms })
  messages-TopicInv ms s a = record {
    next_le = v.next_le;
    sorted_messages = s;
    messages_range = a;
    matches = v.matches;
    capacity = v.capacity;
    sorted_groups = v.sorted_groups;
    groups_inv = v.groups_inv;
  }

  pub groups-TopicInv :
      (gs : Map Name GroupState)
      → IsSorted gs
      → AllEntries (λ _ g. GroupInv t.next_offset k g) gs
      → TopicInv c k (record t { groups = gs })
  groups-TopicInv gs s a = record {
    next_le = v.next_le;
    sorted_messages = v.sorted_messages;
    messages_range = v.messages_range;
    matches = v.matches;
    capacity = v.capacity;
    sorted_groups = s;
    groups_inv = a;
  }

  pub dedup-TopicInv :
      (order : List DedupKey) (dedup : Map DedupKey Offset)
      → Matches order dedup
      → length order ≤ dedup_capacity
      → TopicInv c k (record t { dedup_order = order; dedup = dedup })
  dedup-TopicInv order dedup m h = record {
    next_le = v.next_le;
    sorted_messages = v.sorted_messages;
    messages_range = v.messages_range;
    matches = m;
    capacity = h;
    sorted_groups = v.sorted_groups;
    groups_inv = v.groups_inv;
  }

  pub map_groups-TopicInv :
      (f : GroupState → GroupState)
      → ((g : GroupState) → GroupInv t.next_offset k g → GroupInv t.next_offset k (f g))
      → TopicInv c k (record t { groups = map_values f t.groups })
  map_groups-TopicInv f h = groups-TopicInv _ (map_values-IsSorted f t.groups v.sorted_groups) (
      AllEntries-map_values (λ _ g. GroupInv t.next_offset k g) f t.groups (λ _ g. h g)
        v.groups_inv)

  pub retain_groups-TopicInv :
      (p : Name → GroupState → Bool) → TopicInv c k (record t { groups = retain p t.groups })
  retain_groups-TopicInv p =
      groups-TopicInv _ (retain-IsSorted p t.groups v.sorted_groups)
        (AllEntries-retain _ p t.groups v.groups_inv)

  pub put_group-TopicInv :
      (group : Name) (g : GroupState)
      → GroupInv t.next_offset k g
      → TopicInv c k (put_group group g t)
  put_group-TopicInv group g h =
      groups-TopicInv _ (insert-IsSorted group g t.groups v.sorted_groups)
        (AllEntries-insert _ group g t.groups h v.groups_inv)

  pub retain_messages-TopicInv :
      (p : Offset → Message → Bool) → TopicInv c k (record t { messages = retain p t.messages })
  retain_messages-TopicInv p =
      messages-TopicInv _ (retain-IsSorted p t.messages v.sorted_messages)
        (AllEntries-retain _ p t.messages v.messages_range)

  -- A group of the topic satisfies its invariant.
  pub group-GroupInv :
      (group : Name) (g : GroupState) → get group t.groups ≡ some g → GroupInv t.next_offset k g
  group-GroupInv group g e = AllEntries-get _ t.groups group g v.groups_inv e

first_message-lt :
    (n : ℕ) (ms : Map Offset Message)
    → AllEntries (InRange n) ms
    → (elim (first_key ms) [ some o ↦ o | none ↦ n ]) ≤ n
first_message-lt n [] a = omega arith
first_message-lt n (e ∷ ms) a = omega arith

-- The offset at which a new group starts.
pub first_offset-le :
    (t : TopicState)
    → AllEntries (InRange t.next_offset) t.messages
    → first_offset t ≤ t.next_offset
unfolding first_offset
first_offset-le t a = first_message-lt t.next_offset t.messages a

-- Removing messages one by one keeps the order and the range.
pub remove_all-keeps :
    (n : ℕ) (os : List Offset) (ms : Map Offset Message)
    → IsSorted ms
    → AllEntries (InRange n) ms
    → IsSorted (remove_all os ms) × AllEntries (InRange n) (remove_all os ms)
unfolding remove_all
remove_all-keeps n [] ms s a = (s, a)
remove_all-keeps n (o ∷ os) ms s a =
    remove_all-keeps n os (remove o ms) (remove-IsSorted o ms s)
      (unfold remove in AllEntries-retain (InRange n) _ ms a)
