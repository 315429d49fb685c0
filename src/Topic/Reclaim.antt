-- ===== src/Topic/Reclaim.antt =====
-- `reclaim` frees what every group has consumed, and nothing else.
use hermesmq.Prelude.{
  ◌≤◌, ◌<◌, [], ◌∷◌, not, ◌||◌, Option, none, some, ◌≡◌, refl, arith, length, if◌then◌else◌, ltb,
  leb, min, Bool-cases, Option-cases, inl, inr, is_empty, ◌∙◌,
}
use hermesmq.Ord.{nat_ord, list_ord}
use hermesmq.Map.{Map, get, first_key}
use hermesmq.Map.Lookup.{get-range_from}
use hermesmq.Map.Sorted.{IsSorted, AllEntries-imp, get-above}
use hermesmq.Types.{Offset, Name, Message}
use hermesmq.Limits.{group_gc_threshold}
use hermesmq.Group.{GroupState}
use hermesmq.Topic.{TopicState, min_watermark, drop_consumed, gc_idle_groups, reclaim}

-- The least watermark is no group's watermark or above it.
pub min_watermark-le :
    (group : Name) (g : GroupState) (gs : Map Name GroupState)
    → get group gs ≡ some g
    → (w : Offset) × (min_watermark gs ≡ some w) × (w ≤ g.ack_watermark)
unfolding min_watermark get
min_watermark-le group g [] h = absurd (ground arith)
min_watermark-le group g ((name, f) ∷ gs) h = (
  elim (min_watermark gs) [ none ↦ f.ack_watermark | some w ↦ min f.ack_watermark w ],
  refl,
  ground (arith, min_watermark-le group g gs),
)

gc-messages : (t : TopicState) → (gc_idle_groups t).messages ≡ t.messages
unfolding gc_idle_groups
gc-messages t =
    elim (Bool-cases (leb (length t.groups) group_gc_threshold || not (is_empty t.messages))) [
      | inl h ↦ rw h refl
      | inr h ↦ rw h refl
    ]

-- Below the first key there is nothing.
get_before_first :
    (o first : Offset) (ms : Map Offset Message)
    → IsSorted ms
    → first_key ms ≡ some first
    → o < first
    → get o ms ≡ none
get_before_first o first [] s f h = absurd (ground arith)
get_before_first o first ((j, m) ∷ ms) s f h =
    let e : j ≡ first = ground arith in
    get-above o ((j, m) ∷ ms) (ground arith, AllEntries-imp (λ i _ p. ground arith) ms s.0)

-- What the messages of a topic are after the consumed ones are dropped.
abbrev pub kept_from : Option Offset → Offset → Option Message → Option Message
kept_from none o m = m
kept_from (some w) o m = if ltb o w then none else m

get-drop_consumed :
    (o : Offset) (t : TopicState)
    → IsSorted t.messages
    → get o (drop_consumed t).messages ≡ kept_from (min_watermark t.groups) o (get o t.messages)
unfolding drop_consumed
get-drop_consumed o t s = elim (Option-cases (min_watermark t.groups)) [
  | inl e ↦ rw (e, drop_consumed) refl
  | inr (w, e) ↦ elim (Option-cases (first_key t.messages)) [
    | inl f ↦ rw (e, drop_consumed, f, drop_consumed) (empty w t.messages f)
    | inr (first, f) ↦
        rw (e, drop_consumed, f, drop_consumed)
          (elim (Bool-cases (ltb first w)) [
            | inl more ↦ rw more (ground (arith, get-range_from o w t.messages))
            | inr done ↦ rw done (ground (arith, get_before_first o first t.messages s f))
          ])
  ]
]
  where
    empty :
        (w : Offset) (ms : Map Offset Message)
        → first_key ms ≡ none
        → get o ms ≡ (if ltb o w then none else get o ms)
    empty w [] f = unfold get in ground arith
    empty w (e ∷ ms) f = absurd (ground arith)

-- `reclaim` keeps a message exactly if it is not below the least watermark of the groups; with no
-- group it keeps all.
pub get-reclaim :
    (o : Offset) (t : TopicState)
    → IsSorted t.messages
    → get o (reclaim t).messages ≡ kept_from (min_watermark t.groups) o (get o t.messages)
unfolding reclaim
get-reclaim o t s = rw (gc-messages (drop_consumed t)) (get-drop_consumed o t s)

-- A message that some group has yet to pass is still there after `reclaim`.
pub reclaim_keeps_unread :
    (group : Name) (g : GroupState) (o : Offset) (t : TopicState)
    → IsSorted t.messages
    → get group t.groups ≡ some g
    → g.ack_watermark ≤ o
    → get o (reclaim t).messages ≡ get o t.messages
reclaim_keeps_unread group g o t s e h =
    let (w, f, l) = min_watermark-le group g t.groups e in get-reclaim o t s ∙ rw f (ground arith)
