-- ===== src/Tests/Retries.antt =====
-- The theorems on a produce that is sent again and on a delivery that is repeated.
use hermesmq.Prelude.{List, [], ◌∷◌, none, some, ◌≡◌, refl, arith}
use hermesmq.Ord.{nat_ord, list_ord, list_cmp}
use hermesmq.Map.{get, insert}
use hermesmq.Topic.{
  new_topic, purge_retained, purge_set, reclaim, gc_idle_groups, drop_consumed, min_watermark,
}
use hermesmq.Topic.Invariant.{new_topic-TopicInv}
use hermesmq.Produce.{produce_topic, duplicate_of, record_dedup, append_message, evict_dedup}
use hermesmq.Produce.Resend.{
  TopicStep, producing, reclaiming, topic_step, topic_steps, produce_topic-topic_steps,
}
use hermesmq.Tracking.{SubTracking, OffsetTrack, deliver, resolve, contains, already_acked}
use hermesmq.Tracking.Acks.{deliver-resolve, resolve_ends_leases}
use hermesmq.Tests.{item}

-- Another message is produced, and consumed messages are reclaimed, before the item is sent again.
abbrev between : List TopicStep
between = producing (item 5 2) ∷ reclaiming ∷ []

produce_topic-topic_steps_example :
    let first = produce_topic (item 0 1) new_topic in
    let later = topic_steps between first.0 in
    produce_topic (item 0 1) later ≡ (purge_retained 5 later, first.1)
unfolding new_topic get duplicate_of topic_steps topic_step produce_topic purge_retained purge_set
    record_dedup append_message insert reclaim gc_idle_groups drop_consumed min_watermark
    evict_dedup list_cmp
produce_topic-topic_steps_example =
    produce_topic-topic_steps 0 0 (item 0 1) between new_topic (omega arith) (omega arith)
      (new_topic-TopicInv 0 0) refl refl refl

abbrev track : OffsetTrack
track = record { lease_id = 8; deadline_ms = 60; refreshes = 1; leases = 7 ∷ 8 ∷ [] }

abbrev tracking : SubTracking
tracking = record {
  by_offset = (3, track) ∷ [];
  lease_to_offset = (7, 3) ∷ (8, 3) ∷ [];
  acked_recently = [];
}

deliver-resolve_example :
    let r = (resolve 7 (some 90) tracking).0 in deliver 3 9 95 50 r ≡ (r, already_acked)
unfolding get
deliver-resolve_example = deliver-resolve 7 3 track 90 tracking 9 95 50 refl refl (omega arith)

resolve_ends_leases_example :
    ((resolve 7 none tracking).1 ≡ some 8)
    × (get 8 (resolve 7 none tracking).0.lease_to_offset ≡ none)
unfolding get contains
resolve_ends_leases_example = resolve_ends_leases 7 3 track none tracking 8 refl refl refl
