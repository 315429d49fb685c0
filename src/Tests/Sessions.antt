-- ===== src/Tests/Sessions.antt =====
-- The theorems on batches of messages and on a subscription, at two messages.
use hermesmq.Prelude.{ℕ, ◌+◌, ◌≤◌, List, [], ◌∷◌, map, true, some, ◌≡◌, refl, arith, length}
use hermesmq.Ord.{list_ord, nat_ord, list_cmp}
use hermesmq.Map.{get, insert}
use hermesmq.Types.{
  Offset, Delivered, ProduceItem, AppRequest, AppResponse, raw, produced, produced_many,
}
use hermesmq.Queue.{Queue, empty, apply, check_produce, check_items, check_item}
use hermesmq.Limits.{check_name}
use hermesmq.Queue.Apply.{run}
use hermesmq.Queue.Batch.{produce_each, produce_each-apply}
use hermesmq.Tracking.{count_live}
use hermesmq.Client.{wrote}
use hermesmq.Client.Requests.{ack}
use hermesmq.Client.Subscription.{
  SubRound, SubEvent, frame_read, round_begun, item_pushed, prefetch_of, new_session, sub_events,
  SubSession,
}
use hermesmq.Client.Sessions.{count_live-sub_events}
use hermesmq.Tests.Ports.{sub}

abbrev message : ℕ → ProduceItem
message topic = record {
  topic = topic ∷ [];
  priority = 1;
  content_type = raw;
  payload = 1 ∷ 2 ∷ [];
  producer_id = [];
  seq = 0;
  ts_ms = 5;
}

produce_each-apply_example :
    let items = message 1 ∷ message 2 ∷ message 1 ∷ [] in
    (offsets : List Offset) × ((apply (AppRequest.produce_many items) empty).1
      ≡ produced_many offsets)
    × (produce_each items empty
        ≡ ((apply (AppRequest.produce_many items) empty).0, map (λ o. produced o) offsets))
unfolding check_produce check_items check_item check_name insert get list_cmp empty
produce_each-apply_example =
    produce_each-apply (message 1 ∷ message 2 ∷ message 1 ∷ []) empty tt refl

abbrev stocked : Queue
stocked = (apply (AppRequest.produce (message 1)) empty).0

abbrev stocked_round : SubRound
stocked_round = record {
  leads = true;
  at = 0;
  writes_heartbeat = true;
  count_ms = 6;
  queue = stocked;
  now_ms = 6;
  limits_queue = stocked;
  take_at = 0;
  ts_ms = 6;
  client_write = λ app. wrote (apply app stocked).1;
}

abbrev events : List SubEvent
events =
    round_begun stocked_round
    ∷ item_pushed 7 true 1
    ∷ frame_read 8 (some (some (ack (1 ∷ []) (2 ∷ []) 0)))
    ∷ round_begun stocked_round
    ∷ []

count_live-sub_events_example :
    let s = sub_events sub events (new_session [] 0) in
    count_live 9 s.tracking.by_offset + length s.pending ≤ prefetch_of 4
count_live-sub_events_example =
    count_live-sub_events sub events 5 9 [] 0
      (omega arith, (λ app. (stocked, refl)), (omega arith, (λ app. (stocked, refl)), omega arith))

-- Two messages that a poll of the subscription's group has taken.
abbrev polled_once : Queue × AppResponse
polled_once =
    apply (AppRequest.poll (1 ∷ []) (2 ∷ []) 2 30000 6)
      (run (AppRequest.produce (message 1) ∷ AppRequest.produce (message 1) ∷ []) empty)

abbrev delivered : ℕ → Delivered
delivered n = record {
  lease_id = n;
  offset = n;
  priority = 1;
  content_type = raw;
  payload = 1 ∷ 2 ∷ [];
  ts_ms = 5;
}

abbrev polled_session : SubSession
polled_session = record (new_session [] 0) { pending = delivered 0 ∷ delivered 1 ∷ [] }
