-- ===== src/Client/Subscription.antt =====
-- crates/hermesmq-core/src/client.rs: `handle_subscribe`. Its reader and its loop run side by side, so a
-- session is a sequence of events, in any order: the reader takes a frame or ends, the loop begins a
-- round or pushes the next message that its poll brought. An event carries what it reads of the clocks,
-- the queue, Raft and the socket.
use hermesmq.Prelude.{
  ℕ, ◌-◌, List, [], ◌∷◌, ◌++◌, Bool, true, false, not, ◌&&◌, ◌||◌, Option, none, some,
  if◌then◌else◌, ltb, leb, is_empty, min, max, saturating_add,
}
use hermesmq.Types.{Name, LeaseId, Delivered, AppRequest, polled}
use hermesmq.Queue.{Queue, has_deliverable, rate_config, lease_ids}
use hermesmq.Tracking.{
  SubTracking, no_tracking, push, refreshed, already_acked, deliver, resolve, drain_leases,
  live_count,
}
use hermesmq.Limiter.{RateLimiter, granted, limited}
use hermesmq.Client.{Subscribe, Response, resp_not_leader, check_names, Write, wrote, failed}
use hermesmq.Client.Acks.{AckJob}
use hermesmq.Client.Polling.{
  max_poll_max, visibility_of, is_auto, take_grant, refund_unused, poll_request,
}
use hermesmq.Client.Requests.{RequestKind, ack, nack}

abbrev pub ack_grace_ms : ℕ
ack_grace_ms = 5000

-- in nanoseconds
abbrev pub subscribe_heartbeat : ℕ
subscribe_heartbeat = 10000000000

-- `prefetch.clamp(1, MAX_POLL_MAX)`
unfoldable pub prefetch_of : ℕ → ℕ
prefetch_of wanted = min (max wanted 1) max_poll_max

-- The session: what it shares with the reader, what it sent to the batcher of acknowledgements and to
-- the client, and the messages of the last poll that are not pushed yet.
pub record SubSession : Type 0 where
  pub tracking : SubTracking
  pub limiter : RateLimiter
  pub acks : List AckJob
  pub pushed : List Delivered
  pub pending : List Delivered
  pub undelivered : List LeaseId
  pub last_write : ℕ
  pub closed : Bool
  pub over : Bool

unfoldable pub new_session : RateLimiter → ℕ → SubSession
new_session limiter now = record {
  tracking = no_tracking;
  limiter = limiter;
  acks = [];
  pushed = [];
  pending = [];
  undelivered = [];
  last_write = now;
  closed = false;
  over = false;
}

unfoldable pub sub_job : Subscribe → LeaseId → Bool → AckJob
sub_job sub lease_id is_nack = record {
  topic = sub.topic;
  group = sub.group;
  lease_id = lease_id;
  nack = is_nack;
  reply = none;
}

abbrev pub or_lease : Option LeaseId → LeaseId → LeaseId
or_lease none lease_id = lease_id
or_lease (some current) lease_id = current

-- The reader resolves a lease, and passes on the one that is current.
unfoldable pub resolve_lease : Subscribe → LeaseId → Bool → Option ℕ → SubSession → SubSession
resolve_lease sub lease_id is_nack acked_until s =
    let r = resolve lease_id acked_until s.tracking in
    record s { tracking = r.0; acks = s.acks ++ (sub_job sub (or_lease r.1 lease_id) is_nack ∷ []) }

-- A frame that the reader takes; `none` is one that cannot be decoded.
unfoldable pub take_frame : Subscribe → ℕ → Option (Option RequestKind) → SubSession → SubSession
take_frame sub now_ms (some (some (ack topic group lease_id))) s =
    if is_auto sub.ack_mode
    then s
    else resolve_lease sub lease_id false (some (saturating_add now_ms ack_grace_ms)) s
take_frame sub now_ms (some (some (nack topic group lease_id))) s =
    if is_auto sub.ack_mode then s else resolve_lease sub lease_id true none s
take_frame sub now_ms _ s = s

-- What a round of the loop reads, in order; instants are in nanoseconds.
pub record SubRound : Type 0 where
  pub leads : Bool
  pub at : ℕ
  pub writes_heartbeat : Bool
  pub count_ms : ℕ
  pub queue : Queue
  pub now_ms : ℕ
  pub limits_queue : Queue
  pub take_at : ℕ
  pub ts_ms : ℕ
  pub client_write : AppRequest → Write

unfoldable pub end_session : SubSession → SubSession
end_session s = record s { over = true }

-- the messages that a write brought, with the unused part of the grant given back
unfoldable pub take_items : Subscribe → ℕ → Option (ℕ × ℕ) → Write → SubSession → SubSession
take_items sub grant cfg (failed e) s = end_session s
take_items sub grant cfg (wrote (polled items)) s = record s {
  limiter = refund_unused sub.topic grant items cfg s.limiter;
  pending = items;
}
take_items sub grant cfg (wrote other) s = s

unfoldable pub poll_items : Subscribe → ℕ → SubRound → SubSession → SubSession
poll_items sub want r s =
    let cfg = rate_config sub.topic r.limits_queue in
    let t = take_grant sub.topic want r.take_at cfg s.limiter in
    let s1 : SubSession = record s { limiter = t.0 } in
    elim t.1 [
      | limited ms ↦ s1
      | granted grant ↦
          take_items sub grant cfg
            (r.client_write (
              poll_request (is_auto sub.ack_mode) sub.topic sub.group grant
                (visibility_of sub.visibility_timeout_ms) r.ts_ms))
            s1
    ]

-- the part of a round after the heartbeat
unfoldable pub count_and_poll : Subscribe → SubRound → SubSession → SubSession
count_and_poll sub r s =
    let c = live_count r.count_ms (visibility_of sub.visibility_timeout_ms) s.tracking in
    let s1 : SubSession = record s { tracking = c.0 } in
    if ltb c.1 (prefetch_of sub.prefetch) && has_deliverable sub.topic sub.group r.now_ms r.queue
    then poll_items sub (prefetch_of sub.prefetch - c.1) r s1
    else s1

unfoldable pub begin_round : Subscribe → SubRound → SubSession → SubSession
begin_round sub r s =
    if s.closed || not r.leads
    then end_session s
    else (if leb subscribe_heartbeat (r.at - s.last_write)
        then (if r.writes_heartbeat
            then count_and_poll sub r (record s { last_write = r.at })
            else end_session s)
        else count_and_poll sub r s)

-- A message is written, or the session ends with the rest of the poll undelivered.
unfoldable pub write_item :
    Subscribe → Delivered → List Delivered → ℕ → Bool → SubSession → SubSession
write_item sub d rest at written s =
    if written
    then record s { pushed = s.pushed ++ (d ∷ []); pending = rest; last_write = at }
    else record s {
      pending = [];
      undelivered = if is_auto sub.ack_mode then s.undelivered else s.undelivered ++ lease_ids rest;
      over = true;
    }

-- The next message of the poll, at a time, with whether it can be written, and the instant after that.
unfoldable pub push_item : Subscribe → ℕ → Bool → ℕ → SubSession → SubSession
push_item sub now_ms written at s = elim s.pending [
  | [] ↦ s
  | d ∷ rest ↦
      if is_auto sub.ack_mode
      then write_item sub d rest at written s
      else (let deadline = saturating_add now_ms (visibility_of sub.visibility_timeout_ms) in
          let r = deliver d.offset d.lease_id deadline now_ms s.tracking in
          let s1 : SubSession = record s { tracking = r.0 } in
          elim r.1 [
            | refreshed ↦ record s1 { pending = rest }
            | already_acked ↦ record s1 {
              pending = rest;
              acks = s.acks ++ (sub_job sub d.lease_id false ∷ []);
            }
            | push ↦ write_item sub d rest at written s1
          ])
]

-- What happens in a session.
pub data SubEvent : Type 0 where
  frame_read : ℕ → Option (Option RequestKind) → SubEvent
  reader_ended : SubEvent
  round_begun : SubRound → SubEvent
  item_pushed : ℕ → Bool → ℕ → SubEvent

-- The loop begins a round only when the messages of the last one are pushed.
unfoldable pub sub_event : Subscribe → SubEvent → SubSession → SubSession
sub_event sub (frame_read now_ms req) s = if s.closed then s else take_frame sub now_ms req s
sub_event sub reader_ended s = record s { closed = true }
sub_event sub (round_begun r) s =
    if s.over || not (is_empty s.pending) then s else begin_round sub r s
sub_event sub (item_pushed now_ms written at) s =
    if s.over then s else push_item sub now_ms written at s

unfoldable pub sub_events : Subscribe → List SubEvent → SubSession → SubSession
sub_events sub [] s = s
sub_events sub (event ∷ events) s = sub_events sub events (sub_event sub event s)

unfoldable pub nack_jobs : Subscribe → List LeaseId → List AckJob
nack_jobs sub [] = []
nack_jobs sub (lease_id ∷ leases) = sub_job sub lease_id true ∷ nack_jobs sub leases

-- After the loop: the jobs that give back what the client has not acknowledged.
unfoldable pub hand_back : Subscribe → SubSession → List AckJob
hand_back sub s =
    if is_auto sub.ack_mode
    then []
    else nack_jobs sub (s.undelivered ++ (drain_leases s.tracking).1)

-- `handle_subscribe`: the answer that turns it away, or the session and the jobs after it.
pub data Subscribed : Type 0 where
  turned_away : Response → Subscribed
  served : SubSession → List AckJob → Subscribed

unfoldable pub handle_subscribe :
    Bool → Name → Subscribe → ℕ → List SubEvent → RateLimiter → Subscribed
handle_subscribe is_leader leader_addr sub now events limiter =
    let s = sub_events sub events (new_session limiter now) in
    if is_leader
    then elim (check_names sub.topic sub.group) [
      | some resp ↦ turned_away resp
      | none ↦ served s (hand_back sub s)
    ]
    else turned_away (resp_not_leader leader_addr)
