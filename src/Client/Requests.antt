-- ===== src/Client/Requests.antt =====
-- crates/hermesmq-core/src/client.rs: `handle_request`, `handle_bootstrap` and `stats_response`; the
-- messages are those of crates/hermesmq-proto/proto/hermesmq.proto. What the rest of the node answers is
-- in `Node`; a rate is an opaque number, which `round_milli` turns into thousandths.
use hermesmq.Prelude.{ℕ, List, [], ◌∷◌, Bool, false, Option, none, some, if◌then◌else◌, ◌==◌}
use hermesmq.Ord.{nat_ord, list_ord}
use hermesmq.Map.{Map, insert, remove}
use hermesmq.Types.{Offset, LeaseId, Name, AppRequest}
use hermesmq.Queue.{Queue}
use hermesmq.Queue.Report.{QueueMetrics, metrics}
use hermesmq.Limiter.{RateLimiter, forget}
use hermesmq.Client.{
  Produce, Poll, Subscribe, Response, stats, bad_request, bootstrap_failed, other, empty_request,
  subscribe_takes_over, resp_ok, resp_error, Write, map_write, check_names, check_new_topic,
}
use hermesmq.Client.Batcher.{Notifiers, Reply, handle_produce}
use hermesmq.Client.Acks.{enqueue_ack, is_ok}
use hermesmq.Client.Polling.{PollRound, handle_poll}

pub data RequestKind : Type 0 where
  bootstrap : List (ℕ × Name) → RequestKind
  get_stats : RequestKind
  produce : Produce → RequestKind
  poll : Poll → RequestKind
  auth : Name → RequestKind
  set_rate_limit : Name → ℕ → ℕ → RequestKind
  set_retention : Name → ℕ → ℕ → RequestKind
  ack nack : Name → Name → LeaseId → RequestKind
  commit : Name → Name → Offset → RequestKind
  create_topic delete_topic : Name → RequestKind
  subscribe : Subscribe → RequestKind

-- `raft.metrics()`
pub record RaftMetrics : Type 0 where
  pub id : ℕ
  pub last_applied : Option ℕ
  pub current_leader : Option ℕ
  pub current_term : ℕ
  pub last_log_index : Option ℕ

-- `raft.initialize`: done, not allowed since the node has a log, or failed
pub data Initialized : Type 0 where
  init_ok init_not_allowed : Initialized
  init_failed : ℕ → Initialized

-- What a request finds: the queue of the node, and what Raft, the batchers and the clock answer.
pub record Node : Type 0 where
  pub queue : Queue
  pub raft : RaftMetrics
  pub leader_addr : Name
  pub initialize : Map ℕ Name → Initialized
  pub client_write : AppRequest → Write
  pub reply : Reply
  pub now_ms : ℕ
  pub start : ℕ
  pub rounds : List PollRound

-- What a request may change of the port's own state.
pub record Ctx : Type 0 where
  pub limiter : RateLimiter
  pub notifiers : Notifiers

unfoldable pub members : List (ℕ × Name) → Map ℕ Name → Map ℕ Name
members [] m = m
members ((id, addr) ∷ nodes) m = members nodes (insert id addr m)

unfoldable pub handle_bootstrap : Node → List (ℕ × Name) → Response
handle_bootstrap node nodes = elim (node.initialize (members nodes [])) [
  | init_ok ↦ resp_ok
  | init_not_allowed ↦ resp_ok
  | init_failed n ↦ resp_error bootstrap_failed (other n)
]

abbrev pub or_zero : Option ℕ → ℕ
or_zero none = 0
or_zero (some n) = n

unfoldable pub leads : RaftMetrics → Bool
leads m = elim m.current_leader [ none ↦ false | some id ↦ id == m.id ]

unfoldable pub stats_response : Node → Response
stats_response node =
    let qm : QueueMetrics = metrics node.queue in
    stats (record {
      last_applied = or_zero node.raft.last_applied;
      current_leader = or_zero node.raft.current_leader;
      current_term = node.raft.current_term;
      last_log_index = or_zero node.raft.last_log_index;
      is_leader = leads node.raft;
      topics = qm.topics;
      messages = qm.messages;
      in_flight = qm.in_flight;
    })

-- a request that is written unless a check turns it away
unfoldable pub write_checked : Option Response → Node → AppRequest → Response
write_checked (some resp) node app = resp
write_checked none node app = map_write (node.client_write app)

unfoldable pub ack_checked : Option Response → Node → Response
ack_checked (some resp) node = resp
ack_checked none node = enqueue_ack node.reply

unfoldable pub handle_delete : Name → Node → Ctx → Ctx × Response
handle_delete topic node ctx =
    let resp = map_write (node.client_write (AppRequest.delete_topic topic)) in
    (
      if is_ok resp
          then record ctx {
            limiter = forget topic ctx.limiter;
            notifiers = remove topic ctx.notifiers;
          }
          else ctx,
      resp,
    )

module _ (round_milli : ℕ → ℕ) where
  -- `none` is the request without a kind; no answer is a poll whose rounds end too soon.
  unfoldable pub handle_request : Node → Option RequestKind → Ctx → Ctx × Option Response
  handle_request node none ctx = (ctx, some (resp_error bad_request empty_request))
  handle_request node (some (bootstrap nodes)) ctx = (ctx, some (handle_bootstrap node nodes))
  handle_request node (some get_stats) ctx = (ctx, some (stats_response node))
  handle_request node (some (produce p)) ctx = (ctx, some (handle_produce p node.queue node.reply))
  handle_request node (some (poll p)) ctx =
      let r = handle_poll (leads node.raft) node.leader_addr p node.start node.rounds ctx.limiter in
      (record ctx { limiter = r.0 }, r.1)
  handle_request node (some (auth token)) ctx = (ctx, some resp_ok)
  handle_request node (some (set_rate_limit topic rate burst)) ctx = (
    ctx,
    some (
        write_checked (check_new_topic topic node.queue) node
          (AppRequest.set_rate_limit topic (round_milli rate) burst)),
  )
  handle_request node (some (set_retention topic max_messages max_age_ms)) ctx = (
    ctx,
    some (
        write_checked (check_new_topic topic node.queue) node
          (AppRequest.set_retention topic max_messages max_age_ms)),
  )
  handle_request node (some (ack topic group id)) ctx =
      (ctx, some (ack_checked (check_names topic group) node))
  handle_request node (some (nack topic group id)) ctx =
      (ctx, some (ack_checked (check_names topic group) node))
  handle_request node (some (commit topic group offset)) ctx = (
    ctx,
    some (
        write_checked (check_names topic group) node
          (AppRequest.commit_offset_at topic group offset node.now_ms)),
  )
  handle_request node (some (create_topic topic)) ctx = (
    ctx,
    some (write_checked (check_new_topic topic node.queue) node (AppRequest.create_topic topic)),
  )
  handle_request node (some (delete_topic topic)) ctx =
      let r = handle_delete topic node ctx in (r.0, some r.1)
  handle_request node (some (subscribe sub)) ctx =
      (ctx, some (resp_error bad_request subscribe_takes_over))
