-- ===== src/Client.antt =====
-- crates/hermesmq-proto/proto/hermesmq.proto and crates/hermesmq-core/src/client.rs: the messages of
-- the client port, the answers, and the checks that turn a request away before it is written. Text is
-- a constructor with what it prints.
pub mod Checks
pub mod Batcher
pub mod Batches
pub mod Wakeups
pub mod Acks
pub mod Grouped
pub mod Polling
pub mod Waits
pub mod Requests
pub mod Connection
pub mod Auth
pub mod Transparent
pub mod Subscription
pub mod Handback
pub mod Unsent
pub mod Polled
pub mod Prefetch
pub mod Held
pub mod Sessions
use hermesmq.Prelude.{
  ℕ, List, [], ◌∷◌, Bool, true, false, not, Option, none, some, if◌then◌else◌, ltb, ◌==◌, length,
}
use hermesmq.Types.{
  Offset, LeaseId, Name, Bytes, ContentType, raw, text, json, msg_pack, Delivered, AppResponse,
  Reason, topic_name_too_long, group_name_too_long, producer_id_too_long, topic_limit_reached,
  produced, polled, acked, nacked, committed, topic_created, topic_deleted, rate_limit_set,
  retention_set, no_op, produced_many, rejected,
}
use hermesmq.Limits.{max_name_bytes}
use hermesmq.Queue.{Queue, topic_admits}

abbrev pub max_payload_bytes : ℕ
max_payload_bytes = 1048576

abbrev pub max_priority : ℕ
max_priority = 7

pub record Produce : Type 0 where
  pub topic : Name
  pub priority : ℕ
  pub content_type : ℕ
  pub payload : Bytes
  pub producer_id : Name
  pub seq : ℕ

pub record Poll : Type 0 where
  pub topic : Name
  pub group : Name
  pub max : ℕ
  pub visibility_timeout_ms : ℕ
  pub ack_mode : Name
  pub wait_ms : ℕ

pub record Subscribe : Type 0 where
  pub topic : Name
  pub group : Name
  pub prefetch : ℕ
  pub visibility_timeout_ms : ℕ
  pub ack_mode : Name

pub record ProtoDelivered : Type 0 where
  pub lease_id : LeaseId
  pub offset : Offset
  pub priority : ℕ
  pub content_type : ℕ
  pub payload : Bytes
  pub ts_ms : ℕ

pub data ErrorCode : Type 0 where
  not_leader rate_limited bad_request rejected_by_queue payload_too_large internal unauthorized
        bootstrap_failed :
      ErrorCode

-- The messages of errors; `other` is a text that a library prints.
pub data ErrorText : Type 0 where
  retry_at_leader rate_limit_exceeded authenticate_first empty_request : ErrorText
  unexpected_batched_response unexpected_batch_response subscribe_takes_over : ErrorText
  produce_batcher_gone produce_batcher_dropped ack_batcher_gone ack_batcher_dropped : ErrorText
  payload_is : ℕ → ErrorText
  of_reason : Reason → ErrorText
  other : ℕ → ErrorText

pub record ProtoError : Type 0 where
  pub code : ErrorCode
  pub message : ErrorText
  pub leader_addr : Name
  pub retry_after_ms : ℕ

pub record StatsResult : Type 0 where
  pub last_applied : ℕ
  pub current_leader : ℕ
  pub current_term : ℕ
  pub last_log_index : ℕ
  pub is_leader : Bool
  pub topics : ℕ
  pub messages : ℕ
  pub in_flight : ℕ

-- `Response.kind`, which the server always sets
pub data Response : Type 0 where
  produced_at : Offset → Response
  items : List ProtoDelivered → Response
  done : Response
  error : ProtoError → Response
  stats : StatsResult → Response

unfoldable pub ct_from_u32 : ℕ → ContentType
ct_from_u32 v =
    if v == 1 then text else (if v == 2 then json else (if v == 3 then msg_pack else raw))

unfoldable pub ct_to_u32 : ContentType → ℕ
ct_to_u32 raw = 0
ct_to_u32 text = 1
ct_to_u32 json = 2
ct_to_u32 msg_pack = 3

unfoldable pub resp_ok : Response
resp_ok = done

unfoldable pub resp_error : ErrorCode → ErrorText → Response
resp_error code message =
    error (record { code = code; message = message; leader_addr = []; retry_after_ms = 0 })

unfoldable pub resp_not_leader : Name → Response
resp_not_leader addr = error (record {
  code = not_leader;
  message = retry_at_leader;
  leader_addr = addr;
  retry_after_ms = 0;
})

unfoldable pub resp_rate_limited : ℕ → Response
resp_rate_limited retry_after_ms = error (record {
  code = rate_limited;
  message = rate_limit_exceeded;
  leader_addr = [];
  retry_after_ms = retry_after_ms;
})

unfoldable pub proto_delivered : Delivered → ProtoDelivered
proto_delivered d = record {
  lease_id = d.lease_id;
  offset = d.offset;
  priority = d.priority;
  content_type = ct_to_u32 d.content_type;
  payload = d.payload;
  ts_ms = d.ts_ms;
}

unfoldable pub proto_items : List Delivered → List ProtoDelivered
proto_items [] = []
proto_items (d ∷ ds) = proto_delivered d ∷ proto_items ds

unfoldable pub resp_polled : List Delivered → Response
resp_polled ds = items (proto_items ds)

-- `RaftError<NodeId, ClientWriteError>`: where to forward to, if it is known, or another error
pub data WriteError : Type 0 where
  forward_to_leader : Option Name → WriteError
  other_error : ℕ → WriteError

unfoldable pub map_raft_error : WriteError → Response
map_raft_error (forward_to_leader (some addr)) = resp_not_leader addr
map_raft_error (forward_to_leader none) = resp_not_leader []
map_raft_error (other_error n) = resp_error internal (other n)

unfoldable pub app_response_to_proto : AppResponse → Response
app_response_to_proto (produced offset) = produced_at offset
app_response_to_proto (polled ds) = resp_polled ds
app_response_to_proto (rejected reason) = resp_error rejected_by_queue (of_reason reason)
app_response_to_proto (produced_many offsets) = resp_error internal unexpected_batched_response
app_response_to_proto acked = resp_ok
app_response_to_proto nacked = resp_ok
app_response_to_proto committed = resp_ok
app_response_to_proto topic_created = resp_ok
app_response_to_proto topic_deleted = resp_ok
app_response_to_proto rate_limit_set = resp_ok
app_response_to_proto retention_set = resp_ok
app_response_to_proto no_op = resp_ok

-- What `client_write` returns.
pub data Write : Type 0 where
  wrote : AppResponse → Write
  failed : WriteError → Write

-- `write_and_map`, from the result of the write on
unfoldable pub map_write : Write → Response
map_write (wrote r) = app_response_to_proto r
map_write (failed e) = map_raft_error e

-- `none` is `Ok(())`; the kind of name that the text begins with is the argument `reason`.
unfoldable pub check_len : (ℕ → Reason) → Name → ℕ → Option Response
check_len reason value max =
    if ltb max (length value)
    then some (resp_error bad_request (of_reason (reason (length value))))
    else none

unfoldable pub check_names : Name → Name → Option Response
check_names topic group = elim (check_len topic_name_too_long topic max_name_bytes) [
  | some resp ↦ some resp
  | none ↦ check_len group_name_too_long group max_name_bytes
]

unfoldable pub check_new_topic : Name → Queue → Option Response
check_new_topic topic q = elim (check_names topic []) [
  | some resp ↦ some resp
  | none ↦
      if not (topic_admits topic q)
      then some (resp_error rejected_by_queue (of_reason topic_limit_reached))
      else none
]
