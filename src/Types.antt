-- ===== src/Types.antt =====
-- crates/hermesmq-core/src/types.rs and raft.rs: messages, requests and responses. A string is
-- the list of its bytes, which is what its length and its order are about.
use hermesmq.Prelude.{ℕ, List}

abbrev pub Offset : Type 0
Offset = ℕ

abbrev pub LeaseId : Type 0
LeaseId = ℕ

abbrev pub Priority : Type 0
Priority = ℕ

-- `String`, `TopicId` and `GroupId`
abbrev pub Name : Type 0
Name = List ℕ

-- `bytes::Bytes`
abbrev pub Bytes : Type 0
Bytes = List ℕ

pub data ContentType : Type 0 where
  raw text json msg_pack : ContentType

pub record Message : Type 0 where
  pub offset : Offset
  pub priority : Priority
  pub content_type : ContentType
  pub payload : Bytes
  pub ts_ms : ℕ

pub record ProduceItem : Type 0 where
  pub topic : Name
  pub priority : Priority
  pub content_type : ContentType
  pub payload : Bytes
  pub producer_id : Name
  pub seq : ℕ
  pub ts_ms : ℕ

pub record Delivered : Type 0 where
  pub lease_id : LeaseId
  pub offset : Offset
  pub priority : Priority
  pub content_type : ContentType
  pub payload : Bytes
  pub ts_ms : ℕ

-- The fields of a variant in the order of the source.
pub data AppRequest : Type 0 where
  produce : ProduceItem → AppRequest
  poll : Name → Name → ℕ → ℕ → ℕ → AppRequest
  ack : Name → Name → LeaseId → AppRequest
  nack : Name → Name → LeaseId → AppRequest
  commit_offset : Name → Name → Offset → AppRequest
  create_topic : Name → AppRequest
  delete_topic : Name → AppRequest
  set_rate_limit : Name → ℕ → ℕ → AppRequest
  set_retention : Name → ℕ → ℕ → AppRequest
  ack_many : Name → Name → List LeaseId → AppRequest
  produce_many : List ProduceItem → AppRequest
  nack_many : Name → Name → List LeaseId → AppRequest
  poll_auto : Name → Name → ℕ → ℕ → ℕ → AppRequest
  commit_offset_at : Name → Name → Offset → ℕ → AppRequest

-- The texts of `Rejected`, with the numbers that they print.
pub data Reason : Type 0 where
  topic_name_too_long : ℕ → Reason
  group_name_too_long : ℕ → Reason
  producer_id_too_long : ℕ → Reason
  topic_limit_reached : Reason

pub data AppResponse : Type 0 where
  produced : Offset → AppResponse
  polled : List Delivered → AppResponse
  acked : AppResponse
  nacked : AppResponse
  committed : AppResponse
  topic_created : AppResponse
  topic_deleted : AppResponse
  rate_limit_set : AppResponse
  retention_set : AppResponse
  no_op : AppResponse
  produced_many : List Offset → AppResponse
  rejected : Reason → AppResponse
