-- ===== src/Http.antt =====
-- crates/hermesmq-core/src/http.rs: the reading of a request, its path, and the answers. A request is
-- the list of the chunks that the socket brings. The characters that `from_utf8_lossy` makes of the bytes,
-- and which of them are white, are the standard library's, and arguments.
pub mod Path
use hermesmq.Prelude.{
  ℕ, List, [], ◌∷◌, ◌++◌, Bool, true, false, not, ◌&&◌, ◌||◌, Option, none, some, if◌then◌else◌,
  leb, ◌==◌, length, is_empty, is_some,
}
use hermesmq.Ord.{nat_ord, list_ord}
use hermesmq.Map.{same}
use hermesmq.Types.{Name, Bytes}
use hermesmq.Queue.{Queue}
use hermesmq.Queue.Report.{QueueMetrics, metrics}

abbrev pub newline : ℕ
newline = 10

abbrev pub carriage_return : ℕ
carriage_return = 13

abbrev pub slash : ℕ
slash = 47

abbrev pub question_mark : ℕ
question_mark = 63

-- `starts_with` a newline
unfoldable pub at_newline : List ℕ → Bool
at_newline [] = false
at_newline (c ∷ cs) = c == newline

-- `windows(2).any(|w| w == b"\r\n")`
unfoldable pub has_line_end : Bytes → Bool
has_line_end [] = false
has_line_end (b ∷ bs) = ((b == carriage_return) && at_newline bs) || has_line_end bs

abbrev pub max_head : ℕ
max_head = 8192

-- The loop over the chunks; an empty one is the end of the stream.
unfoldable pub read_head : List Bytes → Bytes → Bytes
read_head [] buf = buf
read_head (chunk ∷ chunks) buf =
    let rest = read_head chunks (buf ++ chunk) in
    if is_empty chunk
    then buf
    else (if has_line_end (buf ++ chunk) || leb max_head (length (buf ++ chunk))
        then buf ++ chunk
        else rest)

-- `lines().next()`: up to a newline, without a carriage return before it
unfoldable pub first_line : List ℕ → List ℕ
first_line [] = []
first_line (c ∷ cs) =
    let rest = first_line cs in
    if (c == newline) || ((c == carriage_return) && at_newline cs) then [] else c ∷ rest

-- `split('?').next()`
unfoldable pub before_query : List ℕ → List ℕ
before_query [] = []
before_query (c ∷ cs) = let rest = before_query cs in if c == question_mark then [] else c ∷ rest

module _ (is_white : ℕ → Bool) where
  unfoldable pub skip_white : List ℕ → List ℕ
  skip_white [] = []
  skip_white (c ∷ cs) = let rest = skip_white cs in if is_white c then rest else c ∷ cs

  unfoldable pub word : List ℕ → List ℕ
  word [] = []
  word (c ∷ cs) = let rest = word cs in if is_white c then [] else c ∷ rest

  unfoldable pub after_word : List ℕ → List ℕ
  after_word [] = []
  after_word (c ∷ cs) = let rest = after_word cs in if is_white c then c ∷ cs else rest

  -- `split_whitespace().nth(1).unwrap_or("/")`
  unfoldable pub second_word : List ℕ → List ℕ
  second_word line =
      let found = word (skip_white (after_word (skip_white line))) in
      if is_empty found then slash ∷ [] else found

  unfoldable pub parse_path : (Bytes → List ℕ) → Bytes → List ℕ
  parse_path from_utf8_lossy head = before_query (second_word (first_line (from_utf8_lossy head)))

-- the numbers that `metrics_text` prints
pub record MetricsText : Type 0 where
  pub node_id : ℕ
  pub term : ℕ
  pub is_leader : Bool
  pub current_leader : ℕ
  pub last_log_index : ℕ
  pub last_applied : ℕ
  pub quorum_ack_ms : ℕ
  pub topics : ℕ
  pub messages : ℕ
  pub in_flight : ℕ

-- `raft.metrics()`
pub record NodeMetrics : Type 0 where
  pub id : ℕ
  pub last_applied : Option ℕ
  pub current_leader : Option ℕ
  pub current_term : ℕ
  pub last_log_index : Option ℕ
  pub millis_since_quorum_ack : Option ℕ

abbrev pub or_zero : Option ℕ → ℕ
or_zero none = 0
or_zero (some n) = n

unfoldable pub metrics_text : NodeMetrics → Queue → MetricsText
metrics_text m q =
    let qm : QueueMetrics = metrics q in
    record {
      node_id = m.id;
      term = m.current_term;
      is_leader = elim m.current_leader [ none ↦ false | some id ↦ id == m.id ];
      current_leader = or_zero m.current_leader;
      last_log_index = or_zero m.last_log_index;
      last_applied = or_zero m.last_applied;
      quorum_ack_ms = or_zero m.millis_since_quorum_ack;
      topics = qm.topics;
      messages = qm.messages;
      in_flight = qm.in_flight;
    }

-- The answers: their status, and what their body says.
pub data Answer : Type 0 where
  healthy ready not_ready metrics_disabled not_found : Answer
  metrics_answer : MetricsText → Answer

-- "/health"
abbrev pub health_path : Name
health_path = 47 ∷ 104 ∷ 101 ∷ 97 ∷ 108 ∷ 116 ∷ 104 ∷ []

-- "/ready"
abbrev pub ready_path : Name
ready_path = 47 ∷ 114 ∷ 101 ∷ 97 ∷ 100 ∷ 121 ∷ []

-- "/metrics"
abbrev pub metrics_path : Name
metrics_path = 47 ∷ 109 ∷ 101 ∷ 116 ∷ 114 ∷ 105 ∷ 99 ∷ 115 ∷ []

unfoldable pub route : NodeMetrics → Queue → Name → Bool → Answer
route m q path metrics_enabled =
    if same path health_path
    then healthy
    else (if same path ready_path
        then (if is_some m.current_leader then ready else not_ready)
        else (if same path metrics_path
            then (if metrics_enabled then metrics_answer (metrics_text m q) else metrics_disabled)
            else not_found))

-- 200, 503 or 404
unfoldable pub status : Answer → ℕ
status healthy = 200
status ready = 200
status not_ready = 503
status metrics_disabled = 404
status not_found = 404
status (metrics_answer t) = 200
