-- ===== src/Limits.antt =====
-- crates/hermesmq-core/src/queue.rs: the compiled-in bounds and the checks on names.
use hermesmq.Prelude.{ℕ, Option, none, some, if◌then◌else◌, ltb, length}
use hermesmq.Types.{Name, Reason, topic_name_too_long, group_name_too_long}

abbrev pub dedup_capacity : ℕ
dedup_capacity = 100000

abbrev pub reserved_den : ℕ
reserved_den = 4

abbrev pub default_retain_max_messages : ℕ
default_retain_max_messages = 1000000

abbrev pub group_gc_threshold : ℕ
group_gc_threshold = 1024

-- seven days
abbrev pub group_idle_expire_ms : ℕ
group_idle_expire_ms = 604800000

abbrev pub max_name_bytes : ℕ
max_name_bytes = 256

abbrev pub max_producer_id_bytes : ℕ
max_producer_id_bytes = 256

abbrev pub max_topics : ℕ
max_topics = 10000

abbrev pub max_groups_per_topic : ℕ
max_groups_per_topic = 1000

-- twelve hours
abbrev pub max_visibility_ms : ℕ
max_visibility_ms = 43200000

-- `1 << 62`
abbrev pub max_counter : ℕ
max_counter = 4611686018427387904

-- `none` is `Ok(())`. The kind of name that the text begins with is the argument `reason`.
unfoldable pub check_name : (ℕ → Reason) → Name → Option Reason
check_name reason name =
    if ltb max_name_bytes (length name) then some (reason (length name)) else none

unfoldable pub check_consumer : Name → Name → Option Reason
unfolding check_name
check_consumer topic group = elim (check_name topic_name_too_long topic) [
  | some reason ↦ some reason
  | none ↦ check_name group_name_too_long group
]
