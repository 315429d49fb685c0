-- ===== src/Frame.antt =====
-- crates/hermesmq-core/src/frame.rs: a frame on a byte stream. A stream is the list of the bytes that
-- are still to come; the deadline of a body and the failures of a socket are not modelled.
pub mod Roundtrip
use hermesmq.Prelude.{
  Bool, ℕ, zero, suc, ◌+◌, ◌-◌, ◌*◌, ◌/◌, ◌%◌, List, [], ◌∷◌, ◌++◌, Option, none, some,
  if◌then◌else◌, ltb, leb, min, length, drop,
}
use hermesmq.Types.{Bytes}

abbrev pub body_chunk : ℕ
body_chunk = 65536

abbrev pub max_peer_frame : ℕ
max_peer_frame = 67108864

-- `(bytes.len() as u32).to_be_bytes()`
unfoldable pub to_be_bytes : ℕ → Bytes
to_be_bytes n = n / 16777216 % 256 ∷ n / 65536 % 256 ∷ n / 256 % 256 ∷ n % 256 ∷ []

unfoldable pub write_frame : Bytes → Bytes
write_frame bytes = to_be_bytes (length bytes) ++ bytes

-- `read_exact` of a number of bytes: what was read, and the rest of the stream
unfoldable pub read_exact : ℕ → Bytes → Option (Bytes × Bytes)
read_exact zero stream = some ([], stream)
read_exact (suc n) [] = none
read_exact (suc n) (x ∷ stream) = elim (read_exact n stream) [
  | none ↦ none
  | some r ↦ some (x ∷ r.0, r.1)
]

unfoldable pub from_be_bytes : Bytes → ℕ
from_be_bytes (a ∷ b ∷ c ∷ d ∷ rest) = a * 16777216 + b * 65536 + c * 256 + d
from_be_bytes _ = 0

-- `none` is an error: the stream ends, or the frame is too long.
unfoldable pub read_len : ℕ → Bytes → Option (ℕ × Bytes)
read_len max_frame stream = elim (read_exact 4 stream) [
  | none ↦ none
  | some r ↦ if ltb max_frame (from_be_bytes r.0) then none else some (from_be_bytes r.0, r.1)
]

-- The loop of `read_body`, with the bytes that are still wanted; each round reads one at least.
unfoldable pub read_chunks : ℕ → ℕ → Bytes → Bytes → Option (Bytes × Bytes)
read_chunks zero wanted buf stream = some (buf, stream)
read_chunks (suc fuel) zero buf stream = some (buf, stream)
read_chunks (suc fuel) (suc n) buf stream = elim (read_exact (min (suc n) body_chunk) stream) [
  | none ↦ none
  | some r ↦ read_chunks fuel (suc n - min (suc n) body_chunk) (buf ++ r.0) r.1
]

unfoldable pub read_body : ℕ → Bytes → Option (Bytes × Bytes)
read_body n stream = read_chunks n n [] stream

unfoldable pub read_frame : ℕ → Bytes → Option (Bytes × Bytes)
read_frame max_frame stream = elim (read_len max_frame stream) [
  | none ↦ none
  | some r ↦ read_body r.0 r.1
]

-- `read_frame` with a deadline on the body: whether the body arrives before it is an argument.
unfoldable pub read_frame_deadline : ℕ → Bool → Bytes → Option (Bytes × Bytes)
read_frame_deadline max_frame in_time stream = elim (read_len max_frame stream) [
  | none ↦ none
  | some (n, rest) ↦ if in_time then read_body n rest else none
]
