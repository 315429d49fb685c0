-- ===== src/Tests/Frames.antt =====
-- The theorems on frames at two streams.
use hermesmq.Prelude.{[], ◌∷◌, ◌++◌, some, ◌≡◌, arith}
use hermesmq.Frame.{read_frame, write_frame}
use hermesmq.Frame.Roundtrip.{read_frame-write_frame}

read_frame-write_frame_example :
    read_frame 8 (write_frame (5 ∷ 6 ∷ 7 ∷ []) ++ (9 ∷ [])) ≡ some (5 ∷ 6 ∷ 7 ∷ [], 9 ∷ [])
read_frame-write_frame_example =
    read_frame-write_frame 8 (5 ∷ 6 ∷ 7 ∷ []) (9 ∷ []) (omega arith) (omega arith)
