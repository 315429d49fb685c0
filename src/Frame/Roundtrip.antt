-- ===== src/Frame/Roundtrip.antt =====
-- What is written as a frame is read back.
use hermesmq.Prelude.{
  subst, true, Option-cases, inl, inr, ℕ, zero, suc, ◌-◌, ◌≤◌, ◌<◌, [], ◌∷◌, ◌++◌, true, false,
  none, some, ◌≡◌, refl, arith, if◌then◌else◌, ltb, min, length, drop, length-drop, ap, ◌∙◌,
  append_assoc, append_nil,
}
use hermesmq.Types.{Bytes}
use hermesmq.Frame.{
  read_frame_deadline, body_chunk, to_be_bytes, from_be_bytes, write_frame, read_exact, read_len,
  read_chunks, read_body, read_frame,
}

-- The first `n` bytes.
unfoldable pub front : ℕ → Bytes → Bytes
front zero xs = []
front (suc n) [] = []
front (suc n) (x ∷ xs) = x ∷ front n xs

read_exact_lem :
    (n : ℕ) (xs rest : Bytes)
    → n ≤ length xs
    → read_exact n (xs ++ rest) ≡ some (front n xs, drop n xs ++ rest)
unfolding read_exact front
read_exact_lem zero xs rest h = refl
read_exact_lem (suc n) [] rest h = absurd (omega (arith, h))
read_exact_lem (suc n) (x ∷ xs) rest h = rw (read_exact_lem n xs rest (omega (arith, h))) refl

front-drop : (n : ℕ) (xs : Bytes) → front n xs ++ drop n xs ≡ xs
unfolding front
front-drop zero xs = refl
front-drop (suc n) [] = refl
front-drop (suc n) (x ∷ xs) = ap (λ l. x ∷ l) (front-drop n xs)

length_zero : (xs : Bytes) → length xs ≡ 0 → xs ≡ []
length_zero [] h = refl
length_zero (x ∷ xs) h = absurd (omega (arith, h))

-- As many rounds as there are bytes are enough.
read_chunks_lem :
    (fuel n : ℕ) (buf xs rest : Bytes)
    → n ≤ fuel
    → length xs ≡ n
    → read_chunks fuel n buf (xs ++ rest) ≡ some (buf ++ xs, rest)
unfolding read_chunks
read_chunks_lem zero n buf xs rest h l =
    rw (length_zero xs (omega (arith, h, l)), append_nil buf) refl
read_chunks_lem (suc fuel) zero buf xs rest h l = rw (length_zero xs l, append_nil buf) refl
read_chunks_lem (suc fuel) (suc n) buf xs rest h l =
    let k = min (suc n) body_chunk in
    let short : k ≤ length xs = omega (arith, l) in
    let left =
      read_chunks_lem fuel (suc n - k) (buf ++ front k xs) (drop k xs) rest (omega (arith, h))
        (omega (arith, length-drop k xs, l)) in
    let whole = append_assoc buf (front k xs) (drop k xs) in
    rw (read_chunks, read_exact_lem k xs rest short) (left ∙ rw (whole, front-drop k xs) refl)

from_be-to_be : (n : ℕ) → n < 4294967296 → from_be_bytes (to_be_bytes n) ≡ n
unfolding from_be_bytes to_be_bytes
from_be-to_be n h = omega (arith, h)

header_lem : (n : ℕ) (s : Bytes) → read_exact 4 (to_be_bytes n ++ s) ≡ some (to_be_bytes n, s)
unfolding read_exact to_be_bytes
header_lem n s = refl

-- The length comes first.
read_len_lem :
    (max_frame n : ℕ) (s : Bytes)
    → n < 4294967296
    → read_len max_frame (to_be_bytes n ++ s) ≡ (if ltb max_frame n then none else some (n, s))
unfolding read_len
read_len_lem max_frame n s h = rw (read_len, header_lem n s, from_be-to_be n h) refl

-- A frame of less than 2^32 bytes that is within the reader's limit is read back as it was written,
-- and what follows it on the stream is left for the next reader.
pub read_frame-write_frame :
    (max_frame : ℕ) (bytes rest : Bytes)
    → length bytes ≤ max_frame
    → length bytes < 4294967296
    → read_frame max_frame (write_frame bytes ++ rest) ≡ some (bytes, rest)
unfolding read_frame write_frame read_body
read_frame-write_frame max_frame bytes rest h f =
    let fits : ltb max_frame (length bytes) ≡ false = ground arith in
    let body = read_chunks_lem (length bytes) (length bytes) [] bytes rest (omega arith) refl in
    rw
      (
        write_frame,
        append_assoc (to_be_bytes (length bytes)) bytes rest,
        read_frame,
        read_len_lem max_frame (length bytes) (bytes ++ rest) f,
        fits,
      )
      body

-- A frame above the reader's limit is refused.
pub read_frame_too_long :
    (max_frame : ℕ) (bytes rest : Bytes)
    → max_frame < length bytes
    → length bytes < 4294967296
    → read_frame max_frame (write_frame bytes ++ rest) ≡ none
unfolding read_frame write_frame
read_frame_too_long max_frame bytes rest h f =
    let long : ltb max_frame (length bytes) ≡ true = ground arith in
    rw
      (
        write_frame,
        append_assoc (to_be_bytes (length bytes)) bytes rest,
        read_frame,
        read_len_lem max_frame (length bytes) (bytes ++ rest) f,
        long,
      )
      refl

-- A frame that ends the stream.
pub read_last_frame :
    (max_frame : ℕ) (bytes : Bytes)
    → length bytes ≤ max_frame
    → length bytes < 4294967296
    → read_frame max_frame (write_frame bytes) ≡ some (bytes, [])
read_last_frame max_frame bytes h f =
    subst (λ stream. read_frame max_frame stream ≡ some (bytes, []))
      (append_nil (write_frame bytes)) (read_frame-write_frame max_frame bytes [] h f)

-- A body that arrives in time.
pub read_frame_deadline-read_frame :
    (max_frame : ℕ) (stream : Bytes)
    → read_frame_deadline max_frame true stream ≡ read_frame max_frame stream
unfolding read_frame_deadline read_frame
read_frame_deadline-read_frame max_frame stream = elim (Option-cases (read_len max_frame stream)) [
  | inl e ↦ rw (e, read_frame_deadline, read_frame) refl
  | inr ((n, rest), e) ↦ rw (e, read_frame_deadline, read_frame) refl
]
