-- ===== src/Http/Path.antt =====
-- The path of a request line, and how much of a request is read.
use hermesmq.Prelude.{
  ℕ, ◌+◌, ◌≤◌, ◌<◌, List, [], ◌∷◌, ◌++◌, Bool, true, false, ◌&&◌, ◌||◌, ◌≡◌, refl, arith, ◌==◌, leb,
  length, is_empty, All, Bool-cases, inl, inr, length-append,
}
use hermesmq.Types.{Bytes}
use hermesmq.Http.{
  newline, carriage_return, question_mark, at_newline, has_line_end, max_head, read_head,
  first_line, before_query, skip_white, word, after_word, second_word, parse_path,
}

-- What is buffered is less than the limit and the greatest chunk.
pub length-read_head :
    (chunks : List Bytes) (buf : Bytes) (most : ℕ)
    → All (λ chunk. length chunk ≤ most) chunks
    → length buf < max_head
    → length (read_head chunks buf) < max_head + most
unfolding read_head
length-read_head [] buf most h k = omega (arith, k)
length-read_head (chunk ∷ chunks) buf most h k =
    let both = length-append buf chunk in
    elim (Bool-cases (is_empty chunk)) [
      | inl e ↦ rw (e, read_head) (omega (arith, k))
      | inr e ↦
          elim (Bool-cases (has_line_end (buf ++ chunk) || leb max_head (length (buf ++ chunk)))) [
            | inl f ↦ rw (e, read_head, f) (omega (arith, both, h.0, k))
            | inr f ↦
                let short : length (buf ++ chunk) < max_head = ground (arith, f) in
                rw (e, read_head, f) (length-read_head chunks (buf ++ chunk) most h.1 short)
          ]
    ]

first_line-append :
    (xs rest : List ℕ)
    → All (λ c. carriage_return < c) xs
    → first_line (xs ++ carriage_return ∷ newline ∷ rest) ≡ xs
unfolding first_line at_newline
first_line-append [] rest h = refl
first_line-append (x ∷ xs) rest h =
    let plain : ((x == newline)
          || ((x == carriage_return) && at_newline (xs ++ carriage_return ∷ newline ∷ rest)))
        ≡ false =
      ground (arith, h.0) in
    rw (plain, first_line-append xs rest h.1) refl

before_query-append :
    (xs ys : List ℕ)
    → All (λ c. (c == question_mark) ≡ false) xs
    → before_query (xs ++ question_mark ∷ ys) ≡ xs
unfolding before_query
before_query-append [] ys h = refl
before_query-append (x ∷ xs) ys h = rw (h.0, before_query-append xs ys h.1) refl

module _ (is_white : ℕ → Bool) where
  word-append :
      (xs ys : List ℕ) (s : ℕ)
      → All (λ c. is_white c ≡ false) xs
      → is_white s ≡ true
      → word is_white (xs ++ s ∷ ys) ≡ xs
  unfolding word
  word-append [] ys s h k = rw k refl
  word-append (x ∷ xs) ys s h k = rw (h.0, word-append xs ys s h.1 k) refl

  after_word-append :
      (xs ys : List ℕ) (s : ℕ)
      → All (λ c. is_white c ≡ false) xs
      → is_white s ≡ true
      → after_word is_white (xs ++ s ∷ ys) ≡ s ∷ ys
  unfolding after_word
  after_word-append [] ys s h k = rw k refl
  after_word-append (x ∷ xs) ys s h k = rw (h.0, after_word-append xs ys s h.1 k) refl

  -- The second word of a line is the one between the first two spaces, if its words hold no white
  -- character and neither of the first two is empty.
  second_word-append :
      (m : ℕ) (ms : List ℕ) (p : ℕ) (ps rest : List ℕ) (s : ℕ)
      → All (λ c. is_white c ≡ false) (m ∷ ms)
      → All (λ c. is_white c ≡ false) (p ∷ ps)
      → is_white s ≡ true
      → second_word is_white ((m ∷ ms) ++ (s ∷ ((p ∷ ps) ++ (s ∷ rest)))) ≡ p ∷ ps
  unfolding second_word skip_white
  second_word-append m ms p ps rest s h k w =
      let gone : after_word is_white (m ∷ (ms ++ s ∷ p ∷ (ps ++ s ∷ rest)))
          ≡ s ∷ p ∷ (ps ++ s ∷ rest) =
        after_word-append (m ∷ ms) ((p ∷ ps) ++ s ∷ rest) s h w in
      let found : word is_white (p ∷ (ps ++ s ∷ rest)) ≡ p ∷ ps = word-append (p ∷ ps) rest s k w in
      rw (h.0, gone, w, k.0, found) refl

  -- The path of a request whose head begins with a method, a path with a query, and what follows.
  pub parse_path_lem :
      (from_utf8_lossy : Bytes → List ℕ) (head : Bytes) (m : ℕ) (ms : List ℕ) (p : ℕ)
      (ps query rest : List ℕ) (s : ℕ)
      → All (λ c. is_white c ≡ false) (m ∷ ms)
      → All (λ c. is_white c ≡ false) ((p ∷ ps) ++ question_mark ∷ query)
      → All (λ c. (c == question_mark) ≡ false) (p ∷ ps)
      → is_white s ≡ true
      → first_line (from_utf8_lossy head)
        ≡ (m ∷ ms) ++ (s ∷ (((p ∷ ps) ++ (question_mark ∷ query)) ++ (s ∷ rest)))
      → parse_path is_white from_utf8_lossy head ≡ p ∷ ps
  unfolding parse_path
  parse_path_lem from_utf8_lossy head m ms p ps query rest s h k n w e =
      let line : first_line (from_utf8_lossy head)
          ≡ (m ∷ ms) ++ (s ∷ ((p ∷ (ps ++ (question_mark ∷ query))) ++ (s ∷ rest))) =
        e in
      rw (line, second_word-append m ms p (ps ++ question_mark ∷ query) rest s h k w)
        (before_query-append (p ∷ ps) query n)
