-- ===== src/Poll/Candidates.antt =====
-- What the selection of a poll returns: candidates of the topic, each once, at most `max`.
use hermesmq.Prelude.{
  ℕ, List, [], ◌∷◌, ◌++◌, true, false, ◌≡◌, arith, ◌≢◌, if◌then◌else◌, All, All-append, Bool-cases,
  inl, inr,
}
use hermesmq.Ord.{nat_ord}
use hermesmq.Map.{Map, Set, has, insert}
use hermesmq.Map.Lookup.{get-insert}
use hermesmq.Map.Sorted.{AllEntries}
use hermesmq.Types.{Offset, Message}
use hermesmq.Group.{GroupState}
use hermesmq.Poll.{
  Candidate, heap_push, heap_pop, offer, is_taken, scan, choose_top, choose_earliest, sort_insert,
  sort,
}

-- No two candidates share an offset.
abbrev pub Distinct : List Candidate → Type 0
Distinct [] = Unit {0}
Distinct (x ∷ xs) = All (λ y. y.offset ≢ x.offset) xs × Distinct xs

module _ (P : Candidate → Type 0) where
  heap_push-All : (x : Candidate) (ys : List Candidate) → P x → All P ys → All P (heap_push x ys)
  unfolding heap_push
  heap_push-All x [] p a = (p, tt)
  heap_push-All x (y ∷ ys) p a = ground (arith, heap_push-All x ys p a.1)

  heap_pop-All : (ys : List Candidate) → All P ys → All P (heap_pop ys)
  unfolding heap_pop
  heap_pop-All [] a = tt
  heap_pop-All (y ∷ ys) a = a.1

  offer-All :
      (slots : ℕ) (x : Candidate) (ys : List Candidate) → P x → All P ys → All P (offer slots x ys)
  unfolding offer
  offer-All slots x ys p a =
      ground (arith, heap_push-All x ys p a, heap_pop-All (heap_push x ys) (heap_push-All x ys p a))

  pub sort_insert-All :
      (x : Candidate) (ys : List Candidate) → P x → All P ys → All P (sort_insert x ys)
  unfolding sort_insert
  sort_insert-All x [] p a = (p, tt)
  sort_insert-All x (y ∷ ys) p a = ground (arith, sort_insert-All x ys p a.1)

  pub sort-All : (xs : List Candidate) → All P xs → All P (sort xs)
  unfolding sort
  sort-All [] a = tt
  sort-All (x ∷ xs) a = sort_insert-All x (sort xs) a.0 (sort-All xs a.1)

  -- The messages that the scan passes to the lists, where they are not taken.
  abbrev pub Offers : GroupState → Map Offset Message → Type 0
  Offers g =
      AllEntries (λ o m. is_taken g o ≡ false → P (record { priority = m.priority; offset = o }))

  pub scan-All :
      (g : GroupState) (max slots : ℕ) (ms : Map Offset Message) (earliest top : List Candidate)
      → Offers g ms
      → All P earliest
      → All P top
      → let r = scan g max slots ms earliest top in All P r.0 × All P r.1
  unfolding scan
  scan-All g max slots [] earliest top f a b = (a, b)
  scan-All g max slots ((o, m) ∷ ms) earliest top f a b = ground (
    arith,
    scan-All g max slots ms earliest top f.1 a b,
    λ (h : is_taken g o ≡ false).
        scan-All g max slots ms (earliest ++ x ∷ []) (offer slots x top) f.1
          (All-append P earliest (x ∷ []) a (f.0 h, tt)) (offer-All slots x top (f.0 h) b),
    λ (h : is_taken g o ≡ false).
        scan-All g max slots ms earliest (offer slots x top) f.1 a
          (offer-All slots x top (f.0 h) b),
  )
    where
      x : Candidate
      x = record { priority = m.priority; offset = o }

  pub choose_top-All :
      (xs : List Candidate) (set : Set Offset) (chosen : List Candidate)
      → All P xs
      → All P chosen
      → All P (choose_top xs set chosen).1
  unfolding choose_top
  choose_top-All [] set chosen a b = b
  choose_top-All (x ∷ xs) set chosen a b = ground (
    arith,
    choose_top-All xs (insert x.offset tt set) chosen a.1 b,
    choose_top-All xs (insert x.offset tt set) (chosen ++ x ∷ []) a.1
        (All-append P chosen (x ∷ []) b (a.0, tt)),
  )

  pub choose_earliest-All :
      (max : ℕ) (xs : List Candidate) (set : Set Offset) (chosen : List Candidate)
      → All P xs
      → All P chosen
      → All P (choose_earliest max xs set chosen)
  unfolding choose_earliest
  choose_earliest-All max [] set chosen a b = b
  choose_earliest-All max (x ∷ xs) set chosen a b = ground (
    arith,
    choose_earliest-All max xs (insert x.offset tt set) chosen a.1 b,
    choose_earliest-All max xs (insert x.offset tt set) (chosen ++ x ∷ []) a.1
        (All-append P chosen (x ∷ []) b (a.0, tt)),
  )

-- The set of a selection holds the offsets that it has chosen.
abbrev Covers : Set Offset → List Candidate → Type 0
Covers set = All (λ y. has y.offset set ≡ true)

Covers-more :
    (o : Offset) (set : Set Offset) (ys : List Candidate)
    → Covers set ys
    → Covers (insert o tt set) ys
Covers-more o set [] a = tt
Covers-more o set (y ∷ ys) a =
    (ground (arith, get-insert y.offset o tt set), Covers-more o set ys a.1)

apart :
    (x : Candidate) (set : Set Offset) (ys : List Candidate)
    → has x.offset set ≡ false
    → Covers set ys
    → All (λ y. x.offset ≢ y.offset) ys
apart x set [] h a = tt
apart x set (y ∷ ys) h a = ((λ e. ground arith), apart x set ys h a.1)

Distinct-append :
    (x : Candidate) (ys : List Candidate)
    → All (λ y. x.offset ≢ y.offset) ys
    → Distinct ys
    → Distinct (ys ++ x ∷ [])
Distinct-append x [] a d = (tt, tt)
Distinct-append x (y ∷ ys) a d =
    (All-append (λ z. z.offset ≢ y.offset) ys (x ∷ []) d.0 (a.0, tt), Distinct-append x ys a.1 d.1)

-- What one more choice does: the candidate joins unless its offset is chosen.
abbrev extend : Candidate → Set Offset → List Candidate → List Candidate
extend x set chosen = if has x.offset set then chosen else chosen ++ x ∷ []

extend_keeps :
    (x : Candidate) (set : Set Offset) (chosen : List Candidate)
    → Covers set chosen
    → Distinct chosen
    → Covers (insert x.offset tt set) (extend x set chosen) × Distinct (extend x set chosen)
extend_keeps x set chosen a d = elim (Bool-cases (has x.offset set)) [
  | inl old ↦ rw old (Covers-more x.offset set chosen a, d)
  | inr new ↦ rw new (
    All-append (λ y. has y.offset (insert x.offset tt set) ≡ true) chosen (x ∷ [])
        (Covers-more x.offset set chosen a)
        (ground (arith, get-insert x.offset x.offset tt set), tt),
    Distinct-append x chosen (apart x set chosen new a) d,
  )
]

pub choose_top-Distinct :
    (xs : List Candidate) (set : Set Offset) (chosen : List Candidate)
    → Covers set chosen
    → Distinct chosen
    → let r = choose_top xs set chosen in Covers r.0 r.1 × Distinct r.1
unfolding choose_top
choose_top-Distinct [] set chosen a d = (a, d)
choose_top-Distinct (x ∷ xs) set chosen a d =
    let (a', d') = extend_keeps x set chosen a d in
    choose_top-Distinct xs (insert x.offset tt set) (extend x set chosen) a' d'

pub choose_earliest-Distinct :
    (max : ℕ) (xs : List Candidate) (set : Set Offset) (chosen : List Candidate)
    → Covers set chosen
    → Distinct chosen
    → Distinct (choose_earliest max xs set chosen)
unfolding choose_earliest
choose_earliest-Distinct max [] set chosen a d = d
choose_earliest-Distinct max (x ∷ xs) set chosen a d =
    let (a', d') = extend_keeps x set chosen a d in
    ground
      (arith, choose_earliest-Distinct max xs (insert x.offset tt set) (extend x set chosen) a' d')

sort_insert-Distinct :
    (x : Candidate) (ys : List Candidate)
    → All (λ y. y.offset ≢ x.offset) ys
    → Distinct ys
    → Distinct (sort_insert x ys)
unfolding sort_insert
sort_insert-Distinct x [] a d = (tt, tt)
sort_insert-Distinct x (y ∷ ys) a d =
    ground
      (arith, sort_insert-Distinct x ys a.1 d.1, sort_insert-All (λ z. z.offset ≢ y.offset) x ys)

pub sort-Distinct : (xs : List Candidate) → Distinct xs → Distinct (sort xs)
unfolding sort
sort-Distinct [] d = tt
sort-Distinct (x ∷ xs) d =
    sort_insert-Distinct x (sort xs) (sort-All (λ y. y.offset ≢ x.offset) xs d.0)
      (sort-Distinct xs d.1)
