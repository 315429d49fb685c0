-- ===== src/Poll/Fairness.antt =====
-- The reserved slots: the oldest message that a group may be given is not starved by others of a
-- higher priority.
use hermesmq.Prelude.{
  ℕ, ◌+◌, ◌-◌, ◌%◌, ◌≤◌, ◌<◌, List, [], ◌∷◌, ◌++◌, Bool, true, false, Option, none, some, ◌≡◌, refl,
  arith, length, ◌==◌, ◌||◌, Bool-cases, inl, inr, ◌⊎◌, u64_max, if◌then◌else◌, any, ltb, leb, ap,
  ◌∙◌,
}
use hermesmq.Ord.{nat_ord}
use hermesmq.Map.{Map, Set, get, has, insert, range_from}
use hermesmq.Map.Lookup.{get-insert}
use hermesmq.Types.{Offset, Message}
use hermesmq.Group.{GroupState}
use hermesmq.Poll.{
  Candidate, offer, is_taken, scan, choose_top, choose_earliest, sort_insert, sort, reserved_slots,
  select,
}
use hermesmq.Poll.Selection.{length-scan-le, length-choose_top-le}

-- The selection delivers the offset.
abbrev pub delivers : Offset → List Candidate → Bool
delivers o = any (λ x. x.offset == o)

-- The first message from the watermark on that is not taken.
unfoldable pub oldest : GroupState → Map Offset Message → Option Candidate
oldest g [] = none
oldest g ((o, m) ∷ ms) =
    if is_taken g o then oldest g ms else some (record { priority = m.priority; offset = o })

delivers-append_left :
    (o : Offset) (xs ys : List Candidate) → delivers o xs ≡ true → delivers o (xs ++ ys) ≡ true
delivers-append_left o [] ys h = ground arith
delivers-append_left o (x ∷ xs) ys h = ground (arith, delivers-append_left o xs ys)

delivers-append_self :
    (xs : List Candidate) (x : Candidate) → delivers x.offset (xs ++ x ∷ []) ≡ true
delivers-append_self [] x = ground arith
delivers-append_self (y ∷ xs) x = ground (arith, delivers-append_self xs x)

-- The scan keeps the head of `earliest`.
scan_head :
    (g : GroupState) (max slots : ℕ) (ms : Map Offset Message) (x : Candidate)
    (es top : List Candidate)
    → (rest : List Candidate) × ((scan g max slots ms (x ∷ es) top).0 ≡ x ∷ rest)
unfolding scan
scan_head g max slots [] x es top = (es, refl)
scan_head g max slots ((o, m) ∷ ms) x es top =
    let y : Candidate = record { priority = m.priority; offset = o } in
    elim (Bool-cases (is_taken g o)) [
      | inl t ↦ rw t (scan_head g max slots ms x es top)
      | inr t ↦ elim (Bool-cases (ltb (length (x ∷ es)) max)) [
        | inl l ↦ rw (t, l) (scan_head g max slots ms x (es ++ y ∷ []) (offer slots y top))
        | inr l ↦ elim (Bool-cases (slots == 0)) [
          | inl z ↦ rw (t, l, z) (es, refl)
          | inr z ↦ rw (t, l, z) (scan_head g max slots ms x es (offer slots y top))
        ]
      ]
    ]

-- The oldest message heads `earliest`.
scan-oldest :
    (g : GroupState) (max slots : ℕ) (ms : Map Offset Message) (top : List Candidate)
    (x : Candidate)
    → 0 < max
    → oldest g ms ≡ some x
    → (rest : List Candidate) × ((scan g max slots ms [] top).0 ≡ x ∷ rest)
unfolding scan oldest
scan-oldest g max slots [] top x h e = absurd (ground arith)
scan-oldest g max slots ((o, m) ∷ ms) top x h e =
    let y : Candidate = record { priority = m.priority; offset = o } in
    elim (Bool-cases (is_taken g o)) [
      | inl t ↦ rw t (scan-oldest g max slots ms top x h (ground arith))
      | inr t ↦
          let l : ltb 0 max ≡ true = ground arith in
          let y-eq-x : y ≡ x = ground arith in
          let (rest, q) = scan_head g max slots ms y [] (offer slots y top) in
          rw (t, l) (rest, q ∙ ap (λ z. z ∷ rest) y-eq-x)
    ]

-- What the set holds is chosen.
abbrev Within : Set Offset → List Candidate → Type 0
Within set chosen = (o : Offset) → has o set ≡ true → delivers o chosen ≡ true

extend-Within :
    (x : Candidate) (set : Set Offset) (chosen : List Candidate)
    → Within set chosen
    → Within (insert x.offset tt set) (if has x.offset set then chosen else chosen ++ x ∷ [])
extend-Within x set chosen w o h = elim (Bool-cases (has x.offset set)) [
  | inl old ↦ rw old (ground (arith, get-insert o x.offset tt set, w o))
  | inr new ↦ rw new (elim (Bool-cases (o == x.offset)) [
    | inl e ↦ let e' : x.offset ≡ o = ground arith in rw (← e') (delivers-append_self chosen x)
    | inr e ↦
        delivers-append_left o chosen (x ∷ []) (w o (ground (arith, get-insert o x.offset tt set)))
  ])
]

choose_top-Within :
    (xs : List Candidate) (set : Set Offset) (chosen : List Candidate)
    → Within set chosen
    → let r = choose_top xs set chosen in Within r.0 r.1
unfolding choose_top
choose_top-Within [] set chosen w = w
choose_top-Within (x ∷ xs) set chosen w =
    choose_top-Within xs (insert x.offset tt set) _ (extend-Within x set chosen w)

choose_earliest-delivers :
    (max : ℕ) (xs : List Candidate) (set : Set Offset) (chosen : List Candidate) (o : Offset)
    → delivers o chosen ≡ true
    → delivers o (choose_earliest max xs set chosen) ≡ true
unfolding choose_earliest
choose_earliest-delivers max [] set chosen o h = h
choose_earliest-delivers max (x ∷ xs) set chosen o h = ground (
  arith,
  choose_earliest-delivers max xs (insert x.offset tt set) chosen o h,
  choose_earliest-delivers max xs (insert x.offset tt set) (chosen ++ x ∷ []) o
      (delivers-append_left o chosen (x ∷ []) h),
)

sort_insert-delivers :
    (x : Candidate) (ys : List Candidate) (o : Offset)
    → delivers o (sort_insert x ys) ≡ (x.offset == o || delivers o ys)
unfolding sort_insert
sort_insert-delivers x [] o = refl
sort_insert-delivers x (y ∷ ys) o = ground (arith, sort_insert-delivers x ys o)

sort-delivers : (xs : List Candidate) (o : Offset) → delivers o (sort xs) ≡ delivers o xs
unfolding sort
sort-delivers [] o = refl
sort-delivers (x ∷ xs) o = ground (arith, sort_insert-delivers x (sort xs) o, sort-delivers xs o)

-- With a slot left, the head of `earliest` is chosen.
choose_head :
    (max : ℕ) (x : Candidate) (xs : List Candidate) (set : Set Offset) (chosen : List Candidate)
    → Within set chosen
    → length chosen < max
    → delivers x.offset (choose_earliest max (x ∷ xs) set chosen) ≡ true
unfolding choose_earliest
choose_head max x xs set chosen w h =
    let room : leb max (length chosen) ≡ false = ground arith in
    rw (room) (
      choose_earliest-delivers max xs (insert x.offset tt set) _ x.offset (
        extend-Within x set chosen w x.offset
          (ground (arith, get-insert x.offset x.offset tt set))))

-- One slot at least is reserved: always from four messages on, and in every fourth poll.
reserved_some :
    (max polls : ℕ)
    → 0 < max
    → polls < u64_max
    → (4 ≤ max) ⊎ ((polls + 1) % 4 ≡ 0)
    → max - reserved_slots max polls < max
unfolding reserved_slots
reserved_some max polls h b r =
    let small : (polls + 1) % (u64_max + 1) ≡ polls + 1 = omega arith in rw small (ground arith)

-- The oldest message that the group may be given is delivered by every poll that asks for four
-- messages or more, and by every fourth poll that asks for any.
pub select-oldest :
    (g : GroupState) (max polls : ℕ) (messages : Map Offset Message) (x : Candidate)
    → oldest g (range_from g.ack_watermark messages) ≡ some x
    → 0 < max
    → polls < u64_max
    → (4 ≤ max) ⊎ ((polls + 1) % 4 ≡ 0)
    → delivers x.offset (select g max polls messages) ≡ true
unfolding select
select-oldest g max polls messages x e h b r =
    let slots = max - reserved_slots max polls in
    let ms = range_from g.ack_watermark messages in
    let s = scan g max slots ms [] [] in
    let t = choose_top s.1 [] [] in
    let (rest, q) = scan-oldest g max slots ms [] x h e in
    let w = choose_top-Within s.1 [] [] (λ o p. absurd (unfold get in ground arith)) in
    let a = length-scan-le g max slots ms [] [] (omega arith) in
    let l = length-choose_top-le s.1 [] [] in
    sort-delivers (choose_earliest max s.0 t.0 t.1) x.offset
    ∙ rw q (choose_head max x rest t.0 t.1 w (omega (arith, a, l, reserved_some max polls h b r)))
