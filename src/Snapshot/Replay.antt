-- ===== src/Snapshot/Replay.antt =====
-- What the state machine does with the entries of the log, however the log is cut in batches.
use hermesmq.Prelude.{
  ℕ, zero, suc, List, [], ◌∷◌, ◌++◌, Option, none, some, ◌≡◌, refl, arith, length, ap, ◌∙◌,
}
use hermesmq.Types.{AppRequest, AppResponse, no_op}
use hermesmq.Queue.{Queue, apply}
use hermesmq.Queue.Apply.{run}
use hermesmq.Snapshot.{
  StateMachineData, EntryPayload, Entry, blank, membership, normal, respond, apply_entries,
}

module _ (LogId Membership Voters : Type 0)
    (stored_membership : Option LogId → Voters → Membership) where
  abbrev E : Type 0
  E = Entry LogId Membership Voters stored_membership

  -- What the entries ask of the queue.
  unfoldable pub request_of :
      EntryPayload LogId Membership Voters stored_membership → List AppRequest → List AppRequest
  request_of blank rest = rest
  request_of (membership m) rest = rest
  request_of (normal req) rest = req ∷ rest

  unfoldable pub requests : List E → List AppRequest
  requests [] = []
  requests (e ∷ es) = request_of e.payload (requests es)

  -- the last position
  unfoldable pub last_position : List E → Option LogId → Option LogId
  last_position [] old = old
  last_position (e ∷ es) old = last_position es (some e.log_id)

  -- the membership that the last of the entries to bring one leaves
  unfoldable pub membership_of :
      LogId → EntryPayload LogId Membership Voters stored_membership → Membership → Membership
  membership_of id blank old = old
  membership_of id (membership m) old = stored_membership (some id) m
  membership_of id (normal req) old = old

  unfoldable pub final_membership : List E → Membership → Membership
  final_membership [] old = old
  final_membership (e ∷ es) old = final_membership es (membership_of e.log_id e.payload old)

  -- What a queue answers to an entry.
  unfoldable pub queue_answer :
      EntryPayload LogId Membership Voters stored_membership → Queue → AppResponse
  queue_answer blank q = no_op
  queue_answer (membership m) q = no_op
  queue_answer (normal req) q = (apply req q).1

  -- the answer at a position
  unfoldable pub answer_at : ℕ → List AppResponse → Option AppResponse
  answer_at n [] = none
  answer_at zero (a ∷ rest) = some a
  answer_at (suc n) (a ∷ rest) = answer_at n rest

  respond_lem :
      (id : LogId) (p : EntryPayload LogId Membership Voters stored_membership)
      (rest : List AppRequest) (d : StateMachineData LogId Membership)
      → (run rest (respond LogId Membership Voters stored_membership id p d).0.queue
          ≡ run (request_of p rest) d.queue)
        × ((respond LogId Membership Voters stored_membership id p d).0.last_applied
            ≡ d.last_applied)
  unfolding respond request_of run
  respond_lem id blank rest d = (refl, refl)
  respond_lem id (membership m) rest d = (refl, refl)
  respond_lem id (normal req) rest d = (refl, refl)

  respond_answer :
      (id : LogId) (p : EntryPayload LogId Membership Voters stored_membership)
      (d : StateMachineData LogId Membership)
      → let r = respond LogId Membership Voters stored_membership id p d in
        (r.1 ≡ queue_answer p d.queue)
        × (r.0.last_membership ≡ membership_of id p d.last_membership)
  unfolding respond queue_answer membership_of
  respond_answer id blank d = (refl, refl)
  respond_answer id (membership m) d = (refl, refl)
  respond_answer id (normal req) d = (refl, refl)

  -- The state after the entries: the run of their requests, the last position and membership.
  pub apply_entries_state :
      (es : List E) (d : StateMachineData LogId Membership)
      → let r = apply_entries LogId Membership Voters stored_membership es d in
        (r.0.queue ≡ run (requests es) d.queue)
        × (r.0.last_applied ≡ last_position es d.last_applied)
        × (r.0.last_membership ≡ final_membership es d.last_membership)
        × (length r.1 ≡ length es)
  unfolding apply_entries requests last_position final_membership run
  apply_entries_state [] d = (refl, refl, refl, refl)
  apply_entries_state (e ∷ es) d =
      let at : StateMachineData LogId Membership = record d { last_applied = some e.log_id } in
      let next = (respond LogId Membership Voters stored_membership e.log_id e.payload at).0 in
      let (q, l, m, n) = apply_entries_state es next in
      let (rq, rl) = respond_lem e.log_id e.payload (requests es) at in
      let (ra, rm) = respond_answer e.log_id e.payload at in
      (q ∙ rq, l ∙ ap (last_position es) rl, m ∙ ap (final_membership es) rm, omega (arith, n))

  -- Two batches do what one batch of all their entries does, with the same answers.
  pub apply_entries-append :
      (xs ys : List E) (d : StateMachineData LogId Membership)
      → let first = apply_entries LogId Membership Voters stored_membership xs d in
        let second = apply_entries LogId Membership Voters stored_membership ys first.0 in
        apply_entries LogId Membership Voters stored_membership (xs ++ ys) d
        ≡ (second.0, first.1 ++ second.1)
  unfolding apply_entries
  apply_entries-append [] ys d = refl
  apply_entries-append (e ∷ xs) ys d =
      let at : StateMachineData LogId Membership = record d { last_applied = some e.log_id } in
      let r = respond LogId Membership Voters stored_membership e.log_id e.payload at in
      ap (λ x. (x.0, r.1 ∷ x.1)) (apply_entries-append xs ys r.0)

  -- The answer that stands behind as many answers as the first entries have.
  answer_at-append :
      (first bs : List AppResponse) (n : ℕ)
      → length first ≡ n
      → answer_at n (first ++ bs) ≡ answer_at 0 bs
  unfolding answer_at
  answer_at-append [] bs zero h = refl
  answer_at-append [] bs (suc n) h = absurd (omega (arith, h))
  answer_at-append (a ∷ first) bs zero h = absurd (omega (arith, h))
  answer_at-append (a ∷ first) bs (suc n) h = answer_at-append first bs n (omega (arith, h))

  -- The answer to an entry in the midst of others.
  apply_entries_answer :
      (xs : List E) (e : E) (ys : List E) (d : StateMachineData LogId Membership)
      → answer_at
          (length xs)
          (apply_entries LogId Membership Voters stored_membership (xs ++ e ∷ ys) d).1
        ≡ some (queue_answer e.payload (run (requests xs) d.queue))
  unfolding apply_entries answer_at
  apply_entries_answer xs e ys d =
      let before = apply_entries LogId Membership Voters stored_membership xs d in
      let at : StateMachineData LogId Membership = record before.0 {
        last_applied = some e.log_id;
      } in
      let (q, l, m, n) = apply_entries_state xs d in
      let r = respond LogId Membership Voters stored_membership e.log_id e.payload at in
      let rest = apply_entries LogId Membership Voters stored_membership ys r.0 in
      ap (λ x. answer_at (length xs) x.1) (apply_entries-append xs (e ∷ ys) d)
      ∙ answer_at-append before.1 (r.1 ∷ rest.1) (length xs) n
      ∙ ap some ((respond_answer e.log_id e.payload at).0 ∙ ap (queue_answer e.payload) q)

  -- `apply` of the state machine runs the requests of the entries in order on the queue, stands at the
  -- last entry's position and at the last membership, and answers every entry once. The answer to an
  -- entry stands at its place: for a request, what the queue answers after the requests before it, and a
  -- no-op for the others.
  pub apply_entries-run :
      (xs : List E) (e : E) (ys : List E) (d : StateMachineData LogId Membership)
      → let all = xs ++ e ∷ ys in
        let r = apply_entries LogId Membership Voters stored_membership all d in
        (r.0.queue ≡ run (requests all) d.queue)
        × (r.0.last_applied ≡ last_position all d.last_applied)
        × (r.0.last_membership ≡ final_membership all d.last_membership)
        × (length r.1 ≡ length all)
        × (answer_at (length xs) r.1 ≡ some (queue_answer e.payload (run (requests xs) d.queue)))
  apply_entries-run xs e ys d =
      let (q, l, m, n) = apply_entries_state (xs ++ e ∷ ys) d in
      (q, l, m, n, apply_entries_answer xs e ys d)
