-- ===== src/Client/Sessions.antt =====
-- A subscription holds no more messages than it may.
use hermesmq.Prelude.{
  ℕ, ◌+◌, ◌≤◌, List, [], ◌∷◌, ◌||◌, not, true, false, Option, none, some, ◌≡◌, refl, arith, length,
  Bool-cases, inl, inr, is_empty, saturating_add,
}
use hermesmq.Types.{AppRequest, Delivered}
use hermesmq.Tracking.{count_live, no_tracking}
use hermesmq.Limiter.{RateLimiter}
use hermesmq.Client.{Subscribe}
use hermesmq.Client.Batches.{IsLawful}
use hermesmq.Client.Polling.{is_auto}
use hermesmq.Client.Held.{
  IsWithin, IsWithin-later, begin_round-IsWithin, push_item-IsWithin, resolve_lease-IsWithin, by_if,
}
use hermesmq.Client.Requests.{RequestKind, ack, nack}
use hermesmq.Client.Subscription.{
  SubSession, SubRound, SubEvent, frame_read, reader_ended, round_begun, item_pushed, prefetch_of,
  new_session, take_frame, sub_event, sub_events, ack_grace_ms,
}

-- The rounds read the clock in order, from one time to another, and what a write returns in them is what
-- the queue answers in some state, or a failure.
abbrev pub AreTimed : ℕ → List SubEvent → ℕ → Type 0
AreTimed now [] end = now ≤ end
AreTimed now (round_begun r ∷ events) end =
    (now ≤ r.count_ms)
    × ((app : AppRequest) → IsLawful app (r.client_write app))
    × AreTimed r.count_ms events end
AreTimed now (_ ∷ events) end = AreTimed now events end

take_frame-IsWithin :
    (sub : Subscribe) (now at_ms : ℕ) (req : Option (Option RequestKind)) (s : SubSession)
    → IsWithin sub now s
    → IsWithin sub now (take_frame sub at_ms req s)
unfolding take_frame
take_frame-IsWithin sub now at_ms (some (some (ack topic group id))) s v =
    by_if (IsWithin sub now) (is_auto sub.ack_mode) _ _ v
      (resolve_lease-IsWithin sub now id false (some (saturating_add at_ms ack_grace_ms)) s v)
take_frame-IsWithin sub now at_ms (some (some (nack topic group id))) s v =
    by_if (IsWithin sub now) (is_auto sub.ack_mode) _ _ v
      (resolve_lease-IsWithin sub now id true none s v)
take_frame-IsWithin sub now at_ms _ s v = v

is_empty-nil : (xs : List Delivered) → is_empty xs ≡ true → xs ≡ []
is_empty-nil [] h = refl
is_empty-nil (x ∷ xs) h = absurd (ground arith)

round_begun-IsWithin :
    (sub : Subscribe) (now : ℕ) (r : SubRound) (s : SubSession)
    → ((app : AppRequest) → IsLawful app (r.client_write app))
    → now ≤ r.count_ms
    → IsWithin sub now s
    → IsWithin sub r.count_ms (sub_event sub (round_begun r) s)
unfolding sub_event
round_begun-IsWithin sub now r s lawful h v =
    elim (Bool-cases (s.over || not (is_empty s.pending))) [
      | inl e ↦ rw (e, sub_event) (IsWithin-later sub now r.count_ms s h v)
      | inr e ↦
          let idle : is_empty s.pending ≡ true = ground (arith, e) in
          rw (e, sub_event)
            (begin_round-IsWithin sub now r s lawful (is_empty-nil s.pending idle) h v)
    ]

sub_events-IsWithin :
    (sub : Subscribe) (events : List SubEvent) (now end : ℕ) (s : SubSession)
    → AreTimed now events end
    → IsWithin sub now s
    → IsWithin sub end (sub_events sub events s)
unfolding sub_events sub_event
sub_events-IsWithin sub [] now end s h v = IsWithin-later sub now end s h v
sub_events-IsWithin sub (round_begun r ∷ events) now end s h v =
    let (at, lawful, rest) = h in
    sub_events-IsWithin sub events r.count_ms end (sub_event sub (round_begun r) s) rest
      (round_begun-IsWithin sub now r s lawful at v)
sub_events-IsWithin sub (frame_read at_ms req ∷ events) now end s h v =
    sub_events-IsWithin sub events now end (sub_event sub (frame_read at_ms req) s) h
      (by_if (IsWithin sub now) s.closed _ _ v (take_frame-IsWithin sub now at_ms req s v))
sub_events-IsWithin sub (reader_ended ∷ events) now end s h v =
    sub_events-IsWithin sub events now end (sub_event sub reader_ended s) h v
sub_events-IsWithin sub (item_pushed at_ms written at ∷ events) now end s h v =
    sub_events-IsWithin sub events now end (sub_event sub (item_pushed at_ms written at) s) h
      (by_if (IsWithin sub now) s.over _ _ v (push_item-IsWithin sub now at_ms written at s v))

-- However the reader and the loop of a subscription interleave, the messages that it has pushed and that
-- are neither answered nor past their deadline, and those that it is about to push, are together at most
-- its prefetch, if the rounds read the clock in order and a write returns what the queue answers in some
-- state, or fails.
pub count_live-sub_events :
    (sub : Subscribe) (events : List SubEvent) (start end : ℕ) (limiter : RateLimiter) (now : ℕ)
    → AreTimed start events end
    → let s = sub_events sub events (new_session limiter now) in
      count_live end s.tracking.by_offset + length s.pending ≤ prefetch_of sub.prefetch
unfolding new_session no_tracking count_live
count_live-sub_events sub events start end limiter now h =
    sub_events-IsWithin sub events start end (new_session limiter now) h (omega arith)
