-- ===== src/Client/Held.antt =====
-- What the steps of a subscription do to the number of messages that count and those to be pushed.
use hermesmq.Prelude.{
  ℕ, suc, ◌+◌, ◌-◌, ◌≤◌, ◌<◌, List, [], ◌∷◌, ◌&&◌, ◌||◌, not, Bool, true, false, Option, ◌≡◌, refl,
  subst, sym, arith, length, ltb, if◌then◌else◌, saturating_add, Bool-cases, inl, inr, max, ◌⊎◌,
}
use hermesmq.Types.{Name, LeaseId, Delivered, AppRequest, polled}
use hermesmq.Queue.{has_deliverable, rate_config}
use hermesmq.Tracking.{
  SubTracking, deliver, stale_offsets, live_count, Delivery, push, refreshed, already_acked,
}
use hermesmq.Limiter.{Grant, granted, limited}
use hermesmq.Client.{Subscribe, Write, wrote, failed}
use hermesmq.Client.Batches.{IsLawful}
use hermesmq.Client.Polling.{take_grant, poll_request, is_auto, visibility_of}
use hermesmq.Client.Polled.{ItemsWithin, apply-ItemsWithin}
use hermesmq.Client.Prefetch.{
  count_live_later, live-deliver-le, live-resolve-le, live-drop_stale-le, granted-take_grant-le,
  live,
}
use hermesmq.Client.Subscription.{
  SubSession, SubRound, prefetch_of, resolve_lease, take_items, poll_items, count_and_poll,
  begin_round, end_session, write_item, push_item,
}

-- What counts at a time, with the messages that are still to be pushed, is within the prefetch.
abbrev pub IsWithin : Subscribe → ℕ → SubSession → Type 0
IsWithin sub now s = live now s.tracking + length s.pending ≤ prefetch_of sub.prefetch

abbrev WrittenWithin : ℕ → Write → Type 0
WrittenWithin max (failed e) = Unit
WrittenWithin max (wrote resp) = ItemsWithin max resp

IsLawful-WrittenWithin :
    (auto : Bool) (topic group : Name) (max visibility ts_ms : ℕ) (w : Write)
    → IsLawful (poll_request auto topic group max visibility ts_ms) w
    → WrittenWithin max w
IsLawful-WrittenWithin auto topic group max visibility ts_ms (failed e) l = tt
IsLawful-WrittenWithin auto topic group max visibility ts_ms (wrote resp) (q, e) =
    subst (ItemsWithin max) (sym e) (apply-ItemsWithin auto topic group max visibility ts_ms q)

pub by_if {ℓ κ} :
    {A : Type ℓ} (P : A → Type κ) (b : Bool) (x y : A) → P x → P y → P (if b then x else y)
by_if P true x y p q = p
by_if P false x y p q = q

take_items-IsWithin :
    (sub : Subscribe) (now grant : ℕ) (cfg : Option (ℕ × ℕ)) (w : Write) (s : SubSession)
    → WrittenWithin grant w
    → s.pending ≡ []
    → live now s.tracking + grant ≤ prefetch_of sub.prefetch
    → IsWithin sub now (take_items sub grant cfg w s)
unfolding take_items end_session
take_items-IsWithin sub now grant cfg (failed e) s h idle k = rw idle (omega (arith, k))
take_items-IsWithin sub now grant cfg (wrote (polled items)) s h idle k = omega (arith, h, k)
take_items-IsWithin sub now grant cfg (wrote _) s h idle k = rw idle (omega (arith, k))

Grant-cases : (g : Grant) → ((n : ℕ) × (g ≡ granted n)) ⊎ ((ms : ℕ) × (g ≡ limited ms))
Grant-cases (granted n) = inl (n, refl)
Grant-cases (limited ms) = inr (ms, refl)

poll_items-IsWithin :
    (sub : Subscribe) (now want : ℕ) (r : SubRound) (s : SubSession)
    → ((app : AppRequest) → IsLawful app (r.client_write app))
    → s.pending ≡ []
    → live now s.tracking + want ≤ prefetch_of sub.prefetch
    → IsWithin sub now (poll_items sub want r s)
unfolding poll_items
poll_items-IsWithin sub now want r s lawful idle k =
    let cfg = rate_config sub.topic r.limits_queue in
    let t = take_grant sub.topic want r.take_at cfg s.limiter in
    elim (Grant-cases t.1) [
      | inr (ms, e) ↦ rw (e, poll_items, idle) (omega (arith, k))
      | inl (grant, e) ↦
          let few = granted-take_grant-le sub.topic want r.take_at cfg s.limiter grant e in
          let app =
            poll_request (is_auto sub.ack_mode) sub.topic sub.group grant
              (visibility_of sub.visibility_timeout_ms) r.ts_ms in
          let brought =
            IsLawful-WrittenWithin (is_auto sub.ack_mode) sub.topic sub.group grant
              (visibility_of sub.visibility_timeout_ms) r.ts_ms (r.client_write app) (lawful app) in
          rw (e, poll_items)
            (take_items-IsWithin sub now grant cfg (r.client_write app) (record s { limiter = t.0 })
              brought idle (omega (arith, k, few)))
    ]

live-live_count-le :
    (now grace : ℕ) (s : SubTracking) → live now (live_count now grace s).0 ≤ live now s
unfolding live_count
live-live_count-le now grace s = live-drop_stale-le now (stale_offsets now grace s.by_offset) _

count-live_count :
    (now grace : ℕ) (s : SubTracking)
    → (live_count now grace s).1 ≡ live now (live_count now grace s).0
unfolding live_count
count-live_count now grace s = refl

count_and_poll-IsWithin :
    (sub : Subscribe) (now : ℕ) (r : SubRound) (s : SubSession)
    → ((app : AppRequest) → IsLawful app (r.client_write app))
    → s.pending ≡ []
    → now ≤ r.count_ms
    → IsWithin sub now s
    → IsWithin sub r.count_ms (count_and_poll sub r s)
unfolding count_and_poll
count_and_poll-IsWithin sub now r s lawful idle h v =
    let grace = visibility_of sub.visibility_timeout_ms in
    let c = live_count r.count_ms grace s.tracking in
    let kept = live-live_count-le r.count_ms grace s.tracking in
    let later = count_live_later now r.count_ms s.tracking.by_offset h in
    let counted = count-live_count r.count_ms grace s.tracking in
    let test =
      ltb c.1 (prefetch_of sub.prefetch) && has_deliverable sub.topic sub.group r.now_ms r.queue in
    elim (Bool-cases test) [
      | inr e ↦ rw (e, count_and_poll) (omega (arith, kept, later, v))
      | inl e ↦
          let room : c.1 < prefetch_of sub.prefetch = ground (arith, e) in
          rw (e, count_and_poll)
            (poll_items-IsWithin sub r.count_ms (prefetch_of sub.prefetch - c.1) r
              (record s { tracking = c.0 }) lawful idle (omega (arith, room, counted)))
    ]

pub IsWithin-later :
    (sub : Subscribe) (now later : ℕ) (s : SubSession)
    → now ≤ later
    → IsWithin sub now s
    → IsWithin sub later s
IsWithin-later sub now later s h v =
    omega (arith, v, count_live_later now later s.tracking.by_offset h)

pub begin_round-IsWithin :
    (sub : Subscribe) (now : ℕ) (r : SubRound) (s : SubSession)
    → ((app : AppRequest) → IsLawful app (r.client_write app))
    → s.pending ≡ []
    → now ≤ r.count_ms
    → IsWithin sub now s
    → IsWithin sub r.count_ms (begin_round sub r s)
unfolding begin_round end_session
begin_round-IsWithin sub now r s lawful idle h v =
    let ends = IsWithin-later sub now r.count_ms s h v in
    let goes = count_and_poll-IsWithin sub now r s lawful idle h v in
    let writes =
      count_and_poll-IsWithin sub now r (record s { last_write = r.at }) lawful idle h v in
    let P = IsWithin sub r.count_ms in
    by_if P (s.closed || not r.leads) _ _ ends
      (by_if P _ _ _ (by_if P r.writes_heartbeat _ _ writes ends) goes)

-- A message that is pushed or dropped leaves the list of those to be pushed.
write_item-IsWithin :
    (sub : Subscribe) (now : ℕ) (d : Delivered) (rest : List Delivered) (at : ℕ) (written : Bool)
    (s : SubSession)
    → live now s.tracking + length rest ≤ prefetch_of sub.prefetch
    → IsWithin sub now (write_item sub d rest at written s)
unfolding write_item
write_item-IsWithin sub now d rest at true s h = h
write_item-IsWithin sub now d rest at false s h = omega (arith, h)

List-cases {ℓ} : {A : Type ℓ} (xs : List A) → (xs ≡ []) ⊎ ((x : A) × (ys : List A) × (xs ≡ x ∷ ys))
List-cases [] = inl refl
List-cases (x ∷ xs) = inr (x, xs, refl)

Delivery-cases : (d : Delivery) → (d ≡ push) ⊎ ((d ≡ refreshed) ⊎ (d ≡ already_acked))
Delivery-cases push = inl refl
Delivery-cases refreshed = inr (inl refl)
Delivery-cases already_acked = inr (inr refl)

pub push_item-IsWithin :
    (sub : Subscribe) (now at_ms : ℕ) (written : Bool) (at : ℕ) (s : SubSession)
    → IsWithin sub now s
    → IsWithin sub now (push_item sub at_ms written at s)
unfolding push_item
push_item-IsWithin sub now at_ms written at s v = elim (List-cases s.pending) [
  | inl e ↦ rw (push_item, e) v
  | inr (d, rest, e) ↦
      let many : live now s.tracking + suc (length rest) ≤ prefetch_of sub.prefetch =
        subst (λ (xs : List Delivered). live now s.tracking + length xs ≤ prefetch_of sub.prefetch)
          e v in
      elim (Bool-cases (is_auto sub.ack_mode)) [
        | inl a ↦
            rw (push_item, e, a)
              (write_item-IsWithin sub now d rest at written s (omega (arith, many)))
        | inr a ↦
            let deadline = saturating_add at_ms (visibility_of sub.visibility_timeout_ms) in
            let r = deliver d.offset d.lease_id deadline at_ms s.tracking in
            let one_more = live-deliver-le now d.offset d.lease_id deadline at_ms s.tracking in
            let fits : live now r.0 + length rest ≤ prefetch_of sub.prefetch =
              omega (arith, one_more, many) in
            elim (Delivery-cases r.1) [
              | inl f ↦
                  rw (push_item, e, a, f)
                    (write_item-IsWithin sub now d rest at written (record s { tracking = r.0 })
                      fits)
              | inr (inl f) ↦ rw (push_item, e, a, f) fits
              | inr (inr f) ↦ rw (push_item, e, a, f) fits
            ]
      ]
]

pub resolve_lease-IsWithin :
    (sub : Subscribe) (now : ℕ) (id : LeaseId) (is_nack : Bool) (until : Option ℕ) (s : SubSession)
    → IsWithin sub now s
    → IsWithin sub now (resolve_lease sub id is_nack until s)
unfolding resolve_lease
resolve_lease-IsWithin sub now id is_nack until s v =
    omega (arith, v, live-resolve-le now id until s.tracking)
