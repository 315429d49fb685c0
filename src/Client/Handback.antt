-- ===== src/Client/Handback.antt =====
-- What a subscription leaves behind when it ends.
use hermesmq.Prelude.{
  List, [], ◌∷◌, ◌++◌, Bool, true, false, Option, none, some, ◌≡◌, refl, arith, if◌then◌else◌, any,
  Option-cases, inl, inr,
}
use hermesmq.Ord.{nat_ord, list_ord, pair_ord, bool_ord}
use hermesmq.Map.{get, same}
use hermesmq.Map.Lookup.{get-insert, same_self}
use hermesmq.Types.{Name, LeaseId}
use hermesmq.Group.{Lease, release}
use hermesmq.Group.Release.{get-release}
use hermesmq.Topic.{TopicState}
use hermesmq.Tracking.{drain_leases}
use hermesmq.Queue.{Queue, nack, nack_all, update_topic, update_group, apply}
use hermesmq.Client.{Subscribe}
use hermesmq.Client.Acks.{AckKey, group_entry, group_jobs, group_request}
use hermesmq.Client.Grouped.{leases_of, leases-group_jobs}
use hermesmq.Client.Polling.{is_auto}
use hermesmq.Client.Subscription.{SubSession, sub_job, nack_jobs, hand_back}

-- The lease of a group with an id, if it is in flight.
unfoldable pub lease_in : Name → LeaseId → TopicState → Option Lease
lease_in group id t = elim (get group t.groups) [ none ↦ none | some g ↦ get id g.in_flight ]

unfoldable pub lease_at : Name → Name → LeaseId → Queue → Option Lease
lease_at topic group id q = elim (get topic q.topics) [ none ↦ none | some t ↦ lease_in group id t ]

none_either : (b : Bool) (o : Option Lease) → o ≡ (if b then o else o)
none_either true o = refl
none_either false o = refl

lease_in-release :
    (group : Name) (id j : LeaseId) (t : TopicState)
    → lease_in group j (update_group group (release id) t)
      ≡ (if same id j then none else lease_in group j t)
unfolding lease_in update_group
lease_in-release group id j t = elim (Option-cases (get group t.groups)) [
  | inl e ↦ rw (lease_in, update_group, e, e) (none_either (same id j) none)
  | inr (g, e) ↦
      rw
        (lease_in, update_group, e, get-insert group group (release id g) t.groups, same_self group)
        (get-release j id g)
]

lease_at-nack :
    (topic group : Name) (id j : LeaseId) (q : Queue)
    → lease_at topic group j (nack topic group id q)
      ≡ (if same id j then none else lease_at topic group j q)
unfolding lease_at nack update_topic
lease_at-nack topic group id j q = elim (Option-cases (get topic q.topics)) [
  | inl e ↦ rw (lease_at, nack, update_topic, e, e) (none_either (same id j) none)
  | inr (t, e) ↦
      rw
        (
          lease_at,
          nack,
          update_topic,
          e,
          get-insert topic topic (update_group group (release id) t) q.topics,
          same_self topic,
        )
        (lease_in-release group id j t)
]

-- A request that gives leases back takes each of them out of flight, and leaves the others.
lease_at-nack_all :
    (topic group : Name) (ids : List LeaseId) (j : LeaseId) (q : Queue)
    → lease_at topic group j (nack_all topic group ids q)
      ≡ (if any (λ i. same i j) ids then none else lease_at topic group j q)
unfolding nack_all
lease_at-nack_all topic group [] j q = refl
lease_at-nack_all topic group (id ∷ ids) j q = ground (
  arith,
  lease_at-nack_all topic group ids j (nack topic group id q),
  lease_at-nack topic group id j q,
)

leases-nack_jobs :
    (sub : Subscribe) (leases : List LeaseId)
    → leases_of (sub.topic, (sub.group, true)) (nack_jobs sub leases) ≡ leases
unfolding leases_of nack_jobs sub_job
leases-nack_jobs sub [] = refl
leases-nack_jobs sub (id ∷ ids) =
    let key : AckKey = (sub.topic, (sub.group, true)) in
    rw (same_self key, leases-nack_jobs sub ids) refl

-- When the jobs that a subscription without automatic acknowledgement leaves behind are grouped and
-- their request is applied, exactly the leases that its tracking still holds and those of the messages
-- that it did not deliver are out of flight, and no other lease of the group has changed.
pub lease_at-hand_back :
    (sub : Subscribe) (s : SubSession) (j : LeaseId) (q : Queue)
    → is_auto sub.ack_mode ≡ false
    → let key : AckKey = (sub.topic, (sub.group, true)) in
      let ids = (group_entry key (group_jobs (hand_back sub s) [])).0 in
      lease_at sub.topic sub.group j (apply (group_request key ids) q).0 ≡ (
        if any (λ i. same i j) (s.undelivered ++ (drain_leases s.tracking).1)
        then none
        else lease_at sub.topic sub.group j q)
unfolding hand_back group_request apply
lease_at-hand_back sub s j q manual =
    let key : AckKey = (sub.topic, (sub.group, true)) in
    let leases = s.undelivered ++ (drain_leases s.tracking).1 in
    rw
      (hand_back, manual, leases-group_jobs key (nack_jobs sub leases), leases-nack_jobs sub leases)
      (lease_at-nack_all sub.topic sub.group leases j q)
