-- ===== src/Client/Grouped.antt =====
-- What a batch of acknowledgements asks for, and that each of its jobs is answered.
use hermesmq.Prelude.{
  ℕ, ◌+◌, List, [], ◌∷◌, ◌++◌, Bool, true, false, Option, none, some, ◌≡◌, refl, ap, sym, arith,
  if◌then◌else◌, ◌==◌, Bool-cases, inl, inr, append_assoc, append_nil, map, ◌∙◌,
}
use hermesmq.Ord.{nat_ord, list_ord, pair_ord, bool_ord}
use hermesmq.Map.{get, insert, same}
use hermesmq.Map.Lookup.{get-insert, eq_of_same}
use hermesmq.Map.Sorted.{IsSorted, insert-IsSorted}
use hermesmq.Map.Size.{total, total-insert}
use hermesmq.Types.{LeaseId, AppRequest}
use hermesmq.Client.{Response, Write, map_write}
use hermesmq.Client.Batcher.{Notifiers}
use hermesmq.Client.Acks.{
  AckJob, AckKey, AckGroup, AckGroups, job_key, group_entry, push_reply, add_job, group_jobs,
  group_request, reply_all, write_ack_groups,
}

-- The leases of the jobs with a key, in order, and the channels of those that want a reply.
unfoldable pub leases_of : AckKey → List AckJob → List LeaseId
leases_of key [] = []
leases_of key (job ∷ jobs) =
    let rest = leases_of key jobs in if same key (job_key job) then job.lease_id ∷ rest else rest

-- An entry at the end of a list, if a test holds.
append_if :
    (b : Bool) (xs ys : List LeaseId) (id : LeaseId)
    → (if b then xs ++ (id ∷ []) else xs) ++ ys ≡ xs ++ (if b then id ∷ ys else ys)
append_if true xs ys id = append_assoc xs (id ∷ []) ys
append_if false xs ys id = refl

leases-insert :
    (key k : AckKey) (id : LeaseId) (replies : List ℕ) (groups : AckGroups)
    → (group_entry key (insert k ((group_entry k groups).0 ++ (id ∷ []), replies) groups)).0
      ≡ (if same key k then (group_entry key groups).0 ++ (id ∷ []) else (group_entry key groups).0)
unfolding group_entry
leases-insert key k id replies groups =
    let found = get-insert key k ((group_entry k groups).0 ++ (id ∷ []), replies) groups in
    elim (Bool-cases (same key k)) [
      | inl e ↦ rw (group_entry, found, e, ← eq_of_same key k e) refl
      | inr e ↦ rw (group_entry, found, e) refl
    ]

leases-add_job :
    (key : AckKey) (job : AckJob) (groups : AckGroups)
    → (group_entry key (add_job job groups)).0 ≡ (
        if same key (job_key job)
        then (group_entry key groups).0 ++ (job.lease_id ∷ [])
        else (group_entry key groups).0)
unfolding add_job
leases-add_job key job groups =
    leases-insert key (job_key job) job.lease_id
      (push_reply job.reply (group_entry (job_key job) groups).1) groups

leases-group_jobs_from :
    (key : AckKey) (jobs : List AckJob) (groups : AckGroups)
    → (group_entry key (group_jobs jobs groups)).0
      ≡ (group_entry key groups).0 ++ leases_of key jobs
unfolding group_jobs leases_of
leases-group_jobs_from key [] groups = sym (append_nil (group_entry key groups).0)
leases-group_jobs_from key (job ∷ jobs) groups =
    leases-group_jobs_from key jobs (add_job job groups)
    ∙ ap (λ l. l ++ leases_of key jobs) (leases-add_job key job groups)
    ∙ append_if (same key (job_key job)) (group_entry key groups).0 (leases_of key jobs)
        job.lease_id

-- The request that a batch writes for a topic, a group and a kind names the leases of exactly the jobs
-- of that topic, group and kind, in the order in which the jobs came.
pub leases-group_jobs :
    (key : AckKey) (jobs : List AckJob)
    → (group_entry key (group_jobs jobs [])).0 ≡ leases_of key jobs
unfolding group_entry get
leases-group_jobs key jobs = leases-group_jobs_from key jobs []

-- how often a channel is in a list
unfoldable pub count : ℕ → List ℕ → ℕ
count r [] = 0
count r (s ∷ ss) = (if r == s then 1 else 0) + count r ss

-- the channels of the jobs that want a reply
unfoldable pub replies_wanted : List AckJob → List ℕ
replies_wanted [] = []
replies_wanted (job ∷ jobs) = push_reply job.reply [] ++ replies_wanted jobs

count-append : (r : ℕ) (xs ys : List ℕ) → count r (xs ++ ys) ≡ count r xs + count r ys
unfolding count
count-append r [] ys = omega arith
count-append r (x ∷ xs) ys = omega (arith, count-append r xs ys)

count-push_reply :
    (r : ℕ) (reply : Option ℕ) (xs : List ℕ)
    → count r (push_reply reply xs) ≡ count r xs + count r (push_reply reply [])
unfolding push_reply count
count-push_reply r none xs = omega arith
count-push_reply r (some reply) xs = count-append r xs (reply ∷ [])

-- how often a channel is in the groups
abbrev waiting : ℕ → AckGroups → ℕ
waiting r = total (λ (entry : AckGroup). count r entry.1)

waiting-insert :
    (r : ℕ) (k : AckKey) (ids : List LeaseId) (reply : Option ℕ) (groups : AckGroups)
    → IsSorted groups
    → waiting r (insert k (ids, push_reply reply (group_entry k groups).1) groups)
      ≡ waiting r groups + count r (push_reply reply [])
unfolding group_entry
waiting-insert r k ids reply groups s =
    let change =
      total-insert (λ (entry : AckGroup). count r entry.1) k
        (ids, push_reply reply (group_entry k groups).1) groups s in
    let more = count-push_reply r reply (group_entry k groups).1 in
    let before : (elim (get k groups) [ none ↦ 0 | some w ↦ count r w.1 ])
        ≡ count r (group_entry k groups).1 =
      held (get k groups) in
    omega (arith, change, more, before)
  where
    held :
        (o : Option AckGroup)
        → (elim o [ none ↦ 0 | some w ↦ count r w.1 ])
          ≡ count r (elim o as (λ _. AckGroup) [ none ↦ ([], []) | some entry ↦ entry ]).1
    held none = unfold count in refl
    held (some w) = refl

waiting-add_job :
    (r : ℕ) (job : AckJob) (groups : AckGroups)
    → IsSorted groups
    → waiting r (add_job job groups) ≡ waiting r groups + count r (push_reply job.reply [])
unfolding add_job
waiting-add_job r job groups s =
    waiting-insert r (job_key job) ((group_entry (job_key job) groups).0 ++ (job.lease_id ∷ []))
      job.reply groups s

waiting-group_jobs :
    (r : ℕ) (jobs : List AckJob) (groups : AckGroups)
    → IsSorted groups
    → waiting r (group_jobs jobs groups) ≡ waiting r groups + count r (replies_wanted jobs)
unfolding group_jobs replies_wanted count add_job
waiting-group_jobs r [] groups s = omega arith
waiting-group_jobs r (job ∷ jobs) groups s = omega (
  arith,
  waiting-group_jobs r jobs (add_job job groups) (insert-IsSorted _ _ groups s),
  waiting-add_job r job groups s,
  count-append r (push_reply job.reply []) (replies_wanted jobs),
)

map-reply_all :
    (resp : Response) (replies : List ℕ) → map (λ a. a.0) (reply_all resp replies) ≡ replies
unfolding reply_all
map-reply_all resp [] = refl
map-reply_all resp (r ∷ rs) = ap (λ l. r ∷ l) (map-reply_all resp rs)

module _ {ℓ} {S : Type ℓ} (client_write : AppRequest → S → S × Write) (notifiers : Notifiers) where
  count-write_ack_groups :
      (r : ℕ) (groups : AckGroups) (s : S)
      → count r (map (λ a. a.0) (write_ack_groups client_write notifiers groups s).answers)
        ≡ waiting r groups
  unfolding write_ack_groups count total
  count-write_ack_groups r [] s = refl
  count-write_ack_groups r ((key, entry) ∷ groups) s =
      let w = client_write (group_request key entry.0) s in
      let first = reply_all (map_write w.1) entry.1 in
      let rest = (write_ack_groups client_write notifiers groups w.0).answers in
      rw (map-append first rest, map-reply_all (map_write w.1) entry.1)
        (omega (
          arith,
          count-append r entry.1 (map (λ a. a.0) rest),
          count-write_ack_groups r groups w.0,
        ))
    where
      map-append :
          (xs ys : List (ℕ × Response))
          → map (λ a. a.0) (xs ++ ys) ≡ map (λ a. a.0) xs ++ map (λ a. a.0) ys
      map-append [] ys = refl
      map-append (x ∷ xs) ys = ap (λ l. x.0 ∷ l) (map-append xs ys)

  -- When the groups of a batch are written, each channel gets as many answers as there are jobs of the
  -- batch that want a reply on it, whatever the writes return.
  pub answers-write_ack_groups :
      (r : ℕ) (jobs : List AckJob) (s : S)
      → count r
          (map (λ a. a.0) (write_ack_groups client_write notifiers (group_jobs jobs []) s).answers)
        ≡ count r (replies_wanted jobs)
  unfolding total
  answers-write_ack_groups r jobs s =
      omega
        (arith, count-write_ack_groups r (group_jobs jobs []) s, waiting-group_jobs r jobs [] tt)
