-- ===== src/Client/Wakeups.antt =====
-- A consumer that waits for a topic is woken when messages arrive.
use hermesmq.Prelude.{
  ℕ, ◌+◌, ◌-◌, ◌<◌, List, [], ◌∷◌, Bool, true, false, none, some, ◌≡◌, refl, arith, if◌then◌else◌,
  ltb, length, Bool-cases, Option-cases, inl, inr, any,
}
use hermesmq.Ord.{list_ord, nat_ord}
use hermesmq.Types.{Name, Offset, produced_many}
use hermesmq.Map.{get, has, insert, same}
use hermesmq.Map.Lookup.{get-insert, same_self, eq_of_same}
use hermesmq.Map.Sorted.{IsSorted, insert-IsSorted, retain-IsSorted, get-retain}
use hermesmq.Client.{wrote}
use hermesmq.Client.Batcher.{
  Notifiers, gc_notifiers, notifier, notifier_gc_threshold, ProduceJob, notified_topics,
  finish_batch,
}

-- Consumers that come to wait for a topic, or leave; and how many wait for each topic.
pub data Waiting : Type 0 where
  comes leaves : Name → Waiting

unfoldable pub waiters : List Waiting → (Name → ℕ) → Name → ℕ
waiters [] w = w
waiters (comes t ∷ es) w = waiters es (λ s. if same s t then w s + 1 else w s)
waiters (leaves t ∷ es) w = waiters es (λ s. if same s t then w s - 1 else w s)

-- A consumer leaves when it waits, and drops its notifier then.
abbrev pub AreSound : List Waiting → (Name → ℕ) → Type 0
AreSound [] w = Unit
AreSound (comes t ∷ es) w = AreSound es (λ s. if same s t then w s + 1 else w s)
AreSound (leaves t ∷ es) w = (0 < w t) × AreSound es (λ s. if same s t then w s - 1 else w s)

unfoldable pub drop_notifier : Name → Notifiers → Notifiers
drop_notifier topic map = elim (get topic map) [
  | none ↦ map
  | some count ↦ insert topic (count - 1) map
]

unfoldable pub hold : List Waiting → Notifiers → Notifiers
hold [] map = map
hold (comes t ∷ es) map = hold es (notifier t map)
hold (leaves t ∷ es) map = hold es (drop_notifier t map)

-- The map holds each notifier once, and each consumer that waits holds it once more.
record IsCounted (map : Notifiers) (w : Name → ℕ) : Type 0 where
  sorted : IsSorted map
  absent : (t : Name) → get t map ≡ none → w t ≡ 0
  present : (t : Name) (c : ℕ) → get t map ≡ some c → c ≡ w t + 1

gc_notifiers-IsCounted :
    (map : Notifiers) (w : Name → ℕ) → IsCounted map w → IsCounted (gc_notifiers map) w
unfolding gc_notifiers
gc_notifiers-IsCounted map w v = elim (Bool-cases (ltb notifier_gc_threshold (length map))) [
  | inr e ↦ rw e v
  | inl e ↦ rw e (record {
    sorted = retain-IsSorted _ map v.sorted;
    absent = λ t h. elim (Option-cases (get t map)) [
      | inl g ↦ v.absent t g
      | inr (c, g) ↦
          ground (arith, get-retain (λ _ count. ltb 1 count) t map v.sorted, v.present t c g)
    ];
    present = λ t c h. elim (Option-cases (get t map)) [
      | inl g ↦ absurd (ground (arith, get-retain (λ _ count. ltb 1 count) t map v.sorted))
      | inr (d, g) ↦
          ground (arith, get-retain (λ _ count. ltb 1 count) t map v.sorted, v.present t d g)
    ];
  })
]

put-IsCounted :
    (map : Notifiers) (w u : Name → ℕ) (topic : Name) (count : ℕ)
    → IsCounted map w
    → count ≡ u topic + 1
    → ((s : Name) → same s topic ≡ false → u s ≡ w s)
    → IsCounted (insert topic count map) u
put-IsCounted map w u topic count v e others = record {
  sorted = insert-IsSorted topic count map v.sorted;
  absent = λ t h. elim (Bool-cases (same t topic)) [
    | inl k ↦ absurd (ground (arith, get-insert t topic count map))
    | inr k ↦ ground (arith, get-insert t topic count map, others t k, v.absent t)
  ];
  present = λ t c h. elim (Bool-cases (same t topic)) [
    | inl k ↦ ground (arith, get-insert t topic count map, eq_of_same t topic k)
    | inr k ↦ ground (arith, get-insert t topic count map, others t k, v.present t c)
  ];
}

notifier-IsCounted :
    (map : Notifiers) (w : Name → ℕ) (topic : Name)
    → IsCounted map w
    → IsCounted (notifier topic map) (λ s. if same s topic then w s + 1 else w s)
unfolding notifier
notifier-IsCounted map w topic v =
    let k = gc_notifiers-IsCounted map w v in
    let more : Name → ℕ = λ s. if same s topic then w s + 1 else w s in
    elim (Option-cases (get topic (gc_notifiers map))) [
      | inl e ↦
          rw (e, notifier)
            (put-IsCounted (gc_notifiers map) w more topic 2 k
              (ground (arith, k.absent topic e, same_self topic)) (λ s h. ground arith))
      | inr (c, e) ↦
          rw (e, notifier)
            (put-IsCounted (gc_notifiers map) w more topic (c + 1) k
              (ground (arith, k.present topic c e, same_self topic)) (λ s h. ground arith))
    ]

drop_notifier-IsCounted :
    (map : Notifiers) (w : Name → ℕ) (topic : Name)
    → 0 < w topic
    → IsCounted map w
    → IsCounted (drop_notifier topic map) (λ s. if same s topic then w s - 1 else w s)
unfolding drop_notifier
drop_notifier-IsCounted map w topic h v =
    let less : Name → ℕ = λ s. if same s topic then w s - 1 else w s in
    elim (Option-cases (get topic map)) [
      | inl e ↦ absurd (omega (arith, v.absent topic e))
      | inr (c, e) ↦
          rw (e, drop_notifier)
            (put-IsCounted map w less topic (c - 1) v
              (ground (arith, v.present topic c e, same_self topic)) (λ s k. ground arith))
    ]

hold-IsCounted :
    (es : List Waiting) (map : Notifiers) (w : Name → ℕ)
    → AreSound es w
    → IsCounted map w
    → IsCounted (hold es map) (waiters es w)
unfolding hold waiters
hold-IsCounted [] map w h v = v
hold-IsCounted (comes t ∷ es) map w h v =
    hold-IsCounted es (notifier t map) (λ s. if same s t then w s + 1 else w s) h
      (notifier-IsCounted map w t v)
hold-IsCounted (leaves t ∷ es) map w h v =
    hold-IsCounted es (drop_notifier t map) (λ s. if same s t then w s - 1 else w s) h.1
      (drop_notifier-IsCounted map w t h.0 v)

abbrev pub for_topic : Name → List ProduceJob → Bool
for_topic topic = any (λ job. same topic job.p.topic)

has-notified_topics :
    (topic : Name) (jobs : List ProduceJob) (map : Notifiers)
    → for_topic topic jobs ≡ true
    → has topic map ≡ true
    → has topic (notified_topics jobs map) ≡ true
unfolding notified_topics
has-notified_topics topic [] map h k = ground arith
has-notified_topics topic (job ∷ jobs) map h k = elim (Bool-cases (same topic job.p.topic)) [
  | inl e ↦
      rw
        (
          ← eq_of_same topic job.p.topic e,
          k,
          get-insert topic topic tt (notified_topics jobs map),
          same_self topic,
        )
        refl
  | inr e ↦
      let rest = has-notified_topics topic jobs map (ground (arith, e)) k in
      ground (arith, get-insert topic job.p.topic tt (notified_topics jobs map), rest)
]

-- However consumers come and go, and whatever the map of notifiers gives up when it is full, a batch
-- that is written notifies a topic for which it has a job and for which a consumer waits, if no topic
-- is deleted meanwhile.
pub notified-finish_batch :
    (es : List Waiting) (topic : Name) (jobs : List ProduceJob) (offsets : List Offset)
    → AreSound es (λ _. 0)
    → 0 < waiters es (λ _. 0) topic
    → for_topic topic jobs ≡ true
    → has topic (finish_batch jobs (wrote (produced_many offsets)) (hold es [])).1 ≡ true
unfolding finish_batch get
notified-finish_batch es topic jobs offsets sound waits there =
    let start : IsCounted [] (λ _. 0) = record {
      sorted = tt;
      absent = λ t _. refl;
      present = λ t c h. absurd (ground arith);
    } in
    let v = hold-IsCounted es [] (λ _. 0) sound start in
    has-notified_topics topic jobs (hold es []) there
      (elim (Option-cases (get topic (hold es []))) [
        | inl e ↦ absurd (omega (arith, v.absent topic e))
        | inr (c, e) ↦ rw e refl
      ])
