-- ===== src/Tests/Replays.antt =====
-- The theorems on the state machine's log at concrete entries.
use hermesmq.Prelude.{ℕ, List, [], ◌∷◌, ◌++◌, Option, none, some, ◌≡◌, length}
use hermesmq.Types.{AppRequest}
use hermesmq.Queue.Apply.{run}
use hermesmq.Snapshot.{
  StateMachineData, Entry, blank, normal, membership, apply_entries, default_data,
}
use hermesmq.Snapshot.Replay.{
  apply_entries-run, requests, last_position, final_membership, queue_answer, answer_at,
}
use hermesmq.Tests.{topic, group, item}

-- A membership is stored with its position.
abbrev paired : Option ℕ → ℕ → Option ℕ × ℕ
paired position voters = (position, voters)

abbrev E : Type 0
E = Entry ℕ (Option ℕ × ℕ) ℕ paired

abbrev entries : List E
entries =
    record { log_id = 1; payload = blank } ∷ record { log_id = 2; payload = membership 3 } ∷ []

abbrev produced : E
produced = record { log_id = 3; payload = normal (AppRequest.produce (item 0 1)) }

abbrev more : List E
more = record { log_id = 4; payload = normal (AppRequest.poll topic group 2 1000 10) } ∷ []

abbrev start : StateMachineData ℕ (Option ℕ × ℕ)
start = default_data ℕ (Option ℕ × ℕ) (none, 0)

apply_entries-run_example :
    let all = entries ++ produced ∷ more in
    let r = apply_entries ℕ (Option ℕ × ℕ) ℕ paired all start in
    (r.0.queue ≡ run (requests ℕ (Option ℕ × ℕ) ℕ paired all) start.queue)
    × (r.0.last_applied ≡ last_position ℕ (Option ℕ × ℕ) ℕ paired all start.last_applied)
    × (r.0.last_membership ≡ final_membership ℕ (Option ℕ × ℕ) ℕ paired all start.last_membership)
    × (length r.1 ≡ length all)
    × (answer_at ℕ (Option ℕ × ℕ) ℕ paired (length entries) r.1
        ≡ some (
            queue_answer ℕ
              (Option ℕ × ℕ)
              ℕ
              paired
              produced.payload
              (run (requests ℕ (Option ℕ × ℕ) ℕ paired entries) start.queue)))
apply_entries-run_example = apply_entries-run ℕ (Option ℕ × ℕ) ℕ paired entries produced more start
