-- ===== src/Tests/Ports.antt =====
-- The theorems on the client port at small connections and requests.
use hermesmq.Prelude.{ℕ, zero, suc, [], ◌∷◌, true, none, some, ◌≡◌, refl, arith, replicate, is_some}
use hermesmq.Ord.{list_ord, nat_ord}
use hermesmq.Types.{Bytes, Name, AppRequest}
use hermesmq.Queue.{empty, apply}
use hermesmq.Client.{Poll, Subscribe, Write, wrote, app_response_to_proto}
use hermesmq.Client.Batcher.{gone}
use hermesmq.Client.Polling.{PollRound, handle_poll, wait_of, wait_between, deadline_of}
use hermesmq.Client.Waits.{handle_poll-some}
use hermesmq.Client.Requests.{create_topic, auth, get_stats, Node, Ctx, Initialized, handle_request}
use hermesmq.Client.Transparent.{seen_answer, seen, written_request, handle_request-written_request}
use hermesmq.Client.Connection.{Decoded, request, undecodable, handle_client}
use hermesmq.Client.Auth.{IsRefused, handle_client-IsRefused}

abbrev pub replica : AppRequest → Write
replica app = wrote (apply app empty).1

abbrev poll_round_at : ℕ → PollRound
poll_round_at checked = record {
  queue = empty;
  now_ms = 1;
  limits_queue = empty;
  at = 0;
  ts_ms = 1;
  client_write = replica;
  checked = checked;
}

abbrev long_poll : Poll
long_poll = record {
  topic = 1 ∷ [];
  group = 2 ∷ [];
  max = 0;
  visibility_timeout_ms = 0;
  ack_mode = [];
  wait_ms = 200;
}

handle_poll-some_example :
    is_some (handle_poll true [] long_poll 0 (poll_round_at 0 ∷ poll_round_at 200000000 ∷ []) []).1
    ≡ true
unfolding wait_of wait_between deadline_of
handle_poll-some_example =
    handle_poll-some true [] long_poll 0 (poll_round_at 0 ∷ poll_round_at 200000000 ∷ []) []
      (omega arith, (omega arith, tt)) (omega arith)

abbrev node : Node
node = record {
  queue = empty;
  raft = record {
    id = 1;
    last_applied = none;
    current_leader = some 1;
    current_term = 1;
    last_log_index = none;
  };
  leader_addr = [];
  initialize = λ m. Initialized.init_ok;
  client_write = replica;
  reply = gone;
  now_ms = 1;
  start = 0;
  rounds = [];
}

abbrev long_name : Name
long_name = replicate 300 97

abbrev fresh : Ctx
fresh = record { limiter = []; notifiers = [] }

handle_request-written_request_example :
    seen_answer (handle_request (λ n. n) node (some (create_topic long_name)) fresh).1
    ≡ some (seen (app_response_to_proto (apply (AppRequest.create_topic long_name) empty).1))
unfolding written_request
handle_request-written_request_example =
    handle_request-written_request (λ n. n) node (create_topic long_name)
      (AppRequest.create_topic long_name) fresh refl refl

-- An empty frame cannot be decoded, a first byte 0 asks for the stats, another presents a token.
abbrev decode : Bytes → Decoded
decode [] = undecodable 1
decode (zero ∷ rest) = request (some get_stats)
decode (suc n ∷ rest) = request (some (auth rest))

handle_client-IsRefused_example : IsRefused (
    handle_client decode
      (some (7 ∷ 8 ∷ []))
      (([], true) ∷ (0 ∷ [], true) ∷ (1 ∷ 7 ∷ [], true) ∷ []))
handle_client-IsRefused_example =
    handle_client-IsRefused decode (7 ∷ 8 ∷ [])
      (([], true) ∷ (0 ∷ [], true) ∷ (1 ∷ 7 ∷ [], true) ∷ [])
      (λ e. ground (arith, e), (λ e. ground (arith, e), (λ e. ground (arith, e), tt)))

abbrev pub sub : Subscribe
sub = record {
  topic = 1 ∷ [];
  group = 2 ∷ [];
  prefetch = 4;
  visibility_timeout_ms = 0;
  ack_mode = [];
}
