-- ===== src/Client/Transparent.antt =====
-- What a client reads of a request that the port writes on its own.
use hermesmq.Prelude.{
  ℕ, [], Bool, true, false, Option, none, some, ◌≡◌, refl, ap, arith, subst, ◌∙◌,
}
use mathlib.Core.Option.{some-injective}
use hermesmq.Types.{Name, AppRequest, AppResponse, Reason}
use hermesmq.Limits.{check_consumer}
use hermesmq.Queue.{Queue, apply, guarded, check_topic}
use hermesmq.Client.{
  Response, wrote, map_write, app_response_to_proto, resp_error, of_reason, ErrorText, check_names,
  check_new_topic, check_len,
}
use hermesmq.Client.Checks.{
  text_of, text_of_reason, check_new_topic-check_topic, check_names-check_consumer,
}
use hermesmq.Client.Requests.{
  RequestKind, create_topic, set_rate_limit, set_retention, commit, bootstrap, get_stats, produce,
  poll, auth, ack, nack, delete_topic, subscribe, Node, Ctx, write_checked, handle_delete,
  handle_request,
}

-- What a client reads of an answer: the text of a refusal, or the answer itself.
abbrev pub seen : Response → Response × Option ErrorText
seen (Response.error e) = (Response.done, some e.message)
seen other = (other, none)

-- A check turns a request away with an error, if at all.
abbrev is_refusal : Option Response → Bool
is_refusal none = true
is_refusal (some (Response.error e)) = true
is_refusal (some _) = false

is_refusal-check_names : (topic group : Name) → is_refusal (check_names topic group) ≡ true
unfolding check_names check_len resp_error
is_refusal-check_names topic group = ground arith

is_refusal-check_new_topic :
    (topic : Name) (q : Queue) → is_refusal (check_new_topic topic q) ≡ true
unfolding check_new_topic resp_error
is_refusal-check_new_topic topic q = ground (arith, is_refusal-check_names topic [])

-- A check of the port that agrees with the queue's.
transparent :
    (check : Option Response) (reason : Option Reason) (node : Node) (app : AppRequest)
    (run : Queue × AppResponse)
    → text_of check ≡ text_of_reason reason
    → is_refusal check ≡ true
    → node.client_write app ≡ wrote (guarded reason node.queue run).1
    → seen (write_checked check node app) ≡ seen (map_write (node.client_write app))
unfolding write_checked map_write app_response_to_proto resp_error
transparent none reason node app run same h e = refl
transparent (some (Response.error x)) none node app run same h e = absurd (ground arith)
transparent (some (Response.error x)) (some reason) node app run same h e =
    let message : x.message ≡ of_reason reason = ground arith in rw (e, message) refl
transparent (some (Response.produced_at o)) reason node app run same h e = absurd (ground arith)
transparent (some (Response.items ds)) reason node app run same h e = absurd (ground arith)
transparent (some Response.done) reason node app run same h e = absurd (ground arith)
transparent (some (Response.stats s)) reason node app run same h e = absurd (ground arith)

-- The check of a request that can make a topic.
transparent_topic :
    (topic : Name) (node : Node) (app : AppRequest) (run : Queue × AppResponse)
    → node.client_write app ≡ wrote (guarded (check_topic topic node.queue) node.queue run).1
    → seen (write_checked (check_new_topic topic node.queue) node app)
      ≡ seen (map_write (node.client_write app))
transparent_topic topic node app run =
    transparent (check_new_topic topic node.queue) (check_topic topic node.queue) node app run
      (check_new_topic-check_topic topic node.queue) (is_refusal-check_new_topic topic node.queue)

abbrev pub seen_answer : Option Response → Option (Response × Option ErrorText)
seen_answer none = none
seen_answer (some resp) = some (seen resp)

module _ (round_milli : ℕ → ℕ) where
  -- What the port writes for a request that it writes on its own; produces, acks and nacks go to a
  -- batcher, a poll waits, and the others write nothing.
  unfoldable pub written_request : ℕ → RequestKind → Option AppRequest
  written_request now_ms (create_topic topic) = some (AppRequest.create_topic topic)
  written_request now_ms (delete_topic topic) = some (AppRequest.delete_topic topic)
  written_request now_ms (set_rate_limit topic rate burst) =
      some (AppRequest.set_rate_limit topic (round_milli rate) burst)
  written_request now_ms (set_retention topic max_messages max_age_ms) =
      some (AppRequest.set_retention topic max_messages max_age_ms)
  written_request now_ms (commit topic group offset) =
      some (AppRequest.commit_offset_at topic group offset now_ms)
  written_request now_ms _ = none

  abbrev Answered : Node → RequestKind → Ctx → AppRequest → Type 0
  Answered node kind ctx app =
      node.client_write app ≡ wrote (apply app node.queue).1
      → seen_answer (handle_request round_milli node (some kind) ctx).1
        ≡ some (seen (map_write (node.client_write app)))

  create_topic-Answered :
      (node : Node) (topic : Name) (ctx : Ctx)
      → Answered node (create_topic topic) ctx (AppRequest.create_topic topic)
  unfolding handle_request apply
  create_topic-Answered node topic ctx h = ap some (transparent_topic topic node _ _ h)

  delete_topic-Answered :
      (node : Node) (topic : Name) (ctx : Ctx)
      → Answered node (delete_topic topic) ctx (AppRequest.delete_topic topic)
  unfolding handle_request handle_delete map_write
  delete_topic-Answered node topic ctx h = refl

  set_rate_limit-Answered :
      (node : Node) (topic : Name) (rate burst : ℕ) (ctx : Ctx)
      → Answered node
          (set_rate_limit topic rate burst)
          ctx
          (AppRequest.set_rate_limit topic (round_milli rate) burst)
  unfolding handle_request apply
  set_rate_limit-Answered node topic rate burst ctx h = ap some (transparent_topic topic node _ _ h)

  set_retention-Answered :
      (node : Node) (topic : Name) (max_messages max_age_ms : ℕ) (ctx : Ctx)
      → Answered node
          (set_retention topic max_messages max_age_ms)
          ctx
          (AppRequest.set_retention topic max_messages max_age_ms)
  unfolding handle_request apply
  set_retention-Answered node topic max_messages max_age_ms ctx h =
      ap some (transparent_topic topic node _ _ h)

  commit-Answered :
      (node : Node) (topic group : Name) (offset : ℕ) (ctx : Ctx)
      → Answered node
          (commit topic group offset)
          ctx
          (AppRequest.commit_offset_at topic group offset node.now_ms)
  unfolding handle_request apply
  commit-Answered node topic group offset ctx h = ap some (
      transparent _ (check_consumer topic group) node _ _ (check_names-check_consumer topic group)
        (is_refusal-check_names topic group) h)

  written_request-Answered :
      (node : Node) (kind : RequestKind) (app : AppRequest) (ctx : Ctx)
      → written_request node.now_ms kind ≡ some app
      → Answered node kind ctx app
  unfolding written_request
  written_request-Answered node (create_topic topic) app ctx w =
      subst (Answered node _ ctx) (some-injective _ _ w) (create_topic-Answered node topic ctx)
  written_request-Answered node (delete_topic topic) app ctx w =
      subst (Answered node _ ctx) (some-injective _ _ w) (delete_topic-Answered node topic ctx)
  written_request-Answered node (set_rate_limit topic rate burst) app ctx w =
      subst (Answered node _ ctx) (some-injective _ _ w)
        (set_rate_limit-Answered node topic rate burst ctx)
  written_request-Answered node (set_retention topic max_messages max_age_ms) app ctx w =
      subst (Answered node _ ctx) (some-injective _ _ w)
        (set_retention-Answered node topic max_messages max_age_ms ctx)
  written_request-Answered node (commit topic group offset) app ctx w =
      subst (Answered node _ ctx) (some-injective _ _ w)
        (commit-Answered node topic group offset ctx)
  written_request-Answered node (bootstrap nodes) app ctx w = absurd (ground (arith, w))
  written_request-Answered node get_stats app ctx w = absurd (ground (arith, w))
  written_request-Answered node (produce p) app ctx w = absurd (ground (arith, w))
  written_request-Answered node (poll p) app ctx w = absurd (ground (arith, w))
  written_request-Answered node (auth token) app ctx w = absurd (ground (arith, w))
  written_request-Answered node (ack topic group id) app ctx w = absurd (ground (arith, w))
  written_request-Answered node (nack topic group id) app ctx w = absurd (ground (arith, w))
  written_request-Answered node (subscribe sub) app ctx w = absurd (ground (arith, w))

  -- Where a request is one that the port writes on its own, and the write of it meets the queue that the
  -- node sees, the client reads what the queue's `apply` answers to it: the same answer, or a refusal
  -- with the same text, whether or not the port checks the request first.
  pub handle_request-written_request :
      (node : Node) (kind : RequestKind) (app : AppRequest) (ctx : Ctx)
      → written_request node.now_ms kind ≡ some app
      → node.client_write app ≡ wrote (apply app node.queue).1
      → seen_answer (handle_request round_milli node (some kind) ctx).1
        ≡ some (seen (app_response_to_proto (apply app node.queue).1))
  unfolding map_write
  handle_request-written_request node kind app ctx w h =
      written_request-Answered node kind app ctx w h ∙ ap (λ x. some (seen (map_write x))) h
