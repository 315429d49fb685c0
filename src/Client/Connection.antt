-- ===== src/Client/Connection.antt =====
-- crates/hermesmq-core/src/client.rs: `handle_client`, which reads the requests of a connection, and its
-- writer. The frames are a list, each with whether the writer still takes answers; the connection ends
-- where the list does. What a frame decodes to is an argument. Requests run on their own; the answers
-- go to the writer in the order of the requests.
use hermesmq.Prelude.{ℕ, List, [], ◌∷◌, Bool, true, false, Option, none, some, if◌then◌else◌}
use hermesmq.Types.{Bytes}
use hermesmq.Secret.{secret_eq}
use hermesmq.Client.{
  Subscribe, Response, bad_request, unauthorized, other, authenticate_first, resp_ok, resp_error,
}
use hermesmq.Client.Requests.{RequestKind, auth, subscribe}

-- `Request::decode`
pub data Decoded : Type 0 where
  request : Option RequestKind → Decoded
  undecodable : ℕ → Decoded

-- An answer that the writer waits for: one that is there, or that of a request that runs.
pub data Pending : Type 0 where
  ready : Response → Pending
  running : Option RequestKind → Pending

-- What a connection did: the requests that it ran, the answers that its writer got, and the subscription
-- that it turned into.
pub record Session : Type 0 where
  pub spawned : List (Option RequestKind)
  pub queued : List Pending
  pub sub : Option Subscribe

abbrev pub ended : Session
ended = record { spawned = []; queued = []; sub = none }

-- `tx.send(..)`, and the session after it
unfoldable pub send_pending : Bool → Pending → Session → Session
send_pending true pending rest = record rest { queued = pending ∷ rest.queued }
send_pending false pending rest = rest

-- the same where a failure ends the loop
unfoldable pub send_or_end : Bool → Pending → Session → Session
send_or_end true pending rest = record rest { queued = pending ∷ rest.queued }
send_or_end false pending rest = ended

unfoldable pub offers : Option Bytes → Option RequestKind → Bool
offers (some expected) (some (auth offered)) = secret_eq offered expected
offers _ _ = false

unfoldable pub subscription : Option RequestKind → Option Subscribe
subscription (some (subscribe sub)) = some sub
subscription _ = none

-- A request of a connection that is not authenticated yet, and what follows if it is then.
unfoldable pub take_token : Bool → Bool → Session → Session
take_token true alive rest = send_pending alive (ready resp_ok) rest
take_token false alive rest =
    send_pending alive (ready (resp_error unauthorized authenticate_first)) ended

-- A request of a connection that is authenticated, and what follows.
unfoldable pub run_request : Option RequestKind → Bool → Session → Session
run_request req alive rest = elim (subscription req) [
  | some sub ↦ record ended { sub = some sub }
  | none ↦
      let more = send_or_end alive (running req) rest in
      record more { spawned = req ∷ more.spawned }
]

module _ (decode : Bytes → Decoded) (token : Option Bytes) where
  unfoldable pub read_requests : Bool → List (Bytes × Bool) → Session
  read_requests authed [] = ended
  read_requests authed ((frame, alive) ∷ frames) =
      let same = read_requests authed frames in
      let trusted = read_requests true frames in
      elim (decode frame) [
        | undecodable e ↦ send_or_end alive (ready (resp_error bad_request (other e))) same
        | request req ↦
            if authed
            then run_request req alive same
            else take_token (offers token req) alive trusted
      ]

  -- `handle_client` up to the end of its loop
  unfoldable pub handle_client : List (Bytes × Bool) → Session
  handle_client frames = read_requests (elim token [ none ↦ true | some t ↦ false ]) frames

-- The writer, given for each answer what came of it, if anything did, and whether it can be written:
-- what it writes.
unfoldable pub write_responses : List (Option Response × Bool) → List Response
write_responses [] = []
write_responses ((none, ok) ∷ pending) = []
write_responses ((some resp, ok) ∷ pending) =
    let rest = write_responses pending in if ok then resp ∷ rest else []
