-- ===== src/Peer.antt =====
-- crates/hermesmq-core/src/engine/network.rs: the port that the nodes of a cluster use, and its client.
-- The bodies of openraft's requests and answers are numbers, Raft and the encoding are arguments, and a
-- node's Raft is a state that each request changes. The frames that a connection brings are a list, each
-- with whether its answer can be written; the connection fails where the list ends.
pub mod Auth
pub mod Calls
use hermesmq.Prelude.{ℕ, List, [], ◌∷◌, Bool, true, false, not, Option, none, some, if◌then◌else◌}
use hermesmq.Types.{Bytes}
use hermesmq.Frame.{max_peer_frame, write_frame, read_frame}
use hermesmq.Secret.{secret_eq}

pub data PeerRequest : Type 0 where
  append_entries vote install_snapshot : ℕ → PeerRequest
  auth : Bytes → PeerRequest

-- `Result<_, RaftError>`: an answer, a fatal error of Raft, or another error
pub data RaftResult : Type 0 where
  raft_ok raft_error : ℕ → RaftResult
  raft_fatal : RaftResult

pub data PeerResponse : Type 0 where
  appended voted installed : RaftResult → PeerResponse
  auth_result : Bool → PeerResponse

-- What a node's Raft does with each request.
pub record Raft (S : Type 0) : Type 0 where
  pub on_append : ℕ → S → S × RaftResult
  pub on_vote : ℕ → S → S × RaftResult
  pub on_install : ℕ → S → S × RaftResult

-- One round of `handle_conn`: what it did to Raft, its answer, and whether the connection goes on and is
-- authenticated.
pub record Turn (S : Type 0) : Type 0 where
  pub raft : S
  pub answer : Option PeerResponse
  pub next : Option Bool

unfoldable pub is_stopped : RaftResult → Option Bool
is_stopped raft_fatal = none
is_stopped _ = some true

unfoldable pub accepts : Option Bytes → Bytes → Bool
accepts none offered = true
accepts (some expected) offered = secret_eq offered expected

module _ {S : Type 0} (raft : Raft S) (token : Option Bytes) where
  unfoldable pub take_request : Bool → PeerRequest → S → Turn S
  take_request authed (auth offered) s =
      let ok = accepts token offered in
      record { raft = s; answer = some (auth_result ok); next = if ok then some true else none }
  take_request false req s = record { raft = s; answer = none; next = none }
  take_request true (append_entries r) s =
      let x = raft.on_append r s in
      record { raft = x.0; answer = some (appended x.1); next = is_stopped x.1 }
  take_request true (vote r) s =
      let x = raft.on_vote r s in
      record { raft = x.0; answer = some (voted x.1); next = is_stopped x.1 }
  take_request true (install_snapshot r) s =
      let x = raft.on_install r s in
      record { raft = x.0; answer = some (installed x.1); next = is_stopped x.1 }

  -- the answers that a connection has sent, with the newest in front of those to come
  abbrev pub answered : Option PeerResponse → List PeerResponse → List PeerResponse
  answered none rest = rest
  answered (some resp) rest = resp ∷ rest

  module _ (decode : Bytes → Option PeerRequest) where
    -- The state of Raft at the end of the connection, and the answers that it sent.
    unfoldable pub handle_frames : Bool → List (Bytes × Bool) → S → S × List PeerResponse
    handle_frames authed [] s = (s, [])
    handle_frames authed ((frame, writes) ∷ frames) s = elim (decode frame) [
      | none ↦ (s, [])
      | some req ↦
          let t = take_request authed req s in
          if not writes then (t.raft, []) else elim t.next [
            | none ↦ (t.raft, answered t.answer [])
            | some ok ↦ let r = handle_frames ok frames t.raft in (r.0, answered t.answer r.1)
          ]
    ]

    unfoldable pub handle_conn : List (Bytes × Bool) → S → S × List PeerResponse
    handle_conn frames s = handle_frames (elim token [ none ↦ true | some t ↦ false ]) frames s

-- Why a call fails; `io` is a failure of the socket or of the encoding.
pub data CallError : Type 0 where
  partitioned io rejected_token variant_mismatch handshake_timeout : CallError
  remote_error : RaftResult → CallError

pub data Called (A : Type 0) : Type 0 where
  called : A → Called A
  call_failed : CallError → Called A

pub record PeerConnection (Stream : Type 0) : Type 0 where
  pub blocked : Bool
  pub token : Option Bytes
  pub stream : Option Stream

-- The network as a state: `connect` opens a stream, `exchange` sends bytes and brings the
-- bytes that come back.
pub record Network (N Stream : Type 0) : Type 0 where
  pub connect : N → N × Option Stream
  pub exchange : Bytes → Stream → N → N × Option Bytes
  pub in_time : N → Bool

module _ {N Stream : Type 0} (net : Network N Stream) (encode : PeerRequest → Bytes)
    (decode : Bytes → Option PeerResponse) where
  unfoldable pub decode_answer : Bytes → Called PeerResponse
  decode_answer bytes = elim (decode bytes) [ none ↦ call_failed io | some resp ↦ called resp ]

  -- An answer that is not one whole frame within the limit is an error.
  unfoldable pub read_response : Option Bytes → Called PeerResponse
  read_response none = call_failed io
  read_response (some stream) = elim (read_frame max_peer_frame stream) [
    | none ↦ call_failed io
    | some r ↦ decode_answer r.0
  ]

  -- `none` is `Ok(())`.
  unfoldable pub check_token : Called PeerResponse → Option CallError
  check_token (called (auth_result true)) = none
  check_token (called (auth_result false)) = some rejected_token
  check_token (called _) = some variant_mismatch
  check_token (call_failed e) = some e

  unfoldable pub exchange_token : Bytes → Stream → N → N × Option CallError
  exchange_token token stream n =
      let x = net.exchange (write_frame (encode (auth token))) stream n in
      (x.0, check_token (read_response x.1))

  unfoldable pub authenticate : Bytes → Stream → N → N × Option CallError
  authenticate token stream n =
      let x = exchange_token token stream n in
      if net.in_time x.0 then x else (x.0, some handshake_timeout)

  -- a stream that is connected, and authenticated if there is a token
  unfoldable pub open_stream : Option Bytes → N → N × Called Stream
  open_stream token n =
      let c = net.connect n in
      elim c.1 [
        | none ↦ (c.0, call_failed io)
        | some stream ↦ elim token [
          | none ↦ (c.0, called stream)
          | some t ↦
              let a = authenticate t stream c.0 in
              (a.0, elim a.1 [ none ↦ called stream | some e ↦ call_failed e ])
        ]
      ]

  unfoldable pub take_stream : PeerConnection Stream → N → N × Called Stream
  take_stream conn n = elim conn.stream [
    | some stream ↦ (n, called stream)
    | none ↦ open_stream conn.token n
  ]

  -- A call keeps the stream only if it brought an answer.
  unfoldable pub call :
      PeerRequest → PeerConnection Stream → N → N × (PeerConnection Stream × Called PeerResponse)
  call req conn n =
      let closed : PeerConnection Stream = record conn { stream = none } in
      if conn.blocked
      then (n, (closed, call_failed partitioned))
      else (let t = take_stream conn n in
          elim t.1 [
            | call_failed e ↦ (t.0, (closed, call_failed e))
            | called stream ↦
                let x = net.exchange (write_frame (encode req)) stream t.0 in
                elim (read_response x.1) [
                  | call_failed e ↦ (x.0, (closed, call_failed e))
                  | called resp ↦ (x.0, (record conn { stream = some stream }, called resp))
                ]
          ])

unfoldable pub raft_answer : RaftResult → Called ℕ
raft_answer (raft_ok n) = called n
raft_answer e = call_failed (remote_error e)

-- `append_entries`, `vote` and `install_snapshot` of a connection, from the answer to the call on
unfoldable pub appended_answer : Called PeerResponse → Called ℕ
appended_answer (called (appended r)) = raft_answer r
appended_answer (called _) = call_failed variant_mismatch
appended_answer (call_failed e) = call_failed e

unfoldable pub voted_answer : Called PeerResponse → Called ℕ
voted_answer (called (voted r)) = raft_answer r
voted_answer (called _) = call_failed variant_mismatch
voted_answer (call_failed e) = call_failed e

unfoldable pub installed_answer : Called PeerResponse → Called ℕ
installed_answer (called (installed r)) = raft_answer r
installed_answer (called _) = call_failed variant_mismatch
installed_answer (call_failed e) = call_failed e
