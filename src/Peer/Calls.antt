-- ===== src/Peer/Calls.antt =====
-- A node that has the token, and the port that it calls.
use hermesmq.Prelude.{
  [], ◌≤◌, arith, length, ◌∙◌, Bool, true, false, Option, none, some, ◌≡◌, refl, Option-cases, inl,
  inr, ◌⊎◌,
}
use hermesmq.Types.{Bytes}
use hermesmq.Frame.{max_peer_frame, write_frame, read_frame, read_frame_deadline}
use hermesmq.Frame.Roundtrip.{read_last_frame, read_frame_deadline-read_frame}
use hermesmq.Secret.{secret_eq-same}
use hermesmq.Peer.{
  PeerRequest, auth, PeerResponse, auth_result, Raft, accepts, take_request, PeerConnection,
  Network, called, decode_answer, read_response, check_token, exchange_token, authenticate,
  open_stream, take_stream, call,
}

-- A port with one connection, and whether that is open and authenticated.
pub record Port (S : Type 0) : Type 0 where
  pub raft : S
  pub conn : Option Bool

module _ {S : Type 0} (raft : Raft S) (encode_request : PeerRequest → Bytes)
    (decode_request : Bytes → Option PeerRequest) (encode_response : PeerResponse → Bytes)
    (decode_response : Bytes → Option PeerResponse) where
  -- What the port does with a request, and what it sends back.
  unfoldable pub answer_request :
      Option Bytes → Bool → Option PeerRequest → Port S → Port S × Option Bytes
  answer_request token authed none p = (record p { conn = none }, none)
  answer_request token authed (some req) p =
      let t = take_request raft token authed req p.raft in
      (
        record { raft = t.raft; conn = t.next },
        elim t.answer [ none ↦ none | some resp ↦ some (write_frame (encode_response resp)) ],
      )

  -- A frame that the port cannot read ends the connection.
  unfoldable pub answer_frame : Option Bytes → Bytes → Port S → Port S × Option Bytes
  answer_frame token stream p = elim p.conn [
    | none ↦ (p, none)
    | some authed ↦ elim (read_frame_deadline max_peer_frame true stream) [
      | none ↦ (record p { conn = none }, none)
      | some r ↦ answer_request token authed (decode_request r.0) p
    ]
  ]

  -- The network to the port: it is up, and the port answers in time.
  unfoldable pub port_network : Option Bytes → Network (Port S) (Unit {0})
  port_network token = record {
    connect =
        λ p. (record p { conn = some (elim token [ none ↦ true | some t ↦ false ]) }, some tt);
    exchange = λ bytes _. answer_frame token bytes;
    in_time = λ p. true;
  }

  module _
      (faithful_requests : (req : PeerRequest) → decode_request (encode_request req) ≡ some req)
      (faithful_responses : (resp : PeerResponse)
        → decode_response (encode_response resp) ≡ some resp) where
    -- Within the limit of the peers' frames.
    abbrev pub Fits : Bytes → Type 0
    Fits bytes = length bytes ≤ max_peer_frame

    read_frame_lem :
        (bytes : Bytes)
        → Fits bytes
        → read_frame max_peer_frame (write_frame bytes) ≡ some (bytes, [])
    read_frame_lem bytes h = read_last_frame max_peer_frame bytes h (omega (arith, h))

    answer_frame_lem :
        (token : Option Bytes) (req : PeerRequest) (resp : PeerResponse) (authed : Bool)
        (p : Port S)
        → Fits (encode_request req)
        → (take_request raft token authed req p.raft).answer ≡ some resp
        → answer_frame token (write_frame (encode_request req)) (record p { conn = some authed })
          ≡ (
            record {
              raft = (take_request raft token authed req p.raft).raft;
              conn = (take_request raft token authed req p.raft).next;
            },
            some (write_frame (encode_response resp)),
          )
    unfolding answer_frame answer_request
    answer_frame_lem token req resp authed p h e =
        let read =
          read_frame_deadline-read_frame max_peer_frame (write_frame (encode_request req))
          ∙ read_frame_lem (encode_request req) h in
        rw (answer_frame, read, answer_frame, faithful_requests req, answer_request, e) refl

    read_response_lem :
        (token : Option Bytes) (resp : PeerResponse)
        → Fits (encode_response resp)
        → read_response
            (port_network token)
            encode_request
            decode_response
            (some (write_frame (encode_response resp)))
          ≡ called resp
    unfolding read_response decode_answer
    read_response_lem token resp h =
        rw
          (
            read_response,
            read_frame_lem (encode_response resp) h,
            decode_answer,
            faithful_responses resp,
          )
          refl

    -- What the handshake sends is within the limit, if there is a token.
    abbrev pub HandshakeFits : Option Bytes → Type 0
    HandshakeFits none = Unit
    HandshakeFits (some t) =
        Fits (encode_request (auth t)) × Fits (encode_response (auth_result true))

    opened :
        (token : Option Bytes) (p : Port S)
        → HandshakeFits token
        → open_stream (port_network token) encode_request decode_response token p
          ≡ (record p { conn = some true }, called tt)
    unfolding open_stream port_network authenticate exchange_token take_request accepts check_token
    opened none p h = refl
    opened (some t) p h =
        let same = (secret_eq-same t t).1 refl in
        let x = answer_frame_lem (some t) (auth t) (auth_result true) false p h.0 (rw same refl) in
        rw (x, read_response_lem (some t) (auth_result true) h.1, same) refl

    answered_call :
        (token : Option Bytes) (req : PeerRequest) (resp : PeerResponse)
        (conn : PeerConnection Unit) (p : Port S)
        → conn.blocked ≡ false
        → take_stream (port_network token) encode_request decode_response conn p
          ≡ (record p { conn = some true }, called tt)
        → (take_request raft token true req p.raft).answer ≡ some resp
        → Fits (encode_request req)
        → Fits (encode_response resp)
        → let r = call (port_network token) encode_request decode_response req conn p in
          (r.1.1 ≡ called resp) × (r.0.raft ≡ (take_request raft token true req p.raft).raft)
    unfolding call port_network
    answered_call token req resp conn p up ready e h k =
        let x = answer_frame_lem token req resp true p h e in
        rw (call, ready, ready, x, read_response_lem token resp k, ready, x, up) (refl, refl)

    -- A node that holds the port's token, or none if the port has none, gets the answer that the port's
    -- Raft gives to its request, and the request takes effect there: on a new connection after the
    -- handshake, and on one that is kept. The encodings are faithful, the request, the answer and what
    -- the handshake sends are within the limit of 64 MiB for a frame, the port is up and answers in time,
    -- and the node is not cut off.
    pub call-take_request :
        (token : Option Bytes) (req : PeerRequest) (resp : PeerResponse)
        (conn : PeerConnection Unit) (p : Port S)
        → conn.blocked ≡ false
        → conn.token ≡ token
        → ((conn.stream ≡ none) ⊎ (p.conn ≡ some true))
        → (take_request raft token true req p.raft).answer ≡ some resp
        → HandshakeFits token
        → Fits (encode_request req)
        → Fits (encode_response resp)
        → let r = call (port_network token) encode_request decode_response req conn p in
          (r.1.1 ≡ called resp) × (r.0.raft ≡ (take_request raft token true req p.raft).raft)
    unfolding take_stream
    call-take_request token req resp conn p up same ready e handshake h k =
        answered_call token req resp conn p up (stream_ready ready) e h k
      where
        stream_ready :
            (conn.stream ≡ none) ⊎ (p.conn ≡ some true)
            → take_stream (port_network token) encode_request decode_response conn p
              ≡ (record p { conn = some true }, called tt)
        stream_ready (inl k) = rw (k, same) (opened token p handshake)
        stream_ready (inr k) = elim (Option-cases conn.stream) [
          | inl g ↦ rw (g, same) (opened token p handshake)
          | inr (tt, g) ↦ rw (g, k) refl
        ]
