-- ===== src/Tests/Peers.antt =====
-- The theorems on the peer port at a port that counts.
use hermesmq.Prelude.{
  ℕ, zero, suc, ◌+◌, List, [], ◌∷◌, Bool, true, false, Option, none, some, ◌≡◌, ◌⊎◌, refl, arith,
  inl,
}
use hermesmq.Types.{Bytes}
use hermesmq.Peer.{
  PeerRequest, append_entries, vote, install_snapshot, auth, RaftResult, raft_ok, raft_error,
  raft_fatal, PeerResponse, appended, voted, installed, auth_result, Raft, take_request,
  handle_conn, PeerConnection, called, call,
}
use hermesmq.Peer.Auth.{handle_conn_refused}
use hermesmq.Peer.Calls.{Port, port_network, call-take_request}

-- Raft as a number that each request adds to.
abbrev counter : Raft ℕ
counter = record {
  on_append = λ n s. (s + n, raft_ok s);
  on_vote = λ n s. (s + n, raft_error s);
  on_install = λ n s. (s + n, raft_fatal);
}

abbrev enc_request : PeerRequest → Bytes
enc_request (append_entries n) = 0 ∷ n ∷ []
enc_request (vote n) = 1 ∷ n ∷ []
enc_request (install_snapshot n) = 2 ∷ n ∷ []
enc_request (auth token) = 3 ∷ token

abbrev dec_request : Bytes → Option PeerRequest
dec_request (zero ∷ n ∷ []) = some (append_entries n)
dec_request (suc zero ∷ n ∷ []) = some (vote n)
dec_request (suc (suc zero) ∷ n ∷ []) = some (install_snapshot n)
dec_request (suc (suc (suc zero)) ∷ token) = some (auth token)
dec_request _ = none

dec-enc_request : (req : PeerRequest) → dec_request (enc_request req) ≡ some req
dec-enc_request (append_entries n) = refl
dec-enc_request (vote n) = refl
dec-enc_request (install_snapshot n) = refl
dec-enc_request (auth token) = refl

abbrev enc_result : RaftResult → Bytes
enc_result (raft_ok n) = 0 ∷ n ∷ []
enc_result (raft_error n) = 1 ∷ n ∷ []
enc_result raft_fatal = []

abbrev dec_result : Bytes → Option RaftResult
dec_result (zero ∷ n ∷ []) = some (raft_ok n)
dec_result (suc zero ∷ n ∷ []) = some (raft_error n)
dec_result [] = some raft_fatal
dec_result _ = none

abbrev enc_response : PeerResponse → Bytes
enc_response (appended r) = 0 ∷ enc_result r
enc_response (voted r) = 1 ∷ enc_result r
enc_response (installed r) = 2 ∷ enc_result r
enc_response (auth_result true) = 3 ∷ []
enc_response (auth_result false) = 4 ∷ []

abbrev map_result : (RaftResult → PeerResponse) → Option RaftResult → Option PeerResponse
map_result f none = none
map_result f (some r) = some (f r)

abbrev dec_response : Bytes → Option PeerResponse
dec_response (zero ∷ rest) = map_result appended (dec_result rest)
dec_response (suc zero ∷ rest) = map_result voted (dec_result rest)
dec_response (suc (suc zero) ∷ rest) = map_result installed (dec_result rest)
dec_response (suc (suc (suc zero)) ∷ rest) = some (auth_result true)
dec_response (suc (suc (suc (suc zero))) ∷ rest) = some (auth_result false)
dec_response _ = none

dec-enc_response : (resp : PeerResponse) → dec_response (enc_response resp) ≡ some resp
dec-enc_response (appended (raft_ok n)) = refl
dec-enc_response (appended (raft_error n)) = refl
dec-enc_response (appended raft_fatal) = refl
dec-enc_response (voted (raft_ok n)) = refl
dec-enc_response (voted (raft_error n)) = refl
dec-enc_response (voted raft_fatal) = refl
dec-enc_response (installed (raft_ok n)) = refl
dec-enc_response (installed (raft_error n)) = refl
dec-enc_response (installed raft_fatal) = refl
dec-enc_response (auth_result true) = refl
dec-enc_response (auth_result false) = refl

abbrev secret : Bytes
secret = 7 ∷ 8 ∷ []

abbrev foreign_frames : List (Bytes × Bool)
foreign_frames = (1 ∷ 9 ∷ [], true) ∷ (3 ∷ 7 ∷ [], true) ∷ []

handle_conn_refused_example :
    let r = handle_conn counter (some secret) dec_request foreign_frames 5 in
    (r.0 ≡ 5) × ((r.1 ≡ []) ⊎ (r.1 ≡ auth_result false ∷ []))
handle_conn_refused_example =
    handle_conn_refused counter dec_request secret foreign_frames 5
      (λ e. ground (arith, e), (λ e. ground (arith, e), tt))

abbrev new_connection : PeerConnection (Unit {0})
new_connection = record { blocked = false; token = some secret; stream = none }

abbrev port : Port ℕ
port = record { raft = 5; conn = none }

call-take_request_example :
    let token : Option Bytes = some secret in
    let r =
      call
        (port_network counter enc_request dec_request enc_response dec_response token)
        enc_request
        dec_response
        (append_entries 4)
        new_connection
        port in
    (r.1.1 ≡ called (appended (raft_ok 5)))
    × (r.0.raft ≡ (take_request counter token true (append_entries 4) 5).raft)
unfolding take_request
call-take_request_example =
    call-take_request counter enc_request dec_request enc_response dec_response dec-enc_request
      dec-enc_response (some secret) (append_entries 4) (appended (raft_ok 5)) new_connection port
      refl refl (inl refl) refl (omega arith, omega arith) (omega arith) (omega arith)
