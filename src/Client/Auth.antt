-- ===== src/Client/Auth.antt =====
-- What a client that does not have the token can do.
use hermesmq.Prelude.{
  ℕ, List, [], ◌∷◌, Bool, true, false, Option, none, some, ◌≡◌, ◌≢◌, refl, Bool-cases, inl, inr,
  ◌⊎◌, All,
}
use hermesmq.Types.{Bytes}
use hermesmq.Secret.{secret_eq, secret_eq-same}
use hermesmq.Client.{bad_request, unauthorized, other, authenticate_first, resp_error}
use hermesmq.Client.Requests.{
  RequestKind, auth, bootstrap, get_stats, produce, poll, set_rate_limit, set_retention, ack, nack,
  commit, create_topic, delete_topic, subscribe,
}
use hermesmq.Client.Connection.{
  Decoded, request, undecodable, Pending, ready, Session, send_pending, send_or_end, offers,
  take_token, read_requests, handle_client,
}

-- A frame that does not present the token.
abbrev pub IsForeign : (Bytes → Decoded) → Bytes → Bytes × Bool → Type 0
IsForeign decode token frame = decode frame.0 ≢ request (some (auth token))

-- A refusal, of a frame or of the client.
abbrev pub IsRefusal : Pending → Type 0
IsRefusal pending =
    ((e : ℕ) × (pending ≡ ready (resp_error bad_request (other e))))
    ⊎ (pending ≡ ready (resp_error unauthorized authenticate_first))

abbrev pub IsRefused : Session → Type 0
IsRefused s = (s.spawned ≡ []) × (s.sub ≡ none) × All IsRefusal s.queued

foreign-offers :
    (token : Bytes) (req : Option RequestKind)
    → request req ≢ request (some (auth token))
    → offers (some token) req ≡ false
unfolding offers
foreign-offers token (some (auth offered)) h = elim (Bool-cases (secret_eq offered token)) [
  | inl e ↦ absurd (h (rw ((secret_eq-same offered token).0 e) refl))
  | inr e ↦ e
]
foreign-offers token none h = refl
foreign-offers token (some (bootstrap nodes)) h = refl
foreign-offers token (some get_stats) h = refl
foreign-offers token (some (produce p)) h = refl
foreign-offers token (some (poll p)) h = refl
foreign-offers token (some (set_rate_limit a b c)) h = refl
foreign-offers token (some (set_retention a b c)) h = refl
foreign-offers token (some (ack a b c)) h = refl
foreign-offers token (some (nack a b c)) h = refl
foreign-offers token (some (commit a b c)) h = refl
foreign-offers token (some (create_topic a)) h = refl
foreign-offers token (some (delete_topic a)) h = refl
foreign-offers token (some (subscribe s)) h = refl

send_or_end-IsRefused :
    (alive : Bool) (pending : Pending) (s : Session)
    → IsRefusal pending
    → IsRefused s
    → IsRefused (send_or_end alive pending s)
unfolding send_or_end
send_or_end-IsRefused true pending s p v = let (a, b, c) = v in (a, b, (p, c))
send_or_end-IsRefused false pending s p v = (refl, refl, tt)

module _ (decode : Bytes → Decoded) (token : Bytes) where
  -- A frame that comes before the token.
  foreign_frame-IsRefused :
      (d : Decoded) (alive : Bool) (same trusted : Session)
      → d ≢ request (some (auth token))
      → IsRefused same
      → IsRefused (elim d [
        | undecodable e ↦ send_or_end alive (ready (resp_error bad_request (other e))) same
        | request req ↦ take_token (offers (some token) req) alive trusted
      ])
  unfolding take_token send_pending
  foreign_frame-IsRefused (undecodable e) alive same trusted h v =
      send_or_end-IsRefused alive _ same (inl (e, refl)) v
  foreign_frame-IsRefused (request req) true same trusted h v =
      rw (foreign-offers token req h) (refl, refl, (inr refl, tt))
  foreign_frame-IsRefused (request req) false same trusted h v =
      rw (foreign-offers token req h) (refl, refl, tt)

  read_requests-IsRefused :
      (frames : List (Bytes × Bool))
      → All (IsForeign decode token) frames
      → IsRefused (read_requests decode (some token) false frames)
  unfolding read_requests
  read_requests-IsRefused [] h = (refl, refl, tt)
  read_requests-IsRefused ((frame, alive) ∷ frames) h =
      foreign_frame-IsRefused (decode frame) alive (read_requests decode (some token) false frames)
        (read_requests decode (some token) true frames) h.0 (read_requests-IsRefused frames h.1)

  -- If the port has a token, a connection that never presents it runs no request and becomes no
  -- subscription, whatever it sends, and every answer to it is a refusal.
  pub handle_client-IsRefused :
      (frames : List (Bytes × Bool))
      → All (IsForeign decode token) frames
      → IsRefused (handle_client decode (some token) frames)
  unfolding handle_client
  handle_client-IsRefused = read_requests-IsRefused
