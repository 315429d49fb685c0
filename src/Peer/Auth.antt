-- ===== src/Peer/Auth.antt =====
-- What a peer that does not have the token can do.
use hermesmq.Prelude.{
  List, [], ◌∷◌, Bool, false, Option, none, some, ◌≡◌, ◌≢◌, refl, arith, Bool-cases, Option-cases,
  inl, inr, ◌⊎◌, All,
}
use hermesmq.Types.{Bytes}
use hermesmq.Secret.{secret_eq, secret_eq-same}
use hermesmq.Peer.{
  PeerRequest, auth, append_entries, vote, install_snapshot, auth_result, Raft, accepts,
  take_request, handle_frames, handle_conn,
}

-- A frame that does not present the token.
abbrev pub IsForeign : (Bytes → Option PeerRequest) → Bytes → Bytes × Bool → Type 0
IsForeign decode token frame = decode frame.0 ≢ some (auth token)

module _ {S : Type 0} (raft : Raft S) (decode : Bytes → Option PeerRequest) (token : Bytes) where
  refused_request :
      (req : PeerRequest) (s : S)
      → some req ≢ some (auth token)
      → let t = take_request raft (some token) false req s in
        (t.raft ≡ s) × (t.next ≡ none) × ((t.answer ≡ none) ⊎ (t.answer ≡ some (auth_result false)))
  unfolding take_request accepts
  refused_request (append_entries r) s h = (refl, refl, inl refl)
  refused_request (vote r) s h = (refl, refl, inl refl)
  refused_request (install_snapshot r) s h = (refl, refl, inl refl)
  refused_request (auth offered) s h = elim (Bool-cases (secret_eq offered token)) [
    | inl e ↦ absurd (h (rw ((secret_eq-same offered token).0 e) refl))
    | inr e ↦ rw (e) (refl, refl, inr refl)
  ]

  handle_frames_refused :
      (frames : List (Bytes × Bool)) (s : S)
      → All (IsForeign decode token) frames
      → let r = handle_frames raft (some token) decode false frames s in
        (r.0 ≡ s) × ((r.1 ≡ []) ⊎ (r.1 ≡ auth_result false ∷ []))
  unfolding handle_frames
  handle_frames_refused [] s h = (refl, inl refl)
  handle_frames_refused ((frame, writes) ∷ frames) s h = elim (Option-cases (decode frame)) [
    | inl e ↦ rw (e, handle_frames) (refl, inl refl)
    | inr (req, e) ↦
        let (same, ends, answer) = refused_request req s (λ k. h.0 (rw e k)) in
        rw (e, handle_frames, ends) (ground (arith, same, answer))
  ]

  -- If the port has a token, a connection that never presents it changes nothing in Raft, and is
  -- answered nothing, or once that the token is wrong, whatever it sends.
  pub handle_conn_refused :
      (frames : List (Bytes × Bool)) (s : S)
      → All (IsForeign decode token) frames
      → let r = handle_conn raft (some token) decode frames s in
        (r.0 ≡ s) × ((r.1 ≡ []) ⊎ (r.1 ≡ auth_result false ∷ []))
  unfolding handle_conn
  handle_conn_refused = handle_frames_refused
