-- ===== src/Handshake/Authentic.antt =====
-- src/handshake.rs: what a machine that runs from `Handshake::new` can never do, and what its result is
-- worth. The frames are the peer's choice, in any order and number.
use jeangrey.Prelude.{ℕ, ◌≡◌, ◌≢◌, refl, sym, ap, subst, ◌∙◌, Option, ok, err, ◌==◌}
use jeangrey.Crates.{Crates, HashLaws}
use jeangrey.Identity.{DeviceIdentity}
use jeangrey.Framing.{MessageType, Frame}
use jeangrey.Handshake.Machine.{
  Handshake, HandshakeResult, panicked, Action, complete, Outcome, new, on_frame, dispatch,
}
use jeangrey.Handshake.Stages
use jeangrey.Handshake.Stages.{Stage, state, Justified, Authenticated}
use jeangrey.Handshake.Steps.{
  Good, Good-ensure, on_hello-Good, on_kem_offer-Good, on_kem_response-Good, on_auth-Good,
  on_ready-Good,
}

-- The states that a sequence of accepted frames leads to.
pub data Runs (c : Crates) (identity : DeviceIdentity c) (first : Handshake c)
    : Handshake c → Type 0 where
  begin : Runs c identity first first
  step :
      {hs hs' : Handshake c} {action : Action c} (coins : ℕ) (frame : Frame)
      → Runs c identity first hs
      → on_frame c hs identity coins frame ≡ ok (hs', action)
      → Runs c identity first hs'

module _ (c : Crates) (hash : HashLaws c) (identity : DeviceIdentity c) (expected : Option c.PeerId)
    (now : ℕ) where
  dispatch-Good :
      (s : Stage c identity expected) (coins : ℕ) (frame : Frame) (t : MessageType)
      → Good c hash identity expected now
          (dispatch c (state c identity expected now s) identity coins frame t)
  dispatch-Good s coins frame MessageType.hello =
      on_hello-Good c hash identity expected now s coins frame
  dispatch-Good s coins frame MessageType.kem_offer =
      on_kem_offer-Good c hash identity expected now s coins frame
  dispatch-Good s coins frame MessageType.kem_response =
      on_kem_response-Good c hash identity expected now s coins frame
  dispatch-Good s coins frame MessageType.auth = on_auth-Good c hash identity expected now s frame
  dispatch-Good s coins frame MessageType.ready = on_ready-Good c hash identity expected now s frame
  dispatch-Good s coins frame MessageType.message = tt
  dispatch-Good s coins frame MessageType.ack = tt
  dispatch-Good s coins frame MessageType.error = tt
  dispatch-Good s coins frame MessageType.control = tt

  on_frame-Good :
      (s : Stage c identity expected) (coins : ℕ) (frame : Frame)
      → Good c hash identity expected now
          (on_frame c (state c identity expected now s) identity coins frame)
  unfolding on_frame
  on_frame-Good s coins frame =
      Good-ensure c hash identity expected now (frame.flags == 0) _ _
        λ clear. dispatch-Good s coins frame frame.msg_type

  outcome-Good :
      {hs : Handshake c} (s : Stage c identity expected) (coins : ℕ) (frame : Frame) (o : Outcome c)
      → hs ≡ state c identity expected now s
      → on_frame c hs identity coins frame ≡ o
      → Good c hash identity expected now o
  outcome-Good s coins frame o at e =
      subst (Good c hash identity expected now)
        (sym (ap (λ hs. on_frame c hs identity coins frame) at) ∙ e) (on_frame-Good s coins frame)

  -- Every state that is reached is a stage.
  pub staged :
      {hs : Handshake c}
      → Runs c identity (new c identity expected now).0 hs
      → (s : Stage c identity expected) × (hs ≡ state c identity expected now s)
  unfolding state
  staged begin = (Stages.start, refl)
  staged (step {hs} {hs'} {action} coins frame runs e) =
      (outcome-Good (staged runs).0 coins frame (ok (hs', action)) (staged runs).1 e).0

  -- Whatever frames a handshake started by `new` is sent, if it completes then the result carries
  -- our own id, the peer id is that of the key in the peer's hello and satisfies the expected
  -- peer, a signature under that key over the label and the transcript (of our hello and the
  -- hello received) was verified, and the keys are derived from that transcript. The multihash of
  -- a SHA-256 digest is taken to be a peer id.
  pub complete-Authenticated :
      {hs hs' : Handshake c} {res : HandshakeResult c} (coins : ℕ) (frame : Frame)
      → Runs c identity (new c identity expected now).0 hs
      → on_frame c hs identity coins frame ≡ ok (hs', complete res)
      → Authenticated c identity expected res
  complete-Authenticated coins frame runs e =
      (outcome-Good (staged runs).0 coins frame _ (staged runs).1 e).1

  -- Whatever frames a handshake started by `new` has accepted, no further frame makes `on_frame`
  -- panic: every `unwrap` of the handlers finds a value. The multihash of a SHA-256 digest is
  -- taken to be a peer id.
  pub on_frame-never_panics :
      {hs : Handshake c} (coins : ℕ) (frame : Frame)
      → Runs c identity (new c identity expected now).0 hs
      → on_frame c hs identity coins frame ≢ err panicked
  on_frame-never_panics coins frame runs e =
      outcome-Good (staged runs).0 coins frame _ (staged runs).1 e
