-- ===== src/Handshake/Stalled.antt =====
-- src/handshake.rs: a handshake that takes the peer's response before its offer can only time out.
use jeangrey.Prelude.{
  ℕ, ◌≡◌, ◌≢◌, refl, sym, ap, subst, ◌∙◌, Bool, true, false, Option, none, Result, ok, err, ◌>>=◌,
  ◌>>◌, ensure, ◌==◌,
}
use jeangrey.Crates.{Crates, HashLaws}
use jeangrey.Crypto.{KemError, encapsulate, decapsulate}
use jeangrey.Identity.{DeviceIdentity}
use jeangrey.Framing.{MessageType, Frame}
use jeangrey.Handshake.Machine.{
  Handshake, HandshakeResult, HandshakeError, failed, Action, send_frames, complete, Outcome,
  Reason, mapped, bad_offer, bad_response, new, on_frame, on_hello, on_kem_offer, on_kem_response,
  on_auth, on_ready, dispatch,
}
use jeangrey.Handshake.Stages
use jeangrey.Handshake.Stages.{Greeting, Offer, Response, Stage, state}
use jeangrey.Handshake.Authentic.{Runs, begin, step, staged}

module _ (c : Crates) (identity : DeviceIdentity c) (expected : Option c.PeerId) (now : ℕ) where
  -- The stages that have the response, but not the transcript.
  data Stuck : Type 0 where
    before_offer : Greeting c identity expected → Response c identity expected → Stuck
    after_offer :
        Greeting c identity expected
        → Offer c identity expected
        → Response c identity expected
        → Stuck

  abbrev stage : Stuck → Stage c identity expected
  stage (before_offer g r) = Stages.early g r
  stage (after_offer g o r) = Stages.stalled g o r

  abbrev held : Stuck → Handshake c
  held s = state c identity expected now (stage s)

  -- An outcome that keeps the machine among them, without a result.
  abbrev Stays : Outcome c → Type 0
  Stays (ok (hs, send_frames fs)) = (s : Stuck) × (hs ≡ held s)
  Stays (ok (hs, complete res)) = ⊥
  Stays (err e) = Unit {0}

  Stays-mapped :
      {A : Type 0} (why : KemError → Reason) (m : Result KemError A) (k : A → Outcome c)
      → ((a : A) → Stays (k a))
      → Stays (mapped c why m >>= k)
  Stays-mapped why (ok a) k h = h a
  Stays-mapped why (err e) k h = tt

  Stays-ensure :
      (b : Bool) (e : HandshakeError) (k : Outcome c) → Stays k → Stays (ensure b (failed e) >> k)
  Stays-ensure true e k h = h
  Stays-ensure false e k h = tt

  dispatch-Stays :
      (s : Stuck) (coins : ℕ) (frame : Frame) (t : MessageType)
      → Stays (dispatch c (held s) identity coins frame t)
  unfolding on_hello on_kem_offer on_kem_response on_auth on_ready state
  dispatch-Stays (before_offer g r) coins frame MessageType.kem_offer =
      Stays-mapped bad_offer (encapsulate c frame.payload coins) _ λ sealed. (
        after_offer g (record { payload = frame.payload; response = sealed.0; secret = sealed.1 })
            r,
        refl,
      )
  dispatch-Stays (before_offer g r) coins frame _ = tt
  dispatch-Stays (after_offer g o r) coins frame MessageType.kem_offer = tt
  dispatch-Stays (after_offer g o r) coins frame _ = tt

  on_frame-Stays :
      (s : Stuck) (coins : ℕ) (frame : Frame) → Stays (on_frame c (held s) identity coins frame)
  unfolding on_frame
  on_frame-Stays s coins frame =
      Stays-ensure (frame.flags == 0) _ _ (dispatch-Stays s coins frame frame.msg_type)

  outcome-Stays :
      {hs : Handshake c} (s : Stuck) (coins : ℕ) (frame : Frame) (o : Outcome c)
      → hs ≡ held s
      → on_frame c hs identity coins frame ≡ o
      → Stays o
  outcome-Stays s coins frame o at e =
      subst Stays (sym (ap (λ hs. on_frame c hs identity coins frame) at) ∙ e)
        (on_frame-Stays s coins frame)

  stuck_run :
      {first hs : Handshake c} (s : Stuck)
      → first ≡ held s
      → Runs c identity first hs
      → (s' : Stuck) × (hs ≡ held s')
  stuck_run s at begin = (s, at)
  stuck_run s at (step {action = send_frames fs} coins frame runs e) =
      outcome-Stays (stuck_run s at runs).0 coins frame _ (stuck_run s at runs).1 e
  stuck_run s at (step {action = complete res} coins frame runs e) =
      absurd (outcome-Stays (stuck_run s at runs).0 coins frame _ (stuck_run s at runs).1 e)

  -- What `on_kem_response` leads to when there is no offer yet.
  Early : Outcome c → Type 0
  Early (ok (hs, a)) = (s : Stuck) × (hs ≡ held s)
  Early (err e) = Unit {0}

  Early-mapped :
      {A : Type 0} (why : KemError → Reason) (m : Result KemError A) (k : A → Outcome c)
      → ((a : A) → Early (k a))
      → Early (mapped c why m >>= k)
  unfolding Early
  Early-mapped why (ok a) k h = h a
  Early-mapped why (err e) k h = tt

  response-Early :
      (s : Stage c identity expected) (coins : ℕ) (frame : Frame)
      → (state c identity expected now s).peer_offer_payload ≡ none
      → Early (on_kem_response c (state c identity expected now s) identity coins frame)
  unfolding on_kem_response state Early
  response-Early Stages.start coins frame e = tt
  response-Early (Stages.greeted g) coins frame e =
      Early-mapped bad_response (decapsulate c (c.kem_generate g.coins).1 frame.payload) _
        λ ss. (before_offer g (record { payload = frame.payload; secret = ss }), refl)
  response-Early (Stages.early g r) coins frame e = tt
  response-Early (Stages.offered g o) coins frame e = absurd (cc)
  response-Early (Stages.stalled g o r) coins frame e = tt
  response-Early (Stages.signed g o r) coins frame e = tt
  response-Early (Stages.verified g o r v) coins frame e = tt
  response-Early (Stages.done g o r v sid) coins frame e = tt

  -- If a handshake started by `new` takes the peer's `KemResponse` while it has no `KemOffer`
  -- yet, then whatever frames follow, it never completes. The multihash of a SHA-256 digest is
  -- taken to be a peer id.
  pub early_response_never_completes :
      (hash : HashLaws c) {hs hs1 hs2 hs3 : Handshake c} {a : Action c} {res : HandshakeResult c}
      (coins coins' : ℕ) (response frame : Frame)
      → Runs c identity (new c identity expected now).0 hs
      → hs.peer_offer_payload ≡ none
      → on_kem_response c hs identity coins response ≡ ok (hs1, a)
      → Runs c identity hs1 hs2
      → on_frame c hs2 identity coins' frame ≢ ok (hs3, complete res)
  unfolding Early
  early_response_never_completes hash {hs} {hs1} {hs2} {hs3} {a} {res} coins coins' response frame
        runs no_offer taken later e =
      let (s, at) = staged c hash identity expected now runs in
      let early : Early (ok (hs1, a)) =
        subst Early (sym (ap (λ z. on_kem_response c z identity coins response) at) ∙ taken)
          (response-Early s coins response (sym (ap (λ z. z.peer_offer_payload) at) ∙ no_offer)) in
      let (s', at') = stuck_run early.0 early.1 later in outcome-Stays s' coins' frame _ at' e
