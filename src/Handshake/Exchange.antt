-- ===== src/Handshake/Exchange.antt =====
-- src/handshake.rs: each accepted frame, as a move from one stage to the next.
use jeangrey.Prelude.{
  ℕ, ◌≡◌, refl, ap, sym, ◌∙◌, true, Option, List, [], ◌∷◌, ◌++◌, ok, length, ◌==◌, ==_iff, bytes_eq,
  bytes_eq_refl, subst,
}
use jeangrey.Crates.{Crates}
use jeangrey.Crypto.{session_id_len, encapsulate, decapsulate}
use jeangrey.Identity.{DeviceIdentity}
use jeangrey.Framing.{MessageType, handshake}
use jeangrey.Handshake.Hello.{encode_hello}
use jeangrey.Handshake.Machine.{
  send_frames, complete, auth_label, new, on_frame, on_hello, on_kem_offer, on_kem_response,
  finish_kem, on_auth, on_ready, result_for,
}
use jeangrey.Handshake.Stages
use jeangrey.Handshake.Stages.{Stage, state, Greeting, Offer, Response}

module _ (c : Crates) (d : DeviceIdentity c) (expected : Option c.PeerId) (now : ℕ) where
  move_hello :
      (g : Greeting c d expected)
      → on_frame c
          (state c d expected now Stages.start)
          d
          g.coins
          (handshake MessageType.hello g.payload)
        ≡ ok (
          state c d expected now (Stages.greeted g),
          send_frames (handshake MessageType.kem_offer (c.kem_generate g.coins).0 ∷ []),
        )
  unfolding on_frame on_hello state handshake
  move_hello g = rw (g.decoded, g.is_peer, g.accepted) refl

  -- The machine as `new` makes it, and the hello that the other side's `new` gives.
  pub move_first :
      (g : Greeting c d expected) (from : DeviceIdentity c) (e : Option c.PeerId) (at : ℕ)
      → g.payload ≡ encode_hello c from
      → on_frame c (new c d expected now).0 d g.coins (new c from e at).1
        ≡ ok (
          state c d expected now (Stages.greeted g),
          send_frames (handshake MessageType.kem_offer (c.kem_generate g.coins).0 ∷ []),
        )
  unfolding new state
  move_first g from e at same =
      ap (λ z. on_frame c (new c d expected now).0 d g.coins (handshake MessageType.hello z))
        (sym same)
      ∙ move_hello g

  pub move_offer :
      (g : Greeting c d expected) (o : Offer c d expected) (coins : ℕ)
      → encapsulate c o.payload coins ≡ ok (o.response, o.secret)
      → on_frame c
          (state c d expected now (Stages.greeted g))
          d
          coins
          (handshake MessageType.kem_offer o.payload)
        ≡ ok (
          state c d expected now (Stages.offered g o),
          send_frames (handshake MessageType.kem_response o.response ∷ []),
        )
  unfolding on_frame on_kem_offer state handshake
  move_offer g o coins e = rw (e) refl

  pub move_response :
      (g : Greeting c d expected) (o : Offer c d expected) (r : Response c d expected) (coins : ℕ)
      → decapsulate c (c.kem_generate g.coins).1 r.payload ≡ ok r.secret
      → on_frame c
          (state c d expected now (Stages.offered g o))
          d
          coins
          (handshake MessageType.kem_response r.payload)
        ≡ ok (
          state c d expected now (Stages.signed g o r),
          send_frames (
              handshake MessageType.auth
                (c.sign d.secret_key (auth_label ++ Stages.digest c d expected g o r) coins)
              ∷ []),
        )
  unfolding on_frame on_kem_response finish_kem state handshake
  move_response g o r coins e = rw (e) refl

  pub move_auth :
      (g : Greeting c d expected) (o : Offer c d expected) (r : Response c d expected) (coins : ℕ)
      (s : Stages.Signed c d expected g o r)
      → on_frame c
          (state c d expected now (Stages.signed g o r))
          d
          coins
          (handshake MessageType.auth s.0)
        ≡ ok (
          state c d expected now (Stages.verified g o r s),
          send_frames
              (handshake MessageType.ready (Stages.keys c d expected g o r).session_id ∷ []),
        )
  unfolding on_frame on_auth state handshake
  move_auth g o r coins s = rw (s.1) refl

  pub move_ready :
      (g : Greeting c d expected) (o : Offer c d expected) (r : Response c d expected) (coins : ℕ)
      (s : Stages.Signed c d expected g o r) (sid : List ℕ)
      → length sid ≡ session_id_len
      → sid ≡ (Stages.keys c d expected g o r).session_id
      → on_frame c
          (state c d expected now (Stages.verified g o r s))
          d
          coins
          (handshake MessageType.ready sid)
        ≡ ok (
          state c d expected now (Stages.done g o r s sid),
          complete (result_for c d.peer_id g.peer g.hello (Stages.keys c d expected g o r)),
        )
  unfolding on_frame on_ready state handshake
  move_ready g o r coins s sid l e =
      let size : (length sid == session_id_len) ≡ true = (==_iff _ _).1 l in
      let same : bytes_eq sid (Stages.keys c d expected g o r).session_id ≡ true =
        subst (λ z. bytes_eq sid z ≡ true) e (bytes_eq_refl sid) in
      rw (size, same) refl
