-- ===== src/Handshake/Honest.antt =====
-- src/handshake.rs: two devices that follow the protocol, each frame delivered in turn.
use jeangrey.Prelude.{
  ℕ, ◌≡◌, refl, true, Option, some, List, [], ◌∷◌, Result, ok, err, ◌>>=◌, length, ◌==◌, ==_iff,
}
use jeangrey.Crates.{Crates, SignatureLaws, KemLaws}
use jeangrey.Crypto.{sig_len, ek_len, ct_len, encapsulate, decapsulate, verify}
use jeangrey.Identity.{DeviceIdentity, peer_id_of}
use jeangrey.Framing.{Frame}
use jeangrey.Handshake.Machine.{
  HandshakeResult, Fault, panicked, Action, send_frames, complete, new, on_frame,
}
use jeangrey.Handshake.RoundTrip.{Presentable}

-- The random numbers that one side draws.
pub record Coins : Type 0 where
  pub kem : ℕ
  pub seal : ℕ
  pub sign : ℕ

-- An identity as `DeviceIdentity::assemble` makes it, with a name that fits the hello.
pub record Genuine (c : Crates) (d : DeviceIdentity c) : Type 0 where
  pub presentable : Presentable c d
  pub own_key : c.verifying_key d.secret_key ≡ d.verifying_key
  pub own_id : peer_id_of c d.verifying_key ≡ some d.peer_id

module _ (c : Crates) where
  -- The one frame that a step sends, and the result that the last step gives.
  abbrev only : Action c → Result Fault Frame
  only (send_frames (f ∷ [])) = ok f
  only _ = err panicked

  abbrev outcome : Action c → Result Fault (HandshakeResult c)
  outcome (complete r) = ok r
  outcome (send_frames fs) = err panicked

  -- Every frame of `a` is handed to `b` and the other way round, kind by kind.
  unfoldable pub exchange :
      (a b : DeviceIdentity c) (ea eb : Option c.PeerId) (now : ℕ) (x y : Coins)
      → Result Fault (HandshakeResult c × HandshakeResult c)
  exchange a b ea eb now x y = do
    a1 ← on_frame c (new c a ea now).0 a x.kem (new c b eb now).1
    b1 ← on_frame c (new c b eb now).0 b y.kem (new c a ea now).1
    a_offer ← only a1.1
    b_offer ← only b1.1
    a2 ← on_frame c a1.0 a x.seal b_offer
    b2 ← on_frame c b1.0 b y.seal a_offer
    a_response ← only a2.1
    b_response ← only b2.1
    a3 ← on_frame c a2.0 a x.sign b_response
    b3 ← on_frame c b2.0 b y.sign a_response
    a_auth ← only a3.1
    b_auth ← only b3.1
    a4 ← on_frame c a3.0 a 0 b_auth
    b4 ← on_frame c b3.0 b 0 a_auth
    a_ready ← only a4.1
    b_ready ← only b4.1
    a5 ← on_frame c a4.0 a 0 b_ready
    b5 ← on_frame c b4.0 b 0 a_ready
    ra ← outcome a5.1
    rb ← outcome b5.1
    ok (ra, rb)

  -- What `kem.rs` adds to the crate: the size tests pass.
  pub encapsulate-generate :
      (laws : KemLaws c) (coins seed : ℕ)
      → encapsulate c (c.kem_generate coins).0 seed
        ≡ ok ((laws.round_trip coins seed).0, (laws.round_trip coins seed).1)
  unfolding encapsulate
  encapsulate-generate laws coins seed =
      let size : (length (c.kem_generate coins).0 == ek_len) ≡ true =
        (==_iff _ _).1 (laws.length-key coins) in
      rw (size, (laws.round_trip coins seed).2) refl

  pub decapsulate-generate :
      (laws : KemLaws c) (coins seed : ℕ)
      → decapsulate c (c.kem_generate coins).1 (laws.round_trip coins seed).0
        ≡ ok (laws.round_trip coins seed).1
  unfolding decapsulate
  decapsulate-generate laws coins seed =
      let t = laws.round_trip coins seed in
      let size : (length t.0 == ct_len) ≡ true = (==_iff _ _).1 t.4 in rw (size, t.3) refl

  pub verify-sign :
      (laws : SignatureLaws c) (d : DeviceIdentity c) (text : List ℕ) (coins : ℕ)
      → c.verifying_key d.secret_key ≡ d.verifying_key
      → verify c d.verifying_key text (c.sign d.secret_key text coins) ≡ true
  unfolding verify
  verify-sign laws d text coins own =
      let size : (length (c.sign d.secret_key text coins) == sig_len) ≡ true =
        (==_iff _ _).1 (laws.length-sign d.secret_key text coins) in
      rw
        (
          ← own,
          size,
          laws.sign_valid d.secret_key text coins,
          laws.sign_verifies d.secret_key text coins,
        )
        refl
