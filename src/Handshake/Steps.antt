-- ===== src/Handshake/Steps.antt =====
-- src/handshake.rs: every handler takes a stage to a stage or fails, and none panics.
use jeangrey.Prelude.{
  ℕ, ◌≡◌, refl, Bool, true, false, Option, some, none, ◌++◌, Result, ok, err, ◌>>=◌, ◌>>◌, ensure,
  ok_or, length, ◌==◌, bytes_eq,
}
use jeangrey.Crates.{Crates, HashLaws}
use jeangrey.Crypto.{KemError, session_id_len, encapsulate, decapsulate, verify}
use jeangrey.Identity.{DeviceIdentity, peer_id_of}
use jeangrey.Framing.{Frame}
use jeangrey.Handshake.Hello.{decode_hello}
use jeangrey.Handshake.Machine.{
  failed, panicked, HandshakeError, Reason, Outcome, auth_label, is_expected, on_hello,
  on_kem_offer, on_kem_response, finish_kem, on_auth, on_ready, mapped, bad_offer, bad_response,
}
use jeangrey.Handshake.Stages
use jeangrey.Handshake.Stages.{Stage, state, Justified, Greeting}

module _ (c : Crates) (hash : HashLaws c) (identity : DeviceIdentity c) (expected : Option c.PeerId)
    (now : ℕ) where
  abbrev pub Good : Outcome c → Type 0
  Good (ok (hs, action)) =
      ((s : Stage c identity expected) × (hs ≡ state c identity expected now s))
      × Justified c identity expected action
  Good (err panicked) = ⊥
  Good (err (failed e)) = Unit {0}

  pub Good-ensure :
      (b : Bool) (e : HandshakeError) (k : Outcome c)
      → (b ≡ true → Good k)
      → Good (ensure b (failed e) >> k)
  Good-ensure true e k h = h refl
  Good-ensure false e k h = tt

  Good-ok_or :
      {A : Type 0} (o : Option A) (e : HandshakeError) (k : A → Outcome c)
      → ((a : A) → o ≡ some a → Good (k a))
      → Good (ok_or o (failed e) >>= k)
  Good-ok_or (some a) e k h = h a refl
  Good-ok_or none e k h = tt

  Good-mapped :
      {A : Type 0} (why : KemError → Reason) (m : Result KemError A) (k : A → Outcome c)
      → ((a : A) → m ≡ ok a → Good (k a))
      → Good (mapped c why m >>= k)
  Good-mapped why (ok a) k h = h a refl
  Good-mapped why (err e) k h = tt

  Good-some :
      {A : Type 0} (o : Option A) (p : A) (k : A → Outcome c)
      → o ≡ some p
      → ((q : A) → o ≡ some q → Good (k q))
      → Good (ok_or o panicked >>= k)
  Good-some (some q) p k e h = h q refl
  Good-some none p k e h = absurd (cc)

  peer_found : (key : c.VerifyingKey) → (p : c.PeerId) × (peer_id_of c key ≡ some p)
  unfolding peer_id_of
  peer_found key = hash.peer_of_multihash (c.key_encode key)

  pub on_hello-Good :
      (s : Stage c identity expected) (coins : ℕ) (frame : Frame)
      → Good (on_hello c (state c identity expected now s) coins frame)
  unfolding on_hello state
  on_hello-Good Stages.start coins frame =
      Good-ok_or (decode_hello c frame.payload) _ _ λ hello decoded.
        Good-some (peer_id_of c hello.pubkey) (peer_found hello.pubkey).0 _
          (peer_found hello.pubkey).1
          λ peer is_peer. Good-ensure (is_expected c expected peer) _ _ λ accepted. (
            (
              Stages.greeted (record {
                hello = hello;
                payload = frame.payload;
                peer = peer;
                coins = coins;
                decoded = decoded;
                is_peer = is_peer;
                accepted = accepted;
              }),
              refl,
            ),
            tt,
          )
  on_hello-Good (Stages.greeted g) coins frame = tt
  on_hello-Good (Stages.offered g o) coins frame = tt
  on_hello-Good (Stages.early g r) coins frame = tt
  on_hello-Good (Stages.stalled g o r) coins frame = tt
  on_hello-Good (Stages.signed g o r) coins frame = tt
  on_hello-Good (Stages.verified g o r s) coins frame = tt
  on_hello-Good (Stages.done g o r s sid) coins frame = tt

  pub on_kem_offer-Good :
      (s : Stage c identity expected) (coins : ℕ) (frame : Frame)
      → Good (on_kem_offer c (state c identity expected now s) coins frame)
  unfolding on_kem_offer state
  on_kem_offer-Good Stages.start coins frame = tt
  on_kem_offer-Good (Stages.greeted g) coins frame =
      Good-mapped bad_offer (encapsulate c frame.payload coins) _ λ sealed e. (
        (
          Stages.offered g
              (record { payload = frame.payload; response = sealed.0; secret = sealed.1 }),
          refl,
        ),
        tt,
      )
  on_kem_offer-Good (Stages.offered g o) coins frame = tt
  on_kem_offer-Good (Stages.early g r) coins frame =
      Good-mapped bad_offer (encapsulate c frame.payload coins) _ λ sealed e. (
        (
          Stages.stalled g
              (record { payload = frame.payload; response = sealed.0; secret = sealed.1 }) r,
          refl,
        ),
        tt,
      )
  on_kem_offer-Good (Stages.stalled g o r) coins frame = tt
  on_kem_offer-Good (Stages.signed g o r) coins frame = tt
  on_kem_offer-Good (Stages.verified g o r s) coins frame = tt
  on_kem_offer-Good (Stages.done g o r s sid) coins frame = tt

  pub on_kem_response-Good :
      (s : Stage c identity expected) (coins : ℕ) (frame : Frame)
      → Good (on_kem_response c (state c identity expected now s) identity coins frame)
  unfolding on_kem_response finish_kem state
  on_kem_response-Good Stages.start coins frame = tt
  on_kem_response-Good (Stages.greeted g) coins frame =
      Good-mapped bad_response (decapsulate c (c.kem_generate g.coins).1 frame.payload) _
        λ ss e. ((Stages.early g (record { payload = frame.payload; secret = ss }), refl), tt)
  on_kem_response-Good (Stages.offered g o) coins frame =
      Good-mapped bad_response (decapsulate c (c.kem_generate g.coins).1 frame.payload) _
        λ ss e. ((Stages.signed g o (record { payload = frame.payload; secret = ss }), refl), tt)
  on_kem_response-Good (Stages.early g r) coins frame = tt
  on_kem_response-Good (Stages.stalled g o r) coins frame = tt
  on_kem_response-Good (Stages.signed g o r) coins frame = tt
  on_kem_response-Good (Stages.verified g o r s) coins frame = tt
  on_kem_response-Good (Stages.done g o r s sid) coins frame = tt

  pub on_auth-Good :
      (s : Stage c identity expected) (frame : Frame)
      → Good (on_auth c (state c identity expected now s) frame)
  unfolding on_auth state
  on_auth-Good Stages.start frame = tt
  on_auth-Good (Stages.greeted g) frame = tt
  on_auth-Good (Stages.offered g o) frame = tt
  on_auth-Good (Stages.early g r) frame = tt
  on_auth-Good (Stages.stalled g o r) frame = tt
  on_auth-Good (Stages.signed g o r) frame =
      Good-ensure
        (verify c g.hello.pubkey (auth_label ++ Stages.digest c identity expected g o r)
          frame.payload)
        _ _ λ valid. ((Stages.verified g o r (frame.payload, valid), refl), tt)
  on_auth-Good (Stages.verified g o r s) frame = tt
  on_auth-Good (Stages.done g o r s sid) frame = tt

  pub on_ready-Good :
      (s : Stage c identity expected) (frame : Frame)
      → Good (on_ready c (state c identity expected now s) frame)
  unfolding on_ready state
  on_ready-Good Stages.start frame = tt
  on_ready-Good (Stages.greeted g) frame = tt
  on_ready-Good (Stages.offered g o) frame = tt
  on_ready-Good (Stages.early g r) frame = tt
  on_ready-Good (Stages.stalled g o r) frame = tt
  on_ready-Good (Stages.signed g o r) frame = tt
  on_ready-Good (Stages.verified g o r s) frame =
      Good-ensure (length frame.payload == session_id_len) _ _ λ size.
        Good-ensure (bytes_eq frame.payload (Stages.keys c identity expected g o r).session_id) _ _
          λ same. (
            (Stages.done g o r s frame.payload, refl),
            record {
              own_id = refl;
              self_certified = g.is_peer;
              dialled = g.accepted;
              sent = Stages.mine c identity expected g o;
              received = Stages.theirs c identity expected g o r;
              own_hello = refl;
              their_hello = g.decoded;
              signature = s.0;
              checked = s.1;
              secrets = (o.secret, r.secret);
              derived = refl;
            },
          )
  on_ready-Good (Stages.done g o r s sid) frame = tt
