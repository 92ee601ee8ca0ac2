-- ===== src/Handshake/Stages.antt =====
-- src/handshake.rs: the states that the machine can be in, each with the evidence that led to it.
use jeangrey.Prelude.{ℕ, ◌≡◌, true, Option, some, List, ◌++◌}
use jeangrey.Crates.{Crates}
use jeangrey.Crypto.{SessionKeys, verify, derive_session_keys}
use jeangrey.Identity.{DeviceIdentity, peer_id_of}
use jeangrey.Handshake.Hello.{PeerHello, encode_hello, decode_hello}
use jeangrey.Handshake.Transcript.{Payloads, build_transcript, combine_shared_secrets}
use jeangrey.Handshake.Machine.{
  wait_auth, wait_ready, established, Handshake, HandshakeResult, Action, send_frames, complete,
  auth_label, new, is_expected, result_for,
}

module _ (c : Crates) (identity : DeviceIdentity c) (expected : Option c.PeerId) where
  -- An accepted hello.
  pub record Greeting : Type 0 where
    pub hello : PeerHello c
    pub payload : List ℕ
    pub peer : c.PeerId
    pub coins : ℕ
    pub decoded : decode_hello c payload ≡ some hello
    pub is_peer : peer_id_of c hello.pubkey ≡ some peer
    pub accepted : is_expected c expected peer ≡ true

  -- A received offer, with what was sealed for it.
  pub record Offer : Type 0 where
    pub payload : List ℕ
    pub response : List ℕ
    pub secret : List ℕ

  pub record Response : Type 0 where
    pub payload : List ℕ
    pub secret : List ℕ

  abbrev pub mine : Greeting → Offer → Payloads
  mine g o = record {
    hello = encode_hello c identity;
    offer = (c.kem_generate g.coins).0;
    response = o.response;
  }

  abbrev pub theirs : Greeting → Offer → Response → Payloads
  theirs g o r = record { hello = g.payload; offer = o.payload; response = r.payload }

  abbrev pub digest : Greeting → Offer → Response → List ℕ
  digest g o r = build_transcript c identity.peer_id g.peer (mine g o) (theirs g o r)

  abbrev pub keys : Greeting → Offer → Response → SessionKeys
  keys g o r =
      derive_session_keys c
        (combine_shared_secrets o.secret r.secret (c.peer_lt identity.peer_id g.peer))
        (digest g o r)

  abbrev pub Signed : Greeting → Offer → Response → Type 0
  Signed g o r = (sig : List ℕ) × (verify c g.hello.pubkey (auth_label ++ digest g o r) sig ≡ true)

  -- `early` and `stalled` have taken the response before the offer.
  pub data Stage : Type 0 where
    start : Stage
    greeted : Greeting → Stage
    offered : Greeting → Offer → Stage
    early : Greeting → Response → Stage
    stalled signed : Greeting → Offer → Response → Stage
    verified : (g : Greeting) (o : Offer) (r : Response) → Signed g o r → Stage
    done : (g : Greeting) (o : Offer) (r : Response) → Signed g o r → List ℕ → Stage

  abbrev greet : Greeting → Handshake c → Handshake c
  greet g hs = record hs {
    peer_id = some g.peer;
    peer_hello = some g.hello;
    peer_hello_payload = some g.payload;
    kem_dk = some (c.kem_generate g.coins).1;
    my_offer_payload = some (c.kem_generate g.coins).0;
  }

  abbrev take_offer : Offer → Handshake c → Handshake c
  take_offer o hs = record hs {
    peer_offer_payload = some o.payload;
    ss_to_peer = some o.secret;
    my_response_payload = some o.response;
  }

  abbrev take_response : Response → Handshake c → Handshake c
  take_response r hs = record hs {
    peer_response_payload = some r.payload;
    ss_from_peer = some r.secret;
  }

  abbrev finish : Greeting → Offer → Response → Handshake c → Handshake c
  finish g o r hs = record hs {
    transcript = some (digest g o r);
    keys = some (keys g o r);
    step = wait_auth;
  }

  abbrev trust : Handshake c → Handshake c
  trust hs = record hs { peer_auth_ok = true; step = wait_ready }

  module _ (now : ℕ) where
    abbrev opening : Handshake c
    unfolding new
    opening = (new c identity expected now).0

    abbrev signing : Greeting → Offer → Response → Handshake c
    signing g o r = finish g o r (take_response r (take_offer o (greet g opening)))

    unfoldable pub state : Stage → Handshake c
    unfolding new
    state start = opening
    state (greeted g) = greet g opening
    state (offered g o) = take_offer o (greet g opening)
    state (early g r) = take_response r (greet g opening)
    state (stalled g o r) = take_response r (take_offer o (greet g opening))
    state (signed g o r) = signing g o r
    state (verified g o r s) = trust (signing g o r)
    state (done g o r s sid) = record (trust (signing g o r)) {
      peer_ready = some sid;
      step = established;
      result = some (result_for c identity.peer_id g.peer g.hello (keys g o r));
    }

  -- What an established result is worth: the peer id is that of the key in the hello, and is the one that
  -- was dialled; a signature under that key over the transcript was checked; the keys are derived from it.
  pub record Authenticated (res : HandshakeResult c) : Type 0 where
    pub own_id : res.my_id ≡ identity.peer_id
    pub self_certified : peer_id_of c res.peer_hello.pubkey ≡ some res.peer_id
    pub dialled : is_expected c expected res.peer_id ≡ true
    pub sent : Payloads
    pub received : Payloads
    pub own_hello : sent.hello ≡ encode_hello c identity
    pub their_hello : decode_hello c received.hello ≡ some res.peer_hello
    pub signature : List ℕ
    pub checked :
        verify c res.peer_hello.pubkey
          (auth_label ++ build_transcript c identity.peer_id res.peer_id sent received)
          signature
        ≡ true
    pub secrets : List ℕ × List ℕ
    pub derived :
        res.keys
        ≡ derive_session_keys c
            (combine_shared_secrets secrets.0 secrets.1 (c.peer_lt identity.peer_id res.peer_id))
            (build_transcript c identity.peer_id res.peer_id sent received)

  abbrev pub Justified : Action c → Type 0
  Justified (send_frames fs) = Unit {0}
  Justified (complete res) = Authenticated res
