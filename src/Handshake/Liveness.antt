-- ===== src/Handshake/Liveness.antt =====
-- src/handshake.rs: an exchange between two genuine devices completes, with mirrored results.
use jeangrey.Prelude.{ℕ, ◌≡◌, ◌≢◌, ap₂, subst, ◌++◌, true, Option, List}
use jeangrey.Crates.{Crates, PeerIdLaws, SignatureLaws, KemLaws}
use jeangrey.Crypto.{SessionKeys, verify, derive_session_keys}
use jeangrey.Identity.{DeviceIdentity}
use jeangrey.Handshake.Hello.{PeerHello, encode_hello}
use jeangrey.Handshake.Machine.{auth_label, is_expected}
use jeangrey.Handshake.Stages
use jeangrey.Handshake.Stages.{state, Greeting, Offer, Response, Signed}
use jeangrey.Handshake.RoundTrip.{decode_hello-encode_hello}
use jeangrey.Handshake.Agreement.{build_transcript-swap, combine-swap}
use jeangrey.Handshake.Honest.{Coins, Genuine, verify-sign}

-- What `a` has taken from `b` in an honest exchange.
module _ (c : Crates) (sigs : SignatureLaws c) (kems : KemLaws c) (a b : DeviceIdentity c)
    (genuine : Genuine c b) (expected : Option c.PeerId)
    (dialled : is_expected c expected b.peer_id ≡ true) (x y : Coins) where
  abbrev pub hello_of : DeviceIdentity c → PeerHello c
  hello_of d = record {
    pubkey = d.verifying_key;
    device_uuid = d.device_uuid;
    user_name = d.user.user_name;
  }

  abbrev pub greeting : Greeting c a expected
  greeting = record {
    hello = hello_of b;
    payload = encode_hello c b;
    peer = b.peer_id;
    coins = x.kem;
    decoded = decode_hello-encode_hello c sigs b genuine.presentable;
    is_peer = genuine.own_id;
    accepted = dialled;
  }

  abbrev pub offer : Offer c a expected
  offer =
      let sealed = kems.round_trip y.kem x.seal in
      record { payload = (c.kem_generate y.kem).0; response = sealed.0; secret = sealed.1 }

  abbrev pub response : Response c a expected
  response =
      let sealed = kems.round_trip x.kem y.seal in record { payload = sealed.0; secret = sealed.1 }

  abbrev pub digest : List ℕ
  digest = Stages.digest c a expected greeting offer response

  abbrev pub keys : SessionKeys
  keys = Stages.keys c a expected greeting offer response

module _ (c : Crates) (ids : PeerIdLaws c) (sigs : SignatureLaws c) (kems : KemLaws c)
    (a b : DeviceIdentity c) (genuine_a : Genuine c a) (genuine_b : Genuine c b)
    (apart : a.peer_id ≢ b.peer_id) (ea eb : Option c.PeerId)
    (dialled_b : is_expected c ea b.peer_id ≡ true) (dialled_a : is_expected c eb a.peer_id ≡ true)
    (x y : Coins) where
  pub digest-swap :
      digest c sigs kems b a genuine_a eb dialled_a y x
      ≡ digest c sigs kems a b genuine_b ea dialled_b x y
  digest-swap =
      build_transcript-swap c ids a.peer_id b.peer_id apart
        (Stages.mine c a ea (greeting c sigs kems a b genuine_b ea dialled_b x y)
          (offer c sigs kems a b genuine_b ea dialled_b x y))
        (Stages.theirs c a ea (greeting c sigs kems a b genuine_b ea dialled_b x y)
          (offer c sigs kems a b genuine_b ea dialled_b x y)
          (response c sigs kems a b genuine_b ea dialled_b x y))

  pub keys-swap :
      keys c sigs kems b a genuine_a eb dialled_a y x
      ≡ keys c sigs kems a b genuine_b ea dialled_b x y
  keys-swap =
      ap₂ (derive_session_keys c)
        (combine-swap c ids a.peer_id b.peer_id apart (kems.round_trip y.kem x.seal).1
          (kems.round_trip x.kem y.seal).1)
        digest-swap

  -- The signature that `b` sends is over the digest that `a` computed.
  pub verify-signed :
      verify c b.verifying_key (auth_label ++ digest c sigs kems a b genuine_b ea dialled_b x y) (
        c.sign b.secret_key
          (auth_label ++ digest c sigs kems b a genuine_a eb dialled_a y x)
          y.sign)
      ≡ true
  verify-signed =
      subst
        (λ z.
          verify c b.verifying_key (auth_label ++ z) (
            c.sign b.secret_key (auth_label ++ digest c sigs kems b a genuine_a eb dialled_a y x)
              y.sign)
          ≡ true)
        digest-swap (verify-sign c sigs b _ y.sign genuine_b.own_key)
