-- ===== src/Tests/Handshakes.antt =====
-- The handshake theorems for two devices of the stand-in crates.
use jeangrey.Prelude.{
  ℕ, ◌≢◌, ◌≡◌, refl, arith, List, [], ◌∷◌, ◌++◌, ok, err, some, none, replicate, length,
}
use jeangrey.Crypto.{derive_session_keys}
use jeangrey.Identity.{DeviceIdentity, peer_id_of}
use jeangrey.Framing.{MessageType, handshake}
use jeangrey.Handshake.Hello.{encode_hello, decode_hello}
use jeangrey.Handshake.Transcript.{Payloads, build_transcript}
use jeangrey.Handshake.Machine.{
  HandshakeResult, panicked, auth_label, new, on_frame, result_for, on_kem_response, send_frames,
  complete,
}
use jeangrey.Handshake.Stages
use jeangrey.Handshake.Stages.{Stage, state, Authenticated}
use jeangrey.Handshake.RoundTrip.{decode_hello-encode_hello}
use jeangrey.Handshake.Agreement.{build_transcript-swap}
use jeangrey.Handshake.Authentic.{Runs, begin, step, complete-Authenticated, on_frame-never_panics}
use jeangrey.Handshake.Stalled.{early_response_never_completes}
use jeangrey.Handshake.Exchange.{move_first, move_offer, move_response, move_auth, move_ready}
use jeangrey.Handshake.Honest.{Coins, Genuine, exchange, encapsulate-generate, decapsulate-generate}
use jeangrey.Handshake.Liveness.{greeting, offer, response, digest, verify-signed}
use jeangrey.Handshake.Completes.{exchange-Paired}
use jeangrey.Session.Establish.{open_session}
use jeangrey.Session.Channel.{Paired}
use jeangrey.Tests.Toy.{
  toy, toy-PeerIdLaws, toy-HashLaws, toy-SignatureLaws, toy-KemLaws, toy-HkdfLaws,
}

abbrev device : ℕ → DeviceIdentity toy
device k = record {
  user = record { user_id = []; user_name = 97 ∷ k ∷ [] };
  secret_key = k;
  verifying_key = k;
  device_uuid = replicate 16 k;
  transport_peer_id = k;
  peer_id = k;
}

device-Genuine : (k : ℕ) → Genuine toy (device k)
unfolding peer_id_of
device-Genuine k = record {
  presentable = record { uuid_16 = refl; name_fits = omega arith; name_utf8 = refl };
  own_key = refl;
  own_id = refl;
}

apart : (device 3).peer_id ≢ (device 4).peer_id
apart e = omega (arith, e)

abbrev x : Coins
x = record { kem = 10; seal = 11; sign = 12 }

abbrev y : Coins
y = record { kem = 20; seal = 21; sign = 22 }

exchange_example :
    (ra rb : HandshakeResult toy) × (exchange toy (device 3) (device 4) (some 4) none 0 x y
      ≡ ok (ra, rb))
    × (ra.peer_id ≡ 4)
    × (rb.peer_id ≡ 3)
    × Paired (open_session toy ra) (open_session toy rb)
exchange_example =
    exchange-Paired toy toy-PeerIdLaws toy-SignatureLaws toy-KemLaws toy-HkdfLaws (device 3)
      (device 4) (device-Genuine 3) (device-Genuine 4) apart (some 4) none refl refl 0 x y

hello_example :
    decode_hello toy (encode_hello toy (device 3))
    ≡ some (record { pubkey = 3; device_uuid = replicate 16 3; user_name = 97 ∷ 3 ∷ [] })
hello_example =
    decode_hello-encode_hello toy toy-SignatureLaws (device 3) (device-Genuine 3).presentable

abbrev low : Payloads
low = record { hello = 1 ∷ []; offer = 2 ∷ []; response = [] }

abbrev high : Payloads
high = record { hello = []; offer = 5 ∷ []; response = 6 ∷ [] }

transcript_example : build_transcript toy 4 3 high low ≡ build_transcript toy 3 4 low high
transcript_example = build_transcript-swap toy toy-PeerIdLaws 3 4 apart low high

-- The side of device 3, up to the last frame.
abbrev g : Stages.Greeting toy (device 3) (some 4)
g =
    greeting toy toy-SignatureLaws toy-KemLaws (device 3) (device 4) (device-Genuine 4) (some 4)
      refl x y

abbrev o : Stages.Offer toy (device 3) (some 4)
o =
    offer toy toy-SignatureLaws toy-KemLaws (device 3) (device 4) (device-Genuine 4) (some 4) refl x
      y

abbrev r : Stages.Response toy (device 3) (some 4)
r =
    response toy toy-SignatureLaws toy-KemLaws (device 3) (device 4) (device-Genuine 4) (some 4)
      refl x y

abbrev s : Stages.Signed toy (device 3) (some 4) g o r
s = (
  toy.sign 4
      (auth_label
        ++ digest toy toy-SignatureLaws toy-KemLaws (device 4) (device 3) (device-Genuine 3) none
            refl y x)
      22,
  verify-signed toy toy-PeerIdLaws toy-SignatureLaws toy-KemLaws (device 3) (device 4)
      (device-Genuine 3) (device-Genuine 4) apart (some 4) none refl refl x y,
)

verified_run :
    Runs toy
      (device 3)
      (new toy (device 3) (some 4) 0).0
      (state toy (device 3) (some 4) 0 (Stages.verified g o r s))
verified_run =
    step 0 (handshake MessageType.auth s.0)
      (step 12 (handshake MessageType.kem_response r.payload)
        (step 11 (handshake MessageType.kem_offer o.payload)
          (step 10 (new toy (device 4) none 0).1 begin
            (move_first toy (device 3) (some 4) 0 g (device 4) none 0 refl))
          (move_offer toy (device 3) (some 4) 0 g o 11
            (encapsulate-generate toy toy-KemLaws 20 11)))
        (move_response toy (device 3) (some 4) 0 g o r 12
          (decapsulate-generate toy toy-KemLaws 10 21)))
      (move_auth toy (device 3) (some 4) 0 g o r 0 s)

abbrev sid : List ℕ
sid = (Stages.keys toy (device 3) (some 4) g o r).session_id

sid_16 : length sid ≡ 16
unfolding derive_session_keys
sid_16 = refl

Authenticated_example :
    Authenticated toy
      (device 3)
      (some 4)
      (result_for toy 3 4 g.hello (Stages.keys toy (device 3) (some 4) g o r))
Authenticated_example =
    complete-Authenticated toy toy-HashLaws (device 3) (some 4) 0 0
      (handshake MessageType.ready sid) verified_run
      (move_ready toy (device 3) (some 4) 0 g o r 0 s sid sid_16 refl)

never_panics_example :
    on_frame toy (new toy (device 3) none 0).0 (device 3) 5 (handshake MessageType.ready [])
    ≢ err panicked
never_panics_example =
    on_frame-never_panics toy toy-HashLaws (device 3) none 0 5 (handshake MessageType.ready [])
      begin

greeted_run :
    Runs toy
      (device 3)
      (new toy (device 3) (some 4) 0).0
      (state toy (device 3) (some 4) 0 (Stages.greeted g))
greeted_run =
    step 10 (new toy (device 4) none 0).1 begin
      (move_first toy (device 3) (some 4) 0 g (device 4) none 0 refl)

no_offer : (state toy (device 3) (some 4) 0 (Stages.greeted g)).peer_offer_payload ≡ none
unfolding state
no_offer = refl

early_response :
    on_kem_response toy
      (state toy (device 3) (some 4) 0 (Stages.greeted g))
      (device 3)
      12
      (handshake MessageType.kem_response r.payload)
    ≡ ok (state toy (device 3) (some 4) 0 (Stages.early g r), send_frames [])
unfolding on_kem_response state handshake
early_response = rw (decapsulate-generate toy toy-KemLaws 10 21) refl

stalled_example :
    on_frame toy
      (state toy (device 3) (some 4) 0 (Stages.early g r))
      (device 3)
      11
      (handshake MessageType.kem_offer o.payload)
    ≢ ok (
      state toy (device 3) (some 4) 0 (Stages.signed g o r),
      complete (result_for toy 3 4 g.hello (Stages.keys toy (device 3) (some 4) g o r)),
    )
stalled_example =
    early_response_never_completes toy (device 3) (some 4) 0 toy-HashLaws 12 11
      (handshake MessageType.kem_response r.payload) (handshake MessageType.kem_offer o.payload)
      greeted_run no_offer early_response begin
