-- ===== src/Handshake/Machine.antt =====
-- src/handshake.rs: the state machine. `Instant` is a number of nanoseconds, whose `duration_since` stops
-- at zero. A handler gives the new state with its action, or a fault: every error leaves the state as it
-- was but the unreachable `missing_identity`, and the transport drops the handshake after any of them.
use jeangrey.Prelude.{
  ℕ, ◌-◌, ◌*◌, ◌^◌, Bool, true, false, not, Option, some, none, List, [], ◌∷◌, ◌++◌, Result, ok,
  err, ◌>>=◌, ◌>>◌, ensure, ok_or, is_none, length, ltb, ◌==◌, codes, bytes_eq, if◌then◌else◌,
}
use jeangrey.Crates.{Crates}
use jeangrey.Crypto.{
  KemError, SessionKeys, session_id_len, encapsulate, decapsulate, verify, derive_session_keys,
}
use jeangrey.Identity.{DeviceIdentity, peer_id_of}
use jeangrey.Framing.{MessageType, Frame, handshake}
use jeangrey.Handshake.Hello.{PeerHello, encode_hello, decode_hello}
use jeangrey.Handshake.Transcript.{build_transcript, combine_shared_secrets, select_keys}

-- 30 seconds
abbrev pub handshake_timeout : ℕ
handshake_timeout = 30 * 10 ^ 9

abbrev pub auth_label : List ℕ
auth_label = codes "jeangrey/mvp1/auth/v1"

pub data Step : Type 0 where
  wait_hello wait_auth wait_ready established : Step

pub record HandshakeResult (c : Crates) : Type 0 where
  pub my_id : c.PeerId
  pub peer_id : c.PeerId
  pub peer_hello : PeerHello c
  pub keys : SessionKeys
  pub send_key : List ℕ
  pub recv_key : List ℕ

pub record Handshake (c : Crates) : Type 0 where
  pub my_id : c.PeerId
  pub expected_peer : Option c.PeerId
  pub step : Step
  pub started_at : ℕ
  pub peer_id : Option c.PeerId
  pub peer_hello : Option (PeerHello c)
  pub my_hello_payload : List ℕ
  pub peer_hello_payload : Option (List ℕ)
  pub my_offer_payload : Option (List ℕ)
  pub peer_offer_payload : Option (List ℕ)
  pub my_response_payload : Option (List ℕ)
  pub peer_response_payload : Option (List ℕ)
  pub kem_dk : Option c.DecapsulationKey
  pub ss_to_peer : Option (List ℕ)
  pub ss_from_peer : Option (List ℕ)
  pub peer_auth_ok : Bool
  pub peer_ready : Option (List ℕ)
  pub transcript : Option (List ℕ)
  pub keys : Option SessionKeys
  pub result : Option (HandshakeResult c)

-- The texts of `InvalidFrame`.
pub data Reason : Type 0 where
  flags_set malformed_hello missing_identity bad_ready session_id_mismatch : Reason
  bad_offer bad_response : KemError → Reason

pub data HandshakeError : Type 0 where
  invalid_frame : Reason → HandshakeError
  duplicate unexpected : MessageType → HandshakeError
  peer_id_mismatch bad_signature : HandshakeError

-- `panicked` is an `unwrap` or `expect` of `None`.
pub data Fault : Type 0 where
  panicked : Fault
  failed : HandshakeError → Fault

pub data Action (c : Crates) : Type 0 where
  send_frames : List Frame → Action c
  complete : HandshakeResult c → Action c

module _ (c : Crates) where
  -- A handler's outcome.
  abbrev pub Outcome : Type 0
  Outcome = Result Fault (Handshake c × Action c)

  abbrev unwrap : {A : Type 0} → Option A → Result Fault A
  unwrap o = ok_or o panicked

  abbrev reject : {A : Type 0} → HandshakeError → Result Fault A
  reject e = err (failed e)

  unfoldable pub new : DeviceIdentity c → Option c.PeerId → ℕ → Handshake c × Frame
  new identity expected_peer now =
      let payload = encode_hello c identity in
      (
        record {
          my_id = identity.peer_id;
          expected_peer = expected_peer;
          step = wait_hello;
          started_at = now;
          peer_id = none;
          peer_hello = none;
          my_hello_payload = payload;
          peer_hello_payload = none;
          my_offer_payload = none;
          peer_offer_payload = none;
          my_response_payload = none;
          peer_response_payload = none;
          kem_dk = none;
          ss_to_peer = none;
          ss_from_peer = none;
          peer_auth_ok = false;
          peer_ready = none;
          transcript = none;
          keys = none;
          result = none;
        },
        handshake MessageType.hello payload,
      )

  unfoldable pub timed_out : Handshake c → ℕ → Bool
  timed_out hs now = ltb handshake_timeout (now - hs.started_at)

  abbrev pub is_expected : Option c.PeerId → c.PeerId → Bool
  is_expected none peer = true
  is_expected (some expected) peer = c.peer_eq expected peer

  -- `coins` is what `OsRng` gives to the key generation.
  unfoldable pub on_hello : Handshake c → ℕ → Frame → Outcome
  on_hello hs coins frame = do
    ensure (is_none hs.peer_hello_payload) (failed (duplicate MessageType.hello))
    hello ← ok_or (decode_hello c frame.payload) (failed (invalid_frame malformed_hello))
    peer_id ← unwrap (peer_id_of c hello.pubkey)
    ensure (is_expected hs.expected_peer peer_id) (failed peer_id_mismatch)
    ok (
      record hs {
        peer_id = some peer_id;
        peer_hello = some hello;
        peer_hello_payload = some frame.payload;
        kem_dk = some (c.kem_generate coins).1;
        my_offer_payload = some (c.kem_generate coins).0;
      },
      send_frames (handshake MessageType.kem_offer (c.kem_generate coins).0 ∷ []),
    )

  -- `map_err`
  abbrev pub mapped : {A : Type 0} → (KemError → Reason) → Result KemError A → Result Fault A
  mapped why (ok a) = ok a
  mapped why (err e) = reject (invalid_frame (why e))

  unfoldable pub on_kem_offer : Handshake c → ℕ → Frame → Outcome
  on_kem_offer hs coins frame = do
    ensure (not (is_none hs.peer_hello)) (failed (unexpected MessageType.kem_offer))
    ensure (is_none hs.peer_offer_payload) (failed (duplicate MessageType.kem_offer))
    sealed ← mapped bad_offer (encapsulate c frame.payload coins)
    ok (
      record hs {
        peer_offer_payload = some frame.payload;
        ss_to_peer = some sealed.1;
        my_response_payload = some sealed.0;
      },
      send_frames (handshake MessageType.kem_response sealed.0 ∷ []),
    )

  -- The transcript, the keys and our signature; `coins` randomizes the signature.
  unfoldable pub finish_kem : Handshake c → DeviceIdentity c → ℕ → Outcome
  finish_kem hs identity coins = do
    peer_id ← ok_or hs.peer_id (failed (invalid_frame missing_identity))
    my_offer ← unwrap hs.my_offer_payload
    my_response ← unwrap hs.my_response_payload
    peer_hello ← unwrap hs.peer_hello_payload
    peer_offer ← unwrap hs.peer_offer_payload
    peer_response ← unwrap hs.peer_response_payload
    let digest =
        build_transcript c hs.my_id peer_id
          (record { hello = hs.my_hello_payload; offer = my_offer; response = my_response })
          (record { hello = peer_hello; offer = peer_offer; response = peer_response })
    to_peer ← unwrap hs.ss_to_peer
    from_peer ← unwrap hs.ss_from_peer
    let ikm = combine_shared_secrets to_peer from_peer (c.peer_lt hs.my_id peer_id)
    ok (
      record hs {
        transcript = some digest;
        keys = some (derive_session_keys c ikm digest);
        step = wait_auth;
      },
      send_frames (
          handshake MessageType.auth (c.sign identity.secret_key (auth_label ++ digest) coins)
          ∷ []),
    )

  unfoldable pub on_kem_response : Handshake c → DeviceIdentity c → ℕ → Frame → Outcome
  on_kem_response hs identity coins frame = do
    ensure (not (is_none hs.peer_hello)) (failed (unexpected MessageType.kem_response))
    ensure (is_none hs.peer_response_payload) (failed (duplicate MessageType.kem_response))
    dk ← ok_or hs.kem_dk (failed (unexpected MessageType.kem_response))
    ss ← mapped bad_response (decapsulate c dk frame.payload)
    let received = record hs { peer_response_payload = some frame.payload; ss_from_peer = some ss }
    if is_none hs.my_response_payload
        then ok (received, send_frames [])
        else finish_kem received identity coins

  unfoldable pub on_auth : Handshake c → Frame → Outcome
  on_auth hs frame = do
    ensure (not hs.peer_auth_ok) (failed (duplicate MessageType.auth))
    digest ← ok_or hs.transcript (failed (unexpected MessageType.auth))
    hello ← ok_or hs.peer_hello (failed (unexpected MessageType.auth))
    ensure (verify c hello.pubkey (auth_label ++ digest) frame.payload) (failed bad_signature)
    keys ← unwrap hs.keys
    ok (
      record hs { peer_auth_ok = true; step = wait_ready },
      send_frames (handshake MessageType.ready keys.session_id ∷ []),
    )

  abbrev pub result_for : c.PeerId → c.PeerId → PeerHello c → SessionKeys → HandshakeResult c
  result_for my_id peer_id peer_hello keys = record {
    my_id = my_id;
    peer_id = peer_id;
    peer_hello = peer_hello;
    keys = keys;
    send_key = (select_keys c keys my_id peer_id).0;
    recv_key = (select_keys c keys my_id peer_id).1;
  }

  unfoldable pub on_ready : Handshake c → Frame → Outcome
  on_ready hs frame = do
    ensure (is_none hs.peer_ready) (failed (duplicate MessageType.ready))
    ensure hs.peer_auth_ok (failed (unexpected MessageType.ready))
    ensure (length frame.payload == session_id_len) (failed (invalid_frame bad_ready))
    keys ← unwrap hs.keys
    ensure (bytes_eq frame.payload keys.session_id) (failed (invalid_frame session_id_mismatch))
    peer_id ← unwrap hs.peer_id
    peer_hello ← unwrap hs.peer_hello
    let result = result_for hs.my_id peer_id peer_hello keys
    ok (
      record hs { peer_ready = some frame.payload; step = established; result = some result },
      complete result,
    )

  abbrev pub dispatch : Handshake c → DeviceIdentity c → ℕ → Frame → MessageType → Outcome
  dispatch hs identity coins frame MessageType.hello = on_hello hs coins frame
  dispatch hs identity coins frame MessageType.kem_offer = on_kem_offer hs coins frame
  dispatch hs identity coins frame MessageType.kem_response =
      on_kem_response hs identity coins frame
  dispatch hs identity coins frame MessageType.auth = on_auth hs frame
  dispatch hs identity coins frame MessageType.ready = on_ready hs frame
  dispatch hs identity coins frame t = reject (unexpected t)

  unfoldable pub on_frame : Handshake c → DeviceIdentity c → ℕ → Frame → Outcome
  on_frame hs identity coins frame = do
    ensure (frame.flags == 0) (failed (invalid_frame flags_set))
    dispatch hs identity coins frame frame.msg_type
