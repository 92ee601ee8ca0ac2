-- ===== src/Tests/Sessions.antt =====
-- The session theorems for two sessions that a handshake could have opened.
use jeangrey.Prelude.{
  ℕ, List, ◌<◌, ◌≢◌, ◌≡◌, refl, arith, true, [], ◌∷◌, ok, err, some, replicate, bytes_eq,
  to_be_bytes, from_be_bytes,
}
use jeangrey.Framing.{message, Frame, to_u8}
use jeangrey.Session.State.{
  Session, message_in, ack_in, observed_addr, dial_back_req, dial_back_res, v4, hostile, nonce, aad,
  checked_succ, remember,
}
use jeangrey.Session.Plaintext.{message_plaintext, parse_plaintext}
use jeangrey.Session.Frames.{
  seal, encrypt_message, encrypt_ack, encrypt_observed_addr, encrypt_dial_back_req,
  encrypt_dial_back_res, handle_frame, violate,
}
use jeangrey.Session.Channel.{Paired}
use jeangrey.Session.Delivery.{
  message_delivered, ack_delivered, observed_addr_delivered, dial_back_delivered,
}
use jeangrey.Session.Replay.{feed, accepted_order, counted_blocks, hostile_at_five}
use jeangrey.Session.Nonces.{
  message_call, ack_call, frames, EncryptedUnder, Distinct, nonces-Distinct,
}
use jeangrey.Tests.Toy.{toy, toy-AeadLaws, toy-AddrLaws}

abbrev pub alice : Session
alice = record {
  session_id = replicate 16 5;
  send_key = 1 ∷ [];
  recv_key = 2 ∷ [];
  my_dir = 0 ∷ 1 ∷ [];
  peer_dir = 0 ∷ 2 ∷ [];
  out_seq = 0;
  in_seq = 0;
  seq_violations = 0;
  seen = [];
}

abbrev pub bob : Session
bob = record alice {
  send_key = 2 ∷ [];
  recv_key = 1 ∷ [];
  my_dir = 0 ∷ 2 ∷ [];
  peer_dir = 0 ∷ 1 ∷ [];
}

pub alice-Paired : Paired alice bob
alice-Paired = record {
  forth = record { same_id = refl; same_key = refl; same_dir = refl; in_step = refl };
  back = record { same_id = refl; same_key = refl; same_dir = refl; in_step = refl };
}

message_example :
    (a' b' : Session) × (f : Frame) × (encrypt_message toy alice (104 ∷ 105 ∷ []) 77 1000
      ≡ (a', ok f))
    × (handle_frame toy bob f ≡ (b', ok (message_in 0 77 1000 (104 ∷ 105 ∷ []))))
    × Paired a' b'
message_example =
    message_delivered toy toy-AeadLaws alice bob alice-Paired (omega arith) (104 ∷ 105 ∷ []) 77 1000
      (omega arith) refl (omega arith)

ack_example :
    (a' b' : Session) × (f : Frame) × (encrypt_ack toy alice 77 3 1000 78 ≡ some (a', f))
    × (handle_frame toy bob f ≡ (b', ok (ack_in 77 3)))
    × Paired a' b'
ack_example =
    ack_delivered toy toy-AeadLaws alice bob alice-Paired (omega arith) 77 3 1000 78 (omega arith)
      (omega arith)

observed_example :
    (a' b' : Session) × (f : Frame) × (encrypt_observed_addr toy alice
        (v4 (10 ∷ 0 ∷ 0 ∷ 1 ∷ []))
        4001
        79
      ≡ some (a', f))
    × (handle_frame toy bob f ≡ (b', ok (observed_addr 0 (v4 (10 ∷ 0 ∷ 0 ∷ 1 ∷ [])) 4001)))
    × Paired a' b'
observed_example =
    observed_addr_delivered toy toy-AeadLaws alice bob alice-Paired (omega arith)
      (v4 (10 ∷ 0 ∷ 0 ∷ 1 ∷ [])) 4001 79 refl (omega arith)

nonces_example :
    (ns : List (List ℕ)) × EncryptedUnder toy alice.send_key ns
      (frames toy alice (message_call (104 ∷ []) 1 2 ∷ ack_call 1 2 3 4 ∷ []))
    × Distinct toy ns
nonces_example =
    nonces-Distinct toy alice (message_call (104 ∷ []) 1 2 ∷ ack_call 1 2 3 4 ∷ []) refl
      (omega arith)

-- A frame with the number 9 where 0 is expected.
abbrev pub stray : Frame
stray = record {
  msg_type = message;
  flags = 0;
  session_id = replicate 16 5;
  seq = 9;
  msg_id = 1;
  payload = [];
}

stray_wrong : stray.seq ≢ bob.in_seq
stray_wrong e = omega (arith, e)

hostile_example :
    handle_frame toy (feed toy bob (replicate 4 stray)) stray
    ≡ (record bob { seq_violations = 5 }, err hostile)
hostile_example =
    hostile_at_five toy bob (replicate 4 stray) stray refl
      ((refl, stray_wrong), ((refl, stray_wrong), ((refl, stray_wrong), ((refl, stray_wrong), tt))))
      (refl, stray_wrong) (omega arith)

-- The expected number, with a payload that does not open.
abbrev forged : Frame
forged = record stray { seq = 0; payload = 1 ∷ 2 ∷ 3 ∷ [] }

abbrev first : Frame
first = seal toy alice message 0 7 (message_plaintext (104 ∷ []) 5)

blocks_example :
    (handle_frame toy (feed toy (handle_frame toy bob forged).0 (stray ∷ [])) first).1
    ≢ ok (message_in 0 7 5 (104 ∷ []))
unfolding seal
blocks_example =
    counted_blocks toy bob forged first (message_in 0 7 5 (104 ∷ [])) (stray ∷ []) refl refl
      (omega arith) refl

-- Two frames in a row, both accepted.
abbrev second : Frame
second = seal toy (record alice { out_seq = 1 }) message 1 8 (message_plaintext [] 6)

first-accepted :
    handle_frame toy bob first ≡ ((handle_frame toy bob first).0, ok (message_in 0 7 5 (104 ∷ [])))
unfolding handle_frame seal bytes_eq checked_succ nonce remember to_be_bytes aad to_u8
    parse_plaintext message_plaintext from_be_bytes
first-accepted = refl

second-accepted :
    (handle_frame toy (feed toy (handle_frame toy bob first).0 (stray ∷ [])) second).1
    ≡ ok (message_in 1 8 6 [])
unfolding handle_frame feed violate seal bytes_eq checked_succ nonce remember to_be_bytes aad to_u8
    parse_plaintext message_plaintext from_be_bytes
second-accepted = refl

order_example : first.seq < second.seq
order_example =
    accepted_order toy bob (handle_frame toy bob first).0 first second (message_in 0 7 5 (104 ∷ []))
      (message_in 1 8 6 []) (stray ∷ []) first-accepted second-accepted

dial_back_example :
    ((a' b' : Session) × (f : Frame) × (encrypt_dial_back_req toy alice (47 ∷ 120 ∷ []) 80
        ≡ some (a', f))
      × (handle_frame toy bob f ≡ (b', ok (dial_back_req 0 (47 ∷ 120 ∷ []))))
      × Paired a' b')
    × ((a' b' : Session) × (f : Frame) × (encrypt_dial_back_res toy alice (47 ∷ 120 ∷ []) true 80
          ≡ some (a', f))
        × (handle_frame toy bob f ≡ (b', ok (dial_back_res 0 (47 ∷ 120 ∷ []) true)))
        × Paired a' b')
dial_back_example =
    dial_back_delivered toy toy-AeadLaws alice bob alice-Paired (omega arith) toy-AddrLaws
      (47 ∷ 120 ∷ []) true 80 (omega arith, omega arith)
