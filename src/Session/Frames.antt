-- ===== src/Session/Frames.antt =====
-- src/session.rs: the methods of `Session` that seal and open frames. A method returns the new
-- session with its result; `none` of an encrypting method is the panic of its `expect`. The clock and
-- the random message id are arguments.
use jeangrey.Prelude.{
  ℕ, ◌+◌, ◌%◌, ◌^◌, Bool, not, Option, some, none, List, Result, ok, err, ◌>>=◌, ok_or, length, ltb,
  leb, ◌==◌, bytes_eq, if◌then◌else◌,
}
use jeangrey.Crates.{Crates}
use jeangrey.Framing.{MessageType, message, ack, control, Frame, is_session_type}
use jeangrey.Session.State.{
  Session, Inbound, IpAddr, SessionError, wrong_session, replay, authentication_failed, hostile,
  invalid_frame_type, message_too_large, max_message_bytes, max_seq_violations, checked_succ, nonce,
  aad, remember,
}
use jeangrey.Session.Plaintext.{
  message_plaintext, ack_plaintext, observed_addr_plaintext, dial_back_req_plaintext,
  dial_back_res_plaintext, parse_plaintext,
}

module _ (c : Crates) where
  unfoldable pub seal : Session → MessageType → ℕ → ℕ → List ℕ → Frame
  seal s t seq msg_id plaintext = record {
    msg_type = t;
    flags = 0;
    session_id = s.session_id;
    seq = seq;
    msg_id = msg_id;
    payload = c.encrypt s.send_key (nonce s.my_dir seq) (aad s t seq msg_id) plaintext;
  }

  unfoldable pub encrypt_message : Session → List ℕ → ℕ → ℕ → Session × Result SessionError Frame
  encrypt_message s text msg_id ts =
      if ltb max_message_bytes (length text)
      then (s, err (message_too_large (length text)))
      else elim (checked_succ s.out_seq) [
        | none ↦ (s, err hostile)
        | some next ↦
            let s' = record s { out_seq = next } in
            (s', ok (seal s' message s.out_seq msg_id (message_plaintext text ts)))
      ]

  -- The common end of `encrypt_ack` and `seal_control`.
  unfoldable pub seal_next : Session → MessageType → ℕ → List ℕ → Option (Session × Frame)
  seal_next s t msg_id plaintext = elim (checked_succ s.out_seq) [
    | none ↦ none
    | some next ↦
        let s' = record s { out_seq = next } in some (s', seal s' t s.out_seq msg_id plaintext)
  ]

  unfoldable pub encrypt_ack : Session → ℕ → ℕ → ℕ → ℕ → Option (Session × Frame)
  unfolding seal_next
  encrypt_ack s ack_msg_id ack_seq ts msg_id =
      seal_next s ack msg_id (ack_plaintext ack_msg_id ack_seq ts)

  unfoldable pub encrypt_observed_addr : Session → IpAddr → ℕ → ℕ → Option (Session × Frame)
  unfolding seal_next
  encrypt_observed_addr s ip port msg_id =
      seal_next s control msg_id (observed_addr_plaintext ip port)

  unfoldable pub encrypt_dial_back_req : Session → c.Multiaddr → ℕ → Option (Session × Frame)
  unfolding seal_next
  encrypt_dial_back_req s addr msg_id = seal_next s control msg_id (dial_back_req_plaintext c addr)

  unfoldable pub encrypt_dial_back_res : Session → c.Multiaddr → Bool → ℕ → Option (Session × Frame)
  unfolding seal_next
  encrypt_dial_back_res s addr reachable msg_id =
      seal_next s control msg_id (dial_back_res_plaintext c addr reachable)

  -- Decryption and parsing, on the session that has already counted the frame.
  unfoldable pub open_frame : Session → Frame → Result SessionError (Inbound c.Multiaddr)
  open_frame s frame =
      if is_session_type frame.msg_type
      then (do
        plaintext ←
            ok_or
              (c.decrypt s.recv_key (nonce s.peer_dir frame.seq)
                (aad s frame.msg_type frame.seq frame.msg_id) frame.payload)
              authentication_failed
        parse_plaintext c s frame.msg_type frame.msg_id plaintext)
      else err invalid_frame_type

  -- The violation counter is a `u32`.
  unfoldable pub violate : Session → Session × Result SessionError (Inbound c.Multiaddr)
  violate s =
      let v = (s.seq_violations + 1) % 2 ^ 32 in
      (record s { seq_violations = v }, err (if leb max_seq_violations v then hostile else replay))

  unfoldable pub handle_frame :
      Session → Frame → Session × Result SessionError (Inbound c.Multiaddr)
  unfolding violate open_frame
  handle_frame s frame =
      if not (bytes_eq frame.session_id s.session_id)
      then (s, err wrong_session)
      else if not (frame.seq == s.in_seq)
      then violate s
      else elim (checked_succ s.in_seq) [
        | none ↦ (s, err hostile)
        | some next ↦
            let s' = remember (record s { in_seq = next }) frame.seq frame.msg_id in
            (s', open_frame s' frame)
      ]
