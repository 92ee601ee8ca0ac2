-- ===== src/Behaviour/Drop.antt =====
-- src/transport.rs: a frame that a session cannot accept ends the conversation with the device.
use jeangrey.Prelude.{
  ℕ, ◌≡◌, ◌⊎◌, inl, inr, refl, Bool-cases, Option-cases, true, false, Option, some, none, List, [],
  ◌∷◌, ◌++◌, err, ◌==◌, bytes_eq, find, leb, ◌%◌, ◌+◌, ◌^◌, if◌then◌else◌, delete, find-delete,
  and_then,
}
use jeangrey.Crates.{Crates, PeerIdLaws}
use jeangrey.Framing.{Frame, is_session_frame, is_session_type}
use jeangrey.Session.State.{
  Session, SessionError, wrong_session, replay, invalid_frame_type, max_seq_violations, hostile,
  authentication_failed, nonce, aad, remember, checked_succ,
}
use jeangrey.Session.Frames.{handle_frame, open_frame, violate}
use jeangrey.Behaviour.State.{
  Behaviour, Bound, session_error, handshake_failed, generate_event, device_of, has_session, push,
}
use jeangrey.Behaviour.Receive.{
  Draws, frame_received, on_session_frame, on_connection_frame, on_handler_event,
}
use jeangrey.Behaviour.Send.{send_message}

-- A frame that the handler of a connection reads, with what its handling draws.
pub record Arrival : Type 0 where
  pub conn : ℕ
  pub frame : Frame
  pub now : ℕ
  pub draws : Draws

module _ (c : Crates) where
  -- A frame of another session, with another number than the expected one, or that does not open.
  abbrev pub Unacceptable : Session → Frame → Type 0
  Unacceptable s f =
      (bytes_eq f.session_id s.session_id ≡ false)
      ⊎ ((f.seq == s.in_seq) ≡ false)
      ⊎ (c.decrypt s.recv_key (nonce s.peer_dir f.seq) (aad s f.msg_type f.seq f.msg_id) f.payload
          ≡ none)

  handle_frame-refuses :
      (s : Session) (f : Frame)
      → Unacceptable s f
      → (e : SessionError) × ((handle_frame c s f).1 ≡ err e)
  unfolding handle_frame violate open_frame aad remember
  handle_frame-refuses s f (inl id) = (wrong_session, rw (id, handle_frame) refl)
  handle_frame-refuses s f (inr u) = elim (Bool-cases (bytes_eq f.session_id s.session_id)) [
    | inr other ↦ (wrong_session, rw (other, handle_frame) refl)
    | inl same ↦ elim (Bool-cases (f.seq == s.in_seq)) [
      | inr off ↦ (
        if leb max_seq_violations ((s.seq_violations + 1) % 2 ^ 32) then hostile else replay,
        rw (same, off, handle_frame) refl,
      )
      | inl next_one ↦ elim u [
        | inl off ↦ absurd (cc (next_one, off))
        | inr shut ↦ elim (Option-cases (checked_succ s.in_seq)) [
          | inl full ↦ (hostile, rw (same, next_one, full, handle_frame) refl)
          | inr (next, e) ↦ elim (Bool-cases (is_session_type f.msg_type)) [
            | inl sort ↦ (
              authentication_failed,
              rw (same, next_one, e, sort, shut, handle_frame, open_frame, aad, remember) refl,
            )
            | inr sort ↦
                (invalid_frame_type, rw (same, next_one, e, sort, handle_frame, open_frame) refl)
          ]
        ]
      ]
    ]
  ]

  -- Frames that the handlers of the connections of a transport id read, one after the other.
  abbrev pub receive : c.PeerId → List Arrival → Behaviour c → Option (Behaviour c)
  receive transport [] b = some b
  receive transport (a ∷ later) b =
      and_then (on_handler_event c transport a.conn (frame_received a.frame) a.now a.draws b)
        (receive transport later)

  abbrev pub AllSession : List Arrival → Type 0
  AllSession [] = Unit {0}
  AllSession (a ∷ later) = (is_session_frame a.frame ≡ true) × AllSession later

  session_frame-handled :
      (b : Behaviour c) (transport : c.PeerId) (a : Arrival)
      → is_session_frame a.frame ≡ true
      → on_handler_event c transport a.conn (frame_received a.frame) a.now a.draws b
        ≡ on_session_frame c transport a.conn a.frame a.draws b
  unfolding on_handler_event on_connection_frame
  session_frame-handled b transport a h = rw (h, on_handler_event, on_connection_frame) refl

  -- Without a session, the frames of a session change nothing.
  receive-ignores :
      (b : Behaviour c) (transport device : c.PeerId) (later : List Arrival)
      → device_of c b transport ≡ some device
      → find c.peer_eq device b.sessions ≡ none
      → AllSession later
      → receive transport later b ≡ some b
  unfolding on_session_frame
  receive-ignores b transport device [] known gone all = refl
  receive-ignores b transport device (a ∷ later) known gone (first, all) =
      rw (session_frame-handled b transport a first, known, gone, on_session_frame)
        (receive-ignores b transport device later known gone all)

  -- The messages to the device that wait for a session.
  abbrev pub waiting : Behaviour c → c.PeerId → List (ℕ × List ℕ)
  waiting b device = elim (find c.peer_eq device b.pending_sends) [
    | none ↦ []
    | some queued ↦ queued
  ]

  -- Without a session, a message is not sent but waits.
  send_message-queues :
      (ids : PeerIdLaws c) (b : Behaviour c) (device : c.PeerId) (text : List ℕ) (msg_id ts : ℕ)
      → find c.peer_eq device b.sessions ≡ none
      → ((send_message c device text msg_id ts b).queue ≡ b.queue)
        × (find c.peer_eq device (send_message c device text msg_id ts b).pending_sends
            ≡ some (waiting b device ++ ((msg_id, text) ∷ [])))
  unfolding send_message
  send_message-queues ids b device text msg_id ts gone =
      (rw (gone, send_message) refl, rw (gone, ids.eq_refl device, send_message) refl)

  -- The behaviour after a frame that the session of the device refused with this error.
  abbrev dropped : c.PeerId → SessionError → Behaviour c → Behaviour c
  dropped device e b =
      push c (generate_event (handshake_failed device (session_error e)))
        (record b { sessions = delete c.peer_eq device b.sessions })

  -- When a connection of a known device with a session delivers a session frame that is of
  -- another session, or has another number than the expected one, or does not open, then the
  -- session is removed and one failure event is queued; after that, the session frames that
  -- connections of its transport id deliver, however many, change nothing, and a message to the
  -- device is put behind those waiting for it and not sent. The equality test of peer ids is
  -- taken to decide equality.
  pub refused_ends_conversation :
      (ids : PeerIdLaws c) (b : Behaviour c) (transport device : c.PeerId) (bound : Bound c)
      (a : Arrival) (later : List Arrival) (text : List ℕ) (msg_id ts : ℕ)
      → device_of c b transport ≡ some device
      → find c.peer_eq device b.sessions ≡ some bound
      → Unacceptable bound.session a.frame
      → AllSession (a ∷ later)
      → (b' : Behaviour c) × (e : SessionError) × (on_handler_event c transport a.conn
            (frame_received a.frame)
            a.now
            a.draws
            b
          ≡ some b')
        × (receive transport later b' ≡ some b')
        × (has_session c b' device ≡ false)
        × (b'.queue ≡ b.queue ++ (generate_event (handshake_failed device (session_error e)) ∷ []))
        × ((send_message c device text msg_id ts b').queue ≡ b'.queue)
        × (find c.peer_eq device (send_message c device text msg_id ts b').pending_sends
            ≡ some (waiting b device ++ ((msg_id, text) ∷ [])))
  unfolding on_session_frame device_of has_session
  refused_ends_conversation ids b transport device bound a later text msg_id ts known here bad all =
      let (e, refused) = handle_frame-refuses bound.session a.frame bad in
      let b' = dropped device e b in
      let gone : find c.peer_eq device b'.sessions ≡ none =
        find-delete c.peer_eq device b.sessions in
      let (unsent, queued) = send_message-queues ids b' device text msg_id ts gone in
      (
        b',
        e,
        rw (session_frame-handled b transport a all.0, known, here, refused, on_session_frame) refl,
        receive-ignores b' transport device later known gone all.1,
        rw (gone, has_session) refl,
        refl,
        unsent,
        queued,
      )
