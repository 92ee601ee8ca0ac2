-- ===== src/Behaviour/Receive.antt =====
-- src/transport.rs: what the handler of a connection reports: its substream is ready, a frame was read, the
-- substream closed.
use jeangrey.Prelude.{
  ℕ, ◌+◌, Option, some, none, List, [], ◌∷◌, ok, err, find, insert, delete, if◌then◌else◌,
}
use jeangrey.Crates.{Crates}
use jeangrey.Framing.{Frame, is_session_frame}
use jeangrey.Handshake.Machine.{
  Handshake, HandshakeResult, Fault, panicked, failed, Action, send_frames, complete, on_frame,
}
use jeangrey.Session.State.{
  Session, message_in, ack_in, observed_addr, dial_back_req, dial_back_res,
}
use jeangrey.Session.Frames.{encrypt_message, encrypt_ack, handle_frame}
use jeangrey.Session.Establish.{open_session}
use jeangrey.Behaviour.State.{
  Behaviour, session_error, handshake_error, generate_event, conn_eq, push, notify_conn,
  put_session, device_of, name_of, session_established, handshake_failed, message_received,
  ack_received, observed_addr_reported, dial_back_requested, dial_back_resolved,
}
use jeangrey.Behaviour.Send.{send_observed_addr}
use jeangrey.Handshake.Machine

-- The random numbers and clock readings of one call; `clock n` is the reading for the n-th queued message.
pub record Draws : Type 0 where
  pub coins : ℕ
  pub msg_id : ℕ
  pub ts : ℕ
  pub clock : ℕ → ℕ

pub data HandlerEvent : Type 0 where
  substream_ready : HandlerEvent
  frame_received : Frame → HandlerEvent
  stream_closed : HandlerEvent

module _ (c : Crates) where
  -- The queued messages of a device, sealed one after the other; one that cannot be sealed is left out.
  abbrev pub seal_all : (ℕ → ℕ) → Session → List (ℕ × List ℕ) → Session × List Frame
  seal_all clock s [] = (s, [])
  seal_all clock s ((msg_id, text) ∷ rest) =
      let sent = encrypt_message c s text msg_id (clock 0) in
      let later = seal_all (λ n. clock (n + 1)) sent.0 rest in
      elim sent.1 as (λ _. Session × List Frame) [
        | ok frame ↦ (later.0, frame ∷ later.1)
        | err e ↦ later
      ]

  unfoldable pub flush_pending_sends : c.PeerId → c.PeerId → ℕ → (ℕ → ℕ) → Behaviour c → Behaviour c
  flush_pending_sends device transport conn clock b = elim (find c.peer_eq device b.pending_sends) [
    | none ↦ b
    | some queue ↦
        let b' = record b { pending_sends = delete c.peer_eq device b.pending_sends } in
        elim (find c.peer_eq device b'.sessions) [
          | none ↦ b'
          | some bound ↦
              let sealed = seal_all clock bound.session queue in
              notify_conn c transport conn sealed.1 (put_session c device bound sealed.0 b')
        ]
  ]

  unfoldable pub on_session_frame :
      c.PeerId → ℕ → Frame → Draws → Behaviour c → Option (Behaviour c)
  on_session_frame transport conn frame draws b = elim (device_of c b transport) [
    | none ↦ some b
    | some device ↦ elim (find c.peer_eq device b.sessions) [
      | none ↦ some b
      | some bound ↦
          let handled = handle_frame c bound.session frame in
          let b' = put_session c device bound handled.0 b in
          elim handled.1 [
            | ok (message_in seq msg_id created_ts_ms body) ↦
                elim (encrypt_ack c handled.0 msg_id seq draws.ts draws.msg_id) [
                  | none ↦ none
                  | some sent ↦ some (
                      push c (generate_event (message_received device msg_id body created_ts_ms)) (
                        notify_conn c transport conn (sent.1 ∷ [])
                          (put_session c device bound sent.0 b)))
                ]
            | ok (ack_in msg_id ack_seq) ↦
                some (push c (generate_event (ack_received device msg_id ack_seq)) b')
            | ok (observed_addr seq ip source_port) ↦
                some (push c (generate_event (observed_addr_reported device ip source_port)) b')
            | ok (dial_back_req seq addr) ↦
                some (push c (generate_event (dial_back_requested device addr)) b')
            | ok (dial_back_res seq addr reachable) ↦
                some (push c (generate_event (dial_back_resolved device addr reachable)) b')
            | err e ↦ some (
                push c (generate_event (handshake_failed device (session_error e)))
                  (record b { sessions = delete c.peer_eq device b.sessions }))
          ]
    ]
  ]

  -- A completed handshake: everything is keyed by the device from here on.
  unfoldable pub establish :
      c.PeerId → ℕ → HandshakeResult c → Draws → Behaviour c → Option (Behaviour c)
  establish transport conn result draws b =
      let device = result.peer_id in
      let b' = flush_pending_sends device transport conn draws.clock (record b {
        handshakes = delete (conn_eq c) (transport, conn) b.handshakes;
        transport_devices = insert c.peer_eq transport device b.transport_devices;
        device_transports = insert c.peer_eq device transport b.device_transports;
        peer_names = insert c.peer_eq device result.peer_hello.user_name b.peer_names;
        sessions =
            insert c.peer_eq device
              (record { transport = transport; conn = conn; session = open_session c result })
              b.sessions;
      }) in
      let reported : Option (Behaviour c) =
        elim (find (conn_eq c) (transport, conn) b'.observed_addrs) [
          | none ↦ some b'
          | some (ip, source_port) ↦
              send_observed_addr c device ip source_port draws.msg_id (record b' {
                observed_addrs = delete (conn_eq c) (transport, conn) b'.observed_addrs;
              })
        ] in
      elim reported [
        | none ↦ none
        | some b'' ↦ some (push c (generate_event (session_established device conn result)) b'')
      ]

  unfoldable pub on_connection_frame :
      c.PeerId → ℕ → Frame → Draws → Behaviour c → Option (Behaviour c)
  on_connection_frame transport conn frame draws b =
      if is_session_frame frame
      then on_session_frame transport conn frame draws b
      else elim (find (conn_eq c) (transport, conn) b.handshakes) [
        | none ↦ some b
        | some (hs, expected) ↦ elim (on_frame c hs b.identity draws.coins frame) [
          | ok (hs', send_frames frames) ↦ some (
              notify_conn c transport conn frames (record b {
                handshakes = insert (conn_eq c) (transport, conn) (hs', expected) b.handshakes;
              }))
          | ok (hs', complete result) ↦ establish transport conn result draws b
          | err panicked ↦ none
          | err (failed e) ↦ some (
              push c (generate_event (handshake_failed (name_of c b transport) (handshake_error e)))
                (record b { handshakes = delete (conn_eq c) (transport, conn) b.handshakes }))
        ]
      ]

  -- `now` is the clock at which a handshake starts.
  unfoldable pub on_handler_event :
      c.PeerId → ℕ → HandlerEvent → ℕ → Draws → Behaviour c → Option (Behaviour c)
  on_handler_event transport conn substream_ready now draws b =
      elim (find (conn_eq c) (transport, conn) b.handshakes) [
        | some entry ↦ some b
        | none ↦
            let expected = device_of c b transport in
            let (hs, hello) = Machine.new c b.identity expected now in
            some (
              notify_conn c transport conn (hello ∷ []) (record b {
                handshakes = insert (conn_eq c) (transport, conn) (hs, expected) b.handshakes;
              }))
      ]
  on_handler_event transport conn (frame_received frame) now draws b =
      on_connection_frame transport conn frame draws b
  on_handler_event transport conn stream_closed now draws b =
      some (record b { handshakes = delete (conn_eq c) (transport, conn) b.handshakes })
