-- ===== src/Behaviour/Send.antt =====
-- src/transport.rs: dialling, and what is sent over an established session.
use jeangrey.Prelude.{ℕ, Bool, Option, some, none, List, [], ◌∷◌, ◌++◌, ok, err, find, insert}
use jeangrey.Crates.{Crates}
use jeangrey.Framing.{Frame}
use jeangrey.Session.State.{Session, IpAddr}
use jeangrey.Session.Frames.{
  encrypt_message, encrypt_observed_addr, encrypt_dial_back_req, encrypt_dial_back_res,
}
use jeangrey.Behaviour.State.{
  Behaviour, session_error, handshake_failed, generate_event, dial_peer, dial_unknown, push,
  notify_conn, map_transport, put_session,
}

module _ (c : Crates) where
  -- `msg_id` is the random id that the call returns, `ts` the clock.
  unfoldable pub send_message : c.PeerId → List ℕ → ℕ → ℕ → Behaviour c → Behaviour c
  unfolding notify_conn
  send_message peer text msg_id ts b = elim (find c.peer_eq peer b.sessions) [
    | some bound ↦
        let sent = encrypt_message c bound.session text msg_id ts in
        let b' = put_session c peer bound sent.0 b in
        elim sent.1 [
          | ok frame ↦ notify_conn c bound.transport bound.conn (frame ∷ []) b'
          | err e ↦ push c (generate_event (handshake_failed peer (session_error e))) b'
        ]
    | none ↦
        let queued : List (ℕ × List ℕ) = elim (find c.peer_eq peer b.pending_sends) [
          | none ↦ []
          | some waiting ↦ waiting
        ] in
        record b {
          pending_sends = insert c.peer_eq peer (queued ++ ((msg_id, text) ∷ [])) b.pending_sends;
        }
  ]

  unfoldable pub connect : c.PeerId → c.PeerId → List c.Multiaddr → Behaviour c → Behaviour c
  unfolding map_transport
  connect device transport [] b = b
  connect device transport (a ∷ addrs) b =
      push c (dial_peer transport (a ∷ addrs)) (map_transport c device transport b)

  unfoldable pub connect_unknown : List c.Multiaddr → Behaviour c → Behaviour c
  connect_unknown [] b = b
  connect_unknown (a ∷ addrs) b = push c (dial_unknown a) b

  unfoldable pub connect_probe : c.Multiaddr → Behaviour c → Behaviour c
  connect_probe addr b = push c (dial_unknown addr) b

  -- A frame of the session with `peer`, if there is one.
  abbrev pub over_session :
      c.PeerId → (Session → Option (Session × Frame)) → Behaviour c → Option (Behaviour c)
  over_session peer seal_with b = elim (find c.peer_eq peer b.sessions) [
    | none ↦ some b
    | some bound ↦ elim (seal_with bound.session) [
      | none ↦ none
      | some sent ↦ some (
          notify_conn c bound.transport bound.conn (sent.1 ∷ [])
            (put_session c peer bound sent.0 b))
    ]
  ]

  unfoldable pub send_observed_addr : c.PeerId → IpAddr → ℕ → ℕ → Behaviour c → Option (Behaviour c)
  send_observed_addr peer ip source_port msg_id b =
      over_session peer (λ s. encrypt_observed_addr c s ip source_port msg_id) b

  unfoldable pub send_dial_back_req :
      c.PeerId → c.Multiaddr → ℕ → Behaviour c → Option (Behaviour c)
  send_dial_back_req peer addr msg_id b =
      over_session peer (λ s. encrypt_dial_back_req c s addr msg_id) b

  unfoldable pub send_dial_back_res :
      c.PeerId → c.Multiaddr → Bool → ℕ → Behaviour c → Option (Behaviour c)
  send_dial_back_res peer addr reachable msg_id b =
      over_session peer (λ s. encrypt_dial_back_res c s addr reachable msg_id) b
