-- ===== src/Node/Events.antt =====
-- src/node.rs: `on_session_event`. `none` is a panic.
use jeangrey.Prelude.{
  and_then, true, Option, some, none, find, delete, member, add, remove, codes, if◌then◌else◌,
}
use jeangrey.Crates.{Crates}
use jeangrey.Records.{Codecs}
use jeangrey.Storage.History.{sent, received}
use jeangrey.Behaviour.State.{
  BehaviourEvent, session_established, handshake_failed, message_received, ack_received,
  observed_addr_reported, dial_back_requested, dial_back_resolved, peer_connected,
  peer_disconnected, transport_of,
}
use jeangrey.Behaviour.Send.{send_dial_back_res}
use jeangrey.Node.State.{Node, Env, append_history, disconnect_peer, issue}
use jeangrey.Node.Probes.{on_observed_addr, on_dial_back_req, on_dial_back_res}
use jeangrey.Node.Discovery.{schedule_reconnect}

module _ (c : Crates) where
  -- A probe whose connection led to a session is answered.
  abbrev pub report_reachable : Env c → c.PeerId → Node c → Option (Node c)
  report_reachable env peer n = elim (find c.peer_eq peer n.pending_probes) [
    | none ↦ some n
    | some probe ↦
        and_then (send_dial_back_res c peer probe.addr true (env.draw 0) n.session) λ session.
          some (record n {
            pending_probes = delete c.peer_eq peer n.pending_probes;
            session = session;
          })
  ]

  unfoldable pub on_session_established : Env c → c.PeerId → Node c → Option (Node c)
  on_session_established env peer n =
      let noted = record n {
        had_session = add c.peer_eq peer n.had_session;
        dialing = remove c.peer_eq peer n.dialing;
      } in
      and_then (report_reachable env peer noted) λ n'.
        some (
          issue c (append_history (sent (c.peer_to_base58 peer) 0 (codes "session-established")))
            n')

  -- The peer may be given by its device or by its transport id.
  unfoldable pub on_handshake_failed : c.PeerId → Node c → Node c
  on_handshake_failed peer n =
      let transport : c.PeerId = elim (transport_of c n.session peer) [
        | none ↦ peer
        | some transport ↦ transport
      ] in
      issue c (disconnect_peer transport) n

  unfoldable pub on_peer_disconnected : Env c → c.PeerId → Node c → Node c
  on_peer_disconnected env peer n =
      let gone = record n {
        connected = remove c.peer_eq peer n.connected;
        pending_probes = delete c.peer_eq peer n.pending_probes;
      } in
      let lost = record gone { had_session = remove c.peer_eq peer n.had_session } in
      if member c.peer_eq peer n.had_session then schedule_reconnect c env peer lost else gone

  unfoldable pub on_session_event : Codecs → Env c → BehaviourEvent c → Node c → Option (Node c)
  unfolding on_session_established on_handshake_failed on_peer_disconnected
  on_session_event x env (session_established peer conn result) n =
      on_session_established env peer n
  on_session_event x env (handshake_failed peer error) n = some (on_handshake_failed peer n)
  on_session_event x env (message_received peer msg_id body ts) n =
      some (issue c (append_history (received (c.peer_to_base58 peer) msg_id)) n)
  on_session_event x env (ack_received peer msg_id ack_seq) n =
      some (issue c (append_history (sent (c.peer_to_base58 peer) msg_id (codes "delivered"))) n)
  on_session_event x env (observed_addr_reported peer ip source_port) n =
      on_observed_addr c env peer ip n
  on_session_event x env (dial_back_requested peer addr) n =
      some (on_dial_back_req c env peer addr n)
  on_session_event x env (dial_back_resolved peer addr reachable) n =
      some (on_dial_back_res c x env peer addr reachable n)
  on_session_event x env (peer_connected peer) n =
      some (record n { connected = add c.peer_eq peer n.connected })
  on_session_event x env (peer_disconnected peer) n = some (on_peer_disconnected env peer n)
