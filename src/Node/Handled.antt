-- ===== src/Node/Handled.antt =====
-- src/node.rs: `handle_event` and `maintenance` keep the invariant.
use jeangrey.Prelude.{
  ◌+◌, ◌*◌, ◌≡◌, refl, Bool, true, false, some, arith, EqLaws, Yields, Yields-some, Yields-and_then,
  if-both, if◌then◌else◌,
}
use jeangrey.Crates.{Crates, PeerIdLaws}
use jeangrey.Records.{Codecs}
use jeangrey.Behaviour.State.{
  BehaviourEvent, session_established, handshake_failed, message_received, ack_received,
  observed_addr_reported, dial_back_requested, dial_back_resolved, peer_connected,
  peer_disconnected,
}
use jeangrey.Node.State.{Node, Env, elapsed, publish_interval, add_external_address, issue}
use jeangrey.Node.Addresses.{
  note_listen_addr, note_listen_addr_gone, publish_record, refresh_local_addresses,
}
use jeangrey.Node.Events.{on_session_event, on_handshake_failed}
use jeangrey.Node.Swarm.{
  SwarmEvent, session_event, kad_event, autonat_status, dcutr_event, new_listen_addr,
  expired_listen_addr, connection_established, connection_closed, outgoing_connection_error,
  logged_only, handle_event, on_closed,
}
use jeangrey.Node.Probes.{public_addr_maintenance}
use jeangrey.Node.Maintenance.{maintenance, fire_dials, fire_lookups, bootstrap_maintenance}
use jeangrey.Node.View.{view, view-publish_record, view-refresh_local_addresses}
use jeangrey.Node.Frames.{
  view-on_dial_back_req, view-on_session_established, view-on_established, view-fire_dials,
  view-bootstrap_maintenance, view-relay_maintenance,
}
use jeangrey.Node.Invariant.{Sound, Sound-view, fire_lookups-Sound}
use jeangrey.Node.Preserved.{
  on_kad_event-Sound, on_dcutr-Sound, on_peer_disconnected-Sound, on_outgoing_error-Sound,
}
use jeangrey.Node.Others.{
  on_observed_addr-Sound, on_dial_back_res-Sound, public_addr_maintenance-Sound,
}

module _ (c : Crates) (x : Codecs) (ids : PeerIdLaws c) (laws : EqLaws c.addr_eq) where
  on_session_event-Sound :
      (env : Env c) (event : BehaviourEvent c) (n : Node c)
      → Sound c laws n
      → Yields (Sound c laws) (on_session_event c x env event n)
  unfolding on_session_event on_handshake_failed
  on_session_event-Sound env (session_established peer conn result) n s = record {
    result = λ n' h. Sound-view c laws n n' (view-on_session_established c env peer n n' h) s;
  }
  on_session_event-Sound env (handshake_failed peer error) n s =
      Yields-some (Sound c laws) _ (Sound-view c laws n _ refl s)
  on_session_event-Sound env (message_received peer msg_id body ts) n s =
      Yields-some (Sound c laws) _ (Sound-view c laws n _ refl s)
  on_session_event-Sound env (ack_received peer msg_id ack_seq) n s =
      Yields-some (Sound c laws) _ (Sound-view c laws n _ refl s)
  on_session_event-Sound env (observed_addr_reported peer ip source_port) n s =
      on_observed_addr-Sound c laws env peer ip n s
  on_session_event-Sound env (dial_back_requested peer addr) n s =
      Yields-some (Sound c laws) _
        (Sound-view c laws n _ (view-on_dial_back_req c env peer addr n) s)
  on_session_event-Sound env (dial_back_resolved peer addr reachable) n s =
      Yields-some (Sound c laws) _ (on_dial_back_res-Sound c laws x env peer addr reachable n s)
  on_session_event-Sound env (peer_connected peer) n s =
      Yields-some (Sound c laws) _ (Sound-view c laws n _ refl s)
  on_session_event-Sound env (peer_disconnected peer) n s =
      Yields-some (Sound c laws) _ (on_peer_disconnected-Sound c laws env peer n s)

  publish_if-Sound :
      (env : Env c) (changed : Bool) (n : Node c)
      → Sound c laws n
      → Yields (Sound c laws) (some (if changed then publish_record c x env n else n))
  publish_if-Sound env true n s =
      Yields-some (Sound c laws) _ (Sound-view c laws n _ (view-publish_record c x env n) s)
  publish_if-Sound env false n s = Yields-some (Sound c laws) _ s

  view-note_listen_addr :
      (addr : c.Multiaddr) (n : Node c) → view (note_listen_addr c addr n).1 ≡ view n
  unfolding note_listen_addr
  view-note_listen_addr addr n = ground arith

  pub handle_event-Sound :
      (env : Env c) (event : SwarmEvent c) (n : Node c)
      → Sound c laws n
      → Yields (Sound c laws) (handle_event c x env event n)
  unfolding handle_event note_listen_addr_gone on_closed
  handle_event-Sound env (session_event event) n s = on_session_event-Sound env event n s
  handle_event-Sound env (kad_event id result) n s =
      on_kad_event-Sound c laws x ids env id result n s
  handle_event-Sound env (autonat_status status) n s =
      Yields-some (Sound c laws) _ (Sound-view c laws n _ refl s)
  handle_event-Sound env (dcutr_event remote succeeded) n s =
      Yields-some (Sound c laws) _ (on_dcutr-Sound c laws remote succeeded n s)
  handle_event-Sound env (new_listen_addr addr) n s =
      let served : Node c = if n.relay_server then issue c (add_external_address addr) n else n in
      let served_s : Sound c laws served =
        if-both (Sound c laws) n.relay_server _ _ (Sound-view c laws n _ refl s) s in
      publish_if-Sound env (note_listen_addr c addr served).0 (note_listen_addr c addr served).1
        (Sound-view c laws served _ (view-note_listen_addr addr served) served_s)
  handle_event-Sound env (expired_listen_addr addr) n s =
      publish_if-Sound env (note_listen_addr_gone c addr n).0 (note_listen_addr_gone c addr n).1
        (Sound-view c laws n _ refl s)
  handle_event-Sound env (connection_established transport dialed is_relayed) n s = record {
    result = λ n' h.
        Sound-view c laws n n' (view-on_established c x env transport dialed is_relayed n n' h) s;
  }
  handle_event-Sound env (connection_closed transport dialed remaining) n s =
      Yields-some (Sound c laws) _ (Sound-view c laws n _ refl s)
  handle_event-Sound env (outgoing_connection_error transport error) n s =
      on_outgoing_error-Sound c laws env transport error n s
  handle_event-Sound env logged_only n s = Yields-some (Sound c laws) n s

  pub maintenance-Sound :
      (env : Env c) (n : Node c) → Sound c laws n → Yields (Sound c laws) (maintenance c x env n)
  unfolding maintenance
  maintenance-Sound env n s =
      let n1 : Node c = refresh_local_addresses c x env n in
      let s1 = Sound-view c laws n n1 (view-refresh_local_addresses c x env n) s in
      let s2 =
        if-both (Sound c laws) (elapsed env.now n1.last_publish publish_interval) _ _
          (Sound-view c laws n1 _ (view-publish_record c x env n1) s1) s1 in
      let n2 : Node c =
        if elapsed env.now n1.last_publish publish_interval
        then publish_record c x env n1
        else n1 in
      let env3 : Env c = record env { draw = λ k. env.draw (3 * k) } in
      Yields-and_then (Sound c laws) (public_addr_maintenance c env3 n2) _ λ n3 e3.
        let s3 = (public_addr_maintenance-Sound c laws env3 n2 s2).result n3 e3 in
        let n4 : Node c = fire_dials c env.now n3.retry_dials n3 in
        let s4 = Sound-view c laws n3 n4 (view-fire_dials c env.now n3.retry_dials n3) s3 in
        let n5 : Node c = fire_lookups c (λ k. env.draw (3 * k + 1)) env.now n4.retry_lookups n4 in
        let s5 =
          fire_lookups-Sound c laws (λ k. env.draw (3 * k + 1)) env.now n4.retry_lookups n4
            s4.retries s4 in
        Yields-and_then (Sound c laws) (bootstrap_maintenance c env n5) _ λ n6 e6.
          Yields-some (Sound c laws) _ (
            Sound-view c laws n6 _ (view-relay_maintenance c n6)
              (Sound-view c laws n5 n6 (view-bootstrap_maintenance c env n5 n6 e6) s5))
