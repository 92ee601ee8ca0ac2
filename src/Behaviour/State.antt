-- ===== src/Behaviour/State.antt =====
-- src/transport.rs: the behaviour's state, its queue of commands and its look-ups.
use jeangrey.Prelude.{
  ℕ, Bool, ◌&&◌, Option, some, none, List, [], ◌∷◌, ◌++◌, map, ◌==◌, find, insert, is_none, not,
}
use jeangrey.Crates.{Crates}
use jeangrey.Identity.{DeviceIdentity}
use jeangrey.Framing.{Frame}
use jeangrey.Handshake.Machine.{Handshake, HandshakeResult, HandshakeError}
use jeangrey.Session.State.{Session, IpAddr, SessionError}

-- The `error` text of `HandshakeFailed`.
pub data Failure : Type 0 where
  handshake_error : HandshakeError → Failure
  session_error : SessionError → Failure
  handshake_timed_out : Failure

pub data BehaviourEvent (c : Crates) : Type 0 where
  session_established :
      (peer_id : c.PeerId) (connection_id : ℕ) (result : HandshakeResult c) → BehaviourEvent c
  handshake_failed : (peer_id : c.PeerId) (error : Failure) → BehaviourEvent c
  message_received :
      (peer_id : c.PeerId) (msg_id : ℕ) (body : List ℕ) (ts_ms : ℕ) → BehaviourEvent c
  ack_received : (peer_id : c.PeerId) (msg_id ack_seq : ℕ) → BehaviourEvent c
  observed_addr_reported : (peer_id : c.PeerId) (ip : IpAddr) (source_port : ℕ) → BehaviourEvent c
  dial_back_requested : (peer_id : c.PeerId) (addr : c.Multiaddr) → BehaviourEvent c
  dial_back_resolved :
      (peer_id : c.PeerId) (addr : c.Multiaddr) (reachable : Bool) → BehaviourEvent c
  peer_connected peer_disconnected : (peer_id : c.PeerId) → BehaviourEvent c

-- What the behaviour asks of the swarm. A dial by transport id carries all addresses and goes ahead whatever
-- else is being dialled.
pub data ToSwarm (c : Crates) : Type 0 where
  generate_event : BehaviourEvent c → ToSwarm c
  dial_peer : (transport : c.PeerId) (addrs : List c.Multiaddr) → ToSwarm c
  dial_unknown : (addr : c.Multiaddr) → ToSwarm c
  send_frames : (transport : c.PeerId) (conn : ℕ) (frames : List Frame) → ToSwarm c

-- A session with the connection that it runs on.
pub record Bound (c : Crates) : Type 0 where
  pub transport : c.PeerId
  pub conn : ℕ
  pub session : Session

pub record Behaviour (c : Crates) : Type 0 where
  pub identity : DeviceIdentity c
  pub handshakes : List ((c.PeerId × ℕ) × (Handshake c × Option c.PeerId))
  pub sessions : List (c.PeerId × Bound c)
  pub peer_names : List (c.PeerId × List ℕ)
  pub pending_sends : List (c.PeerId × List (ℕ × List ℕ))
  pub connected : List (c.PeerId × Unit {0})
  pub transport_devices : List (c.PeerId × c.PeerId)
  pub device_transports : List (c.PeerId × c.PeerId)
  pub observed_addrs : List ((c.PeerId × ℕ) × (IpAddr × ℕ))
  pub queue : List (ToSwarm c)

module _ (c : Crates) where
  -- The equality of the keys (transport peer, connection).
  abbrev pub conn_eq : c.PeerId × ℕ → c.PeerId × ℕ → Bool
  conn_eq (p, m) (q, n) = c.peer_eq p q && m == n

  unfoldable pub new : DeviceIdentity c → Behaviour c
  new identity = record {
    identity = identity;
    handshakes = [];
    sessions = [];
    peer_names = [];
    pending_sends = [];
    connected = [];
    transport_devices = [];
    device_transports = [];
    observed_addrs = [];
    queue = [];
  }

  unfoldable pub has_session : Behaviour c → c.PeerId → Bool
  has_session b peer = not (is_none (find c.peer_eq peer b.sessions))

  unfoldable pub peer_name : Behaviour c → c.PeerId → Option (List ℕ)
  peer_name b peer = find c.peer_eq peer b.peer_names

  unfoldable pub transport_of : Behaviour c → c.PeerId → Option c.PeerId
  transport_of b device = find c.peer_eq device b.device_transports

  unfoldable pub device_of : Behaviour c → c.PeerId → Option c.PeerId
  device_of b transport = find c.peer_eq transport b.transport_devices

  unfoldable pub session_peers : Behaviour c → List c.PeerId
  session_peers b = map (λ e. e.0) b.sessions

  -- `unwrap_or(transport)` on the device of a transport id.
  abbrev pub name_of : Behaviour c → c.PeerId → c.PeerId
  name_of b transport = elim (find c.peer_eq transport b.transport_devices) [
    | none ↦ transport
    | some device ↦ device
  ]

  abbrev pub push : ToSwarm c → Behaviour c → Behaviour c
  push command b = record b { queue = b.queue ++ (command ∷ []) }

  unfoldable pub notify_conn : c.PeerId → ℕ → List Frame → Behaviour c → Behaviour c
  notify_conn peer conn frames b = push (send_frames peer conn frames) b

  unfoldable pub map_transport : c.PeerId → c.PeerId → Behaviour c → Behaviour c
  map_transport device transport b = record b {
    transport_devices = insert c.peer_eq transport device b.transport_devices;
    device_transports = insert c.peer_eq device transport b.device_transports;
  }

  -- `get_mut`: the session is changed where it stands.
  abbrev pub put_session : c.PeerId → Bound c → Session → Behaviour c → Behaviour c
  put_session device bound session b = record b {
    sessions = insert c.peer_eq device (record bound { session = session }) b.sessions;
  }
