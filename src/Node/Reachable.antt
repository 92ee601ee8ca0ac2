-- ===== src/Node/Reachable.antt =====
-- src/node.rs: the runs of a node, and what holds throughout them. A run starts with `Node::new` and takes swarm
-- events, rounds of maintenance, interactive commands and the callbacks of its session behaviour
-- (src/transport.rs: connections, handler events, polls) in any order. An event of the behaviour
-- reaches the node as a swarm event; the runs here do not ask that a poll gave it.
use jeangrey.Prelude.{ℕ, ◌≡◌, Bool, Option, some, List, ok}
use jeangrey.Crates.{Crates}
use jeangrey.Identity.{DeviceIdentity}
use jeangrey.Records.{Codecs}
use jeangrey.Behaviour.State.{Behaviour}
use jeangrey.Behaviour.Receive.{HandlerEvent, Draws, on_handler_event}
use jeangrey.Behaviour.Swarm.{on_connection_established, on_connection_closed, poll}
use jeangrey.Node.State.{Node, Env, NodeOptions}
use jeangrey.Node.Discovery.{lookup}
use jeangrey.Node.Swarm.{SwarmEvent, handle_event}
use jeangrey.Node.Maintenance.{new, maintenance}
use jeangrey.Node.Interactive.{on_send, on_tick, Waiters, Replies}

-- One step of a run.
pub data Step (c : Crates) (x : Codecs) : Node c → Node c → Type 0 where
  on_event :
      {n n' : Node c} (env : Env c) (event : SwarmEvent c)
      → handle_event c x env event n ≡ some n'
      → Step c x n n'
  on_interval : {n n' : Node c} (env : Env c) → maintenance c x env n ≡ some n' → Step c x n n'
  on_tick_of :
      {n n' : Node c} (env : Env c) (waiters left : Waiters) (replies : Replies c)
      → on_tick c x env n waiters ≡ some (n', (left, replies))
      → Step c x n n'
  send_command :
      {n : Node c} (peer : c.PeerId) (text : List ℕ) (msg_id ts id : ℕ)
      → Step c x n (on_send c peer text msg_id ts id n)
  lookup_command : {n : Node c} (peer : c.PeerId) (id : ℕ) → Step c x n (lookup c peer id n)
  on_transport_established :
      {n : Node c} (transport : c.PeerId) (conn : ℕ) (send_back : Option c.Multiaddr)
      → Step c x n
          (record n { session = on_connection_established c transport conn send_back n.session })
  on_transport_closed :
      {n : Node c} (transport : c.PeerId) (conn remaining : ℕ)
      → Step c x n
          (record n { session = on_connection_closed c transport conn remaining n.session })
  on_handler :
      {n : Node c} {b : Behaviour c} (transport : c.PeerId) (conn : ℕ) (event : HandlerEvent)
      (now : ℕ) (draws : Draws)
      → on_handler_event c transport conn event now draws n.session ≡ some b
      → Step c x n (record n { session = b })
  on_poll : {n : Node c} (now : ℕ) → Step c x n (record n { session = (poll c now n.session).0 })

pub data Reachable (c : Crates) (x : Codecs) : Node c → Type 0 where
  started :
      {n : Node c} (identity : DeviceIdentity c) (options : NodeOptions)
      (can_listen : c.Multiaddr → Bool) (env : Env c)
      → new c x identity options can_listen env ≡ ok n
      → Reachable c x n
  stepped : {n n' : Node c} → Reachable c x n → Step c x n n' → Reachable c x n'
