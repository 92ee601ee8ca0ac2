-- ===== src/Node/Maintenance.antt =====
-- src/node.rs: `Node::new` and the periodic maintenance. The two queues are taken from the front up to the
-- first entry that is not due. `none` is a panic.
use jeangrey.Prelude.{
  and_then, ℕ, ◌+◌, ◌-◌, ◌*◌, suc, Bool, true, false, not, ◌&&◌, ◌||◌, Option, some, none, List, [],
  ◌∷◌, ◌++◌, codes, member, add, is_none, ltb, ◌==◌, Result, ok, ok_or, ensure, ◌>>=◌, ◌>>◌,
  if◌then◌else◌,
}
use jeangrey.Crates.{Crates}
use jeangrey.Identity.{DeviceIdentity}
use jeangrey.Records.{Codecs, any, sign_addr_record}
use jeangrey.Behaviour.State.{has_session}
use jeangrey.Behaviour.Send.{connect_unknown}
use jeangrey.Node.State.{
  Node, Env, NodeOptions, NodeError, listen_failed, address_invalid, unknown, BootstrapPeer,
  RetryDial, LookupRetry, secs, elapsed, multiaddrs, bootstrap_peer_id, publish_interval,
  interface_scan_interval, listen_on,
}
use jeangrey.Node.Addresses.{refresh_local_addresses, publish_record}
use jeangrey.Node.Probes.{public_addr_maintenance}
use jeangrey.Node.Discovery.{dial_peer, send_query}

module _ (c : Crates) (x : Codecs) where
  -- `can_listen` is whether the swarm accepts the address.
  unfoldable pub new :
      DeviceIdentity c → NodeOptions → (c.Multiaddr → Bool) → Env c → Result NodeError (Node c)
  new identity options can_listen env = do
    addr ←
        ok_or (c.addr_from_str (codes "/ip4/0.0.0.0/tcp/" ++ c.display_u16 options.listen_port))
          address_invalid
    ensure (can_listen addr) listen_failed
    ok (record {
      session = jeangrey.Behaviour.State.new c identity;
      identity = identity;
      our_record = sign_addr_record c x identity [] env.unix_secs env.coins;
      current_addrs = [];
      last_publish = env.now;
      last_interface_scan = env.now - interface_scan_interval;
      last_bootstrap = env.now - secs 5;
      connected = [];
      bootstrap_pending = options.bootstrap;
      bootstrap_mapped = [];
      bootstrap_dialing = [];
      pending_lookups = [];
      retry_lookups = [];
      dialing = [];
      had_session = [];
      retry_dials = [];
      records = [];
      candidates = [];
      validated_public_addrs = [];
      pending_probes = [];
      listen_port = options.listen_port;
      external_ips = options.external_ips;
      relay = options.relay;
      relay_server = options.relay_server;
      relay_transport = none;
      relay_dialing = false;
      peer_paths = [];
      traversal_attempts = [];
      nat_status = unknown;
      commands = listen_on addr ∷ [];
    })

module _ (c : Crates) where
  -- The queue of `n` is the argument.
  unfoldable pub fire_dials : ℕ → List (RetryDial c) → Node c → Node c
  unfolding dial_peer
  fire_dials now [] n = record n { retry_dials = [] }
  fire_dials now (d ∷ rest) n =
      let covered = has_session c n.session d.peer || member c.peer_eq d.peer n.dialing in
      let skipped = fire_dials now rest n in
      let dialled = fire_dials now rest (dial_peer c d.peer d.transport d.addrs n) in
      if ltb now d.next_at
      then record n { retry_dials = d ∷ rest }
      else (if covered then skipped else dialled)

  unfoldable pub fire_lookups : (ℕ → ℕ) → ℕ → List (LookupRetry c) → Node c → Node c
  fire_lookups draw now [] n = record n { retry_lookups = [] }
  fire_lookups draw now (r ∷ rest) n =
      let fired =
        fire_lookups (λ k. draw (suc k)) now rest
          (send_query c (draw 0) (record { peer = r.peer; attempts = r.attempts }) n) in
      if ltb now r.next_at then record n { retry_lookups = r ∷ rest } else fired

  abbrev pub add_each : List c.Multiaddr → List c.Multiaddr → List c.Multiaddr
  add_each [] addrs = addrs
  add_each (a ∷ rest) addrs = add_each rest (add c.addr_eq a addrs)

  -- One turn of the loop over the bootstrap peers.
  abbrev pub dial_one : BootstrapPeer → c.PeerId → Node c → Node c
  dial_one bp peer n =
      let busy = any (λ a. member c.addr_eq a n.bootstrap_dialing) (multiaddrs c bp) in
      if not (member c.peer_eq peer n.bootstrap_mapped) && not busy
      then record n {
        bootstrap_dialing = add_each (multiaddrs c bp) n.bootstrap_dialing;
        session = connect_unknown c (multiaddrs c bp) n.session;
      }
      else n

  unfoldable pub dial_bootstrap : List BootstrapPeer → Node c → Option (Node c)
  dial_bootstrap [] n = some n
  dial_bootstrap (bp ∷ rest) n =
      and_then (bootstrap_peer_id c bp) λ peer. dial_bootstrap rest (dial_one bp peer n)

  unfoldable pub bootstrap_maintenance : Env c → Node c → Option (Node c)
  unfolding dial_bootstrap
  bootstrap_maintenance env n =
      if env.connected_peers == 0 && elapsed env.now n.last_bootstrap (secs 5)
      then dial_bootstrap n.bootstrap_pending (record n { last_bootstrap = env.now })
      else some n

  -- The relay's id is parsed only where it is logged, which has no effect on a parsed peer.
  unfoldable pub relay_maintenance : Node c → Node c
  relay_maintenance n = elim n.relay [
    | none ↦ n
    | some relay_bp ↦
        if is_none n.relay_transport && not n.relay_dialing
        then record n {
          relay_dialing = true;
          session = connect_unknown c (multiaddrs c relay_bp) n.session;
        }
        else n
  ]

  -- The draws of the three loops are kept apart.
  unfoldable pub maintenance : Codecs → Env c → Node c → Option (Node c)
  unfolding fire_dials fire_lookups bootstrap_maintenance relay_maintenance
  maintenance x env n =
      let n1 = refresh_local_addresses c x env n in
      let n2 =
        if elapsed env.now n1.last_publish publish_interval
        then publish_record c x env n1
        else n1 in
      and_then (public_addr_maintenance c (record env { draw = λ k. env.draw (3 * k) }) n2) λ n3.
        let n4 = fire_dials env.now n3.retry_dials n3 in
        let n5 = fire_lookups (λ k. env.draw (3 * k + 1)) env.now n4.retry_lookups n4 in
        and_then (bootstrap_maintenance env n5) λ n6. some (relay_maintenance n6)
