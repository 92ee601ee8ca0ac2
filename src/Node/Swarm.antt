-- ===== src/Node/Swarm.antt =====
-- src/node.rs: `handle_event`. Events that are only logged (identify, relay reservations, failed incoming
-- connections) are one case. Whether an endpoint is relayed is libp2p's answer. `none` is a panic.
use jeangrey.Prelude.{
  and_then, retain, ℕ, ◌+◌, Bool, true, false, not, Option, some, none, List, [], ◌∷◌, find, insert,
  delete, member, add, remove, is_none, leb, ◌==◌, if◌then◌else◌,
}
use jeangrey.Crates.{Crates}
use jeangrey.Records.{Codecs, any}
use jeangrey.Behaviour.State.{BehaviourEvent, device_of, map_transport}
use jeangrey.Node.State.{
  Node, Env, BootstrapPeer, direct, relayed, disconnected, failed, NatStatus, add_address,
  remove_address, listen_on, add_external_address, issue, multiaddrs, bootstrap_peer_id,
  lookup_retry_delay, max_traversal_attempts,
}
use jeangrey.Node.Addresses.{note_listen_addr, note_listen_addr_gone, publish_record, bootstrap_kad}
use jeangrey.Node.Probes.{handle_probe_failure}
use jeangrey.Node.Discovery.{QueryResult, on_kad_event, invalidate_candidates, schedule_rediscovery}
use jeangrey.Node.Events.{on_session_event}

-- `DialError`, with the addresses of its failed attempts.
pub data DialError (Multiaddr : Type 0) : Type 0 where
  transport_failures : List Multiaddr → DialError Multiaddr
  wrong_peer_id other_failure : DialError Multiaddr

pub data SwarmEvent (c : Crates) : Type 0 where
  session_event : BehaviourEvent c → SwarmEvent c
  kad_event : (id : ℕ) → QueryResult → SwarmEvent c
  autonat_status : NatStatus → SwarmEvent c
  dcutr_event : (remote : c.PeerId) (succeeded : Bool) → SwarmEvent c
  new_listen_addr expired_listen_addr : (addr : c.Multiaddr) → SwarmEvent c
  -- `dialed` is the address of a dialler's endpoint
  connection_established :
      (transport : c.PeerId) (dialed : Option c.Multiaddr) (is_relayed : Bool) → SwarmEvent c
  connection_closed :
      (transport : c.PeerId) (dialed : Option c.Multiaddr) (remaining : ℕ) → SwarmEvent c
  outgoing_connection_error : (transport : Option c.PeerId) → DialError c.Multiaddr → SwarmEvent c
  logged_only : SwarmEvent c

module _ (c : Crates) where
  unfoldable pub on_dcutr : c.PeerId → Bool → Node c → Node c
  on_dcutr remote true n =
      let counted = record n {
        traversal_attempts = delete c.peer_eq remote n.traversal_attempts;
      } in
      if is_none (find c.peer_eq remote n.traversal_attempts)
      then record counted { peer_paths = insert c.peer_eq remote direct n.peer_paths }
      else counted
  on_dcutr remote false n =
      let before : ℕ = elim (find c.peer_eq remote n.traversal_attempts) [
        | none ↦ 0
        | some k ↦ k
      ] in
      if leb max_traversal_attempts (before + 1)
      then record n {
        traversal_attempts = delete c.peer_eq remote n.traversal_attempts;
        peer_paths = insert c.peer_eq remote failed n.peer_paths;
      }
      else record n {
        traversal_attempts = insert c.peer_eq remote (before + 1) n.traversal_attempts;
      }

  abbrev pub has_addr : c.Multiaddr → BootstrapPeer → Bool
  has_addr addr bp = member c.addr_eq addr (multiaddrs c bp)

  abbrev pub reserve_all : c.PeerId → List c.Multiaddr → Node c → Node c
  reserve_all transport [] n = n
  reserve_all transport (a ∷ rest) n =
      reserve_all transport rest (issue c (listen_on (c.with_circuit a transport)) n)

  -- The first connection to an address of the relay gives its transport id.
  unfoldable pub resolve_relay : c.PeerId → c.Multiaddr → Node c → Option (Node c)
  resolve_relay transport address n = elim n.relay_transport [
    | some known ↦ some n
    | none ↦ elim n.relay [
      | none ↦ some n
      | some relay_bp ↦
          if not (has_addr address relay_bp)
          then some n
          else (and_then (bootstrap_peer_id c relay_bp) λ device. some (
              reserve_all transport (multiaddrs c relay_bp) (record n {
                relay_transport = some transport;
                relay_dialing = false;
                session = map_transport c device transport n.session;
              })))
    ]
  ]

  abbrev pub bootstrap_at : c.Multiaddr → List BootstrapPeer → Option BootstrapPeer
  bootstrap_at address [] = none
  bootstrap_at address (bp ∷ rest) =
      if has_addr address bp then some bp else bootstrap_at address rest

  -- The first connection to a bootstrap peer gives its transport id.
  unfoldable pub resolve_bootstrap :
      Codecs → Env c → c.PeerId → c.Multiaddr → Node c → Option (Node c)
  resolve_bootstrap x env transport address n = elim (bootstrap_at address n.bootstrap_pending) [
    | none ↦ some n
    | some bp ↦ and_then (bootstrap_peer_id c bp) λ device.
        if member c.peer_eq device n.bootstrap_mapped
        then some n
        else some (
            publish_record c x env (
              bootstrap_kad c env (
                issue c (add_address transport address) (record n {
                  bootstrap_mapped = add c.peer_eq device n.bootstrap_mapped;
                  bootstrap_dialing = retain (λ a. not (has_addr a bp)) n.bootstrap_dialing;
                  session = map_transport c device transport n.session;
                }))))
  ]

  unfoldable pub on_established :
      Codecs → Env c → c.PeerId → Option c.Multiaddr → Bool → Node c → Option (Node c)
  unfolding resolve_relay resolve_bootstrap
  on_established x env transport dialed is_relayed n =
      let resolved : Option (Node c) = elim dialed [
        | none ↦ some n
        | some address ↦
            and_then (resolve_relay transport address n) (resolve_bootstrap x env transport address)
      ] in
      and_then resolved λ n'. some (record n' {
        peer_paths =
            insert c.peer_eq transport (if is_relayed then relayed else direct) n'.peer_paths;
      })

  unfoldable pub on_closed : c.PeerId → Option c.Multiaddr → ℕ → Node c → Node c
  on_closed transport dialed remaining n = record n {
    dialing = elim (device_of c n.session transport) [
      | none ↦ n.dialing
      | some device ↦ remove c.peer_eq device n.dialing
    ];
    bootstrap_dialing = elim dialed [
      | none ↦ n.bootstrap_dialing
      | some address ↦ remove c.addr_eq address n.bootstrap_dialing
    ];
    peer_paths =
        if remaining == 0
        then insert c.peer_eq transport disconnected n.peer_paths
        else n.peer_paths;
  }

  abbrev pub addrs_of : DialError c.Multiaddr → List c.Multiaddr
  addrs_of (transport_failures addrs) = addrs
  addrs_of wrong_peer_id = []
  addrs_of other_failure = []

  abbrev pub remove_each : List c.Multiaddr → List c.Multiaddr → List c.Multiaddr
  remove_each [] addrs = addrs
  remove_each (a ∷ rest) addrs = remove_each rest (remove c.addr_eq a addrs)

  abbrev pub unroute_each : c.PeerId → List c.Multiaddr → Node c → Node c
  unroute_each transport [] n = n
  unroute_each transport (a ∷ rest) n =
      unroute_each transport rest (issue c (remove_address transport a) n)

  -- A dial without a transport id: of a bootstrap peer, of the relay or of a probe.
  unfoldable pub on_peerless_failure : Env c → List c.Multiaddr → Node c → Option (Node c)
  on_peerless_failure env attempted n =
      let relay_dialing : Bool = elim n.relay [
        | none ↦ n.relay_dialing
        | some relay_bp ↦
            if any (λ a. has_addr a relay_bp) attempted then false else n.relay_dialing
      ] in
      handle_probe_failure c env attempted (record n {
        bootstrap_dialing = remove_each attempted n.bootstrap_dialing;
        relay_dialing = relay_dialing;
      })

  -- A failed dial of a known device drops the addresses that were tried.
  unfoldable pub on_device_failure : Env c → c.PeerId → DialError c.Multiaddr → Node c → Node c
  on_device_failure env device error n =
      let dropped : Node c = elim (addrs_of error) [
        | [] ↦ n
        | a ∷ rest ↦
            schedule_rediscovery c env device lookup_retry_delay
              (invalidate_candidates c device (a ∷ rest) n)
      ] in
      record dropped { dialing = remove c.peer_eq device dropped.dialing }

  abbrev pub drop_record : DialError c.Multiaddr → c.PeerId → Node c → Node c
  drop_record wrong_peer_id device n = record n { records = delete c.peer_eq device n.records }
  drop_record other_failure device n = n
  drop_record (transport_failures addrs) device n = n

  unfoldable pub on_outgoing_error :
      Env c → Option c.PeerId → DialError c.Multiaddr → Node c → Option (Node c)
  unfolding on_peerless_failure on_device_failure
  on_outgoing_error env none error n = on_peerless_failure env (addrs_of error) n
  on_outgoing_error env (some transport) error n = elim (device_of c n.session transport) [
    | none ↦ some (unroute_each transport (addrs_of error) n)
    | some device ↦ some (
        on_device_failure env device error
          (unroute_each transport (addrs_of error) (drop_record error device n)))
  ]

  unfoldable pub handle_event : Codecs → Env c → SwarmEvent c → Node c → Option (Node c)
  unfolding on_dcutr on_established on_closed on_outgoing_error
  handle_event x env (session_event event) n = on_session_event c x env event n
  handle_event x env (kad_event id result) n = on_kad_event c x env id result n
  handle_event x env (autonat_status status) n = some (record n { nat_status = status })
  handle_event x env (dcutr_event remote succeeded) n = some (on_dcutr remote succeeded n)
  handle_event x env (new_listen_addr addr) n =
      let served = if n.relay_server then issue c (add_external_address addr) n else n in
      let noted = note_listen_addr c addr served in
      some (if noted.0 then publish_record c x env noted.1 else noted.1)
  handle_event x env (expired_listen_addr addr) n =
      let noted = note_listen_addr_gone c addr n in
      some (if noted.0 then publish_record c x env noted.1 else noted.1)
  handle_event x env (connection_established transport dialed is_relayed) n =
      on_established x env transport dialed is_relayed n
  handle_event x env (connection_closed transport dialed remaining) n =
      some (on_closed transport dialed remaining n)
  handle_event x env (outgoing_connection_error transport error) n =
      on_outgoing_error env transport error n
  handle_event x env logged_only n = some n
