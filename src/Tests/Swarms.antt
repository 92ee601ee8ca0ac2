-- ===== src/Tests/Swarms.antt =====
-- Swarm events and maintenance at concrete inputs.
use jeangrey.Prelude.{
  ℕ, ◌≡◌, refl, true, false, some, none, List, [], ◌∷◌, ◌++◌, codes, ok, err, find, map,
}
use jeangrey.Behaviour.State.{Behaviour, dial_unknown}
use jeangrey.Behaviour.Send.{connect_unknown}
use jeangrey.Node.State.{
  Node, BootstrapPeer, failed, parse_peer, no_separator, bootstrap_peer_id, multiaddrs,
}
use jeangrey.Node.Discovery.{dial_peer}
use jeangrey.Node.Swarm.{
  on_dcutr, dcutr_event, connection_established, outgoing_connection_error, transport_failures,
  wrong_peer_id, handle_event,
}
use jeangrey.Node.Maintenance.{dial_bootstrap}
use jeangrey.Tests.Toy.{toy}
use jeangrey.Tests.Published.{plain, verified}
use jeangrey.Tests.Nodes.{at_time, fresh_node}

-- The third failed traversal in a row marks the path and clears the count.
abbrev thrice : Node toy
thrice = on_dcutr toy 5 false (on_dcutr toy 5 false (on_dcutr toy 5 false fresh_node))

three_failures : (thrice.peer_paths ≡ (5, failed) ∷ []) × (thrice.traversal_attempts ≡ [])
unfolding on_dcutr
three_failures = (refl, refl)

two_failures :
    (on_dcutr toy 5 false (on_dcutr toy 5 false fresh_node)).traversal_attempts ≡ (5, 2) ∷ []
unfolding on_dcutr
two_failures = refl

-- `a@b` names peer 97 at the address `b`.
parsed : parse_peer toy (codes "a@b") ≡ ok (record { peer_id = 97 ∷ []; addrs = codes "b" ∷ [] })
unfolding parse_peer
parsed = refl

unparsed : parse_peer toy (codes "ab") ≡ err no_separator
unfolding parse_peer
unparsed = refl

abbrev peer_b : BootstrapPeer
peer_b = record { peer_id = 97 ∷ []; addrs = codes "b" ∷ [] }

abbrev joining : Node toy
joining = record fresh_node { bootstrap_pending = peer_b ∷ [] }

-- A bootstrap peer is dialled once while the dial is in flight.
dialled_once :
    dial_bootstrap toy (peer_b ∷ peer_b ∷ []) joining
    ≡ some (record joining {
      bootstrap_dialing = codes "b" ∷ [];
      session = connect_unknown toy (codes "b" ∷ []) joining.session;
    })
unfolding dial_bootstrap bootstrap_peer_id multiaddrs jeangrey.Prelude.bytes_eq
dialled_once = refl

-- A failed dial of a known device drops its only address, and with it the record.
abbrev knowing : Node toy
knowing =
    dial_peer toy 3 5 ((47 ∷ 49 ∷ []) ∷ []) (record fresh_node { records = (3, verified) ∷ [] })

forgotten :
    jeangrey.Prelude.option_map
      (λ (n : Node toy). n.records)
      (handle_event toy plain
        (at_time 9000)
        (outgoing_connection_error (some 5) (transport_failures ((47 ∷ 49 ∷ []) ∷ [])))
        knowing)
    ≡ some []
unfolding handle_event dial_peer jeangrey.Behaviour.Send.connect
    jeangrey.Behaviour.State.map_transport jeangrey.Behaviour.State.device_of
    jeangrey.Behaviour.State.new jeangrey.Node.Swarm.on_outgoing_error
    jeangrey.Node.Swarm.on_device_failure jeangrey.Node.Discovery.invalidate_candidates
    jeangrey.Node.Discovery.schedule_rediscovery jeangrey.Node.Discovery.lookup_in_flight
    jeangrey.Prelude.bytes_eq
forgotten = refl
