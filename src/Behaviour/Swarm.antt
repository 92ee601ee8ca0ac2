-- ===== src/Behaviour/Swarm.antt =====
-- src/transport.rs: connections that come and go, and the behaviour's `poll`. Of a connection only its peer, its
-- number and, if it is inbound, the dialler's address are used.
use jeangrey.Prelude.{
  ℕ, ◌&&◌, Option, some, none, List, [], ◌∷◌, ◌==◌, find, insert, delete, if◌then◌else◌,
}
use jeangrey.Crates.{Crates, Protocol, ip4, ip6, tcp}
use jeangrey.Handshake.Machine.{Handshake, timed_out}
use jeangrey.Session.State.{IpAddr, v4, v6}
use jeangrey.Behaviour.State.{
  Behaviour, handshake_timed_out, handshake_failed, peer_connected, peer_disconnected, ToSwarm,
  generate_event, conn_eq, push, device_of, name_of,
}

module _ (c : Crates) where
  -- The first address and the first port of a multiaddr.
  abbrev pub first_ip : List (Protocol c.PeerId) → Option IpAddr
  first_ip [] = none
  first_ip (ip4 octets ∷ rest) = some (v4 octets)
  first_ip (ip6 octets ∷ rest) = some (v6 octets)
  first_ip (_ ∷ rest) = first_ip rest

  abbrev pub first_port : List (Protocol c.PeerId) → ℕ
  first_port [] = 0
  first_port (tcp port ∷ rest) = port
  first_port (_ ∷ rest) = first_port rest

  -- `send_back` is the dialler's address on an inbound connection.
  unfoldable pub on_connection_established :
      c.PeerId → ℕ → Option c.Multiaddr → Behaviour c → Behaviour c
  on_connection_established peer conn send_back b =
      let observed : List ((c.PeerId × ℕ) × (IpAddr × ℕ)) = elim send_back [
        | none ↦ b.observed_addrs
        | some addr ↦ elim (first_ip (c.protocols addr)) [
          | none ↦ b.observed_addrs
          | some ip ↦
              insert (conn_eq c) (peer, conn) (ip, first_port (c.protocols addr)) b.observed_addrs
        ]
      ] in
      push c (generate_event (peer_connected (name_of c b peer)))
        (record b { connected = insert c.peer_eq peer tt b.connected; observed_addrs = observed })

  abbrev pub forget_name : Option c.PeerId → Behaviour c → Behaviour c
  forget_name none b = b
  forget_name (some device) b = record b { peer_names = delete c.peer_eq device b.peer_names }

  unfoldable pub on_connection_closed : c.PeerId → ℕ → (remaining : ℕ) → Behaviour c → Behaviour c
  on_connection_closed transport conn remaining b =
      let who = name_of c b transport in
      let b1 = record b {
        observed_addrs = delete (conn_eq c) (transport, conn) b.observed_addrs;
        connected = delete c.peer_eq transport b.connected;
        handshakes = delete (conn_eq c) (transport, conn) b.handshakes;
      } in
      let b2 : Behaviour c = elim (find c.peer_eq who b1.sessions) [
        | none ↦ b1
        | some bound ↦
            if bound.conn == conn && c.peer_eq bound.transport transport
            then forget_name (device_of c b transport)
                (record b1 { sessions = delete c.peer_eq who b1.sessions })
            else b1
      ] in
      if remaining == 0 then push c (generate_event (peer_disconnected who)) b2 else b2

  -- The connections whose handshake is in flight for too long.
  abbrev pub expired :
      ℕ → List ((c.PeerId × ℕ) × (Handshake c × Option c.PeerId)) → List (c.PeerId × ℕ)
  expired now [] = []
  expired now ((key, (hs, e)) ∷ rest) =
      let others = expired now rest in if timed_out c hs now then key ∷ others else others

  abbrev pub expire_all : List (c.PeerId × ℕ) → Behaviour c → Behaviour c
  expire_all [] b = b
  expire_all ((transport, conn) ∷ rest) b = expire_all rest (
      push c (generate_event (handshake_failed (name_of c b transport) handshake_timed_out))
        (record b { handshakes = delete (conn_eq c) (transport, conn) b.handshakes }))

  -- The behaviour after the poll, and the command that it gives, if any.
  unfoldable pub poll : ℕ → Behaviour c → Behaviour c × Option (ToSwarm c)
  poll now b =
      let b' = expire_all (expired now b.handshakes) b in
      elim b'.queue as (λ _. Behaviour c × Option (ToSwarm c)) [
        | [] ↦ (b', none)
        | command ∷ rest ↦ (record b' { queue = rest }, some command)
      ]
