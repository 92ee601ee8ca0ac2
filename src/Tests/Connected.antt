-- ===== src/Tests/Connected.antt =====
-- A node that completes a handshake in a run.
use jeangrey.Prelude.{
  ℕ, ◌≡◌, refl, true, none, some, List, [], ◌∷◌, replicate, Option, and_then, and_then_inv,
  some-injective, subst, find, member, AllValues, Every, ◌≤◌, ◌<◌,
}
use jeangrey.Framing.{MessageType, Frame, handshake}
use jeangrey.Identity.{DeviceIdentity}
use jeangrey.Handshake.Machine
use jeangrey.Behaviour.State.{Behaviour, has_session, observed_addr_reported, dial_back_resolved}
use jeangrey.Behaviour.Receive.{
  Draws, HandlerEvent, substream_ready, frame_received, on_handler_event,
}
use jeangrey.Node.Candidates.{live, certain}
use jeangrey.Node.Invariant.{InBudget}
use jeangrey.Node.Discovery.{lookup}
use jeangrey.Node.Reachable.{
  Reachable, stepped, on_event, on_transport_established, on_handler, lookup_command,
}
use jeangrey.Node.Runs.{published-Live, attempts-InBudget}
use jeangrey.Tests.Toy.{toy, toy-PeerIdLaws, toy-keys}
use jeangrey.Session.State.{v4}
use jeangrey.Behaviour.Swarm.{on_connection_established}
use jeangrey.Node.State.{Node, max_traversal_attempts}
use jeangrey.Node.Swarm.{session_event, handle_event}
use jeangrey.Tests.Published.{plain}
use jeangrey.Tests.Nodes.{fresh_node, fresh-Reachable, at_time, seen_addr}

abbrev other : DeviceIdentity toy
other = record {
  user = record { user_id = []; user_name = 98 ∷ [] };
  secret_key = 4;
  verifying_key = 4;
  device_uuid = replicate 16 4;
  transport_peer_id = 4;
  peer_id = 4;
}

abbrev draws : Draws
draws = record { coins = 10; msg_id = 5; ts = 2000; clock = λ n. 2000 }

abbrev hello : Frame
hello = (Machine.new toy other none 0).1

abbrev feed : List HandlerEvent → Behaviour toy → Option (Behaviour toy)
feed [] b = some b
feed (e ∷ es) b = and_then (on_handler_event toy 70 1 e 0 draws b) (feed es)

-- What device 4 sends after its hello.
abbrev answers : List HandlerEvent
answers =
    frame_received (handshake MessageType.kem_offer (toy.kem_generate 20).0)
    ∷ frame_received (handshake MessageType.kem_response (21 ∷ replicate 1087 0))
    ∷ frame_received (handshake MessageType.auth (toy.sign 4 [] 22))
    ∷ frame_received (handshake MessageType.ready (replicate 16 48))
    ∷ []

-- The node once the transport connection is there.
abbrev linked : Node toy
linked = record fresh_node { session = on_connection_established toy 70 1 none fresh_node.session }

abbrev talking : Option (Behaviour toy)
talking = feed (substream_ready ∷ frame_received hello ∷ answers) linked.session

abbrev or_fresh : Option (Node toy) → Node toy
or_fresh none = fresh_node
or_fresh (some n) = n

abbrev or_new : Option (Behaviour toy) → Behaviour toy
or_new none = fresh_node.session
or_new (some b) = b

abbrev in_session : Node toy
in_session = record linked { session = or_new talking }

-- Device 4 reports our address, and after the request to dial it back that it can be reached.
abbrev seen : Option (Node toy)
seen =
    handle_event toy plain (at_time 7000)
      (session_event (observed_addr_reported 4 (v4 (1 ∷ 2 ∷ 3 ∷ 4 ∷ [])) 55)) in_session

abbrev listed : Option (Node toy)
listed =
    handle_event toy plain (at_time 8000) (session_event (dial_back_resolved 4 seen_addr true))
      (or_fresh seen)

feed-Reachable :
    (es : List HandlerEvent) (n : Node toy) (b : Behaviour toy)
    → feed es n.session ≡ some b
    → Reachable toy plain n
    → Reachable toy plain (record n { session = b })
feed-Reachable [] n b h r =
    subst (λ s. Reachable toy plain (record n { session = s })) (some-injective h) r
feed-Reachable (e ∷ es) n b h r =
    and_then_inv (on_handler_event toy 70 1 e 0 draws n.session) (feed es) h λ m first rest.
      feed-Reachable es (record n { session = m }) b rest
        (stepped r (on_handler 70 1 e 0 draws first))

-- The handshake completes, and the session is there.
talked : (talking ≡ some (or_new talking)) × (has_session toy (or_new talking) 4 ≡ true)
unfolding jeangrey.Behaviour.Receive.on_handler_event jeangrey.Behaviour.Receive.on_connection_frame
    jeangrey.Behaviour.Receive.establish jeangrey.Behaviour.Receive.flush_pending_sends has_session
    jeangrey.Behaviour.State.device_of jeangrey.Behaviour.State.notify_conn
    jeangrey.Behaviour.State.new jeangrey.Behaviour.State.session_peers on_connection_established
    jeangrey.Framing.is_session_frame Machine.new Machine.on_frame Machine.on_hello
    Machine.on_kem_offer Machine.on_kem_response handshake Machine.finish_kem Machine.on_auth
    Machine.on_ready jeangrey.Handshake.Hello.encode_hello jeangrey.Handshake.Hello.decode_hello
    jeangrey.Crypto.encapsulate jeangrey.Crypto.decapsulate jeangrey.Crypto.verify
    jeangrey.Crypto.pubkey_from_bytes jeangrey.Crypto.derive_session_keys
    jeangrey.Identity.peer_id_of jeangrey.Handshake.Transcript.build_transcript
    jeangrey.Handshake.Transcript.select_keys jeangrey.Handshake.Transcript.combine_shared_secrets
    jeangrey.Session.Establish.open_session jeangrey.Prelude.to_be_bytes
    jeangrey.Prelude.from_be_bytes jeangrey.Prelude.bytes_eq
talked = (refl, refl)

in_session-Reachable : Reachable toy plain in_session
in_session-Reachable =
    feed-Reachable (substream_ready ∷ frame_received hello ∷ answers) linked (or_new talking)
      talked.0 (stepped fresh-Reachable (on_transport_established 70 1 none))

reported : (seen ≡ some (or_fresh seen)) × (listed ≡ some (or_fresh listed))
unfolding jeangrey.Behaviour.Receive.on_handler_event jeangrey.Behaviour.Receive.on_connection_frame
    jeangrey.Behaviour.Receive.establish jeangrey.Behaviour.Receive.flush_pending_sends has_session
    jeangrey.Behaviour.State.device_of jeangrey.Behaviour.State.notify_conn
    jeangrey.Behaviour.State.new jeangrey.Behaviour.State.session_peers on_connection_established
    jeangrey.Framing.is_session_frame Machine.new Machine.on_frame Machine.on_hello
    Machine.on_kem_offer Machine.on_kem_response handshake Machine.finish_kem Machine.on_auth
    Machine.on_ready jeangrey.Handshake.Hello.encode_hello jeangrey.Handshake.Hello.decode_hello
    jeangrey.Crypto.encapsulate jeangrey.Crypto.decapsulate jeangrey.Crypto.verify
    jeangrey.Crypto.pubkey_from_bytes jeangrey.Crypto.derive_session_keys
    jeangrey.Identity.peer_id_of jeangrey.Handshake.Transcript.build_transcript
    jeangrey.Handshake.Transcript.select_keys jeangrey.Handshake.Transcript.combine_shared_secrets
    jeangrey.Session.Establish.open_session jeangrey.Prelude.to_be_bytes
    jeangrey.Prelude.from_be_bytes jeangrey.Prelude.bytes_eq handle_event
    jeangrey.Node.Events.on_session_event jeangrey.Node.Probes.on_observed_addr
    jeangrey.Node.Addresses.is_external_ip jeangrey.Node.Addresses.candidate_for
    jeangrey.Node.Probes.request_dial_back jeangrey.Node.Probes.on_dial_back_res
    jeangrey.Behaviour.Send.send_dial_back_req jeangrey.Session.Frames.encrypt_dial_back_req
    jeangrey.Session.Frames.seal jeangrey.Session.Frames.seal_next
    jeangrey.Session.State.checked_succ
reported = (refl, refl)

listed-Reachable : Reachable toy plain (or_fresh listed)
listed-Reachable =
    stepped (stepped in_session-Reachable (on_event (at_time 7000) _ reported.0))
      (on_event (at_time 8000) _ reported.1)

listed_example :
    (member toy.addr_eq seen_addr (or_fresh listed).validated_public_addrs ≡ true
      → live (find toy.addr_eq seen_addr (or_fresh listed).candidates) ≡ true)
    × (certain (find toy.addr_eq seen_addr (or_fresh listed).candidates) ≡ true
        → member toy.addr_eq seen_addr (or_fresh listed).validated_public_addrs ≡ true)
listed_example =
    published-Live toy plain toy-PeerIdLaws toy-keys (or_fresh listed) listed-Reachable seen_addr

-- A node that looks for peer 5.
abbrev searching : Node toy
searching = lookup toy 5 0 (or_fresh listed)

searching-Reachable : Reachable toy plain searching
searching-Reachable = stepped listed-Reachable (lookup_command 5 0)

attempts_example :
    AllValues (λ id request. InBudget request.attempts) searching.pending_lookups
    × Every (λ retry. InBudget retry.attempts) searching.retry_lookups
    × AllValues
        (λ peer failures. (1 ≤ failures) × (failures < max_traversal_attempts))
        searching.traversal_attempts
attempts_example = attempts-InBudget toy plain toy-PeerIdLaws toy-keys searching searching-Reachable
