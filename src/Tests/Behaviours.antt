-- ===== src/Tests/Behaviours.antt =====
-- The behaviour theorems for one device that is connected to another.
use jeangrey.Prelude.{inl, inr, find, ◌+◌, ◌≡◌, refl, false, some, [], ◌∷◌, replicate}
use jeangrey.Identity.{DeviceIdentity}
use jeangrey.Session.State.{Session, SessionError}
use jeangrey.Behaviour.State.{
  Behaviour, Bound, session_error, handshake_failed, generate_event, device_of, has_session,
}
use jeangrey.Behaviour.Receive.{Draws, frame_received, on_handler_event}
use jeangrey.Behaviour.Send.{send_message}
use jeangrey.Behaviour.Drop.{Arrival, Unacceptable, AllSession, receive, refused_ends_conversation}
use jeangrey.Tests.Toy.{toy, toy-PeerIdLaws}
use jeangrey.Tests.Sessions.{bob, stray}

abbrev device : DeviceIdentity toy
device = record {
  user = record { user_id = []; user_name = 98 ∷ [] };
  secret_key = 6;
  verifying_key = 6;
  device_uuid = replicate 16 6;
  transport_peer_id = 66;
  peer_id = 6;
}

abbrev bound : Bound toy
bound = record { transport = 77; conn = 1; session = bob }

-- Device 7 speaks from the transport id 77.
abbrev node : Behaviour toy
node = record {
  identity = device;
  handshakes = [];
  sessions = (7, bound) ∷ [];
  peer_names = [];
  pending_sends = [];
  connected = [];
  transport_devices = (77, 7) ∷ [];
  device_transports = (7, 77) ∷ [];
  observed_addrs = [];
  queue = [];
}

abbrev draws : Draws
draws = record { coins = 0; msg_id = 5; ts = 2000; clock = λ n. 2000 + n }

known : device_of toy node 77 ≡ some 7
unfolding device_of
known = refl

abbrev arrival : Arrival
arrival = record { conn = 1; frame = stray; now = 0; draws = draws }

stray-off : Unacceptable toy bob stray
stray-off = inr (inl refl)

session_frames : AllSession toy (arrival ∷ arrival ∷ [])
unfolding jeangrey.Framing.is_session_frame
session_frames = (refl, (refl, tt))

conversation_example :
    (b' : Behaviour toy) × (e : SessionError) × (on_handler_event toy 77 1
        (frame_received stray)
        0
        draws
        node
      ≡ some b')
    × (receive toy 77 (arrival ∷ []) b' ≡ some b')
    × (has_session toy b' 7 ≡ false)
    × (b'.queue ≡ generate_event (handshake_failed 7 (session_error e)) ∷ [])
    × ((send_message toy 7 (104 ∷ []) 5 2000 b').queue ≡ b'.queue)
    × (find toy.peer_eq 7 (send_message toy 7 (104 ∷ []) 5 2000 b').pending_sends
        ≡ some ((5, 104 ∷ []) ∷ []))
conversation_example =
    refused_ends_conversation toy toy-PeerIdLaws node 77 7 bound arrival (arrival ∷ []) (104 ∷ []) 5
      2000 known refl stray-off session_frames
