-- ===== src/Tests/Nodes.antt =====
-- A node that learns a public address, and the theorems on its run.
use jeangrey.Prelude.{
  ℕ, ◌+◌, ◌*◌, ◌≤◌, ◌<◌, ◌≡◌, refl, arith, Bool, true, false, some, none, List, [], ◌∷◌, ◌++◌,
  codes, find, member, ok, AllValues, Every, map,
}
use jeangrey.Records.{sign_addr_record}
use jeangrey.Session.State.{v4}
use jeangrey.Behaviour.State.{observed_addr_reported, dial_back_resolved}
use jeangrey.Node.State.{Node, Env, NodeOptions, unknown, pending, listen_on}
use jeangrey.Node.Addresses.{candidate_for, is_external_ip}
use jeangrey.Node.Probes.{on_observed_addr, request_dial_back, on_dial_back_res}
use jeangrey.Node.Events.{on_session_event}
use jeangrey.Node.Swarm.{SwarmEvent, session_event, handle_event}
use jeangrey.Node.Maintenance.{new}
use jeangrey.Node.Reachable.{Reachable, started, on_event}
use jeangrey.Node.Answered.{Answered, published_by_prober}
use jeangrey.Tests.Toy.{toy, toy-keys}
use jeangrey.Tests.Published.{plain, device}

-- An environment at a given time.
abbrev pub at_time : ℕ → Env toy
at_time now = record {
  now = now;
  unix_secs = 1000;
  coins = 0;
  draw = λ k. k;
  interfaces = none;
  listeners = [];
  connected_peers = 0;
}

abbrev pub options : NodeOptions
options = record {
  listen_port = 9;
  bootstrap = [];
  external_ips = v4 (1 ∷ 2 ∷ 3 ∷ 4 ∷ []) ∷ [];
  relay = none;
  relay_server = false;
}

abbrev pub fresh_node : Node toy
fresh_node = record {
  session = jeangrey.Behaviour.State.new toy device;
  identity = device;
  our_record = sign_addr_record toy plain device [] 1000 0;
  current_addrs = [];
  last_publish = 6000;
  last_interface_scan = 1000;
  last_bootstrap = 1000;
  connected = [];
  bootstrap_pending = [];
  bootstrap_mapped = [];
  bootstrap_dialing = [];
  pending_lookups = [];
  retry_lookups = [];
  dialing = [];
  had_session = [];
  retry_dials = [];
  records = [];
  candidates = [];
  validated_public_addrs = [];
  pending_probes = [];
  listen_port = 9;
  external_ips = v4 (1 ∷ 2 ∷ 3 ∷ 4 ∷ []) ∷ [];
  relay = none;
  relay_server = false;
  relay_transport = none;
  relay_dialing = false;
  peer_paths = [];
  traversal_attempts = [];
  nat_status = unknown;
  commands = listen_on (codes "/ip4/0.0.0.0/tcp/" ++ (9 ∷ [])) ∷ [];
}

pub fresh-Reachable : Reachable toy plain fresh_node
unfolding new
fresh-Reachable = started device options (λ a. true) (at_time 6000) refl

abbrev pub seen_addr : List ℕ
seen_addr = codes "/ip4/" ++ ((1 ∷ 2 ∷ 3 ∷ 4 ∷ []) ++ (codes "/tcp/" ++ (9 ∷ [])))

-- Peer 7 reports our address, and then that it can be reached.
abbrev observed : Node toy
observed = record fresh_node {
  candidates = (seen_addr, record { state = pending 7000; prober = 7 }) ∷ [];
}

abbrev public_node : Node toy
public_node = on_dial_back_res toy plain (at_time 8000) 7 seen_addr true observed

observing :
    handle_event toy plain
      (at_time 7000)
      (session_event (observed_addr_reported 7 (v4 (1 ∷ 2 ∷ 3 ∷ 4 ∷ [])) 55))
      fresh_node
    ≡ some observed
unfolding handle_event on_session_event on_observed_addr is_external_ip candidate_for
    request_dial_back jeangrey.Behaviour.State.new jeangrey.Behaviour.State.has_session
    jeangrey.Behaviour.State.session_peers jeangrey.Prelude.bytes_eq
observing = refl

answering :
    handle_event toy plain
      (at_time 8000)
      (session_event (dial_back_resolved 7 seen_addr true))
      observed
    ≡ some public_node
unfolding handle_event on_session_event
answering = refl

prober_example :
    (event : SwarmEvent toy) × (env : Env toy) × (handle_event toy plain env event observed
      ≡ some public_node)
    × Answered toy plain toy-keys observed seen_addr event
unfolding on_dial_back_res jeangrey.Node.Addresses.publish_record
    jeangrey.Node.Addresses.add_missing jeangrey.Prelude.bytes_eq
prober_example =
    published_by_prober toy plain toy-keys observed public_node seen_addr
      (on_event (at_time 8000) (session_event (dial_back_resolved 7 seen_addr true)) answering) refl
      refl
