-- ===== src/Tests/Meetings.antt =====
-- One node publishes its record and another finds it; look-up replies, renewals and the stored identity.
use jeangrey.Prelude.{
  ℕ, ◌+◌, ◌≤◌, ◌≡◌, refl, arith, Bool, true, false, some, none, Option, List, [], ◌∷◌, ◌++◌, codes,
  find, member, ok, Every, drop, length, option_map, replicate, Result, ◌>>=◌,
}
use jeangrey.Records.{Codecs, sign_addr_record, VerifiedRecord, from_bytes, max_addrs}
use jeangrey.Records.RoundTrip.{CodecLaws}
use jeangrey.Session.State.{v4}
use jeangrey.Node.State.{Node, pending, rejected, put_record}
use jeangrey.Node.Addresses.{publish_record, is_external_ip, candidate_for, add_missing}
use jeangrey.Node.Probes.{on_dial_back_res, on_observed_addr, request_dial_back}
use jeangrey.Node.Discovery.{lookup, found_record, on_kad_event, schedule_reconnect}
use jeangrey.Node.Swarm.{kad_event, handle_event}
use jeangrey.Node.Maintenance.{new}
use jeangrey.Node.Interactive.{on_tick}
use jeangrey.Node.Reachable.{Reachable, started, stepped, on_event, lookup_command}
use jeangrey.Node.Runs.{cached_bounds}
use jeangrey.Node.Discovered.{Dialled, published-Dialled}
use jeangrey.Node.Reconnect.{lookup_reply_forgets, renewal_forgets}
use jeangrey.Tests.Toy.{toy, toy-PeerIdLaws, toy-AddrLaws, toy-SignatureLaws, toy-keys}
use jeangrey.Tests.Published.{plain, device, device-Publishable, verified}
use jeangrey.Tests.Nodes.{at_time, fresh_node, options}

-- A codec whose texts all stand for the one record that is published.
abbrev memory : Codecs
memory = record plain {
  from_json = λ bs. some (sign_addr_record toy plain device ((47 ∷ 49 ∷ []) ∷ []) 1000 0);
}

memory-CodecLaws : CodecLaws toy memory
memory-CodecLaws = record {
  b64_decode-b64_encode = λ bs. refl;
  hex_decode-hex_encode = λ bs. refl;
  from_bytes-to_bytes = λ p. refl;
  from_str-to_base58 = λ p. refl;
}

abbrev publisher : Node toy
publisher = record fresh_node { current_addrs = (47 ∷ 49 ∷ []) ∷ [] }

abbrev searcher : Node toy
searcher = lookup toy 3 7 fresh_node

abbrev Meeting : Type 0
Meeting =
    (key value : List ℕ) × (m' : Node toy) × ((publish_record toy memory (at_time 9000)
        publisher).commands
      ≡ publisher.commands ++ (put_record key value ∷ []))
    × (on_kad_event toy memory (at_time 9000) 7 (found_record key value) searcher ≡ some m')
    × Dialled toy memory toy-PeerIdLaws toy-AddrLaws toy-SignatureLaws memory-CodecLaws searcher m'
        3 5 ((47 ∷ 49 ∷ []) ∷ [])

meeting_example : Meeting
unfolding add_missing from_bytes sign_addr_record lookup jeangrey.Behaviour.State.has_session
    jeangrey.Behaviour.State.new
meeting_example =
    published-Dialled toy memory toy-PeerIdLaws toy-AddrLaws toy-SignatureLaws memory-CodecLaws
      (at_time 9000) (at_time 9000) publisher searcher (47 ∷ 49 ∷ []) [] 7
      (record { peer = 3; attempts = 1 }) refl device-Publishable (refl, refl, refl, tt)
      (omega arith) refl (omega arith) (omega arith) (omega arith) (omega arith) refl refl refl refl

-- The same a second later.
met :
    (key value : List ℕ) × (m' : Node toy) × ((publish_record toy memory
        (at_time 9000)
        publisher).commands
      ≡ publisher.commands ++ (put_record key value ∷ []))
    × (on_kad_event toy memory (at_time 10000) 7 (found_record key value) searcher ≡ some m')
    × Dialled toy memory toy-PeerIdLaws toy-AddrLaws toy-SignatureLaws memory-CodecLaws searcher m'
        3 5
        ((47 ∷ 49 ∷ []) ∷ [])
unfolding add_missing from_bytes sign_addr_record lookup jeangrey.Behaviour.State.has_session
    jeangrey.Behaviour.State.new
met =
    published-Dialled toy memory toy-PeerIdLaws toy-AddrLaws toy-SignatureLaws memory-CodecLaws
      (at_time 9000) (at_time 10000) publisher searcher (47 ∷ 49 ∷ []) [] 7
      (record { peer = 3; attempts = 1 }) refl device-Publishable (refl, refl, refl, tt)
      (omega arith) refl (omega arith) (omega arith) (omega arith) (omega arith) refl refl refl refl

memory-Reachable : Reachable toy memory fresh_node
unfolding new sign_addr_record
memory-Reachable = started device options (λ a. true) (at_time 6000) refl

met-Reachable : Reachable toy memory (met.2)
unfolding handle_event
met-Reachable =
    stepped {n = searcher} (stepped memory-Reachable (lookup_command 3 7))
      (on_event (at_time 10000) (kad_event 7 (found_record met.0 met.1)) met.4)

bounds_example :
    let r = met.5.cached in (r.peer_id ≡ 3) × (1 ≤ length r.addrs) × (length r.addrs ≤ max_addrs)
bounds_example =
    cached_bounds toy memory toy-PeerIdLaws toy-keys met.2 3 met.5.cached met-Reachable
      met.5.in_cache

-- A node with a cached record answers two look-ups in one tick.
abbrev knowing : Node toy
knowing = record fresh_node {
  records = (3, verified) ∷ [];
  last_interface_scan = 20000;
  last_publish = 20000;
  last_bootstrap = 20000;
}

abbrev emptied : Node toy
emptied = record knowing { records = [] }

ticked :
    on_tick toy plain (at_time 20000) knowing ((11000, 1) ∷ (12000, 2) ∷ [])
    ≡ some (emptied, ([], ((1, verified ∷ []) ∷ (2, []) ∷ [])))
unfolding on_tick jeangrey.Node.Maintenance.maintenance
    jeangrey.Node.Addresses.refresh_local_addresses jeangrey.Node.Probes.public_addr_maintenance
    jeangrey.Node.Maintenance.fire_dials jeangrey.Node.Maintenance.fire_lookups
    jeangrey.Node.Maintenance.bootstrap_maintenance jeangrey.Node.Maintenance.relay_maintenance
    jeangrey.Node.Interactive.flush
ticked = refl

forgetting_example :
    Every
      (λ (r : ℕ × List (VerifiedRecord toy)). r.1 ≡ [])
      (drop 1 ((1, verified ∷ []) ∷ (2, []) ∷ []))
    × (schedule_reconnect toy (at_time 21000) 3 emptied ≡ emptied)
forgetting_example =
    lookup_reply_forgets toy plain (at_time 20000) (at_time 21000) knowing emptied
      ((11000, 1) ∷ (12000, 2) ∷ []) [] ((1, verified ∷ []) ∷ (2, []) ∷ []) 3 refl ticked

-- A candidate that was rejected twice is reported again.
abbrev seen_addr : List ℕ
seen_addr = codes "/ip4/" ++ ((1 ∷ 2 ∷ 3 ∷ 4 ∷ []) ++ (codes "/tcp/" ++ (9 ∷ [])))

abbrev refused : Node toy
refused = record fresh_node {
  candidates = (seen_addr, record { state = rejected 2; prober = 7 }) ∷ [];
}

abbrev renewed : Node toy
renewed = record fresh_node {
  candidates = (seen_addr, record { state = pending 7000; prober = 7 }) ∷ [];
}

renewal_example :
    option_map
      (λ k. k.state)
      (find toy.addr_eq seen_addr
        (on_dial_back_res toy plain (at_time 8000) 7 seen_addr false renewed).candidates)
    ≡ some (rejected 1)
unfolding on_observed_addr request_dial_back is_external_ip candidate_for
    jeangrey.Behaviour.State.new jeangrey.Behaviour.State.has_session
    jeangrey.Behaviour.State.session_peers jeangrey.Prelude.bytes_eq
renewal_example =
    renewal_forgets toy plain toy-PeerIdLaws toy-keys (at_time 7000) (at_time 8000) 7
      (v4 (1 ∷ 2 ∷ 3 ∷ 4 ∷ [])) seen_addr 2 (record { state = rejected 2; prober = 7 })
      (record { state = pending 7000; prober = 7 }) refused renewed refl refl refl refl refl
      (omega arith) refl refl
