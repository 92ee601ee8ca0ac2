-- ===== src/Tests/Searches.antt =====
-- Searches, reconnection and the interface scan, each at one input.
use jeangrey.Prelude.{
  ℕ, ◌+◌, ◌*◌, ◌≤◌, suc, ◌≡◌, refl, arith, Bool, true, false, some, none, Option, List, [], ◌∷◌,
  ◌++◌, codes, find, member, ok, Every, map, drop, length, option_map,
}
use jeangrey.Session.State.{v4, IpAddr}
use jeangrey.Behaviour.Send.{connect}
use jeangrey.Node.State.{Node, max_lookup_attempts}
use jeangrey.Node.Addresses.{
  publish_record, filter_local_addrs, refresh_local_addresses, add_missing,
}
use jeangrey.Node.Discovery.{lookup}
use jeangrey.Node.Events.{on_peer_disconnected}
use jeangrey.Node.Maintenance.{fire_dials}
use jeangrey.Node.Runs.{Reachable-Sound}
use jeangrey.Node.Cache.{
  cache-Refines, cache_of, perform_all, update_all, learned, unreachable, News,
}
use jeangrey.Node.Retries.{failing_rounds, GaveUp, failed_lookup-GaveUp}
use jeangrey.Node.Filter.{Kept, Covered, filter_local_addrs-Kept, refresh-Kept}
use jeangrey.Node.Reconnect.{session_loss_redials}
use jeangrey.Tests.Toy.{toy, toy-PeerIdLaws, toy-keys}
use jeangrey.Tests.Published.{plain, verified}
use jeangrey.Tests.Nodes.{at_time, fresh_node, fresh-Reachable}

give_up_example :
    (n' : Node toy) × (failing_rounds toy plain
        (λ k. k + 10)
        (λ k. at_time (k * 1000))
        0
        max_lookup_attempts
        (lookup toy 5 10 fresh_node)
      ≡ some n')
    × GaveUp toy plain (λ k. k + 10) (λ k. at_time (k * 1000)) 5 max_lookup_attempts fresh_node n'
give_up_example =
    failed_lookup-GaveUp toy plain (λ k. k + 10) (λ k. at_time (k * 1000)) (λ k. omega arith) 5
      fresh_node refl refl

-- A record is learned, then its only address fails.
abbrev news : List (News toy)
news = learned verified ∷ unreachable 3 ((47 ∷ 49 ∷ []) ∷ []) ∷ []

cache_example :
    cache_of toy (perform_all toy news fresh_node) ≡ update_all toy news (cache_of toy fresh_node)
cache_example =
    cache-Refines toy toy-PeerIdLaws toy-keys news fresh_node ((omega arith, omega arith), (tt, tt))
      (Reachable-Sound toy plain toy-PeerIdLaws toy-keys fresh-Reachable)

abbrev two_addrs : List (List ℕ)
two_addrs =
    (127 ∷ 0 ∷ 0 ∷ 1 ∷ [])
    ∷ (10 ∷ 0 ∷ 0 ∷ 5 ∷ [])
    ∷ (10 ∷ 9 ∷ 9 ∷ 9 ∷ [])
    ∷ (127 ∷ 0 ∷ 0 ∷ 1 ∷ [])
    ∷ []

abbrev local : List IpAddr
local = v4 (10 ∷ 0 ∷ 0 ∷ 5 ∷ []) ∷ []

filter_example :
    let out = filter_local_addrs toy two_addrs local in
    Kept toy local out []
    × Every (Covered toy local out []) two_addrs
    × (filter_local_addrs toy out local ≡ out)
filter_example = filter_local_addrs-Kept toy two_addrs local

-- The first and the second address pass, once each.
filtered :
    filter_local_addrs toy two_addrs local ≡ (127 ∷ 0 ∷ 0 ∷ 1 ∷ []) ∷ (10 ∷ 0 ∷ 0 ∷ 5 ∷ []) ∷ []
unfolding filter_local_addrs jeangrey.Node.Addresses.keeps jeangrey.Prelude.bytes_eq
filtered = refl

abbrev moved : Node toy
moved = record fresh_node { current_addrs = two_addrs }

refresh_example :
    Kept toy local
      (refresh_local_addresses toy plain
        (record (at_time 9000) { interfaces = some local })
        moved).current_addrs
      []
refresh_example =
    refresh-Kept toy toy-keys plain (record (at_time 9000) { interfaces = some local }) moved local
      refl refl

-- A node that loses its session with device 3.
abbrev met : Node toy
met = record fresh_node { had_session = 3 ∷ []; records = (3, verified) ∷ [] }

redial_example :
    let lost = on_peer_disconnected toy (at_time 7000) 3 met in
    (fire_dials toy 9000 lost.retry_dials lost).session
    ≡ connect toy 3 5 ((47 ∷ 49 ∷ []) ∷ []) met.session
unfolding jeangrey.Behaviour.State.has_session jeangrey.Behaviour.State.new
redial_example =
    session_loss_redials toy (at_time 7000) 9000 3 verified met refl refl refl refl refl
      (omega arith)
