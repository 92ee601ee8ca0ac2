-- ===== src/Node/Discovery.antt =====
-- src/node.rs: look-ups with retries, the cache of verified records, dials and reconnection.
use jeangrey.Prelude.{
  retain, ℕ, ◌+◌, Bool, true, false, not, ◌&&◌, ◌||◌, Option, some, none, List, [], ◌∷◌, ◌++◌, find,
  insert, delete, adjust, member, add, leb, ltb, length, ◌==◌, ok, err, if◌then◌else◌,
}
use jeangrey.Crates.{Crates}
use jeangrey.Records.{Codecs, VerifiedRecord, RecordFault, from_bytes, verify_addr_record}
use jeangrey.Behaviour.State.{has_session}
use jeangrey.Behaviour.Send.{connect}
use jeangrey.Node.State.{
  Node, Env, LookupRequest, LookupRetry, RetryDial, get_record, issue, max_lookup_attempts,
  lookup_retry_delay, reconnect_dial_delay, reconnect_delay,
}

-- `kad::QueryResult`: a record that was found, any other end of a `get_record`, or another kind of query.
pub data QueryResult : Type 0 where
  found_record : (key value : List ℕ) → QueryResult
  get_record_failed another_query : QueryResult

module _ (c : Crates) where
  abbrev pub send_query : ℕ → LookupRequest c → Node c → Node c
  send_query id request n =
      issue c (get_record (c.peer_to_bytes request.peer))
        (record n { pending_lookups = insert ◌==◌ id request n.pending_lookups })

  -- `id` is the number that Kademlia gives the query.
  unfoldable pub lookup : c.PeerId → ℕ → Node c → Node c
  lookup peer id n = send_query id (record { peer = peer; attempts = 1 }) n

  -- `insert` of the set answers whether the peer was new.
  unfoldable pub dial_peer : c.PeerId → c.PeerId → List c.Multiaddr → Node c → Node c
  dial_peer peer transport addrs n = if member c.peer_eq peer n.dialing then n else record n {
    dialing = add c.peer_eq peer n.dialing;
    session = connect c peer transport addrs n.session;
  }

  abbrev pub any_request : c.PeerId → List (ℕ × LookupRequest c) → Bool
  any_request peer [] = false
  any_request peer ((id, r) ∷ rest) = c.peer_eq r.peer peer || any_request peer rest

  abbrev pub any_retry : c.PeerId → List (LookupRetry c) → Bool
  any_retry peer [] = false
  any_retry peer (r ∷ rest) = c.peer_eq r.peer peer || any_retry peer rest

  unfoldable pub lookup_in_flight : Node c → c.PeerId → Bool
  lookup_in_flight n peer = any_request peer n.pending_lookups || any_retry peer n.retry_lookups

  abbrev pub queue_lookup : c.PeerId → ℕ → ℕ → Node c → Node c
  queue_lookup peer attempts next_at n = record n {
    retry_lookups =
        n.retry_lookups ++ (record { peer = peer; attempts = attempts; next_at = next_at } ∷ []);
  }

  unfoldable pub schedule_rediscovery : Env c → c.PeerId → ℕ → Node c → Node c
  unfolding lookup_in_flight
  schedule_rediscovery env peer delay n =
      if lookup_in_flight n peer then n else queue_lookup peer 1 (env.now + delay) n

  unfoldable pub schedule_reconnect : Env c → c.PeerId → Node c → Node c
  unfolding schedule_rediscovery
  schedule_reconnect env peer n = elim (find c.peer_eq peer n.records) [
    | none ↦ n
    | some cached ↦
        let dial : RetryDial c = record {
          peer = peer;
          transport = cached.transport_peer;
          addrs = cached.addrs;
          next_at = env.now + reconnect_dial_delay;
        } in
        let queued = record n { retry_dials = n.retry_dials ++ (dial ∷ []) } in
        schedule_rediscovery env peer reconnect_delay (
          if not (member c.peer_eq peer n.dialing) && not (has_session c n.session peer)
          then queued
          else n)
  ]

  unfoldable pub invalidate_candidates : c.PeerId → List c.Multiaddr → Node c → Node c
  invalidate_candidates device [] n = n
  invalidate_candidates device (f ∷ failed) n = elim (find c.peer_eq device n.records) [
    | none ↦ n
    | some cached ↦
        let left = retain (λ a. not (member c.addr_eq a (f ∷ failed))) cached.addrs in
        if length left == length cached.addrs
        then n
        else (if length left == 0
            then record n { records = delete c.peer_eq device n.records }
            else record n {
              records = adjust c.peer_eq device (λ r. record r { addrs = left }) n.records;
            })
  ]

  -- Whether a record replaces the cached one.
  abbrev pub newer : Option (VerifiedRecord c) → VerifiedRecord c → Bool
  newer none verified = true
  newer (some old) verified = leb old.issued_at verified.issued_at

  unfoldable pub on_verified_record : VerifiedRecord c → Node c → Node c
  unfolding dial_peer
  on_verified_record verified n =
      let cached = record n { records = insert c.peer_eq verified.peer_id verified n.records } in
      let dial =
        not (member c.peer_eq verified.peer_id n.dialing)
        && not (has_session c n.session verified.peer_id) in
      if not (newer (find c.peer_eq verified.peer_id n.records) verified)
      then n
      else (if dial
          then dial_peer verified.peer_id verified.transport_peer verified.addrs cached
          else cached)

  module _ (x : Codecs) where
    -- A record as it came from the DHT; `none` is the panic of `verify_addr_record`.
    unfoldable pub on_found_record : Env c → List ℕ → List ℕ → Node c → Option (Node c)
    on_found_record env key value n = elim (from_bytes c x value) [
      | err e ↦ some n
      | ok r ↦ elim (verify_addr_record c x key r env.unix_secs) [
        | ok verified ↦ some (on_verified_record verified n)
        | err RecordFault.panicked ↦ none
        | err (RecordFault.failed e) ↦ some n
      ]
    ]

    unfoldable pub on_kad_event : Env c → ℕ → QueryResult → Node c → Option (Node c)
    unfolding on_found_record
    on_kad_event env id result n = elim (find ◌==◌ id n.pending_lookups) [
      | none ↦ some n
      | some request ↦
          let n1 = record n { pending_lookups = delete ◌==◌ id n.pending_lookups } in
          elim result [
            | found_record key value ↦ on_found_record env key value n1
            | get_record_failed ↦ some (
                if ltb request.attempts max_lookup_attempts
                then queue_lookup request.peer (request.attempts + 1) (env.now + lookup_retry_delay)
                    n1
                else n1)
            | another_query ↦ some n1
          ]
    ]
