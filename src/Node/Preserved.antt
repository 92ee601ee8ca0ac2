-- ===== src/Node/Preserved.antt =====
-- src/node.rs: every event and every round of maintenance keeps the invariant.
use jeangrey.Prelude.{
  ℕ, ◌+◌, ◌≤◌, ◌<◌, ◌≡◌, refl, Bool, true, false, Option, some, none, List, [], ◌∷◌, Result, ok,
  err, arith, Option-cases, inl, inr, find, insert, delete, member, remove, EqLaws, is_none,
  AllValues, AllValues-delete, AllValues-insert, Yields, Yields-none, Yields-some, Option-both,
  if-both, if-each, ltb, leb, ◌==◌, ltb→lt, if◌then◌else◌,
}
use jeangrey.Crates.{Crates, PeerIdLaws}
use jeangrey.Records.{
  Codecs, AddrRecord, VerifiedRecord, RecordFault, from_bytes, verify_addr_record,
}
use jeangrey.Records.Verified.{verify_addr_record-Vouched}
use jeangrey.Behaviour.State.{device_of}
use jeangrey.Node.State.{
  Node, Env, LookupRequest, max_lookup_attempts, lookup_retry_delay, max_traversal_attempts, failed,
  direct, PeerPath,
}
use jeangrey.Node.Discovery.{
  QueryResult, found_record, get_record_failed, another_query, queue_lookup, schedule_rediscovery,
  invalidate_candidates, on_verified_record, on_found_record, on_kad_event,
}
use jeangrey.Node.Events.{on_peer_disconnected}
use jeangrey.Node.Swarm.{
  DialError, transport_failures, wrong_peer_id, other_failure, on_dcutr, on_device_failure,
  drop_record, addrs_of, on_outgoing_error,
}
use jeangrey.Node.Invariant.{
  InBudget, Cached, Sound, Sound-view, queue_lookup-Sound, schedule_rediscovery-Sound,
  schedule_reconnect-Sound, invalidate_candidates-Sound, on_verified_record-Sound, with_cache-Sound,
}
use jeangrey.Node.Frames.{view-unroute_each, view-on_peerless_failure}

module _ (c : Crates) (laws : EqLaws c.addr_eq) where
  with_traversals-Sound :
      (paths : List (c.PeerId × PeerPath)) (counts : List (c.PeerId × ℕ)) (n : Node c)
      → AllValues (λ p k. (1 ≤ k) × (k < max_traversal_attempts)) counts
      → Sound c laws n
      → Sound c laws (record n { traversal_attempts = counts; peer_paths = paths })
  with_traversals-Sound paths counts n all s = record {
    listing = record { fits = s.listing.fits };
    lookups = s.lookups;
    retries = s.retries;
    traversals = all;
    cache = s.cache;
  }

  pub on_dcutr-Sound :
      (remote : c.PeerId) (succeeded : Bool) (n : Node c)
      → Sound c laws n
      → Sound c laws (on_dcutr c remote succeeded n)
  unfolding on_dcutr
  on_dcutr-Sound remote true n s =
      let left =
        AllValues-delete c.peer_eq
          (λ (p : c.PeerId) (k : ℕ). (1 ≤ k) × (k < max_traversal_attempts)) remote
          n.traversal_attempts s.traversals in
      if-both (Sound c laws) (is_none (find c.peer_eq remote n.traversal_attempts)) _ _
        (with_traversals-Sound (insert c.peer_eq remote direct n.peer_paths) _ n left s)
        (with_traversals-Sound n.peer_paths _ n left s)
  on_dcutr-Sound remote false n s =
      let Counted : c.PeerId → ℕ → Type 0 = λ p k. (1 ≤ k) × (k < max_traversal_attempts) in
      let before : ℕ = elim (find c.peer_eq remote n.traversal_attempts) [
        | none ↦ 0
        | some k ↦ k
      ] in
      if-each (Sound c laws) (leb max_traversal_attempts (before + 1)) _ _
        (λ spent.
          with_traversals-Sound (insert c.peer_eq remote failed n.peer_paths) _ n
            (AllValues-delete c.peer_eq Counted remote n.traversal_attempts s.traversals) s)
        (λ more.
          with_traversals-Sound n.peer_paths _ n
            (AllValues-insert c.peer_eq Counted remote (before + 1) n.traversal_attempts
              (ground arith) s.traversals)
            s)

  pub on_peer_disconnected-Sound :
      (env : Env c) (peer : c.PeerId) (n : Node c)
      → Sound c laws n
      → Sound c laws (on_peer_disconnected c env peer n)
  unfolding on_peer_disconnected
  on_peer_disconnected-Sound env peer n s =
      if-both (Sound c laws) (member c.peer_eq peer n.had_session) _ _
        (schedule_reconnect-Sound c laws env peer _ (Sound-view c laws n _ refl s))
        (Sound-view c laws n _ refl s)

  pub drop_record-Sound :
      (error : DialError c.Multiaddr) (device : c.PeerId) (n : Node c)
      → Sound c laws n
      → Sound c laws (drop_record c error device n)
  drop_record-Sound wrong_peer_id device n s =
      with_cache-Sound c laws _ n (AllValues-delete c.peer_eq (Cached c) device n.records s.cache) s
  drop_record-Sound other_failure device n s = s
  drop_record-Sound (transport_failures addrs) device n s = s

  on_device_failure-Sound :
      (env : Env c) (device : c.PeerId) (error : DialError c.Multiaddr) (n : Node c)
      → Sound c laws n
      → Sound c laws (on_device_failure c env device error n)
  unfolding on_device_failure
  on_device_failure-Sound env device error n s = tried (addrs_of c error)
    where
      tried :
          (attempted : List c.Multiaddr)
          → Sound c laws (
              let dropped : Node c = elim attempted [
                | [] ↦ n
                | a ∷ rest ↦
                    schedule_rediscovery c env device lookup_retry_delay
                      (invalidate_candidates c device (a ∷ rest) n)
              ] in
              record dropped { dialing = remove c.peer_eq device dropped.dialing })
      tried [] = Sound-view c laws n _ refl s
      tried (a ∷ rest) =
          Sound-view c laws
            (schedule_rediscovery c env device lookup_retry_delay
              (invalidate_candidates c device (a ∷ rest) n))
            _ refl
            (schedule_rediscovery-Sound c laws env device lookup_retry_delay _
              (invalidate_candidates-Sound c laws device (a ∷ rest) n s))

  pub on_outgoing_error-Sound :
      (env : Env c) (transport : Option c.PeerId) (error : DialError c.Multiaddr) (n : Node c)
      → Sound c laws n
      → Yields (Sound c laws) (on_outgoing_error c env transport error n)
  unfolding on_outgoing_error
  on_outgoing_error-Sound env none error n s = record {
    result =
        λ n' h. Sound-view c laws n n' (view-on_peerless_failure c env (addrs_of c error) n n' h) s;
  }
  on_outgoing_error-Sound env (some transport) error n s =
      Option-both (Yields (Sound c laws)) (device_of c n.session transport) _ _
        (λ unknown.
          Yields-some (Sound c laws) _
            (Sound-view c laws n _ (view-unroute_each c transport (addrs_of c error) n) s))
        λ device known.
          let kept : Node c = drop_record c error device n in
          Yields-some (Sound c laws) _ (
            on_device_failure-Sound env device error _ (
              Sound-view c laws kept _ (view-unroute_each c transport (addrs_of c error) kept)
                (drop_record-Sound error device n s)))

  module _ (x : Codecs) (ids : PeerIdLaws c) where
    on_found_record-Sound :
        (env : Env c) (key value : List ℕ) (n : Node c)
        → Sound c laws n
        → Yields (Sound c laws) (on_found_record c x env key value n)
    unfolding on_found_record
    on_found_record-Sound env key value n s = read (from_bytes c x value) refl
      where
        verdict :
            (r : AddrRecord) (v : Result RecordFault (VerifiedRecord c))
            → verify_addr_record c x key r env.unix_secs ≡ v
            → Yields (Sound c laws) (elim v [
              | ok verified ↦ some (on_verified_record c verified n)
              | err RecordFault.panicked ↦ none
              | err (RecordFault.failed e) ↦ some n
            ])
        verdict r (ok verified) e =
            let vouched = verify_addr_record-Vouched c x ids key r env.unix_secs verified e in
            Yields-some (Sound c laws) _ (
              on_verified_record-Sound c laws verified n
                (refl, vouched.some_addrs, vouched.few_addrs) s)
        verdict r (err RecordFault.panicked) e = Yields-none (Sound c laws)
        verdict r (err (RecordFault.failed f)) e = Yields-some (Sound c laws) n s

        read :
            (parsed : Result jeangrey.Records.RecordError AddrRecord)
            → from_bytes c x value ≡ parsed
            → Yields (Sound c laws) (on_found_record c x env key value n)
        read (err e) p = rw (on_found_record, p) (Yields-some (Sound c laws) n s)
        read (ok r) p =
            rw (on_found_record, p) (verdict r (verify_addr_record c x key r env.unix_secs) refl)

    without_lookup-Sound :
        (id : ℕ) (n : Node c)
        → Sound c laws n
        → Sound c laws (record n { pending_lookups = delete ◌==◌ id n.pending_lookups })
    without_lookup-Sound id n s = record {
      listing = record { fits = s.listing.fits };
      lookups =
          AllValues-delete ◌==◌ (λ (id : ℕ) (r : LookupRequest c). InBudget r.attempts) id
            n.pending_lookups s.lookups;
      retries = s.retries;
      traversals = s.traversals;
      cache = s.cache;
    }

    pub on_kad_event-Sound :
        (env : Env c) (id : ℕ) (result : QueryResult) (n : Node c)
        → Sound c laws n
        → Yields (Sound c laws) (on_kad_event c x env id result n)
    unfolding on_kad_event
    on_kad_event-Sound env id result n s = elim (Option-cases (find ◌==◌ id n.pending_lookups)) [
      | inl missing ↦ rw (on_kad_event, missing) (Yields-some (Sound c laws) n s)
      | inr (request, here) ↦
          let n1 : Node c = record n { pending_lookups = delete ◌==◌ id n.pending_lookups } in
          let s1 = without_lookup-Sound id n s in
          rw (on_kad_event, here) (outcome request n1 s1 result)
    ]
      where
        outcome :
            (request : LookupRequest c) (n1 : Node c)
            → Sound c laws n1
            → (result : QueryResult)
            → Yields (Sound c laws) (elim result [
              | found_record key value ↦ on_found_record c x env key value n1
              | get_record_failed ↦ some (
                  if ltb request.attempts max_lookup_attempts
                  then queue_lookup c request.peer
                      (request.attempts + 1)
                      (env.now + lookup_retry_delay)
                      n1
                  else n1)
              | another_query ↦ some n1
            ])
        outcome request n1 s1 (found_record key value) = on_found_record-Sound env key value n1 s1
        outcome request n1 s1 get_record_failed = Yields-some (Sound c laws) _ (
            if-each (Sound c laws) (ltb request.attempts max_lookup_attempts) _ _
              (λ more.
                queue_lookup-Sound c laws request.peer (request.attempts + 1)
                  (env.now + lookup_retry_delay) n1
                  (omega arith, omega (arith, ltb→lt request.attempts max_lookup_attempts more)) s1)
              (λ spent. s1))
        outcome request n1 s1 another_query = Yields-some (Sound c laws) n1 s1
