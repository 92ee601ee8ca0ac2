-- ===== src/Node/Invariant.antt =====
-- src/node.rs: the invariant of a node and the operations of look-ups, cache and traversals that keep it.
use jeangrey.Prelude.{
  ℕ, ◌+◌, ◌≤◌, ◌<◌, suc, ◌≡◌, refl, sym, subst, not, ◌&&◌, List, [], ◌∷◌, arith, Option-cases, inl,
  inr, find, insert, member, EqLaws, retain, AllValues, AllValues-delete, AllValues-insert,
  AllValues-adjust, AllValues-find, Every, Every-append_one, Option-both, length-retain, if-both,
  if-each, ltb, ◌==◌, length,
}
use jeangrey.Crates.{Crates}
use jeangrey.Records.{VerifiedRecord, max_addrs}
use jeangrey.Node.State.{
  Node, Env, LookupRequest, LookupRetry, max_lookup_attempts, reconnect_delay,
  max_traversal_attempts,
}
use jeangrey.Node.Discovery.{
  send_query, queue_lookup, lookup_in_flight, schedule_rediscovery, schedule_reconnect,
  invalidate_candidates, newer, on_verified_record,
}
use jeangrey.Behaviour.State.{has_session}
use jeangrey.Node.Maintenance.{fire_lookups}
use jeangrey.Node.View.{View, view, view-dial_peer}
use jeangrey.Node.Listing.{Listing, Listing-view}

-- A look-up has been issued at least once and at most `MAX_LOOKUP_ATTEMPTS` times.
abbrev pub InBudget : ℕ → Type 0
InBudget attempts = (1 ≤ attempts) × (attempts ≤ max_lookup_attempts)

module _ (c : Crates) where
  abbrev pub Cached : c.PeerId → VerifiedRecord c → Type 0
  Cached peer r = (r.peer_id ≡ peer) × (1 ≤ length r.addrs) × (length r.addrs ≤ max_addrs)

  pub record Sound (laws : EqLaws c.addr_eq) (n : Node c) : Type 0 where
    pub listing : Listing c laws n
    pub lookups : AllValues (λ id r. InBudget r.attempts) n.pending_lookups
    pub retries : Every (λ r. InBudget r.attempts) n.retry_lookups
    pub traversals : AllValues (λ p k. (1 ≤ k) × (k < max_traversal_attempts)) n.traversal_attempts
    pub cache : AllValues Cached n.records

module _ (c : Crates) (laws : EqLaws c.addr_eq) where
  pub Sound-view : (n n' : Node c) → view n' ≡ view n → Sound c laws n → Sound c laws n'
  Sound-view n n' same s = record {
    listing = Listing-view c laws n n' same s.listing;
    lookups =
        subst (λ (v : View c). AllValues (λ id r. InBudget r.attempts) v.lookups) (sym same)
          s.lookups;
    retries =
        subst (λ (v : View c). Every (λ r. InBudget r.attempts) v.retries) (sym same) s.retries;
    traversals =
        subst
          (λ (v : View c). AllValues (λ p k. (1 ≤ k) × (k < max_traversal_attempts)) v.traversals)
          (sym same) s.traversals;
    cache = subst (λ (v : View c). AllValues (Cached c) v.cache) (sym same) s.cache;
  }

  pub send_query-Sound :
      (id : ℕ) (request : LookupRequest c) (n : Node c)
      → InBudget request.attempts
      → Sound c laws n
      → Sound c laws (send_query c id request n)
  send_query-Sound id request n fine s = record {
    listing = record { fits = s.listing.fits };
    lookups =
        AllValues-insert ◌==◌ (λ (id : ℕ) (r : LookupRequest c). InBudget r.attempts) id request
          n.pending_lookups fine s.lookups;
    retries = s.retries;
    traversals = s.traversals;
    cache = s.cache;
  }

  pub queue_lookup-Sound :
      (peer : c.PeerId) (attempts next_at : ℕ) (n : Node c)
      → InBudget attempts
      → Sound c laws n
      → Sound c laws (queue_lookup c peer attempts next_at n)
  queue_lookup-Sound peer attempts next_at n fine s = record {
    listing = record { fits = s.listing.fits };
    lookups = s.lookups;
    retries =
        Every-append_one (λ (r : LookupRetry c). InBudget r.attempts) n.retry_lookups _ s.retries
          fine;
    traversals = s.traversals;
    cache = s.cache;
  }

  pub schedule_rediscovery-Sound :
      (env : Env c) (peer : c.PeerId) (delay : ℕ) (n : Node c)
      → Sound c laws n
      → Sound c laws (schedule_rediscovery c env peer delay n)
  unfolding schedule_rediscovery
  schedule_rediscovery-Sound env peer delay n s =
      if-both (Sound c laws) (lookup_in_flight c n peer) _ _ s
        (queue_lookup-Sound peer 1 (env.now + delay) n (omega arith, omega arith) s)

  pub schedule_reconnect-Sound :
      (env : Env c) (peer : c.PeerId) (n : Node c)
      → Sound c laws n
      → Sound c laws (schedule_reconnect c env peer n)
  unfolding schedule_reconnect
  schedule_reconnect-Sound env peer n s =
      Option-both (Sound c laws) (find c.peer_eq peer n.records) n _ (λ missing. s)
        λ cached here. schedule_rediscovery-Sound env peer reconnect_delay _ (
          if-both (Sound c laws)
            (not (member c.peer_eq peer n.dialing) && not (has_session c n.session peer)) _ _
            (Sound-view n _ refl s) s)

  pub fire_lookups-Sound :
      (draw : ℕ → ℕ) (now : ℕ) (queue : List (LookupRetry c)) (n : Node c)
      → Every (λ r. InBudget r.attempts) queue
      → Sound c laws n
      → Sound c laws (fire_lookups c draw now queue n)
  unfolding fire_lookups
  fire_lookups-Sound draw now [] n all s = record {
    listing = record { fits = s.listing.fits };
    lookups = s.lookups;
    retries = tt;
    traversals = s.traversals;
    cache = s.cache;
  }
  fire_lookups-Sound draw now (r ∷ rest) n all s =
      let request : LookupRequest c = record { peer = r.peer; attempts = r.attempts } in
      let asked : Node c = send_query c (draw 0) request n in
      if-both (Sound c laws) (ltb now r.next_at) _ _
        (record {
          listing = record { fits = s.listing.fits };
          lookups = s.lookups;
          retries = all;
          traversals = s.traversals;
          cache = s.cache;
        })
        (fire_lookups-Sound (λ k. draw (suc k)) now rest asked all.1
          (send_query-Sound (draw 0) request n all.0 s))

  pub with_cache-Sound :
      (records : List (c.PeerId × VerifiedRecord c)) (n : Node c)
      → AllValues (Cached c) records
      → Sound c laws n
      → Sound c laws (record n { records = records })
  with_cache-Sound records n all s = record {
    listing = record { fits = s.listing.fits };
    lookups = s.lookups;
    retries = s.retries;
    traversals = s.traversals;
    cache = all;
  }

  pub invalidate_candidates-Sound :
      (device : c.PeerId) (failed : List c.Multiaddr) (n : Node c)
      → Sound c laws n
      → Sound c laws (invalidate_candidates c device failed n)
  unfolding invalidate_candidates
  invalidate_candidates-Sound device [] n s = s
  invalidate_candidates-Sound device (f ∷ failed) n s =
      elim (Option-cases (find c.peer_eq device n.records)) [
        | inl missing ↦ rw (invalidate_candidates, missing) s
        | inr (cached, here) ↦
            let left = retain (λ a. not (member c.addr_eq a (f ∷ failed))) cached.addrs in
            let (j, same, p) =
              AllValues-find c.peer_eq (Cached c) device cached n.records s.cache here in
            rw (invalidate_candidates, here)
              (if-both (Sound c laws) (length left == length cached.addrs) _ _ s (
                if-each (Sound c laws) (length left == 0) _ _
                  (λ empty.
                    with_cache-Sound _ n
                      (AllValues-delete c.peer_eq (Cached c) device n.records s.cache) s)
                  (λ some_left.
                    with_cache-Sound _ n
                      (AllValues-adjust c.peer_eq (Cached c) device (λ r. record r { addrs = left })
                        n.records
                        (λ k v q. (
                          q.0,
                          ground arith,
                          omega (
                            arith,
                            p.2,
                            length-retain (λ a. not (member c.addr_eq a (f ∷ failed))) cached.addrs,
                          ),
                        ))
                        s.cache)
                      s)))
      ]

  pub on_verified_record-Sound :
      (verified : VerifiedRecord c) (n : Node c)
      → Cached c verified.peer_id verified
      → Sound c laws n
      → Sound c laws (on_verified_record c verified n)
  unfolding on_verified_record
  on_verified_record-Sound verified n fine s =
      let cached : Node c = record n {
        records = insert c.peer_eq verified.peer_id verified n.records;
      } in
      let kept : Sound c laws cached =
        with_cache-Sound _ n
          (AllValues-insert c.peer_eq (Cached c) verified.peer_id verified n.records fine s.cache)
          s in
      if-both (Sound c laws) (not (newer c (find c.peer_eq verified.peer_id n.records) verified)) _
        _ s
        (if-both (Sound c laws)
          (not (member c.peer_eq verified.peer_id n.dialing)
            && not (has_session c n.session verified.peer_id))
          _ _
          (Sound-view cached _
            (view-dial_peer c verified.peer_id verified.transport_peer verified.addrs cached) kept)
          kept)
