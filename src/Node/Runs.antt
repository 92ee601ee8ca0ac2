-- ===== src/Node/Runs.antt =====
-- src/node.rs: what holds throughout a run of a node.
use jeangrey.Prelude.{
  ℕ, ◌≤◌, ◌<◌, ◌≡◌, refl, sym, subst, ◌∙◌, Bool, true, some, [], ◌++◌, ok, arith, EqLaws, if-both,
  ensure_inv, ok_or_inv, length, ok-injective, codes, AllValues, AllValues-find, find, member,
  Every, map, and_then_inv, some-injective, if◌then◌else◌,
}
use jeangrey.Crates.{Crates, PeerIdLaws}
use jeangrey.Records.{Codecs, VerifiedRecord, max_addrs}
use jeangrey.Behaviour.State.{has_session}
use jeangrey.Node.State.{
  Node, Env, NodeOptions, listen_failed, address_invalid, max_traversal_attempts,
}
use jeangrey.Node.Discovery.{lookup}
use jeangrey.Node.Maintenance.{new, maintenance}
use jeangrey.Node.Interactive.{on_send, on_tick, any_done, waiting, flush}
use jeangrey.Node.Candidates.{live, certain}
use jeangrey.Node.Invariant.{
  InBudget, Cached, Sound, Sound-view, send_query-Sound, with_cache-Sound,
}
use jeangrey.Node.Reachable.{
  Step, on_event, on_interval, on_tick_of, send_command, lookup_command, on_transport_established,
  on_transport_closed, on_handler, on_poll, Reachable, started, stepped,
}
use jeangrey.Node.Handled.{handle_event-Sound, maintenance-Sound}

module _ (c : Crates) (x : Codecs) (ids : PeerIdLaws c) (laws : EqLaws c.addr_eq) where
  lookup-Sound :
      (peer : c.PeerId) (id : ℕ) (n : Node c) → Sound c laws n → Sound c laws (lookup c peer id n)
  unfolding lookup
  lookup-Sound peer id n s = send_query-Sound c laws id _ n (omega arith, omega arith) s

  step-Sound : {n n' : Node c} → Step c x n n' → Sound c laws n → Sound c laws n'
  unfolding on_send on_tick
  step-Sound {n} {n'} (on_event env event h) s =
      (handle_event-Sound c x ids laws env event n s).result n' h
  step-Sound {n} {n'} (on_interval env h) s = (maintenance-Sound c x ids laws env n s).result n' h
  step-Sound {n} {n'} (on_tick_of env waiters left replies h) s =
      and_then_inv (maintenance c x env n)
        (λ m. some (
          if any_done env.now waiters then record m { records = [] } else m,
          (waiting env.now waiters, flush c env.now waiters (map (λ e. e.1) m.records)),
        ))
        h
        λ m e h'.
          let s1 = (maintenance-Sound c x ids laws env n s).result m e in
          let s2 =
            if-both (Sound c laws) (any_done env.now waiters) _ _
              (with_cache-Sound c laws [] m tt s1) s1 in
          subst (Sound c laws) (cc (some-injective h')) s2
  step-Sound {n} (send_command peer text msg_id ts id) s =
      Sound-view c laws (if has_session c n.session peer then n else lookup c peer id n) _ refl
        (if-both (Sound c laws) (has_session c n.session peer) _ _ s (lookup-Sound peer id n s))
  step-Sound {n} (lookup_command peer id) s = lookup-Sound peer id n s
  step-Sound {n} (on_transport_established transport conn send_back) s =
      Sound-view c laws n _ refl s
  step-Sound {n} (on_transport_closed transport conn remaining) s = Sound-view c laws n _ refl s
  step-Sound {n} (on_handler transport conn event now draws h) s = Sound-view c laws n _ refl s
  step-Sound {n} (on_poll now) s = Sound-view c laws n _ refl s

  new-Sound :
      (identity : jeangrey.Identity.DeviceIdentity c) (options : NodeOptions)
      (can_listen : c.Multiaddr → Bool) (env : Env c) (n : Node c)
      → new c x identity options can_listen env ≡ ok n
      → Sound c laws n
  unfolding new
  new-Sound identity options can_listen env n h =
      ok_or_inv (c.addr_from_str (codes "/ip4/0.0.0.0/tcp/" ++ c.display_u16 options.listen_port))
        address_invalid _ h
        λ addr parsed h1. ensure_inv (can_listen addr) listen_failed _ h1 λ accepted h2.
          subst (Sound c laws) (ok-injective h2) (record {
            listing = record { fits = λ a. ((λ e. absurd (cc (e))), (λ e. absurd (cc (e)))) };
            lookups = tt;
            retries = tt;
            traversals = tt;
            cache = tt;
          })

  pub Reachable-Sound : {n : Node c} → Reachable c x n → Sound c laws n
  Reachable-Sound {n} (started identity options can_listen env h) =
      new-Sound identity options can_listen env n h
  Reachable-Sound (stepped before step) = step-Sound step (Reachable-Sound before)

  -- Throughout a run of a node (started by `Node::new`, then swarm events, rounds of maintenance,
  -- interactive commands, and the connections, handler events and polls of its session behaviour
  -- in any order), an address among the validated public addresses belongs to a candidate that is
  -- not rejected, and the address of every validated candidate is among them. The equality tests
  -- of peer ids and addresses are taken to decide equality.
  pub published-Live :
      (n : Node c)
      → Reachable c x n
      → (a : c.Multiaddr)
      → (member c.addr_eq a n.validated_public_addrs ≡ true
          → live (find c.addr_eq a n.candidates) ≡ true)
        × (certain (find c.addr_eq a n.candidates) ≡ true
            → member c.addr_eq a n.validated_public_addrs ≡ true)
  published-Live n r a = (Reachable-Sound r).listing.fits a

  -- Throughout a run of a node (started by `Node::new`, then swarm events, rounds of maintenance,
  -- interactive commands, and the connections, handler events and polls of its session behaviour
  -- in any order), every look-up in flight or queued for a retry counts between 1 and
  -- `MAX_LOOKUP_ATTEMPTS` attempts, and every count of failed traversals is at least 1 and below
  -- `MAX_TRAVERSAL_ATTEMPTS`. The equality tests of peer ids and addresses are taken to decide
  -- equality.
  pub attempts-InBudget :
      (n : Node c)
      → Reachable c x n
      → AllValues (λ id request. InBudget request.attempts) n.pending_lookups
        × Every (λ retry. InBudget retry.attempts) n.retry_lookups
        × AllValues
            (λ peer failures. (1 ≤ failures) × (failures < max_traversal_attempts))
            n.traversal_attempts
  attempts-InBudget n r = let s = Reachable-Sound r in (s.lookups, s.retries, s.traversals)

  -- Throughout a run of a node (started by `Node::new`, then swarm events, rounds of maintenance,
  -- interactive commands, and the connections, handler events and polls of its session behaviour
  -- in any order), the record cached under a peer id is a record of that peer and has between 1
  -- and 8 addresses. The equality tests of peer ids and addresses are taken to decide equality.
  pub cached_bounds :
      (n : Node c) (peer : c.PeerId) (cached : VerifiedRecord c)
      → Reachable c x n
      → find c.peer_eq peer n.records ≡ some cached
      → (cached.peer_id ≡ peer) × (1 ≤ length cached.addrs) × (length cached.addrs ≤ max_addrs)
  cached_bounds n peer cached r h =
      let (j, same, p) =
        AllValues-find c.peer_eq (Cached c) peer cached n.records (Reachable-Sound r).cache h in
      (p.0 ∙ sym (ids.eq→≡ peer j same), p.1, p.2)
