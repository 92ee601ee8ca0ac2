-- ===== src/Node/Reconnect.antt =====
-- src/node.rs: a lost session is re-dialled from the cache, unless an answered look-up has emptied the cache.
use jeangrey.Prelude.{
  ℕ, ◌+◌, ◌≤◌, suc, ◌≡◌, refl, subst, true, false, not, some, none, List, [], ◌∷◌, arith,
  Bool-cases, inl, inr, find, member, drop, leb, map, Every, EqLaws, insert, find-adjust_if,
  option_map, and_then_inv, some-injective, ◌&&◌, if◌then◌else◌,
}
use jeangrey.Crates.{Crates, PeerIdLaws}
use jeangrey.Records.{Codecs, VerifiedRecord}
use jeangrey.Session.State.{IpAddr}
use jeangrey.Behaviour.State.{has_session}
use jeangrey.Behaviour.Send.{connect}
use jeangrey.Node.State.{
  Node, Env, Candidate, pending, rejected, reconnect_dial_delay, max_validation_attempts,
}
use jeangrey.Node.Addresses.{ip_eq, is_external_ip, candidate_for}
use jeangrey.Node.Probes.{on_observed_addr, on_dial_back_res, request_dial_back, unlist, set_state}
use jeangrey.Node.Discovery.{schedule_reconnect, schedule_rediscovery, dial_peer}
use jeangrey.Node.Events.{on_peer_disconnected}
use jeangrey.Node.Maintenance.{maintenance, fire_dials}
use jeangrey.Node.Interactive.{Waiters, Replies, on_tick, any_done, waiting, flush}
use jeangrey.Node.View.{view-publish_record}

module _ (c : Crates) where
  -- If a peer with a cached record loses its session while no dial or session with it remains and
  -- no re-dial is queued, the first firing of the queue at least `RECONNECT_DIAL_DELAY` later has
  -- the behaviour connect to the cached addresses under the cached transport id.
  pub session_loss_redials :
      (env : Env c) (now : ℕ) (peer : c.PeerId) (cached : VerifiedRecord c) (n : Node c)
      → member c.peer_eq peer n.had_session ≡ true
      → find c.peer_eq peer n.records ≡ some cached
      → member c.peer_eq peer n.dialing ≡ false
      → has_session c n.session peer ≡ false
      → n.retry_dials ≡ []
      → env.now + reconnect_dial_delay ≤ now
      → let lost = on_peer_disconnected c env peer n in
        (fire_dials c now lost.retry_dials lost).session
        ≡ connect c peer cached.transport_peer cached.addrs n.session
  unfolding on_peer_disconnected schedule_reconnect schedule_rediscovery fire_dials dial_peer
  session_loss_redials env now peer cached n had here undialled apart idle late =
      ground (arith, had, here, undialled, apart, idle, late)

  flushed_rest : (now : ℕ) (waiters : Waiters) → Every (λ r. r.1 ≡ []) (flush c now waiters [])
  unfolding flush
  flushed_rest now [] = tt
  flushed_rest now ((deadline, reply) ∷ rest) = elim (Bool-cases (leb deadline now)) [
    | inl due ↦ rw (flush, due) (refl, flushed_rest now rest)
    | inr later ↦ rw (flush, later) (flushed_rest now rest)
  ]

  flushed :
      (now : ℕ) (waiters : Waiters) (records : List (VerifiedRecord c))
      → Every (λ r. r.1 ≡ []) (drop 1 (flush c now waiters records))
  unfolding flush
  flushed now [] records = tt
  flushed now ((deadline, reply) ∷ rest) records = elim (Bool-cases (leb deadline now)) [
    | inl due ↦ rw (flush, due) (flushed_rest now rest)
    | inr later ↦ rw (flush, later) (flushed now rest records)
  ]

  reconnect_empty :
      (env : Env c) (peer : c.PeerId) (n : Node c)
      → n.records ≡ []
      → schedule_reconnect c env peer n ≡ n
  reconnect_empty env peer n empty =
      let gone : find c.peer_eq peer n.records ≡ none = cc (empty) in
      unfold schedule_reconnect in rw (schedule_reconnect, gone) refl

  -- When a tick answers at least one look-up, every reply after the first is empty, and for every
  -- peer scheduling a reconnect then leaves the node unchanged.
  pub lookup_reply_forgets :
      (x : Codecs) (env later : Env c) (n n' : Node c) (waiters left : Waiters)
      (replies : Replies c) (peer : c.PeerId)
      → any_done env.now waiters ≡ true
      → on_tick c x env n waiters ≡ some (n', (left, replies))
      → Every (λ r. r.1 ≡ []) (drop 1 replies) × (schedule_reconnect c later peer n' ≡ n')
  unfolding on_tick schedule_reconnect
  lookup_reply_forgets x env later n n' waiters left replies peer done h =
      and_then_inv (maintenance c x env n)
        (λ m. some (
          if any_done env.now waiters then record m { records = [] } else m,
          (waiting env.now waiters, flush c env.now waiters (map (λ e. e.1) m.records)),
        ))
        h
        λ m e h'.
          let same : flush c env.now waiters (map (λ e. e.1) m.records) ≡ replies =
            cc (some-injective h') in
          let empty : n'.records ≡ [] = ground (arith, done, some-injective h') in
          (
            subst (λ (rs : Replies c). Every (λ r. r.1 ≡ []) (drop 1 rs)) same
                (flushed env.now waiters (map (λ e. e.1) m.records)),
            reconnect_empty later peer n' empty,
          )

  module _ (x : Codecs) (ids : PeerIdLaws c) (laws : EqLaws c.addr_eq) where
    request_dial_back-state :
        (addr : c.Multiaddr) (msg_id : ℕ) (n n' : Node c)
        → request_dial_back c addr msg_id n ≡ some n'
        → option_map (λ k. k.state) (find c.addr_eq addr n'.candidates)
          ≡ option_map (λ k. k.state) (find c.addr_eq addr n.candidates)
    unfolding request_dial_back
    request_dial_back-state addr msg_id n n' h = grind (arith, find-adjust_if c.addr_eq laws)

    -- When a candidate rejected fewer than `MAX_VALIDATION_ATTEMPTS` times is observed again at
    -- an external address that we do not listen on, and its prober then reports it unreachable,
    -- it counts as rejected once, whatever its count was. The equality tests of peer ids and
    -- addresses are taken to decide equality.
    pub renewal_forgets :
        (env later : Env c) (peer : c.PeerId) (ip : IpAddr) (addr : c.Multiaddr) (attempts : ℕ)
        (before asked : Candidate c) (n n' : Node c)
        → is_external_ip c env n ip ≡ true
        → candidate_for c n ip ≡ some addr
        → (not (member ip_eq ip n.external_ips) && member c.addr_eq addr n.current_addrs) ≡ false
        → find c.addr_eq addr n.candidates ≡ some before
        → before.state ≡ rejected attempts
        → suc attempts ≤ max_validation_attempts
        → on_observed_addr c env peer ip n ≡ some n'
        → find c.addr_eq addr n'.candidates ≡ some asked
        → option_map
            (λ k. k.state)
            (find c.addr_eq addr (on_dial_back_res c x later asked.prober addr false n').candidates)
          ≡ some (rejected 1)
    unfolding on_observed_addr on_dial_back_res request_dial_back
    renewal_forgets env later peer ip addr attempts before asked n n' ext formed apart here was few
          step there =
        let noted : Node c = record n {
          candidates =
              insert c.addr_eq addr (record { state = pending env.now; prober = peer })
                n.candidates;
        } in
        let went : request_dial_back c addr (env.draw 0) noted ≡ some n' =
          ground (arith, ext, formed, apart, here, was, few, step) in
        let state : asked.state ≡ pending env.now = ground (
          arith,
          there,
          request_dial_back-state addr (env.draw 0) noted n' went,
          laws.eq_refl addr,
        ) in
        ground (
          arith,
          there,
          state,
          ids.eq_refl asked.prober,
          laws.eq_refl addr,
          find-adjust_if c.addr_eq laws addr addr (λ k. record k { state = rejected 1 })
              n'.candidates,
          view-publish_record c x later (unlist c addr (set_state c addr (rejected 1) n')),
        )
