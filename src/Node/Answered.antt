-- ===== src/Node/Answered.antt =====
-- src/node.rs: which step of a run can publish an address.
use jeangrey.Prelude.{
  ◌≡◌, ap, ap₂, sym, subst, ◌∙◌, Bool, true, false, some, [], arith, Option-cases, inl, inr, find,
  member, EqLaws, member-retain_if, member-append_one, and_then_inv, some-injective, map,
  if◌then◌else◌,
}
use jeangrey.Crates.{Crates}
use jeangrey.Records.{Codecs}
use jeangrey.Behaviour.State.{
  BehaviourEvent, session_established, handshake_failed, message_received, ack_received,
  observed_addr_reported, dial_back_requested, dial_back_resolved, peer_connected,
  peer_disconnected,
}
use jeangrey.Node.State.{Node, Env}
use jeangrey.Node.Addresses.{publish_record, note_listen_addr, note_listen_addr_gone}
use jeangrey.Node.Probes.{on_dial_back_res}
use jeangrey.Node.Discovery.{lookup}
use jeangrey.Node.Events.{on_session_event, on_handshake_failed}
use jeangrey.Node.Swarm.{
  SwarmEvent, session_event, kad_event, autonat_status, dcutr_event, new_listen_addr,
  expired_listen_addr, connection_established, connection_closed, outgoing_connection_error,
  logged_only, handle_event, on_closed,
}
use jeangrey.Node.Maintenance.{maintenance}
use jeangrey.Node.View.{View, view, view-publish_record}
use jeangrey.Node.Frames.{view-on_dial_back_req, view-on_session_established, view-on_established}
use jeangrey.Node.Reachable.{
  Step, on_event, on_interval, on_tick_of, send_command, lookup_command, on_transport_established,
  on_transport_closed, on_handler, on_poll,
}
use jeangrey.Node.Interactive.{on_tick, on_send, any_done, waiting, flush}
use jeangrey.Node.State.{Candidate, validated, rejected}
use jeangrey.Node.Probes.{enlist, unlist, set_state, one_more}
use jeangrey.Node.Provenance.{
  Kept, view-Kept, on_observed_addr-Kept, on_peer_disconnected-Kept, on_dcutr-Kept,
  on_outgoing_error-Kept, on_kad_event-Kept,
}
use jeangrey.Node.Withdrawn.{maintenance-Shrinks}

module _ (c : Crates) (x : Codecs) (laws : EqLaws c.addr_eq) where
  -- The peer that was asked to dial the address reports that it is reachable.
  pub record Answered (n : Node c) (a : c.Multiaddr) (event : SwarmEvent c) : Type 0 where
    pub peer : c.PeerId
    pub candidate : Candidate c
    pub reported : event ≡ session_event (dial_back_resolved peer a true)
    pub known : find c.addr_eq a n.candidates ≡ some candidate
    pub asked : c.peer_eq candidate.prober peer ≡ true

  answered :
      (env : Env c) (peer : c.PeerId) (addr : c.Multiaddr) (reachable : Bool) (n : Node c)
      (a : c.Multiaddr)
      → member c.addr_eq a n.validated_public_addrs ≡ false
      → member c.addr_eq a (on_dial_back_res c x env peer addr reachable n).validated_public_addrs
        ≡ true
      → Answered n a (session_event (dial_back_resolved peer addr reachable))
  unfolding on_dial_back_res
  answered env peer addr reachable n a before after =
      elim (Option-cases (find c.addr_eq addr n.candidates)) [
        | inl missing ↦ absurd (cc (before, missing, rw (on_dial_back_res, missing) at after))
        | inr (k, here) ↦
            let good : Node c = enlist c addr (set_state c addr (validated env.now) n) in
            let bad : Node c = unlist c addr (set_state c addr (rejected (one_more k.state)) n) in
            let sent : (publish_record c x env good).validated_public_addrs
                ≡ good.validated_public_addrs =
              ap (λ (v : View c). v.listed) (view-publish_record c x env good) in
            let dropped : (publish_record c x env bad).validated_public_addrs
                ≡ bad.validated_public_addrs =
              ap (λ (v : View c). v.listed) (view-publish_record c x env bad) in
            let facts : (reachable ≡ true)
                × (c.addr_eq a addr ≡ true)
                × (c.peer_eq k.prober peer ≡ true) =
              ground (
                arith,
                here,
                sent,
                dropped,
                before,
                after,
                member-append_one c.addr_eq a addr n.validated_public_addrs,
                member-retain_if c.addr_eq laws a addr n.validated_public_addrs,
              ) in
            let same : a ≡ addr = laws.eq→≡ a addr facts.1 in
            record {
              peer = peer;
              candidate = k;
              reported =
                  ap₂ (λ b r. session_event (dial_back_resolved peer b r)) (sym same) facts.0;
              known = rw (same) here;
              asked = facts.2;
            }
      ]

  -- An address that was not published is not published when nothing changed.
  unchanged :
      (n n' : Node c) (a : c.Multiaddr) {P : Type 0}
      → Kept c n n'
      → member c.addr_eq a n.validated_public_addrs ≡ false
      → member c.addr_eq a n'.validated_public_addrs ≡ true
      → P
  unchanged n n' a same before after = absurd (cc (same, before, after))

  by_view :
      (n n' : Node c) (a : c.Multiaddr) {P : Type 0}
      → view n' ≡ view n
      → member c.addr_eq a n.validated_public_addrs ≡ false
      → member c.addr_eq a n'.validated_public_addrs ≡ true
      → P
  by_view n n' a same before after = unchanged n n' a (view-Kept c n n' same) before after

  session-Answered :
      (env : Env c) (event : BehaviourEvent c) (n n' : Node c) (a : c.Multiaddr)
      → on_session_event c x env event n ≡ some n'
      → member c.addr_eq a n.validated_public_addrs ≡ false
      → member c.addr_eq a n'.validated_public_addrs ≡ true
      → Answered n a (session_event event)
  unfolding on_session_event on_handshake_failed
  session-Answered env (session_established peer conn result) n n' a h before after =
      by_view n n' a (view-on_session_established c env peer n n' h) before after
  session-Answered env (handshake_failed peer error) n n' a h before after =
      unchanged n n' a (cc (some-injective h)) before after
  session-Answered env (message_received peer msg_id body ts) n n' a h before after =
      unchanged n n' a (cc (some-injective h)) before after
  session-Answered env (ack_received peer msg_id ack_seq) n n' a h before after =
      unchanged n n' a (cc (some-injective h)) before after
  session-Answered env (observed_addr_reported peer ip source_port) n n' a h before after =
      unchanged n n' a (on_observed_addr-Kept c env peer ip n n' h) before after
  session-Answered env (dial_back_requested peer addr) n n' a h before after =
      by_view n n' a (ap view (sym (some-injective h)) ∙ view-on_dial_back_req c env peer addr n)
        before after
  session-Answered env (dial_back_resolved peer addr reachable) n n' a h before after =
      answered env peer addr reachable n a before (
        subst (λ (m : Node c). member c.addr_eq a m.validated_public_addrs ≡ true)
          (sym (some-injective h)) after)
  session-Answered env (peer_connected peer) n n' a h before after =
      unchanged n n' a (cc (some-injective h)) before after
  session-Answered env (peer_disconnected peer) n n' a h before after =
      unchanged n n' a
        (ap (λ (m : Node c). m.validated_public_addrs) (sym (some-injective h))
          ∙ on_peer_disconnected-Kept c env peer n)
        before after

  event-Answered :
      (env : Env c) (event : SwarmEvent c) (n n' : Node c) (a : c.Multiaddr)
      → handle_event c x env event n ≡ some n'
      → member c.addr_eq a n.validated_public_addrs ≡ false
      → member c.addr_eq a n'.validated_public_addrs ≡ true
      → Answered n a event
  unfolding handle_event note_listen_addr note_listen_addr_gone on_closed
  event-Answered env (session_event event) n n' a h before after =
      session-Answered env event n n' a h before after
  event-Answered env (kad_event id result) n n' a h before after =
      unchanged n n' a (on_kad_event-Kept c x env id result n n' h) before after
  event-Answered env (autonat_status status) n n' a h before after =
      unchanged n n' a (cc (some-injective h)) before after
  event-Answered env (dcutr_event remote succeeded) n n' a h before after =
      unchanged n n' a
        (ap (λ (m : Node c). m.validated_public_addrs) (sym (some-injective h))
          ∙ on_dcutr-Kept c remote succeeded n)
        before after
  event-Answered env (new_listen_addr addr) n n' a h before after =
      unchanged n n' a (grind (arith, view-publish_record)) before after
  event-Answered env (expired_listen_addr addr) n n' a h before after =
      unchanged n n' a (grind (arith, view-publish_record)) before after
  event-Answered env (connection_established transport dialed is_relayed) n n' a h before after =
      by_view n n' a (view-on_established c x env transport dialed is_relayed n n' h) before after
  event-Answered env (connection_closed transport dialed remaining) n n' a h before after =
      unchanged n n' a (cc (some-injective h)) before after
  event-Answered env (outgoing_connection_error transport error) n n' a h before after =
      unchanged n n' a (on_outgoing_error-Kept c env transport error n n' h) before after
  event-Answered env logged_only n n' a h before after =
      unchanged n n' a (cc (some-injective h)) before after

  -- When a step of a run (a swarm event, a round of maintenance, an interactive command, or a
  -- connection, a handler event or a poll of the session behaviour) adds an address to the
  -- validated public addresses, the step is an event in which the peer recorded as the prober of
  -- that candidate reports the address reachable. The equality test of addresses is taken to
  -- decide equality.
  pub published_by_prober :
      (n n' : Node c) (a : c.Multiaddr)
      → Step c x n n'
      → member c.addr_eq a n.validated_public_addrs ≡ false
      → member c.addr_eq a n'.validated_public_addrs ≡ true
      → (event : SwarmEvent c) × (env : Env c) × (handle_event c x env event n ≡ some n')
        × Answered n a event
  unfolding on_send on_tick lookup
  published_by_prober n n' a (on_event env event h) before after =
      (event, env, h, event-Answered env event n n' a h before after)
  published_by_prober n n' a (on_interval env h) before after =
      absurd (cc (after, (maintenance-Shrinks c x laws env n).result n' h a before))
  published_by_prober n n' a (on_tick_of env waiters left replies h) before after =
      and_then_inv (maintenance c x env n)
        (λ m. some (
          if any_done env.now waiters then record m { records = [] } else m,
          (waiting env.now waiters, flush c env.now waiters (map (λ e. e.1) m.records)),
        ))
        h
        λ m e h'.
          absurd
            (ground (arith, after, h', (maintenance-Shrinks c x laws env n).result m e a before))
  published_by_prober n _ a (send_command peer text msg_id ts id) before after =
      absurd (ground (arith, before, after))
  published_by_prober n _ a (lookup_command peer id) before after = absurd (cc (before, after))
  published_by_prober n _ a (on_transport_established transport conn send_back) before after =
      absurd (cc (before, after))
  published_by_prober n _ a (on_transport_closed transport conn remaining) before after =
      absurd (cc (before, after))
  published_by_prober n _ a (on_handler transport conn event now draws h) before after =
      absurd (cc (before, after))
  published_by_prober n _ a (on_poll now) before after = absurd (cc (before, after))
