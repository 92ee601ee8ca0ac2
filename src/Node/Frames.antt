-- ===== src/Node/Frames.antt =====
-- src/node.rs: the handlers that leave the view of a node as it was.
use jeangrey.Prelude.{
  and_then_inv, some-injective, ℕ, suc, ◌≡◌, refl, ◌∙◌, Bool, Option, some, none, List, [], ◌∷◌,
  arith,
}
use jeangrey.Crates.{Crates}
use jeangrey.Records.{Codecs}
use jeangrey.Node.State.{Node, Env, BootstrapPeer, RetryDial, bootstrap_peer_id}
use jeangrey.Node.Addresses.{bootstrap_kad}
use jeangrey.Node.Probes.{report_unreachable, handle_probe_failure, on_dial_back_req}
use jeangrey.Node.Discovery.{dial_peer}
use jeangrey.Node.Events.{on_session_established}
use jeangrey.Node.Swarm.{
  reserve_all, resolve_relay, resolve_bootstrap, on_established, unroute_each, on_peerless_failure,
}
use jeangrey.Node.Maintenance.{
  fire_dials, dial_one, dial_bootstrap, bootstrap_maintenance, relay_maintenance,
}
use jeangrey.Node.View.{view, view-publish_record, view-dial_peer}

module _ (c : Crates) where
  pub view-report_unreachable :
      (draw : ℕ → ℕ) (probes : List (c.PeerId × c.Multiaddr)) (n n' : Node c)
      → report_unreachable c draw probes n ≡ some n'
      → view n' ≡ view n
  view-report_unreachable draw [] n n' h = cc (some-injective h)
  view-report_unreachable draw ((peer, addr) ∷ rest) n n' h =
      and_then_inv _ _ h λ session sent h'. view-report_unreachable (λ k. draw (suc k)) rest _ n' h'

  pub view-handle_probe_failure :
      (env : Env c) (failed : List c.Multiaddr) (n n' : Node c)
      → handle_probe_failure c env failed n ≡ some n'
      → view n' ≡ view n
  unfolding handle_probe_failure
  view-handle_probe_failure env failed n n' h = view-report_unreachable env.draw _ n n' h

  pub view-on_dial_back_req :
      (env : Env c) (peer : c.PeerId) (addr : c.Multiaddr) (n : Node c)
      → view (on_dial_back_req c env peer addr n) ≡ view n
  unfolding on_dial_back_req
  view-on_dial_back_req env peer addr n = ground arith

  pub view-on_session_established :
      (env : Env c) (peer : c.PeerId) (n n' : Node c)
      → on_session_established c env peer n ≡ some n'
      → view n' ≡ view n
  unfolding on_session_established
  view-on_session_established env peer n n' h = ground arith

  pub view-reserve_all :
      (transport : c.PeerId) (addrs : List c.Multiaddr) (n : Node c)
      → view (reserve_all c transport addrs n) ≡ view n
  view-reserve_all transport [] n = refl
  view-reserve_all transport (a ∷ rest) n = view-reserve_all transport rest _

  view-resolve_relay :
      (transport : c.PeerId) (address : c.Multiaddr) (n n' : Node c)
      → resolve_relay c transport address n ≡ some n'
      → view n' ≡ view n
  unfolding resolve_relay
  view-resolve_relay transport address n n' h = grind (arith, view-reserve_all)

  pub view-unroute_each :
      (transport : c.PeerId) (addrs : List c.Multiaddr) (n : Node c)
      → view (unroute_each c transport addrs n) ≡ view n
  view-unroute_each transport [] n = refl
  view-unroute_each transport (a ∷ rest) n = view-unroute_each transport rest _

  pub view-on_peerless_failure :
      (env : Env c) (attempted : List c.Multiaddr) (n n' : Node c)
      → on_peerless_failure c env attempted n ≡ some n'
      → view n' ≡ view n
  unfolding on_peerless_failure
  view-on_peerless_failure env attempted n n' h = view-handle_probe_failure env attempted _ n' h

  pub view-fire_dials :
      (now : ℕ) (queue : List (RetryDial c)) (n : Node c) → view (fire_dials c now queue n) ≡ view n
  unfolding fire_dials
  view-fire_dials now [] n = refl
  view-fire_dials now (d ∷ rest) n = ground (
    arith,
    view-fire_dials now rest n,
    view-fire_dials now rest (dial_peer c d.peer d.transport d.addrs n),
    view-dial_peer c d.peer d.transport d.addrs n,
  )

  view-dial_one :
      (bp : BootstrapPeer) (peer : c.PeerId) (n : Node c) → view (dial_one c bp peer n) ≡ view n
  view-dial_one bp peer n = ground arith

  view-dial_bootstrap :
      (peers : List BootstrapPeer) (n n' : Node c)
      → dial_bootstrap c peers n ≡ some n'
      → view n' ≡ view n
  unfolding dial_bootstrap
  view-dial_bootstrap [] n n' h = cc (some-injective h)
  view-dial_bootstrap (bp ∷ rest) n n' h =
      and_then_inv (bootstrap_peer_id c bp) (λ peer. dial_bootstrap c rest (dial_one c bp peer n)) h
        λ peer parsed h'.
          view-dial_bootstrap rest (dial_one c bp peer n) n' h' ∙ view-dial_one bp peer n

  pub view-bootstrap_maintenance :
      (env : Env c) (n n' : Node c) → bootstrap_maintenance c env n ≡ some n' → view n' ≡ view n
  unfolding bootstrap_maintenance
  view-bootstrap_maintenance env n n' h = grind (arith, view-dial_bootstrap)

  pub view-relay_maintenance : (n : Node c) → view (relay_maintenance c n) ≡ view n
  unfolding relay_maintenance
  view-relay_maintenance n = ground arith

  module _ (x : Codecs) where
    view-resolve_bootstrap :
        (env : Env c) (transport : c.PeerId) (address : c.Multiaddr) (n n' : Node c)
        → resolve_bootstrap c x env transport address n ≡ some n'
        → view n' ≡ view n
    unfolding resolve_bootstrap bootstrap_kad
    view-resolve_bootstrap env transport address n n' h = grind (arith, view-publish_record)

    pub view-on_established :
        (env : Env c) (transport : c.PeerId) (dialed : Option c.Multiaddr) (is_relayed : Bool)
        (n n' : Node c)
        → on_established c x env transport dialed is_relayed n ≡ some n'
        → view n' ≡ view n
    unfolding on_established
    view-on_established env transport none is_relayed n n' h = ground arith
    view-on_established env transport (some address) is_relayed n n' h =
        grind (arith, view-resolve_relay, view-resolve_bootstrap)
