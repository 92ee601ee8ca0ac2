-- ===== src/Node/Provenance.antt =====
-- src/node.rs: an address is published only after the peer that was asked to dial it reported success.
use jeangrey.Prelude.{ℕ, ◌≡◌, ap, Bool, true, false, Option, some, none, List, arith}
use jeangrey.Crates.{Crates}
use jeangrey.Records.{Codecs, VerifiedRecord}
use jeangrey.Session.State.{IpAddr}
use jeangrey.Node.State.{Node, Env}
use jeangrey.Node.Probes.{request_dial_back, on_observed_addr}
use jeangrey.Node.Discovery.{
  QueryResult, schedule_rediscovery, schedule_reconnect, invalidate_candidates, on_verified_record,
  on_found_record, on_kad_event,
}
use jeangrey.Node.Events.{on_peer_disconnected}
use jeangrey.Node.Swarm.{
  DialError, on_dcutr, on_device_failure, drop_record, addrs_of, on_outgoing_error,
}
use jeangrey.Node.View.{View, view, view-dial_peer}
use jeangrey.Node.Frames.{view-unroute_each, view-on_peerless_failure}

module _ (c : Crates) where
  -- The published addresses stay as they are.
  abbrev pub Kept : Node c → Node c → Type 0
  Kept n n' = n'.validated_public_addrs ≡ n.validated_public_addrs

  pub view-Kept : (n n' : Node c) → view n' ≡ view n → Kept n n'
  view-Kept n n' same = ap (λ (v : View c). v.listed) same

  pub request_dial_back-Kept :
      (addr : c.Multiaddr) (msg_id : ℕ) (n n' : Node c)
      → request_dial_back c addr msg_id n ≡ some n'
      → Kept n n'
  unfolding request_dial_back
  request_dial_back-Kept addr msg_id n n' h = ground arith

  pub on_observed_addr-Kept :
      (env : Env c) (peer : c.PeerId) (ip : IpAddr) (n n' : Node c)
      → on_observed_addr c env peer ip n ≡ some n'
      → Kept n n'
  unfolding on_observed_addr
  on_observed_addr-Kept env peer ip n n' h = grind (arith, request_dial_back-Kept)

  schedule_rediscovery-Kept :
      (env : Env c) (peer : c.PeerId) (delay : ℕ) (n : Node c)
      → Kept n (schedule_rediscovery c env peer delay n)
  unfolding schedule_rediscovery
  schedule_rediscovery-Kept env peer delay n = ground arith

  pub on_peer_disconnected-Kept :
      (env : Env c) (peer : c.PeerId) (n : Node c) → Kept n (on_peer_disconnected c env peer n)
  unfolding on_peer_disconnected schedule_reconnect
  on_peer_disconnected-Kept env peer n = grind (arith, schedule_rediscovery-Kept)

  invalidate_candidates-Kept :
      (device : c.PeerId) (failed : List c.Multiaddr) (n : Node c)
      → Kept n (invalidate_candidates c device failed n)
  unfolding invalidate_candidates
  invalidate_candidates-Kept device failed n = ground arith

  on_verified_record-Kept : (v : VerifiedRecord c) (n : Node c) → Kept n (on_verified_record c v n)
  unfolding on_verified_record
  on_verified_record-Kept v n = grind (arith, view-dial_peer)

  pub on_dcutr-Kept :
      (remote : c.PeerId) (succeeded : Bool) (n : Node c) → Kept n (on_dcutr c remote succeeded n)
  unfolding on_dcutr
  on_dcutr-Kept remote true n = ground arith
  on_dcutr-Kept remote false n = ground arith

  on_device_failure-Kept :
      (env : Env c) (device : c.PeerId) (error : DialError c.Multiaddr) (n : Node c)
      → Kept n (on_device_failure c env device error n)
  unfolding on_device_failure
  on_device_failure-Kept env device error n =
      grind (arith, schedule_rediscovery-Kept, invalidate_candidates-Kept)

  drop_record-Kept :
      (error : DialError c.Multiaddr) (device : c.PeerId) (n : Node c)
      → Kept n (drop_record c error device n)
  drop_record-Kept error device n = ground arith

  pub on_outgoing_error-Kept :
      (env : Env c) (transport : Option c.PeerId) (error : DialError c.Multiaddr) (n n' : Node c)
      → on_outgoing_error c env transport error n ≡ some n'
      → Kept n n'
  unfolding on_outgoing_error
  on_outgoing_error-Kept env none error n n' h =
      view-Kept n n' (view-on_peerless_failure c env (addrs_of c error) n n' h)
  on_outgoing_error-Kept env (some transport) error n n' h =
      grind (arith, on_device_failure-Kept, drop_record-Kept, view-unroute_each)

  module _ (x : Codecs) where
    on_found_record-Kept :
        (env : Env c) (key value : List ℕ) (n n' : Node c)
        → on_found_record c x env key value n ≡ some n'
        → Kept n n'
    unfolding on_found_record
    on_found_record-Kept env key value n n' h = grind (arith, on_verified_record-Kept)

    pub on_kad_event-Kept :
        (env : Env c) (id : ℕ) (result : QueryResult) (n n' : Node c)
        → on_kad_event c x env id result n ≡ some n'
        → Kept n n'
    unfolding on_kad_event
    on_kad_event-Kept env id result n n' h = grind (arith, on_found_record-Kept)
