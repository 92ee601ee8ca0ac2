-- ===== src/Node/Others.antt =====
-- src/node.rs: the handlers of observed addresses and of dial-backs touch neither look-ups, traversals nor cache.
use jeangrey.Prelude.{
  ℕ, ◌+◌, suc, ◌≡◌, refl, ap, sym, subst, ◌∙◌, Bool, Option, some, List, [], ◌∷◌, arith, EqLaws,
  Every, AllValues, Yields, and_then_inv, some-injective, ◌<◌, ◌≤◌,
}
use jeangrey.Crates.{Crates}
use jeangrey.Records.{Codecs, VerifiedRecord}
use jeangrey.Session.State.{IpAddr}
use jeangrey.Node.State.{
  Node, Env, LookupRequest, LookupRetry, probe_timeout, elapsed, max_traversal_attempts,
}
use jeangrey.Node.Probes.{
  request_dial_back, on_observed_addr, on_dial_back_res, reject_all, renew_all, request_all,
  candidates_where, is_overdue, is_due, public_addr_maintenance, report_unreachable, probes_where,
}
use jeangrey.Node.View.{View, view, view-publish_record}
use jeangrey.Node.Frames.{view-report_unreachable}
use jeangrey.Node.Listing.{
  Listing, on_observed_addr-Listing, on_dial_back_res-Listing, public_addr_maintenance-Listing,
}
use jeangrey.Node.Invariant.{InBudget, Cached, Sound}

pub record Others (c : Crates) : Type 0 where
  pub lookups : List (ℕ × LookupRequest c)
  pub retries : List (LookupRetry c)
  pub traversals : List (c.PeerId × ℕ)
  pub cache : List (c.PeerId × VerifiedRecord c)

abbrev pub others : {c : Crates} → View c → Others c
others v = record {
  lookups = v.lookups;
  retries = v.retries;
  traversals = v.traversals;
  cache = v.cache;
}

module _ (c : Crates) where
  others-request_dial_back :
      (addr : c.Multiaddr) (msg_id : ℕ) (n n' : Node c)
      → request_dial_back c addr msg_id n ≡ some n'
      → others (view n') ≡ others (view n)
  unfolding request_dial_back
  others-request_dial_back addr msg_id n n' h = ground arith

  others-on_observed_addr :
      (env : Env c) (peer : c.PeerId) (ip : IpAddr) (n n' : Node c)
      → on_observed_addr c env peer ip n ≡ some n'
      → others (view n') ≡ others (view n)
  unfolding on_observed_addr
  others-on_observed_addr env peer ip n n' h = grind (arith, others-request_dial_back)

  others-on_dial_back_res :
      (x : Codecs) (env : Env c) (peer : c.PeerId) (addr : c.Multiaddr) (reachable : Bool)
      (n : Node c)
      → others (view (on_dial_back_res c x env peer addr reachable n)) ≡ others (view n)
  unfolding on_dial_back_res
  others-on_dial_back_res x env peer addr reachable n = grind (arith, view-publish_record)

  others-reject_all :
      (addrs : List c.Multiaddr) (n : Node c)
      → others (view (reject_all c addrs n)) ≡ others (view n)
  others-reject_all [] n = refl
  others-reject_all (a ∷ rest) n = others-reject_all rest _

  others-renew_all :
      (now : ℕ) (addrs : List c.Multiaddr) (n : Node c)
      → others (view (renew_all c now addrs n)) ≡ others (view n)
  others-renew_all now [] n = refl
  others-renew_all now (a ∷ rest) n = others-renew_all now rest _

  others-request_all :
      (draw : ℕ → ℕ) (addrs : List c.Multiaddr) (n n' : Node c)
      → request_all c draw addrs n ≡ some n'
      → others (view n') ≡ others (view n)
  others-request_all draw [] n n' h = cc (some-injective h)
  others-request_all draw (a ∷ rest) n n' h =
      and_then_inv (request_dial_back c a (draw 0) n)
        (λ m. request_all c (λ k. draw (suc k)) rest m) h
        λ m e h'.
          others-request_all (λ k. draw (suc k)) rest m n' h'
          ∙ others-request_dial_back a (draw 0) n m e

  others-public_addr_maintenance :
      (env : Env c) (n n' : Node c)
      → public_addr_maintenance c env n ≡ some n'
      → others (view n') ≡ others (view n)
  unfolding public_addr_maintenance
  others-public_addr_maintenance env n n' h =
      let probes = probes_where c (λ p. elapsed env.now p.since probe_timeout) n.pending_probes in
      let then : Node c → Option (Node c) = λ n1.
        let n2 = reject_all c (candidates_where c (is_overdue env.now) n1.candidates) n1 in
        let due = candidates_where c (is_due env.now) n2.candidates in
        request_all c (λ k. env.draw (k + k + 1)) due (renew_all c env.now due n2) in
      and_then_inv (report_unreachable c (λ k. env.draw (k + k)) probes n) then h λ n1 reported h'.
        let same = view-report_unreachable c (λ k. env.draw (k + k)) probes n n1 reported in
        let overdue = candidates_where c (is_overdue env.now) n1.candidates in
        let n2 : Node c = reject_all c overdue n1 in
        let due = candidates_where c (is_due env.now) n2.candidates in
        others-request_all (λ k. env.draw (k + k + 1)) due (renew_all c env.now due n2) n' h'
        ∙ (others-renew_all env.now due n2 ∙ (others-reject_all overdue n1 ∙ ap others same))

  module _ (laws : EqLaws c.addr_eq) where
    Sound-others :
        (n n' : Node c)
        → others (view n') ≡ others (view n)
        → Listing c laws n'
        → Sound c laws n
        → Sound c laws n'
    Sound-others n n' same l s = record {
      listing = l;
      lookups =
          subst (λ (o : Others c). AllValues (λ id r. InBudget r.attempts) o.lookups) (sym same)
            s.lookups;
      retries =
          subst (λ (o : Others c). Every (λ r. InBudget r.attempts) o.retries) (sym same) s.retries;
      traversals =
          subst
            (λ (o : Others c).
              AllValues (λ p k. (1 ≤ k) × (k < max_traversal_attempts)) o.traversals)
            (sym same) s.traversals;
      cache = subst (λ (o : Others c). AllValues (Cached c) o.cache) (sym same) s.cache;
    }

    pub on_observed_addr-Sound :
        (env : Env c) (peer : c.PeerId) (ip : IpAddr) (n : Node c)
        → Sound c laws n
        → Yields (Sound c laws) (on_observed_addr c env peer ip n)
    on_observed_addr-Sound env peer ip n s = record {
      result = λ n' h.
          Sound-others n n' (others-on_observed_addr env peer ip n n' h)
            ((on_observed_addr-Listing c laws env peer ip n s.listing).result n' h) s;
    }

    pub on_dial_back_res-Sound :
        (x : Codecs) (env : Env c) (peer : c.PeerId) (addr : c.Multiaddr) (reachable : Bool)
        (n : Node c)
        → Sound c laws n
        → Sound c laws (on_dial_back_res c x env peer addr reachable n)
    on_dial_back_res-Sound x env peer addr reachable n s =
        Sound-others n _ (others-on_dial_back_res x env peer addr reachable n)
          (on_dial_back_res-Listing c laws x env peer addr reachable n s.listing) s

    pub public_addr_maintenance-Sound :
        (env : Env c) (n : Node c)
        → Sound c laws n
        → Yields (Sound c laws) (public_addr_maintenance c env n)
    public_addr_maintenance-Sound env n s = record {
      result = λ n' h.
          Sound-others n n' (others-public_addr_maintenance env n n' h)
            ((public_addr_maintenance-Listing c laws env n s.listing).result n' h) s;
    }
