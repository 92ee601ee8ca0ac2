-- ===== src/Node/Withdrawn.antt =====
-- src/node.rs: maintenance withdraws addresses and publishes none.
use jeangrey.Prelude.{
  ℕ, ◌+◌, ◌*◌, suc, ◌≡◌, refl, ◌∙◌, false, some, List, [], ◌∷◌, arith, member, EqLaws,
  member-retain_if, and_then_inv, some-injective, Yields, Yields-some, Yields-and_then,
  if◌then◌else◌,
}
use jeangrey.Crates.{Crates}
use jeangrey.Records.{Codecs}
use jeangrey.Node.State.{Node, Env, LookupRetry, probe_timeout, elapsed, publish_interval}
use jeangrey.Node.Addresses.{publish_record, refresh_local_addresses}
use jeangrey.Node.Probes.{
  request_dial_back, reject_all, renew_all, request_all, candidates_where, is_overdue, is_due,
  public_addr_maintenance, report_unreachable, probes_where,
}
use jeangrey.Node.Maintenance.{
  maintenance, fire_dials, fire_lookups, bootstrap_maintenance, relay_maintenance,
}
use jeangrey.Node.View.{view, view-publish_record, view-refresh_local_addresses}
use jeangrey.Node.Frames.{
  view-fire_dials, view-bootstrap_maintenance, view-relay_maintenance, view-report_unreachable,
}
use jeangrey.Node.Discovery.{send_query}
use jeangrey.Node.Provenance.{Kept, view-Kept, request_dial_back-Kept}

module _ (c : Crates) (x : Codecs) (laws : EqLaws c.addr_eq) where
  -- Maintenance only takes addresses away.
  abbrev pub Shrinks : Node c → Node c → Type 0
  Shrinks n n' =
      (a : c.Multiaddr)
      → member c.addr_eq a n.validated_public_addrs ≡ false
      → member c.addr_eq a n'.validated_public_addrs ≡ false

  Kept-Shrinks : (n n' : Node c) → Kept c n n' → Shrinks n n'
  Kept-Shrinks n n' same a before = cc (same, before)

  view-Shrinks : (n n' : Node c) → view n' ≡ view n → Shrinks n n'
  view-Shrinks n n' same = Kept-Shrinks n n' (view-Kept c n n' same)

  reject_all-Shrinks : (addrs : List c.Multiaddr) (n : Node c) → Shrinks n (reject_all c addrs n)
  reject_all-Shrinks [] n a before = before
  reject_all-Shrinks (b ∷ rest) n a before =
      reject_all-Shrinks rest _ a
        (ground (arith, before, member-retain_if c.addr_eq laws a b n.validated_public_addrs))

  renew_all-Kept :
      (now : ℕ) (addrs : List c.Multiaddr) (n : Node c) → Kept c n (renew_all c now addrs n)
  renew_all-Kept now [] n = refl
  renew_all-Kept now (b ∷ rest) n = renew_all-Kept now rest _

  request_all-Kept :
      (draw : ℕ → ℕ) (addrs : List c.Multiaddr) (n n' : Node c)
      → request_all c draw addrs n ≡ some n'
      → Kept c n n'
  request_all-Kept draw [] n n' h = cc (some-injective h)
  request_all-Kept draw (b ∷ rest) n n' h =
      and_then_inv (request_dial_back c b (draw 0) n)
        (λ m. request_all c (λ k. draw (suc k)) rest m) h
        λ m e h'.
          request_all-Kept (λ k. draw (suc k)) rest m n' h'
          ∙ request_dial_back-Kept c b (draw 0) n m e

  fire_lookups-Kept :
      (draw : ℕ → ℕ) (now : ℕ) (queue : List (LookupRetry c)) (n : Node c)
      → Kept c n (fire_lookups c draw now queue n)
  unfolding fire_lookups
  fire_lookups-Kept draw now [] n = refl
  fire_lookups-Kept draw now (r ∷ rest) n =
      let asked : Node c =
        send_query c (draw 0) (record { peer = r.peer; attempts = r.attempts }) n in
      ground (arith, fire_lookups-Kept (λ k. draw (suc k)) now rest asked)

  public_addr_maintenance-Shrinks :
      (env : Env c) (n : Node c) → Yields (Shrinks n) (public_addr_maintenance c env n)
  unfolding public_addr_maintenance
  public_addr_maintenance-Shrinks env n =
      let probes = probes_where c (λ p. elapsed env.now p.since probe_timeout) n.pending_probes in
      Yields-and_then (Shrinks n) (report_unreachable c (λ k. env.draw (k + k)) probes n) _
        λ n1 reported.
          let overdue = candidates_where c (is_overdue env.now) n1.candidates in
          let n2 : Node c = reject_all c overdue n1 in
          let due = candidates_where c (is_due env.now) n2.candidates in
          record {
            result = λ n' h a before.
                Kept-Shrinks n2 n'
                  (request_all-Kept (λ k. env.draw (k + k + 1)) due (renew_all c env.now due n2) n'
                      h
                    ∙ renew_all-Kept env.now due n2)
                  a
                  (reject_all-Shrinks overdue n1 a (
                    view-Shrinks n n1
                      (view-report_unreachable c (λ k. env.draw (k + k)) probes n n1 reported) a
                      before));
          }

  pub maintenance-Shrinks : (env : Env c) (n : Node c) → Yields (Shrinks n) (maintenance c x env n)
  unfolding maintenance
  maintenance-Shrinks env n =
      let n1 : Node c = refresh_local_addresses c x env n in
      let n2 : Node c =
        if elapsed env.now n1.last_publish publish_interval
        then publish_record c x env n1
        else n1 in
      let same : view n2 ≡ view n1 = ground (arith, view-publish_record c x env n1) in
      let env3 : Env c = record env { draw = λ k. env.draw (3 * k) } in
      Yields-and_then (Shrinks n) (public_addr_maintenance c env3 n2) _ λ n3 e3.
        let n4 : Node c = fire_dials c env.now n3.retry_dials n3 in
        let n5 : Node c = fire_lookups c (λ k. env.draw (3 * k + 1)) env.now n4.retry_lookups n4 in
        Yields-and_then (Shrinks n) (bootstrap_maintenance c env n5) _ λ n6 e6.
          Yields-some (Shrinks n) _ λ a before.
            Kept-Shrinks n3 (relay_maintenance c n6)
              (view-Kept c n6 (relay_maintenance c n6) (view-relay_maintenance c n6)
                ∙ (view-Kept c n5 n6 (view-bootstrap_maintenance c env n5 n6 e6)
                    ∙ (fire_lookups-Kept (λ k. env.draw (3 * k + 1)) env.now n4.retry_lookups n4
                        ∙ view-Kept c n3 n4 (view-fire_dials c env.now n3.retry_dials n3))))
              a
              ((public_addr_maintenance-Shrinks env3 n2).result n3 e3 a
                (view-Shrinks n n2 (same ∙ view-refresh_local_addresses c x env n) a before))
