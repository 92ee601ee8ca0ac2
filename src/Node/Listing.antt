-- ===== src/Node/Listing.antt =====
-- src/node.rs: the handlers of observed addresses and of dial-backs keep the published addresses consistent with
-- the candidates.
use jeangrey.Prelude.{
  Yields, Yields-some, Yields-and_then, if-both, Option-both, ℕ, ◌+◌, suc, ◌≡◌, refl, sym, subst,
  Bool, not, List, [], ◌∷◌, arith, Option-cases, inl, inr, find, insert, EqLaws,
}
use jeangrey.Crates.{Crates}
use jeangrey.Records.{Codecs}
use jeangrey.Session.State.{IpAddr}
use jeangrey.Behaviour.Send.{send_dial_back_req}
use jeangrey.Node.State.{elapsed, probe_timeout, Node, Env, pending, validated, rejected}
use jeangrey.Node.Addresses.{candidate_for}
use jeangrey.Node.Probes.{
  probes_where, request_dial_back, prober_for, on_observed_addr, is_validated, one_more, set_state,
  unlist, enlist, on_dial_back_res, reject_all, renew_all, request_all, candidates_where,
  is_overdue, is_due, public_addr_maintenance, report_unreachable,
}
use jeangrey.Node.View.{View, view, view-publish_record}
use jeangrey.Node.Candidates.{
  Consistent, Consistent-new_prober, Consistent-pending, Consistent-accepted, Consistent-refused,
  Consistent-renewed,
}
use jeangrey.Node.Frames.{view-report_unreachable}

module _ (c : Crates) (laws : EqLaws c.addr_eq) where
  -- The invariant of a node.
  pub record Listing (n : Node c) : Type 0 where
    pub fits : Consistent c n.candidates n.validated_public_addrs

  pub Listing-view : (n n' : Node c) → view n' ≡ view n → Listing n → Listing n'
  Listing-view n n' same l = record {
    fits = subst (λ (v : View c). Consistent c v.known v.listed) (sym same) l.fits;
  }

  request_dial_back-Listing :
      (addr : c.Multiaddr) (msg_id : ℕ) (n : Node c)
      → Listing n
      → Yields Listing (request_dial_back c addr msg_id n)
  unfolding request_dial_back
  request_dial_back-Listing addr msg_id n l =
      let stays = Yields-some Listing n l in
      Option-both (Yields Listing) (find c.addr_eq addr n.candidates) _ _ (λ missing. stays)
        λ k here.
          Option-both (Yields Listing) (prober_for c n k.prober) _ _ (λ nobody. stays)
            λ prober found.
              Yields-and_then Listing (send_dial_back_req c prober addr msg_id n.session) _
                λ session sent. Yields-some Listing _ (record {
                  fits =
                      Consistent-new_prober c laws addr prober n.candidates n.validated_public_addrs
                        l.fits;
                })

  pub on_observed_addr-Listing :
      (env : Env c) (peer : c.PeerId) (ip : IpAddr) (n : Node c)
      → Listing n
      → Yields Listing (on_observed_addr c env peer ip n)
  unfolding on_observed_addr
  on_observed_addr-Listing env peer ip n l =
      let stays = Yields-some Listing n l in
      elim (Option-cases (candidate_for c n ip)) [
        | inl none_formed ↦ ground (arith, stays)
        | inr (addr, formed) ↦
            let noted : Node c = record n {
              candidates =
                  insert c.addr_eq addr (record { state = pending env.now; prober = peer })
                    n.candidates;
            } in
            let waits : Listing noted = record {
              fits =
                  Consistent-pending c laws addr _ env.now n.candidates n.validated_public_addrs
                    refl l.fits;
            } in
            ground (arith, stays, request_dial_back-Listing addr (env.draw 0) noted waits)
      ]

  pub on_dial_back_res-Listing :
      (x : Codecs) (env : Env c) (peer : c.PeerId) (addr : c.Multiaddr) (reachable : Bool)
      (n : Node c)
      → Listing n
      → Listing (on_dial_back_res c x env peer addr reachable n)
  unfolding on_dial_back_res
  on_dial_back_res-Listing x env peer addr reachable n l =
      elim (Option-cases (find c.addr_eq addr n.candidates)) [
        | inl missing ↦ rw (on_dial_back_res, missing) l
        | inr (k, here) ↦
            let good : Node c = enlist c addr (set_state c addr (validated env.now) n) in
            let bad : Node c = unlist c addr (set_state c addr (rejected (one_more k.state)) n) in
            let good_fits : Listing good = record {
              fits =
                  Consistent-accepted c laws addr env.now k n.candidates n.validated_public_addrs
                    here l.fits;
            } in
            let bad_fits : Listing bad = record {
              fits = Consistent-refused c laws addr _ n.candidates n.validated_public_addrs l.fits;
            } in
            let good_sent = Listing-view good _ (view-publish_record c x env good) good_fits in
            let bad_sent = Listing-view bad _ (view-publish_record c x env bad) bad_fits in
            rw (on_dial_back_res, here)
              (if-both Listing (not (c.peer_eq k.prober peer)) _ _ l (
                if-both Listing reachable _ _
                  (if-both Listing (is_validated k.state) _ _ l good_sent) bad_sent))
      ]

  reject_all-Listing :
      (addrs : List c.Multiaddr) (n : Node c) → Listing n → Listing (reject_all c addrs n)
  reject_all-Listing [] n l = l
  reject_all-Listing (a ∷ rest) n l =
      reject_all-Listing rest _ (record {
        fits = Consistent-refused c laws a _ n.candidates n.validated_public_addrs l.fits;
      })

  renew_all-Listing :
      (now : ℕ) (addrs : List c.Multiaddr) (n : Node c)
      → Listing n
      → Listing (renew_all c now addrs n)
  renew_all-Listing now [] n l = l
  renew_all-Listing now (a ∷ rest) n l = renew_all-Listing now rest _ (record {
    fits = Consistent-renewed c laws a now n.candidates n.validated_public_addrs l.fits;
  })

  request_all-Listing :
      (draw : ℕ → ℕ) (addrs : List c.Multiaddr) (n : Node c)
      → Listing n
      → Yields Listing (request_all c draw addrs n)
  request_all-Listing draw [] n l = Yields-some Listing n l
  request_all-Listing draw (a ∷ rest) n l =
      Yields-and_then Listing (request_dial_back c a (draw 0) n) _ λ m e.
        request_all-Listing (λ k. draw (suc k)) rest m
          ((request_dial_back-Listing a (draw 0) n l).result m e)

  pub public_addr_maintenance-Listing :
      (env : Env c) (n : Node c) → Listing n → Yields Listing (public_addr_maintenance c env n)
  unfolding public_addr_maintenance
  public_addr_maintenance-Listing env n l =
      let probes = probes_where c (λ p. elapsed env.now p.since probe_timeout) n.pending_probes in
      Yields-and_then Listing (report_unreachable c (λ k. env.draw (k + k)) probes n) _
        λ n1 reported.
          let same = view-report_unreachable c (λ k. env.draw (k + k)) probes n n1 reported in
          let overdue = candidates_where c (is_overdue env.now) n1.candidates in
          let n2 : Node c = reject_all c overdue n1 in
          let due = candidates_where c (is_due env.now) n2.candidates in
          request_all-Listing (λ k. env.draw (k + k + 1)) due (renew_all c env.now due n2)
            (renew_all-Listing env.now due n2
              (reject_all-Listing overdue n1 (Listing-view n n1 same l)))
