-- ===== src/Node/Probes.antt =====
-- src/node.rs: observed addresses, their validation by dial-back, and the probes run for others. `none` is a
-- panic of a control frame on a session without sequence numbers.
use jeangrey.Prelude.{
  and_then, retain, ℕ, ◌+◌, suc, Bool, true, false, not, ◌&&◌, Option, some, none, List, [], ◌∷◌,
  ◌++◌, find, insert, delete, adjust, member, leb, is_none, if◌then◌else◌,
}
use jeangrey.Crates.{Crates}
use jeangrey.Records.{Codecs}
use jeangrey.Session.State.{IpAddr}
use jeangrey.Behaviour.State.{has_session, session_peers}
use jeangrey.Behaviour.Send.{connect_probe, send_dial_back_req, send_dial_back_res}
use jeangrey.Node.State.{
  Node, Env, Candidate, CandidateState, PendingProbe, pending, validated, rejected,
  max_validation_attempts, probe_timeout, validation_timeout, public_revalidate_interval, elapsed,
}
use jeangrey.Node.Addresses.{ip_eq, is_external_ip, candidate_for, publish_record}

-- The `match` on a candidate that is known already: whether the report goes on.
abbrev pub renewable : CandidateState → Bool
renewable (validated since) = false
renewable (pending since) = false
renewable (rejected attempts) = not (leb max_validation_attempts attempts)

abbrev pub is_validated : CandidateState → Bool
is_validated (validated since) = true
is_validated _ = false

abbrev pub one_more : CandidateState → ℕ
one_more (rejected attempts) = attempts + 1
one_more (pending since) = 1
one_more (validated since) = 1

abbrev pub is_overdue : ℕ → CandidateState → Bool
is_overdue now (pending since) = elapsed now since validation_timeout
is_overdue now (validated since) = false
is_overdue now (rejected attempts) = false

abbrev pub is_due : ℕ → CandidateState → Bool
is_due now (validated since) = elapsed now since public_revalidate_interval
is_due now (pending since) = false
is_due now (rejected attempts) = false

module _ (c : Crates) where
  -- The prober of a candidate, or any peer with a session.
  abbrev pub prober_for : Node c → c.PeerId → Option c.PeerId
  prober_for n prober =
      if has_session c n.session prober
      then some prober
      else elim (session_peers c n.session) [ [] ↦ none | fallback ∷ rest ↦ some fallback ]

  unfoldable pub request_dial_back : c.Multiaddr → ℕ → Node c → Option (Node c)
  request_dial_back addr msg_id n = elim (find c.addr_eq addr n.candidates) [
    | none ↦ some n
    | some candidate ↦ elim (prober_for n candidate.prober) [
      | none ↦ some n
      | some prober ↦ and_then (send_dial_back_req c prober addr msg_id n.session) λ session.
          some (record n {
            candidates = adjust c.addr_eq addr (λ k. record k { prober = prober }) n.candidates;
            session = session;
          })
    ]
  ]

  unfoldable pub on_observed_addr : Env c → c.PeerId → IpAddr → Node c → Option (Node c)
  on_observed_addr env peer ip n =
      if not (is_external_ip c env n ip) then some n else elim (candidate_for c n ip) [
        | none ↦ some n
        | some addr ↦
            let listening =
              not (member ip_eq ip n.external_ips) && member c.addr_eq addr n.current_addrs in
            let fresh : Bool = elim (find c.addr_eq addr n.candidates) [
              | none ↦ true
              | some candidate ↦ renewable candidate.state
            ] in
            let noted = record n {
              candidates =
                  insert c.addr_eq addr (record { state = pending env.now; prober = peer })
                    n.candidates;
            } in
            if listening
            then some n
            else (if fresh then request_dial_back addr (env.draw 0) noted else some n)
      ]

  unfoldable pub on_dial_back_req : Env c → c.PeerId → c.Multiaddr → Node c → Node c
  on_dial_back_req env peer addr n =
      if not (is_none (find c.peer_eq peer n.pending_probes)) then n else record n {
        pending_probes =
            insert c.peer_eq peer (record { addr = addr; since = env.now }) n.pending_probes;
        session = connect_probe c addr n.session;
      }

  abbrev pub set_state : c.Multiaddr → CandidateState → Node c → Node c
  set_state addr state n = record n {
    candidates = adjust c.addr_eq addr (λ k. record k { state = state }) n.candidates;
  }

  abbrev pub unlist : c.Multiaddr → Node c → Node c
  unlist addr n = record n {
    validated_public_addrs = retain (λ a. not (c.addr_eq a addr)) n.validated_public_addrs;
  }

  abbrev pub enlist : c.Multiaddr → Node c → Node c
  enlist addr n = record n {
    validated_public_addrs =
        if member c.addr_eq addr n.validated_public_addrs
        then n.validated_public_addrs
        else n.validated_public_addrs ++ (addr ∷ []);
  }

  module _ (x : Codecs) where
    unfoldable pub on_dial_back_res : Env c → c.PeerId → c.Multiaddr → Bool → Node c → Node c
    on_dial_back_res env peer addr reachable n = elim (find c.addr_eq addr n.candidates) [
      | none ↦ n
      | some candidate ↦
          let accepted =
            publish_record c x env (enlist addr (set_state addr (validated env.now) n)) in
          let refused =
            publish_record c x env
              (unlist addr (set_state addr (rejected (one_more candidate.state)) n)) in
          if not (c.peer_eq candidate.prober peer)
          then n
          else (if reachable
              then (if is_validated candidate.state then n else accepted)
              else refused)
    ]

  -- The probes to report: their peers, with the addresses.
  abbrev pub probes_where :
      (PendingProbe c → Bool) → List (c.PeerId × PendingProbe c) → List (c.PeerId × c.Multiaddr)
  probes_where test [] = []
  probes_where test ((peer, probe) ∷ rest) =
      let others = probes_where test rest in
      if test probe then (peer, probe.addr) ∷ others else others

  abbrev pub report_unreachable : (ℕ → ℕ) → List (c.PeerId × c.Multiaddr) → Node c → Option (Node c)
  report_unreachable draw [] n = some n
  report_unreachable draw ((peer, addr) ∷ rest) n =
      and_then (send_dial_back_res c peer addr false (draw 0) n.session) λ session.
        report_unreachable (λ k. draw (suc k)) rest
          (record n { pending_probes = delete c.peer_eq peer n.pending_probes; session = session })

  unfoldable pub handle_probe_failure : Env c → List c.Multiaddr → Node c → Option (Node c)
  handle_probe_failure env failed n =
      report_unreachable env.draw
        (probes_where (λ p. member c.addr_eq p.addr failed) n.pending_probes) n

  abbrev pub candidates_where :
      (CandidateState → Bool) → List (c.Multiaddr × Candidate c) → List c.Multiaddr
  candidates_where test [] = []
  candidates_where test ((addr, candidate) ∷ rest) =
      let others = candidates_where test rest in
      if test candidate.state then addr ∷ others else others

  abbrev pub reject_all : List c.Multiaddr → Node c → Node c
  reject_all [] n = n
  reject_all (addr ∷ rest) n =
      let attempts : ℕ = elim (find c.addr_eq addr n.candidates) [
        | none ↦ 1
        | some candidate ↦ one_more candidate.state
      ] in
      reject_all rest (unlist addr (set_state addr (rejected attempts) n))

  abbrev pub renew_all : ℕ → List c.Multiaddr → Node c → Node c
  renew_all now [] n = n
  renew_all now (addr ∷ rest) n = renew_all now rest (set_state addr (pending now) n)

  abbrev pub request_all : (ℕ → ℕ) → List c.Multiaddr → Node c → Option (Node c)
  request_all draw [] n = some n
  request_all draw (addr ∷ rest) n =
      and_then (request_dial_back addr (draw 0) n) λ n'. request_all (λ k. draw (suc k)) rest n'

  -- The even draws are for the reports, the odd ones for the requests.
  unfoldable pub public_addr_maintenance : Env c → Node c → Option (Node c)
  unfolding request_dial_back
  public_addr_maintenance env n =
      and_then
        (report_unreachable (λ k. env.draw (k + k))
          (probes_where (λ p. elapsed env.now p.since probe_timeout) n.pending_probes) n)
        λ n1.
          let n2 = reject_all (candidates_where (is_overdue env.now) n1.candidates) n1 in
          let due = candidates_where (is_due env.now) n2.candidates in
          request_all (λ k. env.draw (k + k + 1)) due (renew_all env.now due n2)
