-- ===== src/Node/Retries.antt =====
-- src/node.rs: a look-up whose queries all fail ends after `MAX_LOOKUP_ATTEMPTS` queries.
use jeangrey.Prelude.{
  ℕ, zero, ◌+◌, ◌≤◌, ◌<◌, suc, ◌≡◌, refl, ap, sym, subst, ◌∙◌, false, Option, some, [], ◌∷◌, ◌++◌,
  arith, and_then, replicate, ltb, ==_refl, append_assoc, append-nil, le→ltb,
}
use jeangrey.Crates.{Crates}
use jeangrey.Records.{Codecs}
use jeangrey.Node.State.{Node, Env, get_record, lookup_retry_delay, max_lookup_attempts}
use jeangrey.Node.Discovery.{get_record_failed, lookup, on_kad_event}
use jeangrey.Node.Maintenance.{fire_lookups}

module _ (c : Crates) (x : Codecs) (ids : ℕ → ℕ) (env : ℕ → Env c) where
  -- Rounds in which query number `k` fails, and the retries that are then due at the next reading of the clock
  -- are fired. The queries have the numbers that `ids` gives.
  abbrev pub failing_rounds : (k rounds : ℕ) → Node c → Option (Node c)
  failing_rounds k zero n = some n
  failing_rounds k (suc rounds) n =
      and_then (on_kad_event c x (env k) (ids k) get_record_failed n) λ m.
        failing_rounds (suc k) rounds
          (fire_lookups c (λ i. ids (i + suc k)) (env (suc k)).now m.retry_lookups m)

  -- The one query in flight is that of `peer`.
  record Asking (peer : c.PeerId) (k attempts : ℕ) (n : Node c) : Type 0 where
    in_flight : n.pending_lookups ≡ (ids k, record { peer = peer; attempts = attempts }) ∷ []
    none_queued : n.retry_lookups ≡ []

  -- What a run leaves: nothing in flight, and its queries in the list of commands.
  pub record GaveUp (peer : c.PeerId) (queries : ℕ) (n n' : Node c) : Type 0 where
    pub none_in_flight : n'.pending_lookups ≡ []
    pub none_queued : n'.retry_lookups ≡ []
    pub asked : n'.commands ≡ n.commands ++ replicate queries (get_record (c.peer_to_bytes peer))

  module _ (paced : (k : ℕ) → (env k).now + lookup_retry_delay ≤ (env (suc k)).now) where
    -- A failure with attempts left leads to the next query.
    again :
        (peer : c.PeerId) (k attempts : ℕ) (n : Node c)
        → Asking peer k attempts n
        → attempts < max_lookup_attempts
        → (m : Node c) × (on_kad_event c x (env k) (ids k) get_record_failed n ≡ some m)
          × (let n' = fire_lookups c (λ i. ids (i + suc k)) (env (suc k)).now m.retry_lookups m in
              Asking peer (suc k) (attempts + 1) n'
              × (n'.commands ≡ n.commands ++ (get_record (c.peer_to_bytes peer) ∷ [])))
    unfolding on_kad_event fire_lookups
    again peer k attempts n a more =
        let m : Node c = record n {
          pending_lookups = [];
          retry_lookups =
              record {
                peer = peer;
                attempts = attempts + 1;
                next_at = (env k).now + lookup_retry_delay;
              }
              ∷ [];
        } in
        let failed : on_kad_event c x (env k) (ids k) get_record_failed n ≡ some m =
          ground (arith, a.in_flight, a.none_queued, more, ==_refl (ids k)) in
        let due : ltb (env (suc k)).now ((env k).now + lookup_retry_delay) ≡ false =
          le→ltb ((env k).now + lookup_retry_delay) (env (suc k)).now (paced k) in
        let start : 0 + suc k ≡ suc k = omega arith in
        (
          m,
          failed,
          (
            record {
              in_flight = rw (fire_lookups, due, start) refl;
              none_queued = rw (fire_lookups, due) refl;
            },
            rw (fire_lookups, due) refl,
          ),
        )

    -- The last failure leads to nothing.
    last :
        (peer : c.PeerId) (k : ℕ) (n : Node c)
        → Asking peer k max_lookup_attempts n
        → (m : Node c) × (on_kad_event c x (env k) (ids k) get_record_failed n ≡ some m)
          × GaveUp peer 0 n
              (fire_lookups c (λ i. ids (i + suc k)) (env (suc k)).now m.retry_lookups m)
    unfolding on_kad_event fire_lookups
    last peer k n a =
        let m : Node c = record n { pending_lookups = [] } in
        let failed : on_kad_event c x (env k) (ids k) get_record_failed n ≡ some m =
          ground (arith, a.in_flight, a.none_queued, ==_refl (ids k)) in
        (
          m,
          failed,
          rw (a.none_queued) (record {
            none_in_flight = refl;
            none_queued = refl;
            asked = sym (append-nil n.commands);
          }),
        )

    rounds_left :
        (peer : c.PeerId) (left k attempts : ℕ) (n : Node c)
        → attempts + left ≡ max_lookup_attempts
        → Asking peer k attempts n
        → (n' : Node c) × (failing_rounds k (suc left) n ≡ some n') × GaveUp peer left n n'
    rounds_left peer zero k attempts n e a =
        let full : attempts ≡ max_lookup_attempts = omega (arith, e) in
        let (m, failed, gave_up) = last peer k n (subst (λ z. Asking peer k z n) full a) in
        (
          fire_lookups c (λ i. ids (i + suc k)) (env (suc k)).now m.retry_lookups m,
          rw (failed) refl,
          gave_up,
        )
    rounds_left peer (suc left) k attempts n e a =
        let (m, failed, (next, grown)) = again peer k attempts n a (omega (arith, e)) in
        let n1 : Node c =
          fire_lookups c (λ i. ids (i + suc k)) (env (suc k)).now m.retry_lookups m in
        let (n', ran, g) =
          rounds_left peer left (suc k) (attempts + 1) n1 (omega (arith, e)) next in
        (
          n',
          rw (failed) ran,
          record {
            none_in_flight = g.none_in_flight;
            none_queued = g.none_queued;
            asked =
                g.asked
                ∙ (ap (λ z. z ++ replicate left (get_record (c.peer_to_bytes peer))) grown
                    ∙ append_assoc n.commands (get_record (c.peer_to_bytes peer) ∷ [])
                        (replicate left (get_record (c.peer_to_bytes peer))));
          },
        )

    -- A look-up on a node with none in flight or queued, all of whose queries fail and whose
    -- retries are fired at least `LOOKUP_RETRY_DELAY` after each failure, sends exactly
    -- `MAX_LOOKUP_ATTEMPTS` queries for the peer's key and then leaves nothing in flight or
    -- queued, whatever numbers the queries get.
    pub failed_lookup-GaveUp :
        (peer : c.PeerId) (n : Node c)
        → n.pending_lookups ≡ []
        → n.retry_lookups ≡ []
        → (n' : Node c) × (failing_rounds 0 max_lookup_attempts (lookup c peer (ids 0) n) ≡ some n')
          × GaveUp peer max_lookup_attempts n n'
    unfolding lookup
    failed_lookup-GaveUp peer n idle empty =
        let asked : Asking peer 0 1 (lookup c peer (ids 0) n) = record {
          in_flight = rw (idle) refl;
          none_queued = empty;
        } in
        let (n', ran, g) = rounds_left peer 9 0 1 (lookup c peer (ids 0) n) refl asked in
        (
          n',
          ran,
          record {
            none_in_flight = g.none_in_flight;
            none_queued = g.none_queued;
            asked =
                g.asked
                ∙ append_assoc n.commands (get_record (c.peer_to_bytes peer) ∷ [])
                    (replicate 9 (get_record (c.peer_to_bytes peer)));
          },
        )
