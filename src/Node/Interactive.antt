-- ===== src/Node/Interactive.antt =====
-- src/node.rs: the commands of `run_interactive` and its waiting look-up replies.
use jeangrey.Prelude.{
  and_then, ℕ, ◌+◌, Bool, true, false, Option, some, none, List, [], ◌∷◌, ◌++◌, find, map, leb,
  codes, if◌then◌else◌,
}
use jeangrey.Crates.{Crates}
use jeangrey.Records.{Codecs, VerifiedRecord}
use jeangrey.Behaviour.State.{has_session, session_peers, peer_name, transport_of}
use jeangrey.Behaviour.Send.{send_message}
use jeangrey.Node.State.{Node, Env, label, secs}
use jeangrey.Node.Discovery.{lookup}
use jeangrey.Node.Maintenance.{maintenance}

-- The look-up replies that wait, each with its deadline and the number of its channel.
abbrev pub Waiters : Type 0
Waiters = List (ℕ × ℕ)

abbrev pub waiting : ℕ → Waiters → Waiters
waiting now [] = []
waiting now ((deadline, reply) ∷ rest) =
    let later = waiting now rest in if leb deadline now then later else (deadline, reply) ∷ later

abbrev pub any_done : ℕ → Waiters → Bool
any_done now [] = false
any_done now ((deadline, reply) ∷ rest) = if leb deadline now then true else any_done now rest

module _ (c : Crates) where
  -- `msg_id` is the random id that the reply carries, `ts` the wall clock, `id` the query's number.
  unfoldable pub on_send : c.PeerId → List ℕ → (msg_id ts id : ℕ) → Node c → Node c
  on_send peer text msg_id ts id n =
      let looked = if has_session c n.session peer then n else lookup c peer id n in
      record looked { session = send_message c peer text msg_id ts looked.session }

  unfoldable pub on_lookup : Env c → c.PeerId → (id reply : ℕ) → Node c → Waiters → Node c × Waiters
  on_lookup env peer id reply n waiters =
      (lookup c peer id n, waiters ++ ((env.now + secs 10, reply) ∷ []))

  -- One line of the answer to `Peers`: name, peer and path.
  abbrev pub peer_line : Node c → c.PeerId → List ℕ × (c.PeerId × List ℕ)
  peer_line n peer =
      let name : List ℕ = elim (peer_name c n.session peer) [ none ↦ codes "?" | some s ↦ s ] in
      let transport : c.PeerId = elim (transport_of c n.session peer) [
        | none ↦ peer
        | some t ↦ t
      ] in
      let path : List ℕ = elim (find c.peer_eq transport n.peer_paths) [
        | none ↦ codes "unknown"
        | some p ↦ label p
      ] in
      (name, (peer, path))

  unfoldable pub on_peers : Node c → List (List ℕ × (c.PeerId × List ℕ))
  on_peers n = map (peer_line n) (session_peers c n.session)

  abbrev pub Replies : Type 0
  Replies = List (ℕ × List (VerifiedRecord c))

  -- `mem::take` leaves the next reply an empty map.
  unfoldable pub flush : ℕ → Waiters → List (VerifiedRecord c) → Replies
  flush now [] records = []
  flush now ((deadline, reply) ∷ rest) records =
      let others = flush now rest records in
      let emptied = flush now rest [] in
      if leb deadline now then (reply, records) ∷ emptied else others

  unfoldable pub on_tick : Codecs → Env c → Node c → Waiters → Option (Node c × (Waiters × Replies))
  unfolding flush
  on_tick x env n waiters = and_then (maintenance c x env n) λ n'.
      let left = if any_done env.now waiters then record n' { records = [] } else n' in
      some (left, (waiting env.now waiters, flush env.now waiters (map (λ e. e.1) n'.records)))
