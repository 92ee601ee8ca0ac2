-- ===== src/Node/View.antt =====
-- src/node.rs: the parts of the node that its invariants speak about, and the operations that leave them alone.
use jeangrey.Prelude.{ℕ, ◌≡◌, List, arith}
use jeangrey.Crates.{Crates}
use jeangrey.Records.{Codecs, VerifiedRecord}
use jeangrey.Node.State.{Node, Env, Candidate, LookupRequest, LookupRetry}
use jeangrey.Node.Addresses.{publish_record, refresh_local_addresses}
use jeangrey.Node.Discovery.{dial_peer}

pub record View (c : Crates) : Type 0 where
  pub lookups : List (ℕ × LookupRequest c)
  pub retries : List (LookupRetry c)
  pub traversals : List (c.PeerId × ℕ)
  pub cache : List (c.PeerId × VerifiedRecord c)
  pub known : List (c.Multiaddr × Candidate c)
  pub listed : List c.Multiaddr

abbrev pub view : {c : Crates} → Node c → View c
view n = record {
  lookups = n.pending_lookups;
  retries = n.retry_lookups;
  traversals = n.traversal_attempts;
  cache = n.records;
  known = n.candidates;
  listed = n.validated_public_addrs;
}

module _ (c : Crates) (x : Codecs) where
  pub view-publish_record : (env : Env c) (n : Node c) → view (publish_record c x env n) ≡ view n
  unfolding publish_record
  view-publish_record env n = ground arith

  pub view-refresh_local_addresses :
      (env : Env c) (n : Node c) → view (refresh_local_addresses c x env n) ≡ view n
  unfolding refresh_local_addresses
  view-refresh_local_addresses env n = grind (arith, view-publish_record)

module _ (c : Crates) where
  pub view-dial_peer :
      (peer transport : c.PeerId) (addrs : List c.Multiaddr) (n : Node c)
      → view (dial_peer c peer transport addrs n) ≡ view n
  unfolding dial_peer
  view-dial_peer peer transport addrs n = ground arith
