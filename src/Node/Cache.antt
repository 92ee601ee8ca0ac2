-- ===== src/Node/Cache.antt =====
-- src/node.rs: the cache of verified records as an abstract map from devices to records.
use jeangrey.Prelude.{
  ◌≤◌, suc, ◌≡◌, refl, ap, ◌∙◌, Bool, not, ◌&&◌, Option, some, none, List, [], ◌∷◌, arith,
  Bool-cases, Option-cases, inl, inr, find, insert, member, retain, length-retain, EqLaws,
  find-insert_if, find-delete_if, find-adjust_if, AllValues-find, length, ◌==◌, Every,
  if◌then◌else◌,
}
use jeangrey.Crates.{Crates, PeerIdLaws}
use jeangrey.Records.{VerifiedRecord, max_addrs}
use jeangrey.Node.State.{Node}
use jeangrey.Node.Discovery.{newer, on_verified_record, invalidate_candidates}
use jeangrey.Node.Swarm.{drop_record, wrong_peer_id}
use jeangrey.Node.View.{view-dial_peer}
use jeangrey.Node.Invariant.{Cached, Sound, on_verified_record-Sound, invalidate_candidates-Sound}
use jeangrey.Node.Preserved.{drop_record-Sound}

retain_all :
    {A : Type 0} (test : A → Bool) (xs : List A)
    → length (retain test xs) ≡ length xs
    → retain test xs ≡ xs
retain_all test [] h = refl
retain_all test (x ∷ xs) h = elim (Bool-cases (test x)) [
  | inl kept ↦
      let k : suc (length (retain test xs)) ≡ suc (length xs) = rw (kept) at h in
      rw (kept) (ap (λ ys. x ∷ ys) (retain_all test xs (omega arith)))
  | inr dropped ↦
      let k : length (retain test xs) ≡ suc (length xs) = rw (dropped) at h in
      absurd (omega (arith, length-retain test xs))
]

-- What the node learns about a device's addresses.
pub data News (c : Crates) : Type 0 where
  learned : VerifiedRecord c → News c
  unreachable : (device : c.PeerId) (failed : List c.Multiaddr) → News c
  misbound : (device : c.PeerId) → News c

module _ (c : Crates) where
  abbrev pub Cache : Type 0
  Cache = c.PeerId → Option (VerifiedRecord c)

  -- A record without the failed addresses, if any address is left.
  abbrev pub prune : List c.Multiaddr → VerifiedRecord c → Option (VerifiedRecord c)
  prune failed r =
      let left = retain (λ a. not (member c.addr_eq a failed)) r.addrs in
      if length left == 0 then none else some (record r { addrs = left })

  abbrev pub pruned : List c.Multiaddr → Option (VerifiedRecord c) → Option (VerifiedRecord c)
  pruned failed none = none
  pruned failed (some r) = prune failed r

  -- The specification: a function from devices to records.
  unfoldable pub update : News c → Cache → Cache
  update (learned v) m p = if c.peer_eq p v.peer_id && newer c (m v.peer_id) v then some v else m p
  update (unreachable device failed) m p =
      if c.peer_eq p device then pruned failed (m device) else m p
  update (misbound device) m p = if c.peer_eq p device then none else m p

  -- The handlers of the node.
  unfoldable pub perform : News c → Node c → Node c
  perform (learned v) n = on_verified_record c v n
  perform (unreachable device failed) n = invalidate_candidates c device failed n
  perform (misbound device) n = drop_record c wrong_peer_id device n

  abbrev pub cache_of : Node c → Cache
  cache_of n p = find c.peer_eq p n.records

  abbrev pub update_all : List (News c) → Cache → Cache
  update_all [] m = m
  update_all (e ∷ rest) m = update_all rest (update e m)

  abbrev pub perform_all : List (News c) → Node c → Node c
  perform_all [] n = n
  perform_all (e ∷ rest) n = perform_all rest (perform e n)

  -- A learned record has 1 to 8 addresses.
  abbrev pub Proper : News c → Type 0
  Proper (learned v) = (1 ≤ length v.addrs) × (length v.addrs ≤ max_addrs)
  Proper (unreachable device failed) = Unit {0}
  Proper (misbound device) = Unit {0}

  module _ (ids : PeerIdLaws c) where
    keys : EqLaws c.peer_eq
    keys = record { eq→≡ = ids.eq→≡; eq_refl = ids.eq_refl }

    learned-Refines :
        (v : VerifiedRecord c) (n : Node c) (p : c.PeerId)
        → cache_of (perform (learned v) n) p ≡ update (learned v) (cache_of n) p
    unfolding perform update on_verified_record
    learned-Refines v n p =
        let cached : Node c = record n { records = insert c.peer_eq v.peer_id v n.records } in
        ground (
          arith,
          find-insert_if c.peer_eq keys p v.peer_id v n.records,
          view-dial_peer c v.peer_id v.transport_peer v.addrs cached,
        )

    misbound-Refines :
        (device : c.PeerId) (n : Node c) (p : c.PeerId)
        → cache_of (perform (misbound device) n) p ≡ update (misbound device) (cache_of n) p
    unfolding perform update
    misbound-Refines device n p = find-delete_if c.peer_eq keys p device n.records

    retain_everything : (xs : List c.Multiaddr) → retain (λ a. not (member c.addr_eq a [])) xs ≡ xs
    retain_everything [] = refl
    retain_everything (x ∷ xs) = ap (λ ys. x ∷ ys) (retain_everything xs)

    unreachable-Refines :
        (device : c.PeerId) (failed : List c.Multiaddr) (n : Node c) (p : c.PeerId)
        → ((r : VerifiedRecord c) → find c.peer_eq device n.records ≡ some r → 1 ≤ length r.addrs)
        → cache_of (perform (unreachable device failed) n) p
          ≡ update (unreachable device failed) (cache_of n) p
    unfolding perform update invalidate_candidates
    unreachable-Refines device [] n p full = elim (Option-cases (find c.peer_eq device n.records)) [
      | inl missing ↦ ground (arith, missing, ids.eq→≡ p device)
      | inr (r, here) ↦
          ground (arith, here, ids.eq→≡ p device, full r here, retain_everything r.addrs)
    ]
    unreachable-Refines device (f ∷ failed) n p full =
        elim (Option-cases (find c.peer_eq device n.records)) [
          | inl missing ↦ ground (arith, missing, ids.eq→≡ p device)
          | inr (r, here) ↦
              let left = retain (λ a. not (member c.addr_eq a (f ∷ failed))) r.addrs in
              ground (
                arith,
                here,
                ids.eq→≡ p device,
                full r here,
                retain_all (λ a. not (member c.addr_eq a (f ∷ failed))) r.addrs,
                find-delete_if c.peer_eq keys p device n.records,
                find-adjust_if c.peer_eq keys p device (λ r. record r { addrs = left }) n.records,
              )
        ]

    module _ (laws : EqLaws c.addr_eq) where
      nonempty :
          (device : c.PeerId) (n : Node c)
          → Sound c laws n
          → (r : VerifiedRecord c) → find c.peer_eq device n.records ≡ some r
          → 1 ≤ length r.addrs
      nonempty device n s r h =
          (AllValues-find c.peer_eq (Cached c) device r n.records s.cache h).2.1

      perform-Refines :
          (e : News c) (n : Node c)
          → Sound c laws n
          → cache_of (perform e n) ≡ update e (cache_of n)
      perform-Refines (learned v) n s = λ i p. learned-Refines v n p i
      perform-Refines (unreachable device failed) n s =
          λ i p. unreachable-Refines device failed n p (nonempty device n s) i
      perform-Refines (misbound device) n s = λ i p. misbound-Refines device n p i

      perform-Sound :
          (e : News c) (n : Node c) → Proper e → Sound c laws n → Sound c laws (perform e n)
      unfolding perform
      perform-Sound (learned v) n proper s =
          on_verified_record-Sound c laws v n (refl, proper.0, proper.1) s
      perform-Sound (unreachable device failed) n proper s =
          invalidate_candidates-Sound c laws device failed n s
      perform-Sound (misbound device) n proper s = drop_record-Sound c laws wrong_peer_id device n s

      -- For a node that satisfies the invariant, any sequence of learned records of 1 to 8
      -- addresses, failed dials and wrong bindings changes the cache as the specification changes
      -- a function from devices to records: a record that is not older replaces the device's,
      -- failed addresses are dropped, a record left without addresses is forgotten, and other
      -- devices keep theirs. The equality tests of peer ids and addresses are taken to decide
      -- equality.
      pub cache-Refines :
          (news : List (News c)) (n : Node c)
          → Every Proper news
          → Sound c laws n
          → cache_of (perform_all news n) ≡ update_all news (cache_of n)
      cache-Refines [] n proper s = refl
      cache-Refines (e ∷ rest) n proper s =
          cache-Refines rest (perform e n) proper.1 (perform-Sound e n proper.0 s)
          ∙ ap (update_all rest) (perform-Refines e n s)
