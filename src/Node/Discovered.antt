-- ===== src/Node/Discovered.antt =====
-- src/node.rs: a record that one node publishes is cached and dialled by another that looks it up.
use jeangrey.Prelude.{
  ℕ, ◌+◌, ◌≤◌, ◌<◌, ◌^◌, ◌≡◌, refl, true, false, some, none, List, [], ◌∷◌, ◌++◌, arith, find,
  delete, member, member-append_one, length, ◌==◌, ok,
}
use jeangrey.Crates.{Crates, PeerIdLaws, AddrLaws, SignatureLaws}
use jeangrey.Records.{
  Codecs, VerifiedRecord, from_bytes, sign_addr_record, verify_addr_record, max_addrs,
}
use jeangrey.Records.Verified.{Usable}
use jeangrey.Records.RoundTrip.{CodecLaws, Publishable, verify_addr_record-sign_addr_record}
use jeangrey.Behaviour.State.{has_session}
use jeangrey.Behaviour.Send.{connect}
use jeangrey.Node.State.{Node, Env, LookupRequest, put_record}
use jeangrey.Node.Addresses.{add_missing, publish_record}
use jeangrey.Node.Discovery.{
  found_record, dial_peer, on_verified_record, on_found_record, on_kad_event,
}

module _ (c : Crates) (x : Codecs) (ids : PeerIdLaws c) (addr_laws : AddrLaws c)
    (sigs : SignatureLaws c) (codec : CodecLaws c x) where
  -- What the searching node makes of the record: a new cache entry and a dial.
  pub record Dialled (m m' : Node c) (device transport : c.PeerId) (addrs : List c.Multiaddr)
      : Type 0 where
    pub cached : VerifiedRecord c
    pub in_cache : find c.peer_eq device m'.records ≡ some cached
    pub same_addrs : cached.addrs ≡ addrs
    pub in_flight : member c.peer_eq device m'.dialing ≡ true
    pub dialled : m'.session ≡ connect c device transport addrs m.session

  -- When a node whose identity is as `assemble` makes it with a name of 1 to 64 bytes, and whose
  -- own and validated addresses are 1 to 8 usable ones, publishes its record, and another node
  -- that has no cached record, dial or session for it handles the answer to its look-up with a
  -- clock at most 30 seconds behind and 150 seconds ahead, the other node caches the addresses,
  -- marks the dial and has the behaviour connect to exactly these addresses under the publisher's
  -- transport id. The published text is taken to be read back as the record, times not to
  -- overflow, and the crates to obey their laws (peer ids, addresses, signatures, text codecs).
  pub published-Dialled :
      (env later : Env c) (n m : Node c) (a : c.Multiaddr) (rest : List c.Multiaddr) (id : ℕ)
      (request : LookupRequest c)
      → add_missing c n.validated_public_addrs n.current_addrs ≡ a ∷ rest
      → Publishable c n.identity
      → Usable c (a ∷ rest) []
      → length (a ∷ rest) ≤ max_addrs
      → (let signed = sign_addr_record c x n.identity (a ∷ rest) env.unix_secs env.coins in
          from_bytes c x (x.to_json signed) ≡ ok signed)
      → env.unix_secs ≤ later.unix_secs + 30
      → later.unix_secs ≤ env.unix_secs + 150
      → env.unix_secs + 180 < 2 ^ 64
      → later.unix_secs + 180 < 2 ^ 64
      → find ◌==◌ id m.pending_lookups ≡ some request
      → find c.peer_eq n.identity.peer_id m.records ≡ none
      → member c.peer_eq n.identity.peer_id m.dialing ≡ false
      → has_session c m.session n.identity.peer_id ≡ false
      → (key value : List ℕ) × (m' : Node c) × ((publish_record c x env n).commands
          ≡ n.commands ++ (put_record key value ∷ []))
        × (on_kad_event c x later id (found_record key value) m ≡ some m')
        × Dialled m m' n.identity.peer_id n.identity.transport_peer_id (a ∷ rest)
  unfolding publish_record on_kad_event on_found_record from_bytes on_verified_record dial_peer
  published-Dialled env later n m a rest id request own ready usable few readable fresh alive range
        range' asked unknown idle apart =
      let signed = sign_addr_record c x n.identity (a ∷ rest) env.unix_secs env.coins in
      let key = c.peer_to_bytes n.identity.peer_id in
      let v : VerifiedRecord c = record {
        peer_id = n.identity.peer_id;
        user_id = n.identity.user.user_id;
        user_name = n.identity.user.user_name;
        device_uuid = n.identity.device_uuid;
        transport_peer = n.identity.transport_peer_id;
        addrs = a ∷ rest;
        issued_at = env.unix_secs;
      } in
      let verified : verify_addr_record c x key signed later.unix_secs ≡ ok v =
        verify_addr_record-sign_addr_record c x ids addr_laws sigs codec n.identity ready (a ∷ rest)
          usable (omega arith) few env.unix_secs later.unix_secs env.coins (omega (arith, range))
          (omega (arith, range')) fresh alive in
      let m1 : Node c = record m { pending_lookups = delete ◌==◌ id m.pending_lookups } in
      let found : on_found_record c x later key (x.to_json signed) m1
          ≡ some (on_verified_record c v m1) =
        rw (on_found_record, readable, verified) refl in
      (
        key,
        x.to_json signed,
        on_verified_record c v m1,
        rw (publish_record, own) refl,
        rw (on_kad_event, asked) found,
        record {
          cached = v;
          in_cache = ground (arith, unknown, idle, apart, ids.eq_refl n.identity.peer_id);
          same_addrs = refl;
          in_flight = ground (
            arith,
            unknown,
            idle,
            apart,
            ids.eq_refl n.identity.peer_id,
            member-append_one c.peer_eq n.identity.peer_id n.identity.peer_id m.dialing,
          );
          dialled = ground (arith, unknown, idle, apart, ids.eq_refl n.identity.peer_id);
        },
      )
