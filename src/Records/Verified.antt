-- ===== src/Records/Verified.antt =====
-- src/records.rs: what a record that `verify_addr_record` accepts is worth.
use jeangrey.Prelude.{
  ℕ, ◌+◌, ◌%◌, ◌^◌, ◌≤◌, ◌≡◌, refl, sym, subst, suc, ap, ap₂, map, ◌∙◌, arith, Bool, true, false,
  not, ◌||◌, some, List, [], ◌∷◌, ok, ensure_inv, ok_or_inv, >>=_inv, ok-injective, length, ltb,
  leb, ◌==◌, bytes_eq,
}
use jeangrey.Crates.{Crates, PeerIdLaws}
use jeangrey.Crypto.{verify, pubkey_from_bytes}
use jeangrey.Identity.{peer_id_of}
use jeangrey.Records.{
  AddrRecord, Codecs, VerifiedRecord, panicked, failed, malformed, expired, from_the_future,
  key_mismatch, bad_signature, bad_key, no_addresses, too_many_addresses, bad_address,
  unsupported_version, signed_bytes, record_kind, max_skew_secs, max_addrs, any, is_tcp, is_p2p,
  contains, sixteen, check_addrs, verify_addr_record,
}

not-true : (b : Bool) → not b ≡ true → b ≡ false
not-true false h = refl
not-true true h = absurd (cc)

not-ltb : (m n : ℕ) → not (ltb m n) ≡ true → n ≤ m
not-ltb m n h = ground arith

nonempty_bound : (m n : ℕ) → m ≡ n → not (n == 0) ≡ true → 1 ≤ m
nonempty_bound m n e h = ground arith

leb_bound : (m n k : ℕ) → m ≡ n → leb n k ≡ true → m ≤ k
leb_bound m n k e h = ground arith

module _ (c : Crates) where
  -- Each address has a TCP component and no peer id, and no two print alike.
  abbrev pub Usable : List c.Multiaddr → List (List ℕ) → Type 0
  Usable [] seen = Unit {0}
  Usable (a ∷ rest) seen =
      (any is_tcp (c.protocols a) ≡ true)
      × (any is_p2p (c.protocols a) ≡ false)
      × (contains (c.addr_to_string a) seen ≡ false)
      × Usable rest (c.addr_to_string a ∷ seen)

  check_addrs-Usable :
      (texts seen : List (List ℕ)) (addrs : List c.Multiaddr)
      → check_addrs c texts seen ≡ ok addrs
      → Usable addrs seen
        × (length addrs ≡ length texts)
        × (map c.addr_from_str texts ≡ map some addrs)
  unfolding check_addrs
  check_addrs-Usable [] seen addrs h =
      subst (λ z. Usable z seen × (length z ≡ 0) × ([] ≡ map some z)) {x = []} (ok-injective h)
        (tt, refl, refl)
  check_addrs-Usable (t ∷ texts) seen addrs h =
      ok_or_inv (c.addr_from_str t) (failed bad_address) _ h λ a parsed h1.
        ensure_inv (any is_tcp (c.protocols a)) (failed bad_address) _ h1 λ has_tcp h2.
          ensure_inv (not (any is_p2p (c.protocols a))) (failed bad_address) _ h2 λ no_p2p h3.
            ensure_inv (not (contains (c.addr_to_string a) seen)) (failed bad_address) _ h3
              λ fresh h4.
                >>=_inv (check_addrs c texts (c.addr_to_string a ∷ seen)) _ h4 λ rest tail h5.
                  let (usable, size, read) =
                    check_addrs-Usable texts (c.addr_to_string a ∷ seen) rest tail in
                  subst
                    (λ z.
                      Usable z seen
                      × (length z ≡ suc (length texts))
                      × (c.addr_from_str t ∷ map c.addr_from_str texts ≡ map some z))
                    {x = a ∷ rest} (ok-injective h5)
                    (
                      (has_tcp, not-true _ no_p2p, not-true _ fresh, usable),
                      ap suc size,
                      ap₂ ◌∷◌ parsed read,
                    )

module _ (c : Crates) (x : Codecs) where
  -- The checks that stand behind an accepted record.
  pub record Vouched (key : List ℕ) (r : AddrRecord) (now : ℕ) (v : VerifiedRecord c) : Type 0 where
    pub pubkey : c.VerifyingKey
    pub key_bytes : List ℕ
    pub signature : List ℕ
    pub key_encoded : x.b64_decode r.pubkey_b64 ≡ some key_bytes
    pub key_parsed : pubkey_from_bytes c key_bytes ≡ some pubkey
    pub signature_encoded : x.b64_decode r.sig_b64 ≡ some signature
    pub named_by_key : c.peer_from_bytes key ≡ some v.peer_id
    pub self_certified : peer_id_of c pubkey ≡ some v.peer_id
    pub signed : verify c pubkey (signed_bytes r) signature ≡ true
    pub not_future : r.issued_at ≤ (now + max_skew_secs) % 2 ^ 64
    pub not_expired : now ≤ (r.issued_at + r.ttl_secs + max_skew_secs) % 2 ^ 64
    pub usable : Usable c v.addrs []
    pub some_addrs : 1 ≤ length v.addrs
    pub few_addrs : length v.addrs ≤ max_addrs
    pub same_time : v.issued_at ≡ r.issued_at
    pub same_name : v.user_name ≡ r.user_name
    pub same_addrs : map c.addr_from_str r.addrs ≡ map some v.addrs
    pub same_transport : c.peer_from_str r.transport_peer_b58 ≡ some v.transport_peer
    pub same_device : sixteen (x.hex_decode r.device_uuid) ≡ some v.device_uuid
    pub same_user : sixteen (x.hex_decode r.user_id_hex) ≡ some v.user_id

  -- If `verify_addr_record` accepts a record under a key, then the key and the hash of the public
  -- key that the record carries name the same peer id as the result, the record's signature over
  -- its signed bytes was verified under that public key, the record is neither from the future
  -- nor expired (with the sums taken modulo 2^64), and the result has the record's user id, user
  -- name, device uuid, transport id, time and addresses, of which there are 1 to 8, each with a
  -- TCP component and no peer id, no two printing alike. The equality test of peer ids is taken
  -- to decide equality.
  pub verify_addr_record-Vouched :
      (ids : PeerIdLaws c) (key : List ℕ) (r : AddrRecord) (now : ℕ) (v : VerifiedRecord c)
      → verify_addr_record c x key r now ≡ ok v
      → Vouched key r now v
  unfolding verify_addr_record
  verify_addr_record-Vouched ids key r now v h =
      ensure_inv (r.v == 1) (failed (unsupported_version r.v)) _ h λ version h1.
        ensure_inv (bytes_eq r.kind record_kind) (failed malformed) _ h1 λ kind h2.
          ensure_inv (not (ltb ((now + max_skew_secs) % 2 ^ 64) r.issued_at))
            (failed from_the_future) _ h2
            λ future h3.
              ensure_inv (not (ltb ((r.issued_at + r.ttl_secs + max_skew_secs) % 2 ^ 64) now))
                (failed expired) _ h3
                λ expiry h4.
                  ok_or_inv (x.b64_decode r.pubkey_b64) (failed malformed) _ h4
                    λ pk_bytes decoded h5.
                      ok_or_inv (pubkey_from_bytes c pk_bytes) (failed malformed) _ h5
                        λ pubkey parsed h6.
                          ok_or_inv (peer_id_of c pubkey) panicked _ h6 λ computed hashed h7.
                            ok_or_inv (c.peer_from_bytes key) (failed bad_key) _ h7
                              λ key_peer named h8.
                                ensure_inv (c.peer_eq computed key_peer) (failed key_mismatch) _ h8
                                  λ match h9.
                                    ensure_inv (bytes_eq r.peer_id (c.peer_to_base58 computed))
                                      (failed key_mismatch) _ h9
                                      λ printed h10.
                                        ok_or_inv (x.b64_decode r.sig_b64) (failed malformed) _ h10
                                          λ sig sig_decoded h11.
                                            ensure_inv (verify c pubkey (signed_bytes r) sig)
                                              (failed bad_signature) _ h11
                                              λ valid h12.
                                                ok_or_inv (sixteen (x.hex_decode r.user_id_hex))
                                                  (failed malformed) _ h12
                                                  λ user_id user_ok h13.
                                                    ensure_inv
                                                      (not (
                                                        length r.user_name == 0
                                                        || ltb 64 (length r.user_name)))
                                                      (failed malformed) _ h13
                                                      λ name_ok h14.
                                                        ok_or_inv
                                                          (c.peer_from_str r.transport_peer_b58)
                                                          (failed malformed) _ h14
                                                          λ transport transport_ok h15.
                                                            ensure_inv (not (length r.addrs == 0))
                                                            (failed no_addresses) _ h15
                                                            λ nonempty h16.
                                                            ensure_inv
                                                            (leb (length r.addrs) max_addrs)
                                                            (failed too_many_addresses) _ h16
                                                            λ few h17.
                                                            >>=_inv (check_addrs c r.addrs []) _ h17
                                                            λ addrs checked h18.
                                                            ok_or_inv
                                                            (sixteen (x.hex_decode r.device_uuid))
                                                            (failed malformed) _ h18
                                                            λ uuid uuid_ok h19.
                                                            subst (Vouched key r now)
                                                            (ok-injective h19)
                                                            (record {
                                                            pubkey = pubkey;
                                                            key_bytes = pk_bytes;
                                                            signature = sig;
                                                            key_encoded = decoded;
                                                            key_parsed = parsed;
                                                            signature_encoded = sig_decoded;
                                                            named_by_key =
                                                            named
                                                            ∙ ap some (
                                                            sym (ids.eq→≡ computed key_peer match));
                                                            self_certified = hashed;
                                                            signed = valid;
                                                            not_future = not-ltb _ _ future;
                                                            not_expired = not-ltb _ _ expiry;
                                                            usable =
                                                            (check_addrs-Usable c r.addrs [] addrs
                                                            checked).0;
                                                            some_addrs =
                                                            nonempty_bound _ _
                                                            (check_addrs-Usable c r.addrs [] addrs
                                                            checked).1
                                                            nonempty;
                                                            few_addrs =
                                                            leb_bound _ _ _
                                                            (check_addrs-Usable c r.addrs [] addrs
                                                            checked).1
                                                            few;
                                                            same_time = refl;
                                                            same_name = refl;
                                                            same_addrs =
                                                            (check_addrs-Usable c r.addrs [] addrs
                                                            checked).2;
                                                            same_transport = transport_ok;
                                                            same_device = uuid_ok;
                                                            same_user = user_ok;
                                                            })
